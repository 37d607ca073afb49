-- ===== src/Base/Returns.antt =====
-- What a call of the file layer returns: a value, or -1 with errno set.
pub data Errno : Type 0 where
  eperm enoent ebadf : Errno

pub data Posix {ℓ} (A : Type ℓ) : Type ℓ where
  success : A → Posix A
  failure : Errno → Posix A
