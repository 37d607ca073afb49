-- ===== src/Syscalls.antt =====
-- System calls on files (libc/syscall_fileio.cpp), built with FEATURE_STORAGE. A buffer that a call
-- fills is the list of the bytes that the call writes to it, a buffer that it reads is a list of bytes.
-- The file systems behind the mounts are a FileCalls; `type_keys` says what the keyboard sends while
-- the calls sleep. The messages are left out, and what the keyboard shows of a key.
pub mod Output
pub mod Input
use cxx_kernel.Base.{
  ℕ, zero, suc, ◌+◌, ◌-◌, ◌*◌, ◌/◌, ◌%◌, ◌^◌, Bool, true, false, ◌&&◌, ◌||◌, not, List, [], ◌∷◌,
  ◌++◌, Option, some, none, Outcome, done, no_fuel, ◌>>=◌, ltb, leb, ◌==◌, if◌then◌else◌, length,
  take,
}
use cxx_kernel.Files.{Files, slash}
use cxx_kernel.Keyboard.{Keyboard, run, get_key}
use cxx_kernel.Text.{Text}
use cxx_kernel.Vfs.{Vfs, Filesystem, access, access_handle, basedir, stripslash}
use cxx_kernel.Video.{Video, handle_char, set_origin}

-- The error numbers that the calls return as negative values.
pub data Errno : Type 0 where
  eperm : Errno
  enoent : Errno
  ebadf : Errno
  einval : Errno
  enametoolong : Errno

-- What a call returns; `minus_one` is what a file system returns in an error.
pub data Code : Type 0 where
  ret : ℕ → Code
  err : Errno → Code
  minus_one : Code

-- The calls of the file systems, on the object with the address of the first argument, and the table
-- of open files and the volumes that they share.
pub record FileCalls (S : Type 0) : Type 0 where
  pub open_file : ℕ → Text → ℕ → Files × S → Code × (Files × S)
  pub read : ℕ → ℕ → ℕ → Files × S → Code × List ℕ × (Files × S)
  pub write : ℕ → ℕ → List ℕ → Files × S → Code × (Files × S)
  pub close : ℕ → ℕ → Files × S → Code × (Files × S)
  pub set_fcntl : ℕ → ℕ → ℕ → Files × S → Code × (Files × S)
  pub get_fcntl : ℕ → ℕ → Files × S → Code × (Files × S)

pub record Kernel (S : Type 0) : Type 0 where
  pub video : Video
  pub keyboard : Keyboard
  pub vfs : Vfs
  pub disc : Files × S

abbrev pub is_screen : ℕ → Bool
is_screen fd = fd == 1 || fd == 2

-- handleChar of each byte.
unfoldable pub show_bytes : List ℕ → Video → Video
show_bytes [] v = v
show_bytes (c ∷ cs) v = show_bytes cs (handle_char c v)

-- The loop of writev over the buffers, after `cnt` bytes.
unfoldable pub show_buffers : List (List ℕ) → ℕ → Video → Code × Video
show_buffers [] cnt v = (ret cnt, v)
show_buffers (b ∷ bs) cnt v =
    let rest = show_buffers bs (cnt + length b) (show_bytes b v) in
    if leb (2 ^ 31) (length b) then (err einval, v) else rest

-- The bytes of the text of a key, in UTF-8.
unfoldable pub text_of : ℕ → List ℕ
text_of key = if ltb key 128 then key ∷ [] else (192 + key / 64) ∷ (128 + key % 64) ∷ []

-- The codes that come while a call sleeps.
unfoldable pub type_keys : List ℕ → Keyboard → Keyboard
type_keys [] k = k
type_keys (c ∷ cs) k = type_keys cs (run c k)

-- The bytes read, the keyboard and the codes of the sleeps to come; `waits` where the call still
-- waits for a key when they are used up.
pub record Reading : Type 0 where
  pub bytes : List ℕ
  pub keyboard : Keyboard
  pub sleeps : List (List ℕ)
  pub waits : Bool

abbrev pub more_bytes : List ℕ → Reading → Reading
more_bytes bs r = record r { bytes = bs ++ r.bytes }

-- The loop of read on the keyboard, with `c` bytes read.
unfoldable pub read_keys : ℕ → ℕ → ℕ → Keyboard → List (List ℕ) → Outcome Reading
read_keys zero cnt c k sleeps = no_fuel
read_keys (suc f) cnt c k sleeps =
    let (key, k') = get_key k in
    let text = take cnt (text_of key) in
    elim (ltb c cnt) [
      | false ↦ done (record { bytes = []; keyboard = k; sleeps = sleeps; waits = false })
      | true ↦ elim (key == 0) [
        | true ↦ elim sleeps [
          | [] ↦ done (record { bytes = []; keyboard = k'; sleeps = []; waits = true })
          | codes ∷ rest ↦ read_keys f cnt c (type_keys codes k') rest
        ]
        | false ↦ elim (key == 10) [
          | true ↦ done (record { bytes = text; keyboard = k'; sleeps = sleeps; waits = false })
          | false ↦ read_keys f cnt (c + length text) k' sleeps >>= (λ r. done (more_bytes text r))
        ]
      ]
    ]

module _ {S : Type 0} (calls : FileCalls S) where
  -- A call on the handle of a file system that is not null.
  abbrev pub on_handle : {A : Type 0} → ℕ → Kernel S → A → (ℕ → A) → A
  on_handle fd k failed call =
      let fs = access_handle fd k.disc.0 k.vfs.mounts in if fs == 0 then failed else call fs

  abbrev pub keep : Kernel S → Code × (Files × S) → Code × Kernel S
  keep k r = (r.0, record k { disc = r.1 })

  unfoldable pub syscall_write : ℕ → List ℕ → Kernel S → Code × Kernel S
  syscall_write fd buf k =
      if is_screen fd
      then (ret (length buf), record k { video = show_bytes buf k.video })
      else on_handle fd k (err eperm, k) (λ fs. keep k (calls.write fs fd buf k.disc))

  unfoldable pub syscall_writev : ℕ → List (List ℕ) → Kernel S → Code × Kernel S
  syscall_writev fd iov k =
      let (code, v) = show_buffers iov 0 k.video in
      if is_screen fd then (code, record k { video = v }) else (err einval, k)

  -- read of a handle of the file systems.
  unfoldable pub read_file : ℕ → ℕ → Kernel S → Code × List ℕ × Kernel S
  read_file fd cnt k =
      on_handle fd k (err eperm, [], k)
        (λ fs.
          let (code, bytes, d) = calls.read fs fd cnt k.disc in
          (code, bytes, record k { disc = d }))

  -- read of the handle 0, which begins with startReading; the codes that are left are those of later sleeps.
  unfoldable pub read_input : ℕ → ℕ → List (List ℕ) → Kernel S → Outcome (Code × Reading × Kernel S)
  read_input fuel cnt sleeps k = read_keys fuel cnt 0 k.keyboard sleeps >>= (λ r.
      done
        (ret (length r.bytes), r, record k { keyboard = r.keyboard; video = set_origin k.video }))

  unfoldable pub syscall_close : ℕ → Kernel S → Code × Kernel S
  syscall_close fd k = on_handle fd k (err eperm, k) (λ fs. keep k (calls.close fs fd k.disc))

  -- F_SETFD and F_GETFD are 2 and 1.
  unfoldable pub syscall_fcntl : ℕ → ℕ → ℕ → Kernel S → Code × Kernel S
  syscall_fcntl fd cmd arg k =
      on_handle fd k (err eperm, k)
        (λ fs.
          if cmd == 2
          then keep k (calls.set_fcntl fs fd arg k.disc)
          else if cmd == 1
          then keep k (calls.get_fcntl fs fd k.disc)
          else (err enoent, k))

  -- open; none is the loop of stripslash that does not end.
  unfoldable pub open_stripped : ℕ → ℕ → Option Text → Kernel S → Option (Code × Kernel S)
  open_stripped fs flags none k = none
  open_stripped fs flags (some base) k = some (keep k (calls.open_file fs base flags k.disc))

  unfoldable pub open_at : Option Filesystem → Text → ℕ → Kernel S → Option (Code × Kernel S)
  open_at none name flags k = some (err enoent, k)
  open_at (some fs) name flags k =
      open_stripped fs.ident flags (stripslash (basedir name (some fs))) k

  unfoldable pub syscall_open : Option Text → ℕ → Kernel S → Option (Code × Kernel S)
  syscall_open none flags k = some (err enoent, k)
  syscall_open (some name) flags k = open_at (access name k.vfs.mounts) name flags k

-- getcwd, for a buffer that is not null or null; the directory is always the root.
unfoldable pub syscall_getcwd : Bool → ℕ → Code × List ℕ
syscall_getcwd is_null size =
    if is_null || size == 0
    then (err einval, [])
    else if ltb size 2
    then (err enametoolong, [])
    else (ret 0, slash ∷ 0 ∷ [])

-- readlink, which gives the name back.
unfoldable pub syscall_readlink : Option Text → ℕ → Code × List ℕ
syscall_readlink none size = (err enoent, [])
syscall_readlink (some name) size =
    if length name == 0 then (err enoent, []) else (ret (length (take size name)), take size name)

unfoldable pub syscall_llseek : Code
syscall_llseek = err eperm
