-- ===== src/Vfs.antt =====
-- The class VFS (inc/fs/vfs.hh, src/fs/vfs.cpp). A file system object is seen by its kind and the
-- mount point and options that mount copies into a new object; `ident` is its address. m_filesystems
-- and m_mounts hold no null pointer, since register_filesystem and mount append objects only.
pub mod Lookup
use cxx_kernel.Base.{
  ℕ, zero, suc, ◌+◌, Bool, true, false, List, [], ◌∷◌, ◌++◌, Option, none, some, ◌==◌, length,
  if◌then◌else◌,
}
use cxx_kernel.Files.{Files, get_filesystem, slash}
use cxx_kernel.Text.{Text, equal, starts_with, right, at}

pub record Filesystem : Type 0 where
  pub ident : ℕ
  pub kind : Text
  pub mountpoint : Text
  pub opts : Text

pub record Vfs : Type 0 where
  pub filesystems : List Filesystem
  pub mounts : List Filesystem

unfoldable pub register_filesystem : Filesystem → Vfs → Vfs
register_filesystem fs v = record v { filesystems = v.filesystems ++ fs ∷ [] }

-- find_filesystem: the first registered file system of the kind.
unfoldable pub find_kind : Text → List Filesystem → Option Filesystem
find_kind kind [] = none
find_kind kind (fs ∷ rest) = if equal fs.kind kind then some fs else find_kind kind rest

-- The mount of DevFS, Ustar and ClothesFS: a new object at the address `ident`.
unfoldable pub mount_filesystem : ℕ → Text → Text → Filesystem → Filesystem
mount_filesystem ident mountpoint opts fs = record fs {
  ident = ident;
  mountpoint = mountpoint;
  opts = opts;
}

unfoldable pub mount : ℕ → Text → Text → Text → Vfs → Bool × Vfs
mount ident mountpoint kind opts v = elim (find_kind kind v.filesystems) [
  | none ↦ (false, v)
  | some fs ↦
      (true, record v { mounts = v.mounts ++ mount_filesystem ident mountpoint opts fs ∷ [] })
]

-- access: the first mount whose mount point begins the file's name.
unfoldable pub access : Text → List Filesystem → Option Filesystem
access file [] = none
access file (fs ∷ rest) = if starts_with file fs.mountpoint then some fs else access file rest

-- accessHandle asks the first mount only; the table of open files is shared by all.
unfoldable pub access_handle : ℕ → Files → List Filesystem → ℕ
access_handle fd t [] = 0
access_handle fd t (fs ∷ rest) = get_filesystem fd t

unfoldable pub basedir : Text → Option Filesystem → Text
basedir file none = file
basedir file (some fs) = right file (length fs.mountpoint + 1)

-- while (res[0] == '/') res = res.right(1);
unfoldable pub strip_loop : ℕ → Text → Option Text
strip_loop zero res = none
strip_loop (suc f) res =
    let rest = strip_loop f (right res 1) in if at res 0 == slash then rest else some res

unfoldable pub stripslash : Text → Option Text
stripslash name = strip_loop (length name + 1) name
