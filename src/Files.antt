-- ===== src/Files.antt =====
-- The table of open files in Filesystem (inc/fs/filesystem.hh, src/fs/filesystem.cpp), shared by
-- all file systems, and the path helpers. m_files is a List; it is seen here as its items, in
-- order, which LinkedList/ justifies for append, at and deleteAt. __fs_mutex makes each operation
-- one step. Handles are ints that do not reach 2^31.
pub mod Handles
pub mod Paths
use cxx_kernel.Base.{
  ℕ, zero, suc, ◌+◌, Bool, true, false, ◌&&◌, List, [], ◌∷◌, ◌++◌, Option, none, some, ◌==◌, ltb,
  if◌then◌else◌, Errno, ebadf, Posix, success, failure, length, get_elem?,
}
use cxx_kernel.Text.{Text, equal, append_char}

pub record FileData : Type 0 where
  pub fs : Text
  pub name : Text
  pub id : ℕ
  pub owner : ℕ
  pub custom : ℕ
  pub fcntl : ℕ

pub record Files : Type 0 where
  pub filehandle : ℕ
  pub files : List FileData

unfoldable pub no_files : Files
no_files = record { filehandle = 2; files = [] }

-- mapfile appends an entry under the next handle, and returns the handle.
unfoldable pub map_file : Text → Text → ℕ → ℕ → Files → ℕ × Files
map_file fs name owner custom t =
    let id = t.filehandle + 1 in
    (
      id,
      record t {
        filehandle = id;
        files =
            t.files
            ++ record { fs = fs; name = name; id = id; owner = owner; custom = custom; fcntl = 0 }
              ∷ [];
      },
    )

-- The loop over the entries that getFS, getCustom, getFilesystem, getName and getFcntl share.
unfoldable pub find_id : ℕ → List FileData → Option FileData
find_id fh [] = none
find_id fh (f ∷ fs) = if f.id == fh then some f else find_id fh fs

-- getfile; `none` is -1.
unfoldable pub get_file : Text → Text → List FileData → Option ℕ
get_file fs name [] = none
get_file fs name (f ∷ rest) =
    if equal f.fs fs && equal f.name name then some f.id else get_file fs name rest

unfoldable pub get_fs : ℕ → Files → Text
get_fs fh t = elim (find_id fh t.files) [ none ↦ [] | some f ↦ f.fs ]

unfoldable pub get_custom : ℕ → Files → ℕ
get_custom fh t = elim (find_id fh t.files) [ none ↦ 0 | some f ↦ f.custom ]

unfoldable pub get_filesystem : ℕ → Files → ℕ
get_filesystem fh t = elim (find_id fh t.files) [ none ↦ 0 | some f ↦ f.owner ]

unfoldable pub get_name : ℕ → Files → Text
get_name fh t = elim (find_id fh t.files) [ none ↦ [] | some f ↦ f.name ]

-- closefile: the first entry with the handle goes, by deleteAt at its position.
unfoldable pub close_in : ℕ → List FileData → Option (List FileData)
close_in fh [] = none
close_in fh (f ∷ fs) =
    let rest = close_in fh fs in
    if f.id == fh then some fs else elim rest [ none ↦ none | some fs' ↦ some (f ∷ fs') ]

unfoldable pub close_file : ℕ → Files → Bool × Files
close_file fh t = elim (close_in fh t.files) [
  | none ↦ (false, t)
  | some fs ↦ (true, record t { files = fs })
]

unfoldable pub get_fcntl : ℕ → Files → Posix ℕ
get_fcntl fh t = elim (find_id fh t.files) [ none ↦ failure ebadf | some f ↦ success f.fcntl ]

unfoldable pub set_fcntl_in : ℕ → ℕ → List FileData → Option (List FileData)
set_fcntl_in fh mode [] = none
set_fcntl_in fh mode (f ∷ fs) =
    let rest = set_fcntl_in fh mode fs in
    if f.id == fh
    then some (record f { fcntl = mode } ∷ fs)
    else elim rest [ none ↦ none | some fs' ↦ some (f ∷ fs') ]

unfoldable pub set_fcntl : ℕ → ℕ → Files → Posix ℕ × Files
set_fcntl fh mode t = elim (set_fcntl_in fh mode t.files) [
  | none ↦ (failure ebadf, t)
  | some fs ↦ (success 0, record t { files = fs })
]

abbrev pub slash : ℕ
slash = b'/'

-- pathParts
unfoldable pub path_parts : Text → ℕ
path_parts [] = 0
path_parts (c ∷ path) = if c == slash then suc (path_parts path) else path_parts path

-- The loop of pathPart, with `cnt` slashes behind it.
unfoldable pub path_part_loop : ℕ → ℕ → Text → Text → Text
unfolding append_char
path_part_loop cnt index res [] = res
path_part_loop cnt index res (c ∷ path) =
    let after_slash = path_part_loop (cnt + 1) index res path in
    let taken = path_part_loop cnt index (append_char res c) path in
    let passed = path_part_loop cnt index res path in
    if c == slash
    then (if ltb 0 (length res) then res else after_slash)
    else if cnt == index
    then taken
    else passed

unfoldable pub path_part : Text → ℕ → Text
path_part path index = path_part_loop 0 index [] path

-- A directory with its cursor; `m_items` are the addresses of its entries.
pub record Dir : Type 0 where
  pub entries : List ℕ
  pub index : ℕ

unfoldable pub reset : Dir → Dir
reset d = record d { index = 0 }

-- Dir::next; `none` is nullptr.
unfoldable pub next_entry : Dir → Option ℕ × Dir
next_entry d =
    if ltb d.index (length d.entries)
    then (get_elem? d.entries d.index, record d { index = d.index + 1 })
    else (none, d)
