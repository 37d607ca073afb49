-- ===== src/Tests/FileRuns.antt =====
-- The table of open files, the mounts and the devices.
use cxx_kernel.Base.{
  ℕ, ◌≡◌, ◌↔◌, refl, [], ◌∷◌, ◌++◌, none, some, true, false, arith, ◌==◌, if◌then◌else◌,
}
use cxx_kernel.Text.{Text, equal, equal_from}
use cxx_kernel.Files.{Files, no_files, map_file, close_file, find_id, slash}
use cxx_kernel.Files.Handles.{IsOrdered, map_file-find, close_file-find}
use cxx_kernel.Vfs.{Vfs, Filesystem, mount, mount_filesystem, access, basedir, find_kind}
use cxx_kernel.Vfs.Lookup.{mount-access}
use cxx_kernel.Devfs.{random_name, any_flag, is_random}

abbrev ab : Text
ab = b'a' ∷ b'b' ∷ []

no_files-IsOrdered : IsOrdered no_files
unfolding no_files
no_files-IsOrdered = omega arith

abbrev one_file : Files
one_file = (map_file ab ab 5 6 no_files).1

one_file-IsOrdered : IsOrdered one_file
one_file-IsOrdered = (map_file-find ab ab 5 6 no_files no_files-IsOrdered).0

close_file-find_example :
    let (found, t') = close_file 3 one_file in
    ((found ≡ false) ↔ (find_id 3 one_file.files ≡ none))
    × IsOrdered t'
    × ((k : ℕ) → find_id k t'.files ≡ (if 3 == k then none else find_id k one_file.files))
close_file-find_example = close_file-find 3 one_file one_file-IsOrdered

abbrev dev : Filesystem
dev = record { ident = 1; kind = ab; mountpoint = []; opts = [] }

abbrev kernel_vfs : Vfs
kernel_vfs = record { filesystems = dev ∷ []; mounts = [] }

find_kind_run : find_kind ab kernel_vfs.filesystems ≡ some dev
unfolding find_kind equal equal_from
find_kind_run = refl

mount-access_example :
    let (mounted, v') = mount 7 (slash ∷ ab) ab [] kernel_vfs in
    let fs = mount_filesystem 7 (slash ∷ ab) [] dev in
    let name = (slash ∷ ab) ++ slash ∷ ab in
    (mounted ≡ true) × (access name v'.mounts ≡ some fs) × (basedir name (some fs) ≡ ab)
mount-access_example = mount-access 7 (slash ∷ ab) ab [] ab kernel_vfs dev find_kind_run tt

is_random_run : is_random random_name ≡ true
unfolding is_random equal equal_from
is_random_run = refl

any_flag_run : any_flag 0 (64 ∷ []) ≡ false
unfolding any_flag
any_flag_run = refl
