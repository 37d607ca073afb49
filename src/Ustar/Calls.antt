-- ===== src/Ustar/Calls.antt =====
-- UstarFilesystem: the calls of the file layer on a tar disc. The heap objects that `custom` points
-- to are a map from addresses, of which `brk` is the next.
use cxx_kernel.Base.{
  ℕ, zero, suc, ◌+◌, ◌-◌, ◌/◌, Bool, true, false, List, [], ◌∷◌, Option, none, some, Outcome, done,
  no_fuel, fault, ◌>>=◌, ◌==◌, if◌then◌else◌, update, Errno, eperm, enoent, ebadf, Posix, success,
  failure,
}
use cxx_kernel.Text.{Text, equal}
use cxx_kernel.Files.{Files, map_file, close_file, get_custom}
use cxx_kernel.Ustar.{
  Disc, Iterator, Kind, file, invalid, hard_link, sym_link, char_dev, block_dev, dir, fifo,
  block_size, list, next, name, kind,
}
use cxx_kernel.Ustar.Reading

pub record Mounted : Type 0 where
  pub table : Files
  pub objects : ℕ → Option Iterator
  pub brk : ℕ

abbrev pub is_file : Kind → Bool
is_file file = true
is_file invalid = false
is_file hard_link = false
is_file sym_link = false
is_file char_dev = false
is_file block_dev = false
is_file dir = false
is_file fifo = false

-- while (iter.ok()) { if (iter.name() == path) return iter; if (!iter.next()) break; }
unfoldable pub find_loop : ℕ → Disc → Text → Iterator → Outcome Iterator
find_loop zero disc path it = no_fuel
find_loop (suc f) disc path it =
    let rest = λ (it' : Iterator). find_loop f disc path it' in
    if it.ok
    then if equal (name it) path
      then done it
      else next 3 disc it >>= (λ r. if r.0 then rest r.1 else done r.1)
    else done it

unfoldable pub find_file : ℕ → Disc → Text → Iterator → Outcome Iterator
find_file fuel disc path it = list 3 disc 0 it >>= (λ found. find_loop fuel disc path found)

abbrev pub type_name : Text
type_name = b'U' ∷ b's' ∷ b't' ∷ b'a' ∷ b'r' ∷ []

-- open, whose new object is a copy of the iterator (`assign`).
unfoldable pub open_file : ℕ → Disc → ℕ → Text → Iterator → Mounted → Outcome (Posix ℕ × Mounted)
open_file fuel disc self path fresh m = find_file fuel disc path fresh >>= (λ it.
    let (id, table') = map_file type_name path self m.brk m.table in
    let m' = record m {
      table = table';
      objects = update m.objects m.brk (some it);
      brk = m.brk + 1;
    } in
    done (
      if it.ok
      then if is_file (kind it) then (success id, m') else (failure eperm, m)
      else (failure enoent, m)))

-- close deletes the object first, and then looks for the handle.
unfoldable pub close : ℕ → Mounted → Posix ℕ × Mounted
close fh m =
    let (found, table') = close_file fh m.table in
    let custom = get_custom fh m.table in
    let objects' = if custom == 0 then m.objects else update m.objects custom none in
    let m' = record m { table = table'; objects = objects' } in
    if found then (success 0, m') else (failure ebadf, m')

-- read; a handle whose object is gone is a fault.
unfoldable pub read : ℕ → Disc → ℕ → ℕ → Mounted → Outcome (Posix (List ℕ) × Mounted)
read fuel disc fh count m =
    let custom = get_custom fh m.table in
    if custom == 0 then done (failure enoent, m) else elim (m.objects custom) [
      | none ↦ fault
      | some it ↦
          Reading.read fuel disc count it
          >>= (λ r. done (success r.0, record m { objects = update m.objects custom (some r.1) }))
    ]

pub record Status : Type 0 where
  pub st_size : ℕ
  pub st_blksize : ℕ
  pub st_blocks : ℕ
  pub st_ino : ℕ

-- stat; `none` is -ENOENT.
unfoldable pub stat : ℕ → Mounted → Outcome (Option Status)
stat fd m =
    let custom = get_custom fd m.table in
    if custom == 0 then done none else elim (m.objects custom) [
      | none ↦ fault
      | some it ↦ done (
          some record {
            st_size = it.size;
            st_blksize = block_size;
            st_blocks = (it.size + block_size - 1) / block_size;
            st_ino = it.block;
          })
    ]

-- The calls that answer without looking.
pub data Request : Type 0 where
  truncate chmod getattr fseek write symlink rename unlink flush : Request
  opendir closedir mkdir rmdir : Request

pub data Answer : Type 0 where
  zero_result null_result minus_one : Answer
  minus_one_with : Errno → Answer

unfoldable pub answer : Request → Answer
answer truncate = minus_one_with eperm
answer chmod = minus_one_with eperm
answer getattr = minus_one_with eperm
answer fseek = minus_one_with ebadf
answer write = minus_one_with eperm
answer symlink = minus_one_with eperm
answer rename = minus_one_with eperm
answer unlink = minus_one_with eperm
answer flush = zero_result
answer opendir = null_result
answer closedir = minus_one
answer mkdir = minus_one_with eperm
answer rmdir = minus_one_with eperm
