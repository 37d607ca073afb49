-- ===== src/ClothesFs/Calls.antt =====
-- ClothesFilesystem: the calls of the file layer. The iterators that `custom` points to are a map
-- from addresses, of which `brk` is the next.
use Prim.Native.Nat.{bit_and}
use cxx_kernel.Base.{
  ℕ, zero, suc, ◌+◌, ◌-◌, ◌%◌, ◌^◌, not, ◌||◌, List, [], ◌∷◌, Option, none, some, ltb, ◌==◌,
  if◌then◌else◌, update, Errno, eperm, enoent, ebadf, Posix, success, failure,
}
use cxx_kernel.Text.{Text, equal}
use cxx_kernel.Files.{Files, map_file, close_file, get_custom, path_parts, path_part}
use cxx_kernel.ClothesFs.Volume.{Method, pure, fail, exhausted, ◌>>=◌, asks}
use cxx_kernel.ClothesFs.Meta.{meta_file, meta_dir}
use cxx_kernel.ClothesFs.Iterator
use cxx_kernel.ClothesFs.Iterator.{Iterator, new_iterator, list, next, name, kind}

-- What findFile does at an entry of the name it looks for.
pub data Match : Type 0 where
  found descend no_match : Match

unfoldable pub match_entry : Text → ℕ → ℕ → Iterator → Match
match_entry fname part parts it =
    let last = (parts + (2 ^ 32 - 1)) % 2 ^ 32 in
    let is_dir = not (bit_and (kind it) meta_dir == 0) in
    if not (equal (name it) fname)
    then no_match
    else if part == last || part == parts
    then found
    else if ltb part last
    then if is_dir then descend else found
    else no_match

-- findFile and its loop, with fuel for their turns.
unfoldable mutual
  pub find_file : ℕ → Text → ℕ → ℕ → Method Iterator
  find_file zero path part parent = exhausted
  find_file (suc f) path part parent =
      if ltb (path_parts path) part
      then asks (λ v. new_iterator 0 v.fresh)
      else list parent >>= (λ it. find_loop f path part it)

  pub find_loop : ℕ → Text → ℕ → Iterator → Method Iterator
  find_loop zero path part it = exhausted
  find_loop (suc f) path part it =
      let go_on : Method Iterator =
        next it >>= (λ r. if r.0 then find_loop f path part r.1 else pure r.1) in
      if it.ok
      then elim (match_entry (path_part path part) part (path_parts path) it) [
        | found ↦ pure it
        | descend ↦ find_file f path (part + 1) it.block
        | no_match ↦ go_on
      ]
      else pure it

pub record Mounted : Type 0 where
  pub table : Files
  pub objects : ℕ → Option Iterator
  pub brk : ℕ

abbrev pub type_name : Text
type_name = b'C' ∷ b'l' ∷ b'o' ∷ b't' ∷ b'h' ∷ b'e' ∷ b's' ∷ b'F' ∷ b'S' ∷ []

unfoldable pub open_found : ℕ → Text → Iterator → Mounted → Posix ℕ × Mounted
open_found self path it m =
    let (id, table') = map_file type_name path self m.brk m.table in
    let m' = record m {
      table = table';
      objects = update m.objects m.brk (some (record it { pos = 0 }));
      brk = m.brk + 1;
    } in
    if not it.ok
    then (failure enoent, m)
    else if bit_and (kind it) meta_file == 0
    then (failure eperm, m)
    else (success id, m')

unfoldable pub open_file : ℕ → ℕ → Text → Mounted → Method (Posix ℕ × Mounted)
open_file fuel self path m = find_file fuel path 0 1 >>= (λ it. pure (open_found self path it m))

unfoldable pub close : ℕ → Mounted → Posix ℕ × Mounted
close fh m =
    let (closed, table') = close_file fh m.table in
    let custom = get_custom fh m.table in
    let objects' = if custom == 0 then m.objects else update m.objects custom none in
    let m' = record m { table = table'; objects = objects' } in
    if closed then (success 0, m') else (failure ebadf, m')

-- read; a handle whose object is gone is a dangling pointer, and fails here.
unfoldable pub read : ℕ → ℕ → Mounted → Method (Posix (List ℕ) × Mounted)
read fh count m =
    let custom = get_custom fh m.table in
    if custom == 0 then pure (failure enoent, m) else elim (m.objects custom) [
      | none ↦ fail
      | some it ↦
          Iterator.read count it
          >>= (λ r. pure (success r.0, record m { objects = update m.objects custom (some r.1) }))
    ]

-- The calls that answer without looking.
pub data Request : Type 0 where
  truncate chmod getattr fseek write symlink rename unlink stat flush : Request
  opendir closedir mkdir rmdir : Request

pub data Answer : Type 0 where
  zero_result null_result minus_one : Answer
  minus_one_with : Errno → Answer

unfoldable pub answer : Request → Answer
answer truncate = minus_one_with eperm
answer chmod = minus_one_with eperm
answer getattr = minus_one_with eperm
answer fseek = minus_one_with ebadf
answer write = minus_one_with eperm
answer symlink = minus_one_with eperm
answer rename = minus_one_with eperm
answer unlink = minus_one_with eperm
answer stat = minus_one
answer flush = zero_result
answer opendir = null_result
answer closedir = minus_one
answer mkdir = minus_one_with eperm
answer rmdir = minus_one_with eperm
