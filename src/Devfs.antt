-- ===== src/Devfs.antt =====
-- The file system of devices (inc/fs/devfs.hh, src/fs/devfs.cpp). It serves the names random and
-- urandom. The O_ flags of fcntl.h, which are not part of the repository, are the list
-- `write_flags`; the random numbers of the platform are a stream.
pub mod Readonly
use Prim.Native.Nat.{bit_and}
use cxx_kernel.Base.{
  ℕ, zero, suc, ◌+◌, ◌%◌, Bool, true, false, not, ◌&&◌, ◌||◌, List, [], ◌∷◌, ◌++◌, Option, none,
  some, ◌==◌, if◌then◌else◌, Errno, eperm, enoent, ebadf, Posix, success, failure,
}
use cxx_kernel.Files.{Files, map_file, close_file, get_name}
use cxx_kernel.Text.{Text, equal}

abbrev pub random_name : Text
random_name = b'r' ∷ b'a' ∷ b'n' ∷ b'd' ∷ b'o' ∷ b'm' ∷ []

abbrev pub urandom_name : Text
urandom_name = b'u' ∷ random_name

abbrev pub type_name : Text
type_name = b'D' ∷ b'e' ∷ b'v' ∷ b'F' ∷ b'S' ∷ []

unfoldable pub is_random : Text → Bool
is_random name = equal name random_name || equal name urandom_name

-- (flags & O_APPEND) || (flags & O_CREAT) || …
unfoldable pub any_flag : ℕ → List ℕ → Bool
any_flag flags [] = false
any_flag flags (f ∷ fs) = not (bit_and flags f == 0) || any_flag flags fs

unfoldable pub open_file : List ℕ → ℕ → Text → ℕ → Files → Posix ℕ × Files
open_file write_flags self path flags t =
    let (id, t') = map_file type_name path self 0 t in
    if any_flag flags write_flags
    then (failure eperm, t)
    else if is_random path
    then (success id, t')
    else (failure enoent, t)

unfoldable pub close : ℕ → Files → Posix ℕ × Files
close fh t =
    let (found, t') = close_file fh t in if found then (success 0, t') else (failure ebadf, t')

-- The bytes that read stores: one for each number of the stream, from position `k`.
unfoldable pub random_bytes : (ℕ → ℕ) → ℕ → ℕ → List ℕ
random_bytes stream k zero = []
random_bytes stream k (suc n) = bit_and (stream k % 256) 0xff ∷ random_bytes stream (k + 1) n

-- read returns the count and the buffer.
unfoldable pub read : (ℕ → ℕ) → ℕ → ℕ → Files → Posix (ℕ × List ℕ)
read stream fh n t =
    if is_random (get_name fh t) then success (n, random_bytes stream 0 n) else failure enoent

unfoldable pub fseek : ℕ → Files → Posix ℕ
fseek fd t = if is_random (get_name fd t) then success 0 else failure ebadf

-- The calls that take a path or a handle and answer without looking at it.
pub data Request : Type 0 where
  truncate chmod getattr write symlink rename unlink mkdir rmdir : Request
  stat flush closedir : Request

-- stat and closedir return -1 and leave errno alone.
pub data Answer : Type 0 where
  zero_result minus_one : Answer
  minus_one_with : Errno → Answer

unfoldable pub answer : Request → Answer
answer stat = minus_one
answer closedir = minus_one
answer flush = zero_result
answer truncate = minus_one_with eperm
answer chmod = minus_one_with eperm
answer getattr = minus_one_with eperm
answer write = minus_one_with eperm
answer symlink = minus_one_with eperm
answer rename = minus_one_with eperm
answer unlink = minus_one_with eperm
answer mkdir = minus_one_with eperm
answer rmdir = minus_one_with eperm

-- One call of a client; `asks` changes no table.
pub data Call : Type 0 where
  opens : Text → ℕ → Call
  closes : ℕ → Call
  reads : ℕ → ℕ → Call
  seeks : ℕ → Call
  asks : Request → Call

unfoldable pub step : List ℕ → ℕ → Call → Files → Files
step write_flags self (opens path flags) t = (open_file write_flags self path flags t).1
step write_flags self (closes fh) t = (close fh t).1
step write_flags self (reads fh n) t = t
step write_flags self (seeks fd) t = t
step write_flags self (asks r) t = t

unfoldable pub run : List ℕ → ℕ → List Call → Files → Files
run write_flags self [] t = t
run write_flags self (c ∷ cs) t = run write_flags self cs (step write_flags self c t)
