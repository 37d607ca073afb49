-- ===== src/Devfs/Readonly.antt =====
-- What a client of the device file system can reach.
use cxx_kernel.Base.{
  ℕ, zero, suc, ◌+◌, ◌≡◌, refl, true, false, List, [], ◌∷◌, none, success, arith, sym, ap, ◌∙◌,
  length,
}
use cxx_kernel.Files.{Files, find_id, map_file}
use cxx_kernel.Files.Handles.{IsOrdered, map_file-find, close_file-find, map_file-get_name}
use cxx_kernel.Devfs.{
  is_random, any_flag, open_file, close, read, random_bytes, Call, opens, closes, reads, seeks,
  asks, step, run, type_name,
}
use cxx_kernel.Text.{Text}

length-random_bytes : (stream : ℕ → ℕ) (k n : ℕ) → length (random_bytes stream k n) ≡ n
unfolding random_bytes
length-random_bytes stream k zero = refl
length-random_bytes stream k (suc n) = ap suc (length-random_bytes stream (k + 1) n)

-- With a table in order, open with no write flag on a random device returns a handle that was not
-- open before, and a read through it returns as many bytes as it asks for.
pub open_file-read :
    (write_flags : List ℕ) (self : ℕ) (path : Text) (flags n : ℕ) (stream : ℕ → ℕ) (t : Files)
    → IsOrdered t
    → any_flag flags write_flags ≡ false
    → is_random path ≡ true
    → let (r, t') = open_file write_flags self path flags t in
      (r ≡ success (t.filehandle + 1))
      × (find_id (t.filehandle + 1) t.files ≡ none)
      × (read stream (t.filehandle + 1) n t' ≡ success (n, random_bytes stream 0 n))
      × (length (random_bytes stream 0 n) ≡ n)
unfolding open_file read
open_file-read write_flags self path flags n stream t h nf ir =
    let name = map_file-get_name type_name path self 0 t h in
    let fresh = (map_file-find type_name path self 0 t h).1 in
    let id : (map_file type_name path self 0 t).0 ≡ t.filehandle + 1 = unfold map_file in refl in
    rw (nf, ir)
      (
        ap success id,
        ap (λ (k : ℕ). find_id k t.files) (sym id) ∙ fresh,
        rw (name, ir),
        length-random_bytes stream 0 n,
      )

step-IsOrdered :
    (write_flags : List ℕ) (self : ℕ) (c : Call) (t : Files)
    → IsOrdered t
    → IsOrdered (step write_flags self c t)
unfolding step open_file close
step-IsOrdered write_flags self (opens path flags) t h =
    ground (arith, map_file-find type_name path self 0 t h)
step-IsOrdered write_flags self (closes fh) t h = ground (arith, close_file-find fh t h)
step-IsOrdered write_flags self (reads fh n) t h = h
step-IsOrdered write_flags self (seeks fd) t h = h
step-IsOrdered write_flags self (asks r) t h = h

-- Whatever calls clients make, and in whatever order, a table in order stays in order.
pub run-IsOrdered :
    (write_flags : List ℕ) (self : ℕ) (cs : List Call) (t : Files)
    → IsOrdered t
    → IsOrdered (run write_flags self cs t)
unfolding run
run-IsOrdered write_flags self [] t h = h
run-IsOrdered write_flags self (c ∷ cs) t h =
    run-IsOrdered write_flags self cs (step write_flags self c t)
      (step-IsOrdered write_flags self c t h)
