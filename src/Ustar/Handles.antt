-- ===== src/Ustar/Handles.antt =====
-- The handles of UstarFilesystem.
use cxx_kernel.Base.{
  ℕ, ◌≡◌, refl, ◌==◌, ==_iff, if◌then◌else◌, true, none, some, done, success, ◌∙◌, Bool-cases, inl,
  inr,
}
use cxx_kernel.Files.{Files, FileData, close_file, find_id, get_custom}
use cxx_kernel.Files.Handles.{IsOrdered, close_file-find}
use cxx_kernel.Ustar.Calls.{Mounted, close, stat}

no_custom : (fh : ℕ) (t : Files) → find_id fh t.files ≡ none → get_custom fh t ≡ 0
unfolding get_custom
no_custom fh t e = rw (get_custom, e) refl

stat_missing : (fh : ℕ) (m : Mounted) → find_id fh m.table.files ≡ none → stat fh m ≡ done none
unfolding stat
stat_missing fh m e = rw (no_custom fh m.table e) refl

close_result :
    (fh : ℕ) (m : Mounted)
    → (close_file fh m.table).0 ≡ true
    → ((close fh m).0 ≡ success 0) × ((close fh m).1.table ≡ (close_file fh m.table).1)
unfolding close
close_result fh m e = rw e (refl, refl)

was_open :
    (fh : ℕ) (m : Mounted) (f : FileData)
    → IsOrdered m.table
    → find_id fh m.table.files ≡ some f
    → (close_file fh m.table).0 ≡ true
was_open fh m f h e = elim (Bool-cases (close_file fh m.table).0) [
  | inl t ↦ t
  | inr t ↦ let none_open = (close_file-find fh m.table h).0.0 t in absurd cc
]

-- With a table in order, closing an open handle succeeds and keeps the table in order; stat of the handle then fails with
-- ENOENT, and every other handle finds the entry it found before.
pub close-stat :
    (fh : ℕ) (m : Mounted) (f : FileData)
    → IsOrdered m.table
    → find_id fh m.table.files ≡ some f
    → let (r, m') = close fh m in
      (r ≡ success 0)
      × IsOrdered m'.table
      × (stat fh m' ≡ done none)
      × ((k : ℕ) → find_id k m'.table.files ≡ (if fh == k then none else find_id k m.table.files))
close-stat fh m f h e =
    let (c, o, l) = close_file-find fh m.table h in
    let (s, t) = close_result fh m (was_open fh m f h e) in
    let same : (fh == fh) ≡ true = (==_iff fh fh).1 refl in
    let gone : find_id fh (close fh m).1.table.files ≡ none = rw t (l fh ∙ rw same refl) in
    (s, rw t o, stat_missing fh (close fh m).1 gone, rw t l)
