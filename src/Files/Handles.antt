-- ===== src/Files/Handles.antt =====
-- The table maps each open handle to its own entry.
use cxx_kernel.Base.{
  ℕ, ◌+◌, ◌≤◌, ◌<◌, ◌≡◌, refl, ◌≢◌, true, false, List, [], ◌∷◌, ◌++◌, Option, none, some, ◌==◌,
  if◌then◌else◌, ebadf, success, failure, Posix, arith, ==_iff, ==_false, ap, ◌∙◌, Bool-cases, inl,
  inr, ◌↔◌,
}
use cxx_kernel.Files.{
  FileData, Files, map_file, find_id, get_name, close_in, close_file, set_fcntl_in, set_fcntl,
}
use cxx_kernel.Text.{Text}

-- Handles rise along the table and stay at most `n`.
abbrev pub Rising : ℕ → ℕ → List FileData → Type 0
Rising lo hi [] = lo ≤ hi
Rising lo hi (f ∷ fs) = (lo < f.id) × Rising f.id hi fs

-- A table in order: no two entries have one handle, and the next handle is new.
abbrev pub IsOrdered : Files → Type 0
IsOrdered t = Rising 2 t.filehandle t.files

Rising-weaken : (lo lo' hi : ℕ) (fs : List FileData) → lo ≤ lo' → Rising lo' hi fs → Rising lo hi fs
Rising-weaken lo lo' hi [] h r = omega arith
Rising-weaken lo lo' hi (f ∷ fs) h r = (omega arith, r.1)

Rising-le : (lo hi : ℕ) (fs : List FileData) → Rising lo hi fs → lo ≤ hi
Rising-le lo hi [] r = r
Rising-le lo hi (f ∷ fs) r = omega (arith, Rising-le f.id hi fs r.1)

Rising-snoc :
    (lo hi : ℕ) (fs : List FileData) (f : FileData)
    → f.id ≡ hi + 1
    → Rising lo hi fs
    → Rising lo (hi + 1) (fs ++ f ∷ [])
Rising-snoc lo hi [] f e r = (omega arith, omega arith)
Rising-snoc lo hi (g ∷ fs) f e r = (r.0, Rising-snoc g.id hi fs f e r.1)

find_id_below :
    (fh lo hi : ℕ) (fs : List FileData) → fh ≤ lo → Rising lo hi fs → find_id fh fs ≡ none
unfolding find_id
find_id_below fh lo hi [] h r = refl
find_id_below fh lo hi (f ∷ fs) h r =
    rw (==_false f.id fh (λ e. omega arith)) (find_id_below fh f.id hi fs (omega arith) r.1)

find_id-snoc :
    (fh : ℕ) (fs : List FileData) (f : FileData)
    → find_id f.id fs ≡ none
    → find_id fh (fs ++ f ∷ []) ≡ (if f.id == fh then some f else find_id fh fs)
unfolding find_id
find_id-snoc fh [] f h = refl
find_id-snoc fh (g ∷ fs) f h = ground (arith, find_id-snoc fh fs f)

find_id_above :
    (fh lo hi : ℕ) (fs : List FileData) → hi < fh → Rising lo hi fs → find_id fh fs ≡ none
unfolding find_id
find_id_above fh lo hi [] h r = refl
find_id_above fh lo hi (f ∷ fs) h r =
    let le : f.id ≤ hi = Rising-le f.id hi fs r.1 in
    rw (==_false f.id fh (λ e. omega arith)) (find_id_above fh f.id hi fs h r.1)

-- Opening a file keeps a table in order; the new handle then finds the new entry, and every
-- other handle what it found before.
pub map_file-find :
    (fs name : Text) (owner custom : ℕ) (t : Files)
    → IsOrdered t
    → let (id, t') = map_file fs name owner custom t in
      IsOrdered t'
      × (find_id id t.files ≡ none)
      × ((fh : ℕ)
          → find_id fh t'.files ≡ (
              if id == fh
              then some (record {
                fs = fs;
                name = name;
                id = id;
                owner = owner;
                custom = custom;
                fcntl = 0;
              })
              else find_id fh t.files))
unfolding map_file
map_file-find fs name owner custom t r =
    let new = find_id_above (t.filehandle + 1) 2 t.filehandle t.files (omega arith) r in
    (Rising-snoc 2 t.filehandle t.files _ refl r, new, λ fh. find_id-snoc fh t.files _ new)

-- What closing a handle makes of the table.
abbrev Closed : ℕ → ℕ → ℕ → List FileData → Option (List FileData) → Type 0
Closed fh lo hi fs none = find_id fh fs ≡ none
Closed fh lo hi fs (some rest) =
    (find_id fh fs ≢ none)
    × Rising lo hi rest
    × ((k : ℕ) → find_id k rest ≡ (if fh == k then none else find_id k fs))

close_head :
    (fh lo hi : ℕ) (f : FileData) (fs : List FileData)
    → f.id ≡ fh
    → Rising lo hi (f ∷ fs)
    → Closed fh lo hi (f ∷ fs) (some fs)
unfolding find_id
close_head fh lo hi f fs e r =
    let gone = find_id_below fh f.id hi fs (omega arith) r.1 in
    (λ q. ground arith, Rising-weaken lo f.id hi fs (omega arith) r.1, λ k. ground (arith, gone))

close_tail :
    (fh lo hi : ℕ) (f : FileData) (fs : List FileData) (o : Option (List FileData))
    → f.id ≢ fh
    → Rising lo hi (f ∷ fs)
    → Closed fh f.id hi fs o
    → Closed fh lo hi (f ∷ fs) (elim o [ none ↦ none | some fs' ↦ some (f ∷ fs') ])
unfolding find_id
close_tail fh lo hi f fs none n r c = rw (==_false f.id fh n) c
close_tail fh lo hi f fs (some rest) n r c =
    (rw (==_false f.id fh n) c.0, (r.0, c.1), λ k. ground (arith, c.2 k))

close_in_cases :
    (fh lo hi : ℕ) (fs : List FileData) → Rising lo hi fs → Closed fh lo hi fs (close_in fh fs)
unfolding close_in find_id
close_in_cases fh lo hi [] r = refl
close_in_cases fh lo hi (f ∷ fs) r =
    let rest = close_tail fh lo hi f fs (close_in fh fs) in
    let later = close_in_cases fh f.id hi fs r.1 in
    elim (Bool-cases (f.id == fh)) [
      | inl t ↦ rw t (close_head fh lo hi f fs ((==_iff f.id fh).0 t) r)
      | inr t ↦ rw t (rest (ground (arith, t)) r later)
    ]

-- With a table in order, closing reports whether the handle was open; the table stays in order, the handle is open no
-- more, and every other handle finds what it found before.
pub close_file-find :
    (fh : ℕ) (t : Files)
    → IsOrdered t
    → let (found, t') = close_file fh t in
      ((found ≡ false) ↔ (find_id fh t.files ≡ none))
      × IsOrdered t'
      × ((k : ℕ) → find_id k t'.files ≡ (if fh == k then none else find_id k t.files))
unfolding close_file
close_file-find fh t r = go (close_in fh t.files) refl (close_in_cases fh 2 t.filehandle t.files r)
  where
    go :
        (o : Option (List FileData))
        → close_in fh t.files ≡ o
        → Closed fh 2 t.filehandle t.files o
        → let (found, t') = close_file fh t in
          ((found ≡ false) ↔ (find_id fh t.files ≡ none))
          × IsOrdered t'
          × ((k : ℕ) → find_id k t'.files ≡ (if fh == k then none else find_id k t.files))
    go none e c = rw (close_file, e) ((λ _. c, λ _. refl), r, λ k. ground (arith, c))
    go (some rest) e c = rw (close_file, e) ((λ q. cc, λ q. absurd (c.0 q)), c.1, c.2)

set_in_find :
    (fh mode k : ℕ) (fs : List FileData)
    → find_id k (elim (set_fcntl_in fh mode fs) [ none ↦ fs | some fs' ↦ fs' ]) ≡ (
        if fh == k
        then elim (find_id fh fs) [ none ↦ none | some f ↦ some (record f { fcntl = mode }) ]
        else find_id k fs)
unfolding find_id set_fcntl_in
set_in_find fh mode k [] = ground arith
set_in_find fh mode k (f ∷ fs) = ground (arith, set_in_find fh mode k fs)

-- What setFcntl returns.
set_in_result :
    (fh mode : ℕ) (fs : List FileData)
    → ◌≡◌ {A = Posix ℕ}
        (elim (set_fcntl_in fh mode fs) [ none ↦ failure ebadf | some _ ↦ success 0 ])
        (elim (find_id fh fs) [ none ↦ failure ebadf | some _ ↦ success 0 ])
unfolding find_id set_fcntl_in
set_in_result fh mode [] = refl
set_in_result fh mode (f ∷ fs) = ground (arith, set_in_result fh mode fs)

-- setFcntl succeeds exactly on an open handle and fails with EBADF on any other; it changes the
-- flags of that handle's entry and nothing else.
pub set_fcntl-find :
    (fh mode : ℕ) (t : Files)
    → let (r, t') = set_fcntl fh mode t in
      (r ≡ elim (find_id fh t.files) [ none ↦ failure ebadf | some _ ↦ success 0 ])
      × (t'.filehandle ≡ t.filehandle)
      × ((k : ℕ)
          → find_id k t'.files ≡ (
              if fh == k
              then elim (find_id fh t.files) [
                | none ↦ none
                | some f ↦ some (record f { fcntl = mode })
              ]
              else find_id k t.files))
unfolding set_fcntl
set_fcntl-find fh mode t = (
  ground (arith, set_in_result fh mode t.files),
  ground arith,
  λ k. ground (arith, set_in_find fh mode k t.files),
)

-- The new handle finds the name it was opened under.
pub map_file-get_name :
    (fs name : Text) (owner custom : ℕ) (t : Files)
    → IsOrdered t
    → get_name (t.filehandle + 1) (map_file fs name owner custom t).1 ≡ name
unfolding get_name
map_file-get_name fs name owner custom t h =
    let f = (map_file-find fs name owner custom t h).2 (t.filehandle + 1) in
    let here : (t.filehandle + 1 == t.filehandle + 1) ≡ true = (==_iff _ _).1 refl in
    let id : (map_file fs name owner custom t).0 ≡ t.filehandle + 1 = unfold map_file in refl in
    ap (λ (o : Option FileData). elim o [ none ↦ [] | some g ↦ g.name ]) f ∙ rw (id, here)
