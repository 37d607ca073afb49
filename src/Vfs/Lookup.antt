-- ===== src/Vfs/Lookup.antt =====
-- Which mount a name reaches, and what is left of the name.
use cxx_kernel.Base.{
  ℕ, zero, suc, ◌+◌, ◌<◌, ◌≡◌, refl, inl, inr, true, false, List, [], ◌∷◌, ◌++◌, Option, none, some,
  ◌==◌, if◌then◌else◌, arith, ap, ◌∙◌, length, Bool-cases, drop,
}
use cxx_kernel.Files.{slash}
use cxx_kernel.Text.{Text, starts_with, at}
use cxx_kernel.Text.Laws.{starts_with_iff, right-drop}
use cxx_kernel.Vfs.{
  Filesystem, Vfs, access, mount, find_kind, mount_filesystem, basedir, strip_loop, stripslash,
}

-- The name does not begin with the mount point.
abbrev pub Misses : Text → Filesystem → Type 0
Misses file fs = ¬ ((u : Text) × (file ≡ fs.mountpoint ++ u))

abbrev pub AllMiss : Text → List Filesystem → Type 0
AllMiss file [] = Unit {0}
AllMiss file (fs ∷ rest) = Misses file fs × AllMiss file rest

-- What access returns for a name.
abbrev pub Accessed : Text → List Filesystem → Option Filesystem → Type 0
Accessed file mounts none = AllMiss file mounts
Accessed file mounts (some fs) =
    (before : List Filesystem) × (after : List Filesystem) × (u : Text) × (mounts
      ≡ before ++ fs ∷ after)
    × AllMiss file before
    × (file ≡ fs.mountpoint ++ u)

Accessed-cons :
    (file : Text) (g : Filesystem) (rest : List Filesystem) (o : Option Filesystem)
    → Misses file g
    → Accessed file rest o
    → Accessed file (g ∷ rest) o
Accessed-cons file g rest none n h = (n, h)
Accessed-cons file g rest (some fs) n (before, after, u, e, m, k) =
    (g ∷ before, after, u, ap (λ (x : List Filesystem). g ∷ x) e, (n, m), k)

-- access finds the first mount whose mount point begins the name, and none only if there is none.
pub access-Accessed :
    (file : Text) (mounts : List Filesystem) → Accessed file mounts (access file mounts)
unfolding access
access-Accessed file [] = tt
access-Accessed file (fs ∷ rest) =
    let later = access-Accessed file rest in
    elim (Bool-cases (starts_with file fs.mountpoint)) [
      | inl t ↦
          let (u, e) = (starts_with_iff file fs.mountpoint).0 t in rw t ([], rest, u, refl, tt, e)
      | inr t ↦ rw t (
          Accessed-cons file fs rest (access file rest)
            (λ p. let q = (starts_with_iff file fs.mountpoint).1 p in cc) later)
    ]

drop-append : (xs ys : Text) (c : ℕ) → drop (length xs + 1) (xs ++ c ∷ ys) ≡ ys
drop-append [] ys c = refl
drop-append (x ∷ xs) ys c =
    let e : suc (length xs) + 1 ≡ suc (length xs + 1) = omega arith in rw e (drop-append xs ys c)

access-snoc :
    (file : Text) (mounts : List Filesystem) (fs : Filesystem)
    → AllMiss file mounts
    → starts_with file fs.mountpoint ≡ true
    → access file (mounts ++ fs ∷ []) ≡ some fs
unfolding access
access-snoc file [] fs m h = rw h
access-snoc file (g ∷ mounts) fs m h =
    let no_prefix : starts_with file g.mountpoint ≡ false =
      elim (Bool-cases (starts_with file g.mountpoint)) [
        | inl t ↦ absurd (m.0 ((starts_with_iff file g.mountpoint).0 t))
        | inr t ↦ t
      ] in
    rw no_prefix (access-snoc file mounts fs m.1 h)

-- A mount of a registered kind succeeds. A name made of the mount point, a slash and a rest, which
-- no earlier mount point begins, then reaches the new object, and basedir gives the rest.
pub mount-access :
    (ident : ℕ) (point kind opts rest : Text) (v : Vfs) (g : Filesystem)
    → find_kind kind v.filesystems ≡ some g
    → AllMiss (point ++ slash ∷ rest) v.mounts
    → let (done, v') = mount ident point kind opts v in
      let fs = mount_filesystem ident point opts g in
      let name = point ++ slash ∷ rest in
      (done ≡ true) × (access name v'.mounts ≡ some fs) × (basedir name (some fs) ≡ rest)
unfolding mount mount_filesystem basedir
mount-access ident point kind opts rest v g e h =
    rw (e, mount)
      (
        refl,
        access-snoc (point ++ slash ∷ rest) v.mounts _ h
            ((starts_with_iff (point ++ slash ∷ rest) point).1 (slash ∷ rest, refl)),
        right-drop (point ++ slash ∷ rest) (length point + 1) ∙ drop-append point rest slash,
      )

-- The name behind its leading slashes.
pub strip_slashes : Text → Text
strip_slashes [] = []
strip_slashes (c ∷ s) = if c == slash then strip_slashes s else c ∷ s

strip_loop_lem : (f : ℕ) (s : Text) → length s < f → strip_loop f s ≡ some (strip_slashes s)
unfolding strip_loop strip_slashes at
strip_loop_lem zero s h = absurd (omega arith)
strip_loop_lem (suc f) [] h = refl
strip_loop_lem (suc f) (c ∷ s) h = ground (arith, right-drop (c ∷ s) 1, strip_loop_lem f s)

-- stripslash returns, and removes exactly the leading slashes.
pub stripslash_lem : (s : Text) → stripslash s ≡ some (strip_slashes s)
unfolding stripslash
stripslash_lem s = strip_loop_lem (length s + 1) s (omega arith)
