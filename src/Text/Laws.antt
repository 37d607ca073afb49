-- ===== src/Text/Laws.antt =====
-- What the methods of String compute.
use mathlib.Core.List.{append-nil, append_assoc}
use native.Mathlib.Numerals.{add-one}
use cxx_kernel.Base.{
  ℕ, zero, suc, ◌+◌, ◌-◌, ◌≤◌, ◌<◌, ◌≡◌, refl, inl, inr, true, false, arith, leb, ltb, ◌==◌,
  if◌then◌else◌, ==_false, ==_iff, ◌↔◌, Bool-cases, ap, sym, ◌∙◌, [], ◌∷◌, ◌++◌, length, get_or,
  take, drop, length-append, nil_of_length,
}
use cxx_kernel.Text.{Text, equal_from, equal, starts_with, right_loop, right, left_loop, left}

equal_from-cons :
    (n i a b : ℕ) (s t : Text) → equal_from n (i + 1) (a ∷ s) (b ∷ t) ≡ equal_from n i s t
unfolding equal_from
equal_from-cons zero i a b s t = refl
equal_from-cons (suc n) i a b s t =
    let e : get_or (a ∷ s) (i + 1) 0 ≡ get_or s i 0 = rw add-one in
    let k : get_or (b ∷ t) (i + 1) 0 ≡ get_or t i 0 = rw add-one in
    rw (e, k, equal_from-cons n (i + 1) a b s t)

-- Comparing as many characters as `t` has decides whether `s` begins with `t`.
equal_from_sound :
    (s t : Text)
    → length t ≤ length s
    → equal_from (length t) 0 s t ≡ true
    → (u : Text) × (s ≡ t ++ u)
unfolding equal_from
equal_from_sound s [] lt h = (s, refl)
equal_from_sound [] (b ∷ t) lt h = absurd (omega arith)
equal_from_sound (a ∷ s) (b ∷ t) lt h =
    let k : (a ≡ b) × (equal_from (length t) 0 s t ≡ true) =
      ground (arith, equal_from-cons (length t) 0 a b s t) in
    let (u, e) = equal_from_sound s t (omega arith) k.1 in (u, rw (k.0, e))

equal_from_complete : (t u : Text) → equal_from (length t) 0 (t ++ u) t ≡ true
unfolding equal_from
equal_from_complete [] u = refl
equal_from_complete (b ∷ t) u =
    rw ((==_iff b b).1 refl) (equal_from-cons (length t) 0 b b (t ++ u) t ∙ equal_from_complete t u)

-- startsWith holds exactly when the other String is a prefix.
pub starts_with_iff : (s t : Text) → (starts_with s t ≡ true) ↔ ((u : Text) × (s ≡ t ++ u))
unfolding starts_with
starts_with_iff s t = (sound, complete)
  where
    sound :
        (if ltb (length s) (length t) then false else equal_from (length t) 0 s t) ≡ true
        → (u : Text) × (s ≡ t ++ u)
    sound h = equal_from_sound s t (ground arith) (ground arith)

    complete :
        (u : Text) × (s ≡ t ++ u)
        → (if ltb (length s) (length t) then false else equal_from (length t) 0 s t) ≡ true
    complete (u, e) =
        let len : length t ≤ length s = omega (arith, ap length e, length-append t u) in
        let k : equal_from (length t) 0 s t ≡ true = rw e (equal_from_complete t u) in ground arith

-- operator== decides equality.
pub equal_iff : (s t : Text) → (equal s t ≡ true) ↔ (s ≡ t)
unfolding equal
equal_iff s t = (sound, complete)
  where
    sound : (if length t == length s then equal_from (length s) 0 s t else false) ≡ true → s ≡ t
    sound h =
        let len : length t ≡ length s = ground arith in
        let k : equal_from (length t) 0 s t ≡ true = rw len (ground arith) in
        let (u, e) = equal_from_sound s t (omega arith) k in
        let none : u ≡ [] = nil_of_length u (omega (arith, ap length e, length-append t u)) in
        e ∙ ap (λ (m : Text). t ++ m) none ∙ append-nil t

    complete : s ≡ t → (if length t == length s then equal_from (length s) 0 s t else false) ≡ true
    complete e =
        let k : equal_from (length t) 0 t t ≡ true =
          ap (λ (m : Text). equal_from (length t) 0 m t) (sym (append-nil t))
          ∙ equal_from_complete t [] in
        rw (e, (==_iff (length t) (length t)).1 refl) k

drop-get_or : (s : Text) (i : ℕ) → i < length s → drop i s ≡ get_or s i 0 ∷ drop (i + 1) s
drop-get_or [] i h = absurd (omega arith)
drop-get_or (a ∷ s) zero h = refl
drop-get_or (a ∷ s) (suc i) h = rw add-one (drop-get_or s i (omega arith) ∙ rw add-one)

drop_beyond : (s : Text) (i : ℕ) → length s ≤ i → drop i s ≡ []
drop_beyond [] zero h = refl
drop_beyond [] (suc i) h = refl
drop_beyond (a ∷ s) zero h = absurd (omega arith)
drop_beyond (a ∷ s) (suc i) h = drop_beyond s i (omega arith)

right_loop-drop :
    (n i : ℕ) (s res : Text) → i + n ≡ length s → right_loop n i s res ≡ res ++ drop i s
unfolding right_loop
right_loop-drop zero i s res h = rw (drop_beyond s i (omega arith)) (sym (append-nil res))
right_loop-drop (suc n) i s res h =
    right_loop-drop n (i + 1) s (res ++ get_or s i 0 ∷ []) (omega arith)
    ∙ append_assoc res (get_or s i 0 ∷ []) (drop (i + 1) s)
    ∙ ap (λ (m : Text). res ++ m) (sym (drop-get_or s i (omega arith)))

-- right drops the first characters, all of them where there are no more.
pub right-drop : (s : Text) (index : ℕ) → right s index ≡ drop index s
unfolding right right_loop
right-drop s index = elim (Bool-cases (leb index (length s))) [
  | inl t ↦ right_loop-drop (length s - index) index s [] (ground arith)
  | inr t ↦
      let e : length s - index ≡ 0 = ground arith in
      rw (e, right_loop) (sym (drop_beyond s index (ground arith)))
]

-- The bound that left tests against moves away with each round.
left_loop-right_loop :
    (n i index : ℕ) (s res : Text) → 0 < index → left_loop n i 0 index s res ≡ right_loop n i s res
unfolding left_loop right_loop
left_loop-right_loop zero i index s res h = refl
left_loop-right_loop (suc n) i index s res h =
    let t : leb index 0 ≡ false = ground arith in
    rw t (left_loop-right_loop n (i + 1) (index + 1) s (res ++ get_or s i 0 ∷ []) (omega arith))

-- left returns the first character for the index 0, and the whole String for any other.
pub left_result : (s : Text) (index : ℕ) → left s index ≡ (if index == 0 then take 1 s else s)
unfolding left left_loop
left_result [] zero = refl
left_result (a ∷ s) zero = refl
left_result s (suc n) = rw (==_false (suc n) 0 (omega arith)) (
    left_loop-right_loop (length s) 0 (suc n) s [] (omega arith)
    ∙ right_loop-drop (length s) 0 s [] (omega arith))
