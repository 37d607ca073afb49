-- ===== src/Bits/Members.antt =====
-- set and clear change one member of the set.
use mathlib.Core.Path.{subst}
use cxx_kernel.Base.{
  ℕ, ◌/◌, ◌%◌, ◌<◌, ◌≡◌, refl, ap, ◌∙◌, ◌≢◌, inl, inr, Bool, true, false, ◌&&◌, ◌||◌, not,
  Bool-cases, arith, leb, ◌==◌, ==_iff, if◌then◌else◌, update, update_same,
}
use cxx_kernel.Bits.{Bits, bit, set_bit, clear_bit, set_member, clear_member, is_set}
use cxx_kernel.Bits.Words.{bit-set_bit, bit-set_bit_other, bit-clear_bit, bit-clear_bit_other}

-- What a change of a bit of a word does to the bit of any number.
changed :
    (words : ℕ → ℕ) (i j w v : ℕ)
    → bit w (i % 32) ≡ v
    → ((k : ℕ) → k ≢ i % 32 → bit w k ≡ bit (words (i / 32)) k)
    → bit (update words (i / 32) w (j / 32)) (j % 32)
      ≡ (if i == j then v else bit (words (j / 32)) (j % 32))
changed words i j w v e o = elim (Bool-cases (i == j)) [
  | inl q ↦
      let same : i ≡ j = (==_iff i j).0 q in
      rw q (
        subst (λ (x : ℕ). bit (update words (i / 32) w (x / 32)) (x % 32) ≡ v) same
          (ap (λ (x : ℕ). bit x (i % 32)) (update_same words (i / 32) w) ∙ e))
  | inr q ↦ rw q (elim (Bool-cases (i / 32 == j / 32)) [
    | inl d ↦
        let n : j % 32 ≢ i % 32 = λ z. ground arith in
        let at : i / 32 ≡ j / 32 = (==_iff (i / 32) (j / 32)).0 d in
        rw d (o (j % 32) n ∙ ap (λ (x : ℕ). bit (words x) (j % 32)) at)
    | inr d ↦ rw d refl
  ])
]

added : (c : Bool) (x y : ℕ) → x ≡ (if c then 1 else y) → not (x == 0) ≡ c || not (y == 0)
added true x y e = ap (λ (a : ℕ). not (a == 0)) e
added false x y e = ap (λ (a : ℕ). not (a == 0)) e

removed : (c : Bool) (x y : ℕ) → x ≡ (if c then 0 else y) → not (x == 0) ≡ not c && not (y == 0)
removed true x y e = ap (λ (a : ℕ). not (a == 0)) e
removed false x y e = ap (λ (a : ℕ). not (a == 0)) e

-- set of a number below m_cnt adds it to the set and clear takes it out; they leave every other
-- number below m_cnt.
pub set_member-is_set :
    (b : Bits) (i j : ℕ)
    → i < b.cnt
    → j < b.cnt
    → ((set_member i b).0 ≡ true)
      × ((clear_member i b).0 ≡ true)
      × (is_set j (set_member i b).1 ≡ (i == j) || is_set j b)
      × (is_set j (clear_member i b).1 ≡ not (i == j) && is_set j b)
unfolding set_member clear_member is_set
set_member-is_set b i j h k =
    let z : leb b.cnt i ≡ false = ground arith in
    let y : leb b.cnt j ≡ false = ground arith in
    let s =
      changed b.words i j (set_bit (b.words (i / 32)) (i % 32)) 1
        (bit-set_bit (b.words (i / 32)) (i % 32)) (bit-set_bit_other (b.words (i / 32)) (i % 32)) in
    let c =
      changed b.words i j (clear_bit (b.words (i / 32)) (i % 32)) 0
        (bit-clear_bit (b.words (i / 32)) (i % 32))
        (bit-clear_bit_other (b.words (i / 32)) (i % 32)) in
    rw (z, y) (refl, refl, added (i == j) _ _ s, removed (i == j) _ _ c)
