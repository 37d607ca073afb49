-- ===== src/Division/Unsigned.antt =====
-- The shift-and-subtract division computes the quotient and the remainder.
use mathlib.Core.Path.{ap₂}
use cxx_kernel.Base.{
  ℕ, zero, suc, ◌+◌, ◌-◌, ◌*◌, ◌/◌, ◌%◌, ◌^◌, ◌≤◌, ◌<◌, ◌≡◌, refl, ◌≢◌, Outcome, done, leb, ltb,
  ◌>>=◌, Ensures, arith, ==_false, Bool-cases, inl, inr, ap, sym, ◌∙◌,
}
use cxx_kernel.Division.{word, justify, subtract, udivmod}

abbrev pub pow2 : ℕ → ℕ
pow2 zero = 1
pow2 (suc k) = 2 * pow2 k

pow2_mono : (a b : ℕ) → a ≤ b → pow2 a ≤ pow2 b
pow2_mono zero zero h = omega arith
pow2_mono (suc a) zero h = absurd (omega arith)
pow2_mono zero (suc b) h = omega (arith, pow2_mono zero b (omega arith))
pow2_mono (suc a) (suc b) h = omega (arith, pow2_mono a b (omega arith))

pow2-lt_word : (j : ℕ) → pow2 j < word → j < 64
pow2-lt_word j h = elim (Bool-cases (ltb j 64)) [
  | inl t ↦ ground (arith, t)
  | inr t ↦ let le : 64 ≤ j = ground (arith, t) in absurd (omega (arith, pow2_mono 64 j le))
]

le-mul : (a b : ℕ) → 0 < b → a ≤ a * b
le-mul a b h = grind arith

justify_step :
    (f den qbit : ℕ)
    → den < 2 ^ 63
    → justify (suc f) den qbit ≡ justify f (den * 2 % word) (qbit * 2 % word)
unfolding justify
justify_step f den qbit h = ground arith

justify_end : (f den qbit : ℕ) → 2 ^ 63 ≤ den → justify (suc f) den qbit ≡ done (den, qbit)
unfolding justify
justify_end f den qbit h = ground arith

-- The denominator is shifted to the top, and the bit with it.
justify_lem :
    (f j d : ℕ)
    → 0 < d
    → 65 ≤ f + j
    → d * pow2 j < word
    → (k : ℕ) × (justify f (d * pow2 j) (pow2 j) ≡ done (d * pow2 k, pow2 k))
      × (2 ^ 63 ≤ d * pow2 k)
      × (d * pow2 k < word)
justify_lem zero j d h hf hw =
    let lt : pow2 j < word = omega (arith, le-mul (pow2 j) d h) in
    absurd (omega (arith, pow2-lt_word j lt))
justify_lem (suc f) j d h hf hw = elim (Bool-cases (ltb (d * pow2 j) (2 ^ 63))) [
  | inr t ↦
      let ge : 2 ^ 63 ≤ d * pow2 j = ground (arith, t) in
      (j, justify_end f (d * pow2 j) (pow2 j) ge, ge, hw)
  | inl t ↦
      let lt : d * pow2 j < 2 ^ 63 = ground (arith, t) in
      let e : d * pow2 j * 2 % word ≡ d * pow2 (suc j) = omega (arith, lt) in
      let le : pow2 j ≤ pow2 j * d = le-mul (pow2 j) d h in
      let q : pow2 j * 2 % word ≡ pow2 (suc j) = omega (arith, lt, le) in
      let (k, run, lo, hi) = justify_lem f (suc j) d h (omega arith) (omega (arith, lt)) in
      (k, justify_step f (d * pow2 j) (pow2 j) lt ∙ ap₂ (justify f) e q ∙ run, lo, hi)
]

-- The rounds of the second loop.
subtract_end : (f num den quot : ℕ) → subtract (suc f) num den 0 quot ≡ done (quot, num)
unfolding subtract
subtract_end f num den quot = refl

subtract_take :
    (f num den qbit quot : ℕ)
    → qbit ≢ 0
    → den ≤ num
    → subtract (suc f) num den qbit quot
      ≡ subtract f (num - den) (den / 2) (qbit / 2) ((quot + qbit) % word)
unfolding subtract
subtract_take f num den qbit quot h le = ground arith

subtract_pass :
    (f num den qbit quot : ℕ)
    → qbit ≢ 0
    → num < den
    → subtract (suc f) num den qbit quot ≡ subtract f num (den / 2) (qbit / 2) quot
unfolding subtract
subtract_pass f num den qbit quot h lt = ground arith

abbrev pub Divides : ℕ → ℕ → Outcome (ℕ × ℕ) → Type 0
Divides n d r = Ensures r λ x. (x.0 * d + x.1 ≡ n) × (x.1 < d)

Divides-eq : (n d : ℕ) (r s : Outcome (ℕ × ℕ)) → r ≡ s → Divides n d s → Divides n d r
Divides-eq n d r s e (x, run, h) = (x, e ∙ run, h)

pow2-pos : (k : ℕ) → 0 < pow2 k
pow2-pos zero = omega arith
pow2-pos (suc k) = omega (arith, pow2-pos k)

-- After the round of the bit `pow2 k`.
abbrev Later : ℕ → ℕ → ℕ → Type 0
Later k d n =
    (f num quot : ℕ)
    → k + 1 ≤ f
    → num < d * pow2 k
    → quot * d + num ≡ n
    → Divides n d (subtract f num (d * pow2 k / 2) (pow2 k / 2) quot)

-- The round of the bit `pow2 k`, where the numerator is below twice the shifted denominator.
subtract_round :
    (k f num quot d n : ℕ)
    → 0 < d
    → k + 2 ≤ f
    → num < d * pow2 k + d * pow2 k
    → quot * d + num ≡ n
    → n < word
    → Later k d n
    → Divides n d (subtract f num (d * pow2 k) (pow2 k) quot)
subtract_round k zero num quot d n h hf lt e hn later = absurd (omega arith)
subtract_round k (suc f) num quot d n h hf lt e hn later =
    let nz : pow2 k ≢ 0 = λ q. omega (arith, pow2-pos k) in
    elim (Bool-cases (leb (d * pow2 k) num)) [
      | inl t ↦
          let le : d * pow2 k ≤ num = ground (arith, t) in
          let small : quot + pow2 k ≤ (quot + pow2 k) * d = le-mul (quot + pow2 k) d h in
          let q : (quot + pow2 k) % word ≡ quot + pow2 k = omega (arith, small) in
          Divides-eq n d _ _
            (subtract_take f num (d * pow2 k) (pow2 k) quot nz le
              ∙ ap (subtract f (num - d * pow2 k) (d * pow2 k / 2) (pow2 k / 2)) q)
            (later f (num - d * pow2 k) (quot + pow2 k) (omega arith) (omega arith) (omega arith))
      | inr t ↦
          let gt : num < d * pow2 k = ground (arith, t) in
          Divides-eq n d _ _ (subtract_pass f num (d * pow2 k) (pow2 k) quot nz gt)
            (later f num quot (omega arith) gt e)
    ]

subtract-Later : (k d n : ℕ) → 0 < d → n < word → Later k d n
subtract-Later zero d n h hn zero num quot hf lt e = absurd (omega arith)
subtract-Later zero d n h hn (suc f) num quot hf lt e =
    ((quot, num), subtract_end f num _ quot, (e, omega arith))
subtract-Later (suc k) d n h hn f num quot hf lt e =
    let dd : d * pow2 (suc k) / 2 ≡ d * pow2 k = omega arith in
    let pp : pow2 (suc k) / 2 ≡ pow2 k = omega arith in
    Divides-eq n d _ _ (ap₂ (λ (a b : ℕ). subtract f num a b quot) dd pp) (
      subtract_round k f num quot d n h (omega arith) (omega arith) e hn
        (subtract-Later k d n h hn))

-- Division of a 64-bit number by one that is not 0 returns, with the quotient and the remainder.
pub udivmod-Divides :
    (num den : ℕ) → num < word → den ≢ 0 → den < word → Divides num den (udivmod num den)
unfolding udivmod
udivmod-Divides num den hn hd hw =
    let pos : 0 < den = omega arith in
    let (k, run, lo, hi) = justify_lem 65 0 den pos (omega arith) (omega arith) in
    let one : den * pow2 0 ≡ den = omega arith in
    let run' : justify 65 den 1 ≡ done (den * pow2 k, pow2 k) =
      ap (λ (x : ℕ). justify 65 x 1) (sym one) ∙ run in
    let le : pow2 k ≤ pow2 k * den = le-mul (pow2 k) den pos in
    let lt : k < 64 = pow2-lt_word k (omega (arith, le)) in
    Divides-eq num den _ _ (rw (==_false den 0 hd, run', ◌>>=◌)) (
      subtract_round k 66 num 0 den num pos (omega (arith, lt)) (omega arith) (omega arith) hn
        (subtract-Later k den num pos hn))
