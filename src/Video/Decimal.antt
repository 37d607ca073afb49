-- ===== src/Video/Decimal.antt =====
-- A printed number is read back.
use mathlib.Core.Path.{subst}
use native.Mathlib.Nat.{pow-zero, pow-suc, div-lt_iff_lt-mul, div-lt_self, div-add-mod', mod-lt}
use cxx_kernel.Base.{
  ℕ, zero, suc, ◌+◌, ◌-◌, ◌*◌, ◌/◌, ◌%◌, ◌^◌, ◌<◌, ◌≤◌, ◌≡◌, refl, sym, ap, ◌∙◌, inl, inr,
  Bool-cases, List, [], ◌∷◌, ◌++◌, replicate, min, arith, Ensures, ltb, ltb→lt, ◌==◌, ==_iff,
  if◌then◌else◌,
}
use cxx_kernel.Video.{prenull, count_digits, digit, write_digits, ull_text}

-- The value of a digit, and of a string in a radix that goes on from a value.
abbrev pub value : ℕ → ℕ
value c = if ltb c 65 then c - 48 else c - 55

abbrev pub read_from : ℕ → ℕ → List ℕ → ℕ
read_from radix x [] = x
read_from radix x (c ∷ cs) = read_from radix (x * radix + value c) cs

value-digit : (t : ℕ) → t < 128 → value (digit t) ≡ t
unfolding digit
value-digit t h = ground arith

write_digits-value :
    (l r v : ℕ) (s : List ℕ)
    → 1 < r
    → r ≤ 128
    → v < r ^ l
    → read_from r 0 (write_digits l r v s) ≡ read_from r v s
unfolding write_digits
write_digits-value zero r v s h small b =
    let e : r ^ 0 ≡ 1 = pow-zero r in ap (λ (x : ℕ). read_from r x s) (omega (arith, e, b))
write_digits-value (suc l) r v s h small b =
    let e : r ^ suc l ≡ r ^ l * r = pow-suc r l in
    let fits : v / r < r ^ l = (div-lt_iff_lt-mul (omega arith)).1 (subst (λ (n : ℕ). v < n) e b) in
    let below : v % r < 128 = let m = mod-lt v {m = r} (omega arith) in omega (arith, m, small) in
    write_digits-value l r (v / r) (digit (v % r) ∷ s) h small fits
    ∙ ap (λ (x : ℕ). read_from r x s)
        (ap (λ (d : ℕ). v / r * r + d) (value-digit (v % r) below) ∙ div-add-mod' v r)

-- The digits counted are enough for the value.
count_digits-enough : (f r v : ℕ) → 1 < r → v < f → Ensures (count_digits f r v) (λ l. v < r ^ l)
unfolding count_digits
count_digits-enough zero r v h b = absurd (omega arith)
count_digits-enough (suc f) r v h b = elim (Bool-cases (ltb 0 v)) [
  | inl c ↦
      let p : 0 < v = ltb→lt 0 v c in
      let smaller : v / r < v = div-lt_self p h in
      let (l, run, fits) = count_digits-enough f r (v / r) h (omega arith) in
      let e : r ^ l * r ≡ r ^ (l + 1) = sym (pow-suc r l) ∙ ap (λ (n : ℕ). r ^ n) (omega arith) in
      let all : v < r ^ l * r = (div-lt_iff_lt-mul (omega arith)).0 fits in
      (l + 1, rw (c, run) refl, subst (λ (n : ℕ). v < n) e all)
  | inr c ↦
      let e : r ^ 0 ≡ 1 = pow-zero r in
      (0, rw c refl, subst (λ (n : ℕ). v < n) (sym e) (ground arith))
]

-- Zeros in front of a number.
zeros-value : (n r : ℕ) (s : List ℕ) → read_from r 0 (replicate n 48 ++ s) ≡ read_from r 0 s
zeros-value zero r s = refl
zeros-value (suc n) r s =
    let e : 0 * r + (48 - 48) ≡ 0 = omega arith in
    ap (λ (x : ℕ). read_from r x (replicate n 48 ++ s)) e ∙ zeros-value n r s

prenull-value :
    (cnt fmtcnt r : ℕ) (s : List ℕ) → read_from r 0 (prenull cnt fmtcnt ++ s) ≡ read_from r 0 s
unfolding prenull
prenull-value cnt fmtcnt r s = elim (Bool-cases (ltb cnt fmtcnt)) [
  | inl c ↦ rw c (zeros-value (min (fmtcnt - cnt) 255) r s)
  | inr c ↦ rw c refl
]

-- In a radix from 2 to 128, with more fuel than the value, print_ull returns, and what it prints is a
-- string of digits whose value is the number, whatever the width of the format.
pub ull_text-value :
    (f v r fmtcnt : ℕ)
    → 1 < r
    → r ≤ 128
    → v < f
    → Ensures (ull_text f v r fmtcnt) (λ s. read_from r 0 s ≡ v)
unfolding ull_text
ull_text-value f v r fmtcnt h small b = elim (Bool-cases (v == 0)) [
  | inl z ↦
      let e : v ≡ 0 = (==_iff v 0).0 z in
      (
        prenull 1 fmtcnt ++ 48 ∷ [],
        rw z refl,
        prenull-value 1 fmtcnt r (48 ∷ []) ∙ omega (arith, e),
      )
  | inr z ↦
      let (l, run, fits) = count_digits-enough f r v h b in
      (
        prenull l fmtcnt ++ write_digits l r v [],
        rw (z, run) refl,
        prenull-value l fmtcnt r (write_digits l r v []) ∙ write_digits-value l r v [] h small fits,
      )
]
