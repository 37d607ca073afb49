-- ===== src/Division/Repeated.antt =====
-- The ARM helpers that divide by repeated addition.
use mathlib.Core.Path.{ap₂}
use cxx_kernel.Base.{ℕ, zero, suc, ◌+◌, ◌-◌, ◌*◌, ◌%◌, ◌^◌, ◌≤◌, ◌<◌, ◌≡◌, done, arith, ap, ◌∙◌}
use cxx_kernel.Division.{uidiv_loop, uidiv, uidivmod_loop, uidivmod}

uidiv_step :
    (f num den x c : ℕ)
    → x ≤ num
    → num + den < 2 ^ 32
    → c < 2 ^ 32 - 1
    → uidiv_loop (suc f) num den x c ≡ uidiv_loop f num den (x + den) (c + 1)
unfolding uidiv_loop
uidiv_step f num den x c h hw hc =
    let e : (x + den) % 2 ^ 32 ≡ x + den = omega arith in
    let k : (c + 1) % 2 ^ 32 ≡ c + 1 = omega arith in ground (arith, e, k)

uidiv_end : (f num den x c : ℕ) → num < x → uidiv_loop (suc f) num den x c ≡ done c
unfolding uidiv_loop
uidiv_end f num den x c h = ground arith

uidivmod_step :
    (f num den x c : ℕ)
    → x < num
    → num + den < 2 ^ 32
    → c < 2 ^ 32 - 1
    → uidivmod_loop (suc f) num den x c ≡ uidivmod_loop f num den (x + den) (c + 1)
unfolding uidivmod_loop
uidivmod_step f num den x c h hw hc =
    let e : (x + den) % 2 ^ 32 ≡ x + den = omega arith in
    let k : (c + 1) % 2 ^ 32 ≡ c + 1 = omega arith in ground (arith, e, k)

uidivmod_end :
    (f num den x c r : ℕ)
    → num ≤ x
    → num ≡ c * den + r
    → num < 2 ^ 32
    → uidivmod_loop (suc f) num den x c ≡ done r
unfolding uidivmod_loop
uidivmod_end f num den x c r h e hw =
    let k : (num + 2 ^ 32 - c * den % 2 ^ 32) % 2 ^ 32 ≡ r = omega arith in ground (arith, k)

-- With `i` more additions to go and `r` left over.
uidiv_lem :
    (i f den c r : ℕ)
    → 0 < den
    → i < f
    → r < den
    → (c + i) * den + r + den < 2 ^ 32
    → uidiv_loop f ((c + i) * den + r) den (c * den + den) c ≡ done (c + i)
uidiv_lem zero zero den c r h hf hr hw = absurd (omega arith)
uidiv_lem zero (suc f) den c r h hf hr hw =
    uidiv_end f _ den _ c (omega arith) ∙ ap done (omega arith)
uidiv_lem (suc i) zero den c r h hf hr hw = absurd (omega arith)
uidiv_lem (suc i) (suc f) den c r h hf hr hw =
    let le : c + suc i ≤ (c + suc i) * den = grind arith in
    let n : (c + suc i) * den + r ≡ (c + 1 + i) * den + r = omega arith in
    let x : c * den + den + den ≡ (c + 1) * den + den = omega arith in
    let out : c + 1 + i ≡ c + suc i = omega arith in
    uidiv_step f _ den _ c (grind arith) hw (omega (arith, le))
    ∙ ap₂ (λ (a b : ℕ). uidiv_loop f a den b (c + 1)) n x
    ∙ uidiv_lem i f den (c + 1) r h (omega arith) hr (omega arith)
    ∙ ap done out

-- By a denominator that is not 0, __aeabi_uidiv returns the quotient where the numerator and the denominator together fit in a
-- word, after one round for each unit of the quotient and one more.
pub uidiv_quotient :
    (fuel den q r : ℕ)
    → 0 < den
    → q < fuel
    → r < den
    → q * den + r + den < 2 ^ 32
    → uidiv fuel (q * den + r) den ≡ done q
unfolding uidiv
uidiv_quotient fuel den q r h hf hr hw =
    let n : q * den + r ≡ (0 + q) * den + r = omega arith in
    let x : den ≡ 0 * den + den = omega arith in
    let out : 0 + q ≡ q = omega arith in
    ap₂ (λ (a b : ℕ). uidiv_loop fuel a den b 0) n x
    ∙ uidiv_lem q fuel den 0 r h hf hr (omega (arith, hw))
    ∙ ap done out

uidivmod_lem :
    (i f den c r : ℕ)
    → 0 < den
    → i < f
    → 0 < r
    → r ≤ den
    → (c + i) * den + r + den < 2 ^ 32
    → uidivmod_loop f ((c + i) * den + r) den (c * den + den) c ≡ done r
uidivmod_lem zero zero den c r h hf hp hr hw = absurd (omega arith)
uidivmod_lem zero (suc f) den c r h hf hp hr hw =
    uidivmod_end f _ den _ c r (omega arith) (omega arith) (omega arith)
uidivmod_lem (suc i) zero den c r h hf hp hr hw = absurd (omega arith)
uidivmod_lem (suc i) (suc f) den c r h hf hp hr hw =
    let le : c + suc i ≤ (c + suc i) * den = grind arith in
    let n : (c + suc i) * den + r ≡ (c + 1 + i) * den + r = omega arith in
    let x : c * den + den + den ≡ (c + 1) * den + den = omega arith in
    uidivmod_step f _ den _ c (grind arith) hw (omega (arith, le))
    ∙ ap₂ (λ (a b : ℕ). uidivmod_loop f a den b (c + 1)) n x
    ∙ uidivmod_lem i f den (c + 1) r h (omega arith) hp hr (omega arith)

-- __aeabi_uidivmod returns the remainder of a numerator that the denominator does not divide, and
-- the denominator itself, in place of 0, for one that it does divide (and that is not 0).
pub uidivmod_result :
    (fuel den q r : ℕ)
    → 0 < den
    → q < fuel
    → 0 < r
    → r ≤ den
    → q * den + r + den < 2 ^ 32
    → uidivmod fuel (q * den + r) den ≡ done r
unfolding uidivmod
uidivmod_result fuel den q r h hf hp hr hw =
    let n : q * den + r ≡ (0 + q) * den + r = omega arith in
    let x : den ≡ 0 * den + den = omega arith in
    ap₂ (λ (a b : ℕ). uidivmod_loop fuel a den b 0) n x
    ∙ uidivmod_lem q fuel den 0 r h hf hp hr (omega (arith, hw))
