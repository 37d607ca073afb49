-- ===== src/Bits/Words.antt =====
-- The bits of a word.
use cxx_kernel.Base.{
  ℕ, zero, suc, ◌+◌, ◌-◌, ◌*◌, ◌/◌, ◌%◌, ◌^◌, ◌<◌, ◌≡◌, refl, ap, ◌∙◌, ◌≢◌, arith,
}
use cxx_kernel.Bits.{bit, set_bit, clear_bit}

pub bit-set_bit : (w m : ℕ) → bit (set_bit w m) m ≡ 1
unfolding bit set_bit
bit-set_bit w zero = omega arith
bit-set_bit w (suc m) =
    let e : (set_bit (w / 2) m * 2 + w % 2) / 2 ≡ set_bit (w / 2) m = omega arith in
    ap (λ (x : ℕ). bit x m) e ∙ bit-set_bit (w / 2) m

pub bit-set_bit_other : (w m j : ℕ) → j ≢ m → bit (set_bit w m) j ≡ bit w j
unfolding bit set_bit
bit-set_bit_other w zero zero n = absurd (n refl)
bit-set_bit_other w zero (suc j) n = ap (λ (x : ℕ). bit x j) (omega arith)
bit-set_bit_other w (suc m) zero n = omega arith
bit-set_bit_other w (suc m) (suc j) n =
    let e : (set_bit (w / 2) m * 2 + w % 2) / 2 ≡ set_bit (w / 2) m = omega arith in
    ap (λ (x : ℕ). bit x j) e ∙ bit-set_bit_other (w / 2) m j (λ q. n (ap suc q))

pub bit-clear_bit : (w m : ℕ) → bit (clear_bit w m) m ≡ 0
unfolding bit clear_bit
bit-clear_bit w zero = omega arith
bit-clear_bit w (suc m) =
    let e : (clear_bit (w / 2) m * 2 + w % 2) / 2 ≡ clear_bit (w / 2) m = omega arith in
    ap (λ (x : ℕ). bit x m) e ∙ bit-clear_bit (w / 2) m

pub bit-clear_bit_other : (w m j : ℕ) → j ≢ m → bit (clear_bit w m) j ≡ bit w j
unfolding bit clear_bit
bit-clear_bit_other w zero zero n = absurd (n refl)
bit-clear_bit_other w zero (suc j) n = ap (λ (x : ℕ). bit x j) (omega arith)
bit-clear_bit_other w (suc m) zero n = omega arith
bit-clear_bit_other w (suc m) (suc j) n =
    let e : (clear_bit (w / 2) m * 2 + w % 2) / 2 ≡ clear_bit (w / 2) m = omega arith in
    ap (λ (x : ℕ). bit x j) e ∙ bit-clear_bit_other (w / 2) m j (λ q. n (ap suc q))

power : (k : ℕ) → (2 ^ suc k ≡ 2 ^ k + 2 ^ k) × (0 < 2 ^ k)
power zero = (omega arith, omega arith)
power (suc k) = let (e, p) = power k in (omega (arith, e, p), omega (arith, e, p))

-- The word ~0 has every bit.
full_below : (k j : ℕ) → j < k → bit (2 ^ k - 1) j ≡ 1
unfolding bit
full_below zero j h = absurd (omega arith)
full_below (suc k) zero h = omega (arith, power k)
full_below (suc k) (suc j) h =
    ap (λ (x : ℕ). bit x j) (omega (arith, power k)) ∙ full_below k j (omega arith)

pub bit_full : (j : ℕ) → j < 32 → bit (2 ^ 32 - 1) j ≡ 1
bit_full j h = full_below 32 j h
