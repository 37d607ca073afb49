-- ===== src/Ata/Selector.antt =====
-- The value of the device register that ATA::DevicePrivate::select writes (src/ata.cpp).
use Prim.Native.Nat.{bit_or}
use cxx_kernel.Base.{
  ℕ, zero, suc, ◌+◌, ◌*◌, ◌/◌, ◌%◌, ◌<◌, ◌≡◌, refl, sym, ap, ◌∙◌, ◌⊎◌, inl, inr, Bool, true, false,
  ◌&&◌, Bool-cases, arith, ◌==◌, ==_iff, if◌then◌else◌,
}
use cxx_kernel.Ata.{Drive}

-- The mode that detect sets, for a master or a slave.
pub record IsDetected (d : Drive) : Type 0 where
  pub mode_set : d.mode ≡ (if d.lba then 0x40 else 0)
  pub one_of_two : (d.kind ≡ 0) ⊎ (d.kind ≡ 1)

-- A test that holds below a bound.
all_below : ℕ → (ℕ → Bool) → Bool
all_below zero f = true
all_below (suc n) f = f n && all_below n f

all_below_lem : (n k : ℕ) (f : ℕ → Bool) → all_below n f ≡ true → k < n → f k ≡ true
unfolding all_below
all_below_lem zero k f e l = absurd (omega arith)
all_below_lem (suc n) k f e l = elim (Bool-cases (f n)) [
  | inr a ↦ let w : (f n && all_below n f) ≡ false = rw a refl in absurd cc
  | inl a ↦
      let rest : all_below n f ≡ true = sym (ap (λ (b : Bool). b && all_below n f) a) ∙ e in
      elim (Bool-cases (k == n)) [
        | inl q ↦ ap f ((==_iff k n).0 q) ∙ a
        | inr q ↦ all_below_lem n k f rest (ground arith)
      ]
]

-- The head does not change the other bits of the selector.
joins :
    (x head : ℕ)
    → all_below 16 (λ h. bit_or x h == x + h) ≡ true
    → head < 16
    → bit_or x head ≡ x + head
joins x head e l =
    (==_iff (bit_or x head) (x + head)).0 (all_below_lem 16 head (λ h. bit_or x h == x + h) e l)

abbrev pub selector : Drive → ℕ → ℕ
selector d head = bit_or (bit_or (bit_or 0xA0 d.mode) (d.kind * 16)) head

all_chs : all_below 16 (λ h. bit_or 0xA0 h == 0xA0 + h) ≡ true
unfolding all_below
all_chs = refl

all_chs_slave : all_below 16 (λ h. bit_or 0xB0 h == 0xB0 + h) ≡ true
unfolding all_below
all_chs_slave = refl

all_lba : all_below 16 (λ h. bit_or 0xE0 h == 0xE0 + h) ≡ true
unfolding all_below
all_lba = refl

all_lba_slave : all_below 16 (λ h. bit_or 0xF0 h == 0xF0 + h) ≡ true
unfolding all_below
all_lba_slave = refl

-- What the device register says.
abbrev pub Selects : Bool → ℕ → ℕ → Type 0
Selects lba head v = (v % 16 ≡ head) × ((v / 64 % 2 == 0) ≡ (if lba then false else true))

pub selector-Selects :
    (lba : Bool) (mode kind head : ℕ)
    → mode ≡ (if lba then 0x40 else 0)
    → (kind ≡ 0) ⊎ (kind ≡ 1)
    → head < 16
    → Selects lba head (bit_or (bit_or (bit_or 0xA0 mode) (kind * 16)) head % 256)
selector-Selects true mode kind head e (inl k) l =
    let w = joins 0xE0 head all_lba l in
    let v : bit_or (bit_or (bit_or 0xA0 mode) (kind * 16)) head ≡ 0xE0 + head = rw (e, k) w in
    rw v (omega (arith, l), ground (arith, l))
selector-Selects true mode kind head e (inr k) l =
    let w = joins 0xF0 head all_lba_slave l in
    let v : bit_or (bit_or (bit_or 0xA0 mode) (kind * 16)) head ≡ 0xF0 + head = rw (e, k) w in
    rw v (omega (arith, l), ground (arith, l))
selector-Selects false mode kind head e (inl k) l =
    let w = joins 0xA0 head all_chs l in
    let v : bit_or (bit_or (bit_or 0xA0 mode) (kind * 16)) head ≡ 0xA0 + head = rw (e, k) w in
    rw v (omega (arith, l), ground (arith, l))
selector-Selects false mode kind head e (inr k) l =
    let w = joins 0xB0 head all_chs_slave l in
    let v : bit_or (bit_or (bit_or 0xA0 mode) (kind * 16)) head ≡ 0xB0 + head = rw (e, k) w in
    rw v (omega (arith, l), ground (arith, l))
