-- ===== src/Ata/Locate.antt =====
-- What the registers of a drive say is the number of the sector that was asked for.
use mathlib.Core.Path.{subst}
use native.Mathlib.Nat.{
  div-add-mod', mul-div-mul_right, mul-div_cancel, div-lt_iff_lt-mul, mod-lt, mul_assoc, add-mul,
}
use cxx_kernel.Base.{
  ℕ, zero, suc, ◌+◌, ◌-◌, ◌*◌, ◌/◌, ◌%◌, ◌^◌, ◌<◌, ◌≤◌, ◌≡◌, refl, sym, ap, ◌∙◌, ◌⊎◌, inl, inr,
  Bool, true, false, ◌||◌, Bool-cases, some, none, arith, ltb, leb, ◌==◌, if◌then◌else◌,
}
use cxx_kernel.Ata.{Drive}
use cxx_kernel.Ata.Commands.{Position, locate_lba48, locate_lba, locate_chs, locate}

-- The sector that a drive takes the registers for.
abbrev pub cylinder : Position → ℕ
cylinder p = p.io1 + p.io2 * 2 ^ 8

abbrev pub low : Position → ℕ
low p = p.io0 + p.io1 * 2 ^ 8 + p.io2 * 2 ^ 16

abbrev pub denoted : Drive → Position → ℕ
denoted d p =
    if p.lba48
    then low p + p.io3 * 2 ^ 24 + (p.io4 + p.io5 * 2 ^ 8) * 2 ^ 32
    else if d.lba
    then low p + p.head * 2 ^ 24
    else (cylinder p * d.head + p.head) * d.sect + p.io0 - 1

lba48_denoted :
    (d : Drive) (a h : ℕ) → a < 2 ^ 32 → h < 2 ^ 16 → denoted d (locate_lba48 a h) ≡ a + h * 2 ^ 32
unfolding locate_lba48
lba48_denoted d a h l m = omega arith

lba_denoted : (d : Drive) (a : ℕ) → d.lba ≡ true → a < 2 ^ 28 → denoted d (locate_lba a) ≡ a
unfolding locate_lba
lba_denoted d a e l = rw e (omega arith)

-- A number of sectors as cylinders, heads and the rest.
module _ (h s a : ℕ) (hp : 0 < h) (sp : 0 < s) where
  track : ℕ
  track = a / s

  rest_is : a + 1 - (a % s + 1) ≡ track * s
  unfolding track
  rest_is = let w = div-add-mod' a s in omega (arith, w)

  cylinder_is : (a + 1 - (a % s + 1)) / (h * s) ≡ track / h
  cylinder_is = rw rest_is (mul-div-mul_right track h sp)

  spread : track * s ≡ track / h * (h * s) + track % h * s
  spread =
      let w = div-add-mod' track h in
      ap (λ (x : ℕ). x * s) (sym w)
      ∙ add-mul (track / h * h) (track % h) s
      ∙ ap (λ (x : ℕ). x + track % h * s) (mul_assoc (track / h) h s)

  head_is : (a + 1 - (a % s + 1)) % (h * s) / s ≡ track % h
  head_is =
      let w = div-add-mod' (track * s) (h * s) in
      let c = mul-div-mul_right track h sp in
      let v = ap (λ (x : ℕ). x * (h * s)) c in
      let u = spread in
      let m : track * s % (h * s) ≡ track % h * s = omega (arith, w, v, u) in
      ap (λ (x : ℕ). x % (h * s) / s) rest_is
      ∙ ap (λ (x : ℕ). x / s) m
      ∙ mul-div_cancel (track % h) sp

  again : (track / h * h + track % h) * s + (a % s + 1) - 1 ≡ a
  unfolding track
  again =
      let w = div-add-mod' a s in
      let v = ap (λ (x : ℕ). x * s) (div-add-mod' track h) in omega (arith, w, v)

mul_pos : (h s : ℕ) → 0 < h → 0 < s → 0 < h * s
mul_pos (suc h) (suc s) a b = omega arith
mul_pos (suc h) zero a b = absurd (omega arith)
mul_pos zero s a b = absurd (omega arith)

-- What a drive can address: 28 bits, or 65536 cylinders of heads and sectors.
pub record HasGeometry (d : Drive) (addr : ℕ) : Type 0 where
  pub heads : 0 < d.head
  pub sects : 0 < d.sect
  pub small_head : d.head ≤ 16
  pub small_sect : d.sect < 256
  pub reached : addr < 2 ^ 16 * (d.head * d.sect)

-- The bytes of a position fit their registers, and its head the four bits that select it.
pub record IsNarrow (p : Position) : Type 0 where
  pub byte0 : p.io0 < 256
  pub byte1 : p.io1 < 256
  pub byte2 : p.io2 < 256
  pub byte3 : p.io3 < 256
  pub byte4 : p.io4 < 256
  pub byte5 : p.io5 < 256
  pub nibble : p.head < 16

lba48-IsNarrow : (a h : ℕ) → IsNarrow (locate_lba48 a h)
unfolding locate_lba48
lba48-IsNarrow a h = record {
  byte0 = omega arith;
  byte1 = omega arith;
  byte2 = omega arith;
  byte3 = omega arith;
  byte4 = omega arith;
  byte5 = omega arith;
  nibble = omega arith;
}

lba-IsNarrow : (a : ℕ) → IsNarrow (locate_lba a)
unfolding locate_lba
lba-IsNarrow a = record {
  byte0 = omega arith;
  byte1 = omega arith;
  byte2 = omega arith;
  byte3 = omega arith;
  byte4 = omega arith;
  byte5 = omega arith;
  nibble = omega arith;
}

abbrev chs_position : ℕ → ℕ → ℕ → Position
chs_position sect cyl head = record {
  io0 = sect;
  io1 = cyl % 256;
  io2 = cyl / 2 ^ 8 % 256;
  io3 = 0;
  io4 = 0;
  io5 = 0;
  head = head % 256;
  lba48 = false;
}

chs_denoted :
    (d : Drive) (a : ℕ)
    → d.lba ≡ false
    → HasGeometry d a
    → (p : Position) × (locate_chs d a ≡ some p)
      × (denoted d p ≡ a)
      × IsNarrow p
      × (p.lba48 ≡ false)
unfolding locate_chs track
chs_denoted d a e g =
    let h = d.head in
    let s = d.sect in
    let hp = g.heads in
    let sp = g.sects in
    let hb = g.small_head in
    let sb = g.small_sect in
    let t = a / s in
    let per = mul_pos h s hp sp in
    let z : (h * s == 0) ≡ false = ground (arith, per) in
    let y : ltb 0 s ≡ true = ground (arith, sp) in
    let r = mod-lt a sp in
    let sector : (if ltb 0 s then (a % s + 1) % 256 else 0) ≡ a % s + 1 =
      rw y (omega (arith, r, sb)) in
    let rest = a + 1 - (a % s + 1) in
    let reach = g.reached in
    let f = (div-lt_iff_lt-mul {x = rest} {y = 2 ^ 16} per).1 (omega (arith, reach)) in
    let cyl_eq : rest / (h * s) ≡ t / h = cylinder_is h s a hp sp in
    let head_eq : rest % (h * s) / s ≡ t % h = head_is h s a hp sp in
    let small : t / h < 2 ^ 16 = omega (arith, f, cyl_eq) in
    let hd = mod-lt t hp in
    let back : (t / h * h + t % h) * s + (a % s + 1) - 1 ≡ a = again h s a hp sp in
    let p = chs_position (a % s + 1) (t / h) (t % h) in
    let at = λ (v c k : ℕ). some (chs_position v c k) in
    let whole = λ (v : ℕ).
      if h * s == 0
      then none
      else at v ((a + 1 - v) / (h * s) % 2 ^ 16) ((a + 1 - v) % (h * s) / s) in
    let cyl16 : rest / (h * s) % 2 ^ 16 ≡ t / h = omega (arith, cyl_eq, small) in
    let cyl_back : t / h % 256 + t / h / 256 % 256 * 256 ≡ t / h = omega (arith, small) in
    let head_back : t % h % 256 ≡ t % h = omega (arith, hd, hb) in
    let found : whole (a % s + 1) ≡ some p = rw z (
      ap (λ (c : ℕ). at (a % s + 1) c (rest % (h * s) / s)) cyl16
      ∙ ap (at (a % s + 1) (t / h)) head_eq) in
    let value = λ (c k : ℕ). (c * h + k) * s + (a % s + 1) - 1 in
    let meant : value (t / h % 256 + t / h / 256 % 256 * 256) (t % h % 256) ≡ a =
      ap (λ (c : ℕ). value c (t % h % 256)) cyl_back ∙ ap (value (t / h)) head_back ∙ back in
    let choice = λ (b : Bool).
      (if b
        then low p + p.head * 2 ^ 24
        else value (t / h % 256 + t / h / 256 % 256 * 256) (t % h % 256))
      ≡ a in
    let narrow : IsNarrow p = record {
      byte0 = omega (arith, r, sb);
      byte1 = omega arith;
      byte2 = omega arith;
      byte3 = omega arith;
      byte4 = omega arith;
      byte5 = omega arith;
      nibble = omega (arith, hd, hb);
    } in
    (p, ap whole sector ∙ found, subst choice (sym e) meant, narrow, refl)

-- The position that is computed, of 48 bits, of 28 bits or as cylinder, head and sector, is the one
-- of the sector, where the geometry of the drive reaches it, and is narrow.
pub locate-denoted :
    (d : Drive) (a h : ℕ)
    → a < 2 ^ 32
    → h < 2 ^ 16
    → (d.lba ≡ true) ⊎ HasGeometry d a
    → (p : Position) × (locate d a h ≡ some p)
      × (denoted d p ≡ a + h * 2 ^ 32)
      × IsNarrow p
      × (p.lba48 ≡ (leb 0x10000000 a || ltb 0 h))
unfolding locate locate_lba48 locate_lba
locate-denoted d a h l m g = elim (Bool-cases (leb 0x10000000 a || ltb 0 h)) [
  | inl w ↦ (locate_lba48 a h, rw w refl, lba48_denoted d a h l m, lba48-IsNarrow a h, sym w)
  | inr w ↦
      let z : h ≡ 0 = ground arith in
      let small : a < 2 ^ 28 = ground arith in
      let sum : a ≡ a + h * 2 ^ 32 = omega (arith, z) in
      elim (Bool-cases d.lba) [
        | inl e ↦
            (locate_lba a, rw (w, e) refl, lba_denoted d a e small ∙ sum, lba-IsNarrow a, sym w)
        | inr e ↦ elim g [
          | inl t ↦ absurd cc
          | inr t ↦
              let (p, found, value, narrow, no_wide) = chs_denoted d a e t in
              (
                p,
                rw w (
                    subst
                      (λ (b : Bool). (if b then some (locate_lba a) else locate_chs d a) ≡ some p)
                      (sym e) found),
                value ∙ sum,
                narrow,
                no_wide ∙ sym w,
              )
        ]
      ]
]
