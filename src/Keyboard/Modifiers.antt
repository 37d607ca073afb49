-- ===== src/Keyboard/Modifiers.antt =====
-- Every code from 0x20 to 0x5F counts as one of the right modifiers, the code of ALT too.
use mathlib.Core.Path.{subst}
use cxx_kernel.Base.{
  ℕ, ◌-◌, ◌≡◌, refl, sym, ap, ◌∙◌, inl, inr, Bool, true, false, ◌||◌, Bool-cases, List, [], ◌∷◌,
  arith, ==_iff, ◌==◌, if◌then◌else◌,
}
use cxx_kernel.Bits.{bit, set_bit, clear_bit}
use cxx_kernel.Bits.Words.{bit-set_bit, bit-set_bit_other, bit-clear_bit, bit-clear_bit_other}
use cxx_kernel.Keyboard.{
  Keyboard, key_ctrl, key_lshift, key_rshift, key_alt, is_right, is_release, clear_when, has_mod,
  release_mods, press_mods, put_key, mapped_key, run, get_key, run_all, Event, code, read_key,
}

-- Clearing a modifier keeps MOD_ALT off.
clear_when_off : (b : Bool) (j m : ℕ) → bit m 3 ≡ 0 → bit (clear_when b j m) 3 ≡ 0
clear_when_off false j m h = h
clear_when_off true j m h = elim (Bool-cases (j == 3)) [
  | inl e ↦
      let q : j ≡ 3 = (==_iff j 3).0 e in
      ap (λ (i : ℕ). bit (clear_bit m i) 3) q ∙ bit-clear_bit m 3
  | inr e ↦ bit-clear_bit_other m j 3 (ground arith) ∙ h
]

release_mods_off : (b m : ℕ) → bit m 3 ≡ 0 → bit (release_mods b m) 3 ≡ 0
unfolding release_mods
release_mods_off b m h =
    let m1 = clear_when (b == key_lshift) 1 m in
    let m2 = clear_when (b == key_rshift) 1 m1 in
    let m3 = clear_when (b == key_ctrl) 2 m2 in
    let m4 = clear_when (b == key_alt) (if has_mod 5 m3 then 4 else 3) m3 in
    let h1 = clear_when_off (b == key_lshift) 1 m h in
    let h2 = clear_when_off (b == key_rshift) 1 m1 h1 in
    let h3 = clear_when_off (b == key_ctrl) 2 m2 h2 in
    let h4 = clear_when_off (b == key_alt) (if has_mod 5 m3 then 4 else 3) m3 h3 in
    clear_when_off (is_right b) 5 m4 h4

-- MOD_RIGHT stands when the code of ALT has come.
right_alt :
    (b m : ℕ) → (b == key_alt) ≡ true → has_mod 5 (if is_right b then set_bit m 5 else m) ≡ true
right_alt b m e =
    let q : b ≡ key_alt = (==_iff b key_alt).0 e in
    let r : is_right b ≡ true = ap is_right q in let w = bit-set_bit m 5 in rw (r, w) refl

press_mods_off : (b m : ℕ) → bit m 3 ≡ 0 → bit (press_mods b m) 3 ≡ 0
unfolding press_mods
press_mods_off b m h =
    let m1 = if is_right b then set_bit m 5 else m in
    let w = bit-set_bit_other m 5 3 (omega arith) in
    let h1 : bit m1 3 ≡ 0 = elim (Bool-cases (is_right b)) [
      | inl e ↦ rw e (w ∙ h)
      | inr e ↦ rw e h
    ] in
    let shift = bit-set_bit_other m1 1 3 (omega arith) in
    let ctrl = bit-set_bit_other m1 2 3 (omega arith) in
    let altgr = bit-set_bit_other m1 4 3 (omega arith) in
    elim (Bool-cases (b == key_lshift || b == key_rshift)) [
      | inl e ↦ rw e (shift ∙ h1)
      | inr e ↦ elim (Bool-cases (b == key_ctrl)) [
        | inl c ↦ rw (e, c) (ctrl ∙ h1)
        | inr c ↦ elim (Bool-cases (b == key_alt)) [
          | inl a ↦ rw (e, c, a, right_alt b m a) (altgr ∙ h1)
          | inr a ↦ rw (e, c, a) h1
        ]
      ]
    ]

put_key_mods : (x : ℕ) (k : Keyboard) → (put_key x k).mods ≡ k.mods
unfolding put_key
put_key_mods x k = ground arith

run_off : (c : ℕ) (k : Keyboard) → bit k.mods 3 ≡ 0 → bit (run c k).mods 3 ≡ 0
unfolding run
run_off c k h =
    let released = record k { mods = release_mods (c - 128) k.mods } in
    let pressed = record k { mods = press_mods c k.mods } in
    let typed = put_key (mapped_key k.layout_code (press_mods c k.mods) c) pressed in
    let branch = λ (b : Bool). bit (if b then released else typed).mods 3 ≡ 0 in
    elim (Bool-cases (is_release c)) [
      | inl e ↦ subst branch (sym e) (release_mods_off (c - 128) k.mods h)
      | inr e ↦ subst branch (sym e) (
          ap (λ (m : ℕ). bit m 3)
            (put_key_mods (mapped_key k.layout_code (press_mods c k.mods) c) pressed)
          ∙ press_mods_off c k.mods h)
    ]

get_key_mods : (k : Keyboard) → (get_key k).1.mods ≡ k.mods
unfolding get_key
get_key_mods k = ground arith

-- MOD_ALT is never set: whatever codes come and whenever keys are read, a keyboard that starts with
-- it off has it off, since the press of ALT finds MOD_RIGHT set by its own code.
pub run_all-alt :
    (es : List Event) (k : Keyboard) → bit k.mods 3 ≡ 0 → bit (run_all es k).1.mods 3 ≡ 0
unfolding run_all
run_all-alt [] k h = h
run_all-alt (code c ∷ es) k h = run_all-alt es (run c k) (run_off c k h)
run_all-alt (read_key ∷ es) k h =
    run_all-alt es (get_key k).1 (ap (λ (m : ℕ). bit m 3) (get_key_mods k) ∙ h)
