-- ===== src/Memory/Move.antt =====
-- move copies right whether or not the two ranges overlap; cmp decides equality of two ranges.
use cxx_kernel.Base.{
  ℕ, zero, suc, ◌+◌, ◌-◌, ◌<◌, ◌≡◌, refl, ◌≢◌, Bool, false, ◌&&◌, arith, leb, ltb, if◌then◌else◌,
  update, ==_false, ◌↔◌,
}
use cxx_kernel.Memory.{copy_up, copy_down, copy, move, same, cmp_loop, cmp}

-- The memory `m` with `n` bytes at `d` replaced by those at `s`.
abbrev pub copied : ℕ → ℕ → ℕ → (ℕ → ℕ) → ℕ → ℕ
copied n d s m a = if leb d a && ltb a (d + n) then m (s + (a - d)) else m a

copy_up_lem : (n d s : ℕ) (m : ℕ → ℕ) (a : ℕ) → d < s → copy_up n d s m a ≡ copied n d s m a
unfolding copy_up
copy_up_lem zero d s m a h = ground arith
copy_up_lem (suc n) d s m a h = ground (arith, copy_up_lem n (d + 1) (s + 1) (update m d (m s)) a)

copy_down_lem : (n d s : ℕ) (m : ℕ → ℕ) (a : ℕ) → s < d → copy_down n d s m a ≡ copied n d s m a
unfolding copy_down
copy_down_lem zero d s m a h = ground arith
copy_down_lem (suc n) d s m a h =
    ground (arith, copy_down_lem n d s (update m (d + n) (m (s + n))) a)

-- move between non-null pointers returns the destination, which then holds the bytes that the
-- source held before, also where the two overlap; no other byte changes.
pub move-copied :
    (dest src size : ℕ) (m : ℕ → ℕ)
    → dest ≢ 0
    → src ≢ 0
    → ((move dest src size m).0 ≡ dest)
      × ((a : ℕ) → (move dest src size m).1 a ≡ copied size dest src m a)
unfolding move copy
move-copied dest src size m hd hs = (
  ground arith,
  λ a. ground (arith, copy_up_lem size dest src m a, copy_down_lem size dest src m a),
)

-- The bytes at `a` and at `b` agree.
abbrev pub Agree : ℕ → ℕ → ℕ → (ℕ → ℕ) → Type 0
Agree n a b m = (i : ℕ) → i < n → m (a + i) ≡ m (b + i)

Agree-suc : (n a b : ℕ) (m : ℕ → ℕ) → m a ≡ m b → Agree n (a + 1) (b + 1) m → Agree (suc n) a b m
Agree-suc n a b m e h zero lt = ground arith
Agree-suc n a b m e h (suc i) lt = ground (arith, h i)

Agree-tail : (n a b : ℕ) (m : ℕ → ℕ) → Agree (suc n) a b m → (m a ≡ m b) × Agree n (a + 1) (b + 1) m
Agree-tail n a b m h = (ground (arith, h 0), λ i lt. ground (arith, h (suc i)))

module _ (lt_char : ℕ → ℕ → Bool) (irrefl : (x : ℕ) → lt_char x x ≡ false)
    (total : (x y : ℕ) → lt_char x y ≡ false → lt_char y x ≡ false → x ≡ y) where
  cmp_loop_sound : (n a b : ℕ) (m : ℕ → ℕ) → cmp_loop lt_char n a b m ≡ same → Agree n a b m
  unfolding cmp_loop
  cmp_loop_sound zero a b m e = λ i lt. absurd (omega arith)
  cmp_loop_sound (suc n) a b m e =
      let x : lt_char (m a) (m b) ≡ false = ground arith in
      let y : lt_char (m b) (m a) ≡ false = ground arith in
      Agree-suc n a b m (total (m a) (m b) x y) (cmp_loop_sound n (a + 1) (b + 1) m (ground arith))

  cmp_loop_complete : (n a b : ℕ) (m : ℕ → ℕ) → Agree n a b m → cmp_loop lt_char n a b m ≡ same
  unfolding cmp_loop
  cmp_loop_complete zero a b m h = refl
  cmp_loop_complete (suc n) a b m h =
      let t = Agree-tail n a b m h in
      rw (t.0, irrefl (m b)) (cmp_loop_complete n (a + 1) (b + 1) m t.1)

  -- Mem::cmp of two non-null pointers reports equality exactly when all bytes agree, for any order
  -- of characters that is irreflexive and total.
  pub cmp-same :
      (a b size : ℕ) (m : ℕ → ℕ)
      → a ≢ 0
      → b ≢ 0
      → (cmp lt_char a b size m ≡ same) ↔ Agree size a b m
  unfolding cmp
  cmp-same a b size m ha hb =
      rw (==_false a 0 ha, ==_false b 0 hb)
        (cmp_loop_sound size a b m, cmp_loop_complete size a b m)
