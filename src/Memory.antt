-- ===== src/Memory.antt =====
-- The class Mem (inc/string.hh, src/string.cpp): copying, filling and comparing bytes. Memory is a
-- map from addresses to bytes, 0 is nullptr, and each loop takes its bytes one at a time in the
-- order of the source. Pointers do not wrap around the address space.
pub mod Move
use cxx_kernel.Base.{
  ℕ, zero, suc, ◌+◌, ◌%◌, ◌/◌, ◌*◌, ◌^◌, Bool, true, false, ◌||◌, ◌&&◌, not, List, [], ◌∷◌, ltb,
  ◌==◌, if◌then◌else◌, update,
}

-- for (i = 0; i < size; i++) *d++ = *s++;
unfoldable pub copy_up : ℕ → ℕ → ℕ → (ℕ → ℕ) → ℕ → ℕ
copy_up zero d s m = m
copy_up (suc n) d s m = copy_up n (d + 1) (s + 1) (update m d (m s))

-- From the last byte down: with `n` bytes left, the byte at offset `n - 1` is next.
unfoldable pub copy_down : ℕ → ℕ → ℕ → (ℕ → ℕ) → ℕ → ℕ
copy_down zero d s m = m
copy_down (suc n) d s m = copy_down n d s (update m (d + n) (m (s + n)))

unfoldable pub copy : ℕ → ℕ → ℕ → (ℕ → ℕ) → ℕ × (ℕ → ℕ)
copy dest src size m =
    if dest == src
    then (dest, m)
    else if dest == 0
    then (0, m)
    else if src == 0
    then (0, m)
    else (dest, copy_up size dest src m)

unfoldable pub move : ℕ → ℕ → ℕ → (ℕ → ℕ) → ℕ × (ℕ → ℕ)
move dest src size m =
    if dest == 0 || src == 0
    then (0, m)
    else if dest == src
    then (dest, m)
    else if ltb src dest
    then (dest, copy_down size dest src m)
    else copy dest src size m

unfoldable pub fill : ℕ → ℕ → ℕ → (ℕ → ℕ) → ℕ → ℕ
fill zero d c m = m
fill (suc n) d c m = fill n (d + 1) c (update m d c)

-- Mem::set; `c` is an unsigned char.
unfoldable pub set_bytes : ℕ → ℕ → ℕ → (ℕ → ℕ) → ℕ × (ℕ → ℕ)
set_bytes s c size m = (s, fill size s (c % 2 ^ 8) m)

-- The result of Mem::cmp.
pub data Sign : Type 0 where
  minus same plus : Sign

-- `lt_char` is `<` on the target's char, which is signed on some targets and unsigned on others.
unfoldable pub cmp_loop : (ℕ → ℕ → Bool) → ℕ → ℕ → ℕ → (ℕ → ℕ) → Sign
cmp_loop lt_char zero a b m = same
cmp_loop lt_char (suc n) a b m =
    let rest = cmp_loop lt_char n (a + 1) (b + 1) m in
    if lt_char (m a) (m b) then minus else if lt_char (m b) (m a) then plus else rest

unfoldable pub cmp : (ℕ → ℕ → Bool) → ℕ → ℕ → ℕ → (ℕ → ℕ) → Sign
cmp lt_char s1 s2 size m =
    if (s1 == 0 && s2 == 0) || (s1 == 0 && not (s2 == 0))
    then minus
    else if not (s1 == 0) && s2 == 0
    then plus
    else cmp_loop lt_char size s1 s2 m
