-- ===== src/ClothesFs/Numbers.antt =====
-- Numbers written to a buffer are read back.
use cxx_kernel.Base.{
  ℕ, zero, suc, ◌+◌, ◌/◌, ◌%◌, ◌^◌, ◌≤◌, ◌<◌, ◌≡◌, refl, ◌⊎◌, inl, List, get_or, set, length,
  get_or-set, length-set, arith, ◌∙◌,
}
use cxx_kernel.ClothesFs.Bytes.{num_loop, data_to_num, data_loop, num_to_data}

length-data_loop :
    (cnt num : ℕ) (buf : List ℕ) (i n : ℕ) → length (data_loop cnt num buf i n) ≡ length buf
unfolding data_loop
length-data_loop zero num buf i n = refl
length-data_loop (suc cnt) num buf i n =
    length-data_loop cnt num (set buf i (num / 2 ^ n % 256)) (i + 1) (n + 8) ∙ length-set buf i _

pub length-num_to_data :
    (num : ℕ) (buf : List ℕ) (start cnt : ℕ) → length (num_to_data num buf start cnt) ≡ length buf
unfolding num_to_data
length-num_to_data num buf start cnt = length-data_loop cnt num buf start 0

-- The bytes outside the place of the number stay.
data_loop_outside :
    (cnt num : ℕ) (buf : List ℕ) (i n j : ℕ)
    → i + cnt ≤ length buf
    → (j < i) ⊎ (i + cnt ≤ j)
    → get_or (data_loop cnt num buf i n) j 0 ≡ get_or buf j 0
unfolding data_loop
data_loop_outside zero num buf i n j h o = refl
data_loop_outside (suc cnt) num buf i n j h o =
    let b = num / 2 ^ n % 256 in
    let l : length (set buf i b) ≡ length buf = length-set buf i b in
    let e : get_or (set buf i b) j 0 ≡ get_or buf j 0 = ground (arith, get_or-set buf i j b 0) in
    data_loop_outside cnt num (set buf i b) (i + 1) (n + 8) j (omega (arith, l)) (ground arith) ∙ e

pub num_to_data_outside :
    (num : ℕ) (buf : List ℕ) (start cnt j : ℕ)
    → start + cnt ≤ length buf
    → (j < start) ⊎ (start + cnt ≤ j)
    → get_or (num_to_data num buf start cnt) j 0 ≡ get_or buf j 0
unfolding num_to_data
num_to_data_outside num buf start cnt j h o = data_loop_outside cnt num buf start 0 j h o

-- The first byte written.
data_loop_first :
    (cnt num : ℕ) (buf : List ℕ) (i n : ℕ)
    → i + suc cnt ≤ length buf
    → get_or (data_loop (suc cnt) num buf i n) i 0 ≡ num / 2 ^ n % 256
unfolding data_loop
data_loop_first cnt num buf i n h =
    let b = num / 2 ^ n % 256 in
    let l : length (set buf i b) ≡ length buf = length-set buf i b in
    let e : get_or (set buf i b) i 0 ≡ b = ground (arith, get_or-set buf i i b 0) in
    data_loop_outside cnt num (set buf i b) (i + 1) (n + 8) i (omega (arith, l)) (inl (omega arith))
    ∙ e

module _ (num : ℕ) (buf : List ℕ) (s : ℕ) (h : s + 4 ≤ length buf) where
  -- The buffer after one, two and three bytes.
  one : List ℕ
  one = set buf s (num / 2 ^ 0 % 256)

  two : List ℕ
  two = set one (s + 1) (num / 2 ^ 8 % 256)

  three : List ℕ
  three = set two (s + 1 + 1) (num / 2 ^ 16 % 256)

  lengths : (length one ≡ length buf) × (length two ≡ length buf) × (length three ≡ length buf)
  unfolding one two three
  lengths =
      let a = length-set buf s (num / 2 ^ 0 % 256) in
      let b = length-set one (s + 1) (num / 2 ^ 8 % 256) in
      let c = length-set two (s + 1 + 1) (num / 2 ^ 16 % 256) in (a, b ∙ a, c ∙ (b ∙ a))

  four_bytes :
      let out = num_to_data num buf s 4 in
      (get_or out s 0 ≡ num / 2 ^ 0 % 256)
      × (get_or out (s + 1) 0 ≡ num / 2 ^ 8 % 256)
      × (get_or out (s + 1 + 1) 0 ≡ num / 2 ^ 16 % 256)
      × (get_or out (s + 1 + 1 + 1) 0 ≡ num / 2 ^ 24 % 256)
  unfolding num_to_data data_loop one two three
  four_bytes =
      let (a, b, c) = lengths in
      (
        data_loop_first 3 num buf s 0 (omega arith),
        data_loop_first 2 num one (s + 1) 8 (omega (arith, a)),
        data_loop_first 1 num two (s + 1 + 1) 16 (omega (arith, b)),
        data_loop_first 0 num three (s + 1 + 1 + 1) 24 (omega (arith, c)),
      )

-- A number below 2^32 written as four bytes inside a buffer is read back.
pub data_to_num-num_to_data :
    (num : ℕ) (buf : List ℕ) (start : ℕ)
    → num < 2 ^ 32
    → start + 4 ≤ length buf
    → data_to_num (num_to_data num buf start 4) start 4 ≡ num
unfolding data_to_num num_loop
data_to_num-num_to_data num buf start w h =
    let (a, b, c, d) = four_bytes num buf start h in rw (a, b, c, d) (omega arith)

-- Another number of four bytes is as it was.
pub data_to_num_outside :
    (num : ℕ) (buf : List ℕ) (start cnt at : ℕ)
    → start + cnt ≤ length buf
    → (at + 4 ≤ start) ⊎ (start + cnt ≤ at)
    → data_to_num (num_to_data num buf start cnt) at 4 ≡ data_to_num buf at 4
unfolding data_to_num num_loop
data_to_num_outside num buf start cnt at h o =
    let same = λ (j : ℕ) (k : (j < start) ⊎ (start + cnt ≤ j)).
      num_to_data_outside num buf start cnt j h k in
    rw
      (
        same at (ground arith),
        same (at + 1) (ground arith),
        same (at + 1 + 1) (ground arith),
        same (at + 1 + 1 + 1) (ground arith),
      )
      refl

-- A number of four bytes is below 2^32.
pub data_to_num_bound : (buf : List ℕ) (start : ℕ) → data_to_num buf start 4 < 2 ^ 32
unfolding data_to_num num_loop
data_to_num_bound buf start = omega arith
