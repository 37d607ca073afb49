-- ===== src/Bits.antt =====
-- Bits, a set of numbers as bits of 32-bit words (inc/bits.h, src/bits.cpp). `words` is the array
-- `bits`, of m_len words.
pub mod Words
pub mod Members
pub mod Finds
use cxx_kernel.Base.{
  ℕ, zero, suc, ◌+◌, ◌-◌, ◌*◌, ◌/◌, ◌%◌, ◌^◌, Bool, true, false, ◌&&◌, not, Option, some, none,
  Outcome, done, no_fuel, ltb, leb, ◌==◌, if◌then◌else◌, update,
}

-- w & (1 << m), as 0 or 1.
unfoldable pub bit : ℕ → ℕ → ℕ
bit w zero = w % 2
bit w (suc m) = bit (w / 2) m

-- w | (1 << m)
unfoldable pub set_bit : ℕ → ℕ → ℕ
set_bit w zero = w / 2 * 2 + 1
set_bit w (suc m) = set_bit (w / 2) m * 2 + w % 2

-- w & ~(1 << m)
unfoldable pub clear_bit : ℕ → ℕ → ℕ
clear_bit w zero = w / 2 * 2
clear_bit w (suc m) = clear_bit (w / 2) m * 2 + w % 2

pub record Bits : Type 0 where
  pub words : ℕ → ℕ
  pub len : ℕ
  pub cnt : ℕ
  pub last : ℕ

unfoldable pub clear_all : Bits → Bits
clear_all b = record b { words = λ i. if ltb i b.len then 0 else b.words i }

-- The constructor, on an array as it was.
unfoldable pub new_bits : ℕ → (ℕ → ℕ) → Bits
new_bits cnt words = clear_all (record {
  words = words;
  len = cnt / 32 + (if cnt % 32 == 0 then 0 else 1);
  cnt = cnt;
  last = 0;
})

unfoldable pub set_member : ℕ → Bits → Bool × Bits
set_member i b =
    if leb b.cnt i
    then (false, b)
    else (true, record b { words = update b.words (i / 32) (set_bit (b.words (i / 32)) (i % 32)) })

unfoldable pub clear_member : ℕ → Bits → Bool × Bits
clear_member i b = if leb b.cnt i then (false, b) else (
  true,
  record b { words = update b.words (i / 32) (clear_bit (b.words (i / 32)) (i % 32)); last = 0 },
)

unfoldable pub is_set : ℕ → Bits → Bool
is_set i b = if leb b.cnt i then false else not (bit (b.words (i / 32)) (i % 32) == 0)

-- The inner loop of findUnset, with `n` rounds to go.
unfoldable pub find_bit : ℕ → ℕ → ℕ → Option ℕ
find_bit zero j w = none
find_bit (suc n) j w = let rest = find_bit n (j + 1) w in if bit w j == 0 then some j else rest

-- What the outer loop does with a word: ~bits[i] != 0.
unfoldable pub find_in : ℕ → Option ℕ
find_in w = if w == 2 ^ 32 - 1 then none else find_bit 31 0 w

-- The outer loop, whose last test is never true; none is the result with ok false.
unfoldable pub find_loop : ℕ → ℕ → ℕ → Bits → Outcome (Option ℕ × Bits)
find_loop zero i cc b = no_fuel
find_loop (suc f) i cc b =
    let rest = find_loop f (i + 1) cc b in
    let again = find_loop f 1 (cc + 1) (record b { last = 0 }) in
    if ltb i b.len
    then elim (find_in (b.words i)) [
      | some j ↦ done (some ((i * 32 + j) % 2 ^ 32), record b { last = i })
      | none ↦
          if ltb 0 cc then done (none, b) else if ltb 0 b.last && leb b.len i then again else rest
    ]
    else done (none, b)

unfoldable pub find_unset : ℕ → Bits → Outcome (Option ℕ × Bits)
find_unset fuel b = find_loop fuel b.last 0 b

unfoldable pub copy_from : (ℕ → ℕ) → Bits → Bits
copy_from src b = record b { words = λ i. if ltb i b.len then src i else b.words i }
