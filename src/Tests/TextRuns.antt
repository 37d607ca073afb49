-- ===== src/Tests/TextRuns.antt =====
-- Mem of src/string.cpp on a few bytes.
use cxx_kernel.Base.{ℕ, ◌≡◌, arith}
use cxx_kernel.Memory.{move}
use cxx_kernel.Memory.Move.{move-copied, copied}

-- The byte at an address is its number.
abbrev counting : ℕ → ℕ
counting a = a

move-copied_example :
    ((move 12 10 5 counting).0 ≡ 12)
    × ((a : ℕ) → (move 12 10 5 counting).1 a ≡ copied 5 12 10 counting a)
move-copied_example = move-copied 12 10 5 counting (λ e. omega arith) (λ e. omega arith)
