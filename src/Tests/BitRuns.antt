-- ===== src/Tests/BitRuns.antt =====
-- A set of 40 numbers in Bits.
use cxx_kernel.Base.{arith, Ensures}
use cxx_kernel.Bits.{Bits, find_unset}
use cxx_kernel.Bits.Finds.{IsFound, find_unset-IsFound}

abbrev forty : Bits
forty = record { words = λ i. 5; len = 2; cnt = 40; last = 1 }

find_unset-IsFound_example : Ensures (find_unset 2 forty) (IsFound 1 forty)
find_unset-IsFound_example = find_unset-IsFound 2 forty (omega arith) (omega arith)
