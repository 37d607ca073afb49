-- ===== src/Tests/WordRuns.antt =====
-- The division helpers of src/math.cpp.
use cxx_kernel.Base.{arith}
use cxx_kernel.Division.{udivmod}
use cxx_kernel.Division.Unsigned.{Divides, udivmod-Divides}

udivmod-Divides_example : Divides 1000 7 (udivmod 1000 7)
udivmod-Divides_example = udivmod-Divides 1000 7 (omega arith) (λ e. omega arith) (omega arith)
