-- ===== src/Division.antt =====
-- The division helpers (inc/osmath.h, src/math.cpp). A uint64_t is a number below 2^64 and an
-- int64_t its bit pattern; a division by zero, which the source makes on purpose, is a fault.
pub mod Unsigned
pub mod Repeated
use cxx_kernel.Base.{
  ℕ, zero, suc, ◌+◌, ◌-◌, ◌*◌, ◌/◌, ◌%◌, ◌^◌, Bool, true, false, Outcome, done, fault, no_fuel, leb,
  ltb, ◌==◌, if◌then◌else◌, ◌>>=◌, not, xor,
}

abbrev pub word : ℕ
word = 2 ^ 64

-- while ((int64_t)den >= 0) { den <<= 1; qbit <<= 1; }
unfoldable pub justify : ℕ → ℕ → ℕ → Outcome (ℕ × ℕ)
justify zero den qbit = no_fuel
justify (suc f) den qbit =
    let rest = justify f (den * 2 % word) (qbit * 2 % word) in
    if ltb den (2 ^ 63) then rest else done (den, qbit)

-- while (qbit) { if (den <= num) { num -= den; quot += qbit; } den >>= 1; qbit >>= 1; }
unfoldable pub subtract : ℕ → ℕ → ℕ → ℕ → ℕ → Outcome (ℕ × ℕ)
subtract zero num den qbit quot = no_fuel
subtract (suc f) num den qbit quot =
    let taken = subtract f (num - den) (den / 2) (qbit / 2) ((quot + qbit) % word) in
    let passed = subtract f num (den / 2) (qbit / 2) quot in
    if qbit == 0 then done (quot, num) else if leb den num then taken else passed

-- my__udivmoddi4: the quotient and the remainder.
unfoldable pub udivmod : ℕ → ℕ → Outcome (ℕ × ℕ)
udivmod num den = if den == 0 then fault else justify 65 den 1 >>= (λ r. subtract 66 num r.0 r.1 0)

unfoldable pub udiv : ℕ → ℕ → Outcome ℕ
udiv num den = udivmod num den >>= (λ r. done r.0)

unfoldable pub umod : ℕ → ℕ → Outcome ℕ
umod num den = udivmod num den >>= (λ r. done r.1)

-- -x on a bit pattern.
abbrev pub negate : ℕ → ℕ
negate x = (word - x) % word

abbrev pub is_negative : ℕ → Bool
is_negative x = leb (2 ^ 63) x

abbrev pub magnitude : ℕ → ℕ
magnitude x = if is_negative x then negate x else x

-- my__divdi3
unfoldable pub sdiv : ℕ → ℕ → Outcome ℕ
sdiv num den =
    let minus = xor (is_negative num) (is_negative den) in
    udivmod (magnitude num) (magnitude den) >>= (λ r. done (if minus then negate r.0 else r.0))

-- my__moddi3, which flips the sign by both operands too.
unfoldable pub smod : ℕ → ℕ → Outcome ℕ
smod num den =
    let minus = xor (is_negative num) (is_negative den) in
    udivmod (magnitude num) (magnitude den) >>= (λ r. done (if minus then negate r.1 else r.1))

-- __aeabi_uidiv: for (x = den; x <= num; x += den) c++; over 32-bit words.
unfoldable pub uidiv_loop : ℕ → ℕ → ℕ → ℕ → ℕ → Outcome ℕ
uidiv_loop zero num den x c = no_fuel
uidiv_loop (suc f) num den x c =
    let rest = uidiv_loop f num den ((x + den) % 2 ^ 32) ((c + 1) % 2 ^ 32) in
    if leb x num then rest else done c

unfoldable pub uidiv : ℕ → ℕ → ℕ → Outcome ℕ
uidiv fuel num den = uidiv_loop fuel num den den 0

-- __aeabi_uidivmod: the same loop with x < num.
unfoldable pub uidivmod_loop : ℕ → ℕ → ℕ → ℕ → ℕ → Outcome ℕ
uidivmod_loop zero num den x c = no_fuel
uidivmod_loop (suc f) num den x c =
    let rest = uidivmod_loop f num den ((x + den) % 2 ^ 32) ((c + 1) % 2 ^ 32) in
    if ltb x num then rest else done ((num + 2 ^ 32 - c * den % 2 ^ 32) % 2 ^ 32)

unfoldable pub uidivmod : ℕ → ℕ → ℕ → Outcome ℕ
uidivmod fuel num den = uidivmod_loop fuel num den den 0
