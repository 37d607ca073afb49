-- ===== src/Ustar/Header.antt =====
-- The octal numbers in a tar header.
use cxx_kernel.Base.{
  ℕ, zero, suc, ◌+◌, ◌-◌, ◌*◌, ◌/◌, ◌%◌, ◌^◌, ◌<◌, ◌≡◌, refl, List, [], ◌∷◌, ◌++◌, length,
  length-append, take, arith, ap, ◌∙◌,
}
use cxx_kernel.Ustar.{parse_digits, parse_oct}

-- `n` in `k` octal digits.
abbrev pub print_oct : ℕ → ℕ → List ℕ
print_oct zero n = []
print_oct (suc k) n = print_oct k (n / 8) ++ (b'0' + n % 8) ∷ []

parse_digits_step :
    (d : ℕ) (rest : List ℕ) (res : ℕ)
    → d < 8
    → res * 8 + d < 2 ^ 64
    → parse_digits ((b'0' + d) ∷ rest) res ≡ parse_digits rest (res * 8 + d)
unfolding parse_digits
parse_digits_step d rest res h w =
    let e : (res * 8 + (b'0' + d - 48)) % 2 ^ 64 ≡ res * 8 + d = omega arith in ground (arith, e)

append_assoc : (xs : List ℕ) (c : ℕ) (rest : List ℕ) → (xs ++ c ∷ []) ++ rest ≡ xs ++ c ∷ rest
append_assoc [] c rest = refl
append_assoc (x ∷ xs) c rest = ap (λ (ys : List ℕ). x ∷ ys) (append_assoc xs c rest)

parse_digits-print_oct :
    (k n : ℕ) (rest : List ℕ)
    → n < 8 ^ k
    → n < 2 ^ 64
    → parse_digits (print_oct k n ++ rest) 0 ≡ parse_digits rest n
parse_digits-print_oct zero n rest h w = ap (parse_digits rest) (omega arith)
parse_digits-print_oct (suc k) n rest h w =
    ap (λ (xs : List ℕ). parse_digits xs 0) (append_assoc (print_oct k (n / 8)) (b'0' + n % 8) rest)
    ∙ parse_digits-print_oct k (n / 8) _ (omega arith) (omega arith)
    ∙ parse_digits_step (n % 8) rest (n / 8) (omega arith) (omega arith)
    ∙ ap (parse_digits rest) (omega arith)

length-print_oct : (k n : ℕ) → length (print_oct k n) ≡ k
length-print_oct zero n = refl
length-print_oct (suc k) n =
    omega
      (arith, length-append (print_oct k (n / 8)) ((b'0' + n % 8) ∷ []), length-print_oct k (n / 8))

take_prefix :
    (k : ℕ) (xs : List ℕ) (c : ℕ) (rest : List ℕ)
    → length xs ≡ k
    → take (k + 1) (xs ++ c ∷ rest) ≡ xs ++ c ∷ []
take_prefix zero [] c rest h = refl
take_prefix zero (x ∷ xs) c rest h = absurd (omega arith)
take_prefix (suc k) [] c rest h = absurd (omega arith)
take_prefix (suc k) (x ∷ xs) c rest h =
    let e : suc k + 1 ≡ suc (k + 1) = omega arith in
    ap (λ (n : ℕ). take n (x ∷ (xs ++ c ∷ rest))) e
    ∙ ap (λ (ys : List ℕ). x ∷ ys) (take_prefix k xs c rest (omega arith))

parse_digits_end : (n : ℕ) → parse_digits (0 ∷ []) n ≡ n
unfolding parse_digits
parse_digits_end n = refl

-- A size field of octal digits, printed with a closing 0 byte, is read back, whatever follows it.
pub parse_oct-print_oct :
    (k n : ℕ) (rest : List ℕ)
    → n < 8 ^ k
    → n < 2 ^ 64
    → parse_oct (print_oct k n ++ 0 ∷ rest) (k + 1) ≡ n
unfolding parse_oct
parse_oct-print_oct k n rest h w =
    ap (λ (xs : List ℕ). parse_digits xs 0)
      (take_prefix k (print_oct k n) 0 rest (length-print_oct k n))
    ∙ parse_digits-print_oct k n (0 ∷ []) h w
    ∙ parse_digits_end n
