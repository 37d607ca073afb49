-- ===== src/Text.antt =====
-- The class String (inc/string.hh, src/string.cpp). A String is its m_length characters; the
-- buffer with its closing 0 byte is not modelled, and neither is the buffer that operator= leaks.
-- The null buffer of an empty String and an empty buffer are the same list.
pub mod Laws
use cxx_kernel.Base.{
  ℕ, zero, suc, ◌+◌, ◌-◌, Bool, true, false, List, [], ◌∷◌, ◌++◌, ltb, leb, ◌==◌, if◌then◌else◌,
  length, get_or,
}

-- A String of characters.
abbrev pub Text : Type 0
Text = List ℕ

-- String::length of a C string: the characters before the first 0, in a buffer of `n` bytes.
unfoldable pub c_length : ℕ → (ℕ → ℕ) → ℕ → ℕ
c_length zero m p = 0
c_length (suc n) m p = let rest = c_length n m (p + 1) in if m p == 0 then 0 else suc rest

-- at: the character, or m_null beyond the end.
unfoldable pub at : Text → ℕ → ℕ
at s pos = if leb (length s) pos then 0 else get_or s pos 0

unfoldable pub append : Text → Text → Text
append s t = s ++ t

-- operator+= with one character.
unfoldable pub append_char : Text → ℕ → Text
append_char s c = s ++ c ∷ []

-- for (i = k; i < k + n; ++i) if (s[i] != t[i]) return false;
unfoldable pub equal_from : ℕ → ℕ → Text → Text → Bool
equal_from zero i s t = true
equal_from (suc n) i s t =
    let rest = equal_from n (i + 1) s t in if get_or s i 0 == get_or t i 0 then rest else false

-- operator==
unfoldable pub equal : Text → Text → Bool
equal s other = if length other == length s then equal_from (length s) 0 s other else false

unfoldable pub starts_with : Text → Text → Bool
starts_with s other =
    if ltb (length s) (length other) then false else equal_from (length other) 0 s other

-- for (i = index; i < m_length; ++i) res += m_str[i]; with `n = m_length - i` rounds left.
unfoldable pub right_loop : ℕ → ℕ → Text → Text → Text
unfolding append_char
right_loop zero i s res = res
right_loop (suc n) i s res = right_loop n (i + 1) s (append_char res (get_or s i 0))

unfoldable pub right : Text → ℕ → Text
right s index = right_loop (length s - index) index s []

-- The loop of left increments `index`, and never `cnt`.
unfoldable pub left_loop : ℕ → ℕ → ℕ → ℕ → Text → Text → Text
unfolding append_char
left_loop zero i cnt index s res = res
left_loop (suc n) i cnt index s res =
    let res' = append_char res (get_or s i 0) in
    let rest = left_loop n (i + 1) cnt (index + 1) s res' in if leb index cnt then res' else rest

unfoldable pub left : Text → ℕ → Text
left s index = left_loop (length s) 0 0 index s []
