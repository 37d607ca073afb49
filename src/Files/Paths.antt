-- ===== src/Files/Paths.antt =====
-- pathPart picks the component behind a number of slashes.
use mathlib.Core.List.{append-nil, append_assoc}
use cxx_kernel.Base.{
  ℕ, ◌+◌, ◌<◌, ◌≡◌, refl, ◌⊎◌, inl, inr, true, false, [], ◌∷◌, ◌++◌, ◌==◌, arith, ==_iff, ap, ◌∙◌,
  count, length, ltb,
}
use cxx_kernel.Files.{slash, path_parts, path_part_loop, path_part}
use cxx_kernel.Text.{Text}

-- pathParts counts the slashes.
pub path_parts-count : (path : Text) → path_parts path ≡ count slash path
unfolding path_parts
path_parts-count [] = refl
path_parts-count (c ∷ path) = ground (arith, path_parts-count path)

-- Nothing or another component follows.
abbrev pub Ends : Text → Type 0
Ends tail = (tail ≡ []) ⊎ ((more : Text) × (tail ≡ slash ∷ more))

loop_taken :
    (n : ℕ) (w res tail : Text)
    → count slash w ≡ 0
    → path_part_loop n n res (w ++ tail) ≡ path_part_loop n n (res ++ w) tail
unfolding path_part_loop
loop_taken n [] res tail h = rw (append-nil res)
loop_taken n (c ∷ w) res tail h =
    let t : (c == slash) ≡ false = ground arith in
    rw (t, (==_iff n n).1 refl)
      (loop_taken n w (res ++ c ∷ []) tail (ground arith)
        ∙ ap (λ (m : Text). path_part_loop n n m tail) (append_assoc res (c ∷ []) w))

loop-Ends :
    (n : ℕ) (res tail : Text) → 0 < length res → Ends tail → path_part_loop n n res tail ≡ res
unfolding path_part_loop
loop-Ends n res tail h (inl e) = rw (e, path_part_loop)
loop-Ends n res tail h (inr (more, e)) =
    let t : ltb 0 (length res) ≡ true = ground arith in rw (e, path_part_loop, t)

loop_passed :
    (cnt n : ℕ) (pre rest : Text)
    → cnt + count slash pre + 1 ≡ n
    → path_part_loop cnt n [] (pre ++ slash ∷ rest) ≡ path_part_loop n n [] rest
unfolding path_part_loop
loop_passed cnt n [] rest h =
    let e : cnt + 1 ≡ n = omega arith in ap (λ (c : ℕ). path_part_loop c n [] rest) e
loop_passed cnt n (c ∷ pre) rest h =
    ground (arith, loop_passed (cnt + 1) n pre rest, loop_passed cnt n pre rest)

loop_component :
    (n : ℕ) (w tail : Text)
    → 0 < length w
    → count slash w ≡ 0
    → Ends tail
    → path_part_loop n n [] (w ++ tail) ≡ w
loop_component n w tail h k e = loop_taken n w [] tail k ∙ loop-Ends n w tail h e

-- pathPart at index 0 is the text before the first slash, where that is not empty; at any other
-- index it is the component behind as many slashes, where that is not empty.
pub path_part-component :
    (pre w tail : Text)
    → 0 < length w
    → count slash w ≡ 0
    → Ends tail
    → (path_part (w ++ tail) 0 ≡ w)
      × (path_part (pre ++ slash ∷ (w ++ tail)) (count slash pre + 1) ≡ w)
unfolding path_part
path_part-component pre w tail h k e = (
  loop_component 0 w tail h k e,
  loop_passed 0 (count slash pre + 1) pre (w ++ tail) (omega arith)
      ∙ loop_component (count slash pre + 1) w tail h k e,
)
