-- ===== src/Video/Screen.antt =====
-- What is printed stays on the screen.
use mathlib.Core.Path.{subst}
use Prim.Native.Nat.{bit_or}
use cxx_kernel.Base.{
  ℕ, ◌+◌, ◌-◌, ◌%◌, ◌^◌, ◌<◌, ◌≤◌, ◌≡◌, refl, sym, ap, ◌∙◌, inl, inr, Bool, Bool-cases, List, [],
  ◌∷◌, length, arith, leb, ◌==◌, if◌then◌else◌,
}
use cxx_kernel.Video.{Video, color_mask, scroll, write_cell, new_line, wrap, draw, put_ch, print}
use cxx_kernel.Video.Lines.{
  IsOnScreen, StaysOn, height_small, tab-StaysOn, write_cell-StaysOn, at_column, backspace-StaysOn,
  IsKept-trans, scroll-StaysOn,
}

-- A line feed.
new_line-StaysOn : (v : Video) → IsOnScreen v → StaysOn v (new_line v)
unfolding new_line
new_line-StaysOn v h =
    let hs = height_small v h in
    let r = h.row in
    let v' = record v { y = (v.y + 1) % 2 ^ 32; x = 0; origin = 0 } in
    let a : IsOnScreen (record v' { y = 0 }) = record {
      there = h.there;
      wide = h.wide;
      high = h.high;
      small = h.small;
      column = omega arith;
      row = let b = h.high in omega (arith, b);
      start = h.wide;
    } in
    let (b, k) = (scroll-StaysOn v' a (omega (arith, hs, r))).0 in
    (b, record { same_width = k.same_width; same_height = k.same_height; beyond = k.beyond })

-- A character that is drawn.
draw-StaysOn : (c : ℕ) (v : Video) → IsOnScreen v → v.x < v.width → StaysOn v (draw c v)
unfolding draw
draw-StaysOn c v h l =
    let v' = write_cell (bit_or c color_mask) v in
    let (a, k) = write_cell-StaysOn (bit_or c color_mask) v h l in
    let w = record v' { x = v.x + 1 } in
    subst (StaysOn v) (ap (λ (b : Bool). if b then w else v) (sym h.there)) (
      at_column (v.x + 1) v' a (omega (arith, l)),
      record { same_width = k.same_width; same_height = k.same_height; beyond = k.beyond },
    )

-- A character drawn on the screen or just below it.
drawn :
    (c : ℕ) (v : Video)
    → IsOnScreen (record v { y = 0 })
    → v.y ≤ v.height
    → StaysOn v (draw c (scroll v))
drawn c v h r =
    let ((a, k), l) = scroll-StaysOn v h r in
    let (b, n) = draw-StaysOn c (scroll v) a l in
    (b, IsKept-trans v (scroll v) (draw c (scroll v)) k n)

at_top : (x : ℕ) (v : Video) → IsOnScreen v → x ≤ v.width → IsOnScreen (record v { x = x; y = 0 })
at_top x v h l = record {
  there = h.there;
  wide = h.wide;
  high = h.high;
  small = h.small;
  column = l;
  row = let b = h.high in omega (arith, b);
  start = h.start;
}

wrap-StaysOn : (c : ℕ) (v : Video) → IsOnScreen v → StaysOn v (draw c (scroll (wrap v)))
unfolding wrap
wrap-StaysOn c v h =
    let hs = height_small v h in
    let r = h.row in
    let l = h.column in
    let next = record v { x = v.x - v.width; y = (v.y + 1) % 2 ^ 32 } in
    let P = λ (w : Video). StaysOn v (draw c (scroll w)) in
    let branch = λ (b : Bool). if b then next else v in
    elim (Bool-cases (leb v.width v.x)) [
      | inl e ↦
          let (a, k) =
            drawn c next (at_top (v.x - v.width) v h (omega (arith, l))) (omega (arith, hs, r)) in
          subst P (ap branch (sym e)) (
            a,
            record { same_width = k.same_width; same_height = k.same_height; beyond = k.beyond },
          )
      | inr e ↦ subst P (ap branch (sym e)) (drawn c v (at_top v.x v h l) (omega (arith, r)))
    ]

-- putCh, of any character, leaves the cursor on the screen or just behind the end of a line of it, and
-- changes no cell beyond the screen.
pub put_ch-StaysOn : (c : ℕ) (v : Video) → IsOnScreen v → StaysOn v (put_ch c v)
unfolding put_ch
put_ch-StaysOn c v h = elim (Bool-cases (c == 10)) [
  | inl a ↦ rw a (new_line-StaysOn v h)
  | inr a ↦ elim (Bool-cases (c == 9)) [
    | inl b ↦ rw (a, b) (tab-StaysOn v h)
    | inr b ↦ elim (Bool-cases (c == 8)) [
      | inl d ↦ rw (a, b, d) (backspace-StaysOn v h)
      | inr d ↦ rw (a, b, d) (wrap-StaysOn c v h)
    ]
  ]
]

-- On a screen that is mapped, of one column and two lines or more and of less than 2^31 cells, let
-- the origin stand before the end of the line, and the cursor on the screen or just behind the end of
-- a line of it. Then print of any string prints all of its characters, leaves the cursor so, and
-- changes no cell beyond the screen.
pub print-StaysOn :
    (cs : List ℕ) (v : Video)
    → IsOnScreen v
    → ((print cs v).0 ≡ length cs) × StaysOn v (print cs v).1
unfolding print
print-StaysOn [] v h =
    (refl, (h, record { same_width = refl; same_height = refl; beyond = λ i k. refl }))
print-StaysOn (c ∷ cs) v h =
    let (a, k) = put_ch-StaysOn c v h in
    let (n, (b, m)) = print-StaysOn cs (put_ch c v) a in
    (
      ap (λ (x : ℕ). x + 1) n ∙ omega arith,
      (b, IsKept-trans v (put_ch c v) (print cs (put_ch c v)).1 k m),
    )
