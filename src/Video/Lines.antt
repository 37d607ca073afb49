-- ===== src/Video/Lines.antt =====
-- The screen, its cursor, and what scroll does with them.
use mathlib.Core.Path.{subst}
use cxx_kernel.Base.{
  ℕ, zero, suc, ◌+◌, ◌-◌, ◌*◌, ◌%◌, ◌^◌, ◌<◌, ◌≤◌, ◌≡◌, refl, sym, ap, ◌∙◌, inl, inr, Bool, true,
  ◌&&◌, Bool-cases, arith, ltb, leb, if◌then◌else◌, update_other,
}
use cxx_kernel.Video.{
  Video, moved_up, scroll_lines, keep_inside, scroll, offset, write_cell, tab, backspace,
}

-- A screen of two lines or more, whose cursor is on it or just behind the end of its line.
pub record IsOnScreen (v : Video) : Type 0 where
  pub there : v.mapped ≡ true
  pub wide : 0 < v.width
  pub high : 1 < v.height
  pub small : v.width * v.height < 2 ^ 31
  pub column : v.x ≤ v.width
  pub row : v.y < v.height
  pub start : v.origin < v.width

-- The same screen, and no cell beyond it changed.
pub record IsKept (v w : Video) : Type 0 where
  pub same_width : w.width ≡ v.width
  pub same_height : w.height ≡ v.height
  pub beyond : (i : ℕ) → v.width * v.height ≤ i → w.cells i ≡ v.cells i

abbrev pub StaysOn : Video → Video → Type 0
StaysOn v w = IsOnScreen w × IsKept v w

module _ (v : Video) (h : IsOnScreen v) where
  pub height_small : v.height < 2 ^ 31
  height_small = let a = h.small in let b = h.wide in grind arith

  width_small : v.width < 2 ^ 31
  width_small = let a = h.small in let b = h.high in grind arith

  pub tab-StaysOn : StaysOn v (tab v)
  unfolding tab
  tab-StaysOn =
      let a = h.wide in
      let w = width_small in
      (
        record {
          there = h.there;
          wide = h.wide;
          high = h.high;
          small = h.small;
          column = ground arith;
          row = h.row;
          start = h.start;
        },
        record { same_width = refl; same_height = refl; beyond = λ i k. refl },
      )

-- A write at the cursor, where it is left of the end of the line.
pub write_cell-StaysOn :
    (c : ℕ) (v : Video) → IsOnScreen v → v.x < v.width → StaysOn v (write_cell c v)
write_cell-StaysOn c v h l =
    let a = h.small in
    let r = h.row in
    let b : v.y * v.width + v.x < v.width * v.height = grind arith in
    (
      record {
        there = h.there;
        wide = h.wide;
        high = h.high;
        small = h.small;
        column = h.column;
        row = h.row;
        start = h.start;
      },
      record {
        same_width = refl;
        same_height = refl;
        beyond = λ i k. update_other v.cells (offset v) c i (λ e. omega (arith, a, b, k, e));
      },
    )

-- The cursor in another column.
pub at_column : (x : ℕ) (v : Video) → IsOnScreen v → x ≤ v.width → IsOnScreen (record v { x = x })
at_column x v h l = record {
  there = h.there;
  wide = h.wide;
  high = h.high;
  small = h.small;
  column = l;
  row = h.row;
  start = h.start;
}

pub backspace-StaysOn : (v : Video) → IsOnScreen v → StaysOn v (backspace v)
unfolding backspace
backspace-StaysOn v h =
    let x = if ltb 0 v.x && ltb v.origin v.x then v.x - 1 else v.x in
    let c = h.column in
    let o = h.start in
    let l : x < v.width = ground arith in
    let v' = record v { x = x } in
    let (a, k) = write_cell-StaysOn 0 v' (at_column x v h (omega (arith, l))) l in
    let kept : IsKept v (write_cell 0 v') = record {
      same_width = refl;
      same_height = refl;
      beyond = k.beyond;
    } in
    subst (StaysOn v) (ap (λ (b : Bool). if b then write_cell 0 v' else v') (sym h.there)) (a, kept)

rows : (n w : ℕ) → 1 < n → (n - 1) * w + w ≡ w * n
rows zero w h = absurd (omega arith)
rows (suc n) w h = let e : suc n - 1 ≡ n = omega arith in ap (λ (k : ℕ). k * w + w) e ∙ grind arith

pub IsKept-trans : (u v w : Video) → IsKept u v → IsKept v w → IsKept u w
IsKept-trans u v w a b =
    let size : v.width * v.height ≡ u.width * u.height =
      ap (λ (n : ℕ). n * v.height) a.same_width ∙ ap (λ (n : ℕ). u.width * n) a.same_height in
    record {
      same_width = b.same_width ∙ a.same_width;
      same_height = b.same_height ∙ a.same_height;
      beyond = λ i k. b.beyond i (omega (arith, size, k)) ∙ a.beyond i k;
    }

keep_inside-StaysOn :
    (v : Video) → IsOnScreen v → StaysOn v (keep_inside v) × ((keep_inside v).x < v.width)
unfolding keep_inside
keep_inside-StaysOn v h =
    let a = h.wide in
    let b = h.row in
    let c = h.column in
    let l : (if leb v.width v.x then 0 else v.x) < v.width = ground arith in
    (
      (
        record {
          there = h.there;
          wide = h.wide;
          high = h.high;
          small = h.small;
          column = omega (arith, l);
          row = ground arith;
          start = h.start;
        },
        record { same_width = refl; same_height = refl; beyond = λ i k. refl },
      ),
      l,
    )

module _ (v : Video) (h : IsOnScreen (record v { y = 0 })) (r : v.y ≤ v.height) where
  moved_up_beyond : (i : ℕ) → v.width * v.height ≤ i → moved_up v i ≡ v.cells i
  unfolding moved_up
  moved_up_beyond i k =
      let a = h.small in
      let b = h.high in
      let ss = (v.height + (2 ^ 32 - 1)) % 2 ^ 32 * v.width % 2 ^ 32 in
      let e : ss + v.width ≡ v.width * v.height =
        let hs = height_small (record v { y = 0 }) h in
        let d : (v.height + (2 ^ 32 - 1)) % 2 ^ 32 ≡ v.height - 1 = omega (arith, hs, b) in
        let p : (v.height - 1) * v.width + v.width ≡ v.width * v.height = rows v.height v.width b in
        ap (λ (n : ℕ). n * v.width % 2 ^ 32 + v.width) d ∙ omega (arith, p, a) in
      ground (arith, e, k)

  lines_StaysOn : StaysOn v (scroll_lines v)
  unfolding scroll_lines
  lines_StaysOn =
      let up = record v { cells = moved_up v; y = (v.height + (2 ^ 32 - 2)) % 2 ^ 32 } in
      let branch = λ (b : Bool). if b then up else v in
      let hs = height_small (record v { y = 0 }) h in
      let b = h.high in
      elim (Bool-cases (leb v.height v.y)) [
        | inl e ↦ subst (StaysOn v) (ap branch (sym e)) (
          record {
            there = h.there;
            wide = h.wide;
            high = h.high;
            small = h.small;
            column = h.column;
            row = omega (arith, hs, b);
            start = h.start;
          },
          record { same_width = refl; same_height = refl; beyond = moved_up_beyond },
        )
        | inr e ↦ subst (StaysOn v) (ap branch (sym e)) (
          record {
            there = h.there;
            wide = h.wide;
            high = h.high;
            small = h.small;
            column = h.column;
            row = ground arith;
            start = h.start;
          },
          record { same_width = refl; same_height = refl; beyond = λ i k. refl },
        )
      ]

  -- scroll, with the cursor on the screen or just below it.
  pub scroll-StaysOn : StaysOn v (scroll v) × ((scroll v).x < (scroll v).width)
  unfolding scroll
  scroll-StaysOn =
      let (a, k) = lines_StaysOn in
      let ((b, n), l) = keep_inside-StaysOn (scroll_lines v) a in
      let w = keep_inside (scroll_lines v) in
      let all = IsKept-trans v (scroll_lines v) w k n in
      subst (λ (u : Video). StaysOn v u × (u.x < u.width))
        (ap (λ (b : Bool). if b then w else v) (sym h.there))
        ((b, all), omega (arith, l, n.same_width))
