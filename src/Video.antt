-- ===== src/Video.antt =====
-- The text mode of Video (inc/video.h, src/video.cpp), where no framebuffer is configured. A cell of
-- m_videomem is a 16-bit unit, and a char is given as the unsigned short that it becomes. The cursor
-- of the hardware is left out.
pub mod Lines
pub mod Screen
pub mod Decimal
use Prim.Native.Nat.{bit_or}
use cxx_kernel.Base.{
  ◌||◌, ℕ, zero, suc, ◌+◌, ◌-◌, ◌*◌, ◌/◌, ◌%◌, ◌^◌, Bool, true, false, ◌&&◌, not, List, [], ◌∷◌,
  ◌++◌, replicate, min, Outcome, done, no_fuel, ◌>>=◌, ltb, leb, ◌==◌, if◌then◌else◌, update,
}

-- `mapped` says that m_videomem is not nullptr.
pub record Video : Type 0 where
  pub mapped : Bool
  pub x : ℕ
  pub y : ℕ
  pub width : ℕ
  pub height : ℕ
  pub origin : ℕ
  pub cells : ℕ → ℕ

unfoldable pub new_video : Bool → (ℕ → ℕ) → Video
new_video mapped cells = record {
  mapped = mapped;
  x = 0;
  y = 0;
  width = 80;
  height = 25;
  origin = 0;
  cells = cells;
}

abbrev pub color_mask : ℕ
color_mask = 0x0700

abbrev pub tab_size : ℕ
tab_size = 8

unfoldable pub resize : ℕ → ℕ → Video → Video
resize width height v = record v { width = width; height = height }

unfoldable pub set_origin : Video → Video
set_origin v = record v { origin = v.x }

-- size()
abbrev pub screen_size : Video → ℕ
screen_size v = v.width * v.height % 2 ^ 32

unfoldable pub clear_screen : Video → Video
clear_screen v =
    let blank = record v {
      cells = λ i. if ltb i (screen_size v) then bit_or 32 color_mask else v.cells i;
      x = 0;
      y = 0;
    } in
    if v.mapped then blank else v

-- The cells after Mem::copy, whose source is an unsigned short pointer moved on by 2 * width(), and
-- Mem::setw.
unfoldable pub moved_up : Video → ℕ → ℕ
moved_up v i =
    let ss = (v.height + (2 ^ 32 - 1)) % 2 ^ 32 * v.width % 2 ^ 32 in
    if ltb i ss then v.cells (i + 2 * v.width) else if ltb i (ss + v.width) then 0 else v.cells i

unfoldable pub scroll_lines : Video → Video
scroll_lines v =
    if leb v.height v.y
    then record v { cells = moved_up v; y = (v.height + (2 ^ 32 - 2)) % 2 ^ 32 }
    else v

-- The end of scroll.
unfoldable pub keep_inside : Video → Video
keep_inside v = record v {
  x = (if leb v.width v.x then 0 else v.x);
  y = (if ltb v.height v.y then (v.height + (2 ^ 32 - 1)) % 2 ^ 32 else v.y);
}

unfoldable pub scroll : Video → Video
scroll v = if v.mapped then keep_inside (scroll_lines v) else v

abbrev pub offset : Video → ℕ
offset v = (v.y * v.width + v.x) % 2 ^ 32

abbrev pub write_cell : ℕ → Video → Video
write_cell c v = record v { cells = update v.cells (offset v) c }

unfoldable pub new_line : Video → Video
new_line v = scroll (record v { y = (v.y + 1) % 2 ^ 32; x = 0; origin = 0 })

unfoldable pub tab : Video → Video
tab v = record v {
  x = (if ltb (v.x + tab_size) v.width then v.x + tab_size else (v.width + (2 ^ 32 - 1)) % 2 ^ 32);
}

unfoldable pub backspace : Video → Video
backspace v =
    let v' = record v { x = (if ltb 0 v.x && ltb v.origin v.x then v.x - 1 else v.x) } in
    if v.mapped then write_cell 0 v' else v'

-- m_x >= width(): the next line.
unfoldable pub wrap : Video → Video
wrap v = if leb v.width v.x then record v { x = v.x - v.width; y = (v.y + 1) % 2 ^ 32 } else v

unfoldable pub draw : ℕ → Video → Video
draw c v =
    let v' = write_cell (bit_or c color_mask) v in if v.mapped then record v' { x = v.x + 1 } else v

unfoldable pub put_ch : ℕ → Video → Video
put_ch c v =
    if c == 10
    then new_line v
    else if c == 9
    then tab v
    else if c == 8
    then backspace v
    else draw c (scroll (wrap v))

-- handleChar, which moves to the next line twice on a line feed.
unfoldable pub handle_char : ℕ → Video → Video
handle_char c v =
    if c == 0
    then v
    else if c == 10
    then put_ch c (record v { x = 0; y = (v.y + 1) % 2 ^ 32 })
    else put_ch c v

-- print, of the chars before the 0; it returns their number.
unfoldable pub print : List ℕ → Video → ℕ × Video
print [] v = (0, v)
print (c ∷ cs) v = let (n, v') = print cs (put_ch c v) in (n + 1, v')

-- print_prenull: zeros up to the width of the format, at most 255 of them.
unfoldable pub prenull : ℕ → ℕ → List ℕ
prenull cnt fmtcnt = if ltb cnt fmtcnt then replicate (min (fmtcnt - cnt) 255) 48 else []

-- The first loop of print_ull counts the digits.
unfoldable pub count_digits : ℕ → ℕ → ℕ → Outcome ℕ
count_digits zero radix tmp = no_fuel
count_digits (suc f) radix tmp =
    let rest = count_digits f radix (tmp / radix) in
    if ltb 0 tmp then rest >>= (λ l. done (l + 1)) else done 0

-- A digit as the byte of s[l], for a radix of at most 208, where none is the 0 at the end of the
-- string. `char t = val % radix` keeps 8 bits, with a sign.
unfoldable pub digit : ℕ → ℕ
digit val = let t = val % 256 in if ltb t 10 || leb 128 t then (48 + t) % 256 else 65 + (t - 10)

-- The second loop writes `l` digits from the last to the first, in front of `s`.
unfoldable pub write_digits : ℕ → ℕ → ℕ → List ℕ → List ℕ
write_digits zero radix val s = s
write_digits (suc l) radix val s = write_digits l radix (val / radix) (digit (val % radix) ∷ s)

-- print_ull, as the characters that it prints.
unfoldable pub ull_text : ℕ → ℕ → ℕ → ℕ → Outcome (List ℕ)
ull_text fuel val radix fmtcnt =
    if val == 0
    then done (prenull 1 fmtcnt ++ 48 ∷ [])
    else count_digits fuel radix val
      >>= (λ l. done (prenull l fmtcnt ++ write_digits l radix val []))

unfoldable pub print_ull : ℕ → ℕ → ℕ → ℕ → Video → Outcome (ℕ × Video)
print_ull fuel val radix fmtcnt v = ull_text fuel val radix fmtcnt >>= (λ s. done (print s v))
