-- ===== src/Tests/ScreenRuns.antt =====
-- The text screen of src/video.cpp, and a number printed on it.
use cxx_kernel.Base.{ℕ, some, false, inr, ◌≡◌, refl, true, [], ◌∷◌, arith, Ensures}
use cxx_kernel.Video.{Video, print, ull_text}
use cxx_kernel.Framebuffer.{ModeConfig, Framebuffer, put_pixel}
use cxx_kernel.Framebuffer.Pixels.{put_pixel-outside}
use cxx_kernel.Video.Lines.{IsOnScreen, StaysOn}
use cxx_kernel.Video.Screen.{print-StaysOn}
use cxx_kernel.Video.Decimal.{read_from, ull_text-value}

-- The cursor behind the end of the last line.
abbrev full_line : Video
full_line = record {
  mapped = true;
  x = 80;
  y = 24;
  width = 80;
  height = 25;
  origin = 0;
  cells = λ i. 0;
}

full_line-IsOnScreen : IsOnScreen full_line
full_line-IsOnScreen = record {
  there = refl;
  wide = omega arith;
  high = omega arith;
  small = omega arith;
  column = omega arith;
  row = omega arith;
  start = omega arith;
}

print-StaysOn_example :
    ((print (65 ∷ 9 ∷ 10 ∷ 8 ∷ []) full_line).0 ≡ 4)
    × StaysOn full_line (print (65 ∷ 9 ∷ 10 ∷ 8 ∷ []) full_line).1
print-StaysOn_example = print-StaysOn (65 ∷ 9 ∷ 10 ∷ 8 ∷ []) full_line full_line-IsOnScreen

ull_text-value_example : Ensures (ull_text 300 255 16 4) (λ s. read_from 16 0 s ≡ 255)
ull_text-value_example = ull_text-value 300 255 16 4 (omega arith) (omega arith) (omega arith)

-- A picture of 4 lines of 6 pixels of 32 bits.
abbrev small_mode : ModeConfig
small_mode = record { width = 6; height = 4; bytes_per_line = 32; depth = 32; base = 0xA0000 }

abbrev picture : Framebuffer ℕ
picture = record {
  buffer = 0;
  backbuffer = 4096;
  double_buffer = false;
  current = some small_mode;
  size = 128;
  direct = false;
  configured = true;
  memory = λ a. 1;
  heap = 0;
}

put_pixel-outside_example : (put_pixel 100 100 255 128 7 0 picture).memory 4224 ≡ 1
put_pixel-outside_example =
    put_pixel-outside 100 100 255 128 7 0 4224 picture small_mode refl
      (record { wide = omega arith; high = omega arith; line = omega arith }) (inr (omega arith))
