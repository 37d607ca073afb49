-- ===== src/Framebuffer.antt =====
-- The framebuffer (inc/fb.h, src/fb.cpp), on the bytes of the memory. The memory manager is an
-- Allocator; positions are not negative; the lock of the buffers is left out.
pub mod Pixels
use cxx_kernel.Base.{
  ℕ, zero, suc, ◌+◌, ◌-◌, ◌*◌, ◌/◌, ◌%◌, ◌^◌, Bool, true, false, ◌&&◌, ◌||◌, not, Option, some,
  none, ltb, leb, ◌==◌, if◌then◌else◌, update,
}

pub record ModeConfig : Type 0 where
  pub width : ℕ
  pub height : ℕ
  pub bytes_per_line : ℕ
  pub depth : ℕ
  pub base : ℕ

-- alloc with AllocClear gives an address, or 0, and the memory with the block cleared.
pub record Allocator (S : Type 0) : Type 0 where
  pub alloc : ℕ → S → ℕ × S
  pub free : ℕ → S → S

-- FB; an address of 0 is the null pointer.
pub record Framebuffer (S : Type 0) : Type 0 where
  pub buffer : ℕ
  pub backbuffer : ℕ
  pub double_buffer : Bool
  pub current : Option ModeConfig
  pub size : ℕ
  pub direct : Bool
  pub configured : Bool
  pub memory : ℕ → ℕ
  pub heap : S

unfoldable pub new_framebuffer : {S : Type 0} → ℕ → (ℕ → ℕ) → S → Framebuffer S
new_framebuffer size memory heap = record {
  buffer = 0;
  backbuffer = 0;
  double_buffer = false;
  current = none;
  size = size;
  direct = false;
  configured = false;
  memory = memory;
  heap = heap;
}

-- `n` bytes from `p` on set to 0.
abbrev pub zeroed : ℕ → ℕ → (ℕ → ℕ) → ℕ → ℕ
zeroed p n m a = if leb p a && ltb a (p + n) then 0 else m a

-- The first, the middle and the last byte of a buffer.
unfoldable pub write_three : ℕ → ℕ → ℕ → ℕ → ℕ → (ℕ → ℕ) → ℕ → ℕ
write_three p n a b c m = update (update (update m p a) (p + n / 2) b) (p + (n - 1)) c

unfoldable pub reads_three : ℕ → ℕ → ℕ → ℕ → ℕ → (ℕ → ℕ) → Bool
reads_three p n a b c m = m p == a && (m (p + n / 2) == b && m (p + (n - 1)) == c)

-- color of 16 bits: r & 0x7C, g & 0x7E and b & 0x7C, shifted.
unfoldable pub color16 : ℕ → ℕ → ℕ → ℕ
color16 r g b = r / 4 % 32 * 4 * 2 ^ 8 + g / 2 % 64 * 2 * 4 + b / 4 % 32 * 4 / 8

abbrev pub put_two : ℕ → ℕ → (ℕ → ℕ) → ℕ → ℕ
put_two p v m = update (update m p (v % 256)) (p + 1) (v / 2 ^ 8 % 256)

abbrev pub put_four : ℕ → ℕ → (ℕ → ℕ) → ℕ → ℕ
put_four p v m = put_two (p + 2) (v / 2 ^ 16) (put_two p v m)

abbrev pub clamp : ℕ → ℕ → ℕ
clamp x n = if leb n x then n - 1 else x

-- putPixel in a mode, for a color as r, g, b and a.
unfoldable pub put_in : ℕ → ModeConfig → ℕ → ℕ → ℕ → ℕ → ℕ → ℕ → (ℕ → ℕ) → ℕ → ℕ
put_in back mode x y r g b a m =
    let row = back + clamp y mode.height * mode.bytes_per_line in
    let cx = clamp x mode.width in
    let p24 = row + cx * 3 in
    if mode.depth == 16
    then put_two (row + cx * 2) (color16 r g b) m
    else if mode.depth == 24
    then update (update (update m p24 r) (p24 + 1) g) (p24 + 2) b
    else if mode.depth == 32
    then put_four (row + cx * 4) (a * 2 ^ 24 + r * 2 ^ 16 + g * 2 ^ 8 + b) m
    else m

module _ {S : Type 0} where
  unfoldable pub put_pixel : ℕ → ℕ → ℕ → ℕ → ℕ → ℕ → Framebuffer S → Framebuffer S
  put_pixel x y r g b a fb = elim fb.current [
    | none ↦ fb
    | some mode ↦
        if fb.backbuffer == 0
        then fb
        else record fb { memory = put_in fb.backbuffer mode x y r g b a fb.memory }
  ]

  -- putPixel of a color of 32 bits, whose position wraps; none is a division by 0.
  unfoldable pub put_color : ℕ → ℕ → ℕ → Framebuffer S → Option (Framebuffer S)
  put_color x y color fb =
      let parts =
        put_pixel x y (color / 2 ^ 16 % 256) (color / 2 ^ 8 % 256) (color % 256)
          (color / 2 ^ 24 % 256) fb in
      elim fb.current [
        | none ↦ some parts
        | some mode ↦
            let p = fb.backbuffer + (y % mode.height * mode.bytes_per_line + x % mode.width * 4) in
            if not (fb.backbuffer == 0) && mode.depth == 32
            then if mode.width == 0 || mode.height == 0
              then none
              else some (record fb { memory = put_four p color fb.memory })
            else some parts
      ]

  unfoldable pub clear : Framebuffer S → Framebuffer S
  clear fb =
      let m = if fb.backbuffer == 0 then fb.memory else zeroed fb.backbuffer fb.size fb.memory in
      record fb { memory = if fb.buffer == 0 then m else zeroed fb.buffer fb.size m }

  -- memcpy_opt of the back buffer; without a double buffer the two become one.
  unfoldable pub swap : Framebuffer S → Framebuffer S
  swap fb =
      if fb.buffer == 0 || (fb.backbuffer == 0 || fb.direct)
      then fb
      else if not fb.double_buffer
      then record fb { buffer = fb.backbuffer }
      else record fb {
        memory = λ a.
            if leb fb.buffer a && ltb a (fb.buffer + fb.size)
            then fb.memory (fb.backbuffer + (a - fb.buffer))
            else fb.memory a;
      }

  module _ (mm : Allocator S) where
    unfoldable pub free_at : ℕ → Framebuffer S → Framebuffer S
    free_at p fb = if p == 0 then fb else record fb { heap = mm.free p fb.heap }

    unfoldable pub set_single_buffer : Framebuffer S → Framebuffer S
    set_single_buffer fb = record (free_at fb.buffer (record fb { double_buffer = false })) {
      buffer = 0;
    }

    unfoldable pub free_buffers : Framebuffer S → Framebuffer S
    free_buffers fb =
        let fb' = record (free_at fb.buffer fb) { buffer = 0 } in
        record (free_at fb'.backbuffer fb') { backbuffer = 0 }

    -- The null pointer of m_current is not tested.
    unfoldable pub set_direct : Framebuffer S → Option (Framebuffer S)
    set_direct fb =
        let fb' = free_at fb.buffer (free_at fb.backbuffer (record fb { direct = true })) in
        elim fb.current [
          | none ↦ none
          | some mode ↦ some (record fb' { backbuffer = mode.base; buffer = mode.base })
        ]

    -- A cleared block of m_size bytes.
    unfoldable pub alloc_clear : Framebuffer S → ℕ × Framebuffer S
    alloc_clear fb =
        let (p, heap) = mm.alloc fb.size fb.heap in
        (
          p,
          record fb {
            heap = heap;
            memory = if p == 0 then fb.memory else zeroed p fb.size fb.memory;
          },
        )

    -- The front buffer of allocBuffers.
    unfoldable pub alloc_front : Framebuffer S → Framebuffer S
    alloc_front fb =
        let (p, fb1) = alloc_clear fb in
        let m = write_three p fb.size 0xEF 0xDE 0xEC fb1.memory in
        let fb2 = record fb1 { memory = m } in
        if p == 0
        then record fb1 { double_buffer = false; buffer = 0 }
        else if reads_three p fb.size 0xEF 0xDE 0xEC m
        then record fb2 { buffer = p; memory = write_three p fb.size 0 0 0 m }
        else record (free_at p fb2) { double_buffer = false; buffer = 0 }

    unfoldable pub alloc_back : ModeConfig → Framebuffer S → Framebuffer S
    alloc_back mode fb =
        let (p, fb1) =
          alloc_clear (record fb { size = mode.bytes_per_line * mode.height % 2 ^ 32 }) in
        let m = write_three p fb1.size 0xFE 0xED 0xDC fb1.memory in
        let fb2 = record fb1 { backbuffer = p; memory = m } in
        if p == 0
        then record fb1 { direct = true; backbuffer = mode.base }
        else if reads_three p fb1.size 0xFE 0xED 0xDC m
        then alloc_front (record fb2 { memory = write_three p fb1.size 0 0 0 m })
        else record (free_at p (record fb2 { direct = true })) { backbuffer = mode.base }

    unfoldable pub configure : Option ModeConfig → Framebuffer S → Bool × Framebuffer S
    configure none fb = (false, fb)
    configure (some mode) fb =
        let fb' = record fb { current = some mode } in
        (true, record (if fb.direct then fb' else alloc_back mode fb') { configured = true })
