-- ===== src/Framebuffer/Pixels.antt =====
-- putPixel writes inside the picture.
use native.Mathlib.Nat.{mul_assoc}
use mathlib.Core.Path.{subst}
use cxx_kernel.Base.{
  ℕ, zero, suc, ◌+◌, ◌*◌, ◌/◌, ◌%◌, ◌^◌, ◌<◌, ◌≤◌, ◌≡◌, refl, sym, ap, ◌∙◌, ◌≢◌, ◌⊎◌, inl, inr,
  Bool, false, Bool-cases, Option, some, none, arith, ◌==◌, ==_iff, if◌then◌else◌, update,
  update_other,
}
use cxx_kernel.Framebuffer.{
  ModeConfig, Framebuffer, color16, put_two, put_four, clamp, put_in, put_pixel,
}

clamp_below : (x n : ℕ) → 0 < n → clamp x n < n
clamp_below x n h = ground arith

row_fits : (y h b : ℕ) → y < h → y * b + b ≤ h * b
row_fits y zero b l = absurd (omega arith)
row_fits zero (suc h) b l = omega arith
row_fits (suc y) (suc h) b l = let w = row_fits y h b (omega arith) in omega (arith, w)

-- The bytes of a line hold its pixels, of one of the three depths that are supported, or of another.
pub record IsMode (mode : ModeConfig) : Type 0 where
  pub wide : 0 < mode.width
  pub high : 0 < mode.height
  pub line : mode.width * mode.depth ≤ mode.bytes_per_line * 8

two_outside : (p v : ℕ) (m : ℕ → ℕ) (x : ℕ) → (x < p) ⊎ (p + 2 ≤ x) → put_two p v m x ≡ m x
two_outside p v m x h =
    let ne : (i : ℕ) → i < 2 → x ≢ p + i =
      λ i l. elim h [ inl q ↦ λ e. omega arith | inr q ↦ λ e. omega arith ] in
    update_other (update m p (v % 256)) (p + 1) (v / 2 ^ 8 % 256) x (ne 1 (omega arith))
    ∙ update_other m p (v % 256) x (λ e. ne 0 (omega arith) (omega (arith, e)))

four_outside : (p v : ℕ) (m : ℕ → ℕ) (x : ℕ) → (x < p) ⊎ (p + 4 ≤ x) → put_four p v m x ≡ m x
four_outside p v m x h =
    two_outside (p + 2) (v / 2 ^ 16) (put_two p v m) x
      (elim h [ inl q ↦ inl (omega arith) | inr q ↦ inr (omega arith) ])
    ∙ two_outside p v m x (elim h [ inl q ↦ inl q | inr q ↦ inr (omega arith) ])

three_outside :
    (p r g b : ℕ) (m : ℕ → ℕ) (x : ℕ)
    → (x < p) ⊎ (p + 3 ≤ x)
    → update (update (update m p r) (p + 1) g) (p + 2) b x ≡ m x
three_outside p r g b m x h =
    let ne : (i : ℕ) → i < 3 → x ≢ p + i =
      λ i l. elim h [ inl q ↦ λ e. omega arith | inr q ↦ λ e. omega arith ] in
    update_other (update (update m p r) (p + 1) g) (p + 2) b x (ne 2 (omega arith))
    ∙ (update_other (update m p r) (p + 1) g x (ne 1 (omega arith))
        ∙ update_other m p r x (λ e. ne 0 (omega arith) (omega (arith, e))))

-- A pixel of `k` bytes stands inside the picture.
pixel_fits :
    (back x y k : ℕ) (mode : ModeConfig)
    → 0 < mode.width
    → 0 < mode.height
    → clamp x mode.width * k + k ≤ mode.bytes_per_line
    → back + clamp y mode.height * mode.bytes_per_line + clamp x mode.width * k + k
      ≤ back + mode.height * mode.bytes_per_line
pixel_fits back x y k mode w h l =
    let row =
      row_fits (clamp y mode.height) mode.height mode.bytes_per_line
        (clamp_below y mode.height h) in
    omega (arith, row, l)

module _ (back x y r g b a : ℕ) (mode : ModeConfig) (h : IsMode mode) (m : ℕ → ℕ) (at : ℕ)
    (out : (at < back) ⊎ (back + mode.height * mode.bytes_per_line ≤ at)) where
  -- A place outside the picture is outside a pixel of `k` bytes.
  outside :
      (k : ℕ)
      → mode.depth ≡ k * 8
      → clamp x mode.width * k + k ≤ mode.width * k
      → (at < back + clamp y mode.height * mode.bytes_per_line + clamp x mode.width * k)
        ⊎ (back + clamp y mode.height * mode.bytes_per_line + clamp x mode.width * k + k ≤ at)
  outside k e l =
      let line = h.line in
      let d = ap (λ (z : ℕ). mode.width * z) e in
      let p = mul_assoc mode.width k 8 in
      let fits = pixel_fits back x y k mode h.wide h.high (omega (arith, line, d, p, l)) in
      elim out [ inl q ↦ inl (omega (arith, q)) | inr q ↦ inr (omega (arith, q, fits)) ]

  put_in-outside : put_in back mode x y r g b a m at ≡ m at
  unfolding put_in
  put_in-outside =
      let row = back + clamp y mode.height * mode.bytes_per_line in
      let cx = clamp x mode.width in
      let below = clamp_below x mode.width h.wide in
      let p24 = row + cx * 3 in
      let a16 = put_two (row + cx * 2) (color16 r g b) m in
      let a24 = update (update (update m p24 r) (p24 + 1) g) (p24 + 2) b in
      let a32 = put_four (row + cx * 4) (a * 2 ^ 24 + r * 2 ^ 16 + g * 2 ^ 8 + b) m in
      let pick =
        λ (s t u : Bool). (if s then a16 else if t then a24 else if u then a32 else m) at ≡ m at in
      let t16 = mode.depth == 16 in
      let t24 = mode.depth == 24 in
      let t32 = mode.depth == 32 in
      elim (Bool-cases t16) [
        | inl e ↦
            let q = outside 2 ((==_iff mode.depth 16).0 e) (omega (arith, below)) in
            subst (λ (s : Bool). pick s t24 t32) (sym e)
              (two_outside (row + cx * 2) (color16 r g b) m at q)
        | inr e ↦
            subst (λ (s : Bool). pick s t24 t32) (sym e)
              (elim (Bool-cases t24) [
                | inl d ↦
                    let q = outside 3 ((==_iff mode.depth 24).0 d) (omega (arith, below)) in
                    subst (λ (t : Bool). pick false t t32) (sym d) (three_outside p24 r g b m at q)
                | inr d ↦
                    subst (λ (t : Bool). pick false t t32) (sym d)
                      (elim (Bool-cases t32) [
                        | inl c ↦
                            let q = outside 4 ((==_iff mode.depth 32).0 c) (omega (arith, below)) in
                            subst (pick false false) (sym c) (
                              four_outside (row + cx * 4) (a * 2 ^ 24 + r * 2 ^ 16 + g * 2 ^ 8 + b)
                                m at q)
                        | inr c ↦ subst (pick false false) (sym c) refl
                      ])
              ])
      ]

-- In a mode whose lines hold its pixels, putPixel changes no byte of the memory outside the picture,
-- of the height times the bytes of a line, at every position that is not negative.
pub put_pixel-outside :
    {S : Type 0} (x y r g b a at : ℕ) (fb : Framebuffer S) (mode : ModeConfig)
    → fb.current ≡ some mode
    → IsMode mode
    → (at < fb.backbuffer) ⊎ (fb.backbuffer + mode.height * mode.bytes_per_line ≤ at)
    → (put_pixel x y r g b a fb).memory at ≡ fb.memory at
unfolding put_pixel
put_pixel-outside {S = S} x y r g b a at fb mode e h out =
    let drawn = record fb { memory = put_in fb.backbuffer mode x y r g b a fb.memory } in
    let after = λ (c : Option ModeConfig).
      (elim c as (λ _. Framebuffer S) [
        | none ↦ fb
        | some md ↦
            if fb.backbuffer == 0
            then fb
            else record fb { memory = put_in fb.backbuffer md x y r g b a fb.memory }
      ]).memory
        at
      ≡ fb.memory at in
    let ends = λ (z : Bool). (if z then fb else drawn).memory at ≡ fb.memory at in
    subst after (sym e) (elim (Bool-cases (fb.backbuffer == 0)) [
      | inl z ↦ subst ends (sym z) refl
      | inr z ↦
          subst ends (sym z) (put_in-outside fb.backbuffer x y r g b a mode h fb.memory at out)
    ])
