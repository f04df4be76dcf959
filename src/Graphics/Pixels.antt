-- ===== src/Graphics/Pixels.antt =====
-- kernel/drivers/graphics/bitmap.c: the pixels of one row, on a screen of 32 bits per pixel.
use osakauss.Common.{
  ℕ, zero, suc, ◌+◌, ◌-◌, ◌*◌, ◌/◌, ◌%◌, ◌^◌, ◌<◌, ◌≤◌, ◌≡◌, refl, ap, ◌∙◌, ◌⊎◌, inl, inr, ◌==◌,
  if◌then◌else◌, bit_and, arith,
}
use osakauss.Bits.{testbit, testbit-suc, bit_and-one}
use osakauss.Klibc.Mem.{Memory, Ptr}
use osakauss.Graphics.{
  FramebufferPixel, Sframebuffer, location, put_pixel, generate_pixel_fg, draw_row,
}

-- The pixel at an address, in the order in which `PutPixel` writes it.
abbrev pub Shows : Memory → Ptr → FramebufferPixel → Type 0
Shows m at p = (m at ≡ p.red) × (m (at + 1) ≡ p.green) × (m (at + 2) ≡ p.blue)

-- the colour of the bit `k` of a row
abbrev pub ink : ℕ → ℕ → FramebufferPixel → FramebufferPixel
ink pix k pixel = if testbit pix k == 1 then pixel else generate_pixel_fg 0 0 0

-- where the pixel at `x` of the row that starts at `base` stands
abbrev pub place : ℕ → ℕ → ℕ
place base x = base + 4 * x

location_lem :
    (fb : Sframebuffer) (x y : ℕ)
    → fb.bpp ≡ 32
    → x < 2 ^ 16
    → y < 2 ^ 16
    → y * fb.pitch + 4 * x < 2 ^ 32
    → location fb x y ≡ y * fb.pitch + 4 * x
location_lem fb x y bpp x16 y16 small =
    let col : x % 2 ^ 16 ≡ x = omega (arith, x16) in
    let line : y % 2 ^ 16 ≡ y = omega (arith, y16) in rw (col, line, bpp) (omega (arith, small))

-- the start of a row of pixels in memory
abbrev pub row_start : Sframebuffer → ℕ → ℕ
row_start fb y = fb.buffer + y * fb.pitch

put_pixel-Shows :
    (fb : Sframebuffer) (m : Memory) (x y : ℕ) (pixel : FramebufferPixel)
    → fb.bpp ≡ 32
    → x < 2 ^ 16
    → y < 2 ^ 16
    → y * fb.pitch + 4 * x < 2 ^ 32
    → Shows (put_pixel fb m x y pixel) (place (row_start fb y) x) pixel
      × ((a : ℕ)
          → (a < place (row_start fb y) x) ⊎ (place (row_start fb y) x + 4 ≤ a)
          → put_pixel fb m x y pixel a ≡ m a)
unfolding put_pixel
put_pixel-Shows fb m x y pixel bpp x16 y16 small =
    let at : fb.buffer + location fb x y ≡ place (row_start fb y) x =
      ap (λ n. fb.buffer + n) (location_lem fb x y bpp x16 y16 small) ∙ omega arith in
    let p = place (row_start fb y) x in
    rw at ((ground arith, ground arith, ground arith), λ a outside. ground (arith, outside))

-- The bit that the inner loop looks at.
ink_zero :
    (pix : ℕ) (pixel : FramebufferPixel)
    → (if bit_and pix 1 == 1 then pixel else generate_pixel_fg 0 0 0) ≡ ink pix 0 pixel
ink_zero pix pixel = rw (bit_and-one pix) refl

ink-suc : (pix k : ℕ) (pixel : FramebufferPixel) → ink (pix / 2) k pixel ≡ ink pix (suc k) pixel
ink-suc pix k pixel = rw (testbit-suc pix k) refl

pub Shows-same :
    (m m' : Memory) (at at' : Ptr) (p p' : FramebufferPixel)
    → at ≡ at'
    → p ≡ p'
    → ((a : ℕ) → at ≤ a → a < at + 4 → m' a ≡ m a)
    → Shows m at p
    → Shows m' at' p'
Shows-same m m' at at' p p' e e' same h =
    rw (← e, ← e')
      (
        same at (omega arith) (omega arith) ∙ h.0,
        same (at + 1) (omega arith) (omega arith) ∙ h.1,
        same (at + 2) (omega arith) (omega arith) ∙ h.2,
      )

-- where the rows of a picture can be drawn
abbrev pub Fits : Sframebuffer → ℕ → ℕ → Type 0
Fits fb x y = (fb.bpp ≡ 32) × (x < 2 ^ 16) × (y < 2 ^ 16) × (y * fb.pitch + 4 * x < 2 ^ 32)

left-Fits : (fb : Sframebuffer) (x y : ℕ) → Fits fb x y → Fits fb (x - 1) y
left-Fits fb x y (bpp, x16, y16, small) = (bpp, omega arith, y16, omega arith)

-- `n` bits of a row, the lowest bit at `x` and the others to the left of it: the bytes around them stay,
pub draw_row-around :
    (n : ℕ) (fb : Sframebuffer) (m : Memory) (pix x y : ℕ) (pixel : FramebufferPixel)
    → Fits fb x y
    → n ≤ x
    → (a : ℕ) → (a < place (row_start fb y) (x - n + 1)) ⊎ (place (row_start fb y) (x + 1) ≤ a)
    → draw_row n fb m pix x y pixel (generate_pixel_fg 0 0 0) a ≡ m a
unfolding draw_row
draw_row-around zero fb m pix x y pixel fits within a outside = refl
draw_row-around (suc n) fb m pix x y pixel fits within a outside =
    let color = if bit_and pix 1 == 1 then pixel else generate_pixel_fg 0 0 0 in
    let m' = put_pixel fb m x y color in
    let p = place (row_start fb y) x in
    let left : (a < place (row_start fb y) (x - 1 - n + 1))
        ⊎ (place (row_start fb y) (x - 1 + 1) ≤ a) =
      elim outside [
        | inl below ↦ inl (omega (arith, below))
        | inr above ↦ inr (omega (arith, above))
      ] in
    let here : (a < p) ⊎ (p + 4 ≤ a) = elim outside [
      | inl below ↦ inl (omega (arith, below))
      | inr above ↦ inr (omega (arith, above))
    ] in
    draw_row-around n fb m' (pix / 2) (x - 1) y pixel (left-Fits fb x y fits) (omega arith) a left
    ∙ (put_pixel-Shows fb m x y color fits.0 fits.1 fits.2 fits.3).1 a here

-- and each bit shows its colour.
pub draw_row-Shows :
    (n : ℕ) (fb : Sframebuffer) (m : Memory) (pix x y : ℕ) (pixel : FramebufferPixel)
    → Fits fb x y
    → n ≤ x
    → (k : ℕ) → k < n
    → Shows
        (draw_row n fb m pix x y pixel (generate_pixel_fg 0 0 0))
        (place (row_start fb y) (x - k))
        (ink pix k pixel)
unfolding draw_row
draw_row-Shows zero fb m pix x y pixel fits within k lt = absurd (omega arith)
draw_row-Shows (suc n) fb m pix x y pixel fits within zero lt =
    let color = if bit_and pix 1 == 1 then pixel else generate_pixel_fg 0 0 0 in
    let m' = put_pixel fb m x y color in
    let p = place (row_start fb y) x in
    let drawn = (put_pixel-Shows fb m x y color fits.0 fits.1 fits.2 fits.3).0 in
    Shows-same m' _ p (place (row_start fb y) (x - 0)) color (ink pix 0 pixel) (omega arith)
      (ink_zero pix pixel)
      (λ a lo hi.
        draw_row-around n fb m' (pix / 2) (x - 1) y pixel (left-Fits fb x y fits) (omega arith) a
          (inr (omega arith)))
      drawn
draw_row-Shows (suc n) fb m pix x y pixel fits within (suc k) lt =
    let color = if bit_and pix 1 == 1 then pixel else generate_pixel_fg 0 0 0 in
    let m' = put_pixel fb m x y color in
    let base = row_start fb y in
    let rest = draw_row n fb m' (pix / 2) (x - 1) y pixel (generate_pixel_fg 0 0 0) in
    Shows-same rest rest (place base (x - 1 - k)) (place base (x - suc k)) (ink (pix / 2) k pixel)
      (ink pix (suc k) pixel) (omega arith) (ink-suc pix k pixel) (λ a lo hi. refl)
      (draw_row-Shows n fb m' (pix / 2) (x - 1) y pixel (left-Fits fb x y fits) (omega arith) k
        (omega arith))
