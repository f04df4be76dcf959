-- ===== src/Graphics/Cell.antt =====
-- kernel/drivers/graphics/bitmap.c: the pixels that a character is drawn with, on a screen of 32 bits per
-- pixel.
use osakauss.Common.{
  ℕ, zero, suc, ◌+◌, ◌-◌, ◌*◌, ◌^◌, ◌<◌, ◌≤◌, ◌≡◌, refl, ◌∙◌, ◌⊎◌, inl, inr, arith,
}
use osakauss.Graphics.Pixels.{
  Shows, ink, place, row_start, Fits, Shows-same, draw_row-around, draw_row-Shows,
}
use osakauss.Klibc.Mem.{Memory}
use osakauss.Graphics.{
  FramebufferPixel, Sframebuffer, generate_pixel_fg, draw_row, draw_rows, draw_alpha_bitmap,
  bitmap_pc, glyph_index,
}

-- A cell of `n` rows with its upper left corner at `x + 1`, `y` lies on the screen.
abbrev pub CellFits : Sframebuffer → ℕ → ℕ → ℕ → Type 0
CellFits fb x y n =
    (fb.bpp ≡ 32)
    × (x + 8 < 2 ^ 16)
    × (y + n ≤ 2 ^ 16)
    × (4 * (x + 9) ≤ fb.pitch)
    × ((y + n) * fb.pitch ≤ 2 ^ 32)

next_row : (fb : Sframebuffer) (y : ℕ) → row_start fb (y + 1) ≡ row_start fb y + fb.pitch
next_row fb y = grind arith

rows_apart : (fb : Sframebuffer) (y j : ℕ) → row_start fb y + fb.pitch ≤ row_start fb (y + 1 + j)
rows_apart fb y j = grind arith

first-Fits : (fb : Sframebuffer) (x y n : ℕ) → CellFits fb x y (suc n) → Fits fb (x + 8) y
first-Fits fb x y n (bpp, x16, y16, pitch, small) =
    let split : (y + suc n) * fb.pitch ≡ y * fb.pitch + fb.pitch + n * fb.pitch = grind arith in
    (bpp, x16, omega arith, omega arith)

next_fits : (fb : Sframebuffer) (x y n : ℕ) → CellFits fb x y (suc n) → CellFits fb x (y + 1) n
next_fits fb x y n (bpp, x16, y16, pitch, small) =
    let same : y + 1 + n ≡ y + suc n = omega arith in (bpp, x16, omega arith, pitch, rw same small)

eight : (x : ℕ) → 8 ≤ x + 8
eight x = omega arith

-- Does a byte lie outside of the row of the cell at `y`?
abbrev pub Outside : Sframebuffer → ℕ → ℕ → ℕ → Type 0
Outside fb x y a = (a < place (row_start fb y) (x + 1)) ⊎ (place (row_start fb y) (x + 9) ≤ a)

pub draw_rows-around :
    (n : ℕ) (fb : Sframebuffer) (m : Memory) (rows : ℕ → ℕ) (i x y : ℕ) (pixel : FramebufferPixel)
    → CellFits fb x y n
    → (a : ℕ) → ((j : ℕ) → j < n → Outside fb x (y + j) a)
    → draw_rows n fb m rows i x y pixel a ≡ m a
unfolding draw_rows
draw_rows-around zero fb m rows i x y pixel fits a outside = refl
draw_rows-around (suc n) fb m rows i x y pixel fits a outside =
    let m' = draw_row 8 fb m (rows i) (x + 8) y pixel (generate_pixel_fg 0 0 0) in
    let top : y + 0 ≡ y = omega arith in
    let first : Outside fb x y a = rw top at (outside 0 (omega arith)) in
    let here : (a < place (row_start fb y) (x + 8 - 8 + 1))
        ⊎ (place (row_start fb y) (x + 8 + 1) ≤ a) =
      elim first [
        | inl below ↦ inl (omega (arith, below))
        | inr above ↦ inr (omega (arith, above))
      ] in
    draw_rows-around n fb m' rows (i + 1) x (y + 1) pixel (next_fits fb x y n fits) a (λ j lt.
      let down : y + 1 + j ≡ y + suc j = omega arith in rw down (outside (suc j) (omega arith)))
    ∙ draw_row-around 8 fb m (rows i) (x + 8) y pixel (first-Fits fb x y n fits) (eight x) a here

draw_rows-Shows :
    (n : ℕ) (fb : Sframebuffer) (m : Memory) (rows : ℕ → ℕ) (i x y : ℕ) (pixel : FramebufferPixel)
    → CellFits fb x y n
    → (j k : ℕ) → j < n
    → k < 8
    → Shows
        (draw_rows n fb m rows i x y pixel)
        (place (row_start fb (y + j)) (x + 8 - k))
        (ink (rows (i + j)) k pixel)
unfolding draw_rows
draw_rows-Shows zero fb m rows i x y pixel fits j k lt bit = absurd (omega arith)
draw_rows-Shows (suc n) fb m rows i x y pixel fits zero k lt bit =
    let m' = draw_row 8 fb m (rows i) (x + 8) y pixel (generate_pixel_fg 0 0 0) in
    let top : y + 0 ≡ y = omega arith in
    let same : i + 0 ≡ i = omega arith in
    let pitch = fits.3 in
    rw (top, same)
      (Shows-same m' _ (place (row_start fb y) (x + 8 - k)) (place (row_start fb y) (x + 8 - k))
        (ink (rows i) k pixel) (ink (rows i) k pixel) refl refl
        (λ a lo hi.
          draw_rows-around n fb m' rows (i + 1) x (y + 1) pixel (next_fits fb x y n fits) a
            (λ j lt'. inl (omega (arith, hi, bit, pitch, rows_apart fb y j))))
        (draw_row-Shows 8 fb m (rows i) (x + 8) y pixel (first-Fits fb x y n fits) (eight x) k bit))
draw_rows-Shows (suc n) fb m rows i x y pixel fits (suc j) k lt bit =
    let m' = draw_row 8 fb m (rows i) (x + 8) y pixel (generate_pixel_fg 0 0 0) in
    let down : y + suc j ≡ y + 1 + j = omega arith in
    let same : i + suc j ≡ i + 1 + j = omega arith in
    rw (down, same)
      (draw_rows-Shows n fb m' rows (i + 1) x (y + 1) pixel (next_fits fb x y n fits) j k
        (omega arith) bit)

-- A character below 128, in a cell that lies on a screen of 32 bits per pixel, is drawn from its own eight
-- rows of the font: bit `k` of row `j` gives the pixel that is `k` from the right edge of the cell, and
-- no byte outside of the eight rows of the cell is changed.
pub bitmap_pc-Shows :
    (font : ℕ → ℕ → ℕ) (fb : Sframebuffer) (m : Memory) (x y c : ℕ) (pixel : FramebufferPixel)
    → c < 128
    → CellFits fb x y 8
    → ((j k : ℕ)
        → j < 8
        → k < 8
        → Shows
            (bitmap_pc font fb m x y c pixel)
            (place (row_start fb (y + j)) (x + 8 - k))
            (ink (font c j) k pixel))
      × ((a : ℕ)
          → ((j : ℕ) → j < 8 → Outside fb x (y + j) a)
          → bitmap_pc font fb m x y c pixel a ≡ m a)
unfolding bitmap_pc draw_alpha_bitmap
bitmap_pc-Shows font fb m x y c pixel ascii fits =
    let index : glyph_index c ≡ c = omega (arith, ascii) in
    rw index (
      λ j k lt bit.
          let row : 0 + j ≡ j = omega arith in
          rw row at (draw_rows-Shows 8 fb m (font c) 0 x y pixel fits j k lt bit),
      λ a outside. draw_rows-around 8 fb m (font c) 0 x y pixel fits a outside,
    )

-- A `char` from 128 on takes its rows from behind the end of the font, which has 2048 glyphs.
pub glyph_index-beyond : (c : ℕ) → 128 ≤ c → c < 256 → 2048 ≤ glyph_index c
glyph_index-beyond c lo hi = omega arith
