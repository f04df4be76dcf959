-- ===== src/Graphics.antt =====
-- kernel/drivers/graphics/framebuffer.c and bitmap.c: pixels and characters. The contents of the font
-- table (fonts/font.h) are the argument `font`.
pub mod Pixels
pub mod Cell
mod Tests
use osakauss.Common.{
  ℕ, zero, suc, ◌+◌, ◌-◌, ◌*◌, ◌/◌, ◌%◌, ◌^◌, bit_and, List, [], ◌∷◌, ◌==◌, if◌then◌else◌,
}
use osakauss.Klibc.Mem.{Memory, Ptr, store}

-- `BITMAP_SIZE`
abbrev pub bitmap_size : ℕ
bitmap_size = 8

pub record FramebufferPixel : Type 0 where
  pub blue : ℕ
  pub green : ℕ
  pub red : ℕ
  pub unused : ℕ

pub record Sframebuffer : Type 0 where
  pub addr : ℕ
  pub buffer : Ptr
  pub width : ℕ
  pub height : ℕ
  pub color : FramebufferPixel
  pub pitch : ℕ
  pub bpp : ℕ
  pub back_buffer : Ptr

-- `buffer`, `width` and `height` are put in their fields, and one byte of `backBuffer` is cleared.
unfoldable pub framebuffer_init :
    Sframebuffer → Memory → ℕ → Ptr → ℕ → ℕ → ℕ → ℕ → Sframebuffer × Memory
framebuffer_init fb m addr buffer width height bpp pitch = (
  record fb {
    buffer = buffer;
    width = width % 2 ^ 16;
    height = height % 2 ^ 16;
    bpp = bpp % 2 ^ 16;
    pitch = pitch % 2 ^ 16;
    addr = addr;
  },
  store m fb.back_buffer 0,
)

abbrev pub location : Sframebuffer → ℕ → ℕ → ℕ
location fb x y = (y % 2 ^ 16 * fb.pitch + x % 2 ^ 16 * (fb.bpp / 8)) % 2 ^ 32

unfoldable pub put_pixel : Sframebuffer → Memory → ℕ → ℕ → FramebufferPixel → Memory
put_pixel fb m x y pixel =
    let at = fb.buffer + location fb x y in
    store (store (store m at pixel.red) (at + 1) pixel.green) (at + 2) pixel.blue

unfoldable pub generate_pixel_fg : ℕ → ℕ → ℕ → FramebufferPixel
generate_pixel_fg red green blue = record { blue = blue; green = green; red = red; unused = 0 }

unfoldable pub set_framebuffer_color : Sframebuffer → FramebufferPixel → Sframebuffer
set_framebuffer_color fb pixel = record fb { color = pixel }

-- The inner loop of `DrawAlphaBitmap`, with the rounds that are left: it draws from `x` down, the
-- lowest bit first.
unfoldable pub draw_row :
    ℕ → Sframebuffer → Memory → ℕ → ℕ → ℕ → FramebufferPixel → FramebufferPixel → Memory
draw_row zero fb m pix x y pixel black_pixel = m
draw_row (suc n) fb m pix x y pixel black_pixel =
    let m' = put_pixel fb m x y (if bit_and pix 1 == 1 then pixel else black_pixel) in
    draw_row n fb m' (pix / 2) (x - 1) y pixel black_pixel

-- The outer loop, with the rows that are left. `x` stays below 2 ^ 16, so `temp` holds it.
unfoldable pub draw_rows :
    ℕ → Sframebuffer → Memory → (ℕ → ℕ) → ℕ → ℕ → ℕ → FramebufferPixel → Memory
draw_rows zero fb m rows i x y pixel = m
draw_rows (suc n) fb m rows i x y pixel =
    let m' =
      draw_row bitmap_size fb m (rows i) (x + bitmap_size) y pixel (generate_pixel_fg 0 0 0) in
    draw_rows n fb m' rows (i + 1) x (y + 1) pixel

unfoldable pub draw_alpha_bitmap :
    (ℕ → ℕ → ℕ) → Sframebuffer → Memory → ℕ → ℕ → ℕ → FramebufferPixel → Memory
draw_alpha_bitmap font fb m index x y pixel = draw_rows bitmap_size fb m (font index) 0 x y pixel

-- A `char` from 128 on is negative, and as a `u16` it is from 2 ^ 16 - 128 on.
abbrev pub glyph_index : ℕ → ℕ
glyph_index ch = (ch + 2 ^ 16 - ch / 128 * 256) % 2 ^ 16

unfoldable pub bitmap_pc :
    (ℕ → ℕ → ℕ) → Sframebuffer → Memory → ℕ → ℕ → ℕ → FramebufferPixel → Memory
bitmap_pc font fb m x y ch pixel = draw_alpha_bitmap font fb m (glyph_index ch) x y pixel

-- the string is given by its bytes before the NUL
unfoldable pub bitmap_ps :
    (ℕ → ℕ → ℕ) → Sframebuffer → Memory → ℕ → ℕ → List ℕ → FramebufferPixel → Memory
bitmap_ps font fb m x y [] pixel = m
bitmap_ps font fb m x y (c ∷ str) pixel =
    bitmap_ps font fb (bitmap_pc font fb m x y c pixel) (x + bitmap_size + 1) y str pixel
