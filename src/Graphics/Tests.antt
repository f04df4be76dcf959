-- ===== src/Graphics/Tests.antt =====
-- A run of bitmapPC: the letter "A" at 18, 9 on a screen of 800 by 600 pixels.
use osakauss.Common.{ℕ, ◌+◌, ◌-◌, ◌<◌, ◌≡◌, refl, arith}
use osakauss.Klibc.Mem.{Memory}
use osakauss.Font.{font}
use osakauss.Graphics.{FramebufferPixel, Sframebuffer, bitmap_pc}
use osakauss.Graphics.Pixels.{Shows, ink, place, row_start}
use osakauss.Graphics.Cell.{CellFits, Outside, bitmap_pc-Shows}

abbrev white : FramebufferPixel
white = record { blue = 255; green = 255; red = 255; unused = 0 }

abbrev screen : Sframebuffer
screen = record {
  addr = 0xe0000000;
  buffer = 0xe0000000;
  width = 800;
  height = 600;
  color = white;
  pitch = 3200;
  bpp = 32;
  back_buffer = 0;
}

abbrev dark : Memory
dark a = 0

cell : CellFits screen 18 9 8
cell = (refl, omega arith, omega arith, omega arith, omega arith)

bitmap_pc-Shows_example :
    ((j k : ℕ)
      → j < 8
      → k < 8
      → Shows
          (bitmap_pc font screen dark 18 9 b'A' white)
          (place (row_start screen (9 + j)) (18 + 8 - k))
          (ink (font b'A' j) k white))
    × ((a : ℕ)
        → ((j : ℕ) → j < 8 → Outside screen 18 (9 + j) a)
        → bitmap_pc font screen dark 18 9 b'A' white a ≡ dark a)
bitmap_pc-Shows_example = bitmap_pc-Shows font screen dark 18 9 b'A' white (omega arith) cell
