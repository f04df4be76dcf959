-- ===== src/Console/Tests.antt =====
-- Runs of the console on a screen of 800 by 600 pixels.
use osakauss.Common.{ℕ, ◌+◌, ◌<◌, ◌≡◌, refl, ◌⊎◌, true, List, [], ◌∷◌, arith}
use osakauss.Graphics.{FramebufferPixel}
use osakauss.Console.{Tty, console_require, line_full, printk}
use osakauss.Console.Cursor.{OnScreen}
use osakauss.Console.Frame.{InFrame, Kept}
use osakauss.Console.Writes.{printk-Kept}
use osakauss.Console.Screen.{printk-OnScreen, console_require-OnScreen}

abbrev black : FramebufferPixel
black = record { blue = 0; green = 0; red = 0; unused = 0 }

-- before the start of the console
abbrev dark : Tty
dark = record {
  console = record {
    offset_x = 0;
    offset_y = 0;
    barrier_x = 0;
    barrier_y = 0;
    color = black;
    column = 0;
    row = 0;
    width = 0;
    height = 0;
  };
  framebuffer = record {
    addr = 0xe0000000;
    buffer = 0xe0000000;
    width = 800;
    height = 600;
    color = black;
    pitch = 3200;
    bpp = 32;
    back_buffer = 0;
  };
  mem = λ _. 0;
}

abbrev no_font : ℕ → ℕ → ℕ
no_font c i = 0

abbrev keys : List ℕ
keys = b'a' ∷ 8 ∷ 8 ∷ 9 ∷ 0x0a ∷ 4 ∷ []

abbrev lit : Tty
lit = console_require dark

lit-OnScreen : OnScreen lit.console
lit-OnScreen =
    console_require-OnScreen dark refl refl (omega arith) (omega arith) (omega arith) (omega arith)

lit-InFrame : InFrame lit
unfolding console_require
lit-InFrame = record {
  on_screen = lit-OnScreen;
  bpp = refl;
  lines = omega arith;
  small = omega arith;
}

printk-Kept_example : Kept lit (printk no_font lit keys)
printk-Kept_example = printk-Kept no_font lit keys lit-InFrame

printk-OnScreen_example :
    OnScreen (printk no_font lit keys).console
    × ((line_full (printk no_font lit keys).console ≡ true)
        ⊎ ((printk no_font lit keys).console.column + 8 < (printk no_font lit keys).console.width))
    × ((printk no_font lit keys).console.row + 8 < (printk no_font lit keys).console.height)
printk-OnScreen_example = printk-OnScreen no_font lit keys lit-OnScreen
