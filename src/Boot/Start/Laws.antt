-- ===== src/Boot/Start/Laws.antt =====
-- kernel/main.c: the console that the kernel starts with.
use osakauss.Common.{ℕ, ◌*◌, ◌^◌, ◌<◌, ◌≤◌, ◌≡◌, false, List, [], ◌∷◌, ◌++◌, reverse}
use osakauss.Format.{codes}
use osakauss.Console.{Tty, console_require}
use osakauss.Serial.{init_writes, SserialConsole}
use osakauss.Log.{Log}
use osakauss.Boot.Start.{FramebufferTag, with_framebuffer}

-- the message with the names in it
abbrev pub loader_text : List ℕ → List ℕ → List ℕ
loader_text brand version =
    codes "bootloader->["
    ++ (4
        ∷ (brand
            ++ (1 ∷ (codes "]\nbootloader-version->[" ++ (4 ∷ (version ++ (1 ∷ codes "]\n\n")))))))

-- A tag that describes a screen of 32 bits per pixel, wide and high enough for a line of text.
pub record Suits (tag : FramebufferTag) : Type 0 where
  pub bpp : tag.framebuffer_bpp ≡ 32
  pub wide : 16 < tag.framebuffer_width
  pub tall : 18 < tag.framebuffer_height
  pub width_u16 : tag.framebuffer_width < 2 ^ 16
  pub height_u16 : tag.framebuffer_height < 2 ^ 16
  pub pitch_u16 : tag.framebuffer_pitch < 2 ^ 16
  pub lines : 4 * tag.framebuffer_width ≤ tag.framebuffer_pitch

-- Before the start: both outputs are off, and the serial port will answer its test with `a`.
abbrev pub cold : Tty → ℕ → ℕ → ℕ → List ℕ → Log
cold tty offset barrier a later = record {
  serial_on = false;
  console_on = false;
  tty = tty;
  serial = record {
    offset = offset;
    barrier = barrier;
    satisfied = false;
    handler = false;
    port = record { answers = a ∷ later; written = [] };
  };
}

-- the screen's console, when it has started
abbrev pub lit : Tty → FramebufferTag → Tty
lit tty tag = console_require (with_framebuffer (cold tty 0 0 0 []) tag).tty

-- the port after its test has failed
abbrev pub failed : ℕ → ℕ → List ℕ → SserialConsole
failed offset barrier later = record {
  offset = offset;
  barrier = barrier;
  satisfied = false;
  handler = false;
  port = record { answers = later; written = reverse init_writes ++ [] };
}
