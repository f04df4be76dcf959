-- ===== src/Boot/Start/Tests.antt =====
-- A run of the first steps of kernel/main.c, with a screen of 800 by 600 pixels and no serial port.
use osakauss.Common.{ℕ, ◌==◌, if◌then◌else◌}
use osakauss.Format.{codes}
use osakauss.Graphics.{FramebufferPixel}
use osakauss.Klibc.Mem.{Ptr}
use osakauss.Console.{Tty}
use osakauss.Log.{Log}
use osakauss.Boot.{Tag, BootInfo, framebuffer_id, memmap_id}
use osakauss.Boot.Start.{FramebufferTag}

abbrev no_font : ℕ → ℕ → ℕ
no_font c i = 0

abbrev info : BootInfo
info = record { brand = codes "Limine"; version = codes "2.0"; tags = 10 }

abbrev tags : Ptr → Tag
tags p =
    if p == 10
    then record { identifier = memmap_id; next = 20 }
    else record { identifier = framebuffer_id; next = 0 }

abbrev screens : Ptr → FramebufferTag
screens p = record {
  framebuffer_addr = 0xe0000000;
  framebuffer_width = 800;
  framebuffer_height = 600;
  framebuffer_pitch = 3200;
  framebuffer_bpp = 32;
}

abbrev black : FramebufferPixel
black = record { blue = 0; green = 0; red = 0; unused = 0 }

-- the console and the framebuffer of zeroes
abbrev dark : Tty
dark = record {
  console = record {
    offset_x = 0;
    offset_y = 0;
    barrier_x = 0;
    barrier_y = 0;
    color = black;
    column = 0;
    row = 0;
    width = 0;
    height = 0;
  };
  framebuffer = record {
    addr = 0;
    buffer = 0;
    width = 0;
    height = 0;
    color = black;
    pitch = 0;
    bpp = 0;
    back_buffer = 0;
  };
  mem = λ _. 0;
}
