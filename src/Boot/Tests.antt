-- ===== src/Boot/Tests.antt =====
-- Runs of kernel/main.c: three tags, and a list of two modules.
use osakauss.Common.{ℕ, ◌≡◌, true, false, List, [], ◌∷◌, Option, some, ◌==◌, if◌then◌else◌, arith}
use osakauss.Format.{codes}
use osakauss.Klibc.Mem.{Ptr}
use osakauss.Graphics.{FramebufferPixel}
use osakauss.Log.{Log}
use osakauss.Boot.{Tag, BootInfo, Module, memmap_id, modules_id, stivale2_get_tag, init_initrd}
use osakauss.Boot.Laws.{
  Chain, last, link, Searched, stivale2_get_tag-Searched, Mounted, init_initrd-Mounted,
}

abbrev info : BootInfo
info = record { brand = codes "Limine"; version = codes "2.0"; tags = 10 }

abbrev tags : Ptr → Tag
tags p =
    if p == 10
    then record { identifier = memmap_id; next = 20 }
    else record { identifier = modules_id; next = 0 }

two-Chain : Chain tags 10 (10 ∷ 20 ∷ [])
two-Chain = link (omega arith) (link (omega arith) last)

stivale2_get_tag-Searched_example :
    (r : Ptr) × (stivale2_get_tag 5 tags info modules_id ≡ some r)
    × Searched tags modules_id (10 ∷ 20 ∷ []) r
stivale2_get_tag-Searched_example =
    stivale2_get_tag-Searched 5 tags info modules_id (10 ∷ 20 ∷ []) two-Chain (omega arith)

abbrev modules : List Module
modules =
    record { begin = 1; end = 2; string = codes "kernel" }
    ∷ record { begin = 30; end = 40; string = codes "initrd" }
    ∷ []

abbrev white : FramebufferPixel
white = record { blue = 255; green = 255; red = 255; unused = 0 }

-- a log with both outputs off
abbrev off : Log
off = record {
  serial_on = false;
  console_on = false;
  tty = record {
    console = record {
      offset_x = 0;
      offset_y = 0;
      barrier_x = 0;
      barrier_y = 0;
      color = white;
      column = 0;
      row = 0;
      width = 800;
      height = 600;
    };
    framebuffer = record {
      addr = 0xe0000000;
      buffer = 0xe0000000;
      width = 800;
      height = 600;
      color = white;
      pitch = 3200;
      bpp = 32;
      back_buffer = 0;
    };
    mem = λ _. 0;
  };
  serial = record {
    offset = 0;
    barrier = 0;
    satisfied = false;
    handler = false;
    port = record { answers = []; written = [] };
  };
}

abbrev no_font : ℕ → ℕ → ℕ
no_font c i = 0

-- the initial disk is kept as its first address
abbrev keep_begin : ℕ → ℕ → ℕ × Log → Option (ℕ × Log)
keep_begin begin end r = some (begin, r.1)

init_initrd-Mounted_example :
    Mounted keep_begin no_font modules 0 off (init_initrd keep_begin no_font true modules 0 off)
init_initrd-Mounted_example = init_initrd-Mounted keep_begin no_font modules 0 off
