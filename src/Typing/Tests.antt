-- ===== src/Typing/Tests.antt =====
-- A run of keyboard_handler: the key "a", with the capslock on.
use osakauss.Common.{◌<◌, ◌≡◌, true, [], ◌∷◌, ◌++◌, some, length, arith}
use osakauss.Graphics.{FramebufferPixel}
use osakauss.Input.Ring.{IsValid, queued, from_ring}
use osakauss.Typing.{Skeyboard, keyboard_handler}
use osakauss.Typing.Laws.{keyboard_handler-queued}

abbrev white : FramebufferPixel
white = record { blue = 255; green = 255; red = 255; unused = 0 }

abbrev keyboard : Skeyboard
keyboard = record {
  capslock = true;
  tty = record {
    console = record {
      offset_x = 0;
      offset_y = 0;
      barrier_x = 0;
      barrier_y = 0;
      color = white;
      column = 0;
      row = 0;
      width = 800;
      height = 600;
    };
    framebuffer = record {
      addr = 0xe0000000;
      buffer = 0xe0000000;
      width = 800;
      height = 600;
      color = white;
      pitch = 3200;
      bpp = 32;
      back_buffer = 0;
    };
    mem = λ _. 0;
  };
  keys = record { buf = λ _. 0; r = 1999; w = 1999 };
}

no_keys : length (queued keyboard.keys) < 1999
unfolding queued from_ring
no_keys = omega arith

keyboard_handler-queued_example :
    (k' : Skeyboard) × (keyboard_handler (λ c i. 0) keyboard 30 ≡ some k')
    × IsValid k'.keys
    × (queued k'.keys ≡ queued keyboard.keys ++ (b'A' ∷ []))
    × (k'.capslock ≡ true)
keyboard_handler-queued_example =
    keyboard_handler-queued (λ c i. 0) keyboard 30 (omega arith) (omega arith) (omega arith)
      (omega arith, omega arith) no_keys
