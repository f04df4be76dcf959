-- ===== src/Log/Tests.antt =====
-- Runs of kernel/log.c and of fault_handler of kernel/cpu/ISR.c.
use osakauss.Common.{ℕ, ◌≡◌, refl, true, false, List, [], ◌∷◌, some, replicate, arith}
use osakauss.Graphics.{FramebufferPixel}
use osakauss.Console.{Tty}
use osakauss.Serial.{SserialConsole}
use osakauss.Format.{codes, Arg, word, formatv, directive, format_i32, format_i32_base, digits_from}
use osakauss.Interrupts.{Handlers}
use osakauss.Log.{log_both, Log, require_log, logf}
use osakauss.Log.Laws.{join, on_console, on_serial, logf-join, Answered, require_log-Answered}
use osakauss.Log.Faults.{fault_handler}
use osakauss.Log.Faults.Laws.{FaultOutcome, fault_handler-FaultOutcome}

abbrev no_font : ℕ → ℕ → ℕ
no_font c i = 0

abbrev white : FramebufferPixel
white = record { blue = 255; green = 255; red = 255; unused = 0 }

abbrev screen : Tty
screen = record {
  console = record {
    offset_x = 0;
    offset_y = 0;
    barrier_x = 0;
    barrier_y = 0;
    color = white;
    column = 0;
    row = 0;
    width = 800;
    height = 600;
  };
  framebuffer = record {
    addr = 0xe0000000;
    buffer = 0xe0000000;
    width = 800;
    height = 600;
    color = white;
    pitch = 3200;
    bpp = 32;
    back_buffer = 0;
  };
  mem = λ _. 0;
}

-- a port that passes the test of `serial_init`
abbrev port : SserialConsole
port = record {
  offset = 0;
  barrier = 0;
  satisfied = false;
  handler = false;
  port = record { answers = 0xae ∷ replicate 9 0x20; written = [] };
}

abbrev off : Log
off = record { serial_on = false; console_on = false; tty = screen; serial = port }

abbrev on : Log
on = record { serial_on = true; console_on = true; tty = screen; serial = port }

abbrev values : List Arg
values = word 7 ∷ []

shown : formatv (codes "n=%d") values ≡ some (codes "n=7", [])
unfolding formatv directive format_i32 format_i32_base digits_from
shown = refl

logf-join_example :
    logf no_font on (codes "n=%d") values
    ≡ join on (on_console no_font on (codes "n=7")) (on_serial on (codes "n=7"))
logf-join_example = logf-join no_font on (codes "n=%d") (codes "n=7") values [] shown

require_log-Answered_example : Answered log_both off (require_log log_both off)
require_log-Answered_example = require_log-Answered log_both off

-- no handler is installed
abbrev none_installed : Handlers
none_installed i = 0

abbrev keep : ℕ → ℕ → ℕ × Log → ℕ × Log
keep handler i s = s

fault_handler-FaultOutcome_example :
    FaultOutcome no_font keep none_installed 0x2000 77 0 off
      (fault_handler no_font keep none_installed 0x2000 77 0 off)
fault_handler-FaultOutcome_example =
    fault_handler-FaultOutcome no_font keep none_installed 0x2000 77 0 off (omega arith)
