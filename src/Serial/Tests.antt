-- ===== src/Serial/Tests.antt =====
-- Runs of kernel/drivers/uart/serial.c.
use osakauss.Common.{
  ◌+◌, ◌%◌, ◌^◌, ◌≡◌, refl, false, List, [], ◌∷◌, ◌++◌, map, reverse, some, length, arith,
}
use osakauss.Format.{codes, Arg, word, formatv, directive, format_i32, format_i32_base, digits_from}
use osakauss.Serial.{SserialConsole, port_com1, serial_printf}
use osakauss.Serial.Laws.{ready, serial_printf-written}

-- a port at the start
abbrev quiet : SserialConsole
quiet = record {
  offset = 0;
  barrier = 0;
  satisfied = false;
  handler = false;
  port = record { answers = []; written = [] };
}

abbrev values : List Arg
values = word 7 ∷ []

shown : formatv (codes "n=%d") values ≡ some (codes "n=7", [])
unfolding formatv directive format_i32 format_i32_base digits_from
shown = refl

serial_printf-written_example :
    (s' : SserialConsole) × (serial_printf
        (ready quiet (length (codes "n=7")) [])
        (codes "n=%d")
        values
      ≡ some s')
    × (s'.port.written ≡ reverse (map (λ c. (port_com1, c)) (codes "n=7")) ++ quiet.port.written)
    × (s'.port.answers ≡ [])
    × (s'.offset ≡ (quiet.offset + length (codes "n=7")) % 2 ^ 32)
    × (s'.barrier ≡ quiet.barrier)
serial_printf-written_example =
    serial_printf-written quiet (codes "n=%d") (codes "n=7") values [] [] shown
      (omega arith, (omega arith, (omega arith, tt))) (omega arith)
