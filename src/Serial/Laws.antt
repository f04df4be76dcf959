-- ===== src/Serial/Laws.antt =====
-- kernel/drivers/uart/serial.c: what reaches the port.
use mathlib.Core.List.{reverse-cons, append_assoc}
use osakauss.Common.{
  ℕ, suc, ◌<◌, ◌+◌, ◌%◌, ◌^◌, ◌≡◌, ◌≢◌, refl, sym, ap, ◌∙◌, List, [], ◌∷◌, ◌++◌, map, reverse, some,
  length, replicate, ==_ne, arith,
}
use osakauss.Format.{Arg, formatv}
use osakauss.Serial.{
  SserialConsole, port_com1, send, wait_for, outb, serial_writeb, serial_print, serial_printf,
}

-- Text without a backspace.
abbrev pub NoBackspace : List ℕ → Type 0
NoBackspace [] = Unit
NoBackspace (c ∷ out) = (c ≢ 8) × NoBackspace out

-- The device answers each question for its state with "the transmitter is empty", and then `later`.
abbrev pub ready : SserialConsole → ℕ → List ℕ → SserialConsole
ready s n later = record s { port = record s.port { answers = replicate n 0x20 ++ later } }

-- The serial port after the bytes `out`: counted, and written in their order.
abbrev pub printed : SserialConsole → List ℕ → SserialConsole
printed s [] = s
printed s (c ∷ out) =
    printed (record s { offset = (s.offset + 1) % 2 ^ 32; port = outb s.port port_com1 c }) out

abbrev sent : SserialConsole → ℕ → SserialConsole
sent s c = record s { offset = (s.offset + 1) % 2 ^ 32; port = outb s.port port_com1 c }

serial_writeb-sent :
    (s : SserialConsole) (later : List ℕ) (n c : ℕ)
    → c ≢ 8
    → serial_writeb (ready s (suc n) later) c ≡ some (ready (sent s c) n later)
unfolding serial_writeb send wait_for outb
serial_writeb-sent s later n c plain = rw (serial_writeb, ==_ne c 8 plain) refl

serial_print-printed :
    (s : SserialConsole) (later out : List ℕ)
    → NoBackspace out
    → serial_print (ready s (length out) later) out ≡ some (ready (printed s out) 0 later)
unfolding serial_print
serial_print-printed s later [] plain = refl
serial_print-printed s later (c ∷ out) plain =
    rw (serial_print, serial_writeb-sent s later (length out) c plain.0)
      (serial_print-printed (sent s c) later out plain.1)

-- the port has written `out`, in this order, behind what it has written before
written-printed :
    (s : SserialConsole) (out : List ℕ)
    → (printed s out).port.written ≡ reverse (map (λ c. (port_com1, c)) out) ++ s.port.written
unfolding outb
written-printed s [] = refl
written-printed s (c ∷ out) =
    let before = map (λ b. (port_com1, b)) out in
    let last : ℕ × ℕ = (port_com1, c) in
    written-printed (sent s c) out
    ∙ sym (append_assoc (reverse before) (last ∷ []) s.port.written)
    ∙ ap (λ ws. ws ++ s.port.written) (sym (reverse-cons last before))

offset-printed :
    (s : SserialConsole) (out : List ℕ)
    → s.offset < 2 ^ 32
    → (printed s out).offset ≡ (s.offset + length out) % 2 ^ 32
offset-printed s [] small = omega (arith, small)
offset-printed s (c ∷ out) small = offset-printed (sent s c) out (omega arith) ∙ omega arith

barrier-printed : (s : SserialConsole) (out : List ℕ) → (printed s out).barrier ≡ s.barrier
barrier-printed s [] = refl
barrier-printed s (c ∷ out) = barrier-printed (sent s c) out

-- A format that prints `out`, in which there is no backspace, on a device that is ready for every byte:
-- serial_printf ends, the port gets exactly these bytes in their order, `offset` counts them, and
-- the barrier stays.
pub serial_printf-written :
    (s : SserialConsole) (fmt out : List ℕ) (args rest : List Arg) (later : List ℕ)
    → formatv fmt args ≡ some (out, rest)
    → NoBackspace out
    → s.offset < 2 ^ 32
    → (s' : SserialConsole) × (serial_printf (ready s (length out) later) fmt args ≡ some s')
      × (s'.port.written ≡ reverse (map (λ c. (port_com1, c)) out) ++ s.port.written)
      × (s'.port.answers ≡ later)
      × (s'.offset ≡ (s.offset + length out) % 2 ^ 32)
      × (s'.barrier ≡ s.barrier)
unfolding serial_printf
serial_printf-written s fmt out args rest later shown plain small = (
  ready (printed s out) 0 later,
  rw (serial_printf, shown) (serial_print-printed s later out plain),
  written-printed s out,
  refl,
  offset-printed s out small,
  barrier-printed s out,
)
