-- ===== src/Serial.antt =====
-- kernel/drivers/uart/serial.c: the serial port. `inb` takes the next value of a list of what the device
-- will answer, and `outb` adds to a list, the last write first; `none` is a wait that the list does
-- not end.
pub mod Laws
mod Tests
use osakauss.Format.{Arg, formatv}
use osakauss.Common.{
  ℕ, ◌+◌, ◌-◌, ◌%◌, ◌^◌, bit_and, Bool, true, List, [], ◌∷◌, ◌++◌, reverse, Option, none, some, leb,
  ◌==◌, if◌then◌else◌,
}

abbrev pub port_com1 : ℕ
port_com1 = 0x03f8

pub record Port : Type 0 where
  pub answers : List ℕ
  pub written : List (ℕ × ℕ)

-- `SerialConsole` and `require_satisfied`, with the device
pub record SserialConsole : Type 0 where
  pub offset : ℕ
  pub barrier : ℕ
  pub satisfied : Bool
  pub handler : Bool
  pub port : Port

unfoldable pub inb : Port → Option (ℕ × Port)
inb p = elim p.answers [ [] ↦ none | a ∷ later ↦ some (a, record p { answers = later }) ]

unfoldable pub outb : Port → ℕ → ℕ → Port
outb p port value = record p { written = (port, value) ∷ p.written }

-- `while ((inb(PORT_COM1 + 5) & mask) == 0);`
unfoldable pub wait_for : ℕ → List ℕ → Option (List ℕ)
wait_for mask [] = none
wait_for mask (a ∷ later) =
    let rest = wait_for mask later in if bit_and a mask == 0 then rest else some later

unfoldable pub serial_readb : SserialConsole → Option (ℕ × SserialConsole)
serial_readb s = elim (wait_for 1 s.port.answers) [
  | none ↦ none
  | some later ↦ elim later [
    | [] ↦ none
    | c ∷ later' ↦ some (c, record s { port = record s.port { answers = later' } })
  ]
]

-- the wait for the transmitter, and the write; `offset` is counted up
unfoldable pub send : SserialConsole → ℕ → Option SserialConsole
send s val = elim (wait_for 0x20 s.port.answers) [
  | none ↦ none
  | some later ↦ some (record s {
    offset = (s.offset + 1) % 2 ^ 32;
    port = outb (record s.port { answers = later }) port_com1 val;
  })
]

abbrev pub count_down : SserialConsole → SserialConsole
count_down s = record s { offset = (s.offset + 2 ^ 32 - 1) % 2 ^ 32 }

unfoldable pub serial_writeb : SserialConsole → ℕ → Option SserialConsole
serial_writeb s val =
    let erased : Option SserialConsole = elim (send (count_down s) val) [
      | none ↦ none
      | some s' ↦ some (count_down s')
    ] in
    if val == 0x08 then (if leb s.offset s.barrier then some s else erased) else send s val

unfoldable pub serial_set_barrier : SserialConsole → SserialConsole
serial_set_barrier s = record s { barrier = s.offset }

unfoldable pub serial_rem_barrier : SserialConsole → SserialConsole
serial_rem_barrier s = record s { barrier = 0 }

-- the writes of `serial_init` before its test
abbrev pub init_writes : List (ℕ × ℕ)
init_writes =
    (port_com1 + 1, 0x00)
    ∷ (port_com1 + 3, 0x80)
    ∷ (port_com1 + 0, 0x03)
    ∷ (port_com1 + 1, 0x00)
    ∷ (port_com1 + 3, 0x03)
    ∷ (port_com1 + 2, 0xc7)
    ∷ (port_com1 + 4, 0x0b)
    ∷ (port_com1 + 4, 0x1e)
    ∷ (port_com1 + 0, 0xae)
    ∷ (port_com1 + 1, 0x01)
    ∷ []

-- The result is 0 on success and 1 on error.
unfoldable pub serial_init : SserialConsole → Option (ℕ × SserialConsole)
serial_init s = elim s.port.answers [
  | [] ↦ none
  | a ∷ later ↦
      let tested : Port = record {
        answers = later;
        written = reverse init_writes ++ s.port.written;
      } in
      some (
        if a == 0xae
        then (0, record s { handler = true; port = outb tested (port_com1 + 4) 0x0f })
        else (1, record s { port = tested }))
]

unfoldable pub require_serial : SserialConsole → Option (ℕ × SserialConsole)
require_serial s =
    let fresh : Option (ℕ × SserialConsole) = elim (serial_init s) [
      | none ↦ none
      | some started ↦
          let (status, s') = started in
          some (if status == 1 then (0, s') else (1, record s' { satisfied = true }))
    ] in
    if s.satisfied then some (1, s) else fresh

-- what `formatv` does with `serial_writeb`: the bytes one after the other
unfoldable pub serial_print : SserialConsole → List ℕ → Option SserialConsole
serial_print s [] = some s
serial_print s (c ∷ out) = elim (serial_writeb s c) [ none ↦ none | some s' ↦ serial_print s' out ]

unfoldable pub serial_printf : SserialConsole → List ℕ → List Arg → Option SserialConsole
serial_printf s fmt args = elim (formatv fmt args) [
  | none ↦ none
  | some (out, rest) ↦ serial_print s out
]
