-- ===== src/Typing.antt =====
-- The two interrupt handlers that put characters into the ring of the input: keyboard_handler of
-- kernel/drivers/kb/kb.c and handle_serial_in of kernel/drivers/uart/serial.c. `none` is a write
-- outside of the ring, or a wait for the serial port that nothing ends.
pub mod Laws
mod Tests
use osakauss.Common.{
  ℕ, zero, ◌+◌, ◌-◌, Bool, not, ◌&&◌, List, [], ◌∷◌, Option, none, some, leb, ◌==◌, if◌then◌else◌,
  get_or,
}
use osakauss.Common.Int.{ℤ, pos, minus_one}
use osakauss.Console.{Tty, with_console, mvcursorc, putch}
use osakauss.Serial.{SserialConsole, serial_readb, serial_writeb}
use osakauss.Input.{KeyBuffer, key_buffer_append}

-- `kbdus`, without the zeroes at its end
abbrev pub kbdus : List ℕ
kbdus =
    0 ∷ 27 ∷ b'1' ∷ b'2' ∷ b'3' ∷ b'4' ∷ b'5' ∷ b'6' ∷ b'7' ∷ b'8' ∷ b'9' ∷ b'0' ∷ b'-' ∷ b'=' ∷ 8
    ∷ 9 ∷ b'q' ∷ b'w' ∷ b'e' ∷ b'r' ∷ b't' ∷ b'y' ∷ b'u' ∷ b'i' ∷ b'o' ∷ b'p' ∷ b'[' ∷ b']' ∷ 0x0a
    ∷ 0 ∷ b'a' ∷ b's' ∷ b'd' ∷ b'f' ∷ b'g' ∷ b'h' ∷ b'j' ∷ b'k' ∷ b'l' ∷ b';' ∷ 0x27 ∷ 0x60 ∷ 0
    ∷ 0x5c ∷ b'z' ∷ b'x' ∷ b'c' ∷ b'v' ∷ b'b' ∷ b'n' ∷ b'm' ∷ b',' ∷ b'.' ∷ b'/' ∷ 0 ∷ b'*' ∷ 0
    ∷ b' ' ∷ 3 ∷ 0 ∷ 0 ∷ 0 ∷ 0 ∷ 0 ∷ 0 ∷ 0 ∷ 0 ∷ 0 ∷ 0 ∷ 0 ∷ 0 ∷ 0 ∷ 0 ∷ 0 ∷ b'-' ∷ 1 ∷ 0 ∷ 2 ∷ b'+'
    ∷ []

abbrev pub handle_scan_code : ℕ → ℕ
handle_scan_code scancode = get_or kbdus scancode 0

-- The keyboard, with the console and the ring.
pub record Skeyboard : Type 0 where
  pub capslock : Bool
  pub tty : Tty
  pub keys : KeyBuffer

abbrev pub move_cursor : Skeyboard → ℤ → Skeyboard
move_cursor k i = record k { tty = with_console k.tty (mvcursorc k.tty.console i) }

-- `putch(c); key_buffer_append(c);`
abbrev pub type_key : (ℕ → ℕ → ℕ) → Skeyboard → ℕ → Option Skeyboard
type_key font k c = elim (key_buffer_append k.keys c) [
  | none ↦ none
  | some keys ↦ some (record k { tty = putch font k.tty c; keys = keys })
]

-- the character that a key stands for
abbrev pub shifted : Bool → ℕ → ℕ
shifted capslock c = if capslock && (leb b'a' c && leb c b'z') then c - 32 else c

-- `scancode` is what the keyboard's data port gave.
unfoldable pub keyboard_handler : (ℕ → ℕ → ℕ) → Skeyboard → ℕ → Option Skeyboard
keyboard_handler font k scancode =
    let c = handle_scan_code scancode in
    if leb 0x80 scancode
    then some k
    else if c == 2
    then some (move_cursor k (pos 1))
    else if c == 1
    then some (move_cursor k minus_one)
    else if c == 3
    then some (record k { capslock = not k.capslock })
    else if c == 0
    then some k
    else type_key font k (shifted k.capslock c)

-- The ring and the serial port: first what is written back and then the ring, or the other way round.
unfoldable pub echo_then_append :
    KeyBuffer → SserialConsole → ℕ → Option (KeyBuffer × SserialConsole)
echo_then_append keys s c = elim (serial_writeb s c) [
  | none ↦ none
  | some s' ↦ elim (key_buffer_append keys c) [ none ↦ none | some keys' ↦ some (keys', s') ]
]

unfoldable pub append_then_echo :
    KeyBuffer → SserialConsole → ℕ → Option (KeyBuffer × SserialConsole)
append_then_echo keys s c = elim (key_buffer_append keys c) [
  | none ↦ none
  | some keys' ↦ elim (serial_writeb s c) [ none ↦ none | some s' ↦ some (keys', s') ]
]

-- A carriage return is taken for a newline, and DEL for a backspace.
unfoldable pub handle_serial_in : KeyBuffer → SserialConsole → Option (KeyBuffer × SserialConsole)
handle_serial_in keys s = elim (serial_readb s) [
  | none ↦ none
  | some got ↦
      let (c, s') = got in
      if c == 13
      then echo_then_append keys s' 0x0a
      else if c == 127
      then echo_then_append keys s' 8
      else append_then_echo keys s' c
]
