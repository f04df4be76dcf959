-- ===== src/Input/Tests.antt =====
-- Runs of kernel/input.c: a line is typed on an empty ring.
use osakauss.Common.{
  ℕ, ◌≡◌, refl, true, false, [], ◌∷◌, ◌++◌, ap, ◌==◌, none, some, length, arith, if◌then◌else◌,
}
use osakauss.Klibc.Mem.{Memory}
use osakauss.Graphics.{FramebufferPixel}
use osakauss.Input.{
  KeyBuffer, key_buffer_append, take_key, wait_key, read_key_buffer, InputState, input_readln,
  set_barriers, rem_barriers,
}
use osakauss.Input.Ring.{
  IsValid, queued, from_ring, length-from_ring, queued-append, queued-append_full,
  read_key_buffer-queued, key_buffer_append-backspace_zero,
}
use osakauss.Input.Line.{Reads, done, read, edited, Holds, input_readln-edited}

-- the characters 'h' and 'i' wait in the ring, which begins near its end
abbrev waiting : KeyBuffer
waiting = record { buf = λ a. if a == 1999 then b'h' else b'i'; r = 1999; w = 1 }

abbrev full : KeyBuffer
full = record { buf = λ a. 65; r = 3; w = 2 }

queued-waiting : queued waiting ≡ b'h' ∷ b'i' ∷ []
unfolding queued from_ring
queued-waiting = refl

queued-append_example :
    (kb' : KeyBuffer) × (key_buffer_append waiting b'!' ≡ some kb')
    × IsValid kb'
    × (queued kb' ≡ queued waiting ++ (b'!' ∷ []))
queued-append_example =
    queued-append waiting b'!' (omega arith, omega arith) (omega arith) (omega arith)
      (omega (arith, ap length queued-waiting))

read_key_buffer-queued_example :
    (kb' : KeyBuffer) × (read_key_buffer true waiting [] ≡ some (b'h', kb', []))
    × IsValid kb'
    × (queued kb' ≡ b'i' ∷ [])
read_key_buffer-queued_example =
    read_key_buffer-queued waiting [] b'h' (b'i' ∷ []) (omega arith, omega arith) queued-waiting

queued-append_full_example :
    (kb' : KeyBuffer) × (key_buffer_append full b'z' ≡ some kb')
    × IsValid kb'
    × (queued kb' ≡ b'z' ∷ [])
unfolding queued
queued-append_full_example =
    queued-append_full full b'z' (omega arith, omega arith) (omega arith) (omega arith)
      (length-from_ring full.buf full.r 1999)

key_buffer_append-backspace_zero_example :
    key_buffer_append (record { buf = λ a. 0; r = 0; w = 0 }) 8 ≡ none
key_buffer_append-backspace_zero_example =
    key_buffer_append-backspace_zero (record { buf = λ a. 0; r = 0; w = 0 }) refl

-- "ax", a backspace, and a newline
abbrev typing : KeyBuffer
typing = record {
  buf = λ a. if a == 0 then b'a' else if a == 1 then b'x' else if a == 2 then 8 else 0x0a;
  r = 0;
  w = 4;
}

abbrev at_key : ℕ → KeyBuffer
at_key i = record typing { r = i }

abbrev black : FramebufferPixel
black = record { blue = 0; green = 0; red = 0; unused = 0 }

abbrev state : InputState
state = record {
  serial_satisfied = false;
  keyboard_satisfied = true;
  keys = typing;
  console = record {
    offset_x = 4;
    offset_y = 2;
    barrier_x = 0;
    barrier_y = 0;
    color = black;
    column = 36;
    row = 18;
    width = 640;
    height = 480;
  };
  serial = record {
    offset = 0;
    barrier = 0;
    satisfied = false;
    handler = false;
    port = record { answers = []; written = [] };
  };
  keyboard_handler = true;
}

typing-Reads : Reads (b'a' ∷ b'x' ∷ 8 ∷ []) typing [] (at_key 3) []
unfolding read_key_buffer take_key wait_key
typing-Reads =
    read {kb' = at_key 1} {typed' = []} refl
      (read {kb' = at_key 2} {typed' = []} refl (read {kb' = at_key 3} {typed' = []} refl done))

newline-read : read_key_buffer true (at_key 3) [] ≡ some (0x0a, at_key 4, [])
unfolding read_key_buffer take_key wait_key
newline-read = refl

input_readln-edited_example :
    (m' : Memory) × (input_readln 9 state [] (λ a. 0) 5000
      ≡ some (
        length (edited [] (b'a' ∷ b'x' ∷ 8 ∷ [])),
        m',
        rem_barriers (record (set_barriers state) { keys = at_key 4 }),
        [],
      ))
    × Holds m' 5000 (edited [] (b'a' ∷ b'x' ∷ 8 ∷ []))
input_readln-edited_example =
    input_readln-edited 9 (b'a' ∷ b'x' ∷ 8 ∷ []) state (λ a. 0) 5000 refl typing-Reads
      (omega arith, omega arith, (omega arith, omega arith, (omega arith, omega arith, tt)))
      newline-read (omega arith)
