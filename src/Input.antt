-- ===== src/Input.antt =====
-- kernel/input.c: the ring of typed characters, and the two functions that read from it. An interrupt
-- appends to the ring; a reader that waits takes the interrupts of a list, one after the other.
pub mod Ring
pub mod Line
mod Tests
use osakauss.Common.{
  ℕ, zero, suc, ◌+◌, ◌-◌, ◌%◌, ◌^◌, Bool, true, not, ◌||◌, List, [], ◌∷◌, Option, none, some, ltb,
  ◌==◌, if◌then◌else◌,
}
use osakauss.Klibc.Mem.{Memory, Ptr, store}
use osakauss.Console.{Sconsole, console_set_barrier, console_rem_barrier}
use osakauss.Serial.{SserialConsole, require_serial, serial_set_barrier, serial_rem_barrier}

abbrev pub buffer_size : ℕ
buffer_size = 2000

-- `key_buffer`
pub record KeyBuffer : Type 0 where
  pub buf : ℕ → ℕ
  pub r : ℕ
  pub w : ℕ

-- `--x` on a `u32`
abbrev pub dec32 : ℕ → ℕ
dec32 x = (x + 2 ^ 32 - 1) % 2 ^ 32

-- the write behind the tests; `none` is a write outside of `buf`
unfoldable pub put_key : KeyBuffer → ℕ → Option KeyBuffer
put_key kb c =
    if ltb kb.w buffer_size
    then some (record kb { buf = store kb.buf kb.w c; w = (kb.w + 1) % buffer_size })
    else none

-- the reset of a full ring
unfoldable pub make_room : KeyBuffer → KeyBuffer
make_room kb =
    if kb.w == (kb.r + buffer_size - 1) % buffer_size then record kb { w = 0; r = 0 } else kb

unfoldable pub key_buffer_append : KeyBuffer → ℕ → Option KeyBuffer
key_buffer_append kb c =
    let room = make_room kb in
    let back : KeyBuffer = record room { w = dec32 room.w; r = dec32 room.r } in
    if c == 0 then some kb else if c == 0x08 then put_key back c else put_key room c

-- A read that does not block.
unfoldable pub take_key : KeyBuffer → ℕ × KeyBuffer
take_key kb = (kb.buf kb.r, record kb { r = (kb.r + 1) % buffer_size })

-- The waiting loop, with the characters of the interrupts to come: `none` is a wait that they do not
-- end, or a write outside of the ring.
unfoldable pub wait_key : KeyBuffer → List ℕ → Option (KeyBuffer × List ℕ)
wait_key kb [] = if kb.w == kb.r then none else some (kb, [])
wait_key kb (c ∷ typed) =
    let later : Option (KeyBuffer × List ℕ) = elim (key_buffer_append kb c) [
      | none ↦ none
      | some kb' ↦ wait_key kb' typed
    ] in
    if kb.w == kb.r then later else some (kb, c ∷ typed)

unfoldable pub read_key_buffer : Bool → KeyBuffer → List ℕ → Option (ℕ × KeyBuffer × List ℕ)
read_key_buffer blocking kb typed =
    let ready : Option (KeyBuffer × List ℕ) =
      if blocking then wait_key kb typed else some (kb, typed) in
    elim ready [
      | none ↦ none
      | some ready' ↦
          let (kb', typed') = ready' in let (c, kb'') = take_key kb' in some (c, kb'', typed')
    ]

-- what is left of a read: the bytes read, the memory, the ring and the interrupts to come
pub record Reading : Type 0 where
  pub char_read : ℕ
  pub mem : Memory
  pub keys : KeyBuffer
  pub typed : List ℕ

-- The loops run on fuel; `none` is a wait that nothing ends, or that the fuel has run out. Both take a
-- character the same way: it is stored, or a backspace takes the last one back.
unfoldable pub input_read_loop : ℕ → KeyBuffer → List ℕ → Memory → Ptr → ℕ → ℕ → Option Reading
input_read_loop zero kb typed m buf char_read size = none
input_read_loop (suc fuel) kb typed m buf char_read size =
    let next : Option Reading = elim (read_key_buffer true kb typed) [
      | none ↦ none
      | some got ↦
          let (c, kb', typed') = got in
          let stored =
            input_read_loop fuel kb' typed' (store m buf c) (buf + 1) (char_read + 1) size in
          let ignored = input_read_loop fuel kb' typed' m buf char_read size in
          let erased = input_read_loop fuel kb' typed' m (buf - 1) (char_read - 1) size in
          if c == 0
          then some (record {
            char_read = char_read + 1;
            mem = store m buf c;
            keys = kb';
            typed = typed';
          })
          else if c == 8
          then (if char_read == 0 then ignored else erased)
          else stored
    ] in
    if ltb char_read size
    then next
    else some (record { char_read = char_read; mem = m; keys = kb; typed = typed })

unfoldable pub input_readln_loop : ℕ → KeyBuffer → List ℕ → Memory → Ptr → ℕ → Option Reading
input_readln_loop zero kb typed m buf char_read = none
input_readln_loop (suc fuel) kb typed m buf char_read = elim (read_key_buffer true kb typed) [
  | none ↦ none
  | some got ↦
      let (c, kb', typed') = got in
      let stored = input_readln_loop fuel kb' typed' (store m buf c) (buf + 1) (char_read + 1) in
      let ignored = input_readln_loop fuel kb' typed' m buf char_read in
      let erased = input_readln_loop fuel kb' typed' (store m buf 0) (buf - 1) (char_read - 1) in
      if c == 0
      then some
          (record { char_read = char_read + 1; mem = store m buf c; keys = kb'; typed = typed' })
      else if c == 8
      then (if char_read == 0 then ignored else erased)
      else if c == 0x0a
      then some (record { char_read = char_read; mem = m; keys = kb'; typed = typed' })
      else stored
]

-- `require_satisfied`, the ring, and the two consoles whose barriers `input_readln` sets
pub record InputState : Type 0 where
  pub serial_satisfied : Bool
  pub keyboard_satisfied : Bool
  pub keys : KeyBuffer
  pub console : Sconsole
  pub serial : SserialConsole
  pub keyboard_handler : Bool

abbrev pub set_barriers : InputState → InputState
set_barriers s = record s {
  console = console_set_barrier s.console;
  serial = serial_set_barrier s.serial;
}

abbrev pub rem_barriers : InputState → InputState
rem_barriers s = record s {
  console = console_rem_barrier s.console;
  serial = serial_rem_barrier s.serial;
}

-- a `size` that is not negative
unfoldable pub input_read :
    ℕ → InputState → List ℕ → Memory → Ptr → ℕ → Option (ℕ × Memory × InputState × List ℕ)
input_read fuel s typed m buf size =
    let got : Option (ℕ × Memory × InputState × List ℕ) =
      elim (input_read_loop fuel s.keys typed m buf 0 size) [
        | none ↦ none
        | some g ↦ some (g.char_read, g.mem, record s { keys = g.keys }, g.typed)
      ] in
    if s.keyboard_satisfied || s.serial_satisfied then got else some (0, m, s, typed)

unfoldable pub input_readln :
    ℕ → InputState → List ℕ → Memory → Ptr → Option (ℕ × Memory × InputState × List ℕ)
input_readln fuel s typed m buf =
    let got : Option (ℕ × Memory × InputState × List ℕ) =
      elim (input_readln_loop fuel s.keys typed m buf 0) [
        | none ↦ none
        | some g ↦
            some (
              g.char_read,
              g.mem,
              rem_barriers (record (set_barriers s) { keys = g.keys }),
              g.typed,
            )
      ] in
    if s.keyboard_satisfied || s.serial_satisfied then got else some (0, m, rem_barriers s, typed)

pub data InputOption : Type 0 where
  input_serial : InputOption
  input_keyboard : InputOption
  input_both : InputOption

-- `if (!require_serial()) return 0; require_satisfied.serial = 1;`, with what is done behind it
abbrev pub require_serial_input :
    InputState → (InputState → ℕ × InputState) → Option (ℕ × InputState)
require_serial_input s next = elim (require_serial s.serial) [
  | none ↦ none
  | some answer ↦
      let (ok, serial') = answer in
      let s' : InputState = record s { serial = serial' } in
      some (if ok == 0 then (0, s') else next (record s' { serial_satisfied = true }))
]

-- `require_keyboard(); require_satisfied.keyboard = 1;`
abbrev pub require_keyboard_input : InputState → InputState
require_keyboard_input s = record s { keyboard_handler = true; keyboard_satisfied = true }

unfoldable pub require_input : InputOption → InputState → Option (ℕ × InputState)
require_input input_serial s =
    let asked = require_serial_input s (λ s'. (1, s')) in
    if s.serial_satisfied then some (1, s) else asked
require_input input_keyboard s = some (1, require_keyboard_input s)
require_input input_both s =
    let keyboard : InputState → ℕ × InputState =
      λ s'. (1, if s'.keyboard_satisfied then s' else require_keyboard_input s') in
    let asked = require_serial_input s keyboard in
    if s.serial_satisfied then some (keyboard s) else asked
