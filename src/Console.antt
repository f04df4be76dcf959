-- ===== src/Console.antt =====
-- kernel/drivers/console/framebuffer/console.c: the text console. `update_cursor` has no body that runs.
pub mod Cursor
pub mod Screen
pub mod Frame
pub mod Writes
mod Tests
use osakauss.Common.{
  ℕ, zero, suc, ◌+◌, ◌-◌, ◌*◌, ◌/◌, ◌%◌, ◌^◌, Bool, not, ◌&&◌, List, [], ◌∷◌, leb, ◌==◌,
  if◌then◌else◌,
}
use osakauss.Common.Int.{ℤ, pos, negsuc}
use osakauss.Klibc.Mem.{Memory, memcpy}
use osakauss.Graphics.{FramebufferPixel, Sframebuffer, generate_pixel_fg, bitmap_pc, bitmap_size}

-- `console`; the two entries of `barrier` are two fields.
pub record Sconsole : Type 0 where
  pub offset_x : ℕ
  pub offset_y : ℕ
  pub barrier_x : ℕ
  pub barrier_y : ℕ
  pub color : FramebufferPixel
  pub column : ℕ
  pub row : ℕ
  pub width : ℕ
  pub height : ℕ

-- What `putch` works on: the console, the framebuffer and the memory.
pub record Tty : Type 0 where
  pub console : Sconsole
  pub framebuffer : Sframebuffer
  pub mem : Memory

-- `a + b` and `a - b` on a `u32`
abbrev pub add32 : ℕ → ℕ → ℕ
add32 a b = (a + b) % 2 ^ 32

abbrev pub sub32 : ℕ → ℕ → ℕ
sub32 a b = (a + (2 ^ 32 - b % 2 ^ 32)) % 2 ^ 32

abbrev pub with_console : Tty → Sconsole → Tty
with_console t c = record t { console = c }

unfoldable pub console_set_barrier : Sconsole → Sconsole
console_set_barrier c = record c { barrier_x = c.offset_x; barrier_y = c.offset_y }

unfoldable pub console_rem_barrier : Sconsole → Sconsole
console_rem_barrier c = record c { barrier_x = 0; barrier_y = 0 }

unfoldable pub mvcursorc : Sconsole → ℤ → Sconsole
mvcursorc c (pos i) = record c { column = add32 (add32 c.column bitmap_size) i }
mvcursorc c (negsuc i) = record c { column = sub32 (add32 c.column bitmap_size) (suc i) }

unfoldable pub console_require : Tty → Tty
console_require t = with_console t (record t.console {
  height = t.framebuffer.height;
  width = t.framebuffer.width;
  row = 0;
  column = 0;
  color = generate_pixel_fg 0xff 0xff 0xff;
})

module _ (font : ℕ → ℕ → ℕ) where
  unfoldable pub putchat : Tty → ℕ → Tty
  putchat t c =
      let con = t.console in
      record t {
        mem = bitmap_pc font t.framebuffer t.mem con.column con.row c con.color;
        console = record con { column = add32 con.column (bitmap_size + 1) };
      }

-- The copy moves the lines up by one line of text.
unfoldable pub scroll : Tty → Tty
scroll t =
    let con = t.console in
    let fb = t.framebuffer in
    let from = fb.buffer + 4 * (fb.pitch / 4) * (bitmap_size + 1) in
    let amount = fb.pitch * sub32 con.height (bitmap_size + 1) % 2 ^ 32 in
    if leb (sub32 con.height (2 * bitmap_size + 2)) con.row
    then record t {
      mem = (memcpy t.mem fb.buffer from amount).0;
      console = record con {
        row = sub32 con.row (bitmap_size + 1);
        offset_y = sub32 con.offset_y 1;
      };
    }
    else t

-- `putch('\n')`
unfoldable pub put_newline : Tty → Tty
put_newline t =
    let con = t.console in
    scroll (
      with_console t (record con {
        row = add32 con.row (bitmap_size + 1);
        offset_y = add32 con.offset_y 1;
        column = 0;
        offset_x = 0;
      }))

abbrev pub count_char : Tty → Tty
count_char t = with_console t (record t.console { offset_x = add32 t.console.offset_x 1 })

abbrev pub line_full : Sconsole → Bool
line_full con = leb (sub32 con.width (2 * bitmap_size)) con.column

-- one step to the left
abbrev pub step_back : Tty → Tty
step_back t =
    let con = t.console in
    with_console t
      (record con { column = sub32 con.column (bitmap_size + 1); offset_x = sub32 con.offset_x 1 })

-- Does the barrier stop a backspace?
abbrev pub at_barrier : Sconsole → Bool
at_barrier con =
    not ((con.barrier_x == 0) && (con.barrier_y == 0))
    && (leb con.offset_x con.barrier_x && (con.barrier_y == con.offset_y))

module _ (font : ℕ → ℕ → ℕ) where
  -- `putch` of a character that the tests before and after the one for a full line do not name, a
  -- space for one
  unfoldable pub put_plain : Tty → ℕ → Tty
  put_plain t c =
      if line_full t.console
      then scroll (count_char (putchat font (put_newline t) c))
      else scroll (count_char (putchat font t c))

  unfoldable pub put_backspace : Tty → Tty
  put_backspace t =
      let con = t.console in
      if con.column == 0
      then scroll t
      else if at_barrier con
      then scroll t
      else scroll (step_back (put_plain (step_back t) b' '))

  unfoldable pub put_spaces : ℕ → Tty → Tty
  put_spaces zero t = t
  put_spaces (suc n) t = put_spaces n (put_plain t b' ')

  abbrev pub with_color : Tty → FramebufferPixel → Tty
  with_color t color = scroll (with_console t (record t.console { color = color }))

  unfoldable pub putch : Tty → ℕ → Tty
  putch t c =
      if c == 0x0a
      then put_newline t
      else if c == 2
      then with_color t (generate_pixel_fg 0x24 0x2D 0xD8)
      else if c == 1
      then with_color t (generate_pixel_fg 0xFF 0xFF 0xFF)
      else if c == 3
      then with_color t (generate_pixel_fg 0xAF 0x11 0x16)
      else if c == 4
      then with_color t (generate_pixel_fg 0x25 0xCC 0x11)
      else if line_full t.console
      then put_plain t c
      else if c == 8
      then put_backspace t
      else if c == 9
      then scroll (put_spaces 4 t)
      else if c == 0x0d
      then scroll (with_console t (record t.console { column = 0; offset_x = 0 }))
      else put_plain t c

  -- `write`, and `printk`, which calls it with the length
  unfoldable pub printk : Tty → List ℕ → Tty
  printk t [] = t
  printk t (c ∷ s) = printk (putch t c) s
