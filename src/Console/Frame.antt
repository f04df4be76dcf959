-- ===== src/Console/Frame.antt =====
-- kernel/drivers/console/framebuffer/console.c: which memory the console writes.
use native.Mathlib.Nat.{mul-le-mul_right}
use osakauss.Common.{
  ℕ, ◌+◌, ◌-◌, ◌*◌, ◌/◌, ◌%◌, ◌^◌, ◌<◌, ◌≤◌, ◌≡◌, refl, ap, ◌∙◌, ◌⊎◌, inl, inr, false, leb,
  Bool-cases, arith,
}
use osakauss.Klibc.Mem.Laws.{in_range, memcpy_outside}
use osakauss.Graphics.{bitmap_size}
use osakauss.Graphics.Cell.{CellFits, Outside}
use osakauss.Console.Cursor.{OnScreen}
use osakauss.Console.{Sconsole, Tty, add32, sub32, with_console, scroll, put_newline}

-- The framebuffer has 32 bits per pixel, its lines hold the pixels of a line of the console, and it ends
-- within 4 GiB from its start.
pub record InFrame (t : Tty) : Type 0 where
  pub on_screen : OnScreen t.console
  pub bpp : t.framebuffer.bpp ≡ 32
  pub lines : 4 * t.console.width ≤ t.framebuffer.pitch
  pub small : t.console.height * t.framebuffer.pitch ≤ 2 ^ 32

-- Is an address outside of the lines of the framebuffer?
abbrev pub Beyond : Tty → ℕ → Type 0
Beyond t a =
    (a < t.framebuffer.buffer) ⊎ (t.framebuffer.buffer + t.console.height * t.framebuffer.pitch ≤ a)

-- Nothing outside of the framebuffer changes, nor where it is.
pub record Kept (t t' : Tty) : Type 0 where
  pub framebuffer : t'.framebuffer ≡ t.framebuffer
  pub width : t'.console.width ≡ t.console.width
  pub height : t'.console.height ≡ t.console.height
  pub bytes : (a : ℕ) → Beyond t a → t'.mem a ≡ t.mem a

pub Kept-refl : (t : Tty) → Kept t t
Kept-refl t = record { framebuffer = refl; width = refl; height = refl; bytes = λ a out. refl }

pub Kept-trans : (t t1 t2 : Tty) → Kept t t1 → Kept t1 t2 → Kept t t2
Kept-trans t t1 t2 k l = record {
  framebuffer = l.framebuffer ∙ k.framebuffer;
  width = l.width ∙ k.width;
  height = l.height ∙ k.height;
  bytes = λ a out. l.bytes a (rw (k.framebuffer, k.height) out) ∙ k.bytes a out;
}

pub Kept-InFrame : (t t' : Tty) → Kept t t' → OnScreen t'.console → InFrame t → InFrame t'
Kept-InFrame t t' k on_screen h = record {
  on_screen = on_screen;
  bpp = rw k.framebuffer h.bpp;
  lines = rw (k.framebuffer, k.width) h.lines;
  small = rw (k.framebuffer, k.height) h.small;
}

-- a new console on the same framebuffer
pub moved-Kept :
    (t : Tty) (con : Sconsole)
    → con.width ≡ t.console.width
    → con.height ≡ t.console.height
    → Kept t (with_console t con)
moved-Kept t con width height = record {
  framebuffer = refl;
  width = width;
  height = height;
  bytes = λ a out. refl;
}

not_moved :
    (buffer amount size a : ℕ)
    → amount ≤ size
    → (a < buffer) ⊎ (buffer + size ≤ a)
    → in_range buffer amount a ≡ false
not_moved buffer amount size a le (inl before) = ground arith
not_moved buffer amount size a le (inr behind) = ground arith

nine_more : (p k : ℕ) → (k + 9) * p ≡ p * k + 9 * p
nine_more p k = grind arith

moved_bytes :
    (pitch height : ℕ)
    → 9 ≤ height
    → height < 2 ^ 16
    → pitch * sub32 height 9 % 2 ^ 32 ≤ height * pitch
moved_bytes pitch height nine u16 =
    let lines : sub32 height 9 ≡ height - 9 = omega arith in
    let whole : height ≡ height - 9 + 9 = omega (arith, nine) in
    let split : height * pitch ≡ pitch * (height - 9) + 9 * pitch =
      ap (λ h. h * pitch) whole ∙ nine_more pitch (height - 9) in
    rw lines (omega (arith, split))

pub scroll-Kept : (t : Tty) → 18 < t.console.height → t.console.height < 2 ^ 16 → Kept t (scroll t)
unfolding scroll
scroll-Kept t tall u16 =
    let con = t.console in
    let fb = t.framebuffer in
    let from = fb.buffer + 4 * (fb.pitch / 4) * (bitmap_size + 1) in
    let amount = fb.pitch * sub32 con.height (bitmap_size + 1) % 2 ^ 32 in
    let le : amount ≤ con.height * fb.pitch = moved_bytes fb.pitch con.height (omega arith) u16 in
    elim (Bool-cases (leb (sub32 con.height 18) con.row)) [
      | inr above ↦ rw (scroll, above) (Kept-refl t)
      | inl below ↦
          rw (scroll, below)
            (record {
              framebuffer = refl;
              width = refl;
              height = refl;
              bytes = λ a out.
                  memcpy_outside t.mem fb.buffer from amount a (omega arith)
                    (not_moved fb.buffer amount (con.height * fb.pitch) a le out);
            })
    ]

-- the cell of the next character
pub cell_fits :
    (t : Tty)
    → InFrame t
    → t.console.column + 16 < t.console.width
    → CellFits t.framebuffer t.console.column t.console.row 8
cell_fits t h room =
    let con = t.console in
    let p = t.framebuffer.pitch in
    let screen = h.on_screen in
    let lower : (con.row + 8) * p ≤ con.height * p =
      mul-le-mul_right p (omega (arith, screen.row_in)) in
    (
      h.bpp,
      omega (arith, room, screen.width_u16),
      omega (arith, screen.row_in, screen.height_u16),
      omega (arith, room, h.lines),
      omega (arith, lower, h.small),
    )

-- A byte beyond the framebuffer is in no row of a cell on the screen.
pub Beyond-Outside :
    (t : Tty)
    → InFrame t
    → t.console.column + 16 < t.console.width
    → (a : ℕ) → Beyond t a
    → (j : ℕ) → j < 8
    → Outside t.framebuffer t.console.column (t.console.row + j) a
Beyond-Outside t h room a (inl before) j lt = inl (omega (arith, before))
Beyond-Outside t h room a (inr behind) j lt =
    let row = t.console.row + j in
    let p = t.framebuffer.pitch in
    let line : row * p + p ≡ (row + 1) * p = grind arith in
    let lower : (row + 1) * p ≤ t.console.height * p =
      mul-le-mul_right p (omega (arith, lt, h.on_screen.row_in)) in
    inr (omega (arith, behind, line, lower, h.lines, room))

pub put_newline-Kept : (t : Tty) → InFrame t → Kept t (put_newline t)
unfolding put_newline
put_newline-Kept t h =
    let con = t.console in
    let moved : Tty = with_console t (record con {
      row = add32 con.row (bitmap_size + 1);
      offset_y = add32 con.offset_y 1;
      column = 0;
      offset_x = 0;
    }) in
    Kept-trans t moved _ (moved-Kept t _ refl refl)
      (scroll-Kept moved (omega (arith, h.on_screen.row_in)) h.on_screen.height_u16)
