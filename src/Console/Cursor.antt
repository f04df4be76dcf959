-- ===== src/Console/Cursor.antt =====
-- kernel/drivers/console/framebuffer/console.c: where the cursor is.
use osakauss.Common.{
  ◌+◌, ◌-◌, ◌*◌, ◌^◌, ◌<◌, ◌≤◌, ◌≡◌, ◌≢◌, refl, inl, inr, false, leb, Bool-cases, arith,
}
use osakauss.Console.{
  Sconsole, Tty, add32, sub32, with_console, scroll, put_newline, line_full, step_back,
}

-- The cursor is at the cell `offset_x`, `offset_y` of a grid of cells of 9 by 9 pixels, more than 7 pixels
-- left of the right edge and more than 18 above the lower one.
pub record OnScreen (con : Sconsole) : Type 0 where
  pub column_at : con.column ≡ 9 * con.offset_x
  pub row_at : con.row ≡ 9 * con.offset_y
  pub column_in : con.column + 7 < con.width
  pub row_in : con.row + 18 < con.height
  pub wide : 16 < con.width
  pub width_u16 : con.width < 2 ^ 16
  pub height_u16 : con.height < 2 ^ 16

-- a cursor that a newline may have moved below the last line
pub record Advanced (con : Sconsole) : Type 0 where
  pub column_at : con.column ≡ 9 * con.offset_x
  pub row_at : con.row ≡ 9 * con.offset_y
  pub column_in : con.column + 7 < con.width
  pub row_in : con.row + 9 < con.height
  pub tall : 18 < con.height
  pub wide : 16 < con.width
  pub width_u16 : con.width < 2 ^ 16
  pub height_u16 : con.height < 2 ^ 16

pub advance : (con : Sconsole) → OnScreen con → Advanced con
advance con h = record {
  column_at = h.column_at;
  row_at = h.row_at;
  column_in = h.column_in;
  row_in = omega (arith, h.row_in);
  tall = omega (arith, h.row_in);
  wide = h.wide;
  width_u16 = h.width_u16;
  height_u16 = h.height_u16;
}

pub scroll-OnScreen : (t : Tty) → Advanced t.console → OnScreen (scroll t).console
unfolding scroll
scroll-OnScreen t h =
    let con = t.console in
    elim (Bool-cases (leb (sub32 con.height 18) con.row)) [
      | inl below ↦
          let last : con.height ≤ con.row + 18 = ground (arith, below, h.tall, h.height_u16) in
          let row : sub32 con.row 9 ≡ con.row - 9 =
            omega (arith, last, h.tall, h.row_in, h.height_u16) in
          let line : sub32 con.offset_y 1 ≡ con.offset_y - 1 =
            omega (arith, last, h.tall, h.row_at, h.row_in, h.height_u16) in
          rw (scroll, below)
            (record {
              column_at = h.column_at;
              row_at = omega (arith, row, line, h.row_at);
              column_in = h.column_in;
              row_in = omega (arith, row, h.row_in, h.tall, last);
              wide = h.wide;
              width_u16 = h.width_u16;
              height_u16 = h.height_u16;
            })
      | inr above ↦
          let first : con.row + 18 < con.height = ground (arith, above, h.tall, h.height_u16) in
          rw (scroll, above)
            (record {
              column_at = h.column_at;
              row_at = h.row_at;
              column_in = h.column_in;
              row_in = first;
              wide = h.wide;
              width_u16 = h.width_u16;
              height_u16 = h.height_u16;
            })
    ]

-- the first cell of the next line
pub put_newline-OnScreen : (t : Tty) → OnScreen t.console → OnScreen (put_newline t).console
unfolding put_newline
put_newline-OnScreen t h = scroll-OnScreen _ (record {
  column_at = refl;
  row_at = omega (arith, h.row_at, h.row_in, h.height_u16);
  column_in = omega (arith, h.wide);
  row_in = omega (arith, h.row_in, h.height_u16);
  tall = omega (arith, h.row_in);
  wide = h.wide;
  width_u16 = h.width_u16;
  height_u16 = h.height_u16;
})

pub scroll-column :
    (t : Tty)
    → ((scroll t).console.column ≡ t.console.column)
      × ((scroll t).console.width ≡ t.console.width)
      × ((scroll t).console.offset_x ≡ t.console.offset_x)
unfolding scroll
scroll-column t = elim (Bool-cases (leb (sub32 t.console.height 18) t.console.row)) [
  | inl below ↦ (rw (scroll, below) refl, rw (scroll, below) refl, rw (scroll, below) refl)
  | inr above ↦ (rw (scroll, above) refl, rw (scroll, above) refl, rw (scroll, above) refl)
]

pub put_newline_room :
    (t : Tty)
    → OnScreen t.console
    → (put_newline t).console.column + 16 < (put_newline t).console.width
unfolding put_newline
put_newline_room t h =
    let con = t.console in
    let moved : Tty = with_console t (record con {
      row = add32 con.row 9;
      offset_y = add32 con.offset_y 1;
      column = 0;
      offset_x = 0;
    }) in
    let kept = scroll-column moved in omega (arith, kept.0, kept.1, h.wide)

pub line_room :
    (con : Sconsole) → OnScreen con → line_full con ≡ false → con.column + 16 < con.width
line_room con h free = ground (arith, free, h.wide, h.width_u16)

pub step_back-OnScreen :
    (t : Tty) → OnScreen t.console → t.console.column ≢ 0 → OnScreen (step_back t).console
step_back-OnScreen t h inside =
    let at = h.column_at in
    let moved : 0 < t.console.offset_x = omega (arith, at, inside) in
    record {
      column_at = omega (arith, at, moved, h.column_in, h.width_u16);
      row_at = h.row_at;
      column_in = omega (arith, at, moved, h.column_in, h.width_u16);
      row_in = h.row_in;
      wide = h.wide;
      width_u16 = h.width_u16;
      height_u16 = h.height_u16;
    }

pub step_back-column :
    (t : Tty)
    → OnScreen t.console
    → t.console.column ≢ 0
    → (step_back t).console.column + 9 ≡ t.console.column
step_back-column t h inside = omega (arith, h.column_at, inside, h.column_in, h.width_u16)
