-- ===== src/Console/Screen.antt =====
-- kernel/drivers/console/framebuffer/console.c: the cursor stays on the screen.
use osakauss.Common.{
  ℕ, zero, suc, ◌+◌, ◌^◌, ◌<◌, ◌≡◌, ◌≢◌, refl, ◌∙◌, ◌⊎◌, inl, inr, Bool, true, false, ◌==◌,
  Bool-cases, eq_cases, ==_iff, ==_ne, if◌then◌else◌, List, [], ◌∷◌, arith,
}
use osakauss.Console.Cursor.{
  OnScreen, advance, scroll-OnScreen, put_newline-OnScreen, scroll-column, put_newline_room,
  line_room, step_back-OnScreen, step_back-column,
}
use osakauss.Graphics.{FramebufferPixel}
use osakauss.Console.{
  Tty, with_console, putchat, scroll, put_newline, count_char, line_full, step_back, at_barrier,
  put_plain, put_backspace, put_spaces, with_color, putch, printk, console_require,
}

if_OnScreen :
    (b : Bool) (x y : Tty)
    → (b ≡ true → OnScreen x.console)
    → (b ≡ false → OnScreen y.console)
    → OnScreen (if b then x else y).console
if_OnScreen true x y f g = f refl
if_OnScreen false x y f g = g refl

module _ (font : ℕ → ℕ → ℕ) where
  -- a character that is drawn where it ends left of the right edge
  drawn-OnScreen :
      (t : Tty) (c : ℕ)
      → OnScreen t.console
      → t.console.column + 16 < t.console.width
      → OnScreen (scroll (count_char (putchat font t c))).console
  unfolding putchat
  drawn-OnScreen t c h room = scroll-OnScreen _ (record {
    column_at = omega (arith, h.column_at, h.column_in, h.width_u16);
    row_at = h.row_at;
    column_in = omega (arith, room, h.width_u16);
    row_in = omega (arith, h.row_in);
    tall = omega (arith, h.row_in);
    wide = h.wide;
    width_u16 = h.width_u16;
    height_u16 = h.height_u16;
  })

  pub put_plain-OnScreen :
      (t : Tty) (c : ℕ) → OnScreen t.console → OnScreen (put_plain font t c).console
  unfolding put_plain
  put_plain-OnScreen t c h = elim (Bool-cases (line_full t.console)) [
    | inl full ↦
        rw full (drawn-OnScreen (put_newline t) c (put_newline-OnScreen t h) (put_newline_room t h))
    | inr free ↦ rw free (drawn-OnScreen t c h (line_room t.console h free))
  ]

  put_plain-column :
      (t : Tty) (c : ℕ)
      → OnScreen t.console
      → line_full t.console ≡ false
      → (put_plain font t c).console.column ≡ t.console.column + 9
  unfolding put_plain putchat
  put_plain-column t c h free =
      let kept = scroll-column (count_char (putchat font t c)) in
      rw free (kept.0 ∙ omega (arith, h.column_in, h.width_u16))

  -- a step to the left, a space, and a step to the left
  erased-OnScreen :
      (t : Tty)
      → OnScreen t.console
      → line_full t.console ≡ false
      → t.console.column ≢ 0
      → OnScreen (scroll (step_back (put_plain font (step_back t) b' '))).console
  erased-OnScreen t h free inside =
      let back = step_back t in
      let h1 = step_back-OnScreen t h inside in
      let left = step_back-column t h inside in
      let room = line_room t.console h free in
      let free1 : line_full back.console ≡ false = ground (arith, left, room, h.width_u16) in
      let blank = put_plain font back b' ' in
      let h2 = put_plain-OnScreen back b' ' h1 in
      let right = put_plain-column back b' ' h1 free1 in
      let inside2 : blank.console.column ≢ 0 = λ e. absurd (omega (arith, right, e)) in
      scroll-OnScreen (step_back blank)
        (advance (step_back blank).console (step_back-OnScreen blank h2 inside2))

  put_backspace-OnScreen :
      (t : Tty)
      → OnScreen t.console
      → line_full t.console ≡ false
      → OnScreen (put_backspace font t).console
  unfolding put_backspace
  put_backspace-OnScreen t h free = elim (eq_cases t.console.column 0) [
    | inl first ↦
        rw (put_backspace, (==_iff t.console.column 0).1 first)
          (scroll-OnScreen t (advance t.console h))
    | inr inside ↦ elim (Bool-cases (at_barrier t.console)) [
      | inl stopped ↦
          rw (put_backspace, ==_ne t.console.column 0 inside, stopped)
            (scroll-OnScreen t (advance t.console h))
      | inr allowed ↦
          rw (put_backspace, ==_ne t.console.column 0 inside, allowed)
            (erased-OnScreen t h free inside)
    ]
  ]

  put_spaces-OnScreen :
      (n : ℕ) (t : Tty) → OnScreen t.console → OnScreen (put_spaces font n t).console
  unfolding put_spaces
  put_spaces-OnScreen zero t h = h
  put_spaces-OnScreen (suc n) t h =
      put_spaces-OnScreen n (put_plain font t b' ') (put_plain-OnScreen t b' ' h)

  with_color-OnScreen :
      (t : Tty) (color : FramebufferPixel)
      → OnScreen t.console
      → OnScreen (with_color font t color).console
  with_color-OnScreen t color h =
      scroll-OnScreen (with_console t (record t.console { color = color })) (
        advance (record t.console { color = color })
          (record {
            column_at = h.column_at;
            row_at = h.row_at;
            column_in = h.column_in;
            row_in = h.row_in;
            wide = h.wide;
            width_u16 = h.width_u16;
            height_u16 = h.height_u16;
          }))

  start_line-OnScreen :
      (t : Tty)
      → OnScreen t.console
      → OnScreen (scroll (with_console t (record t.console { column = 0; offset_x = 0 }))).console
  start_line-OnScreen t h = scroll-OnScreen _ (record {
    column_at = refl;
    row_at = h.row_at;
    column_in = omega (arith, h.wide);
    row_in = omega (arith, h.row_in);
    tall = omega (arith, h.row_in);
    wide = h.wide;
    width_u16 = h.width_u16;
    height_u16 = h.height_u16;
  })

  put_tab-OnScreen :
      (t : Tty) → OnScreen t.console → OnScreen (scroll (put_spaces font 4 t)).console
  put_tab-OnScreen t h = scroll-OnScreen _ (advance _ (put_spaces-OnScreen 4 t h))

  pub putch-OnScreen : (t : Tty) (c : ℕ) → OnScreen t.console → OnScreen (putch font t c).console
  unfolding putch
  putch-OnScreen t c h =
      if_OnScreen (c == 0x0a) _ _ (λ e. put_newline-OnScreen t h)
        (λ e.
          if_OnScreen (c == 2) _ _ (λ e. with_color-OnScreen t _ h)
            (λ e.
              if_OnScreen (c == 1) _ _ (λ e. with_color-OnScreen t _ h)
                (λ e.
                  if_OnScreen (c == 3) _ _ (λ e. with_color-OnScreen t _ h)
                    (λ e.
                      if_OnScreen (c == 4) _ _ (λ e. with_color-OnScreen t _ h)
                        (λ e.
                          if_OnScreen (line_full t.console) _ _ (λ e. put_plain-OnScreen t c h)
                            (λ free.
                              if_OnScreen (c == 8) _ _ (λ e. put_backspace-OnScreen t h free)
                                (λ e.
                                  if_OnScreen (c == 9) _ _ (λ e. put_tab-OnScreen t h)
                                    (λ e.
                                      if_OnScreen (c == 0x0d) _ _ (λ e. start_line-OnScreen t h)
                                        (λ e. put_plain-OnScreen t c h)))))))))

  printed-OnScreen :
      (t : Tty) (s : List ℕ) → OnScreen t.console → OnScreen (printk font t s).console
  unfolding printk
  printed-OnScreen t [] h = h
  printed-OnScreen t (c ∷ s) h = printed-OnScreen (putch font t c) s (putch-OnScreen t c h)

  -- Text of any bytes, control characters and backspaces included, keeps the cursor at a cell of the grid on
  -- the screen. The next character either goes to a new line first, or is drawn with all of its
  -- columns left of the right edge; and its rows are above the lower edge.
  pub printk-OnScreen :
      (t : Tty) (s : List ℕ)
      → OnScreen t.console
      → OnScreen (printk font t s).console
        × ((line_full (printk font t s).console ≡ true)
            ⊎ ((printk font t s).console.column + 8 < (printk font t s).console.width))
        × ((printk font t s).console.row + 8 < (printk font t s).console.height)
  printk-OnScreen t s h =
      let con = (printk font t s).console in
      let h' = printed-OnScreen t s h in
      let place : (line_full con ≡ true) ⊎ (con.column + 8 < con.width) =
        elim (Bool-cases (line_full con)) [
          | inl full ↦ inl full
          | inr free ↦ inr (omega (arith, line_room con h' free))
        ] in
      (h', place, omega (arith, h'.row_in))

-- The cursor is on the screen when the console has started, on a framebuffer of more than 16 by 18 pixels.
pub console_require-OnScreen :
    (t : Tty)
    → t.console.offset_x ≡ 0
    → t.console.offset_y ≡ 0
    → 16 < t.framebuffer.width
    → 18 < t.framebuffer.height
    → t.framebuffer.width < 2 ^ 16
    → t.framebuffer.height < 2 ^ 16
    → OnScreen (console_require t).console
unfolding console_require
console_require-OnScreen t x y wide tall w h = record {
  column_at = omega arith;
  row_at = omega arith;
  column_in = omega arith;
  row_in = omega arith;
  wide = wide;
  width_u16 = w;
  height_u16 = h;
}
