-- ===== src/Console/Writes.antt =====
-- kernel/drivers/console/framebuffer/console.c: printing writes the framebuffer and nothing else.
use osakauss.Common.{
  ℕ, zero, suc, ◌+◌, ◌<◌, ◌≢◌, refl, inl, inr, Bool, true, false, ◌==◌, ==_iff, ==_ne, eq_cases,
  Bool-cases, if◌then◌else◌, List, [], ◌∷◌, arith,
}
use osakauss.Graphics.{FramebufferPixel, draw_alpha_bitmap, bitmap_pc, glyph_index}
use osakauss.Graphics.Cell.{draw_rows-around}
use osakauss.Console.Frame.{
  InFrame, Kept, Kept-refl, Kept-trans, Kept-InFrame, moved-Kept, scroll-Kept, cell_fits,
  Beyond-Outside, put_newline-Kept,
}
use osakauss.Console.Cursor.{put_newline-OnScreen, put_newline_room, line_room, step_back-OnScreen}
use osakauss.Console.Screen.{put_plain-OnScreen, putch-OnScreen}
use osakauss.Console.{
  Tty, putchat, scroll, put_newline, count_char, line_full, step_back, at_barrier, put_plain,
  put_backspace, put_spaces, with_color, putch, printk,
}

module _ (font : ℕ → ℕ → ℕ) where
  putchat-Kept :
      (t : Tty) (c : ℕ)
      → InFrame t
      → t.console.column + 16 < t.console.width
      → Kept t (putchat font t c)
  unfolding putchat bitmap_pc draw_alpha_bitmap
  putchat-Kept t c h room = record {
    framebuffer = refl;
    width = refl;
    height = refl;
    bytes = λ a out.
        draw_rows-around 8 t.framebuffer t.mem (font (glyph_index c)) 0 t.console.column
          t.console.row t.console.color (cell_fits t h room) a (Beyond-Outside t h room a out);
  }

  -- a character that is drawn and then counted
  drawn-Kept :
      (t : Tty) (c : ℕ)
      → InFrame t
      → t.console.column + 16 < t.console.width
      → Kept t (scroll (count_char (putchat font t c)))
  drawn-Kept t c h room =
      let drawn = putchat font t c in
      let k = putchat-Kept t c h room in
      Kept-trans t (count_char drawn) _
        (Kept-trans t drawn (count_char drawn) k (moved-Kept drawn _ refl refl))
        (scroll-Kept (count_char drawn) (rw k.height (omega (arith, h.on_screen.row_in)))
          (rw k.height h.on_screen.height_u16))

  put_plain-Kept : (t : Tty) (c : ℕ) → InFrame t → Kept t (put_plain font t c)
  unfolding put_plain
  put_plain-Kept t c h = elim (Bool-cases (line_full t.console)) [
    | inl full ↦ rw full (
        Kept-trans t (put_newline t) _ (put_newline-Kept t h) (
          drawn-Kept (put_newline t) c
            (Kept-InFrame t (put_newline t) (put_newline-Kept t h)
              (put_newline-OnScreen t h.on_screen) h)
            (put_newline_room t h.on_screen)))
    | inr free ↦ rw free (drawn-Kept t c h (line_room t.console h.on_screen free))
  ]

  erased-Kept :
      (t : Tty)
      → InFrame t
      → t.console.column ≢ 0
      → Kept t (scroll (step_back (put_plain font (step_back t) b' ')))
  erased-Kept t h inside =
      let back = step_back t in
      let k = moved-Kept t back.console refl refl in
      let h1 = Kept-InFrame t back k (step_back-OnScreen t h.on_screen inside) h in
      let blank = put_plain font back b' ' in
      let k1 = Kept-trans t back blank k (put_plain-Kept back b' ' h1) in
      let k2 = Kept-trans t blank (step_back blank) k1 (moved-Kept blank _ refl refl) in
      Kept-trans t (step_back blank) _ k2 (
        scroll-Kept (step_back blank) (rw k2.height (omega (arith, h.on_screen.row_in)))
          (rw k2.height h.on_screen.height_u16))

  scroll_end : (t t' : Tty) → InFrame t → Kept t t' → Kept t (scroll t')
  scroll_end t t' h k = Kept-trans t t' (scroll t') k (
      scroll-Kept t' (rw k.height (omega (arith, h.on_screen.row_in)))
        (rw k.height h.on_screen.height_u16))

  put_backspace-Kept : (t : Tty) → InFrame t → Kept t (put_backspace font t)
  unfolding put_backspace
  put_backspace-Kept t h = elim (eq_cases t.console.column 0) [
    | inl first ↦
        rw (put_backspace, (==_iff t.console.column 0).1 first) (scroll_end t t h (Kept-refl t))
    | inr inside ↦ elim (Bool-cases (at_barrier t.console)) [
      | inl stopped ↦
          rw (put_backspace, ==_ne t.console.column 0 inside, stopped)
            (scroll_end t t h (Kept-refl t))
      | inr allowed ↦
          rw (put_backspace, ==_ne t.console.column 0 inside, allowed) (erased-Kept t h inside)
    ]
  ]

  put_spaces-Kept : (n : ℕ) (t : Tty) → InFrame t → Kept t (put_spaces font n t)
  unfolding put_spaces
  put_spaces-Kept zero t h = Kept-refl t
  put_spaces-Kept (suc n) t h =
      let next = put_plain font t b' ' in
      let k = put_plain-Kept t b' ' h in
      let h' = Kept-InFrame t next k (put_plain-OnScreen font t b' ' h.on_screen) h in
      Kept-trans t next _ k (put_spaces-Kept n next h')

  if_Kept : (b : Bool) (t x y : Tty) → Kept t x → Kept t y → Kept t (if b then x else y)
  if_Kept true t x y k l = k
  if_Kept false t x y k l = l

  with_color-Kept :
      (t : Tty) (color : FramebufferPixel) → InFrame t → Kept t (with_color font t color)
  with_color-Kept t color h =
      scroll_end t _ h (moved-Kept t (record t.console { color = color }) refl refl)

  putch-Kept : (t : Tty) (c : ℕ) → InFrame t → Kept t (putch font t c)
  unfolding putch
  putch-Kept t c h = if_Kept (c == 0x0a) t _ _ (put_newline-Kept t h) (
      if_Kept (c == 2) t _ _ (with_color-Kept t _ h) (
        if_Kept (c == 1) t _ _ (with_color-Kept t _ h) (
          if_Kept (c == 3) t _ _ (with_color-Kept t _ h) (
            if_Kept (c == 4) t _ _ (with_color-Kept t _ h) (
              if_Kept (line_full t.console) t _ _ (put_plain-Kept t c h) (
                if_Kept (c == 8) t _ _ (put_backspace-Kept t h) (
                  if_Kept (c == 9) t _ _ (scroll_end t _ h (put_spaces-Kept 4 t h)) (
                    if_Kept (c == 0x0d) t _ _
                      (scroll_end t _ h
                        (moved-Kept t (record t.console { column = 0; offset_x = 0 }) refl refl))
                      (put_plain-Kept t c h)))))))))

  -- Text of any bytes, printed on a console whose cursor is on the screen, with a framebuffer of 32 bits per
  -- pixel that has room for the screen's lines: no byte of the memory outside of the framebuffer is
  -- changed, whatever is drawn, erased or scrolled.
  pub printk-Kept : (t : Tty) (s : List ℕ) → InFrame t → Kept t (printk font t s)
  unfolding printk
  printk-Kept t [] h = Kept-refl t
  printk-Kept t (c ∷ s) h =
      let next = putch font t c in
      let k = putch-Kept t c h in
      let h' = Kept-InFrame t next k (putch-OnScreen font t c h.on_screen) h in
      Kept-trans t next _ k (printk-Kept next s h')
