-- ===== src/Input/Line.antt =====
-- `input_readln` of kernel/input.c: the line that is typed, with its backspaces carried out.
use osakauss.Common.{
  ℕ, zero, suc, ◌+◌, ◌-◌, ◌≤◌, ◌<◌, ◌≡◌, refl, sym, ap, ◌∙◌, ◌≢◌, inl, inr, true, ◌||◌, List, [],
  ◌∷◌, some, ◌==◌, ==_ne, ==_refl, eq_cases, if◌then◌else◌, arith, length,
}
use osakauss.Klibc.Mem.{Memory, Ptr, store}
use osakauss.Input.{
  KeyBuffer, read_key_buffer, input_readln_loop, InputState, input_readln, set_barriers,
  rem_barriers,
}

-- Successive blocking reads give the characters of the list, and leave the ring and the interrupts.
pub data Reads : List ℕ → KeyBuffer → List ℕ → KeyBuffer → List ℕ → Type 0 where
  done : {kb : KeyBuffer} {typed : List ℕ} → Reads [] kb typed kb typed
  read :
      {c : ℕ} {cs : List ℕ} {kb kb' kb'' : KeyBuffer} {typed typed' typed'' : List ℕ}
      → read_key_buffer true kb typed ≡ some (c, kb', typed')
      → Reads cs kb' typed' kb'' typed''
      → Reads (c ∷ cs) kb typed kb'' typed''

-- The line, its last character first, after the characters of a list have been typed.
unfoldable pub edited : List ℕ → List ℕ → List ℕ
edited line [] = line
edited [] (c ∷ cs) = if c == 8 then edited [] cs else edited (c ∷ []) cs
edited (d ∷ line) (c ∷ cs) = if c == 8 then edited line cs else edited (c ∷ d ∷ line) cs

-- At `p` stands the line, whose last character comes first.
abbrev pub Holds : Memory → Ptr → List ℕ → Type 0
Holds m p [] = Unit {0}
Holds m p (c ∷ line) = (m (p + length line) ≡ c) × Holds m p line

-- neither NUL nor a newline
abbrev pub Typable : List ℕ → Type 0
Typable [] = Unit {0}
Typable (c ∷ cs) = (c ≢ 0) × (c ≢ 0x0a) × Typable cs

Holds-store_behind :
    (m : Memory) (p v : ℕ) (n : ℕ) (line : List ℕ)
    → length line ≤ n
    → Holds m p line
    → Holds (store m (p + n) v) p line
Holds-store_behind m p v n [] le h = tt
Holds-store_behind m p v n (c ∷ line) le h = (
  rw (==_ne (p + n) (p + length line) (omega arith)) h.0,
  Holds-store_behind m p v n line (omega arith) h.1,
)

-- what the loop leaves
abbrev Finished :
    ℕ → KeyBuffer → List ℕ → Memory → Ptr → List ℕ → List ℕ → KeyBuffer → List ℕ → Type 0
Finished fuel kb typed m p line result kb' typed' =
    (m' : Memory) × (input_readln_loop fuel kb typed m (p + length line) (length line)
      ≡ some (record { char_read = length result; mem = m'; keys = kb'; typed = typed' }))
    × Holds m' p result

-- one round of the loop, by the character that it reads
readln-newline :
    (fuel : ℕ) (kb kb' : KeyBuffer) (typed typed' : List ℕ) (m : Memory) (buf n : ℕ)
    → read_key_buffer true kb typed ≡ some (0x0a, kb', typed')
    → input_readln_loop (suc fuel) kb typed m buf n
      ≡ some (record { char_read = n; mem = m; keys = kb'; typed = typed' })
unfolding input_readln_loop
readln-newline fuel kb kb' typed typed' m buf n e = rw (input_readln_loop, e) refl

readln-stored :
    (fuel : ℕ) (kb kb' : KeyBuffer) (typed typed' : List ℕ) (m : Memory) (buf n c : ℕ)
    → read_key_buffer true kb typed ≡ some (c, kb', typed')
    → c ≢ 0
    → c ≢ 8
    → c ≢ 0x0a
    → input_readln_loop (suc fuel) kb typed m buf n
      ≡ input_readln_loop fuel kb' typed' (store m buf c) (buf + 1) (n + 1)
unfolding input_readln_loop
readln-stored fuel kb kb' typed typed' m buf n c e z b l =
    rw (input_readln_loop, e, ==_ne c 0 z, ==_ne c 8 b, ==_ne c 0x0a l) refl

readln-ignored :
    (fuel : ℕ) (kb kb' : KeyBuffer) (typed typed' : List ℕ) (m : Memory) (buf : ℕ)
    → read_key_buffer true kb typed ≡ some (8, kb', typed')
    → input_readln_loop (suc fuel) kb typed m buf 0 ≡ input_readln_loop fuel kb' typed' m buf 0
unfolding input_readln_loop
readln-ignored fuel kb kb' typed typed' m buf e = rw (input_readln_loop, e) refl

readln-erased :
    (fuel : ℕ) (kb kb' : KeyBuffer) (typed typed' : List ℕ) (m : Memory) (buf n : ℕ)
    → read_key_buffer true kb typed ≡ some (8, kb', typed')
    → n ≢ 0
    → input_readln_loop (suc fuel) kb typed m buf n
      ≡ input_readln_loop fuel kb' typed' (store m buf 0) (buf - 1) (n - 1)
unfolding input_readln_loop
readln-erased fuel kb kb' typed typed' m buf n e ne = rw (input_readln_loop, e, ==_ne n 0 ne) refl

edited-end : (line : List ℕ) → edited line [] ≡ line
unfolding edited
edited-end [] = refl
edited-end (d ∷ line) = refl

edited-step : (line cs : List ℕ) (c : ℕ) → c ≢ 8 → edited line (c ∷ cs) ≡ edited (c ∷ line) cs
unfolding edited
edited-step [] cs c ne = rw (==_ne c 8 ne) refl
edited-step (d ∷ line) cs c ne = rw (==_ne c 8 ne) refl

edited-back : (d : ℕ) (line cs : List ℕ) → edited (d ∷ line) (8 ∷ cs) ≡ edited line cs
unfolding edited
edited-back d line cs = refl

edited-start : (cs : List ℕ) → edited [] (8 ∷ cs) ≡ edited [] cs
unfolding edited
edited-start cs = refl

Finished-stored :
    (fuel : ℕ) (line result : List ℕ) (c : ℕ) (kb kb' kb'' : KeyBuffer)
    (typed typed' typed'' : List ℕ) (m : Memory) (p : Ptr)
    → read_key_buffer true kb typed ≡ some (c, kb', typed')
    → c ≢ 0
    → c ≢ 8
    → c ≢ 0x0a
    → Finished fuel kb' typed' (store m (p + length line) c) p (c ∷ line) result kb'' typed''
    → Finished (suc fuel) kb typed m p line result kb'' typed''
Finished-stored fuel line result c kb kb' kb'' typed typed' typed'' m p e z b l (m', run, holds) =
    let next : p + length line + 1 ≡ p + suc (length line) = omega arith in
    let grown : length line + 1 ≡ suc (length line) = omega arith in
    (
      m',
      readln-stored fuel kb kb' typed typed' m (p + length line) (length line) c e z b l
          ∙ ap
              (λ a.
                input_readln_loop fuel kb' typed' (store m (p + length line) c) a (length line + 1))
              next
          ∙ ap
              (input_readln_loop fuel kb' typed' (store m (p + length line) c)
                (p + suc (length line)))
              grown
          ∙ run,
      holds,
    )

Finished-erased :
    (fuel : ℕ) (line result : List ℕ) (d : ℕ) (kb kb' kb'' : KeyBuffer)
    (typed typed' typed'' : List ℕ) (m : Memory) (p : Ptr)
    → read_key_buffer true kb typed ≡ some (8, kb', typed')
    → Finished fuel kb' typed' (store m (p + suc (length line)) 0) p line result kb'' typed''
    → Finished (suc fuel) kb typed m p (d ∷ line) result kb'' typed''
Finished-erased fuel line result d kb kb' kb'' typed typed' typed'' m p e (m', run, holds) =
    let last : p + suc (length line) - 1 ≡ p + length line = omega arith in
    let shrunk : suc (length line) - 1 ≡ length line = omega arith in
    let cleared = store m (p + suc (length line)) 0 in
    (
      m',
      readln-erased fuel kb kb' typed typed' m (p + suc (length line)) (suc (length line)) e
            (omega arith)
          ∙ ap (λ a. input_readln_loop fuel kb' typed' cleared a (suc (length line) - 1)) last
          ∙ ap (input_readln_loop fuel kb' typed' cleared (p + length line)) shrunk
          ∙ run,
      holds,
    )

-- After a line's last character has been erased, or where there was none, the rest is read on.
readln-backspace :
    (fuel : ℕ) (cs line : List ℕ) (kb kb' kb'' : KeyBuffer) (typed typed' typed'' : List ℕ)
    (m : Memory) (p : Ptr)
    → read_key_buffer true kb typed ≡ some (8, kb', typed')
    → Holds m p line
    → ((m' : Memory) (line' : List ℕ)
        → Holds m' p line'
        → Finished fuel kb' typed' m' p line' (edited line' cs) kb'' typed'')
    → Finished (suc fuel) kb typed m p line (edited line (8 ∷ cs)) kb'' typed''
readln-backspace fuel cs [] kb kb' kb'' typed typed' typed'' m p e h after =
    let (m', run, holds) = after m [] h in
    (
      m',
      readln-ignored fuel kb kb' typed typed' m (p + 0) e
          ∙ run
          ∙ ap (λ l. some (record { char_read = length l; mem = m'; keys = kb''; typed = typed'' }))
              (sym (edited-start cs)),
      rw (edited-start cs) holds,
    )
readln-backspace fuel cs (d ∷ line) kb kb' kb'' typed typed' typed'' m p e h after =
    rw (edited-back d line cs) (
      Finished-erased fuel line (edited line cs) d kb kb' kb'' typed typed' typed'' m p e (
        after (store m (p + suc (length line)) 0) line
          (Holds-store_behind m p 0 (suc (length line)) line (omega arith) h.1)))

readln-Finished :
    (fuel : ℕ) (cs line : List ℕ) {kb kb' kb'' : KeyBuffer} {typed typed' typed'' : List ℕ}
    (m : Memory) (p : Ptr)
    → Reads cs kb typed kb' typed'
    → Typable cs
    → read_key_buffer true kb' typed' ≡ some (0x0a, kb'', typed'')
    → length cs < fuel
    → Holds m p line
    → Finished fuel kb typed m p line (edited line cs) kb'' typed''
readln-Finished zero cs line m p r typable last enough h = absurd (omega arith)
readln-Finished (suc fuel) [] line m p done typable last enough h =
    rw (edited-end line) (m, readln-newline fuel _ _ _ _ m (p + length line) (length line) last, h)
readln-Finished (suc fuel) (c ∷ cs) line {kb} {kb'} {kb''} {typed} {typed'} {typed''} m p
      (read {kb' = kb1} {typed' = typed1} e r) typable last enough h =
    elim (eq_cases c 8) [
      | inl back ↦ rw back (
          readln-backspace fuel cs line kb kb1 kb'' typed typed1 typed'' m p (rw back at e) h
            (λ m' line' h'. readln-Finished fuel cs line' m' p r typable.2 last (omega arith) h'))
      | inr other ↦
          let h' : Holds (store m (p + length line) c) p (c ∷ line) = (
            rw (==_refl (p + length line)) refl,
            Holds-store_behind m p c (length line) line (omega arith) h,
          ) in
          rw (edited-step line cs c other) (
            Finished-stored fuel line (edited (c ∷ line) cs) c kb kb1 kb'' typed typed1 typed'' m p
              e typable.0 other typable.1
              (readln-Finished fuel cs (c ∷ line) (store m (p + length line) c) p r typable.2 last
                (omega arith) h'))
    ]

-- Where blocking reads give characters without NUL and newline, and then a newline, `input_readln`,
-- with a keyboard or a serial port to read from, returns: the count is the length of the line with
-- its backspaces carried out, the line stands at `buf`, and both barriers are removed.
pub input_readln-edited :
    (fuel : ℕ) (cs : List ℕ) (s : InputState) {kb' kb'' : KeyBuffer} {typed typed' typed'' : List ℕ}
    (m : Memory) (buf : Ptr)
    → (s.keyboard_satisfied || s.serial_satisfied) ≡ true
    → Reads cs s.keys typed kb' typed'
    → Typable cs
    → read_key_buffer true kb' typed' ≡ some (0x0a, kb'', typed'')
    → length cs < fuel
    → (m' : Memory) × (input_readln fuel s typed m buf
        ≡ some (
          length (edited [] cs),
          m',
          rem_barriers (record (set_barriers s) { keys = kb'' }),
          typed'',
        ))
      × Holds m' buf (edited [] cs)
unfolding input_readln
input_readln-edited fuel cs s m buf on r typable last enough =
    let (m', run, holds) = readln-Finished fuel cs [] m buf r typable last enough tt in
    let start : buf + 0 ≡ buf = omega arith in
    (m', rw (input_readln, on, rw start at run) refl, holds)
