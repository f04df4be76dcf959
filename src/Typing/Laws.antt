-- ===== src/Typing/Laws.antt =====
-- What keyboard_handler of kernel/drivers/kb/kb.c puts into the ring.
use osakauss.Common.{
  ℕ, ◌<◌, ◌≡◌, refl, ◌∙◌, ◌≢◌, Bool, true, false, [], ◌∷◌, ◌++◌, some, leb, ==_ne, arith, length,
}
use osakauss.Input.Ring.{IsValid, queued, queued-append}
use osakauss.Console.{putch}
use osakauss.Typing.{Skeyboard, handle_scan_code, shifted, keyboard_handler, type_key}

shifted_ne : (capslock : Bool) (c d : ℕ) → c ≢ d → d < 65 → shifted capslock c ≢ d
shifted_ne true c d ne small h = absurd (ground arith)
shifted_ne false c d ne small h = absurd (ne h)

-- The tests of the handler lead to the last branch.
keyboard_handler-type_key :
    (font : ℕ → ℕ → ℕ) (k : Skeyboard) (scancode : ℕ)
    → scancode < 0x80
    → 3 < handle_scan_code scancode
    → keyboard_handler font k scancode
      ≡ type_key font k (shifted k.capslock (handle_scan_code scancode))
unfolding keyboard_handler
keyboard_handler-type_key font k scancode press plain =
    let c = handle_scan_code scancode in
    let pressed : leb 0x80 scancode ≡ false = ground arith in
    rw
      (
        keyboard_handler,
        pressed,
        ==_ne c 2 (omega arith),
        ==_ne c 1 (omega arith),
        ==_ne c 3 (omega arith),
        ==_ne c 0 (omega arith),
      )
      refl

-- A key is pressed whose character is none of 0 to 3 and no backspace, and the ring is not full: the
-- handler returns, the character, a capital if the capslock is on, goes to the end of the queue, and
-- the capslock is as it was.
pub keyboard_handler-queued :
    (font : ℕ → ℕ → ℕ) (k : Skeyboard) (scancode : ℕ)
    → scancode < 0x80
    → 3 < handle_scan_code scancode
    → handle_scan_code scancode ≢ 8
    → IsValid k.keys
    → length (queued k.keys) < 1999
    → (k' : Skeyboard) × (keyboard_handler font k scancode ≡ some k')
      × IsValid k'.keys
      × (queued k'.keys ≡ queued k.keys ++ (shifted k.capslock (handle_scan_code scancode) ∷ []))
      × (k'.capslock ≡ k.capslock)
unfolding keyboard_handler
keyboard_handler-queued font k scancode press plain key valid room =
    let c = handle_scan_code scancode in
    let out = shifted k.capslock c in
    let nonzero : out ≢ 0 = shifted_ne k.capslock c 0 (omega arith) (omega arith) in
    let no_back : out ≢ 8 = shifted_ne k.capslock c 8 key (omega arith) in
    let (keys, run, valid', q) = queued-append k.keys out valid nonzero no_back room in
    (
      record k { tty = putch font k.tty out; keys = keys },
      keyboard_handler-type_key font k scancode press plain ∙ rw (type_key, run) refl,
      valid',
      q,
      refl,
    )
