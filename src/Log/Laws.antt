-- ===== src/Log/Laws.antt =====
-- kernel/log.c: what reaches the two outputs.
use osakauss.Common.{
  ℕ, ◌≡◌, refl, sym, ap, ◌∙◌, ◌⊎◌, inl, inr, Bool, true, false, List, [], ◌∷◌, Option, none, some,
  ◌==◌, if◌then◌else◌, Bool-cases, Option-cases,
}
use osakauss.Format.{Arg, formatv}
use osakauss.Console.{Tty, putch, printk, console_require}
use osakauss.Serial.{SserialConsole, serial_writeb, serial_print, require_serial}
use osakauss.Log.{
  LoggingOutput, log_serial, log_console, log_both, Log, require_log, require_log_serial,
  require_log_console, logfc, log_bytes, logf,
}

-- The log with a new console and a new serial port, when there is one.
abbrev pub join : Log → Tty → Option SserialConsole → Option Log
join l tty none = none
join l tty (some serial) = some (record l { tty = tty; serial = serial })

-- what the two outputs are after the bytes `out`, each on its own
abbrev pub on_console : (ℕ → ℕ → ℕ) → Log → List ℕ → Tty
on_console font l out = if l.console_on then printk font l.tty out else l.tty

abbrev pub on_serial : Log → List ℕ → Option SserialConsole
on_serial l out = if l.serial_on then serial_print l.serial out else some l.serial

module _ (font : ℕ → ℕ → ℕ) where
  log_bytes-join :
      (serial_on console_on : Bool) (tty : Tty) (serial : SserialConsole) (out : List ℕ)
      → let l : Log = record {
        serial_on = serial_on;
        console_on = console_on;
        tty = tty;
        serial = serial;
      } in
        log_bytes font l out ≡ join l (on_console font l out) (on_serial l out)
  unfolding log_bytes logfc printk serial_print
  log_bytes-join false false tty serial [] = refl
  log_bytes-join false true tty serial [] = refl
  log_bytes-join true false tty serial [] = refl
  log_bytes-join true true tty serial [] = refl
  log_bytes-join false false tty serial (c ∷ out) = log_bytes-join false false tty serial out
  log_bytes-join false true tty serial (c ∷ out) =
      log_bytes-join false true (putch font tty c) serial out
  log_bytes-join true false tty serial (c ∷ out) = elim (Option-cases (serial_writeb serial c)) [
    | inl waits ↦ rw (log_bytes, serial_print, waits) refl
    | inr (serial', sent) ↦
        rw (log_bytes, serial_print, sent) (log_bytes-join true false tty serial' out)
  ]
  log_bytes-join true true tty serial (c ∷ out) = elim (Option-cases (serial_writeb serial c)) [
    | inl waits ↦ rw (log_bytes, serial_print, waits) refl
    | inr (serial', sent) ↦
        rw (log_bytes, serial_print, sent) (log_bytes-join true true (putch font tty c) serial' out)
  ]

  -- `logf` passes each byte to the console and then to the serial port, where they are switched on. What
  -- results is what printing the whole text on the console, and the whole text on the serial port,
  -- would do: an output that is off stays as it is, and the log waits for ever exactly when the
  -- serial port does.
  pub logf-join :
      (l : Log) (fmt out : List ℕ) (args rest : List Arg)
      → formatv fmt args ≡ some (out, rest)
      → logf font l fmt args ≡ join l (on_console font l out) (on_serial l out)
  unfolding logf
  logf-join l fmt out args rest shown =
      rw (logf, shown) (log_bytes-join l.serial_on l.console_on l.tty l.serial out)

-- Is the output on?
abbrev pub Enabled : LoggingOutput → Log → Type 0
Enabled log_serial l = l.serial_on ≡ true
Enabled log_console l = l.console_on ≡ true
Enabled log_both l = (l.console_on ≡ true) × (l.serial_on ≡ true)

-- Has the output a part that can fail?
abbrev pub HasSerial : LoggingOutput → Type 0
HasSerial log_console = ⊥
HasSerial _ = Unit

-- What `require_log` answers: it waits for ever, with the serial port; or it succeeds, with every output
-- that was asked for on, and asking again changes nothing; or it fails, and the serial port is off.
abbrev pub Answered : LoggingOutput → Log → Option (ℕ × Log) → Type 0
Answered out l none = HasSerial out × (require_serial l.serial ≡ none)
Answered out l (some (status, l')) =
    ((status ≡ 1) × Enabled out l' × (require_log out l' ≡ some (1, l')))
    ⊎ ((status ≡ 0) × HasSerial out × (l'.serial_on ≡ false))

-- an output that is on is not started again
require_log-again :
    (out : LoggingOutput) (l : Log) → Enabled out l → require_log out l ≡ some (1, l)
unfolding require_log require_log_serial require_log_console
require_log-again log_serial l on = rw on refl
require_log-again log_console l on = rw on refl
require_log-again log_both l on = rw (on.0, on.1) refl

SerialAnswered : Log → Option (ℕ × Log) → Type 0
SerialAnswered l none = require_serial l.serial ≡ none
SerialAnswered l (some (status, l')) =
    ((status ≡ 1) × (l'.serial_on ≡ true) × (l'.console_on ≡ l.console_on))
    ⊎ ((status ≡ 0) × (l'.serial_on ≡ false))

require_log_serial-answered :
    (serial_on console_on : Bool) (tty : Tty) (serial : SserialConsole)
    → let l : Log = record {
      serial_on = serial_on;
      console_on = console_on;
      tty = tty;
      serial = serial;
    } in
      SerialAnswered l (require_log_serial l)
unfolding require_log_serial SerialAnswered
require_log_serial-answered true console_on tty serial = inl (refl, refl, refl)
require_log_serial-answered false console_on tty serial =
    elim (Option-cases (require_serial serial)) [
      | inl waits ↦ rw (require_log_serial, waits) waits
      | inr (answer, asked) ↦ elim (Bool-cases (answer.0 == 0)) [
        | inl failed ↦ rw (require_log_serial, asked, failed) (inr (refl, refl))
        | inr worked ↦ rw (require_log_serial, asked, worked) (inl (refl, refl, refl))
      ]
    ]

answer_serial : (l : Log) (r : Option (ℕ × Log)) → SerialAnswered l r → Answered log_serial l r
unfolding SerialAnswered
answer_serial l none waits = (tt, waits)
answer_serial l (some (status, l')) (inl (worked, on, same)) =
    inl (worked, on, require_log-again log_serial l' on)
answer_serial l (some (status, l')) (inr (failed, off)) = inr (failed, tt, off)

answer_both :
    (l l1 : Log) (r : Option (ℕ × Log))
    → l1.serial ≡ l.serial
    → l1.console_on ≡ true
    → SerialAnswered l1 r
    → Answered log_both l r
unfolding SerialAnswered
answer_both l l1 none serial on waits = (tt, ap require_serial (sym serial) ∙ waits)
answer_both l l1 (some (status, l')) serial on (inl (worked, serial_on, same)) =
    inl (worked, (same ∙ on, serial_on), require_log-again log_both l' (same ∙ on, serial_on))
answer_both l l1 (some (status, l')) serial on (inr (failed, off)) = inr (failed, tt, off)

both-Answered :
    (serial_on console_on : Bool) (tty : Tty) (serial : SserialConsole)
    → let l : Log = record {
      serial_on = serial_on;
      console_on = console_on;
      tty = tty;
      serial = serial;
    } in
      Answered log_both l (require_log log_both l)
unfolding require_log require_log_console
both-Answered serial_on true tty serial =
    let l : Log = record { serial_on = serial_on; console_on = true; tty = tty; serial = serial } in
    answer_both l l (require_log_serial l) refl refl
      (require_log_serial-answered serial_on true tty serial)
both-Answered serial_on false tty serial =
    let l : Log = record {
      serial_on = serial_on;
      console_on = false;
      tty = tty;
      serial = serial;
    } in
    let l1 : Log = record l { tty = console_require l.tty; console_on = true } in
    answer_both l l1 (require_log_serial l1) refl refl
      (require_log_serial-answered serial_on true l1.tty serial)

-- `require_log` waits for ever only when it asks for the serial port and `require_serial` does. Otherwise
-- it succeeds, every output that was asked for is on, and asking for it again succeeds and changes
-- nothing; or it fails, which asking for the console alone never does, and the serial port is off.
pub require_log-Answered : (out : LoggingOutput) (l : Log) → Answered out l (require_log out l)
unfolding require_log require_log_console
require_log-Answered log_serial l =
    answer_serial l (require_log_serial l)
      (require_log_serial-answered l.serial_on l.console_on l.tty l.serial)
require_log-Answered log_console l = elim (Bool-cases l.console_on) [
  | inl on ↦ rw on (inl (refl, refl, refl))
  | inr off ↦ rw off (inl (refl, refl, refl))
]
require_log-Answered log_both l = both-Answered l.serial_on l.console_on l.tty l.serial
