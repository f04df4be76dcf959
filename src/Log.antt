-- ===== src/Log.antt =====
-- kernel/log.c: the log, over the console and the serial port; and fault_handler of kernel/cpu/ISR.c, which
-- reports through it. `none` is a wait of the serial port that nothing ends, or behaviour that C
-- leaves undefined.
pub mod Laws
pub mod Faults
mod Tests
use osakauss.Common.{ℕ, Bool, true, List, [], ◌∷◌, Option, none, some, ◌==◌, if◌then◌else◌}
use osakauss.Format.{Arg, formatv}
use osakauss.Console.{Tty, console_require, putch}
use osakauss.Serial.{SserialConsole, serial_writeb, require_serial}

-- `enum logging_output`
pub data LoggingOutput : Type 0 where
  log_serial log_console log_both : LoggingOutput

-- `require_satisfied`, with the two outputs
pub record Log : Type 0 where
  pub serial_on : Bool
  pub console_on : Bool
  pub tty : Tty
  pub serial : SserialConsole

-- The two cases that ask for one output; the result is 1 on success and 0 on failure.
unfoldable pub require_log_serial : Log → Option (ℕ × Log)
require_log_serial l =
    let asked : Option (ℕ × Log) = elim (require_serial l.serial) [
      | none ↦ none
      | some answer ↦
          let (status, serial) = answer in
          some (
            if status == 0
            then (0, record l { serial = serial })
            else (1, record l { serial = serial; serial_on = true }))
    ] in
    if l.serial_on then some (1, l) else asked

-- `console_require` always succeeds.
unfoldable pub require_log_console : Log → ℕ × Log
require_log_console l =
    if l.console_on
    then (1, l)
    else (1, record l { tty = console_require l.tty; console_on = true })

-- An output that is none of the three is not asked for.
unfoldable pub require_log : LoggingOutput → Log → Option (ℕ × Log)
require_log log_serial l = require_log_serial l
require_log log_console l = some (require_log_console l)
require_log log_both l =
    let (status, l') = require_log_console l in
    if status == 0 then some (0, l') else require_log_serial l'

module _ (font : ℕ → ℕ → ℕ) where
  unfoldable pub logfc : Log → ℕ → Option Log
  logfc l c =
      let shown : Log = if l.console_on then record l { tty = putch font l.tty c } else l in
      let sent : Option Log = elim (serial_writeb l.serial c) [
        | none ↦ none
        | some serial ↦ some (record shown { serial = serial })
      ] in
      if l.serial_on then sent else some shown

  -- what `formatv` does with `logfc`: the bytes one after the other
  unfoldable pub log_bytes : Log → List ℕ → Option Log
  log_bytes l [] = some l
  log_bytes l (c ∷ out) = elim (logfc l c) [ none ↦ none | some l' ↦ log_bytes l' out ]

  unfoldable pub logf : Log → List ℕ → List Arg → Option Log
  logf l fmt args = elim (formatv fmt args) [ none ↦ none | some printed ↦ log_bytes l printed.0 ]
