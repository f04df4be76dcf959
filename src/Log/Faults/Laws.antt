-- ===== src/Log/Faults/Laws.antt =====
-- fault_handler of kernel/cpu/ISR.c: what it reports.
use native.Mathlib.Nat.{div-lt_iff_lt-mul, pow-succ'}
use osakauss.Common.{
  ℕ, zero, suc, ◌/◌, ◌+◌, ◌%◌, ◌^◌, ◌<◌, ◌≤◌, ◌≢◌, ◌≡◌, refl, sym, ap, inl, inr, false, List, [],
  ◌∷◌, ◌++◌, Option, some, ltb, ◌==◌, ==_ne, ◌⊎◌, eq_cases, ltb→lt, ltb_false→le, Bool-cases,
  lt→ltb, length, arith,
}
use osakauss.Common.Int.{pos}
use osakauss.Format.{
  digits_from, digit_of, text, signed, codes, formatv, directive, format_i32, format_i32_base,
}
use osakauss.Format.Digits.{room_left, digits_from-total}
use osakauss.Klibc.Mem.{Memory, Ptr}
use osakauss.Klibc.Str.Laws.{IsString, strlen_lem}
use osakauss.Klibc.Num.Bytes.{IsString-bytes}
use osakauss.Klibc.Num.Laws.{itoa-format_i32_base}
use osakauss.Interrupts.{Handlers}
use osakauss.Log.{Log, logf}
use osakauss.Log.Faults.{
  exception_message, Fault, handled, halt, string_at, with_mem, report_unknown, fault_handler,
}
use osakauss.Log.Laws.{join, on_console, on_serial, logf-join}

-- The log after the text `out`.
abbrev pub after : (ℕ → ℕ → ℕ) → Log → List ℕ → Option Log
after font l out = join l (on_console font l out) (on_serial l out)

fault_shown :
    (message : List ℕ)
    → formatv (codes "fault: %s\nhalting system\n") (text message ∷ [])
      ≡ some (codes "fault: " ++ (message ++ codes "\nhalting system\n"), [])
unfolding formatv directive
fault_shown message = refl

unknown_shown :
    (number : List ℕ)
    → formatv (codes "Unknown interrupt\nfault number: %s\nhalting system\n") (text number ∷ [])
      ≡ some
          (codes "Unknown interrupt\nfault number: " ++ (number ++ codes "\nhalting system\n"), [])
unfolding formatv directive
unknown_shown number = refl

fault_shown-log :
    (font : ℕ → ℕ → ℕ) (l : Log) (message : List ℕ)
    → logf font l (codes "fault: %s\nhalting system\n") (text message ∷ [])
      ≡ after font l (codes "fault: " ++ (message ++ codes "\nhalting system\n"))
fault_shown-log font l message = logf-join font l _ _ _ _ (fault_shown message)

unknown_shown-log :
    (font : ℕ → ℕ → ℕ) (l : Log) (number : List ℕ)
    → logf font l (codes "Unknown interrupt\nfault number: %s\nhalting system\n") (text number ∷ [])
      ≡ after font l
          (codes "Unknown interrupt\nfault number: " ++ (number ++ codes "\nhalting system\n"))
unknown_shown-log font l number = logf-join font l _ _ _ _ (unknown_shown number)

-- a number below 2 ^ k has at most k digits
digits_from-short :
    (room n k base : ℕ) (buf out : List ℕ)
    → 2 ≤ base
    → 0 < k
    → n < 2 ^ k
    → digits_from room (pos n) base buf ≡ some out
    → length out ≤ k + length buf
unfolding digits_from
digits_from-short zero n k base buf out lo some_k small e = absurd cc
digits_from-short (suc room) n zero base buf out lo some_k small e = absurd (omega arith)
digits_from-short (suc room) n (suc k) base buf out lo some_k small e =
    elim (Bool-cases (n / base == 0)) [
      | inl done ↦
          let whole : digit_of (pos n) base ∷ buf ≡ out = ground (arith, e, done) in
          let size : length out ≡ suc (length buf) = ap length (sym whole) in omega (arith, size)
      | inr more ↦
          let next : digits_from room (pos (n / base)) base (digit_of (pos n) base ∷ buf)
              ≡ some out =
            ground (arith, e, more) in
          let below : n / base < 2 ^ k =
            (div-lt_iff_lt-mul (omega arith)).1 (grind (arith, small, pow-succ' 2 k)) in
          let left : 0 < k = room_left k (n / base) below (ground (arith, more)) in
          let rest =
            digits_from-short room (n / base) k base (digit_of (pos n) base ∷ buf) out lo left below
              next in
          omega (arith, rest)
    ]

numeral-short :
    (n : ℕ) (number : List ℕ)
    → n < 2 ^ 31
    → format_i32_base (pos n) 10 ≡ some number
    → length number < 33
unfolding format_i32_base
numeral-short n number small e =
    let (out, run) = digits_from-total (pos n) 10 (omega arith) (omega arith) (omega arith) in
    let same : out ≡ number = ground (arith, rw run at e) in
    omega (
      arith,
      digits_from-short 64 n 31 10 [] out (omega arith) (omega arith) small run,
      ap length same,
    )

signed_small : (i : ℕ) → i < 2 ^ 31 → signed (i % 2 ^ 32) ≡ pos i
signed_small i small =
    let low : i % 2 ^ 32 ≡ i = omega (arith, small) in rw (low, lt→ltb i (2 ^ 31) small) refl

string_at-IsString :
    (m : Memory) (p : Ptr) (number : List ℕ)
    → length number < 33
    → IsString m p number
    → string_at m p ≡ some number
unfolding string_at
string_at-IsString m p number short h =
    rw (string_at, strlen_lem 33 m p number short (omega arith) h)
      (ap some (IsString-bytes m p number h))

module _ {ℓ} {S : Type ℓ} (font : ℕ → ℕ → ℕ) (run : ℕ → ℕ → S × Log → S × Log) where
  -- A handler is run; an exception without one is reported by its message; and any other number
  -- without one is reported by its decimal numeral, which is written to the stack and nowhere else.
  abbrev pub FaultOutcome : Handlers → Ptr → ℕ → S → Log → Option (Fault S) → Type ℓ
  FaultOutcome handlers buf i s l r =
      ((handlers i ≢ 0)
        × (r ≡ some (handled (run (handlers i) i (s, l)).0 (run (handlers i) i (s, l)).1)))
      ⊎ ((handlers i ≡ 0)
          × (i < 32)
          × (r
              ≡ halt (
                  after font l
                    (codes "fault: " ++ (exception_message i ++ codes "\nhalting system\n")))))
      ⊎ ((handlers i ≡ 0)
          × (32 ≤ i)
          × ((number : List ℕ) × (m : Memory) × (format_i32 (pos i) ≡ some number)
              × (length number < 33)
              × ((a : ℕ) → (a < buf) ⊎ (buf + length number < a) → m a ≡ l.tty.mem a)
              × (r
                  ≡ halt (
                      after font (with_mem l m) (
                        codes "Unknown interrupt\nfault number: "
                        ++ (number ++ codes "\nhalting system\n"))))))

  unknown-FaultOutcome :
      (handlers : Handlers) (buf : Ptr) (i : ℕ) (s : S) (l : Log)
      → i < 256
      → handlers i ≡ 0
      → ltb i 32 ≡ false
      → FaultOutcome handlers buf i s l (fault_handler font run handlers buf i s l)
  unfolding fault_handler report_unknown format_i32
  unknown-FaultOutcome handlers buf i s l listed no_handler other =
      let small : i < 2 ^ 31 = omega (arith, listed) in
      let (number, shown, (m, ran, string, others)) =
        itoa-format_i32_base l.tty.mem (pos i) buf 10 (omega arith) in
      let short = numeral-short i number small shown in
      let out =
        codes "Unknown interrupt\nfault number: " ++ (number ++ codes "\nhalting system\n") in
      let run_to : fault_handler font run handlers buf i s l
          ≡ halt (after font (with_mem l m) out) =
        rw
          (
            fault_handler,
            lt→ltb i 256 listed,
            no_handler,
            other,
            signed_small i small,
            ran,
            report_unknown,
            string_at-IsString m buf number short string,
          )
          (ap halt (unknown_shown-log font (with_mem l m) number)) in
      inr (inr (no_handler, ltb_false→le i 32 other, (number, m, shown, short, others, run_to)))

  -- For every number below 256, `fault_handler` does one of three things. A handler that is installed is
  -- run and returned from. An exception without one is reported in the log by its message. Any other
  -- number without one is reported by its decimal numeral, which fits into the buffer on the stack and
  -- is written nowhere else. Behind both reports comes the halt, unless the serial port, where the log
  -- goes there, keeps the report waiting for ever.
  pub fault_handler-FaultOutcome :
      (handlers : Handlers) (buf : Ptr) (i : ℕ) (s : S) (l : Log)
      → i < 256
      → FaultOutcome handlers buf i s l (fault_handler font run handlers buf i s l)
  unfolding fault_handler
  fault_handler-FaultOutcome handlers buf i s l small = elim (eq_cases (handlers i) 0) [
    | inr some_handler ↦ inl (
      some_handler,
      rw (fault_handler, lt→ltb i 256 small, ==_ne (handlers i) 0 some_handler) refl,
    )
    | inl no_handler ↦ elim (Bool-cases (ltb i 32)) [
      | inr other ↦ unknown-FaultOutcome handlers buf i s l small no_handler other
      | inl exception ↦ inr (
          inl (
            no_handler,
            ltb→lt i 32 exception,
            rw (fault_handler, lt→ltb i 256 small, no_handler, exception)
                (ap halt (fault_shown-log font l (exception_message i))),
          ))
    ]
  ]
