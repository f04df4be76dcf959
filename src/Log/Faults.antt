-- ===== src/Log/Faults.antt =====
-- fault_handler of kernel/cpu/ISR.c, over the log and the table of the handlers, and kernel_error of
-- libs/klibc/libc.c. `buf` is on the stack; its address is an argument. A loop without an end is the
-- outcome `halted`.
pub mod Laws
use osakauss.Common.{
  ℕ, ◌%◌, ◌^◌, List, [], ◌∷◌, ◌++◌, Option, none, some, ltb, ◌==◌, get_or, if◌then◌else◌,
}
use osakauss.Format.{text, word, signed, codes}
use osakauss.Klibc.Mem.{Memory, Ptr}
use osakauss.Klibc.Str.{strlen}
use osakauss.Klibc.Num.{itoa}
use osakauss.Klibc.Num.Bytes.{bytes}
use osakauss.Interrupts.{Handlers}
use osakauss.Log.{Log, logf}

abbrev pub exception_messages : List (List ℕ)
exception_messages =
    codes "Division by zero"
    ∷ codes "Debug"
    ∷ codes "Non maskable interrupt"
    ∷ codes "Breakpoint"
    ∷ codes "Into detected overflow"
    ∷ codes "Out of bounds exception"
    ∷ codes "Invalid opcode"
    ∷ codes "No coprocessor"
    ∷ codes "Double fault"
    ∷ codes "Coprocessor segment overrun"
    ∷ codes "Bad TSS"
    ∷ codes "Segment not present"
    ∷ codes "Stack fault"
    ∷ codes "General protection fault"
    ∷ codes "Page fault"
    ∷ codes "Unknown interrupt"
    ∷ codes "Coprocessor fault"
    ∷ codes "Alignment check"
    ∷ codes "Machine check"
    ∷ []

-- The messages behind the last one of the list are all the same.
abbrev pub exception_message : ℕ → List ℕ
exception_message i = get_or exception_messages i (codes "Reserved")

-- The handler has returned, or the kernel stands still.
pub data Fault {ℓ} (S : Type ℓ) : Type ℓ where
  handled : S → Log → Fault S
  halted : Log → Fault S

-- The string at an address of a memory, as an argument of `logf`; `buf` has 33 bytes.
unfoldable pub string_at : Memory → Ptr → Option (List ℕ)
string_at m p = elim (strlen 33 m p) [ none ↦ none | some n ↦ some (bytes m p n) ]

abbrev pub halt {ℓ} : {S : Type ℓ} → Option Log → Option (Fault S)
halt none = none
halt (some l) = some (halted l)

-- `itoa` writes to the stack, in the memory that the console has too.
abbrev pub with_mem : Log → Memory → Log
with_mem l m = record l { tty = record l.tty { mem = m } }

module _ {ℓ} {S : Type ℓ} (font : ℕ → ℕ → ℕ) (run : ℕ → ℕ → S × Log → S × Log) where
  -- the message for a number that is no exception's, written in the memory `m`
  unfoldable pub report_unknown : Log → Ptr → Memory → Option (Fault S)
  report_unknown l str m = elim (string_at m str) [
    | none ↦ none
    | some number ↦ halt (
        logf font (with_mem l m) (codes "Unknown interrupt\nfault number: %s\nhalting system\n")
          (text number ∷ []))
  ]

  -- The table has 256 handlers; a number behind its end is read out of bounds, which is `none`.
  unfoldable pub fault_handler : Handlers → Ptr → ℕ → S → Log → Option (Fault S)
  fault_handler handlers buf interrupt s l =
      let (s', l') = run (handlers interrupt) interrupt (s, l) in
      let known : Option (Fault S) = halt (
        logf font l (codes "fault: %s\nhalting system\n")
          (text (exception_message interrupt) ∷ [])) in
      let unknown : Option (Fault S) = elim (itoa l.tty.mem (signed (interrupt % 2 ^ 32)) buf 10) [
        | none ↦ none
        | some written ↦ report_unknown l written.0 written.1
      ] in
      let called : Option (Fault S) =
        if handlers interrupt == 0
        then (if ltb interrupt 32 then known else unknown)
        else some (handled s' l') in
      if ltb interrupt 256 then called else none

-- kernel_error of libs/klibc/libc.c: the message, and the halt. The bytes 4, 2 and 1 change the colour.
abbrev pub error_message : List ℕ
error_message =
    codes "\n[ERROR] file:"
    ++ (4
        ∷ (codes "%s"
            ++ (1
                ∷ (codes ": line:"
                    ++ (4
                        ∷ (codes "%d"
                            ++ (1 ∷ (codes " : " ++ (2 ∷ (codes "%s" ++ (1 ∷ codes "\n")))))))))))

unfoldable pub kernel_error {ℓ} :
    {S : Type ℓ} → (ℕ → ℕ → ℕ) → Log → List ℕ → List ℕ → ℕ → Option (Fault S)
kernel_error font l msg file line =
    halt (logf font l error_message (text file ∷ word line ∷ text msg ∷ []))
