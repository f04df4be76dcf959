-- ===== src/Interrupts/Tests.antt =====
-- Runs of kernel/cpu/IDT.c and ISR.c.
use osakauss.Common.{ℕ, ◌+◌, ◌≡◌, ◌≢◌, [], ◌∷◌, ◌++◌, ltb, leb, if◌then◌else◌, arith}
use osakauss.Interrupts.{
  IdtTable, isr_init, idt_init, Handlers, irq_handler, install_handler, uninstall_handler,
}
use osakauss.Interrupts.Laws.{Leads, isr_init-Leads, irq_handler_lem}

-- the stubs, if they were all at one place of the kernel's half of the memory
abbrev stubs : ℕ → ℕ
stubs n = 0xffffffff80001000

abbrev cleared : IdtTable
cleared i = record {
  offset_low = 0;
  selector = 0;
  ist = 0;
  types_attr = 0;
  offset_mid = 0;
  offset_high = 0;
  reserved = 0;
}

isr_init-Leads_example :
    Leads
      ((isr_init stubs (idt_init 0xffffffff80000500 0xffffffff80100000 cleared).1 []).1 33)
      (if ltb 33 48 then stubs 33 else 0xffffffff80000500)
isr_init-Leads_example =
    isr_init-Leads stubs 0xffffffff80000500 0xffffffff80100000 cleared [] 33 (omega arith)
      (λ n. omega arith) (omega arith)

-- a handler that counts
abbrev count : ℕ → ℕ → ℕ → ℕ
count handler interrupt s = s + interrupt

abbrev nobody : Handlers
nobody i = 0

irq_handler_lem_example :
    ((irq_handler count (install_handler nobody 36 500) 36 1).0 ≡ count 500 36 1)
    × ((irq_handler count (uninstall_handler nobody 36) 36 1).0 ≡ 1)
    × (◌≢◌ {A = ℕ} 36 41
        → (irq_handler count (install_handler nobody 36 500) 41 1).0
          ≡ (irq_handler count (uninstall_handler nobody 36) 41 1).0)
    × ((irq_handler count nobody 41 1).1
        ≡ (if leb 40 41 then (0xA0, 0x20) ∷ [] else []) ++ ((0x20, 0x20) ∷ []))
irq_handler_lem_example = irq_handler_lem count nobody 36 500 41 1 (omega arith)
