-- ===== src/Interrupts.antt =====
-- kernel/cpu/IDT.c and kernel/cpu/ISR.c: the interrupt descriptor table, the handlers and the two
-- interrupt controllers. The addresses of the assembly stubs are arguments, `inb` is given its answer,
-- and the writes of `outb` are a list, in their order; the waits between them are left out.
pub mod Laws
mod Tests
use osakauss.Common.{
  ℕ, zero, suc, ◌+◌, ◌-◌, ◌*◌, ◌/◌, ◌%◌, ◌^◌, bit_and, bit_or, Bool, true, List, [], ◌∷◌, ◌++◌, ltb,
  leb, ◌==◌, if◌then◌else◌,
}
use osakauss.Bits.Word.{complement}

-- `struct IDT`
pub record Idt : Type 0 where
  pub offset_low : ℕ
  pub selector : ℕ
  pub ist : ℕ
  pub types_attr : ℕ
  pub offset_mid : ℕ
  pub offset_high : ℕ
  pub reserved : ℕ

-- `_idt`
abbrev pub IdtTable : Type 0
IdtTable = ℕ → Idt

abbrev pub Writes : Type 0
Writes = List (ℕ × ℕ)

unfoldable pub idt_set_gate : IdtTable → ℕ → ℕ → ℕ → IdtTable
idt_set_gate idt num base type_attr i =
    if num == i
    then record {
      offset_low = base % 2 ^ 16;
      selector = 0x8;
      ist = 0;
      types_attr = type_attr;
      offset_mid = base / 2 ^ 16 % 2 ^ 16;
      offset_high = base / 2 ^ 32 % 2 ^ 32;
      reserved = 0;
    }
    else idt i

-- the numbers that `ISRInit` sets a gate for, in its order
abbrev pub stub_numbers : List ℕ
stub_numbers =
    0 ∷ 1 ∷ 2 ∷ 3 ∷ 4 ∷ 5 ∷ 6 ∷ 7 ∷ 8 ∷ 9 ∷ 10 ∷ 11 ∷ 12 ∷ 13 ∷ 14 ∷ 15 ∷ 16 ∷ 16 ∷ 16 ∷ 17 ∷ 18
    ∷ 19 ∷ 20 ∷ 21 ∷ 22 ∷ 23 ∷ 24 ∷ 25 ∷ 26 ∷ 27 ∷ 28 ∷ 29 ∷ 30 ∷ 31 ∷ 32 ∷ 33 ∷ 34 ∷ 35 ∷ 36 ∷ 37
    ∷ 38 ∷ 39 ∷ 40 ∷ 41 ∷ 42 ∷ 43 ∷ 44 ∷ 45 ∷ 46 ∷ 47 ∷ []

-- `stub i` is the address of isr`i` below 32, and from there on that of irq`i - 32`.
unfoldable pub set_gates : (ℕ → ℕ) → IdtTable → List ℕ → IdtTable
set_gates stub idt [] = idt
set_gates stub idt (num ∷ nums) = set_gates stub (idt_set_gate idt num (stub num) 0x8E) nums

abbrev pub pic_remap : Writes
pic_remap =
    (0x20, 0x11)
    ∷ (0xA0, 0x11)
    ∷ (0x21, 0x20)
    ∷ (0xA1, 0x28)
    ∷ (0x21, 0x04)
    ∷ (0xA1, 0x02)
    ∷ (0x21, 0x01)
    ∷ (0xA1, 0x01)
    ∷ (0x21, 0x0)
    ∷ (0xA1, 0x0)
    ∷ []

-- Loading the table into the processor is left out.
unfoldable pub isr_init : (ℕ → ℕ) → IdtTable → Writes → Bool × IdtTable × Writes
isr_init stub idt writes = (true, set_gates stub idt stub_numbers, writes ++ pic_remap)

-- the loop, with the rounds that are left
unfoldable pub fill_pre_idt : ℕ → IdtTable → ℕ → ℕ → IdtTable
fill_pre_idt empty_stub idt i zero = idt
fill_pre_idt empty_stub idt i (suc n) =
    fill_pre_idt empty_stub (idt_set_gate idt i empty_stub 0x8E) (i + 1) n

pub record IdtPtr : Type 0 where
  pub limit : ℕ
  pub base : ℕ

-- An entry takes 16 bytes.
unfoldable pub idt_init : ℕ → ℕ → IdtTable → IdtPtr × IdtTable
idt_init empty_stub address idt =
    (record { limit = 16 * 256 % 2 ^ 16 - 1; base = address }, fill_pre_idt empty_stub idt 0 256)

-- `interrupt_handlers`, 0 where there is none
abbrev pub Handlers : Type 0
Handlers = ℕ → ℕ

unfoldable pub install_handler : Handlers → ℕ → ℕ → Handlers
install_handler handlers irq handler i = if irq == i then handler else handlers i

unfoldable pub uninstall_handler : Handlers → ℕ → Handlers
uninstall_handler handlers irq i = if irq == i then 0 else handlers i

-- A handler is run by `run`, on its address, the interrupt's number and a state.
unfoldable pub irq_handler {ℓ} : {S : Type ℓ} → (ℕ → ℕ → S → S) → Handlers → ℕ → S → S × Writes
irq_handler run handlers interrupt s =
    let handler = handlers interrupt in
    (
      if handler == 0 then s else run handler interrupt s,
      if leb 40 interrupt then (0xA0, 0x20) ∷ (0x20, 0x20) ∷ [] else (0x20, 0x20) ∷ [],
    )

-- the port and the line at the controller that it belongs to
abbrev pub mask_port : ℕ → ℕ × ℕ
mask_port line = if ltb line 8 then (0x21, line) else (0xA1, line - 8)

-- Both functions take what `inb` answers, and return the one write.
unfoldable pub irq_set_mask : ℕ → ℕ → ℕ × ℕ
irq_set_mask irq_line answer =
    let (port, line) = mask_port irq_line in (port, bit_or answer (2 ^ line) % 256)

unfoldable pub irq_clear_mask : ℕ → ℕ → ℕ × ℕ
irq_clear_mask irq_line answer =
    let (port, line) = mask_port irq_line in (port, bit_and answer (complement (2 ^ line)) % 256)
