-- ===== src/Interrupts/Laws.antt =====
-- The table of kernel/cpu/IDT.c after the kernel has set it up.
use osakauss.Common.{
  ℕ, zero, suc, ◌+◌, ◌*◌, ◌/◌, ◌%◌, ◌^◌, ◌≤◌, ◌<◌, ◌≡◌, refl, sym, ◌∙◌, ◌≢◌, ◌⊎◌, inl, inr, not,
  eq_cases, Bool-cases, ==_ne, ==_refl, Bool, true, false, List, [], ◌∷◌, ◌++◌, ltb, leb, ◌==◌,
  if◌then◌else◌, arith,
}
use osakauss.Common.Table.{check_all, check_all-entry}
use osakauss.Interrupts.{
  Idt, IdtTable, idt_set_gate, stub_numbers, set_gates, isr_init, fill_pre_idt, idt_init, Writes,
  Handlers, irq_handler, install_handler, uninstall_handler,
}

-- the address that the processor calls, as it puts a gate's parts together
abbrev pub gate_offset : Idt → ℕ
gate_offset g = g.offset_low + g.offset_mid * 2 ^ 16 + g.offset_high * 2 ^ 32

-- a present interrupt gate for ring 0, with the kernel's code selector, to the address
abbrev pub Leads : Idt → ℕ → Type 0
Leads g base = (gate_offset g ≡ base) × (g.types_attr ≡ 0x8E) × (g.selector ≡ 0x8) × (g.ist ≡ 0)

split_offset :
    (base : ℕ)
    → base < 2 ^ 64
    → base % 2 ^ 16 + base / 2 ^ 16 % 2 ^ 16 * 2 ^ 16 + base / 2 ^ 32 % 2 ^ 32 * 2 ^ 32 ≡ base
split_offset base h = omega arith

idt_set_gate_self :
    (idt : IdtTable) (num base : ℕ)
    → base < 2 ^ 64
    → Leads (idt_set_gate idt num base 0x8E num) base
unfolding idt_set_gate
idt_set_gate_self idt num base h = rw (==_refl num) (split_offset base h, refl, refl, refl)

idt_set_gate_other :
    (idt : IdtTable) (num base i : ℕ) → num ≢ i → idt_set_gate idt num base 0x8E i ≡ idt i
unfolding idt_set_gate
idt_set_gate_other idt num base i ne = rw (==_ne num i ne) refl

-- Is the number in the list?
abbrev listed : ℕ → List ℕ → Bool
listed i [] = false
listed i (n ∷ nums) = if n == i then true else listed i nums

set_gates-listed :
    (stub : ℕ → ℕ) (idt : IdtTable) (nums : List ℕ) (i : ℕ)
    → stub i < 2 ^ 64
    → (listed i nums ≡ true) ⊎ Leads (idt i) (stub i)
    → Leads (set_gates stub idt nums i) (stub i)
unfolding set_gates
set_gates-listed stub idt [] i small (inl h) = absurd cc
set_gates-listed stub idt [] i small (inr h) = h
set_gates-listed stub idt (n ∷ nums) i small h =
    set_gates-listed stub (idt_set_gate idt n (stub n) 0x8E) nums i small (elim (eq_cases n i) [
      | inl same ↦ inr (rw (same) (idt_set_gate_self idt i (stub i) small))
      | inr differs ↦ elim h [
        | inl in_list ↦ inl (rw (==_ne n i differs) at in_list)
        | inr leads ↦ inr (rw (idt_set_gate_other idt n (stub n) i differs) leads)
      ]
    ])

set_gates-other :
    (stub : ℕ → ℕ) (idt : IdtTable) (nums : List ℕ) (i : ℕ)
    → listed i nums ≡ false
    → set_gates stub idt nums i ≡ idt i
unfolding set_gates
set_gates-other stub idt [] i h = refl
set_gates-other stub idt (n ∷ nums) i h = elim (eq_cases n i) [
  | inl same ↦ absurd (ground (arith, h, same))
  | inr differs ↦
      set_gates-other stub (idt_set_gate idt n (stub n) 0x8E) nums i (rw (==_ne n i differs) at h)
      ∙ idt_set_gate_other idt n (stub n) i differs
]

fill_pre_idt-entry :
    (stub : ℕ) (idt : IdtTable) (from n i : ℕ)
    → stub < 2 ^ 64
    → i < from + n
    → (from ≤ i) ⊎ Leads (idt i) stub
    → Leads (fill_pre_idt stub idt from n i) stub
unfolding fill_pre_idt
fill_pre_idt-entry stub idt from zero i small lt (inl le) = absurd (omega arith)
fill_pre_idt-entry stub idt from zero i small lt (inr leads) = leads
fill_pre_idt-entry stub idt from (suc n) i small lt h =
    fill_pre_idt-entry stub (idt_set_gate idt from stub 0x8E) (from + 1) n i small (omega arith)
      (elim (eq_cases from i) [
        | inl same ↦ inr (rw (same) (idt_set_gate_self idt i stub small))
        | inr differs ↦ elim h [
          | inl le ↦ inl (omega arith)
          | inr leads ↦ inr (rw (idt_set_gate_other idt from stub i differs) leads)
        ]
      ])

same : Bool → Bool → Bool
same a b = if a then b else not b

same-eq : (a b : Bool) → same a b ≡ true → a ≡ b
unfolding same
same-eq true b h = sym h
same-eq false true h = h
same-eq false false h = refl

listed_row : ℕ → Bool
listed_row i = same (listed i stub_numbers) (ltb i 48)

listed_row-true : check_all listed_row 256 ≡ true
unfolding listed_row same check_all
listed_row-true = refl

listed-stub_numbers : (i : ℕ) → i < 256 → listed i stub_numbers ≡ ltb i 48
unfolding listed_row
listed-stub_numbers i h =
    same-eq (listed i stub_numbers) (ltb i 48) (check_all-entry listed_row 256 i h listed_row-true)

-- After `IDTInit` and then `ISRInit`, with 64-bit addresses, each of the 256 gates is a present
-- interrupt gate with the kernel's code selector: to its own stub below 48, and to the empty stub from
-- there on.
pub isr_init-Leads :
    (stub : ℕ → ℕ) (empty_stub address : ℕ) (idt : IdtTable) (writes : Writes) (i : ℕ)
    → empty_stub < 2 ^ 64
    → ((n : ℕ) → stub n < 2 ^ 64)
    → i < 256
    → Leads
        ((isr_init stub (idt_init empty_stub address idt).1 writes).1 i)
        (if ltb i 48 then stub i else empty_stub)
unfolding isr_init idt_init
isr_init-Leads stub empty_stub address idt writes i small small_stub lt =
    let before = fill_pre_idt empty_stub idt 0 256 in
    let filled : Leads (before i) empty_stub =
      fill_pre_idt-entry empty_stub idt 0 256 i small (omega arith) (inl (omega arith)) in
    elim (Bool-cases (ltb i 48)) [
      | inl ours ↦ rw ours (
          set_gates-listed stub before stub_numbers i (small_stub i)
            (inl (listed-stub_numbers i lt ∙ ours)))
      | inr other ↦ rw other (
          rw (set_gates-other stub before stub_numbers i (listed-stub_numbers i lt ∙ other)) filled)
    ]

-- `irq_handler` runs the handler that has been installed, if any, once and with the interrupt's
-- number; it acknowledges the interrupt to the second controller exactly from number 40 on, and to
-- the first one last and always.
pub irq_handler_lem {ℓ} :
    {S : Type ℓ} (run : ℕ → ℕ → S → S) (handlers : Handlers) (irq handler interrupt : ℕ) (s : S)
    → handler ≢ 0
    → ((irq_handler run (install_handler handlers irq handler) irq s).0 ≡ run handler irq s)
      × ((irq_handler run (uninstall_handler handlers irq) irq s).0 ≡ s)
      × (irq ≢ interrupt
          → (irq_handler run (install_handler handlers irq handler) interrupt s).0
            ≡ (irq_handler run (uninstall_handler handlers irq) interrupt s).0)
      × ((irq_handler run handlers interrupt s).1
          ≡ (if leb 40 interrupt then (0xA0, 0x20) ∷ [] else []) ++ ((0x20, 0x20) ∷ []))
unfolding irq_handler install_handler uninstall_handler
irq_handler_lem run handlers irq handler interrupt s ne = (
  rw (==_refl irq, ==_ne handler 0 ne) refl,
  rw (==_refl irq) refl,
  λ differs. rw (==_ne irq interrupt differs) refl,
  elim (Bool-cases (leb 40 interrupt)) [ inl second ↦ rw second refl | inr first ↦ rw first refl ],
)
