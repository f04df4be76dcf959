-- ===== src/Gdt/Laws.antt =====
-- kernel/cpu/GDT.c: how the processor reads the entries.
use osakauss.Common.{ℕ, ◌+◌, ◌*◌, ◌/◌, ◌%◌, ◌^◌, ◌≡◌, ◌≤◌, refl, arith}
use osakauss.Gdt.{GdtEntry, Gdt, setup_tss, gdt_init, sizeof_tss}

-- the base, the limit and the eight bytes of an entry
abbrev pub base_of : GdtEntry → ℕ
base_of e = e.base_low + e.base_middle * 2 ^ 16 + e.base_high * 2 ^ 24

abbrev pub limit_of : GdtEntry → ℕ
limit_of e = e.limit0 + e.flags % 16 * 2 ^ 16

abbrev pub encoded : GdtEntry → ℕ
encoded e =
    e.limit0
    + e.base_low * 2 ^ 16
    + e.base_middle * 2 ^ 32
    + e.access_byte * 2 ^ 40
    + e.flags * 2 ^ 48
    + e.base_high * 2 ^ 56

-- what an entry is read from, out of its eight bytes
abbrev pub base_bits : ℕ → ℕ
base_bits w = w / 2 ^ 16 % 2 ^ 24 + w / 2 ^ 56 * 2 ^ 24

-- After `gdtInit` the entry of the task state segment is, as the processor reads its eight bytes, the
-- low 32 bits of the segment's address; the bits above are lost. Its
-- limit reaches over the segment, the limit of the table over its six entries, and no other entry
-- has changed.
pub gdt_init-base :
    (tss_at gdt_at : ℕ) (gdt : Gdt)
    → let (status, gdt', tss, descriptor) = gdt_init tss_at gdt_at gdt in
      (base_bits (encoded gdt'.tss) ≡ tss_at % 2 ^ 32)
      × (base_of gdt'.tss ≡ tss_at % 2 ^ 32)
      × (sizeof_tss ≤ limit_of gdt'.tss + 1)
      × (tss.iopb ≡ sizeof_tss)
      × (descriptor.size + 1 ≡ 6 * 8)
      × (record gdt { tss = gdt'.tss } ≡ gdt')
unfolding setup_tss gdt_init
gdt_init-base tss_at gdt_at gdt = (omega arith, omega arith, omega arith, refl, refl, refl)
