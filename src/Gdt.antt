-- ===== src/Gdt.antt =====
-- kernel/cpu/GDT.c: the table of the segments and the task state segment (include/kernel/cpu/GDT.h and
-- TSS.h). Loading them into the processor is assembly; the addresses of the two are arguments.
pub mod Laws
mod Tests
use osakauss.Common.{ℕ, ◌-◌, ◌/◌, ◌%◌, ◌^◌, Bool, true}

pub record GdtEntry : Type 0 where
  pub limit0 : ℕ
  pub base_low : ℕ
  pub base_middle : ℕ
  pub access_byte : ℕ
  pub flags : ℕ
  pub base_high : ℕ

pub record Gdt : Type 0 where
  pub null : GdtEntry
  pub kernel_code : GdtEntry
  pub kernel_data : GdtEntry
  pub user_code : GdtEntry
  pub user_data : GdtEntry
  pub tss : GdtEntry

pub record GdtDescriptor : Type 0 where
  pub size : ℕ
  pub offset : ℕ

-- the fields of `TSS` that some code writes
pub record Tss : Type 0 where
  pub rsp0 : ℕ
  pub iopb : ℕ

-- the sizes of the packed structures
abbrev pub sizeof_tss : ℕ
sizeof_tss = 104

abbrev pub sizeof_gdt : ℕ
sizeof_gdt = 48

-- an entry of `DefaultGDT` whose base is 0
abbrev pub flat : ℕ → ℕ → ℕ → GdtEntry
flat limit0 access_byte flags = record {
  limit0 = limit0;
  base_low = 0;
  base_middle = 0;
  access_byte = access_byte;
  flags = flags;
  base_high = 0;
}

abbrev pub default_gdt : Gdt
default_gdt = record {
  null = flat 0 0x00 0x0;
  kernel_code = flat 0 0x9a 0xa0;
  kernel_data = flat 0 0x92 0xc0;
  user_code = flat 0 0xFA 0xa0;
  user_data = flat 0 0xF2 0xc0;
  tss = flat sizeof_tss 0x89 0x40;
}

unfoldable pub setup_tss : Gdt → ℕ → Gdt
setup_tss gdt base = record gdt {
  tss = record {
    limit0 = sizeof_tss;
    base_low = base % 2 ^ 16;
    base_middle = base / 2 ^ 16 % 2 ^ 8;
    access_byte = 0x89;
    flags = 0x40;
    base_high = base / 2 ^ 24 % 2 ^ 8;
  };
}

-- The arguments are the address of `TSS`, that of `DefaultGDT`, and the table.
unfoldable pub gdt_init : ℕ → ℕ → Gdt → Bool × Gdt × Tss × GdtDescriptor
gdt_init tss_at gdt_at gdt = (
  true,
  setup_tss gdt tss_at,
  record { rsp0 = 0x0; iopb = sizeof_tss },
  record { size = sizeof_gdt - 1; offset = gdt_at },
)
