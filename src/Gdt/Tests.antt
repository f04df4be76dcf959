-- ===== src/Gdt/Tests.antt =====
-- Runs of kernel/cpu/GDT.c.
use osakauss.Common.{◌+◌, ◌*◌, ◌%◌, ◌^◌, ◌≡◌, ◌≤◌, refl}
use osakauss.Gdt.{default_gdt, gdt_init, sizeof_tss}
use osakauss.Gdt.Laws.{base_of, base_bits, limit_of, encoded, gdt_init-base}

-- the code segment of the kernel: present, code, 64 bits
kernel_code-encoded : encoded default_gdt.kernel_code ≡ 0x00a09a0000000000
kernel_code-encoded = refl

gdt_init-base_example :
    let (status, gdt', tss, descriptor) = gdt_init 0xffffffff80201000 0x5000 default_gdt in
    (base_bits (encoded gdt'.tss) ≡ 0xffffffff80201000 % 2 ^ 32)
    × (base_of gdt'.tss ≡ 0xffffffff80201000 % 2 ^ 32)
    × (sizeof_tss ≤ limit_of gdt'.tss + 1)
    × (tss.iopb ≡ sizeof_tss)
    × (descriptor.size + 1 ≡ 6 * 8)
    × (record default_gdt { tss = gdt'.tss } ≡ gdt')
gdt_init-base_example = gdt_init-base 0xffffffff80201000 0x5000 default_gdt
