-- ===== src/Pmm/Memory.antt =====
-- `pmm_realloc` and `pmm_calloc` of kernel/mem/pmm.c, over the memory that the blocks stand for.
pub mod Laws
use osakauss.Common.{ℕ}
use osakauss.Klibc.Mem.{Memory, Ptr, memset, memcpy}
use osakauss.Pmm.{Pmm, pmm_alloc, pmm_free}

pub record Machine : Type 0 where
  pub pmm : Pmm
  pub mem : Memory

-- Neither function looks at the pointer that `pmm_alloc` returns.
unfoldable pub pmm_realloc : Machine → Ptr → ℕ → Ptr × Machine
pmm_realloc m ptr size =
    let (ptr1, p) = pmm_alloc m.pmm size in
    let (mem, _) = memcpy m.mem ptr1 ptr size in (ptr1, record { pmm = pmm_free p ptr; mem = mem })

unfoldable pub pmm_calloc : Machine → ℕ → Ptr × Machine
pmm_calloc m size =
    let (ptr, p) = pmm_alloc m.pmm size in
    let (mem, _) = memset m.mem ptr 0 size in (ptr, record { pmm = p; mem = mem })
