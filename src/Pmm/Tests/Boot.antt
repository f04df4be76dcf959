-- ===== src/Pmm/Tests/Boot.antt =====
-- `pmmInit`, `pmm_realloc` and `pmm_calloc` of kernel/mem/pmm.c at concrete inputs.
use osakauss.Common.{
  ℕ, ◌+◌, ◌*◌, ◌<◌, ◌≡◌, refl, ◌⊎◌, true, false, List, [], ◌∷◌, none, some, arith, if◌then◌else◌,
}
use osakauss.Bitmap.{
  bit_map_get_bit, bit_map_set_bit, bit_map_clr_bit, get_bit, set_bit, clr_bit, sector_of,
}
use osakauss.Bits.Word.{shl_one, complement, sar}
use osakauss.Klibc.Mem.{memcpy}
use osakauss.Klibc.Mem.Laws.{in_range}
use osakauss.Pmm.{
  free, unusable, Pmm, get_block, set_block, set_blocks, find_section, take_section, pmm_alloc,
  pmm_free, block_size, address2blockoffset,
}
use osakauss.Pmm.Init.{
  MmapEntry, count_entries, find_space, init_blocks, pmm_alloc_ataddress, start_state,
  reserve_tables, pmm_init,
}
use osakauss.Pmm.Init.Laws.{state_at, init_blocks-state_at, Reserved, pmm_alloc_ataddress-Reserved}
use osakauss.Pmm.Init.Ready.{IsReady, pmm_init-IsReady}
use osakauss.Pmm.Live.{Live}
use osakauss.Pmm.Blocks.{within}
use osakauss.Pmm.Memory.{Machine, pmm_realloc, pmm_calloc}
use osakauss.Pmm.Memory.Laws.{pmm_realloc_lem, pmm_calloc_lem, pmm_realloc-null}
use osakauss.Pmm.Tests.{tiny, after, after-IsUsual, Live-two, then_taken}

-- three usable pages from the second page on, and one that is not
abbrev map : List MmapEntry
map =
    record { base = 0x1000; length = 0x3000; type = 1 }
    ∷ record { base = 0x4000; length = 0x1fff; type = 2 }
    ∷ []

booted : Pmm
unfolding pmm_init
booted = elim (pmm_init (λ _. 0xffff_ffff) (λ _. 7) map) [ none ↦ tiny | some p ↦ p ]

booted_lem : pmm_init (λ _. 0xffff_ffff) (λ _. 7) map ≡ some booted
unfolding booted pmm_init reserve_tables pmm_alloc_ataddress find_space count_entries init_blocks
booted_lem = refl

booted_last : get_block booted 3 ≡ unusable
unfolding booted pmm_init reserve_tables pmm_alloc_ataddress find_space count_entries init_blocks
    start_state set_blocks set_block bit_map_clr_bit clr_bit complement shl_one bit_map_set_bit
    set_bit get_block bit_map_get_bit get_bit sector_of sar
booted_last = refl

pmm_init-IsReady_example : IsReady map 0x1000 booted
unfolding count_entries find_space
pmm_init-IsReady_example =
    pmm_init-IsReady (λ _. 0xffff_ffff) (λ _. 7) map (omega arith) (omega arith) (omega arith)
      (omega arith) refl booted_lem

init_blocks-state_at_example : get_block (init_blocks tiny 0 map) (0 + 3) ≡ unusable
unfolding count_entries state_at
init_blocks-state_at_example = init_blocks-state_at map tiny 0 3 unusable (omega arith) refl

pmm_alloc_ataddress-Reserved_example :
    (pmm_alloc_ataddress tiny 0x2000 0x1800 unusable ≡ (false, tiny))
    ⊎ (((pmm_alloc_ataddress tiny 0x2000 0x1800 unusable).0 ≡ true)
        × Reserved tiny (pmm_alloc_ataddress tiny 0x2000 0x1800 unusable).1 unusable 1 1)
unfolding address2blockoffset
pmm_alloc_ataddress-Reserved_example =
    pmm_alloc_ataddress-Reserved tiny 0x2000 0x1800 unusable (omega arith)

abbrev machine : Machine
machine = record { pmm = after; mem = λ a. a }

pmm_realloc_lem_example :
    Live (pmm_realloc machine 0x1000 100).1.pmm (pmm_realloc machine 0x1000 100).0 2 1
    × ((i : ℕ)
        → i < 100
        → i < 2 * block_size
        → (pmm_realloc machine 0x1000 100).1.mem ((pmm_realloc machine 0x1000 100).0 + i)
          ≡ 0x1000 + i)
    × ((j : ℕ) → within 0 2 j ≡ true → get_block (pmm_realloc machine 0x1000 100).1.pmm j ≡ free)
pmm_realloc_lem_example =
    pmm_realloc_lem machine 100 after-IsUsual Live-two then_taken (omega arith)

pmm_calloc_lem_example :
    Live (pmm_calloc machine 100).1.pmm (pmm_calloc machine 100).0 2 1
    × ((a : ℕ)
        → (pmm_calloc machine 100).1.mem a
          ≡ (if in_range (pmm_calloc machine 100).0 100 a then 0 else a))
pmm_calloc_lem_example = pmm_calloc_lem machine 100 after-IsUsual (omega arith) then_taken

-- no block of this manager is FREE
abbrev full : Machine
full = record {
  pmm = record tiny {
    bitmap_ = record { bitmap = λ _. 0xffff_ffff; bitmap_setup = true; entries = 3 };
  };
  mem = λ a. a;
}

full_null : pmm_alloc full.pmm 100 ≡ (0, full.pmm)
unfolding pmm_alloc find_section get_block bit_map_get_bit get_bit sector_of sar take_section
full_null = refl

pmm_realloc-null_example :
    ((pmm_realloc full 0x1000 100).0 ≡ 0)
    × ((pmm_realloc full 0x1000 100).1.pmm ≡ pmm_free full.pmm 0x1000)
    × ((pmm_realloc full 0x1000 100).1.mem ≡ (memcpy (λ a. a) 0 0x1000 100).0)
pmm_realloc-null_example = pmm_realloc-null full 0x1000 100 full_null
