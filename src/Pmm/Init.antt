-- ===== src/Pmm/Init.antt =====
-- `pmmInit` and `pmm_alloc_ataddress` of kernel/mem/pmm.c: the block states that a memory map gives.
pub mod Laws
pub mod Ready
use osakauss.Common.{
  ℕ, zero, suc, ◌+◌, ◌-◌, ◌*◌, ◌/◌, ◌%◌, ◌^◌, ap, Bool, true, false, ◌&&◌, ◌||◌, not, List, [], ◌∷◌,
  Option, none, some, ltb, ◌==◌, if◌then◌else◌,
}
use osakauss.Bitmap.{Words, update}
use osakauss.Pmm.{
  MemoryStats, free, unusable, in_use, Pmm, get_block, set_blocks, block_size, address2blockoffset,
}

-- `struct stivale2_mmap_entry`; type 1 is usable memory.
pub record MmapEntry : Type 0 where
  pub base : ℕ
  pub length : ℕ
  pub type : ℕ

abbrev pub blocks_in : MmapEntry → ℕ
blocks_in e = e.length / block_size

-- the first loop: how many blocks the map has
unfoldable pub count_entries : List MmapEntry → ℕ
count_entries [] = 0
count_entries (e ∷ es) = blocks_in e + count_entries es

-- the second loop: the base of the first usable entry with room for both tables
unfoldable pub find_space : ℕ → List MmapEntry → Option ℕ
find_space entries [] = none
find_space entries (e ∷ es) =
    if ltb ((entries * 2 + entries * 4) % 2 ^ 64) e.length && (e.type == 1)
    then some e.base
    else find_space entries es

abbrev status_of : MmapEntry → MemoryStats
status_of e = if e.type == 1 then free else unusable

-- the third loop, with the running block number
unfoldable pub init_blocks : Pmm → ℕ → List MmapEntry → Pmm
init_blocks p entries [] = p
init_blocks p entries (e ∷ es) =
    init_blocks (set_blocks (status_of e) p entries (blocks_in e)) (entries + blocks_in e) es

-- the check loop of `pmm_alloc_ataddress`, with the rounds that are left
is_free : MemoryStats → Bool
is_free free = true
is_free unusable = false
is_free in_use = false

all_free : Pmm → ℕ → ℕ → Bool
all_free p from zero = true
all_free p from (suc n) = is_free (get_block p from) && all_free p (from + 1) n

unfoldable pub pmm_alloc_ataddress : Pmm → ℕ → ℕ → MemoryStats → Bool × Pmm
unfolding all_free is_free
pmm_alloc_ataddress p addr amount state =
    let block = address2blockoffset addr % 2 ^ 32 in
    let n = amount / block_size in
    let marked = set_blocks state p block n in
    if all_free p block n
    then (true, record marked { block_entries = update marked.block_entries block (n % 2 ^ 32) })
    else (false, p)

abbrev pub base_or : ℕ → List MmapEntry → ℕ
base_or d [] = d
base_or d (e ∷ es) = e.base

last_base : ℕ → List MmapEntry → ℕ
last_base d [] = d
last_base d (e ∷ es) = last_base e.base es

-- the state before the third loop; `bits` and `counts` are what the memory happens to hold
unfoldable pub start_state : Words → Words → List MmapEntry → ℕ → Pmm
unfolding last_base
start_state bits counts memmap at =
    let entries = count_entries memmap in
    record {
      start_address = base_or 0 memmap;
      end_address = last_base 0 memmap;
      bitmap_ = record { bitmap = bits; bitmap_setup = true; entries = entries };
      bitmap_at = at;
      block_entries = counts;
      block_entries_at = (at + entries * 2) % 2 ^ 64;
    }

-- the two calls at the end, with what `pmmInit` makes of their results: `none` is KERNEL_ERROR,
-- which does not return
unfoldable pub reserve_tables : Pmm → ℕ → Option Pmm
unfolding pmm_alloc_ataddress
reserve_tables p entries =
    let (bitmap_allocation, q) =
      pmm_alloc_ataddress p p.bitmap_at (entries * 2 % 2 ^ 64) unusable in
    let (entries_allocation, r) =
      pmm_alloc_ataddress q p.block_entries_at (entries * 4 % 2 ^ 64) unusable in
    if not bitmap_allocation || not entries_allocation then none else some r

unfoldable pub pmm_init : Words → Words → List MmapEntry → Option Pmm
pmm_init bits counts memmap =
    let entries = count_entries memmap in
    elim (find_space entries memmap) [
      | none ↦ none
      | some at ↦ reserve_tables (init_blocks (start_state bits counts memmap at) 0 memmap) entries
    ]
