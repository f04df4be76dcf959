-- ===== src/Pmm.antt =====
-- kernel/mem/pmm.c: the physical memory manager, two bits of the bitmap for each block.
-- `Pmm` holds the file's globals. The bitmap and `block_entries` are arrays of their own here, beside
-- the memory that they describe (`Pmm.Memory`); `bitmap_at` and `block_entries_at` are the addresses
-- at which `pmmInit` puts them.
pub mod Blocks
pub mod Scan
pub mod Alloc
pub mod Init
pub mod Live
pub mod Memory
mod Tests
use osakauss.Common.{
  ℕ, zero, suc, ◌+◌, ◌-◌, ◌*◌, ◌/◌, ◌%◌, ◌^◌, Bool, true, false, leb, ◌==◌, if◌then◌else◌,
}
use osakauss.Bitmap.{Words, update, BitMapS, bit_map_get_bit, bit_map_set_bit, bit_map_clr_bit}

abbrev pub block_size : ℕ
block_size = 0x1000

-- `enum MEMORY_STATS`
pub data MemoryStats : Type 0 where
  free unusable in_use : MemoryStats

pub record Pmm : Type 0 where
  pub start_address : ℕ
  pub end_address : ℕ
  pub bitmap_ : BitMapS
  pub bitmap_at : ℕ
  pub block_entries : Words
  pub block_entries_at : ℕ

-- the two bits of block `idx`
abbrev pub first_bit : ℕ → ℕ
first_bit idx = idx * 2 % 2 ^ 64

abbrev pub second_bit : ℕ → ℕ
second_bit idx = (idx * 2 + 1) % 2 ^ 64

set_bits : BitMapS → ℕ → MemoryStats → BitMapS
set_bits m idx free = (bit_map_clr_bit (bit_map_clr_bit m (first_bit idx)).0 (second_bit idx)).0
set_bits m idx in_use = (bit_map_set_bit (bit_map_set_bit m (first_bit idx)).0 (second_bit idx)).0
set_bits m idx unusable = (bit_map_clr_bit (bit_map_set_bit m (first_bit idx)).0 (second_bit idx)).0

unfoldable pub set_block : Pmm → ℕ → MemoryStats → Pmm
unfolding set_bits
set_block p idx value = record p { bitmap_ = set_bits p.bitmap_ idx value }

block_status : ℕ → MemoryStats
block_status block =
    if block == 0
    then free
    else if block == 1
    then unusable
    else if block == 2
    then in_use
    else unusable

unfoldable pub get_block : Pmm → ℕ → MemoryStats
unfolding block_status
get_block p idx =
    block_status
      (bit_map_get_bit p.bitmap_ (first_bit idx) + bit_map_get_bit p.bitmap_ (second_bit idx))

unfoldable pub address2blockoffset : ℕ → ℕ
address2blockoffset addr = (addr / block_size + 2 ^ 64 - 1) % 2 ^ 64

-- `for (v = from; …; v++) SetBlock(v, value)`, with the rounds that are left
unfoldable pub set_blocks : MemoryStats → Pmm → ℕ → ℕ → Pmm
set_blocks value p from zero = p
set_blocks value p from (suc n) = set_blocks value (set_block p from value) (from + 1) n

-- the variables of the loop that looks for a free section
pub record Section : Type 0 where
  pub start : ℕ
  pub end : ℕ
  pub amnt : ℕ
  pub f_free_section : Bool

abbrev pub no_section : Section
no_section = record { start = 0; end = 0; amnt = 0; f_free_section = false }

visit_block : MemoryStats → ℕ → Section → Section
visit_block free i s = record {
  start = if s.f_free_section then s.start else i;
  end = i;
  amnt = (s.amnt + block_size) % 2 ^ 64;
  f_free_section = true;
}
visit_block unusable i s = no_section
visit_block in_use i s = no_section

-- The loop over `i`, with the rounds that are left.
unfoldable pub find_section : Pmm → ℕ → ℕ → ℕ → Section → Section
unfolding visit_block
find_section p amount zero i s = s
find_section p amount (suc n) i s =
    let rest = find_section p amount n (i + 1) (visit_block (get_block p i) i s) in
    if leb amount s.amnt then s else rest

-- The rest of `pmm_alloc`, once a section is found: the address, and the new state.
unfoldable pub take_section : Pmm → Section → ℕ × Pmm
take_section p s =
    let block_count = s.end + 1 - s.start in
    let marked = set_blocks in_use p s.start block_count in
    (
      (p.start_address + s.start * block_size) % 2 ^ 64,
      record marked { block_entries = update marked.block_entries s.start (block_count % 2 ^ 32) },
    )

-- `pmm_alloc`: the address, 0 for NULL, and the new state. The loop runs for `i <= entries`.
unfoldable pub pmm_alloc : Pmm → ℕ → ℕ × Pmm
pmm_alloc p amount =
    let s = find_section p amount (p.bitmap_.entries + 1) 0 no_section in
    if s.amnt == 0 then (0, p) else take_section p s

unfoldable pub pmm_free : Pmm → ℕ → Pmm
pmm_free p addr =
    let block = address2blockoffset addr in
    set_blocks free p block (p.block_entries (block % 2 ^ 32))
