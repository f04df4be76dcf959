-- ===== src/Pmm/Blocks.antt =====
-- The block states of kernel/mem/pmm.c as a map from block numbers to states.
use osakauss.Common.{
  ℕ, zero, suc, ◌+◌, ◌^◌, ◌<◌, ◌≤◌, ◌≡◌, refl, ◌∙◌, Bool, ◌&&◌, arith, ltb, leb, ◌==◌,
  if◌then◌else◌,
}
use osakauss.Bitmap.{BitMapS, bit_map_get_bit, bit_map_set_bit, bit_map_clr_bit}
use osakauss.Bitmap.Laws.{get_bit-set_bit, get_bit-clr_bit}
use osakauss.Pmm.{
  MemoryStats, free, unusable, in_use, Pmm, first_bit, second_bit, set_bits, set_block,
  block_status, get_block, set_blocks,
}

-- Block numbers for which no bit number leaves the range of `int`: four terabytes of memory.
abbrev pub max_blocks : ℕ
max_blocks = 2 ^ 30

-- the two bits of each state
abbrev first_of : MemoryStats → ℕ
first_of free = 0
first_of unusable = 1
first_of in_use = 1

abbrev second_of : MemoryStats → ℕ
second_of free = 0
second_of unusable = 0
second_of in_use = 1

module _ (m : BitMapS) (i k : ℕ) (hi : i < max_blocks) (hk : k < 2 ^ 31) where
  get_bit-set_bits :
      (value : MemoryStats)
      → bit_map_get_bit (set_bits m i value) k ≡ (
          if first_bit i == k
          then first_of value
          else if second_bit i == k
          then second_of value
          else bit_map_get_bit m k)
  unfolding set_bits
  get_bit-set_bits free = ground (
    arith,
    get_bit-clr_bit (bit_map_clr_bit m (first_bit i)).0 (second_bit i) k,
    get_bit-clr_bit m (first_bit i) k,
  )
  get_bit-set_bits unusable = ground (
    arith,
    get_bit-clr_bit (bit_map_set_bit m (first_bit i)).0 (second_bit i) k,
    get_bit-set_bit m (first_bit i) k,
  )
  get_bit-set_bits in_use = ground (
    arith,
    get_bit-set_bit (bit_map_set_bit m (first_bit i)).0 (second_bit i) k,
    get_bit-set_bit m (first_bit i) k,
  )

block_status-of : (value : MemoryStats) → block_status (first_of value + second_of value) ≡ value
unfolding block_status
block_status-of free = refl
block_status-of unusable = refl
block_status-of in_use = refl

-- For block numbers below 2 ^ 30, `GetBlock` after `SetBlock` gives the value set, and at every other
-- block the value that was there.
pub get_block-set_block :
    (p : Pmm) (i j : ℕ) (value : MemoryStats)
    → i < max_blocks
    → j < max_blocks
    → get_block (set_block p i value) j ≡ (if i == j then value else get_block p j)
unfolding get_block set_block
get_block-set_block p i j value hi hj = ground (
  arith,
  get_bit-set_bits p.bitmap_ i (first_bit j) hi (omega arith) value,
  get_bit-set_bits p.bitmap_ i (second_bit j) hi (omega arith) value,
  block_status-of value,
)

-- Is `j` one of the `n` numbers from `from` on?
abbrev pub within : ℕ → ℕ → ℕ → Bool
within from n j = leb from j && ltb j (from + n)

-- The marking loops of `pmm_alloc` and `pmm_free` set the `n` blocks from `from` on, and no other.
pub get_block-set_blocks :
    (value : MemoryStats) (p : Pmm) (from n j : ℕ)
    → from + n ≤ max_blocks
    → j < max_blocks
    → get_block (set_blocks value p from n) j ≡ (if within from n j then value else get_block p j)
unfolding set_blocks
get_block-set_blocks value p from zero j h hj = ground arith
get_block-set_blocks value p from (suc n) j h hj = ground (
  arith,
  get_block-set_blocks value (set_block p from value) (from + 1) n j (omega arith) hj,
  get_block-set_block p from j value (omega arith) hj,
)

-- What the marking loops leave alone.
pub record SameRest (p q : Pmm) : Type 0 where
  pub start : q.start_address ≡ p.start_address
  pub entries : q.bitmap_.entries ≡ p.bitmap_.entries
  pub counts : q.block_entries ≡ p.block_entries
  pub bits_at : q.bitmap_at ≡ p.bitmap_at
  pub counts_at : q.block_entries_at ≡ p.block_entries_at

pub SameRest-refl : (p : Pmm) → SameRest p p
SameRest-refl p = record {
  start = refl;
  entries = refl;
  counts = refl;
  bits_at = refl;
  counts_at = refl;
}

pub SameRest-trans : {p q r : Pmm} → SameRest p q → SameRest q r → SameRest p r
SameRest-trans a b = record {
  start = b.start ∙ a.start;
  entries = b.entries ∙ a.entries;
  counts = b.counts ∙ a.counts;
  bits_at = b.bits_at ∙ a.bits_at;
  counts_at = b.counts_at ∙ a.counts_at;
}

set_block-SameRest : (p : Pmm) (i : ℕ) (value : MemoryStats) → SameRest p (set_block p i value)
unfolding set_block set_bits bit_map_set_bit bit_map_clr_bit
set_block-SameRest p i free = record {
  start = refl;
  entries = refl;
  counts = refl;
  bits_at = refl;
  counts_at = refl;
}
set_block-SameRest p i unusable = record {
  start = refl;
  entries = refl;
  counts = refl;
  bits_at = refl;
  counts_at = refl;
}
set_block-SameRest p i in_use = record {
  start = refl;
  entries = refl;
  counts = refl;
  bits_at = refl;
  counts_at = refl;
}

pub set_blocks-SameRest :
    (value : MemoryStats) (p : Pmm) (from n : ℕ) → SameRest p (set_blocks value p from n)
unfolding set_blocks
set_blocks-SameRest value p from zero = SameRest-refl p
set_blocks-SameRest value p from (suc n) =
    SameRest-trans (set_block-SameRest p from value)
      (set_blocks-SameRest value (set_block p from value) (from + 1) n)
