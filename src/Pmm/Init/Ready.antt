-- ===== src/Pmm/Init/Ready.antt =====
-- The state in which `pmmInit` of kernel/mem/pmm.c returns.
use mathlib.Core.Path.{subst₂}
use osakauss.Common.{
  ℕ, ◌+◌, ◌-◌, ◌*◌, ◌/◌, ◌%◌, ◌^◌, ◌≤◌, ◌≡◌, refl, ap, ◌∙◌, Bool, true, false, ◌||◌, ◌&&◌, not, leb,
  ltb, List, none, some, inl, inr, arith, if◌then◌else◌,
}
use osakauss.Bitmap.{Words}
use osakauss.Pmm.{MemoryStats, free, unusable, Pmm, get_block, block_size, address2blockoffset}
use osakauss.Pmm.Blocks.{max_blocks, within, SameRest}
use osakauss.Pmm.Init.{
  MmapEntry, base_or, count_entries, find_space, init_blocks, pmm_alloc_ataddress, start_state,
  reserve_tables, pmm_init,
}
use osakauss.Pmm.Init.Laws.{
  state_at, init_blocks-state_at, init_blocks-SameRest, state_at-lt, Reserved, block_of,
  pmm_alloc_ataddress-Reserved,
}

-- the page in which block `j` begins, where the first block begins at `base`
abbrev pub page_of : ℕ → ℕ → ℕ
page_of base j = (base + j * block_size) / block_size

-- Is the page of block `j` one of the whole pages that are counted for a table of `bytes` bytes at `addr`?
abbrev pub reserved : List MmapEntry → ℕ → ℕ → ℕ → Bool
reserved memmap addr bytes j =
    let page = page_of (base_or 0 memmap) j in
    leb (addr / block_size) page && ltb page (addr / block_size + bytes / block_size)

shifted_within :
    (first count j : ℕ)
    → 1 ≤ first
    → (leb first (j + 1) && ltb (j + 1) (first + count)) ≡ within (first - 1) count j
shifted_within first count j le = ground arith

-- In a map that begins in the second page, they are those that the code computes.
reserved-within :
    (memmap : List MmapEntry) (addr bytes j : ℕ)
    → base_or 0 memmap / block_size ≡ 1
    → block_size ≤ addr
    → addr ≤ max_blocks * block_size
    → reserved memmap addr bytes j ≡ within (block_of addr) (bytes / block_size) j
unfolding address2blockoffset
reserved-within memmap addr bytes j second above low =
    let page : page_of (base_or 0 memmap) j ≡ j + 1 = omega (arith, second) in
    let block : block_of addr ≡ addr / block_size - 1 = omega (arith, above, low) in
    rw (page, block) (shifted_within (addr / block_size) (bytes / block_size) j (omega arith))

reserve_ok :
    (p : Pmm) (addr amount : ℕ)
    → block_of addr + amount / block_size ≤ max_blocks
    → (pmm_alloc_ataddress p addr amount unusable).0 ≡ true
    → Reserved p
        (pmm_alloc_ataddress p addr amount unusable).1
        unusable
        (block_of addr)
        (amount / block_size)
reserve_ok p addr amount fits done =
    elim (pmm_alloc_ataddress-Reserved p addr amount unusable fits) [
      | inl failed ↦ absurd (ground (arith, failed))
      | inr ok ↦ ok.1
    ]

both_done :
    (a b : Bool) (r : Pmm) {r' : Pmm}
    → (if not a || not b then none else some r) ≡ some r'
    → (a ≡ true) × (b ≡ true) × (r ≡ r')
both_done true true r e = (refl, refl, cc)
both_done true false r e = absurd (ground arith)
both_done false b r e = absurd (ground arith)

-- Both tables are reserved, the second in the state that the first leaves.
pub record BothReserved (p r : Pmm) (entries at at' : ℕ) : Type 0 where
  pub between : Pmm
  pub bits : Reserved p between unusable (block_of at) (entries * 2 / block_size)
  pub counts : Reserved between r unusable (block_of at') (entries * 4 / block_size)

reserve_tables-BothReserved :
    (p : Pmm) (entries : ℕ) {r : Pmm}
    → entries ≤ max_blocks
    → block_of p.bitmap_at + entries * 2 / block_size ≤ max_blocks
    → block_of p.block_entries_at + entries * 4 / block_size ≤ max_blocks
    → reserve_tables p entries ≡ some r
    → BothReserved p r entries p.bitmap_at p.block_entries_at
unfolding reserve_tables
reserve_tables-BothReserved p entries {r} few fits fits' e =
    let two : entries * 2 % 2 ^ 64 ≡ entries * 2 = omega arith in
    let four : entries * 4 % 2 ^ 64 ≡ entries * 4 = omega arith in
    let e' = rw (two, four) at e in
    let x = pmm_alloc_ataddress p p.bitmap_at (entries * 2) unusable in
    let y = pmm_alloc_ataddress x.1 p.block_entries_at (entries * 4) unusable in
    let (a, b, same) = both_done x.0 y.0 y.1 e' in
    record {
      between = x.1;
      bits = reserve_ok p p.bitmap_at (entries * 2) fits a;
      counts = rw same at (reserve_ok x.1 p.block_entries_at (entries * 4) fits' b);
    }

-- The state that `pmmInit` leaves: it knows the blocks of the memory map, and a block has the state that
-- the map says, but the blocks in the pages of the bitmap or of `block_entries` are UNUSABLE, and the
-- map says of them that they are FREE.
pub record IsReady (memmap : List MmapEntry) (at : ℕ) (p : Pmm) : Type 0 where
  pub entries : p.bitmap_.entries ≡ count_entries memmap
  pub states :
      (j : ℕ) (value : MemoryStats)
      → state_at memmap j ≡ some value
      → get_block p j ≡ (
          if reserved memmap at (count_entries memmap * 2) j
            || reserved memmap (at + count_entries memmap * 2) (count_entries memmap * 4) j
          then unusable
          else value)
  pub bits_free :
      (j : ℕ) (value : MemoryStats)
      → state_at memmap j ≡ some value
      → reserved memmap at (count_entries memmap * 2) j ≡ true
      → value ≡ free
  pub counts_free :
      (j : ℕ) (value : MemoryStats)
      → state_at memmap j ≡ some value
      → reserved memmap (at + count_entries memmap * 2) (count_entries memmap * 4) j ≡ true
      → (value ≡ free) × (reserved memmap at (count_entries memmap * 2) j ≡ false)

module _ (bits counts : Words) (memmap : List MmapEntry) (at : ℕ)
    (few : count_entries memmap ≤ max_blocks) (above : block_size ≤ at)
    (low : at + count_entries memmap * 6 ≤ max_blocks * block_size)
    (second : base_or 0 memmap / block_size ≡ 1) where
  abbrev n : ℕ
  n = count_entries memmap

  abbrev initial : Pmm
  initial = init_blocks (start_state bits counts memmap at) 0 memmap

  initial_state :
      (j : ℕ) (value : MemoryStats) → state_at memmap j ≡ some value → get_block initial j ≡ value
  initial_state j value e =
      let z : j ≡ 0 + j = omega arith in
      ap (get_block initial) z
      ∙ init_blocks-state_at memmap (start_state bits counts memmap at) 0 j value (omega arith) e

  in_bits : (j : ℕ) → reserved memmap at (n * 2) j ≡ within (block_of at) (n * 2 / block_size) j
  in_bits j = reserved-within memmap at (n * 2) j second above (omega (arith, low))

  in_counts :
      (j : ℕ)
      → reserved memmap (at + n * 2) (n * 4) j
        ≡ within (block_of (at + n * 2)) (n * 4 / block_size) j
  in_counts j =
      reserved-within memmap (at + n * 2) (n * 4) j second (omega (arith, above))
        (omega (arith, low))

  BothReserved-IsReady :
      {p : Pmm}
      → initial.bitmap_.entries ≡ n
      → BothReserved initial p n at (at + n * 2)
      → IsReady memmap at p
  BothReserved-IsReady {p} en both = record {
    entries = both.counts.entries ∙ both.bits.entries ∙ en;
    states = λ j value s.
        rw (in_bits j, in_counts j)
          (ground (
            arith,
            state_at-lt memmap j value,
            initial_state j value,
            both.counts.blocks j,
            both.bits.blocks j,
          ));
    bits_free = λ j value s r.
        ground (arith, rw (in_bits j) at r, initial_state j value, both.bits.was_free j);
    counts_free = λ j value s r. rw (in_bits j) (
        ground (
          arith,
          rw (in_counts j) at r,
          state_at-lt memmap j value,
          initial_state j value,
          both.counts.was_free j,
          both.bits.blocks j,
        ));
  }

-- Where `pmmInit` returns, for a memory map of at most 2 ^ 30 blocks that begins in the second page, and
-- tables at `at` that lie between the second page and the end of the addressable blocks: each block
-- that the map counts has the state that the map says, but the blocks in the whole pages that are
-- counted for the two tables are UNUSABLE, and those are blocks that the map says are FREE. A rest of a
-- table that fills no page is not reserved.
pub pmm_init-IsReady :
    (bits counts : Words) (memmap : List MmapEntry) {at : ℕ} {p : Pmm}
    → count_entries memmap ≤ max_blocks
    → block_size ≤ at
    → at + count_entries memmap * 6 ≤ max_blocks * block_size
    → base_or 0 memmap / block_size ≡ 1
    → find_space (count_entries memmap) memmap ≡ some at
    → pmm_init bits counts memmap ≡ some p
    → IsReady memmap at p
unfolding pmm_init
pmm_init-IsReady bits counts memmap {at} {p} few above low second space done =
    BothReserved-IsReady bits counts memmap at few above low second ent (
      subst₂ (BothReserved q p n') b c
        (reserve_tables-BothReserved q n' few fits fits' (rw (pmm_init, space) at done)))
  where
    n' : ℕ
    n' = count_entries memmap

    q : Pmm
    q = init_blocks (start_state bits counts memmap at) 0 memmap

    rest : SameRest (start_state bits counts memmap at) q
    rest = init_blocks-SameRest memmap (start_state bits counts memmap at) 0

    ent : q.bitmap_.entries ≡ n'
    ent = unfold start_state in rest.entries

    b : q.bitmap_at ≡ at
    b = unfold start_state in rest.bits_at

    c : q.block_entries_at ≡ at + n' * 2
    c = unfold start_state in (rest.counts_at ∙ omega arith)

    fits : block_of q.bitmap_at + n' * 2 / block_size ≤ max_blocks
    fits = unfold address2blockoffset in rw b (omega arith)

    fits' : block_of q.block_entries_at + n' * 4 / block_size ≤ max_blocks
    fits' = unfold address2blockoffset in rw c (omega arith)
