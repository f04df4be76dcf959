-- ===== src/Pmm/Init/Laws.antt =====
-- `pmmInit` of kernel/mem/pmm.c against the memory map: which blocks are FREE after it.
use osakauss.Common.{
  ℕ, zero, suc, ◌+◌, ◌-◌, ◌/◌, ◌%◌, ◌^◌, ◌<◌, ◌≤◌, ◌≡◌, refl, ap, ◌∙◌, true, false, List, [], ◌∷◌,
  Option, none, some, Bool-cases, inl, inr, ◌⊎◌, arith, ltb, ◌==◌, if◌then◌else◌,
}
use osakauss.Pmm.{MemoryStats, Pmm, get_block, set_blocks, block_size, address2blockoffset}
use osakauss.Pmm.Blocks.{
  max_blocks, within, get_block-set_blocks, SameRest, SameRest-refl, SameRest-trans,
  set_blocks-SameRest,
}
use osakauss.Pmm.Scan.{AllFree}
use osakauss.Pmm.Init.{
  MmapEntry, blocks_in, count_entries, status_of, init_blocks, is_free, all_free,
  pmm_alloc_ataddress,
}

-- What the map says of block `j`: the blocks of its entries, one entry after the other.
unfoldable pub state_at : List MmapEntry → ℕ → Option MemoryStats
state_at [] j = none
state_at (e ∷ es) j =
    if ltb j (blocks_in e) then some (status_of e) else state_at es (j - blocks_in e)

init_blocks_below :
    (es : List MmapEntry) (p : Pmm) (from j : ℕ)
    → from + count_entries es ≤ max_blocks
    → j < from
    → get_block (init_blocks p from es) j ≡ get_block p j
unfolding init_blocks count_entries
init_blocks_below [] p from j h lt = refl
init_blocks_below (e ∷ es) p from j h lt =
    let q = set_blocks (status_of e) p from (blocks_in e) in
    init_blocks_below es q (from + blocks_in e) j (omega arith) (omega arith)
    ∙ ground (
      arith,
      get_block-set_blocks (status_of e) p from (blocks_in e) j (omega arith) (omega arith),
    )

-- The third loop of `pmmInit` gives each block the state that the memory map says, from the block
-- number at which it starts: FREE in an entry of type 1, UNUSABLE in any other.
pub init_blocks-state_at :
    (es : List MmapEntry) (p : Pmm) (from j : ℕ) (value : MemoryStats)
    → from + count_entries es ≤ max_blocks
    → state_at es j ≡ some value
    → get_block (init_blocks p from es) (from + j) ≡ value
unfolding init_blocks count_entries state_at
init_blocks-state_at [] p from j value h e = cc
init_blocks-state_at (x ∷ es) p from j value h e = elim (Bool-cases (ltb j (blocks_in x))) [
  | inl here ↦
      init_blocks_below es q (from + blocks_in x) (from + j) (omega arith) (ground arith)
      ∙ ground (
        arith,
        get_block-set_blocks (status_of x) p from (blocks_in x) (from + j) (omega arith)
            (ground arith),
      )
  | inr later ↦
      ap (get_block (init_blocks q (from + blocks_in x) es)) (ground arith)
      ∙ init_blocks-state_at es q (from + blocks_in x) (j - blocks_in x) value (omega arith)
          (ground arith)
]
  where
    q : Pmm
    q = set_blocks (status_of x) p from (blocks_in x)

all_free-AllFree : (p : Pmm) (from n : ℕ) → all_free p from n ≡ true → AllFree p from (from + n)
unfolding all_free is_free
all_free-AllFree p from zero h v lo hi = absurd (omega arith)
all_free-AllFree p from (suc n) h v lo hi = elim (Bool-cases (from == v)) [
  | inl same ↦ let e : v ≡ from = ground arith in rw e (ground arith)
  | inr other ↦ all_free-AllFree p (from + 1) n (ground arith) v (ground arith) (omega arith)
]

-- What a successful `pmm_alloc_ataddress` does to the `count` blocks from `block` on.
pub record Reserved (p q : Pmm) (value : MemoryStats) (block count : ℕ) : Type 0 where
  pub was_free : AllFree p block (block + count)
  pub blocks :
      (j : ℕ)
      → j < max_blocks
      → get_block q j ≡ (if within block count j then value else get_block p j)
  pub entries : q.bitmap_.entries ≡ p.bitmap_.entries

abbrev pub block_of : ℕ → ℕ
block_of addr = address2blockoffset addr % 2 ^ 32

-- `pmm_alloc_ataddress` fails and changes nothing, or the whole blocks of `amount` from the one that
-- it computes for the address were FREE, and it sets exactly those. A rest of `amount` that does not
-- fill a block is not reserved.
pub pmm_alloc_ataddress-Reserved :
    (p : Pmm) (addr amount : ℕ) (value : MemoryStats)
    → block_of addr + amount / block_size ≤ max_blocks
    → (pmm_alloc_ataddress p addr amount value ≡ (false, p))
      ⊎ (((pmm_alloc_ataddress p addr amount value).0 ≡ true)
          × Reserved p
              (pmm_alloc_ataddress p addr amount value).1
              value
              (block_of addr)
              (amount / block_size))
unfolding pmm_alloc_ataddress get_block
pmm_alloc_ataddress-Reserved p addr amount value small =
    elim (Bool-cases (all_free p (block_of addr) (amount / block_size))) [
      | inl yes_free ↦ rw yes_free (
          inr (
            refl,
            record {
              was_free = all_free-AllFree p (block_of addr) (amount / block_size) yes_free;
              blocks = λ j hj.
                  get_block-set_blocks value p (block_of addr) (amount / block_size) j small hj;
              entries = (set_blocks-SameRest value p (block_of addr) (amount / block_size)).entries;
            },
          ))
      | inr taken ↦ rw taken (inl refl)
    ]

-- `pmmInit` changes nothing else while it sets the states.
pub init_blocks-SameRest :
    (es : List MmapEntry) (p : Pmm) (from : ℕ) → SameRest p (init_blocks p from es)
unfolding init_blocks
init_blocks-SameRest [] p from = SameRest-refl p
init_blocks-SameRest (e ∷ es) p from =
    SameRest-trans (set_blocks-SameRest (status_of e) p from (blocks_in e))
      (init_blocks-SameRest es (set_blocks (status_of e) p from (blocks_in e)) (from + blocks_in e))

-- The map says something of the blocks that it counts only.
pub state_at-lt :
    (es : List MmapEntry) (j : ℕ) (value : MemoryStats)
    → state_at es j ≡ some value
    → j < count_entries es
unfolding state_at count_entries
state_at-lt [] j value e = absurd (ground arith)
state_at-lt (x ∷ es) j value e = elim (Bool-cases (ltb j (blocks_in x))) [
  | inl here ↦ ground arith
  | inr later ↦ ground (arith, state_at-lt es (j - blocks_in x) value)
]
