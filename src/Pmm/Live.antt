-- ===== src/Pmm/Live.antt =====
-- Blocks in use: what the callers of kernel/mem/pmm.c hold, and that the manager keeps it.
use osakauss.Common.{
  ℕ, ◌+◌, ◌*◌, ◌/◌, ◌%◌, ◌^◌, ◌<◌, ◌≤◌, ◌≡◌, ap, ◌∙◌, ◌⊎◌, true, false, Bool-cases, inl, inr, ◌≢◌,
  ==_refl, ==_ne, arith, if◌then◌else◌,
}
use osakauss.Pmm.{
  free, in_use, Pmm, get_block, set_blocks, block_size, pmm_alloc, pmm_free, address2blockoffset,
}
use osakauss.Pmm.Blocks.{max_blocks, within, get_block-set_blocks, SameRest, set_blocks-SameRest}
use osakauss.Pmm.Alloc.{Allocated, pmm_alloc-Outcome}

-- The memory map begins in the second page, and the block numbers stay in range.
pub record IsUsual (p : Pmm) : Type 0 where
  pub few : p.bitmap_.entries + 1 ≤ max_blocks
  pub second_page : p.start_address / block_size ≡ 1

-- `ptr` is the address of `count` blocks in use from `start` on, with the count recorded.
pub record Live (p : Pmm) (ptr start count : ℕ) : Type 0 where
  pub nonempty : 0 < count
  pub inside : start + count ≤ p.bitmap_.entries + 1
  pub used : (j : ℕ) → within start count j ≡ true → get_block p j ≡ in_use
  pub counted : p.block_entries start ≡ count
  pub address : ptr ≡ p.start_address + start * block_size

module _ {p : Pmm} {amount start count : ℕ} {out : ℕ × Pmm} (usual : IsUsual p)
    (taken : Allocated p amount out start count) where
  pub Allocated-IsUsual : IsUsual out.1
  Allocated-IsUsual = record {
    few = rw taken.entries usual.few;
    second_page = rw taken.base usual.second_page;
  }

  -- What `pmm_alloc` returns is live in the state that it leaves.
  pub Allocated-Live : Live out.1 out.0 start count
  Allocated-Live = record {
    nonempty = taken.nonempty;
    inside = rw taken.entries taken.inside;
    used = λ j here. ground (arith, taken.blocks j, taken.inside, usual.few);
    counted = rw (taken.counts, ==_refl start);
    address =
        rw taken.base (taken.address ∙ omega (arith, usual.few, usual.second_page, taken.inside));
  }

  -- A live block takes part in no allocation.
  pub Allocated-apart :
      {ptr start' count' : ℕ}
      → Live p ptr start' count'
      → (j : ℕ) → within start' count' j ≡ true
      → within start count j ≡ false
  Allocated-apart live j here = elim (Bool-cases (within start count j)) [
    | inl both ↦ ground (arith, taken.was_free j (ground arith) (ground arith), live.used j here)
    | inr apart ↦ apart
  ]

  -- An allocation keeps every block that is live.
  pub Live-Allocated :
      {ptr start' count' : ℕ} → Live p ptr start' count' → Live out.1 ptr start' count'
  Live-Allocated {ptr} {start'} {count'} live = record {
    nonempty = live.nonempty;
    inside = rw taken.entries live.inside;
    used = λ j here. ground (
      arith,
      taken.blocks j,
      live.inside,
      usual.few,
      live.used j here,
      Allocated-apart live j here,
    );
    counted =
        let ne : start ≢ start' =
          λ e. ground (arith, Allocated-apart live start', live.nonempty, taken.nonempty) in
        rw (taken.counts, ==_ne start start' ne) live.counted;
    address = rw taken.base live.address;
  }

-- Of two disjoint blocks one ends before the other begins.
pub ordered :
    (start count start' count' : ℕ)
    → 0 < count
    → 0 < count'
    → ((j : ℕ) → within start count j ≡ true → within start' count' j ≡ false)
    → (start + count ≤ start') ⊎ (start' + count' ≤ start)
ordered start count start' count' pos pos' apart = ground (arith, apart start', apart start)

-- What a call of `pmm_alloc` gives: NULL, and nothing has changed; or the address of a live section
-- that has no block in common with the `count` blocks from `start` on.
abbrev pub GivesApart : Pmm → ℕ → ℕ → ℕ → Type 0
GivesApart p amount start count =
    (pmm_alloc p amount ≡ (0, p))
    ⊎ ((start' : ℕ) × (count' : ℕ) × Live (pmm_alloc p amount).1 (pmm_alloc p amount).0 start'
          count'
        × ((j : ℕ) → within start count j ≡ true → within start' count' j ≡ false))

-- In a map of fewer than 2 ^ 30 blocks that begins in the second page, `pmm_alloc` of any amount keeps
-- every live section. It returns NULL and changes nothing, or what it returns is the address of a
-- section that is live from then on and shares no block with the section that was live before.
pub Live-pmm_alloc :
    (p : Pmm) (amount : ℕ) {ptr start count : ℕ}
    → IsUsual p
    → Live p ptr start count
    → Live (pmm_alloc p amount).1 ptr start count × GivesApart p amount start count
Live-pmm_alloc p amount {ptr} {start} {count} usual live =
    elim (pmm_alloc-Outcome p amount usual.few) [
      | inl (null, why) ↦ (rw null live, inl null)
      | inr (start', count', taken, size) ↦ (
        Live-Allocated usual taken live,
        inr (start', count', Allocated-Live usual taken, Allocated-apart usual taken live),
      )
    ]

-- The section at an address.
abbrev pub LiveAt : Pmm → ℕ → Type 0
LiveAt p ptr = (start : ℕ) × (count : ℕ) × Live p ptr start count

pmm_alloc-LiveAt :
    (p : Pmm) (amount : ℕ)
    → IsUsual p
    → (pmm_alloc p amount).0 ≢ 0
    → LiveAt (pmm_alloc p amount).1 (pmm_alloc p amount).0 × IsUsual (pmm_alloc p amount).1
pmm_alloc-LiveAt p amount usual real = elim (pmm_alloc-Outcome p amount usual.few) [
  | inl (null, why) ↦ absurd (real (ap (λ out. out.0) null))
  | inr (start, count, taken, size) ↦
      ((start, count, Allocated-Live usual taken), Allocated-IsUsual usual taken)
]

-- Two calls of `pmm_alloc`, one behind the other, in a map of fewer than 2 ^ 30 blocks that begins in the
-- second page, neither of which returns NULL: in the state that they leave, both addresses are those of
-- live sections, and the bytes of one section all come before those of the other.
pub pmm_alloc-disjoint :
    (p : Pmm) (amount amount' : ℕ)
    → IsUsual p
    → (pmm_alloc p amount).0 ≢ 0
    → (pmm_alloc (pmm_alloc p amount).1 amount').0 ≢ 0
    → ((start : ℕ) × (count : ℕ) × (start' : ℕ) × (count' : ℕ) × Live
          (pmm_alloc (pmm_alloc p amount).1 amount').1
          (pmm_alloc p amount).0
          start
          count
        × Live
            (pmm_alloc (pmm_alloc p amount).1 amount').1
            (pmm_alloc (pmm_alloc p amount).1 amount').0
            start'
            count'
        × (((pmm_alloc p amount).0 + count * block_size
              ≤ (pmm_alloc (pmm_alloc p amount).1 amount').0)
            ⊎ ((pmm_alloc (pmm_alloc p amount).1 amount').0 + count' * block_size
                ≤ (pmm_alloc p amount).0)))
pmm_alloc-disjoint p amount amount' usual real real' =
    let ((start, count, live), usual') = pmm_alloc-LiveAt p amount usual real in
    let (kept, given) = Live-pmm_alloc (pmm_alloc p amount).1 amount' usual' live in
    elim given [
      | inl null ↦ absurd (real' (ap (λ out. out.0) null))
      | inr (start', count', live', apart) ↦ (
        start,
        count,
        start',
        count',
        kept,
        live',
        elim (ordered start count start' count' live.nonempty live'.nonempty apart) [
          | inl below ↦ inl (omega (arith, kept.address, live'.address))
          | inr above ↦ inr (omega (arith, kept.address, live'.address))
        ],
      )
    ]

module _ {p : Pmm} {ptr start count : ℕ} (usual : IsUsual p) (live : Live p ptr start count) where
  Live-fits : start + count ≤ max_blocks
  Live-fits = omega (arith, live.inside, usual.few)

  offset_of : address2blockoffset ptr ≡ start
  unfolding address2blockoffset
  offset_of = omega (arith, live.address, usual.second_page, Live-fits, live.nonempty)

  pmm_free_blocks : pmm_free p ptr ≡ set_blocks free p start count
  unfolding pmm_free
  pmm_free_blocks =
      let e : start % 2 ^ 32 ≡ start = omega (arith, Live-fits, live.nonempty) in
      rw (offset_of, e, live.counted)

  -- `pmm_free` at a live address makes its blocks FREE and changes no other block.
  pub get_block-pmm_free :
      (j : ℕ)
      → j < max_blocks
      → get_block (pmm_free p ptr) j ≡ (if within start count j then free else get_block p j)
  get_block-pmm_free j hj =
      rw pmm_free_blocks (get_block-set_blocks free p start count j Live-fits hj)

  pub pmm_free-SameRest : SameRest p (pmm_free p ptr)
  pmm_free-SameRest = rw pmm_free_blocks (set_blocks-SameRest free p start count)

  pub pmm_free-IsUsual : IsUsual (pmm_free p ptr)
  pmm_free-IsUsual =
      let rest = pmm_free-SameRest in
      record { few = rw rest.entries usual.few; second_page = rw rest.start usual.second_page }

  -- In a map of fewer than 2 ^ 30 blocks that begins in the second page, `pmm_free` at the address of a
  -- live section keeps every live section that shares no block with it.
  pub Live-pmm_free :
      {ptr' start' count' : ℕ}
      → Live p ptr' start' count'
      → ((j : ℕ) → within start' count' j ≡ true → within start count j ≡ false)
      → Live (pmm_free p ptr) ptr' start' count'
  Live-pmm_free other apart =
      let rest = pmm_free-SameRest in
      record {
        nonempty = other.nonempty;
        inside = rw rest.entries other.inside;
        used = λ j here.
            ground (
              arith,
              get_block-pmm_free j,
              other.inside,
              usual.few,
              other.used j here,
              apart j here,
            );
        counted = rw rest.counts other.counted;
        address = rw rest.start other.address;
      }
