-- ===== src/Pmm/Alloc.antt =====
-- `pmm_alloc` and `pmm_free` of kernel/mem/pmm.c: what an allocation takes, and that it comes back.
use osakauss.Common.{
  ℕ, ◌+◌, ◌-◌, ◌*◌, ◌/◌, ◌%◌, ◌^◌, ◌<◌, ◌≤◌, ◌≡◌, refl, ap, ◌∙◌, true, false, Bool-cases, inl, inr,
  ◌⊎◌, ◌≢◌, arith, ◌==◌, ne_of_==, ==_ne, ==_refl, if◌then◌else◌,
}
use osakauss.Bitmap.{update}
use osakauss.Pmm.{
  free, in_use, Pmm, get_block, block_size, Section, no_section, find_section, take_section,
  pmm_alloc, pmm_free, address2blockoffset,
}
use osakauss.Pmm.Blocks.{max_blocks, within, get_block-set_blocks, set_blocks-SameRest}
use osakauss.Pmm.Scan.{
  AllFree, Visited, no_section-Visited, Found, find_section-Found, find_section-large,
}

-- What a successful `pmm_alloc` does: the `count` blocks from `start` on were FREE and are IN_USE, no
-- other block changes, and `block_entries` records the count at `start`.
pub record Allocated (p : Pmm) (amount : ℕ) (out : ℕ × Pmm) (start count : ℕ) : Type 0 where
  pub nonempty : 0 < count
  pub inside : start + count ≤ p.bitmap_.entries + 1
  pub was_free : AllFree p start (start + count)
  pub blocks :
      (j : ℕ)
      → j < max_blocks
      → get_block out.1 j ≡ (if within start count j then in_use else get_block p j)
  pub counts : out.1.block_entries ≡ update p.block_entries start count
  pub entries : out.1.bitmap_.entries ≡ p.bitmap_.entries
  pub base : out.1.start_address ≡ p.start_address
  pub address : out.0 ≡ (p.start_address + start * block_size) % 2 ^ 64
  pub tight : count * block_size < amount + block_size

abbrev pub count_of : Section → ℕ
count_of s = s.end + 1 - s.start

module _ (p : Pmm) (amount : ℕ) (small : p.bitmap_.entries + 1 ≤ max_blocks) where
  -- What the loop leaves for the second half of `pmm_alloc`.
  abbrev pub section : Section
  section = find_section p amount (p.bitmap_.entries + 1) 0 no_section

  section-Found : Found p amount (p.bitmap_.entries + 1) section
  section-Found =
      find_section-Found p amount (p.bitmap_.entries + 1) 0 (p.bitmap_.entries + 1) no_section
        (omega arith) small (no_section-Visited p amount)

  section_set : section.amnt ≢ 0 → section.f_free_section ≡ true
  section_set ne = elim (Bool-cases section.f_free_section) [
    | inl on ↦ on
    | inr off ↦ absurd (ne (section-Found.visited.idle off))
  ]

  section_null : section.amnt ≡ 0 → (amount ≡ 0) ⊎ (get_block p p.bitmap_.entries ≢ free)
  section_null e = elim section-Found.stopped [
    | inl enough ↦ inl (omega arith)
    | inr end ↦ inr λ last_free.
        let v = section-Found.visited in
        let only : AllFree p p.bitmap_.entries section-Found.at =
          λ w from to. let same : w ≡ p.bitmap_.entries = omega arith in rw same last_free in
        let (on, from) = v.longest p.bitmap_.entries (omega arith) only in omega (arith, v.size on)
  ]

  section_size :
      section.f_free_section ≡ true
      → (amount ≤ count_of section * block_size)
        ⊎ (section.start + count_of section ≡ p.bitmap_.entries + 1)
  section_size on =
      let v = section-Found.visited in
      elim section-Found.stopped [
        | inl enough ↦ inl (omega (arith, v.order on, v.last on, v.size on))
        | inr end ↦ inr (omega (arith, v.order on, v.last on))
      ]

module _ (p : Pmm) (amount at : ℕ) (s : Section) (small : p.bitmap_.entries + 1 ≤ max_blocks)
    (v : Visited p amount at s) (fits : at ≤ p.bitmap_.entries + 1)
    (on : s.f_free_section ≡ true) where
  take_section-blocks :
      (j : ℕ)
      → j < max_blocks
      → get_block (take_section p s).1 j
        ≡ (if within s.start (count_of s) j then in_use else get_block p j)
  unfolding take_section get_block
  take_section-blocks j hj =
      get_block-set_blocks in_use p s.start (count_of s) j (omega (arith, v.order on, v.last on)) hj

  take_section-Allocated : Allocated p amount (take_section p s) s.start (count_of s)
  unfolding take_section
  take_section-Allocated =
      let rest = set_blocks-SameRest in_use p s.start (count_of s) in
      record {
        nonempty = omega (arith, v.order on);
        inside = omega (arith, v.order on, v.last on);
        was_free = λ w from to. v.all_free on w from (omega (arith, v.order on, v.last on));
        blocks = take_section-blocks;
        counts =
            ap (λ f. update f s.start (count_of s % 2 ^ 32)) rest.counts
            ∙ ap (update p.block_entries s.start) (omega (arith, v.order on, v.last on));
        entries = rest.entries;
        base = rest.start;
        address = refl;
        tight = omega (arith, v.order on, v.last on, v.size on, v.short on);
      }

abbrev pub Outcome : Pmm → ℕ → ℕ × Pmm → Type 0
Outcome p amount out =
    ((out ≡ (0, p)) × ((amount ≡ 0) ⊎ (get_block p p.bitmap_.entries ≢ free)))
    ⊎ ((start : ℕ) × (count : ℕ) × Allocated p amount out start count
        × ((amount ≤ count * block_size) ⊎ (start + count ≡ p.bitmap_.entries + 1)))

-- Where the loop has found something, `pmm_alloc` takes it.
pub pmm_alloc-section :
    (p : Pmm) (amount : ℕ) (small : p.bitmap_.entries + 1 ≤ max_blocks)
    → (section p amount small).amnt ≢ 0
    → Allocated p amount
        (pmm_alloc p amount)
        (section p amount small).start
        (count_of (section p amount small))
unfolding pmm_alloc
pmm_alloc-section p amount small ne =
    let found = section-Found p amount small in
    rw (==_ne _ _ ne) (
      take_section-Allocated p amount found.at (section p amount small) small found.visited
        found.in_bound (section_set p amount small ne))

-- On a bitmap of fewer than 2 ^ 30 blocks, `pmm_alloc` either returns NULL and changes nothing, and
-- then nothing was asked for or the block at index `entries` is not FREE; or it takes a section of
-- blocks that were FREE, and the section has the size asked for or reaches the index `entries`.
pub pmm_alloc-Outcome :
    (p : Pmm) (amount : ℕ)
    → p.bitmap_.entries + 1 ≤ max_blocks
    → Outcome p amount (pmm_alloc p amount)
unfolding pmm_alloc
pmm_alloc-Outcome p amount small = elim (Bool-cases (s.amnt == 0)) [
  | inl none_found ↦ rw none_found (inl (refl, section_null p amount small (ground arith)))
  | inr found ↦ rw found (
      inr (
        s.start,
        count_of s,
        taken (ne_of_== _ _ found),
        section_size p amount small (section_set p amount small (ne_of_== _ _ found)),
      ))
]
  where
    s : Section
    s = section p amount small

    found : Found p amount (p.bitmap_.entries + 1) s
    found = section-Found p amount small

    taken : s.amnt ≢ 0 → Allocated p amount (take_section p s) s.start (count_of s)
    taken ne =
        take_section-Allocated p amount found.at s small found.visited found.in_bound
          (section_set p amount small ne)

-- For an amount greater than 0 and a map of fewer than 2 ^ 30 blocks: where some `b - a` FREE blocks
-- up to the index `entries` hold the amount asked for, `pmm_alloc` succeeds and takes a section that
-- holds it.
pub pmm_alloc-large :
    (p : Pmm) (amount a b : ℕ)
    → p.bitmap_.entries + 1 ≤ max_blocks
    → 0 < amount
    → a < b
    → b ≤ p.bitmap_.entries + 1
    → amount + a * block_size ≤ b * block_size
    → AllFree p a b
    → (start : ℕ) × (count : ℕ) × Allocated p amount (pmm_alloc p amount) start count
      × (amount ≤ count * block_size)
unfolding pmm_alloc
pmm_alloc-large p amount a b small pos lt inside fits all =
    rw set (s.start, count_of s, taken, omega (arith, large, v.order on, v.last on, v.size on))
  where
    s : Section
    s = section p amount small

    found : Found p amount (p.bitmap_.entries + 1) s
    found = section-Found p amount small

    v : Visited p amount found.at s
    v = found.visited

    large : amount ≤ s.amnt
    large =
        find_section-large p amount (p.bitmap_.entries + 1) 0 a b no_section (omega arith)
          (omega arith) (omega arith) lt fits all (no_section-Visited p amount)

    nonzero : s.amnt ≢ 0
    nonzero = omega (arith, large)

    set : (s.amnt == 0) ≡ false
    set = ==_ne s.amnt 0 nonzero

    on : s.f_free_section ≡ true
    on = section_set p amount small nonzero

    taken : Allocated p amount (take_section p s) s.start (count_of s)
    taken = take_section-Allocated p amount found.at s small found.visited found.in_bound on

module _ {p : Pmm} {amount start count : ℕ} {out : ℕ × Pmm}
    (taken : Allocated p amount out start count) where
  -- The address leads back to the first block, and to the count that was recorded there.
  offset_back :
      p.bitmap_.entries + 1 ≤ max_blocks
      → p.start_address / block_size ≡ 1
      → address2blockoffset out.0 ≡ start
  unfolding address2blockoffset
  offset_back small second = omega (arith, taken.address, taken.inside, taken.nonempty)

  count_back : p.bitmap_.entries + 1 ≤ max_blocks → out.1.block_entries (start % 2 ^ 32) ≡ count
  count_back small =
      let e : start % 2 ^ 32 ≡ start = omega (arith, taken.inside) in
      rw (taken.counts, e, ==_refl start)

  -- `pmm_free` at the address of an allocation gives back each block as it was, if the memory map
  -- begins in the second page and the addresses of the blocks do not wrap.
  pub Allocated-pmm_free :
      p.bitmap_.entries + 1 ≤ max_blocks
      → p.start_address / block_size ≡ 1
      → (j : ℕ) → j < max_blocks
      → get_block (pmm_free out.1 out.0) j ≡ get_block p j
  unfolding pmm_free
  Allocated-pmm_free small second j hj =
      rw (offset_back small second, count_back small)
        (ground (
          arith,
          get_block-set_blocks free out.1 start count j (omega (arith, taken.inside)) hj,
          taken.blocks j hj,
          taken.was_free j,
        ))

-- Where the block at index `entries` is FREE and no section of FREE blocks holds the amount asked
-- for, `pmm_alloc` does not return NULL: it takes a section that is smaller than that.
pub pmm_alloc_short :
    (p : Pmm) (amount : ℕ)
    → p.bitmap_.entries + 1 ≤ max_blocks
    → 0 < amount
    → get_block p p.bitmap_.entries ≡ free
    → ((a b : ℕ)
        → b ≤ p.bitmap_.entries + 1
        → AllFree p a b
        → b * block_size < amount + a * block_size)
    → (start : ℕ) × (count : ℕ) × Allocated p amount (pmm_alloc p amount) start count
      × (count * block_size < amount)
pmm_alloc_short p amount small pos last none_fits = elim (pmm_alloc-Outcome p amount small) [
  | inl (e, nothing) ↦ absurd (elim nothing [ inl z ↦ omega arith | inr taken ↦ taken last ])
  | inr (start, count, taken, size) ↦ (
    start,
    count,
    taken,
    omega (arith, none_fits start (start + count) taken.inside taken.was_free),
  )
]
