-- ===== src/Pmm/Memory/Laws.antt =====
-- `pmm_realloc` and `pmm_calloc` of kernel/mem/pmm.c: contents, and what becomes of the blocks.
use osakauss.Common.{
  ℕ, ◌+◌, ◌*◌, ◌^◌, ◌<◌, ◌≤◌, min, ◌≡◌, refl, true, false, Bool-cases, inl, inr, ◌⊎◌, arith,
  if◌then◌else◌,
}
use osakauss.Klibc.Mem.{Ptr, memcpy}
use osakauss.Klibc.Mem.Laws.{in_range, memset_lem, memcpy_prefix}
use osakauss.Pmm.{Pmm, block_size, pmm_alloc, pmm_free, free, get_block}
use osakauss.Pmm.Blocks.{within}
use osakauss.Pmm.Alloc.{Allocated}
use osakauss.Pmm.Live.{
  IsUsual, Live, ordered, Allocated-IsUsual, Allocated-Live, Allocated-apart, Live-Allocated,
  Live-pmm_free, get_block-pmm_free,
}
use osakauss.Pmm.Memory.{Machine, pmm_realloc, pmm_calloc}

module _ (m : Machine) {ptr start count start' count' : ℕ} (size : ℕ) (usual : IsUsual m.pmm)
    (old : Live m.pmm ptr start count)
    (new : Allocated m.pmm size (pmm_alloc m.pmm size) start' count') (small : size < 2 ^ 32) where
  abbrev after : Pmm
  after = (pmm_alloc m.pmm size).1

  abbrev ptr1 : Ptr
  ptr1 = (pmm_alloc m.pmm size).0

  kept : Live after ptr start count
  kept = Live-Allocated usual new old

  made : Live after ptr1 start' count'
  made = Allocated-Live usual new

  apart_back : (j : ℕ) → within start' count' j ≡ true → within start count j ≡ false
  apart_back j here = elim (Bool-cases (within start count j)) [
    | inl both ↦ absurd (ground (arith, Allocated-apart usual new old j both))
    | inr out ↦ out
  ]

  -- The old bytes do not reach the new block from below.
  no_overlap : (k : ℕ) → k ≤ count * block_size → (ptr1 ≤ ptr) ⊎ (ptr + k ≤ ptr1)
  no_overlap k le =
      elim (ordered start count start' count' old.nonempty new.nonempty
        (Allocated-apart usual new old)) [
          | inl below ↦ inr (omega (arith, kept.address, made.address))
          | inr above ↦ inl (omega (arith, kept.address, made.address))
        ]

  -- For a size below 2 ^ 32 and a live block of a map of fewer than 2 ^ 30 blocks that begins in the
  -- second page: where the allocation succeeds, `pmm_realloc` returns a live block that holds the bytes
  -- of the old one, as far as both go, and the blocks of the old one are given back.
  pub pmm_realloc_lem :
      Live (pmm_realloc m ptr size).1.pmm (pmm_realloc m ptr size).0 start' count'
      × ((i : ℕ)
          → i < size
          → i < count * block_size
          → (pmm_realloc m ptr size).1.mem ((pmm_realloc m ptr size).0 + i) ≡ m.mem (ptr + i))
      × ((j : ℕ) → within start count j ≡ true → get_block (pmm_realloc m ptr size).1.pmm j ≡ free)
  unfolding pmm_realloc
  pmm_realloc_lem = (
    Live-pmm_free (Allocated-IsUsual usual new) kept made apart_back,
    λ i lt lt'.
        let k = min size (count * block_size) in
        memcpy_prefix m.mem ptr1 ptr size k i small (omega arith) (no_overlap k (omega arith))
          (omega arith),
    λ j here.
        ground
          (arith, get_block-pmm_free (Allocated-IsUsual usual new) kept j, old.inside, usual.few),
  )

-- Where the allocation succeeds, `pmm_calloc` returns a live block whose `size` bytes are 0, and
-- changes no other byte.
pub pmm_calloc_lem :
    (m : Machine) {start count : ℕ} (size : ℕ)
    → IsUsual m.pmm
    → size < 2 ^ 32
    → Allocated m.pmm size (pmm_alloc m.pmm size) start count
    → Live (pmm_calloc m size).1.pmm (pmm_calloc m size).0 start count
      × ((a : ℕ)
          → (pmm_calloc m size).1.mem a
            ≡ (if in_range (pmm_calloc m size).0 size a then 0 else m.mem a))
unfolding pmm_calloc
pmm_calloc_lem m size usual small new = (
  Allocated-Live usual new,
  (memset_lem m.mem (pmm_alloc m.pmm size).0 0 size (omega arith) small).1,
)

-- Where no block is found, `pmm_realloc` returns NULL, gives the old block back all the same, and
-- copies `size` bytes to address 0.
pub pmm_realloc-null :
    (m : Machine) (ptr size : ℕ)
    → pmm_alloc m.pmm size ≡ (0, m.pmm)
    → ((pmm_realloc m ptr size).0 ≡ 0)
      × ((pmm_realloc m ptr size).1.pmm ≡ pmm_free m.pmm ptr)
      × ((pmm_realloc m ptr size).1.mem ≡ (memcpy m.mem 0 ptr size).0)
unfolding pmm_realloc
pmm_realloc-null m ptr size e = rw e (refl, refl, refl)
