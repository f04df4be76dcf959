-- ===== src/Pmm/Scan.antt =====
-- The loop of `pmm_alloc` that looks for a free section: what it finds, and that it finds one.
use osakauss.Common.{
  ℕ, zero, suc, ◌+◌, ◌*◌, ◌^◌, ◌<◌, ◌≤◌, ◌≡◌, refl, true, false, Bool-cases, inl, inr, ◌⊎◌, ◌≢◌,
  arith, leb, leb→le,
}
use native.Mathlib.Decide.{dec_lt}
use osakauss.Pmm.{
  MemoryStats, free, unusable, in_use, Pmm, get_block, block_size, Section, no_section, visit_block,
  find_section,
}
use osakauss.Pmm.Blocks.{max_blocks}

-- the blocks from `a` up to `b` are FREE
abbrev pub AllFree : Pmm → ℕ → ℕ → Type 0
AllFree p a b = (v : ℕ) → a ≤ v → v < b → get_block p v ≡ free

-- What holds when block `i` is about to be looked at.
pub record Visited (p : Pmm) (amount i : ℕ) (s : Section) : Type 0 where
  pub idle : s.f_free_section ≡ false → s.amnt ≡ 0
  pub order : s.f_free_section ≡ true → s.start ≤ s.end
  pub last : s.f_free_section ≡ true → s.end + 1 ≡ i
  pub size : s.f_free_section ≡ true → s.amnt + s.start * block_size ≡ i * block_size
  pub short : s.f_free_section ≡ true → s.amnt < amount + block_size
  pub all_free : s.f_free_section ≡ true → AllFree p s.start i
  pub longest : (a : ℕ) → a < i → AllFree p a i → (s.f_free_section ≡ true) × (s.start ≤ a)

pub no_section-Visited : (p : Pmm) (amount : ℕ) → Visited p amount 0 no_section
no_section-Visited p amount = record {
  idle = λ h. refl;
  order = λ h. omega arith;
  last = λ h. cc;
  size = λ h. cc;
  short = λ h. cc;
  all_free = λ h. cc;
  longest = λ a h. absurd (omega arith);
}

module _ (p : Pmm) (amount i : ℕ) where
  -- A block that is not FREE ends every free section.
  not_free-Visited : get_block p i ≢ free → Visited p amount (i + 1) no_section
  not_free-Visited taken = record {
    idle = λ h. refl;
    order = λ h. omega arith;
    last = λ h. cc;
    size = λ h. cc;
    short = λ h. cc;
    all_free = λ h. cc;
    longest = λ a lt all. absurd (taken (all i (omega arith) (omega arith)));
  }

  -- A FREE block begins a section or extends the one that stands.
  module _ (s : Section) (v : Visited p amount i s) (is_free : get_block p i ≡ free)
      (small : (i + 1) * block_size < 2 ^ 64) (wanted : s.amnt < amount) where
    begin-Visited : s.f_free_section ≡ false → Visited p amount (i + 1) (visit_block free i s)
    unfolding visit_block
    begin-Visited off = record {
      idle = λ h. cc;
      order = λ h. ground arith;
      last = λ h. refl;
      size = λ h. ground (arith, v.idle off);
      short = λ h. ground (arith, v.idle off);
      all_free = λ h w from to. let e : w ≡ i = ground arith in rw e is_free;
      longest = λ a lt all. elim (dec_lt a i) [
        | yes below ↦ (refl, ground (arith, v.longest a below (λ w f t. all w f (omega arith))))
        | no above ↦ (refl, ground arith)
      ];
    }

    extend-Visited : s.f_free_section ≡ true → Visited p amount (i + 1) (visit_block free i s)
    unfolding visit_block
    extend-Visited on = record {
      idle = λ h. cc;
      order = λ h. ground (arith, v.order on, v.last on);
      last = λ h. refl;
      size = λ h. ground (arith, v.size on);
      short = λ h. ground (arith, v.short on);
      all_free = λ h w from to. elim (dec_lt w i) [
        | yes below ↦ v.all_free on w (ground arith) below
        | no above ↦ let e : w ≡ i = omega arith in rw e is_free
      ];
      longest = λ a lt all. elim (dec_lt a i) [
        | yes below ↦ (refl, ground (arith, v.longest a below (λ w f t. all w f (omega arith))))
        | no above ↦ (refl, ground (arith, v.order on, v.last on))
      ];
    }

-- One round keeps what holds.
visit-Visited :
    (p : Pmm) (amount i : ℕ) (s : Section) (b : MemoryStats)
    → get_block p i ≡ b
    → Visited p amount i s
    → (i + 1) * block_size < 2 ^ 64
    → s.amnt < amount
    → Visited p amount (i + 1) (visit_block b i s)
unfolding visit_block
visit-Visited p amount i s free e v small wanted = elim (Bool-cases s.f_free_section) [
  | inl on ↦ extend-Visited p amount i s v e small wanted on
  | inr off ↦ begin-Visited p amount i s v e small wanted off
]
visit-Visited p amount i s unusable e v small wanted = not_free-Visited p amount i (λ f. cc)
visit-Visited p amount i s in_use e v small wanted = not_free-Visited p amount i (λ f. cc)

-- What the loop returns: the state at some `i`, and whether the section is large enough.
pub record Found (p : Pmm) (amount bound : ℕ) (s : Section) : Type 0 where
  pub at : ℕ
  pub in_bound : at ≤ bound
  pub visited : Visited p amount at s
  pub stopped : (amount ≤ s.amnt) ⊎ (at ≡ bound)

module _ (p : Pmm) (amount : ℕ) where
  pub find_section-Found :
      (n i bound : ℕ) (s : Section)
      → i + n ≡ bound
      → bound ≤ max_blocks
      → Visited p amount i s
      → Found p amount bound (find_section p amount n i s)
  unfolding find_section
  find_section-Found zero i bound s e small v = record {
    at = i;
    in_bound = omega arith;
    visited = v;
    stopped = inr (omega arith);
  }
  find_section-Found (suc n) i bound s e small v = elim (Bool-cases (leb amount s.amnt)) [
    | inl enough ↦
        rw enough (record {
          at = i;
          in_bound = omega arith;
          visited = v;
          stopped = inl (leb→le _ _ enough);
        })
    | inr more ↦ rw more (
        find_section-Found n (i + 1) bound (visit_block (get_block p i) i s) (omega arith) small
          (visit-Visited p amount i s (get_block p i) refl v (omega arith) (ground arith)))
  ]

  -- At the end of a free section of the wanted size the loop has found enough.
  enough_at :
      (i a b : ℕ) (s : Section)
      → b ≡ i
      → a < b
      → amount + a * block_size ≤ b * block_size
      → AllFree p a b
      → Visited p amount i s
      → amount ≤ s.amnt
  enough_at i a b s e lt fits all v =
      let (on, from) = v.longest a (omega arith) (λ w f t. all w f (omega arith)) in
      omega (arith, v.size on)

  -- Where a free section of the wanted size ends no later than the loop, one is found.
  pub find_section-large :
      (n i a b : ℕ) (s : Section)
      → i ≤ b
      → b ≤ i + n
      → i + n ≤ max_blocks
      → a < b
      → amount + a * block_size ≤ b * block_size
      → AllFree p a b
      → Visited p amount i s
      → amount ≤ (find_section p amount n i s).amnt
  unfolding find_section
  find_section-large zero i a b s lo hi small lt fits all v =
      enough_at i a b s (omega arith) lt fits all v
  find_section-large (suc n) i a b s lo hi small lt fits all v =
      elim (Bool-cases (leb amount s.amnt)) [
        | inl enough ↦ rw enough (leb→le _ _ enough)
        | inr more ↦ rw more (elim (dec_lt i b) [
          | yes below ↦
              find_section-large n (i + 1) a b (visit_block (get_block p i) i s) (omega arith)
                (omega arith) (omega arith) lt fits all
                (visit-Visited p amount i s (get_block p i) refl v (omega arith) (ground arith))
          | no above ↦ absurd (ground (arith, enough_at i a b s (omega arith) lt fits all v))
        ])
      ]
