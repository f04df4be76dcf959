-- ===== src/Pmm/Tests.antt =====
-- kernel/mem/pmm.c at concrete memory maps, and the theorems at inputs that meet their hypotheses.
mod Boot
use osakauss.Common.{ℕ, zero, suc, ◌+◌, ◌*◌, ◌<◌, ◌≤◌, ◌≡◌, ◌⊎◌, refl, true, arith}
use osakauss.Bitmap.{bit_map_get_bit, bit_map_set_bit, get_bit, set_bit, sector_of}
use osakauss.Bits.Word.{shl_one, sar}
use osakauss.Pmm.{
  free, in_use, Pmm, get_block, set_block, set_blocks, find_section, take_section, pmm_alloc,
  pmm_free, block_size,
}
use osakauss.Pmm.Blocks.{get_block-set_block}
use osakauss.Pmm.Scan.{AllFree}
use osakauss.Pmm.Alloc.{
  Allocated, Outcome, pmm_alloc-Outcome, pmm_alloc-section, pmm_alloc-large, Allocated-pmm_free,
  pmm_alloc_short,
}
use osakauss.Pmm.Live.{
  IsUsual, Live, Allocated-IsUsual, Allocated-Live, GivesApart, Live-Allocated, Live-pmm_alloc,
  pmm_alloc-disjoint, Live-pmm_free, get_block-pmm_free,
}

-- three blocks from address 0x1000 on, all FREE, and the bits of the block behind them
abbrev pub tiny : Pmm
tiny = record {
  start_address = 0x1000;
  end_address = 0x1000;
  bitmap_ = record { bitmap = λ _. 0; bitmap_setup = true; entries = 3 };
  bitmap_at = 0x1000;
  block_entries = λ _. 0;
  block_entries_at = 0x1006;
}

tiny_free : (v : ℕ) → v < 4 → get_block tiny v ≡ free
unfolding get_block bit_map_get_bit get_bit sector_of sar
tiny_free zero lt = refl
tiny_free (suc zero) lt = refl
tiny_free (suc (suc zero)) lt = refl
tiny_free (suc (suc (suc zero))) lt = refl
tiny_free (suc (suc (suc (suc v)))) lt = absurd (omega arith)

pub tiny-IsUsual : IsUsual tiny
tiny-IsUsual = omega arith

-- two blocks for 5000 bytes
alloc_two : (pmm_alloc tiny 5000).0 ≡ 0x1000
unfolding pmm_alloc find_section get_block bit_map_get_bit get_bit sector_of sar take_section
alloc_two = refl

-- 20000 bytes are five blocks; the four that there are come back without a word
alloc_too_large : (pmm_alloc tiny 20000).0 ≡ 0x1000
unfolding pmm_alloc find_section get_block bit_map_get_bit get_bit sector_of sar take_section
alloc_too_large = refl

get_block-set_block_example : get_block (set_block tiny 16 in_use) 16 ≡ in_use
get_block-set_block_example = get_block-set_block tiny 16 16 in_use (omega arith) (omega arith)

pmm_alloc-Outcome_example : Outcome tiny 5000 (pmm_alloc tiny 5000)
pmm_alloc-Outcome_example = pmm_alloc-Outcome tiny 5000 (omega arith)

pmm_alloc-large_example :
    (start : ℕ) × (count : ℕ) × Allocated tiny 5000 (pmm_alloc tiny 5000) start count
    × (5000 ≤ count * block_size)
pmm_alloc-large_example =
    pmm_alloc-large tiny 5000 0 2 (omega arith) (omega arith) (omega arith) (omega arith)
      (omega arith) (λ v lo hi. tiny_free v (omega arith))

-- The allocation above takes the blocks 0 and 1, and a second one of a block takes block 2.
pub taken : Allocated tiny 5000 (pmm_alloc tiny 5000) 0 2
unfolding find_section get_block bit_map_get_bit get_bit sector_of sar
taken = pmm_alloc-section tiny 5000 (omega arith) (omega arith)

abbrev pub after : Pmm
after = (pmm_alloc tiny 5000).1

after_free : AllFree after 2 4
after_free v lo hi = ground (arith, taken.blocks v, tiny_free v)

after_few : after.bitmap_.entries ≡ 3
after_few = taken.entries

pub then_taken : Allocated after 100 (pmm_alloc after 100) 2 1
unfolding pmm_alloc take_section set_blocks set_block bit_map_set_bit set_bit shl_one find_section
    get_block bit_map_get_bit get_bit sector_of sar
then_taken = pmm_alloc-section after 100 (omega arith) (omega arith)

pub after-IsUsual : IsUsual after
after-IsUsual = Allocated-IsUsual tiny-IsUsual taken

pub Live-two : Live after 0x1000 0 2
unfolding pmm_alloc find_section get_block bit_map_get_bit get_bit sector_of sar take_section
Live-two = Allocated-Live tiny-IsUsual taken

Allocated-pmm_free_example : get_block (pmm_free after (pmm_alloc tiny 5000).0) 1 ≡ get_block tiny 1
Allocated-pmm_free_example = Allocated-pmm_free taken (omega arith) (omega arith) 1 (omega arith)

Live-pmm_alloc_example : Live (pmm_alloc after 100).1 0x1000 0 2 × GivesApart after 100 0 2
Live-pmm_alloc_example = Live-pmm_alloc after 100 after-IsUsual Live-two

alloc_one : (pmm_alloc after 100).0 ≡ 0x3000
unfolding pmm_alloc take_section set_blocks set_block bit_map_set_bit set_bit shl_one find_section
    get_block bit_map_get_bit get_bit sector_of sar
alloc_one = refl

pmm_alloc-disjoint_example :
    (start : ℕ) × (count : ℕ) × (start' : ℕ) × (count' : ℕ) × Live
      (pmm_alloc after 100).1
      (pmm_alloc tiny 5000).0
      start
      count
    × Live (pmm_alloc after 100).1 (pmm_alloc after 100).0 start' count'
    × (((pmm_alloc tiny 5000).0 + count * block_size ≤ (pmm_alloc after 100).0)
        ⊎ ((pmm_alloc after 100).0 + count' * block_size ≤ (pmm_alloc tiny 5000).0))
pmm_alloc-disjoint_example =
    pmm_alloc-disjoint tiny 5000 100 tiny-IsUsual (λ e. absurd (omega (arith, alloc_two, e)))
      (λ e. absurd (omega (arith, alloc_one, e)))

last : Pmm
last = (pmm_alloc after 100).1

last-IsUsual : IsUsual last
unfolding last
last-IsUsual = Allocated-IsUsual after-IsUsual then_taken

Live-last : Live last 0x3000 2 1
unfolding last pmm_alloc take_section set_blocks set_block bit_map_set_bit set_bit shl_one
    find_section get_block bit_map_get_bit get_bit sector_of sar
Live-last = Allocated-Live after-IsUsual then_taken

Live-two' : Live last 0x1000 0 2
unfolding last
Live-two' = Live-Allocated after-IsUsual then_taken Live-two

Live-pmm_free_example : Live (pmm_free last 0x1000) 0x3000 2 1
Live-pmm_free_example = Live-pmm_free last-IsUsual Live-two' Live-last (λ j here. ground arith)

get_block-pmm_free_example : get_block (pmm_free last 0x1000) 1 ≡ free
get_block-pmm_free_example = get_block-pmm_free last-IsUsual Live-two' 1 (omega arith)

none_fits : (a b : ℕ) → b ≤ 4 → AllFree tiny a b → b * block_size < 20000 + a * block_size
none_fits a b le all = omega arith

pmm_alloc_short_example :
    (start : ℕ) × (count : ℕ) × Allocated tiny 20000 (pmm_alloc tiny 20000) start count
    × (count * block_size < 20000)
pmm_alloc_short_example =
    pmm_alloc_short tiny 20000 (omega arith) (omega arith) (tiny_free 3 (omega arith)) none_fits
