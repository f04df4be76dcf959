-- ===== src/Dynlist/Tests.antt =====
-- Runs of libs/klibc/dynlist.c: a list that is full, and one of two items.
use osakauss.Common.{◌+◌, ◌*◌, ◌%◌, ◌^◌, ◌≤◌, ◌≡◌, refl, ◌≢◌, true, false, [], ◌∷◌, ◌++◌, arith}
use osakauss.Common.Int.{pos, minus_one}
use osakauss.Bitmap.{bit_map_get_bit, get_bit, sector_of}
use osakauss.Bits.Word.{sar}
use osakauss.Pmm.{Pmm, pmm_alloc, find_section, get_block, take_section}
use osakauss.Dynlist.{Dl, dl_push, dl_pop, in_list, index_of}
use osakauss.Dynlist.Laws.{contents, delete, dl_push-contents, dl_pop-contents}

-- three free blocks from address 0x1000 on
abbrev blocks : Pmm
blocks = record {
  start_address = 0x1000;
  end_address = 0x1000;
  bitmap_ = record { bitmap = λ _. 0; bitmap_setup = true; entries = 3 };
  bitmap_at = 0x1000;
  block_entries = λ _. 0;
  block_entries_at = 0x1006;
}

-- the items 70 and 71, in an array of two cells
abbrev two : Dl
two = record { items = 0x8000; capacity = 2; total = 2; cells = λ a i. 70 + i; pmm = blocks }

alloc_items : (pmm_alloc blocks 32).0 ≡ 0x1000
unfolding pmm_alloc find_section get_block bit_map_get_bit get_bit sector_of sar take_section
alloc_items = refl

alloc_items-NonNull : (pmm_alloc blocks (8 * (2 * 2) % 2 ^ 64)).0 ≢ 0
alloc_items-NonNull h = absurd (omega (arith, alloc_items, h))

dl_push-contents_example :
    ((dl_push two 99).0 ≡ pos 0)
    × (contents (dl_push two 99).1 ≡ contents two ++ (99 ∷ []))
    × ((dl_push two 99).1.total ≤ (dl_push two 99).1.capacity)
dl_push-contents_example =
    dl_push-contents two 99 (omega arith) (omega arith) (omega arith) (λ full. alloc_items-NonNull)

dl_pop-contents_example :
    (in_list two (pos 0) ≡ true
      → ((dl_pop two (pos 0)).0 ≡ pos 0)
        × (contents (dl_pop two (pos 0)).1 ≡ delete (index_of (pos 0)) (contents two)))
    × (in_list two (pos 0) ≡ false → dl_pop two (pos 0) ≡ (minus_one, two))
dl_pop-contents_example = dl_pop-contents two (pos 0) (omega arith)
