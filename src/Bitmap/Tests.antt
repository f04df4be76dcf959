-- ===== src/Bitmap/Tests.antt =====
-- Runs of libs/bitmap.c.
use osakauss.Common.{◌-◌, ◌^◌, ◌≡◌, true, ◌==◌, ◌&&◌, if◌then◌else◌, arith}
use osakauss.Bits.{testbit}
use osakauss.Bitmap.{BitMapS, bit_map_get_bit, bit_map_set_bit, bit_map_clr_bit, bit_map_new_sector}
use osakauss.Bitmap.Laws.{get_bit-set_bit, get_bit-clr_bit, testbit-new_sector}

abbrev full : BitMapS
full = record { bitmap = λ i. 2 ^ 32 - 1; bitmap_setup = true; entries = 100 }

get_bit-set_bit_example :
    bit_map_get_bit (bit_map_set_bit full 40).0 41
    ≡ (if 40 == 41 then 1 else bit_map_get_bit full 41)
get_bit-set_bit_example = get_bit-set_bit full 40 41 (omega arith) (omega arith)

get_bit-clr_bit_example :
    bit_map_get_bit (bit_map_clr_bit full 62).0 31
    ≡ (if 62 == 31 then 0 else bit_map_get_bit full 31)
get_bit-clr_bit_example = get_bit-clr_bit full 62 31 (omega arith) (omega arith)

testbit-new_sector_example :
    testbit ((bit_map_new_sector full 2).0.bitmap 2) 29
    ≡ (if (2 == 2) && (30 == 29) then 0 else testbit (full.bitmap 2) 29)
testbit-new_sector_example = testbit-new_sector full 2 2 29 (omega arith)
