-- ===== src/Bitmap/Laws.antt =====
-- libs/bitmap.c against its specification: a map from bit numbers to bits.
use osakauss.Common.{ℕ, ◌%◌, ◌^◌, ◌<◌, ◌&&◌, ◌≡◌, ◌∙◌, arith, ◌==◌, if◌then◌else◌}
use osakauss.Bits.{testbit, testbit-bit_or, testbit-bit_and, testbit-lt, bit_and-one}
use osakauss.Bits.Word.{shl_one, complement, sar, testbit-shl_one, testbit-complement, testbit-sar}
use osakauss.Bitmap.{
  inc64, dec64, set_bit, clr_bit, get_bit, sector_of, BitMapS, bit_map_get_bit, bit_map_set_bit,
  bit_map_clr_bit, bit_map_new_sector,
}

-- `k` and the shift count that the set and clear functions derive from `k + 1` agree.
count_back : (k : ℕ) → k < 2 ^ 31 → dec64 (inc64 k) ≡ k
count_back k h = omega arith

get_bit-testbit : (n k : ℕ) → get_bit n k ≡ testbit n (k % 32)
unfolding get_bit
get_bit-testbit n k = bit_and-one (sar n k) ∙ testbit-sar n k

testbit-set_bit :
    (n k j : ℕ) → testbit (set_bit n k) j ≡ (if dec64 k % 32 == j then 1 else testbit n j)
unfolding set_bit
testbit-set_bit n k j =
    ground
      (arith, testbit-bit_or n (shl_one (dec64 k)) j, testbit-shl_one (dec64 k) j, testbit-lt n j)

testbit-clr_bit :
    (n k j : ℕ) → j < 32 → testbit (clr_bit n k) j ≡ (if dec64 k % 32 == j then 0 else testbit n j)
unfolding clr_bit
testbit-clr_bit n k j h = ground (
  arith,
  testbit-bit_and n (complement (shl_one (dec64 k))) j,
  testbit-complement (dec64 k) j h,
  testbit-lt n j,
)

-- Two bits that share a word and a shift count are one bit.
sector_of-injective :
    (k j : ℕ) → k < 2 ^ 31 → j < 2 ^ 31 → sector_of k ≡ sector_of j → k % 32 ≡ j % 32 → k ≡ j
unfolding sector_of
sector_of-injective k j hk hj e m = ground arith

-- For bit numbers below 2 ^ 31, reading bit `j` after setting bit `k` gives 1 at `k` and the old bit
-- at every other number.
pub get_bit-set_bit :
    (m : BitMapS) (k j : ℕ)
    → k < 2 ^ 31
    → j < 2 ^ 31
    → bit_map_get_bit (bit_map_set_bit m k).0 j ≡ (if k == j then 1 else bit_map_get_bit m j)
unfolding bit_map_get_bit bit_map_set_bit
get_bit-set_bit m k j hk hj =
    let w = m.bitmap (sector_of k) in
    ground (
      arith,
      sector_of-injective k j hk hj,
      count_back k hk,
      get_bit-testbit (set_bit w (inc64 k)) j,
      get_bit-testbit (m.bitmap (sector_of j)) j,
      testbit-set_bit w (inc64 k) (j % 32),
    )

-- For bit numbers below 2 ^ 31, reading bit `j` after clearing bit `k` gives 0 at `k` and the old
-- bit at every other number.
pub get_bit-clr_bit :
    (m : BitMapS) (k j : ℕ)
    → k < 2 ^ 31
    → j < 2 ^ 31
    → bit_map_get_bit (bit_map_clr_bit m k).0 j ≡ (if k == j then 0 else bit_map_get_bit m j)
unfolding bit_map_get_bit bit_map_clr_bit
get_bit-clr_bit m k j hk hj =
    let w = m.bitmap (sector_of k) in
    ground (
      arith,
      sector_of-injective k j hk hj,
      count_back k hk,
      get_bit-testbit (clr_bit w (inc64 k)) j,
      get_bit-testbit (m.bitmap (sector_of j)) j,
      testbit-clr_bit w (inc64 k) (j % 32),
    )

pub bit_map_get_bit-lt : (m : BitMapS) (k : ℕ) → bit_map_get_bit m k < 2
unfolding bit_map_get_bit
bit_map_get_bit-lt m k = omega (
  arith,
  get_bit-testbit (m.bitmap (sector_of k)) k,
  testbit-lt (m.bitmap (sector_of k)) (k % 32),
)

-- `BitMapNewSector` clears bit 30 of its word, and leaves every other bit as it was.
pub testbit-new_sector :
    (m : BitMapS) (s i j : ℕ)
    → j < 32
    → testbit ((bit_map_new_sector m s).0.bitmap i) j
      ≡ (if (s == i) && (30 == j) then 0 else testbit (m.bitmap i) j)
unfolding bit_map_new_sector
testbit-new_sector m s i j h =
    ground
      (arith, testbit-clr_bit (set_bit (m.bitmap s) 31) 31 j h, testbit-set_bit (m.bitmap s) 31 j)
