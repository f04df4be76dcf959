-- ===== src/Bitmap.antt =====
-- libs/bitmap.c and include/libs/bitmap.h: bits packed in 32-bit words.
-- `struct BitMapS` is the record; the function pointers that `BitMap` installs are always the ones
-- of this file, so they are called directly. The words are a function from the index.
pub mod Laws
mod Tests
use osakauss.Common.{ℕ, ◌+◌, ◌-◌, ◌*◌, ◌/◌, ◌%◌, ◌^◌, bit_and, bit_or, Bool, ◌==◌, if◌then◌else◌}
use osakauss.Bits.Word.{shl_one, complement, sar}

-- the contents of `u32 *bitmap`
abbrev pub Words : Type 0
Words = ℕ → ℕ

abbrev pub update : Words → ℕ → ℕ → Words
update f i v j = if i == j then v else f j

-- `k + 1` and `k - 1` on a `u64`
abbrev pub inc64 : ℕ → ℕ
inc64 k = (k + 1) % 2 ^ 64

abbrev pub dec64 : ℕ → ℕ
dec64 k = (k + 2 ^ 64 - 1) % 2 ^ 64

unfoldable pub set_bit : ℕ → ℕ → ℕ
set_bit n k = bit_or n (shl_one (dec64 k))

unfoldable pub clr_bit : ℕ → ℕ → ℕ
clr_bit n k = bit_and n (complement (shl_one (dec64 k)))

unfoldable pub get_bit : ℕ → ℕ → ℕ
get_bit n k = bit_and (sar n k) 1

-- The word of bit `k`, as the three functions below compute it. `sector` and `bit` are `int`s; for
-- `k` from 2 ^ 31 on the product leaves the range of `int`, and the theorems assume `k < 2 ^ 31`.
unfoldable pub sector_of : ℕ → ℕ
sector_of k =
    let sector = k / 31 % 2 ^ 32 in
    let bit = (k + 2 ^ 64 - sector * 31) % 2 ^ 64 % 2 ^ 32 in
    if sector == 0 then sector else if bit == 0 then sector - 1 else sector

pub record BitMapS : Type 0 where
  pub bitmap : Words
  pub bitmap_setup : Bool
  pub entries : ℕ

-- The code passes `k` and not the `bit` that it has computed.
unfoldable pub bit_map_get_bit : BitMapS → ℕ → ℕ
bit_map_get_bit self k = get_bit (self.bitmap (sector_of k)) k

-- The new bitmap and the word that is returned.
unfoldable pub bit_map_set_bit : BitMapS → ℕ → BitMapS × ℕ
bit_map_set_bit self k =
    let word = set_bit (self.bitmap (sector_of k)) (inc64 k) in
    (record self { bitmap = update self.bitmap (sector_of k) word }, word)

unfoldable pub bit_map_clr_bit : BitMapS → ℕ → BitMapS × ℕ
bit_map_clr_bit self k =
    let word = clr_bit (self.bitmap (sector_of k)) (inc64 k) in
    (record self { bitmap = update self.bitmap (sector_of k) word }, word)

unfoldable pub bit_map_new_sector : BitMapS → ℕ → BitMapS × ℕ
bit_map_new_sector self sector =
    let once = update self.bitmap sector (set_bit (self.bitmap sector) 31) in
    (record self { bitmap = update once sector (clr_bit (once sector) 31) }, 0)
