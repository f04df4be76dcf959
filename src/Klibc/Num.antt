-- ===== src/Klibc/Num.antt =====
-- libs/klibc/libc.c: numbers as text, in memory. A loop without a bound of its own runs on fuel, and
-- `none` means that the fuel ran out, or behaviour that C leaves undefined.
pub mod Bytes
pub mod Swap
pub mod Laws
pub mod Count
mod Tests
use osakauss.Common.{
  ℕ, zero, suc, ◌+◌, ◌-◌, ◌*◌, ◌/◌, ◌%◌, ◌^◌, Bool, ◌||◌, ◌&&◌, Option, none, some, ltb, leb, ◌==◌,
  if◌then◌else◌,
}
use osakauss.Common.Int.{ℤ, pos, negsuc, quot, magnitude, sub_ℕ, pos_part, neg_part}
use osakauss.Format.{digit_of, is_zero, is_negative}
use osakauss.Klibc.Mem.{Memory, Ptr, store}
use osakauss.Klibc.Str.{strlen}
use osakauss.Pmm.{pmm_alloc}
use osakauss.Pmm.Memory.{Machine}

-- The conversion loop of `itoa`: the memory, and where `ptr` stands behind the last digit.
unfoldable pub write_digits : ℕ → Memory → Ptr → ℤ → ℕ → Option (Memory × Ptr)
write_digits zero m ptr value base = none
write_digits (suc fuel) m ptr value base =
    let written = store m ptr (digit_of value base) in
    let rest = write_digits fuel written (ptr + 1) (quot value base) base in
    if is_zero (quot value base) then some (written, ptr + 1) else rest

-- `while (low < ptr)`: the bytes at the two ends change places.
unfoldable pub swap_ends : ℕ → Memory → Ptr → Ptr → Option Memory
swap_ends zero m low ptr = none
swap_ends (suc fuel) m low ptr =
    let swapped = store (store m low (m ptr)) ptr (m low) in
    let rest = swap_ends fuel swapped (low + 1) (ptr - 1) in if ltb low ptr then rest else some m

-- The conversion from `low` on, the terminator, and the loop that inverts the numbers.
unfoldable pub convert_at : Memory → Ptr → ℤ → ℕ → Option Memory
convert_at m low value base = elim (write_digits 64 m low value base) [
  | none ↦ none
  | some (m', ptr) ↦ swap_ends 64 (store m' ptr 0) low (ptr - 1)
]

abbrev returns_str : Ptr → Option Memory → Option (Ptr × Memory)
returns_str str none = none
returns_str str (some m) = some (str, m)

-- An `int` has at most 32 digits, and the two ends meet after at most 16 rounds.
unfoldable pub itoa : Memory → ℤ → Ptr → ℕ → Option (Ptr × Memory)
itoa m value str base =
    if ltb base 2 || ltb 36 base
    then some (str, store m str 0)
    else if is_negative value && (base == 10)
    then returns_str str (convert_at (store m str b'-') (str + 1) value base)
    else returns_str str (convert_at m str value base)

-- `j` is -1 for an empty string; here it is 0, and the loop ends at once too.
unfoldable pub reverse_string : ℕ → Memory → Ptr → Option Memory
reverse_string fuel m s = elim (strlen fuel m s) [
  | none ↦ none
  | some len ↦ swap_ends fuel m s (s + (len - 1))
]

abbrev pub itob_digit : ℕ → ℕ
itob_digit j = if leb j 9 then j + b'0' else j + b'a' - 10

-- The loop of `itob` on a number that is not negative, with `i`.
unfoldable pub itob_digits : ℕ → Memory → Ptr → ℕ → ℕ → ℕ → Option (Memory × ℕ)
itob_digits zero m s n b i = none
itob_digits (suc fuel) m s n b i =
    let written = store m (s + i) (itob_digit (n % b)) in
    let rest = itob_digits fuel written s (n / b) b (i + 1) in
    if n / b == 0 then some (written, i + 1) else rest

-- The buffer of 100 bytes is not tested for NULL. `-n` overflows for the least `int`: undefined.
unfoldable pub itob : Machine → ℤ → ℕ → Option (Ptr × Machine)
itob s n b =
    let (p, pmm') = pmm_alloc s.pmm 100 in
    let converted : Option (Ptr × Machine) = elim (itob_digits 64 s.mem p (magnitude n) b 0) [
      | none ↦ none
      | some (m1, i) ↦
          let m2 = if is_negative n then store m1 (p + i) b'-' else m1 in
          let i' = if is_negative n then i + 1 else i in
          elim (reverse_string 100 (store m2 (p + i') 0) p) [
            | none ↦ none
            | some m3 ↦ some (p, record { pmm = pmm'; mem = m3 })
          ]
    ] in
    if is_negative n && (magnitude n == 2 ^ 31) then none else converted

-- `while (num > 0)`, with `count`
unfoldable pub count_digits : ℕ → ℕ → ℕ → Option ℕ
count_digits zero num count = none
count_digits (suc fuel) num count =
    let rest = count_digits fuel (num / 10) (count + 1) in if num == 0 then some count else rest

-- A negative number has no digits.
unfoldable pub digit_count : ℤ → Option ℕ
digit_count (pos num) = if num == 0 then some 1 else count_digits 65 num 0
digit_count (negsuc num) = some 0

-- `n * 8 + (c - '0')` for a `char`, which is negative from 128 on
abbrev pub shift_in : ℤ → ℕ → ℤ
shift_in n c =
    if ltb c 128
    then sub_ℕ (pos_part n * 8 + c) (neg_part n * 8 + b'0')
    else sub_ℕ (pos_part n * 8 + c) (neg_part n * 8 + b'0' + 256)

abbrev pub fits_int : ℤ → Bool
fits_int (pos n) = ltb n (2 ^ 31)
fits_int (negsuc n) = ltb n (2 ^ 31)

abbrev pub times_8 : ℤ → ℤ
times_8 (pos n) = pos (n * 8)
times_8 (negsuc n) = negsuc (n * 8 + 7)

-- The loop of `oct2bin`, with the rounds that are left; `none` is an overflow.
unfoldable pub oct2bin_from : Memory → Ptr → ℤ → ℕ → Option ℤ
oct2bin_from m c n zero = some n
oct2bin_from m c n (suc size) =
    let rest = oct2bin_from m (c + 1) (shift_in n (m c)) size in
    if fits_int (times_8 n) && fits_int (shift_in n (m c)) then rest else none

unfoldable pub oct2bin : Memory → Ptr → ℕ → Option ℤ
oct2bin m str size = oct2bin_from m str (pos 0) size
