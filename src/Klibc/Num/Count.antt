-- ===== src/Klibc/Num/Count.antt =====
-- `digit_count` and `oct2bin` of libs/klibc/libc.c.
use osakauss.Common.{
  ℕ, zero, suc, ◌+◌, ◌-◌, ◌*◌, ◌/◌, ◌^◌, ◌<◌, ◌≤◌, ◌≡◌, refl, sym, ap, ◌∙◌, inl, inr, true, List,
  [], ◌∷◌, some, ltb, ◌==◌, ==_ne, eq_cases, Bool-cases, lt→ltb, if◌then◌else◌, length, arith,
}
use osakauss.Common.Int.{ℤ, pos, negsuc, magnitude}
use osakauss.Format.{digit_of, is_negative, digits_from, format_i32_base, format_i32}
use osakauss.Format.Digits.{digits_from-total}
use osakauss.Klibc.Mem.{Memory, Ptr}
use osakauss.Klibc.Num.{count_digits, digit_count, shift_in, oct2bin_from, oct2bin}
use osakauss.Tar.Laws.{octal, Octal}

-- The loop makes a round for each digit that the conversion writes.
count_digits-length :
    (room n count : ℕ) (buf out : List ℕ)
    → 0 < n
    → digits_from room (pos n) 10 buf ≡ some out
    → (r : ℕ) × (count_digits (suc room) n count ≡ some r) × (r + length buf ≡ count + length out)
unfolding digits_from count_digits
count_digits-length zero n count buf out some_n e = absurd cc
count_digits-length (suc room) n count buf out some_n e = elim (Bool-cases (n / 10 == 0)) [
  | inl done ↦
      let whole : (digit_of (pos n) 10) ∷ buf ≡ out = ground (arith, e, done) in
      let size : length out ≡ suc (length buf) = ap length (sym whole) in
      (count + 1, rw (==_ne n 0 (omega arith), done) refl, omega (arith, size))
  | inr more ↦
      let left : 0 < n / 10 = ground (arith, more) in
      let (r, run, size) =
        count_digits-length room (n / 10) (count + 1) (digit_of (pos n) 10 ∷ buf) out left
          (ground (arith, e, more)) in
      (r, rw (==_ne n 0 (omega arith)) run, omega (arith, size))
]

zero_text : format_i32 (pos 0) ≡ some (b'0' ∷ [])
unfolding format_i32 format_i32_base digits_from
zero_text = refl

-- For an `int` that is not negative, `digit_count` ends and is the number of digits that `format_i32`
-- prints; for a negative one it is 0.
pub digit_count-length :
    (n : ℤ)
    → magnitude n ≤ 2 ^ 31
    → (out : List ℕ) × (format_i32 n ≡ some out)
      × (digit_count n ≡ some (if is_negative n then 0 else length out))
unfolding format_i32 format_i32_base digit_count
digit_count-length (negsuc n) small =
    let (out, run) = digits_from-total (negsuc n) 10 (omega arith) (omega arith) (omega arith) in
    (b'-' ∷ out, rw run refl, refl)
digit_count-length (pos zero) small = (b'0' ∷ [], zero_text, refl)
digit_count-length (pos (suc n)) small =
    let (out, run) = digits_from-total (pos (suc n)) 10 (omega arith) (omega arith) (omega arith) in
    let (r, counted, size) = count_digits-length 64 (suc n) 0 [] out (omega arith) run in
    let same : r ≡ length out = omega (arith, size) in
    (out, rw run refl, rw (==_ne (suc n) 0 (omega arith), counted, same) refl)

octal_grows : (digit : ℕ → ℕ) (k n : ℕ) → k ≤ n → octal digit k ≤ octal digit n
unfolding octal
octal_grows digit k zero le =
    let none_left : k ≡ 0 = omega (arith, le) in rw none_left (omega arith)
octal_grows digit k (suc n) le = elim (eq_cases k (suc n)) [
  | inl same ↦ rw same (omega arith)
  | inr less ↦ omega (arith, octal_grows digit k n (omega arith))
]

-- one round on an octal digit
shift_in-octal : (n c : ℕ) → b'0' ≤ c → c ≤ b'7' → shift_in (pos n) c ≡ pos (n * 8 + (c - b'0'))
shift_in-octal n c lo hi = ground arith

oct2bin_from-octal :
    (m : Memory) (digit : ℕ → ℕ) (str : Ptr) (n k c size : ℕ)
    → ((j : ℕ) → digit j ≡ m (str + j))
    → k + size ≡ n
    → c ≡ str + k
    → Octal digit n
    → octal digit n < 2 ^ 31
    → oct2bin_from m c (pos (octal digit k)) size ≡ some (pos (octal digit n))
unfolding octal oct2bin_from
oct2bin_from-octal m digit str n k c zero at end place digits small =
    let last : k ≡ n = omega (arith, end) in rw last refl
oct2bin_from-octal m digit str n k c (suc size) at end place digits small =
    let bounds = digits k (omega arith) in
    let read : m c ≡ digit k = ap m place ∙ sym (at k) in
    let grown : octal digit (suc k) ≤ octal digit n = octal_grows digit (suc k) n (omega arith) in
    let rest =
      oct2bin_from-octal m digit str n (suc k) (c + 1) size at (omega arith) (omega arith) digits
        small in
    let fits : ltb (octal digit (suc k)) (2 ^ 31) ≡ true =
      lt→ltb (octal digit (suc k)) (2 ^ 31) (omega (arith, grown)) in
    let fits' : ltb (octal digit k * 8) (2 ^ 31) ≡ true =
      lt→ltb (octal digit k * 8) (2 ^ 31) (omega (arith, grown)) in
    rw (read, shift_in-octal (octal digit k) (digit k) bounds.0 bounds.1, fits', fits) rest

-- Octal digits that stand for a number below 2 ^ 31: `oct2bin` overflows in no round, and it gives
-- that number.
pub oct2bin-octal :
    (m : Memory) (str : Ptr) (size : ℕ)
    → Octal (λ j. m (str + j)) size
    → octal (λ j. m (str + j)) size < 2 ^ 31
    → oct2bin m str size ≡ some (pos (octal (λ j. m (str + j)) size))
unfolding octal oct2bin
oct2bin-octal m str size digits small =
    oct2bin_from-octal m (λ j. m (str + j)) str size 0 str size (λ j. refl) (omega arith)
      (omega arith) digits small
