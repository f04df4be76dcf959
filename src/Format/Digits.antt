-- ===== src/Format/Digits.antt =====
-- `format_i32_base` of libs/format.c: the digits that it prints stand for the number.
use native.Mathlib.Nat.{pow-succ', div-add-mod', div-lt_iff_lt-mul}
use osakauss.Common.{
  ℕ, zero, suc, ◌+◌, ◌-◌, ◌*◌, ◌/◌, ◌%◌, ◌^◌, ◌≤◌, ◌<◌, ◌≡◌, refl, sym, ap, ◌∙◌, ◌⊎◌, inl, inr,
  Bool, true, false, ◌&&◌, ◌||◌, List, [], ◌∷◌, ◌++◌, some, ltb, leb, ◌==◌, ==_iff, Bool-cases,
  get_or, length, if◌then◌else◌, arith,
}
use osakauss.Common.Int.{ℤ, pos, negsuc, neg, quot, magnitude}
use osakauss.Common.Table.{check_all, check_all-entry}
use osakauss.Format.{chars, digit_of, is_zero, digits_from, sign_of, format_i32_base, format_i32}

-- the value of a digit: '0' to '9', then 'a' to 'z'
abbrev pub digit_value : ℕ → ℕ
digit_value c = if leb c b'9' then c - b'0' else c - b'a' + 10

-- reading a numeral, with what has been read so far
unfoldable pub read_digits : ℕ → ℕ → List ℕ → ℕ
read_digits base acc [] = acc
read_digits base acc (c ∷ s) = read_digits base (acc * base + digit_value c) s

-- The table of characters gives the digit `r` at both `35 + r` and `35 - r`, and no '-' among them.
entry_ok : ℕ → ℕ → ℕ → Bool
entry_ok r up down =
    ((digit_value up == r) && (digit_value down == r)) && (leb b'0' up && leb b'0' down)

chars_entry : ℕ → Bool
unfolding entry_ok
chars_entry r = entry_ok r (get_or chars (35 + r) 0) (get_or chars (35 - r) 0)

chars_table : check_all chars_entry 36 ≡ true
unfolding check_all chars_entry
chars_table = refl

record IsDigit (c r : ℕ) : Type 0 where
  value : digit_value c ≡ r
  no_sign : b'0' ≤ c

entry_ok-IsDigit : (r up down : ℕ) → entry_ok r up down ≡ true → IsDigit up r × IsDigit down r
unfolding entry_ok
entry_ok-IsDigit r up down e = (
  record { value = ground arith; no_sign = ground arith },
  record { value = ground arith; no_sign = ground arith },
)

chars-IsDigit :
    (r : ℕ) → r < 36 → IsDigit (get_or chars (35 + r) 0) r × IsDigit (get_or chars (35 - r) 0) r
unfolding chars_entry
chars-IsDigit r lt =
    entry_ok-IsDigit r (get_or chars (35 + r) 0) (get_or chars (35 - r) 0)
      (check_all-entry chars_entry 36 r lt chars_table)

digit_of-IsDigit :
    (n : ℤ) (base : ℕ) → 2 ≤ base → base ≤ 36 → IsDigit (digit_of n base) (magnitude n % base)
digit_of-IsDigit (pos n) base lo hi = (chars-IsDigit (n % base) (omega arith)).0
digit_of-IsDigit (negsuc n) base lo hi = (chars-IsDigit (suc n % base) (omega arith)).1

bounds_of_digit : (c r : ℕ) → r < 36 → IsDigit c r → (0 < c) × (c < 256)
bounds_of_digit c r small d = (omega (arith, d.no_sign), ground (arith, d.value, d.no_sign))

-- A digit is a byte, and not NUL.
pub digit_of_bounds :
    (n : ℤ) (base : ℕ) → 2 ≤ base → base ≤ 36 → (0 < digit_of n base) × (digit_of n base < 256)
digit_of_bounds n base lo hi =
    let d = digit_of-IsDigit n base lo hi in
    let small : magnitude n % base < 36 = omega arith in
    bounds_of_digit (digit_of n base) (magnitude n % base) small d

magnitude-neg : (n : ℕ) → magnitude (neg n) ≡ n
magnitude-neg zero = refl
magnitude-neg (suc n) = refl

magnitude-quot : (n : ℤ) (base : ℕ) → magnitude (quot n base) ≡ magnitude n / base
magnitude-quot (pos n) base = refl
magnitude-quot (negsuc n) base = magnitude-neg (suc n / base)

is_zero-magnitude : (n : ℤ) → is_zero n ≡ (magnitude n == 0)
is_zero-magnitude (pos n) = refl
is_zero-magnitude (negsuc n) = ground arith

-- What the conversion loop leaves in front of `buf` for the number of magnitude `m`.
record Converted (m base room : ℕ) (buf out : List ℕ) : Type 0 where
  value : read_digits base 0 out ≡ read_digits base m buf
  fits : length out ≤ length buf + room
  leading : (m ≡ 0) ⊎ (0 < digit_value (get_or out 0 b'0'))
  no_sign : b'0' ≤ get_or out 0 b'0'

pub room_left : (room q : ℕ) → q < 2 ^ room → 0 < q → 0 < room
room_left zero q below left = absurd (omega arith)
room_left (suc room) q below left = omega arith

leading_digit : (m d : ℕ) → d ≡ m → (m ≡ 0) ⊎ (0 < d)
leading_digit zero d e = inl refl
leading_digit (suc m) d e = inr (omega arith)

module _ (base : ℕ) (lo : 2 ≤ base) (hi : base ≤ 36) where
  last-Converted :
      (n : ℤ) (room : ℕ) (buf : List ℕ)
      → magnitude n / base ≡ 0
      → Converted (magnitude n) base (suc room) buf (digit_of n base ∷ buf)
  unfolding read_digits
  last-Converted n room buf z =
      let d = digit_of-IsDigit n base lo hi in
      let whole : 0 * base + magnitude n % base ≡ magnitude n =
        rw z at (div-add-mod' (magnitude n) base) in
      record {
        value = ap (λ t. read_digits base t buf) (ap (λ v. 0 * base + v) d.value ∙ whole);
        fits = omega arith;
        leading =
            leading_digit (magnitude n) (digit_value (digit_of n base))
              (d.value ∙ omega (arith, whole));
        no_sign = d.no_sign;
      }

  more-Converted :
      (n : ℤ) (room : ℕ) (buf out : List ℕ)
      → 0 < magnitude n / base
      → Converted (magnitude n / base) base room (digit_of n base ∷ buf) out
      → Converted (magnitude n) base (suc room) buf out
  unfolding read_digits
  more-Converted n room buf out more c =
      let d = digit_of-IsDigit n base lo hi in
      record {
        value =
            c.value
            ∙ ap (λ t. read_digits base t buf)
                (ap (λ v. magnitude n / base * base + v) d.value ∙ div-add-mod' (magnitude n) base);
        fits = omega (arith, c.fits);
        leading = elim c.leading [ inl z ↦ absurd (omega arith) | inr some_digit ↦ inr some_digit ];
        no_sign = c.no_sign;
      }

  -- The loop ends within `room` rounds where the number has at most `room` binary digits.
  digits_from-Converted :
      (room : ℕ) (n : ℤ) (buf : List ℕ)
      → magnitude n < 2 ^ room
      → 0 < room
      → (out : List ℕ) × (digits_from room n base buf ≡ some out)
        × Converted (magnitude n) base room buf out
  unfolding digits_from
  digits_from-Converted zero n buf small roomy = absurd (omega arith)
  digits_from-Converted (suc room) n buf small roomy =
      let e = is_zero-magnitude (quot n base) ∙ ap (λ m. m == 0) (magnitude-quot n base) in
      elim (Bool-cases (is_zero (quot n base))) [
        | inl done ↦ (
          digit_of n base ∷ buf,
          rw done,
          last-Converted n room buf ((==_iff _ _).0 (sym e ∙ done)),
        )
        | inr more ↦
            let left : 0 < magnitude n / base = ground (arith, sym e ∙ more) in
            let below : magnitude n / base < 2 ^ room =
              (div-lt_iff_lt-mul (omega arith)).1 (grind (arith, small, pow-succ' 2 room)) in
            let (out, run, c) =
              digits_from-Converted room (quot n base) (digit_of n base ∷ buf)
                (rw magnitude-quot below) (room_left room (magnitude n / base) below left) in
            (out, rw more run, more-Converted n room buf out left (rw magnitude-quot at c))
      ]

-- The conversion loop ends within the buffer.
pub digits_from-total :
    (n : ℤ) (base : ℕ)
    → 2 ≤ base
    → base ≤ 36
    → magnitude n ≤ 2 ^ 32
    → (out : List ℕ) × (digits_from 64 n base [] ≡ some out)
digits_from-total n base lo hi small =
    let (out, run, c) = digits_from-Converted base lo hi 64 n [] (omega arith) (omega arith) in
    (out, run)

-- For a base from 2 to 36 and a number of at most 2 ^ 32, `format_i32_base` does not overrun its
-- buffer: it prints a '-' if the number is negative and the base is 10, and then at most 64 digits
-- that stand for the magnitude in that base, the first of them not 0 unless the number is.
pub format_i32_base-read :
    (n : ℤ) (base : ℕ)
    → 2 ≤ base
    → base ≤ 36
    → magnitude n ≤ 2 ^ 32
    → (out : List ℕ) × (format_i32_base n base ≡ some (sign_of n base ++ out))
      × (read_digits base 0 out ≡ magnitude n)
      × (length out ≤ 64)
      × ((magnitude n ≡ 0) ⊎ (0 < digit_value (get_or out 0 b'0')))
unfolding format_i32_base read_digits
format_i32_base-read n base lo hi small =
    let (out, run, c) = digits_from-Converted base lo hi 64 n [] (omega arith) (omega arith) in
    let supported : (ltb base 2 || ltb 36 base) ≡ false = ground arith in
    (out, rw (supported, run), c.value, c.fits, c.leading)

-- For any other base `format_i32_base` prints nothing.
pub format_i32_base-unsupported :
    (n : ℤ) (base : ℕ) → (base < 2) ⊎ (36 < base) → format_i32_base n base ≡ some []
unfolding format_i32_base
format_i32_base-unsupported n base (inl lo) = ground arith
format_i32_base-unsupported n base (inr hi) = ground arith

-- reading a decimal integer with an optional '-'
unfoldable pub read_i32 : List ℕ → ℤ
read_i32 [] = pos 0
read_i32 (c ∷ s) = if c == b'-' then neg (read_digits 10 0 s) else pos (read_digits 10 0 (c ∷ s))

read_unsigned :
    (out : List ℕ) → b'0' ≤ get_or out 0 b'0' → read_i32 out ≡ pos (read_digits 10 0 out)
unfolding read_i32 read_digits
read_unsigned [] h = refl
read_unsigned (c ∷ s) h = ground arith

-- Every `int` is read back from what `format_i32` prints.
pub read_i32-format_i32 :
    (n : ℤ) → magnitude n ≤ 2 ^ 31 → (out : List ℕ) × (format_i32 n ≡ some out) × (read_i32 out ≡ n)
unfolding format_i32 format_i32_base
read_i32-format_i32 (pos n) small =
    let (out, run, c) =
      digits_from-Converted 10 (omega arith) (omega arith) 64 (pos n) [] (omega arith)
        (omega arith) in
    (out, rw run, read_unsigned out c.no_sign ∙ ap pos (unfold read_digits in c.value))
read_i32-format_i32 (negsuc n) small =
    let (out, run, c) =
      digits_from-Converted 10 (omega arith) (omega arith) 64 (negsuc n) [] (omega arith)
        (omega arith) in
    (b'-' ∷ out, rw run, unfold read_i32 read_digits in ap neg c.value)
