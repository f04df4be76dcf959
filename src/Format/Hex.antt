-- ===== src/Format/Hex.antt =====
-- `format_h32` and `format_pointer` of libs/format.c: what they print, read as a hexadecimal number.
use native.Mathlib.Nat.{div-div-eq-div-mul, pow-succ'}
use osakauss.Common.{
  ℕ, zero, suc, ◌+◌, ◌*◌, ◌/◌, ◌%◌, ◌^◌, ◌<◌, ◌≡◌, refl, sym, ap, ◌∙◌, ◌⊎◌, inl, inr, bit_and, Bool,
  true, false, List, [], ◌∷◌, ◌++◌, ◌==◌, ==_iff, Bool-cases, length, length-append, arith,
}
use osakauss.Bits.{bit_and-fifteen}
use osakauss.Format.{codes, hex_digit, hex_digits, format_h32, format_pointer}
use osakauss.Format.Digits.{digit_value, read_digits}

hex_digit-value : (d : ℕ) → d < 16 → digit_value (hex_digit d) ≡ d
hex_digit-value d lt = ground arith

four_suc : (k : ℕ) → 4 * suc k ≡ suc (suc (suc (suc (4 * k))))
four_suc k = omega arith

pow-add_four : (e : ℕ) → 2 ^ suc (suc (suc (suc e))) ≡ 2 ^ e * 16
pow-add_four e = omega (
  arith,
  pow-succ' 2 e,
  pow-succ' 2 (suc e),
  pow-succ' 2 (suc (suc e)),
  pow-succ' 2 (suc (suc (suc e))),
)

-- the digits from place `k` on
upper : ℕ → ℕ → ℕ
upper n k = n / 2 ^ (4 * k)

nibble : (n k : ℕ) → upper n k ≡ upper n (suc k) * 16 + upper n k % 16
unfolding upper
nibble n k =
    let p : 2 ^ (4 * suc k) ≡ 2 ^ (4 * k) * 16 = rw four_suc (pow-add_four (4 * k)) in
    rw (p, ← div-div-eq-div-mul) (omega arith)

nibble_of : (n k : ℕ) → bit_and (n / 2 ^ (4 * k)) 0xf ≡ upper n k % 16
unfolding upper
nibble_of n k = bit_and-fifteen (n / 2 ^ (4 * k))

-- The loop continues a reading of the digits above place `k`, down to place 1. Leading zeros are
-- skipped only where nothing has been read.
read-hex_digits :
    (k n : ℕ) (no_zeroes : Bool) (rest : List ℕ)
    → (no_zeroes ≡ true → upper n (suc k) ≡ 0)
    → read_digits 16 (upper n (suc k)) (hex_digits k n no_zeroes ++ rest)
      ≡ read_digits 16 (upper n 1) rest
unfolding read_digits hex_digits
read-hex_digits zero n no_zeroes rest skip = refl
read-hex_digits (suc k) n no_zeroes rest skip =
    let tmp = bit_and (n / 2 ^ (4 * suc k)) 0xf in
    let t : tmp ≡ upper n (suc k) % 16 = nibble_of n (suc k) in
    elim (Bool-cases (tmp == 0)) [
      | inl zero_digit ↦
          let z : tmp ≡ 0 = (==_iff _ _).0 zero_digit in
          rw zero_digit (elim (Bool-cases no_zeroes) [
            | inl skipping ↦ rw skipping (
                ap (λ a. read_digits 16 a (hex_digits k n true ++ rest))
                  (omega (arith, skip skipping, nibble n (suc k), t, z))
                ∙ read-hex_digits k n true rest
                    (λ e. omega (arith, skip skipping, nibble n (suc k), t, z)))
            | inr printing ↦ rw printing (
                ap (λ a. read_digits 16 a (hex_digits k n false ++ rest))
                  (omega (arith, nibble n (suc k), t, z))
                ∙ read-hex_digits k n false rest (λ e. cc))
          ])
      | inr digit ↦ rw digit (
          ap (λ a. read_digits 16 a (hex_digits k n false ++ rest))
            (omega (arith, nibble n (suc k), t, hex_digit-value tmp))
          ∙ read-hex_digits k n false rest (λ e. cc))
    ]

length-hex_digits : (k n : ℕ) → length (hex_digits k n false) ≡ k
unfolding hex_digits
length-hex_digits zero n = refl
length-hex_digits (suc k) n = ground (arith, length-hex_digits k n)

upper_eight : (n : ℕ) → n < 2 ^ 32 → upper n 8 ≡ 0
unfolding upper
upper_eight n small = omega arith

last_nibble : (n : ℕ) → upper n 1 * 16 + digit_value (hex_digit (bit_and n 0xf)) ≡ n
unfolding upper
last_nibble n =
    omega
      (arith, bit_and-fifteen n, hex_digit-value (bit_and n 0xf) (omega (arith, bit_and-fifteen n)))

-- What `format_h32` prints behind "0x" is the number in hexadecimal, whether or not leading zeros are
-- left out; with them it is eight digits.
pub format_h32-read :
    (n : ℕ) (no_zeroes : Bool)
    → n < 2 ^ 32
    → (out : List ℕ) × (format_h32 n no_zeroes ≡ b'0' ∷ b'x' ∷ out)
      × (read_digits 16 0 out ≡ n)
      × (no_zeroes ≡ false → length out ≡ 8)
unfolding format_h32
format_h32-read n no_zeroes small = (
  hex_digits 7 n no_zeroes ++ (hex_digit (bit_and n 0xf) ∷ []),
  refl,
  ap (λ a. read_digits 16 a (hex_digits 7 n no_zeroes ++ (hex_digit (bit_and n 0xf) ∷ [])))
        (sym (upper_eight n small))
      ∙ read-hex_digits 7 n no_zeroes (hex_digit (bit_and n 0xf) ∷ []) (λ _. upper_eight n small)
      ∙ unfold read_digits in last_nibble n,
  λ e. rw (e, length-append) (omega (arith, length-hex_digits 7 n)),
)

-- `format_pointer` prints "(nil)" for a null pointer, and else "0x" and eight digits that stand for
-- the 32 bits that it was given.
pub format_pointer-read :
    (p : ℕ)
    → p < 2 ^ 32
    → ((p ≡ 0) × (format_pointer p ≡ codes "(nil)"))
      ⊎ ((0 < p)
          × ((out : List ℕ) × (format_pointer p ≡ b'0' ∷ b'x' ∷ out)
              × (read_digits 16 0 out ≡ p)
              × (length out ≡ 8)))
unfolding format_pointer
format_pointer-read p small = elim (Bool-cases (p == 0)) [
  | inl null ↦ inl ((==_iff _ _).0 null, rw null)
  | inr real ↦
      let (out, e, value, len) = format_h32-read p false small in
      inr (ground arith, (out, rw real e, value, len refl))
]
