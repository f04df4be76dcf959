-- ===== src/Bits.antt =====
-- Bits of machine words: `testbit`, how the native `&` and `|` act on it, and the x86-64 shifts of an
-- `int`, whose count the processor reduces modulo 32. Helpers for libs/bitmap.c and kernel/cpu/ISR.c.
pub mod Word
use Prim.Native.Nat.{digits, bit_and-bitwise, bit_or-bitwise}
use native.Mathlib.Nat.{pow-succ', div-div-eq-div-mul}
use osakauss.Common.{
  ℕ, zero, suc, ◌+◌, ◌*◌, ◌/◌, ◌%◌, ◌^◌, ◌≤◌, ◌<◌, min, max, bit_and, bit_or, ◌≡◌, ap, ◌∙◌, arith,
}

-- bit `j` of `n`
unfoldable pub testbit : ℕ → ℕ → ℕ
testbit n j = n / 2 ^ j % 2

pub testbit-lt : (n j : ℕ) → testbit n j < 2
unfolding testbit
testbit-lt n j = omega arith

pub testbit-zero : (n : ℕ) → testbit n 0 ≡ n % 2
unfolding testbit
testbit-zero n = omega arith

pub testbit-suc : (n j : ℕ) → testbit n (suc j) ≡ testbit (n / 2) j
unfolding testbit
testbit-suc n j = rw (pow-succ' 2 j, ← div-div-eq-div-mul)

pub zero-testbit : (j : ℕ) → testbit 0 j ≡ 0
zero-testbit zero = testbit-zero 0
zero-testbit (suc j) = testbit-suc 0 j ∙ zero-testbit j

-- An operation on binary digits that `z` completes acts on each bit.
module _ (z : ℕ → ℕ) (f : ℕ → ℕ → ℕ) (small : (x y : ℕ) → x < 2 → y < 2 → f x y < 2)
    (done : (b j : ℕ) → testbit (z b) j ≡ f 0 (testbit b j)) where
  testbit-digits :
      (n a b j : ℕ) → a ≤ n → testbit (digits z f n a b) j ≡ f (testbit a j) (testbit b j)
  testbit-digits zero zero b j h = rw (zero-testbit j) (done b j)
  testbit-digits zero (suc a) b j h = absurd (omega arith)
  testbit-digits (suc n) zero b j h = rw (zero-testbit j) (done b j)
  testbit-digits (suc n) (suc a) b zero h =
      let r = f (suc a % 2) (b % 2) in
      let below : r < 2 = small (suc a % 2) (b % 2) (omega arith) (omega arith) in
      rw (testbit-zero (suc a), testbit-zero b)
        (testbit-zero (digits z f n (suc a / 2) (b / 2) * 2 + r) ∙ omega arith)
  testbit-digits (suc n) (suc a) b (suc j) h =
      let rest = digits z f n (suc a / 2) (b / 2) in
      let r = f (suc a % 2) (b % 2) in
      let below : r < 2 = small (suc a % 2) (b % 2) (omega arith) (omega arith) in
      let halved : (rest * 2 + r) / 2 ≡ rest = omega arith in
      rw (testbit-suc (suc a) j, testbit-suc b j)
        (testbit-suc (rest * 2 + r) j
          ∙ ap (λ t. testbit t j) halved
          ∙ testbit-digits n (suc a / 2) (b / 2) j (omega arith))

max-lt : (x y : ℕ) → x < 2 → y < 2 → max x y < 2
max-lt x y p q = omega arith

min-lt : (x y : ℕ) → x < 2 → y < 2 → min x y < 2
min-lt x y p q = omega arith

max_done : (b j : ℕ) → testbit b j ≡ max 0 (testbit b j)
max_done b j = omega arith

min_done : (b j : ℕ) → testbit 0 j ≡ min 0 (testbit b j)
min_done b j = zero-testbit j ∙ omega arith

pub testbit-bit_or : (a b j : ℕ) → testbit (bit_or a b) j ≡ max (testbit a j) (testbit b j)
testbit-bit_or a b j =
    rw (bit_or-bitwise a b) (testbit-digits (λ y. y) max max-lt max_done a a b j (omega arith))

pub testbit-bit_and : (a b j : ℕ) → testbit (bit_and a b) j ≡ min (testbit a j) (testbit b j)
testbit-bit_and a b j =
    rw (bit_and-bitwise a b) (testbit-digits (λ y. 0) min min-lt min_done a a b j (omega arith))

digits-min-le : (n a b : ℕ) → digits (λ y. 0) min n a b ≤ b
digits-min-le zero a b = omega arith
digits-min-le (suc n) zero b = omega arith
digits-min-le (suc n) (suc a) b = omega (arith, digits-min-le n (suc a / 2) (b / 2))

-- a mask bounds the result
pub bit_and-le_right : (a b : ℕ) → bit_and a b ≤ b
bit_and-le_right a b = rw (bit_and-bitwise a b) (digits-min-le a a b)

pub bit_and-one : (n : ℕ) → bit_and n 1 ≡ testbit n 0
bit_and-one n = omega (
  arith,
  bit_and-le_right n 1,
  testbit-bit_and n 1 0,
  testbit-zero (bit_and n 1),
  testbit-zero 1,
  testbit-lt n 0,
)

-- the low four bits
pub bit_and-fifteen : (n : ℕ) → bit_and n 0xf ≡ n % 16
unfolding testbit
bit_and-fifteen n = omega (
  arith,
  bit_and-le_right n 15,
  testbit-bit_and n 15 0,
  testbit-bit_and n 15 1,
  testbit-bit_and n 15 2,
  testbit-bit_and n 15 3,
)
