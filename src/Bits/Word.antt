-- ===== src/Bits/Word.antt =====
-- 32-bit patterns: `1 << k`, `~x` and `n >> k` of an `int` as the x86-64 instructions compute them
-- (the build uses -O0, and the shift instructions take the count modulo 32).
use native.Mathlib.Nat.{pow-succ'}
use osakauss.Common.{
  ℕ, zero, suc, ◌+◌, ◌-◌, ◌/◌, ◌%◌, ◌^◌, ◌<◌, ◌≡◌, refl, ap, ◌∙◌, Bool, true, arith, ltb, ◌==◌,
  ==_iff, if◌then◌else◌,
}
use osakauss.Common.Table.{check_all, check_all-entry}
use osakauss.Bits.{testbit, testbit-zero, testbit-suc, zero-testbit}

-- `1 << k`
unfoldable pub shl_one : ℕ → ℕ
shl_one k = 2 ^ (k % 32)

-- `~x`
unfoldable pub complement : ℕ → ℕ
complement x = 2 ^ 32 - 1 - x

-- `n >> k`, which copies the sign bit of the pattern `n`
unfoldable pub sar : ℕ → ℕ → ℕ
sar n k =
    let s = k % 32 in if ltb n (2 ^ 31) then n / 2 ^ s else n / 2 ^ s + (2 ^ 32 - 2 ^ (32 - s))

testbit-one : (j : ℕ) → testbit 1 (suc j) ≡ 0
testbit-one j = testbit-suc 1 j ∙ zero-testbit j

testbit-two_pow : (k j : ℕ) → testbit (2 ^ k) j ≡ (if k == j then 1 else 0)
testbit-two_pow zero zero = testbit-zero 1
testbit-two_pow zero (suc j) = testbit-one j ∙ ground arith
testbit-two_pow (suc k) zero = testbit-zero (2 ^ suc k) ∙ ground (arith, pow-succ' 2 k)
testbit-two_pow (suc k) (suc j) =
    testbit-suc (2 ^ suc k) j
    ∙ ap (λ t. testbit t j) (omega (arith, pow-succ' 2 k))
    ∙ testbit-two_pow k j
    ∙ ground arith

-- `1 << k` has the one bit `k`, taken modulo 32
pub testbit-shl_one : (k j : ℕ) → testbit (shl_one k) j ≡ (if k % 32 == j then 1 else 0)
unfolding shl_one
testbit-shl_one k j = testbit-two_pow (k % 32) j

-- Is bit `j` of `~(1 << k)` the one that it should be?
complement_row : ℕ → ℕ → Bool
unfolding testbit
complement_row k j = testbit (2 ^ 32 - 1 - 2 ^ k) j == (if k == j then 0 else 1)

complement_table : check_all (λ k. check_all (complement_row k) 32) 32 ≡ true
unfolding check_all complement_row
complement_table = refl

complement_row-true : (k j : ℕ) → k < 32 → j < 32 → complement_row k j ≡ true
complement_row-true k j hk hj =
    check_all-entry (complement_row k) 32 j hj
      (check_all-entry (λ i. check_all (complement_row i) 32) 32 k hk complement_table)

-- `~(1 << k)` has every bit but bit `k`, taken modulo 32
pub testbit-complement :
    (k j : ℕ) → j < 32 → testbit (complement (shl_one k)) j ≡ (if k % 32 == j then 0 else 1)
unfolding complement shl_one complement_row
testbit-complement k j h = (==_iff _ _).0 (complement_row-true (k % 32) j (omega arith) h)

even_two_pow : (s : ℕ) → s < 32 → (2 ^ 32 - 2 ^ (32 - s)) % 2 ≡ 0
even_two_pow s h =
    let e : 32 - s ≡ suc (31 - s) = omega arith in rw e (omega (arith, pow-succ' 2 (31 - s)))

-- `(n >> k) & 1` is bit `k` modulo 32, whatever the sign of `n`
pub testbit-sar : (n k : ℕ) → testbit (sar n k) 0 ≡ testbit n (k % 32)
unfolding sar
testbit-sar n k = testbit-zero (sar n k) ∙ low
  where
    low : sar n k % 2 ≡ testbit n (k % 32)
    low = unfold testbit in ground (arith, even_two_pow (k % 32))
