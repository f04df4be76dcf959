-- ===== src/Klibc/Num/Swap.antt =====
-- Turning a string round in place, as libs/klibc/libc.c does.
use osakauss.Common.{
  ℕ, zero, suc, ◌^◌, ◌+◌, ◌-◌, ◌<◌, ◌≤◌, ◌≡◌, refl, sym, ap, ◌∙◌, ◌⊎◌, inl, inr, true, false, ◌&&◌,
  List, [], ◌∷◌, some, ltb, leb, Bool-cases, ltb→lt, ltb_false→le, if◌then◌else◌, reverse, length,
  arith,
}
use osakauss.Klibc.Mem.{Memory, Ptr, store}
use osakauss.Klibc.Str.Laws.{IsString, IsString-zero, NonZero, strlen_lem, IsString-NonZero}
use osakauss.Klibc.Num.{swap_ends, reverse_string}
use osakauss.Klibc.Num.Bytes.{bytes, bytes-reverse, bytes-IsString, IsString-bytes, NonZero-reverse}

-- What turning the bytes from `low` to `high` leaves at `a`.
abbrev pub turned : Memory → Ptr → Ptr → Memory
turned m low high a = if leb low a && leb a high then m (low + (high - a)) else m a

turned_step :
    (m : Memory) (low high a : ℕ)
    → low < high
    → turned (store (store m low (m high)) high (m low)) (low + 1) (high - 1) a
      ≡ turned m low high a
turned_step m low high a h =
    let inner : low + 1 ≤ a → a ≤ high - 1 → low + 1 + (high - 1 - a) ≡ low + (high - a) =
      λ lo hi. omega arith in
    ground (arith, inner)

turned_last : (m : Memory) (low high a : ℕ) → high ≤ low → m a ≡ turned m low high a
turned_last m low high a h =
    let only : low ≤ a → a ≤ high → low + (high - a) ≡ a = λ lo hi. omega arith in
    ground (arith, only)

-- With more fuel than there are bytes the loop ends, and every byte is where it belongs.
pub swap_ends_lem :
    (fuel : ℕ) (m : Memory) (low high : ℕ)
    → 0 < fuel
    → high < low + fuel
    → (m' : Memory) × (swap_ends fuel m low high ≡ some m') × ((a : ℕ) → m' a ≡ turned m low high a)
unfolding swap_ends
swap_ends_lem zero m low high pos_fuel h = absurd (omega arith)
swap_ends_lem (suc fuel) m low high pos_fuel h = elim (Bool-cases (ltb low high)) [
  | inl apart ↦
      let (m', run, all) =
        swap_ends_lem fuel (store (store m low (m high)) high (m low)) (low + 1) (high - 1)
          (omega (arith, ltb→lt low high apart)) (omega (arith, ltb→lt low high apart)) in
      (m', rw apart run, λ a. all a ∙ turned_step m low high a (ltb→lt low high apart))
  | inr met ↦ (m, rw met refl, λ a. turned_last m low high a (ltb_false→le low high met))
]

-- The bytes between the two ends, and those outside.
pub swap_ends-bytes :
    (fuel : ℕ) (m : Memory) (p n : ℕ)
    → 0 < n
    → n ≤ fuel
    → (m' : Memory) × (swap_ends fuel m p (p + n - 1) ≡ some m')
      × (bytes m' p n ≡ reverse (bytes m p n))
      × ((a : ℕ) → (a < p) ⊎ (p + n ≤ a) → m' a ≡ m a)
swap_ends-bytes fuel m p n some_bytes enough =
    let (m', run, all) = swap_ends_lem fuel m p (p + n - 1) (omega arith) (omega arith) in
    (
      m',
      run,
      bytes-reverse m m' p p n (λ i lt.
          let place : p + (p + n - 1 - (p + i)) ≡ p + (n - 1 - i) = omega arith in
          let lo : leb p (p + i) ≡ true = ground arith in
          let hi : leb (p + i) (p + n - 1) ≡ true = ground arith in
          all (p + i) ∙ rw (lo, hi) (ap m place)),
      λ a outside.
          let e : (leb p a && leb a (p + n - 1)) ≡ false = elim outside [
            | inl below ↦ ground arith
            | inr above ↦ ground arith
          ] in
          all a ∙ rw e refl,
    )

-- `reverse` turns a string round in place, and touches no other byte.
pub reverse_string_lem :
    (fuel : ℕ) (m : Memory) (s : Ptr) (xs : List ℕ)
    → length xs < fuel
    → length xs < 2 ^ 32
    → IsString m s xs
    → (m' : Memory) × (reverse_string fuel m s ≡ some m')
      × IsString m' s (reverse xs)
      × ((a : ℕ) → (a < s) ⊎ (s + length xs ≤ a) → m' a ≡ m a)
unfolding reverse_string
reverse_string_lem fuel m s [] enough small h =
    let (m', run, all) = swap_ends_lem fuel m s (s + (0 - 1)) enough (omega arith) in
    let same : (a : ℕ) → m' a ≡ m a =
      λ a. all a ∙ sym (turned_last m s (s + (0 - 1)) a (omega arith)) in
    (
      m',
      rw (reverse_string, strlen_lem fuel m s [] enough small h) run,
      same s ∙ h,
      λ a outside. same a,
    )
reverse_string_lem fuel m s (c ∷ cs) enough small h =
    let n = length (c ∷ cs) in
    let end : s + (n - 1) ≡ s + n - 1 = omega arith in
    let (m', run, turned_bytes, others) = swap_ends-bytes fuel m s n (omega arith) (omega arith) in
    let result : bytes m' s n ≡ reverse (c ∷ cs) =
      turned_bytes ∙ ap reverse (IsString-bytes m s (c ∷ cs) h) in
    let nz : NonZero (bytes m' s n) =
      rw result (NonZero-reverse (c ∷ cs) (IsString-NonZero m s (c ∷ cs) h)) in
    (
      m',
      rw (reverse_string, strlen_lem fuel m s (c ∷ cs) enough small h, end) run,
      rw result at (
          bytes-IsString m' s n nz
            (others (s + n) (inr (omega arith)) ∙ IsString-zero m s (c ∷ cs) h)),
      others,
    )
