-- ===== src/Klibc/Mem/Laws.antt =====
-- libs/klibc/mem.c against what the C library promises of these functions.
use native.Mathlib.Nat.{add-zero, zero-add}
use osakauss.Common.{
  ℕ, zero, suc, ◌+◌, ◌-◌, ◌%◌, ◌^◌, ◌<◌, ◌≤◌, ◌≡◌, refl, sym, ap, ◌∙◌, ◌⊎◌, inl, inr, ◌≢◌, true,
  false, Bool, Bool-cases, ◌&&◌, arith, ltb, leb, ltb→lt, ltb_false→le, ◌==◌, if◌then◌else◌,
}
use osakauss.Common.Int.{ℤ, pos, minus_one}
use osakauss.Klibc.Mem.{
  Memory, Ptr, store, fill, memset, copy_up, copy_down, memmove, memcpy, compare_bytes, memcmp,
}

-- Is `a` one of the `n` addresses from `p` on?
abbrev pub in_range : Ptr → ℕ → ℕ → Bool
in_range p n a = leb p a && ltb a (p + n)

fill_lem :
    (v : ℕ) (m : Memory) (buf n a : ℕ) → fill v m buf n a ≡ (if in_range buf n a then v else m a)
unfolding fill
fill_lem v m buf zero a = ground arith
fill_lem v m buf (suc n) a = ground (arith, fill_lem v (store m buf v) (buf + 1) n a)

-- One round up: the first byte has been copied, and the rest is right.
copy_round :
    (m : Memory) (dst src n a r : ℕ)
    → r ≡ (
        if in_range (dst + 1) n a
        then store m dst (m src) (src + 1 + (a - (dst + 1)))
        else store m dst (m src) a)
    → (in_range (dst + 1) n a ≡ true → src + (a - dst) ≢ dst)
    → r ≡ (if in_range dst (suc n) a then m (src + (a - dst)) else m a)
copy_round m dst src n a r e apart = elim (Bool-cases (in_range (dst + 1) n a)) [
  | inl here ↦
      let x : src + 1 + (a - (dst + 1)) ≡ src + (a - dst) = ground arith in
      let wide : in_range dst (suc n) a ≡ true = ground arith in
      let miss : (dst == src + (a - dst)) ≡ false = ground (arith, apart here) in
      rw wide ((rw (here, x, miss) at e))
  | inr out ↦ elim (Bool-cases (dst == a)) [
    | inl same ↦
        let wide : in_range dst (suc n) a ≡ true = ground arith in
        let x : src ≡ src + (a - dst) = ground arith in rw wide ((rw (out, same) at e) ∙ ap m x)
    | inr other ↦
        let wide : in_range dst (suc n) a ≡ false = ground arith in rw wide (rw (out, other) at e)
  ]
]

-- Copying up is right as long as no byte is read after it has been overwritten.
pub copy_up_lem :
    (m : Memory) (dst src n a : ℕ)
    → (dst ≤ src) ⊎ (src + n ≤ dst)
    → copy_up m dst src n a ≡ (if in_range dst n a then m (src + (a - dst)) else m a)
unfolding copy_up
copy_up_lem m dst src zero a h = ground arith
copy_up_lem m dst src (suc n) a h =
    let h' : (dst + 1 ≤ src + 1) ⊎ (src + 1 + n ≤ dst + 1) = elim h [
      | inl lo ↦ inl (omega arith)
      | inr hi ↦ inr (omega arith)
    ] in
    copy_round m dst src n a (copy_up (store m dst (m src)) (dst + 1) (src + 1) n a)
      (copy_up_lem (store m dst (m src)) (dst + 1) (src + 1) n a h')
      (λ here. elim h [ inl lo ↦ ground arith | inr hi ↦ ground arith ])

copy_down_lem :
    (m : Memory) (dst src n a : ℕ)
    → src ≤ dst
    → copy_down m dst src n a ≡ (if in_range dst n a then m (src + (a - dst)) else m a)
unfolding copy_down
copy_down_lem m dst src zero a h = ground arith
copy_down_lem m dst src (suc n) a h =
    ground (arith, copy_down_lem (store m (dst + n) (m (src + n))) dst src n a h)

-- For a size below 2 ^ 32, `memset` writes the byte to the `size` addresses from `buf` on and to no
-- other, and returns `buf`.
pub memset_lem :
    (m : Memory) (buf value size : ℕ)
    → value < 256
    → size < 2 ^ 32
    → ((memset m buf value size).1 ≡ buf)
      × ((a : ℕ) → (memset m buf value size).0 a ≡ (if in_range buf size a then value else m a))
unfolding memset
memset_lem m buf value size byte small =
    let v : value % 256 ≡ value = omega arith in
    let n : size % 2 ^ 32 ≡ size = omega arith in
    (refl, λ a. rw (v, n) (fill_lem value m buf size a))

-- For a size below 2 ^ 32, `memmove` leaves in the destination the bytes that the source held before
-- the call, however the two overlap, changes no other byte, and returns the destination.
pub memmove_lem :
    (m : Memory) (dst src size : ℕ)
    → size < 2 ^ 32
    → ((memmove m dst src size).1 ≡ dst)
      × ((a : ℕ)
          → (memmove m dst src size).0 a
            ≡ (if in_range dst size a then m (src + (a - dst)) else m a))
unfolding memmove
memmove_lem m dst src size small =
    let n : size % 2 ^ 32 ≡ size = omega arith in
    rw n (elim (Bool-cases (ltb dst src)) [
      | inl up ↦ rw up (refl, λ a. copy_up_lem m dst src size a (inl (ground arith)))
      | inr down ↦ rw down (refl, λ a. copy_down_lem m dst src size a (ltb_false→le _ _ down))
    ])

-- For a size below 2 ^ 32, and a destination that the source does not reach from below, `memcpy` does
-- what `memmove` does.
pub memcpy-memmove :
    (m : Memory) (dst src size : ℕ)
    → size < 2 ^ 32
    → (dst ≤ src) ⊎ (src + size ≤ dst)
    → (a : ℕ) → (memcpy m dst src size).0 a ≡ (memmove m dst src size).0 a
unfolding memcpy
memcpy-memmove m dst src size small apart a =
    let n : size % 2 ^ 32 ≡ size = omega arith in
    rw n (copy_up_lem m dst src size a apart ∙ sym ((memmove_lem m dst src size small).1 a))

-- the two areas are equal up to `n`
abbrev pub SameBytes : Memory → Ptr → Ptr → ℕ → Type 0
SameBytes m a b n = (i : ℕ) → i < n → m (a + i) ≡ m (b + i)

-- The outcome of comparing: equal, or a first difference of the stated order.
pub data Compared (m : Memory) (a b n : ℕ) : ℤ → Type 0 where
  equal : SameBytes m a b n → Compared m a b n (pos 0)
  less : (i : ℕ) → i < n → SameBytes m a b i → m (a + i) < m (b + i) → Compared m a b n minus_one
  greater : (i : ℕ) → i < n → SameBytes m a b i → m (b + i) < m (a + i) → Compared m a b n (pos 1)

-- one more equal byte in front
pub shift_suc : (a i : ℕ) → a + suc i ≡ a + 1 + i
shift_suc a i = omega arith

SameBytes-suc :
    (m : Memory) (a b n : ℕ) → m a ≡ m b → SameBytes m (a + 1) (b + 1) n → SameBytes m a b (suc n)
SameBytes-suc m a b n e rest zero lt = ap m (omega arith) ∙ e ∙ ap m (omega arith)
SameBytes-suc m a b n e rest (suc i) lt =
    ap m (shift_suc a i) ∙ rest i (omega arith) ∙ ap m (sym (shift_suc b i))

Compared-suc :
    (m : Memory) (a b n : ℕ) {r : ℤ}
    → m a ≡ m b
    → Compared m (a + 1) (b + 1) n r
    → Compared m a b (suc n) r
Compared-suc m a b n e (equal same) = equal (SameBytes-suc m a b n e same)
Compared-suc m a b n e (less i lt same d) =
    less (suc i) (omega arith) (SameBytes-suc m a b i e same) (rw (shift_suc a i, shift_suc b i) d)
Compared-suc m a b n e (greater i lt same d) =
    greater (suc i) (omega arith) (SameBytes-suc m a b i e same)
      (rw (shift_suc a i, shift_suc b i) d)

compare_bytes-Compared : (m : Memory) (a b n : ℕ) → Compared m a b n (compare_bytes m a b n)
unfolding compare_bytes
compare_bytes-Compared m a b zero = equal (λ i lt. absurd (omega arith))
compare_bytes-Compared m a b (suc n) = elim (Bool-cases (ltb (m a) (m b))) [
  | inl lo ↦ rw lo (
      less 0 (omega arith) (λ i lt. absurd (omega arith)) (rw (add-zero, add-zero) (ltb→lt _ _ lo)))
  | inr notlo ↦ rw notlo (elim (Bool-cases (ltb (m b) (m a))) [
    | inl hi ↦ rw hi (
        greater 0 (omega arith) (λ i lt. absurd (omega arith))
          (rw (add-zero, add-zero) (ltb→lt _ _ hi)))
    | inr nothi ↦
        rw nothi (Compared-suc m a b n (ground arith) (compare_bytes-Compared m (a + 1) (b + 1) n))
  ])
]

-- For a size below 2 ^ 32, `memcmp` compares bytes as unsigned numbers: 0 where all are equal, and
-- else the order of the first two that differ.
pub memcmp-Compared :
    (m : Memory) (a b size : ℕ) → size < 2 ^ 32 → Compared m a b size (memcmp m a b size)
unfolding memcmp
memcmp-Compared m a b size small =
    let n : size % 2 ^ 32 ≡ size = omega arith in rw n (compare_bytes-Compared m a b size)

pub copy_up_outside :
    (m : Memory) (dst src n a : ℕ) → in_range dst n a ≡ false → copy_up m dst src n a ≡ m a
unfolding copy_up
copy_up_outside m dst src zero a out = refl
copy_up_outside m dst src (suc n) a out =
    ground (arith, copy_up_outside (store m dst (m src)) (dst + 1) (src + 1) n a)

-- the first `k` rounds, and then the others
copy_up_split :
    (m : Memory) (dst src k n : ℕ)
    → copy_up m dst src (k + n) ≡ copy_up (copy_up m dst src k) (dst + k) (src + k) n
unfolding copy_up
copy_up_split m dst src zero n = rw (zero-add, add-zero, add-zero)
copy_up_split m dst src (suc k) n =
    let e : suc k + n ≡ suc (k + n) = omega arith in
    rw (e, shift_suc dst k, shift_suc src k)
      (copy_up_split (store m dst (m src)) (dst + 1) (src + 1) k n)

-- For a size below 2 ^ 32, `memcpy` writes to the destination only, and
-- each of the first `k` bytes is right if these do not reach the destination from below.
pub memcpy_outside :
    (m : Memory) (dst src size a : ℕ)
    → size < 2 ^ 32
    → in_range dst size a ≡ false
    → (memcpy m dst src size).0 a ≡ m a
unfolding memcpy
memcpy_outside m dst src size a small out =
    let n : size % 2 ^ 32 ≡ size = omega arith in rw n (copy_up_outside m dst src size a out)

pub memcpy_prefix :
    (m : Memory) (dst src size k i : ℕ)
    → size < 2 ^ 32
    → k ≤ size
    → (dst ≤ src) ⊎ (src + k ≤ dst)
    → i < k
    → (memcpy m dst src size).0 (dst + i) ≡ m (src + i)
unfolding memcpy
memcpy_prefix m dst src size k i small le apart lt =
    let n : size % 2 ^ 32 ≡ k + (size - k) = omega arith in
    let x : src + (dst + i - dst) ≡ src + i = omega arith in
    let here : in_range dst k (dst + i) ≡ true = ground arith in
    rw (n, copy_up_split)
      (copy_up_outside (copy_up m dst src k) (dst + k) (src + k) (size - k) (dst + i) (ground arith)
        ∙ (rw (here, x) at (copy_up_lem m dst src k (dst + i) apart)))
