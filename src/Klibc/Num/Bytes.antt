-- ===== src/Klibc/Num/Bytes.antt =====
-- The bytes of a memory as a list.
use mathlib.Core.List.{reverse-append, reverse-cons}
use osakauss.Common.{
  ℕ, zero, suc, ◌+◌, ◌-◌, ◌<◌, ◌≡◌, refl, sym, ap, ◌∙◌, List, [], ◌∷◌, ◌++◌, reverse, length, arith,
}
use osakauss.Klibc.Mem.{Memory, Ptr}
use osakauss.Klibc.Str.Laws.{IsString, NonZero}

-- `n` bytes, from `p` on
unfoldable pub bytes : Memory → Ptr → ℕ → List ℕ
bytes m p zero = []
bytes m p (suc n) = m p ∷ bytes m (p + 1) n

pub length-bytes : (m : Memory) (p n : ℕ) → length (bytes m p n) ≡ n
unfolding bytes
length-bytes m p zero = refl
length-bytes m p (suc n) = ap suc (length-bytes m (p + 1) n)

pub bytes-snoc : (m : Memory) (p n : ℕ) → bytes m p (suc n) ≡ bytes m p n ++ (m (p + n) ∷ [])
unfolding bytes
bytes-snoc m p zero = ap (λ a. m a ∷ []) (omega arith)
bytes-snoc m p (suc n) =
    ap (λ xs. m p ∷ xs) (bytes-snoc m (p + 1) n)
    ∙ ap (λ a. m p ∷ (bytes m (p + 1) n ++ (m a ∷ []))) (omega arith)

pub bytes-same :
    (m m' : Memory) (p q n : ℕ)
    → ((i : ℕ) → i < n → m' (q + i) ≡ m (p + i))
    → bytes m' q n ≡ bytes m p n
unfolding bytes
bytes-same m m' p q zero same = refl
bytes-same m m' p q (suc n) same =
    let first : m' q ≡ m p = ap m' (omega arith) ∙ same 0 (omega arith) ∙ ap m (omega arith) in
    ap (λ c. c ∷ bytes m' (q + 1) n) first
    ∙ ap (λ xs. m p ∷ xs)
        (bytes-same m m' (p + 1) (q + 1) n
          (λ i lt. ap m' (omega arith) ∙ same (suc i) (omega arith) ∙ ap m (omega arith)))

-- Bytes that stand in the opposite order.
pub bytes-reverse :
    (m m' : Memory) (p q n : ℕ)
    → ((i : ℕ) → i < n → m' (q + i) ≡ m (p + (n - 1 - i)))
    → bytes m' q n ≡ reverse (bytes m p n)
unfolding bytes
bytes-reverse m m' p q zero turned = refl
bytes-reverse m m' p q (suc n) turned =
    let first : m' q ≡ m (p + n) =
      ap m' (omega arith) ∙ turned 0 (omega arith) ∙ ap m (omega arith) in
    ap (λ c. c ∷ bytes m' (q + 1) n) first
    ∙ ap (λ xs. m (p + n) ∷ xs)
        (bytes-reverse m m' p (q + 1) n
          (λ i lt. ap m' (omega arith) ∙ turned (suc i) (omega arith) ∙ ap m (omega arith)))
    ∙ sym (ap reverse (bytes-snoc m p n) ∙ reverse-append (bytes m p n) (m (p + n) ∷ []))

-- Bytes that are not 0, and a 0 behind them, are a string.
pub bytes-IsString :
    (m : Memory) (p n : ℕ) → NonZero (bytes m p n) → m (p + n) ≡ 0 → IsString m p (bytes m p n)
unfolding bytes
bytes-IsString m p zero nz end = ap m (omega arith) ∙ end
bytes-IsString m p (suc n) nz end =
    (refl, nz.0, nz.1, bytes-IsString m (p + 1) n nz.2 (ap m (omega arith) ∙ end))

pub IsString-bytes :
    (m : Memory) (p : Ptr) (xs : List ℕ) → IsString m p xs → bytes m p (length xs) ≡ xs
unfolding bytes
IsString-bytes m p [] h = refl
IsString-bytes m p (c ∷ xs) h =
    ap (λ d. d ∷ bytes m (p + 1) (length xs)) h.0
    ∙ ap (λ ys. c ∷ ys) (IsString-bytes m (p + 1) xs h.3)

pub NonZero-append : (xs ys : List ℕ) → NonZero xs → NonZero ys → NonZero (xs ++ ys)
NonZero-append [] ys h k = k
NonZero-append (c ∷ xs) ys h k = (h.0, h.1, NonZero-append xs ys h.2 k)

pub NonZero-reverse : (xs : List ℕ) → NonZero xs → NonZero (reverse xs)
NonZero-reverse [] h = tt
NonZero-reverse (c ∷ xs) h =
    rw (reverse-cons c xs)
      (NonZero-append (reverse xs) (c ∷ []) (NonZero-reverse xs h.2) (h.0, h.1, tt))
