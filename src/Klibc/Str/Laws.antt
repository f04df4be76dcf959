-- ===== src/Klibc/Str/Laws.antt =====
-- libs/klibc/string.c on NUL-terminated strings.
use native.Mathlib.Nat.{add-zero}
use osakauss.Common.{
  ℕ, zero, suc, ◌+◌, ◌-◌, ◌%◌, ◌^◌, ◌<◌, ◌≤◌, ◌≡◌, ◌↔◌, refl, sym, ap, ◌∙◌, ◌⊎◌, inl, inr, true,
  false, Bool-cases, arith, ◌==◌, ==_refl, if◌then◌else◌, List, [], ◌∷◌, some, length,
}
use osakauss.Common.Int.{ℤ, pos, minus_one}
use osakauss.Klibc.Mem.{Memory, Ptr, copy_up}
use osakauss.Klibc.Mem.Laws.{in_range, copy_up_lem, copy_up_outside, shift_suc}
use osakauss.Klibc.Str.{strlen_from, strlen, char_lt, strcmp_from, strcmp, strcpy}

-- At `p` stands the string `s`: its bytes, none of them 0, and a 0.
abbrev pub IsString : Memory → Ptr → List ℕ → Type 0
IsString m p [] = m p ≡ 0
IsString m p (c ∷ s) = (m p ≡ c) × (0 < c) × (c < 256) × IsString m (p + 1) s

pub IsString-zero : (m : Memory) (p : Ptr) (s : List ℕ) → IsString m p s → m (p + length s) ≡ 0
IsString-zero m p [] h = rw add-zero h
IsString-zero m p (c ∷ s) h = ap m (omega arith) ∙ IsString-zero m (p + 1) s h.3

strlen_from_lem :
    (m : Memory) (p len fuel : ℕ) (s : List ℕ)
    → length s < fuel
    → len + length s < 2 ^ 32
    → IsString m (p + len) s
    → strlen_from fuel m p len ≡ some (len + length s)
unfolding strlen_from
strlen_from_lem m p len zero s f small h = absurd (omega arith)
strlen_from_lem m p len (suc fuel) [] f small h = ground arith
strlen_from_lem m p len (suc fuel) (c ∷ s) f small h =
    let e : p + len + 1 ≡ p + (len + 1) % 2 ^ 32 = omega arith in
    let more : (m (p + len) == 0) ≡ false = ground arith in
    rw more (
      strlen_from_lem m p ((len + 1) % 2 ^ 32) fuel s (omega arith) (omega arith) (rw e at h.3)
      ∙ ap some (omega arith))

-- `strlen` of a string shorter than 2 ^ 32 is its length, given more fuel than that.
pub strlen_lem :
    (fuel : ℕ) (m : Memory) (p : Ptr) (s : List ℕ)
    → length s < fuel
    → length s < 2 ^ 32
    → IsString m p s
    → strlen fuel m p ≡ some (length s)
unfolding strlen
strlen_lem fuel m p s f small h =
    strlen_from_lem m p 0 fuel s f (omega arith) (rw add-zero h) ∙ ap some (omega arith)

-- The order of strings by their first different byte, as a `char`; the end counts as 0.
unfoldable pub compare_chars : List ℕ → List ℕ → ℤ
compare_chars [] [] = pos 0
compare_chars [] (d ∷ t) = if char_lt 0 d then minus_one else pos 1
compare_chars (c ∷ s) [] = if char_lt c 0 then minus_one else pos 1
compare_chars (c ∷ s) (d ∷ t) =
    if c == d then compare_chars s t else if char_lt c d then minus_one else pos 1

strcmp_from_lem :
    (m : Memory) (p q i fuel : ℕ) (s t : List ℕ)
    → length s < fuel
    → IsString m (p + i) s
    → IsString m (q + i) t
    → strcmp_from fuel m p q i ≡ some (compare_chars s t)
unfolding strcmp_from compare_chars
strcmp_from_lem m p q i zero s t f h k = absurd (omega arith)
strcmp_from_lem m p q i (suc fuel) [] [] f h k = ground arith
strcmp_from_lem m p q i (suc fuel) [] (d ∷ t) f h k = ground arith
strcmp_from_lem m p q i (suc fuel) (c ∷ s) [] f h k = ground arith
strcmp_from_lem m p q i (suc fuel) (c ∷ s) (d ∷ t) f h k =
    let e : p + i + 1 ≡ p + (i + 1) = omega arith in
    let e' : q + i + 1 ≡ q + (i + 1) = omega arith in
    let rest = strcmp_from_lem m p q (i + 1) fuel s t (omega arith) (rw e at h.3) (rw e' at k.3) in
    rw (h.0, k.0, rest) (ground arith)

-- `strcmp` of two strings is their order by the first different `char`, given more fuel than the
-- first is long.
pub strcmp_lem :
    (fuel : ℕ) (m : Memory) (p q : Ptr) (s t : List ℕ)
    → length s < fuel
    → IsString m p s
    → IsString m q t
    → strcmp fuel m p q ≡ some (compare_chars s t)
unfolding strcmp
strcmp_lem fuel m p q s t f h k = strcmp_from_lem m p q 0 fuel s t f (rw add-zero h) (rw add-zero k)

-- the bytes of a string are not 0
abbrev pub NonZero : List ℕ → Type 0
NonZero [] = Unit {0}
NonZero (c ∷ s) = (0 < c) × (c < 256) × NonZero s

pub IsString-NonZero : (m : Memory) (p : Ptr) (s : List ℕ) → IsString m p s → NonZero s
IsString-NonZero m p [] h = tt
IsString-NonZero m p (c ∷ s) h = (h.1, h.2, IsString-NonZero m (p + 1) s h.3)

compare_chars_equal : (s t : List ℕ) → compare_chars s t ≡ pos 0 → s ≡ t
unfolding compare_chars
compare_chars_equal [] [] h = refl
compare_chars_equal [] (d ∷ t) h = absurd (ground arith)
compare_chars_equal (c ∷ s) [] h = absurd (ground arith)
compare_chars_equal (c ∷ s) (d ∷ t) h = elim (Bool-cases (c == d)) [
  | inl e ↦ ground (arith, compare_chars_equal s t)
  | inr ne ↦ absurd (ground arith)
]

compare_chars_refl : (s : List ℕ) → compare_chars s s ≡ pos 0
unfolding compare_chars
compare_chars_refl [] = refl
compare_chars_refl (c ∷ s) = rw (==_refl c) (compare_chars_refl s)

-- `strcmp` of two strings gives 0 exactly when they are equal.
pub strcmp-zero_iff :
    (fuel : ℕ) (m : Memory) (p q : Ptr) (s t : List ℕ)
    → length s < fuel
    → IsString m p s
    → IsString m q t
    → (strcmp fuel m p q ≡ some (pos 0)) ↔ (s ≡ t)
strcmp-zero_iff fuel m p q s t f h k =
    let e = strcmp_lem fuel m p q s t f h k in
    (
      λ z. compare_chars_equal s t (ground arith),
      λ same. e ∙ ap some (rw (← same) (compare_chars_refl s)),
    )

-- A string stays one where its bytes are copied.
pub IsString-copy :
    (m m' : Memory) (p q : Ptr) (s : List ℕ)
    → ((i : ℕ) → i ≤ length s → m' (q + i) ≡ m (p + i))
    → IsString m p s
    → IsString m' q s
IsString-copy m m' p q [] same h = rw (add-zero, add-zero) at (same 0 (omega arith)) ∙ h
IsString-copy m m' p q (c ∷ s) same h = (
  rw (add-zero, add-zero) at (same 0 (omega arith)) ∙ h.0,
  h.1,
  h.2,
  IsString-copy m m' (p + 1) (q + 1) s
      (λ i le. ap m' (sym (shift_suc q i)) ∙ same (suc i) (omega arith) ∙ ap m (shift_suc p i)) h.3,
)

-- `strcpy` of a string shorter than 2 ^ 32 that does not reach the target from below leaves that
-- string at the target and changes no byte but those.
pub strcpy_lem :
    (fuel : ℕ) (m : Memory) (target src : Ptr) (s : List ℕ)
    → length s < fuel
    → length s < 2 ^ 32
    → (target ≤ src) ⊎ (src + length s + 1 ≤ target)
    → IsString m src s
    → (m' : Memory) × (strcpy fuel m target src ≡ some m')
      × IsString m' target s
      × ((a : ℕ) → in_range target (length s + 1) a ≡ false → m' a ≡ m a)
unfolding strcpy
strcpy_lem fuel m target src s f small apart h =
    let apart' : (target ≤ src) ⊎ (src + (length s + 1) ≤ target) = elim apart [
      | inl lo ↦ inl lo
      | inr hi ↦ inr (omega arith)
    ] in
    (
      copy_up m target src (length s + 1),
      rw (strcpy, strlen_lem fuel m src s f small h),
      IsString-copy m (copy_up m target src (length s + 1)) src target s
          (λ i le.
            let x : src + (target + i - target) ≡ src + i = omega arith in
            let here : in_range target (length s + 1) (target + i) ≡ true = ground arith in
            rw (here, x) at (copy_up_lem m target src (length s + 1) (target + i) apart'))
          h,
      λ a out. copy_up_outside m target src (length s + 1) a out,
    )
