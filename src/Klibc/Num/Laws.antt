-- ===== src/Klibc/Num/Laws.antt =====
-- `itoa` of libs/klibc/libc.c writes what `format_i32_base` of libs/format.c prints.
use mathlib.Core.List.{reverse-cons, append_assoc, append-nil}
use osakauss.Common.{
  ℕ, zero, suc, ◌+◌, ◌^◌, ◌<◌, ◌≤◌, ◌≡◌, refl, sym, ap, ◌∙◌, ◌≢◌, ◌⊎◌, inl, inr, true, false, ◌&&◌,
  ◌||◌, List, [], ◌∷◌, ◌++◌, some, ltb, ◌==◌, ==_ne, ==_refl, Bool-cases, reverse, length,
  length-append, arith,
}
use osakauss.Common.Int.{ℤ, quot, magnitude}
use osakauss.Format.{digit_of, is_zero, is_negative, digits_from, format_i32_base}
use osakauss.Format.Digits.{digit_of_bounds, digits_from-total}
use osakauss.Klibc.Mem.{Memory, Ptr, store}
use osakauss.Klibc.Str.Laws.{IsString, NonZero}
use osakauss.Klibc.Num.{write_digits, convert_at, itoa}
use osakauss.Klibc.Num.Bytes.{bytes, length-bytes, bytes-same, bytes-IsString, NonZero-reverse}
use osakauss.Klibc.Num.Swap.{swap_ends-bytes}

-- What the conversion loop leaves: `k` digits from `p` on, in the order in which the other conversion
-- puts them before its buffer.
record Written (m : Memory) (p : Ptr) (buf out : List ℕ) (m' : Memory) (k : ℕ) : Type 0 where
  some_digits : 0 < k
  reversed : out ≡ reverse (bytes m' p k) ++ buf
  below : (a : ℕ) → a < p → m' a ≡ m a
  above : (a : ℕ) → p + k ≤ a → m' a ≡ m a
  nonzero : NonZero (bytes m' p k)

last-Written :
    (m : Memory) (p c : ℕ) (buf : List ℕ)
    → 0 < c
    → c < 256
    → Written m p buf (c ∷ buf) (store m p c) 1
unfolding bytes
last-Written m p c buf some_byte byte = record {
  some_digits = omega arith;
  reversed = rw (==_refl p) refl;
  below = λ a lt. rw (==_ne p a (omega arith)) refl;
  above = λ a le. rw (==_ne p a (omega arith)) refl;
  nonzero = rw (==_refl p) (some_byte, byte, tt);
}

more-Written :
    (m : Memory) (p c : ℕ) (buf out : List ℕ) (m' : Memory) (k : ℕ)
    → 0 < c
    → c < 256
    → Written (store m p c) (p + 1) (c ∷ buf) out m' k
    → Written m p buf out m' (suc k)
unfolding bytes
more-Written m p c buf out m' k some_byte byte w =
    let here : m' p ≡ c = w.below p (omega arith) ∙ rw (==_refl p) refl in
    record {
      some_digits = omega arith;
      reversed =
          w.reversed
          ∙ sym (append_assoc (reverse (bytes m' (p + 1) k)) (c ∷ []) buf)
          ∙ ap (λ xs. xs ++ buf)
              (sym (
                ap (λ d. reverse (d ∷ bytes m' (p + 1) k)) here
                ∙ reverse-cons c (bytes m' (p + 1) k)));
      below = λ a lt. w.below a (omega arith) ∙ rw (==_ne p a (omega arith)) refl;
      above = λ a le. w.above a (omega arith) ∙ rw (==_ne p a (omega arith)) refl;
      nonzero = (rw here some_byte, rw here byte, w.nonzero);
    }

write_digits-Written :
    (fuel : ℕ) (m : Memory) (p : Ptr) (n : ℤ) (base : ℕ) (buf out : List ℕ)
    → 2 ≤ base
    → base ≤ 36
    → digits_from fuel n base buf ≡ some out
    → (m' : Memory) × (k : ℕ) × (write_digits fuel m p n base ≡ some (m', p + k))
      × (k ≤ fuel)
      × Written m p buf out m' k
unfolding write_digits digits_from
write_digits-Written zero m p n base buf out lo hi e = absurd cc
write_digits-Written (suc fuel) m p n base buf out lo hi e =
    let c = digit_of n base in
    let (some_byte, byte) = digit_of_bounds n base lo hi in
    elim (Bool-cases (is_zero (quot n base))) [
      | inl done ↦
          let same : c ∷ buf ≡ out = ground (arith, e, done) in
          (
            store m p c,
            1,
            rw done refl,
            omega arith,
            rw same at (last-Written m p c buf some_byte byte),
          )
      | inr more ↦
          let (m', k, run, fits, w) =
            write_digits-Written fuel (store m p c) (p + 1) (quot n base) base (c ∷ buf) out lo hi
              (ground (arith, e, more)) in
          let end : p + 1 + k ≡ p + suc k = omega arith in
          (
            m',
            suc k,
            rw (more, ← end) run,
            omega arith,
            more-Written m p c buf out m' k some_byte byte w,
          )
    ]

length-reverse : (xs : List ℕ) → length (reverse xs) ≡ length xs
length-reverse [] = refl
length-reverse (x ∷ xs) =
    ap length (reverse-cons x xs)
    ∙ omega (arith, length-append (reverse xs) (x ∷ []), length-reverse xs)

outside_ne : (str a : ℕ) → (a < str) ⊎ (str + 0 < a) → str ≢ a
outside_ne str a (inl h) = omega arith
outside_ne str a (inr h) = omega arith

-- The digits, the terminator, and the digits turned round.
converted :
    (m : Memory) (low : Ptr) (n : ℤ) (base : ℕ) (out : List ℕ)
    → 2 ≤ base
    → base ≤ 36
    → digits_from 64 n base [] ≡ some out
    → (m3 : Memory) × (convert_at m low n base ≡ some m3)
      × IsString m3 low out
      × ((a : ℕ) → (a < low) ⊎ (low + length out < a) → m3 a ≡ m a)
unfolding convert_at
converted m low n base out lo hi e =
    let (m2, k, run, fits, w) = write_digits-Written 64 m low n base [] out lo hi e in
    let ended = store m2 (low + k) 0 in
    let (m3, swapped, turned_bytes, others) = swap_ends-bytes 64 ended low k w.some_digits fits in
    let kept : bytes ended low k ≡ bytes m2 low k =
      bytes-same m2 ended low low k (λ i lt. rw (==_ne (low + k) (low + i) (omega arith)) refl) in
    let result : bytes m3 low k ≡ out =
      turned_bytes ∙ ap reverse kept ∙ sym (w.reversed ∙ append-nil (reverse (bytes m2 low k))) in
    let size : length out ≡ k = ap length (sym result) ∙ length-bytes m3 low k in
    let nz : NonZero (bytes m3 low k) =
      rw (turned_bytes ∙ ap reverse kept) (NonZero-reverse (bytes m2 low k) w.nonzero) in
    (
      m3,
      rw (convert_at, run) swapped,
      rw result at (
          bytes-IsString m3 low k nz
            (others (low + k) (inr (omega arith)) ∙ rw (==_refl (low + k)) refl)),
      λ a outside. elim outside [
        | inl before ↦
            others a (inl before) ∙ rw (==_ne (low + k) a (omega arith)) refl ∙ w.below a before
        | inr behind ↦
            others a (inr (omega (arith, size)))
            ∙ rw (==_ne (low + k) a (omega (arith, size))) refl
            ∙ w.above a (omega (arith, size))
      ],
    )

-- What a call of `itoa` leaves: the string that is printed, and every byte that is not part of it.
-- `itoa` returns its buffer and leaves `out` in it as a string; the bytes around it stay.
abbrev pub Leaves : Memory → ℤ → Ptr → ℕ → List ℕ → Type 0
Leaves m n str base out =
    (m' : Memory) × (itoa m n str base ≡ some (str, m'))
    × IsString m' str out
    × ((a : ℕ) → (a < str) ⊎ (str + length out < a) → m' a ≡ m a)

itoa_unsupported :
    (m : Memory) (n : ℤ) (str : Ptr) (base : ℕ)
    → (ltb base 2 || ltb 36 base) ≡ true
    → Leaves m n str base []
unfolding itoa
itoa_unsupported m n str base e = (
  store m str 0,
  rw (itoa, e) refl,
  rw (==_refl str) refl,
  λ a outside. rw (==_ne str a (outside_ne str a outside)) refl,
)

itoa_plain :
    (m : Memory) (n : ℤ) (str : Ptr) (base : ℕ) (out : List ℕ)
    → 2 ≤ base
    → base ≤ 36
    → (is_negative n && (base == 10)) ≡ false
    → digits_from 64 n base [] ≡ some out
    → Leaves m n str base out
unfolding itoa
itoa_plain m n str base out lo hi plain e =
    let supported : (ltb base 2 || ltb 36 base) ≡ false = ground arith in
    let (m3, run, string, others) = converted m str n base out lo hi e in
    (m3, rw (itoa, supported, plain, run) refl, string, others)

itoa_signed :
    (m : Memory) (n : ℤ) (str : Ptr) (base : ℕ) (out : List ℕ)
    → 2 ≤ base
    → base ≤ 36
    → (is_negative n && (base == 10)) ≡ true
    → digits_from 64 n base [] ≡ some out
    → Leaves m n str base (b'-' ∷ out)
unfolding itoa
itoa_signed m n str base out lo hi signed e =
    let supported : (ltb base 2 || ltb 36 base) ≡ false = ground arith in
    let (m3, run, string, others) = converted (store m str b'-') (str + 1) n base out lo hi e in
    (
      m3,
      rw (itoa, supported, signed, run) refl,
      (others str (inl (omega arith)) ∙ rw (==_refl str) refl, omega arith, omega arith, string),
      λ a outside. elim outside [
        | inl before ↦ others a (inl (omega arith)) ∙ rw (==_ne str a (omega arith)) refl
        | inr behind ↦ others a (inr (omega arith)) ∙ rw (==_ne str a (omega arith)) refl
      ],
    )

-- For every base and every `int`, `itoa` returns its buffer, and leaves in it, as a string, what
-- `format_i32_base` prints for the same number and base; no byte outside of this string and its
-- terminator is changed.
pub itoa-format_i32_base :
    (m : Memory) (n : ℤ) (str : Ptr) (base : ℕ)
    → magnitude n ≤ 2 ^ 31
    → (out : List ℕ) × (format_i32_base n base ≡ some out) × Leaves m n str base out
unfolding format_i32_base
itoa-format_i32_base m n str base small = elim (Bool-cases (ltb base 2 || ltb 36 base)) [
  | inl out_of_range ↦ ([], rw out_of_range refl, itoa_unsupported m n str base out_of_range)
  | inr supported ↦
      let lo : 2 ≤ base = ground arith in
      let hi : base ≤ 36 = ground arith in
      let (digits, run) = digits_from-total n base lo hi (omega arith) in
      elim (Bool-cases (is_negative n && (base == 10))) [
        | inl signed ↦ (
          b'-' ∷ digits,
          rw (supported, signed, run) refl,
          itoa_signed m n str base digits lo hi signed run,
        )
        | inr plain ↦ (
          digits,
          rw (supported, plain, run) refl,
          itoa_plain m n str base digits lo hi plain run,
        )
      ]
]
