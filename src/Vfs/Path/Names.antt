-- ===== src/Vfs/Path/Names.antt =====
-- The names of a path, as a function of its bytes, and what `strtok` takes off the path for each.
use osakauss.Common.{
  ℕ, ◌<◌, ◌≤◌, ◌≡◌, refl, sym, ap, ◌∙◌, ◌⊎◌, inl, inr, Bool, true, false, List, [], ◌∷◌, ◌==◌,
  Bool-cases, if◌then◌else◌, length, arith,
}
use osakauss.Klibc.Str.{is_delim}
use osakauss.Klibc.Str.Tokens.{after_delims, first_token, rest_of}
use osakauss.Vfs.Path.{slash}

-- a word in front of other words, unless it is empty
abbrev pub push_word : List ℕ → List (List ℕ) → List (List ℕ)
push_word [] words = words
push_word (c ∷ word) words = (c ∷ word) ∷ words

-- the part of a path up to its first slash, and the words behind that
unfoldable pub parts : List ℕ → List ℕ × List (List ℕ)
parts [] = ([], [])
parts (c ∷ s) =
    let (word, words) = parts s in
    if c == b'/' then ([], push_word word words) else (c ∷ word, words)

-- The names of a path: the longest parts without a slash that are not empty.
unfoldable pub names : List ℕ → List (List ℕ)
names s = push_word (parts s).0 (parts s).1

is_slash : (c : ℕ) (b : Bool) → (c == b'/') ≡ b → is_delim c slash ≡ b
unfolding is_delim
is_slash c true e = rw e refl
is_slash c false e = rw e refl

names_slash : (c : ℕ) (s : List ℕ) → (c == b'/') ≡ true → names (c ∷ s) ≡ names s
unfolding names parts
names_slash c s hit = rw (parts, hit) refl

pub names-after_delims : (s : List ℕ) → names (after_delims slash s) ≡ names s
unfolding after_delims
names-after_delims [] = refl
names-after_delims (c ∷ s) = elim (Bool-cases (c == b'/')) [
  | inl hit ↦
      let skip : after_delims slash (c ∷ s) ≡ after_delims slash s =
        rw (is_slash c true hit) refl in
      ap names skip ∙ names-after_delims s ∙ sym (names_slash c s hit)
  | inr miss ↦
      let stay : after_delims slash (c ∷ s) ≡ c ∷ s = rw (is_slash c false miss) refl in
      ap names stay
]

parts-first_token : (s : List ℕ) → parts s ≡ (first_token slash s, names (rest_of slash s))
unfolding parts names first_token rest_of
parts-first_token [] = refl
parts-first_token (c ∷ s) = elim (Bool-cases (c == b'/')) [
  | inl hit ↦ rw (is_slash c true hit, hit) refl
  | inr miss ↦ rw (is_slash c false miss, miss) (ap (λ t. (c ∷ t.0, t.1)) (parts-first_token s))
]

-- a path that does not begin with a slash
pub names-cons :
    (c : ℕ) (s : List ℕ)
    → (c == b'/') ≡ false
    → names (c ∷ s) ≡ first_token slash (c ∷ s) ∷ names (rest_of slash (c ∷ s))
unfolding names first_token rest_of
names-cons c s miss =
    ap (λ t. push_word t.0 t.1) (parts-first_token (c ∷ s)) ∙ rw (is_slash c false miss) refl

pub after_delims-cases :
    (s : List ℕ)
    → (after_delims slash s ≡ [])
      ⊎ ((c : ℕ) × (w : List ℕ) × (after_delims slash s ≡ c ∷ w)
          × ((c == b'/') ≡ false)
          × (length (c ∷ w) ≤ length s))
unfolding after_delims
after_delims-cases [] = inl refl
after_delims-cases (c ∷ s) = elim (Bool-cases (c == b'/')) [
  | inr miss ↦ inr (c, s, rw (is_slash c false miss) refl, miss, omega arith)
  | inl hit ↦ elim (after_delims-cases s) [
    | inl none_left ↦ inl (rw (is_slash c true hit) none_left)
    | inr (d, w, e, miss, le) ↦ inr (d, w, rw (is_slash c true hit) e, miss, omega (arith, le))
  ]
]

length-rest_of : (s : List ℕ) → length (rest_of slash s) ≤ length s
unfolding rest_of
length-rest_of [] = omega arith
length-rest_of (c ∷ s) = elim (Bool-cases (c == b'/')) [
  | inl hit ↦ rw (is_slash c true hit) (omega arith)
  | inr miss ↦ rw (is_slash c false miss) (omega (arith, length-rest_of s))
]

pub length-rest_of-cons :
    (c : ℕ) (s : List ℕ) → (c == b'/') ≡ false → length (rest_of slash (c ∷ s)) ≤ length s
unfolding rest_of
length-rest_of-cons c s miss = rw (is_slash c false miss) (length-rest_of s)

-- Every word is shorter than `n`.
abbrev pub Short : ℕ → List (List ℕ) → Type 0
Short n [] = Unit
Short n (w ∷ ws) = (length w < n) × Short n ws

push_word-Short :
    (n : ℕ) (w : List ℕ) (ws : List (List ℕ)) → length w < n → Short n ws → Short n (push_word w ws)
push_word-Short n [] ws lt h = h
push_word-Short n (c ∷ w) ws lt h = (lt, h)

parts-Short :
    (n : ℕ) (s : List ℕ) → length s < n → (length (parts s).0 ≤ length s) × Short n (parts s).1
unfolding parts
parts-Short n [] lt = (omega arith, tt)
parts-Short n (c ∷ s) lt =
    let (le, short) = parts-Short n s (omega arith) in
    elim (Bool-cases (c == b'/')) [
      | inl hit ↦
          rw hit (omega arith, push_word-Short n (parts s).0 (parts s).1 (omega arith) short)
      | inr miss ↦ rw miss (omega (arith, le), short)
    ]

pub names-Short : (n : ℕ) (s : List ℕ) → length s < n → Short n (names s)
unfolding names
names-Short n s lt =
    let (le, short) = parts-Short n s lt in
    push_word-Short n (parts s).0 (parts s).1 (omega (arith, le)) short
