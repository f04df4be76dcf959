-- ===== src/Klibc/Str/Tokens.antt =====
-- `strtok` of libs/klibc/string.c: one call takes one token off a string.
use osakauss.Common.{
  ℕ, zero, suc, ◌+◌, ◌<◌, ◌≤◌, ◌≡◌, refl, ◌∙◌, ◌⊎◌, inl, inr, ◌≢◌, true, false, Bool-cases, arith,
  ◌==◌, ==_ne, if◌then◌else◌, List, [], ◌∷◌, some, length,
}
use osakauss.Klibc.Mem.{Memory, Ptr, store}
use osakauss.Klibc.Str.{is_delim, skip_delims, Token, end_token, strtok}
use osakauss.Klibc.Str.Laws.{IsString, IsString-copy}

-- the string behind its leading delimiters
unfoldable pub after_delims : List ℕ → List ℕ → List ℕ
after_delims delim [] = []
after_delims delim (c ∷ s) = if is_delim c delim then after_delims delim s else c ∷ s

-- the bytes up to the first delimiter, and those behind it
unfoldable pub first_token : List ℕ → List ℕ → List ℕ
first_token delim [] = []
first_token delim (c ∷ s) = if is_delim c delim then [] else c ∷ first_token delim s

unfoldable pub rest_of : List ℕ → List ℕ → List ℕ
rest_of delim [] = []
rest_of delim (c ∷ s) = if is_delim c delim then s else rest_of delim s

-- what the first loop does: it stops at the string behind the delimiters
skip_delims_lem :
    (fuel : ℕ) (m : Memory) (p : Ptr) (s delim : List ℕ)
    → length s < fuel
    → is_delim 0 delim ≡ false
    → IsString m p s
    → (ret : Ptr) × (skip_delims fuel m p delim ≡ some ret)
      × IsString m ret (after_delims delim s)
      × (p ≤ ret)
unfolding skip_delims after_delims
skip_delims_lem zero m p s delim f nul h = absurd (omega arith)
skip_delims_lem (suc fuel) m p [] delim f nul h = (p, rw (h, nul), h, omega arith)
skip_delims_lem (suc fuel) m p (c ∷ s) delim f nul h = elim (Bool-cases (is_delim c delim)) [
  | inl skip ↦
      let (ret, e, at, le) = skip_delims_lem fuel m (p + 1) s delim (omega arith) nul h.3 in
      (ret, rw (h.0, skip) e, rw skip at, omega arith)
  | inr stop ↦ (p, rw (h.0, stop), rw stop h, omega arith)
]

-- What the second loop leaves, begun on the string `s` at `p`.
pub record Ended (m : Memory) (ret p : Ptr) (s delim : List ℕ) (t : Token) : Type 0 where
  pub token : t.token ≡ ret
  pub word : IsString t.mem p (first_token delim s)
  pub rest : IsString t.mem t.backup (rest_of delim s)
  pub forward : p ≤ t.backup
  pub apart : (p + length (first_token delim s) < t.backup) ⊎ (rest_of delim s ≡ [])
  pub within : t.backup ≤ p + length s
  pub before : (a : ℕ) → a < p → t.mem a ≡ m a
  pub behind : (a : ℕ) → t.backup ≤ a → t.mem a ≡ m a

-- the terminator that is written at a delimiter
cut-Ended :
    (m : Memory) (ret p c : ℕ) (s delim : List ℕ)
    → is_delim c delim ≡ true
    → IsString m (p + 1) s
    → Ended m ret p (c ∷ s) delim (record { token = ret; mem = store m p 0; backup = p + 1 })
unfolding first_token rest_of
cut-Ended m ret p c s delim hit h = record {
  token = refl;
  word = rw hit (ground arith);
  rest = rw hit (IsString-copy m (store m p 0) (p + 1) (p + 1) s (λ i le. ground arith) h);
  forward = omega arith;
  apart = inl (rw hit (omega arith));
  within = omega arith;
  before = λ a lt. ground arith;
  behind = λ a le. ground arith;
}

grow-Ended :
    (m : Memory) (ret p c : ℕ) (s delim : List ℕ) {t : Token}
    → is_delim c delim ≡ false
    → m p ≡ c
    → 0 < c
    → c < 256
    → Ended m ret (p + 1) s delim t
    → Ended m ret p (c ∷ s) delim t
unfolding first_token rest_of
grow-Ended m ret p c s delim miss here nz byte e = record {
  token = e.token;
  word = rw miss (e.before p (omega arith) ∙ here, nz, byte, e.word);
  rest = rw miss e.rest;
  forward = omega (arith, e.forward);
  apart = elim e.apart [
    | inl left ↦ inl (rw miss (omega (arith, left)))
    | inr none_left ↦ inr (rw miss none_left)
  ];
  within = omega (arith, e.within);
  before = λ a lt. e.before a (omega arith);
  behind = e.behind;
}

end_token_lem :
    (fuel : ℕ) (m : Memory) (ret p : Ptr) (s delim : List ℕ)
    → length s < fuel
    → IsString m p s
    → (t : Token) × (end_token fuel m ret p delim ≡ some t) × Ended m ret p s delim t
unfolding end_token first_token rest_of
end_token_lem zero m ret p s delim f h = absurd (omega arith)
end_token_lem (suc fuel) m ret p [] delim f h = (
  record { token = ret; mem = m; backup = p },
  rw h,
  record {
    token = refl;
    word = h;
    rest = h;
    forward = omega arith;
    apart = inr refl;
    within = omega arith;
    before = λ a lt. refl;
    behind = λ a le. refl;
  },
)
end_token_lem (suc fuel) m ret p (c ∷ s) delim f h =
    let nz : (c == 0) ≡ false = ground arith in
    elim (Bool-cases (is_delim c delim)) [
      | inl hit ↦ (
        record { token = ret; mem = store m p 0; backup = p + 1 },
        rw (h.0, nz, hit),
        cut-Ended m ret p c s delim hit h.3,
      )
      | inr miss ↦
          let (t, e, rest) = end_token_lem fuel m ret (p + 1) s delim (omega arith) h.3 in
          (t, rw (h.0, nz, miss) e, grow-Ended m ret p c s delim miss h.0 h.1 h.2 rest)
    ]

-- the pointer that a call of `strtok` works on
abbrev pub subject : Ptr → Ptr → Ptr
subject backup src_string = if src_string == 0 then backup else src_string

-- The outcome of a call on the string `s`: NULL where it holds delimiters only, and nothing changes;
-- else the first token, with the string behind it in `backup_string`.
pub data Outcome (m : Memory) (p backup : Ptr) (s delim : List ℕ) (t : Token) : Type 0 where
  no_token :
      after_delims delim s ≡ []
      → t ≡ record { token = 0; mem = m; backup = backup }
      → Outcome m p backup s delim t
  a_token :
      after_delims delim s ≢ []
      → p ≤ t.token
      → Ended m t.token t.token (after_delims delim s) delim t
      → Outcome m p backup s delim t

length-after_delims : (delim s : List ℕ) → length (after_delims delim s) ≤ length s
unfolding after_delims
length-after_delims delim [] = omega arith
length-after_delims delim (c ∷ s) = ground (arith, length-after_delims delim s)

-- the part of `strtok` behind its first loop, which has stopped at `ret`
finish :
    (fuel : ℕ) (m : Memory) (p ret backup : Ptr) (s delim w : List ℕ)
    → after_delims delim s ≡ w
    → length w < fuel
    → p ≤ ret
    → IsString m ret w
    → (t : Token) × ((if m ret == 0
          then some (record { token = 0; mem = m; backup = backup })
          else end_token fuel m ret ret delim)
        ≡ some t)
      × Outcome m p backup s delim t
finish fuel m p ret backup s delim [] e f le h =
    (record { token = 0; mem = m; backup = backup }, rw h, no_token e refl)
finish fuel m p ret backup s delim (c ∷ w) e f le h =
    let nz : (m ret == 0) ≡ false = ground arith in
    let (t, run, ended) = end_token_lem fuel m ret ret (c ∷ w) delim f h in
    (t, rw nz run, a_token (λ z. cc) (rw ended.token le) (rw (e, ended.token) ended))

-- `strtok` on a string, given by the argument or left by the call before, with no NUL among the
-- delimiters and more fuel than the string is long: it returns, and the outcome is one of the two.
pub strtok-Outcome :
    (fuel : ℕ) (m : Memory) (backup src_string : Ptr) (s delim : List ℕ)
    → length s < fuel
    → is_delim 0 delim ≡ false
    → 0 < subject backup src_string
    → IsString m (subject backup src_string) s
    → (t : Token) × (strtok fuel m backup src_string delim ≡ some t)
      × Outcome m (subject backup src_string) backup s delim t
unfolding strtok
strtok-Outcome fuel m backup src_string s delim f nul real h =
    let nz = ==_ne (subject backup src_string) 0 (omega arith) in
    let (ret, e, at, le) = skip_delims_lem fuel m (subject backup src_string) s delim f nul h in
    let (t, run, out) =
      finish fuel m (subject backup src_string) ret backup s delim (after_delims delim s) refl
        (omega (arith, length-after_delims delim s)) le at in
    (t, rw (nz, e) run, out)
