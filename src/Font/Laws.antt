-- ===== src/Font/Laws.antt =====
-- The font: which characters can be told apart.
use osakauss.Common.{
  ℕ, zero, suc, ◌+◌, ◌-◌, ◌*◌, ◌^◌, ◌<◌, ◌≤◌, ◌≡◌, ◌≢◌, refl, sym, ap, ◌∙◌, ◌⊎◌, inl, inr, Bool,
  true, not, ◌&&◌, List, [], ◌∷◌, get_or, length, ◌==◌, ==_iff, eq_cases, arith,
}
use osakauss.Common.Table.{check_all, check_all-entry}
use osakauss.Font.{font}

-- the eight rows of a glyph, as one number
key : (ℕ → ℕ) → ℕ
key row =
    row 0
    + row 1 * 2 ^ 8
    + row 2 * 2 ^ 16
    + row 3 * 2 ^ 24
    + row 4 * 2 ^ 32
    + row 5 * 2 ^ 40
    + row 6 * 2 ^ 48
    + row 7 * 2 ^ 56

-- the glyphs from 32 on
abbrev keys : List ℕ
keys =
    0 ∷ 6755502926871576 ∷ 2385510 ∷ 30519137490857068 ∷ 6891765665644056 ∷ 55844402149246464
    ∷ 33439294500138040 ∷ 3151896 ∷ 3404294966482956 ∷ 13537238902904880 ∷ 112412166219264
    ∷ 26493473789952 ∷ 3465546301540663296 ∷ 2113929216 ∷ 6781787720122368 ∷ 36240316375239686
    ∷ 15882199958449208 ∷ 35492338828064792 ∷ 71607000899176060 ∷ 35120627191301756
    ∷ 8458537792191516 ∷ 35120630424715518 ∷ 35121455058411576 ∷ 13563782002165502
    ∷ 35121452911347324 ∷ 33790219241571964 ∷ 6781787721701376 ∷ 3465546301542242304
    ∷ 1702147885894662 ∷ 138538473357312 ∷ 27074477604483168 ∷ 6755502923761276 ∷ 33989060659693180
    ∷ 55950603368950840 ∷ 71044284490868476 ∷ 17001476656227900 ∷ 69924981284695288
    ∷ 71602844920734462 ∷ 67659996223529726 ∷ 16438586832348732 ∷ 55950603368974022
    ∷ 16914990365153340 ∷ 34002173952789534 ∷ 64851860706322150 ∷ 71607216794263792
    ∷ 55950672092131014 ∷ 55950637194995398 ∷ 35121454152861308 ∷ 67659961930770172
    ∷ 1043936566776874620 ∷ 64851860773037820 ∷ 17000700734105148 ∷ 16914990369504894
    ∷ 35121454152861382 ∷ 15882199690036934 ∷ 30679496164558534 ∷ 55950213494130374
    ∷ 16914990974264934 ∷ 71607009430783742 ∷ 16941482127667260 ∷ 569598968619200
    ∷ 16901744483896380 ∷ 3328981008 ∷ 18374686479671623680 ∷ 792624 ∷ 33438880409059328
    ∷ 62037084868468960 ∷ 35121428378157056 ∷ 33439227227933724 ∷ 35115097596362752
    ∷ 67659964010751548 ∷ 17873798240172113920 ∷ 64851834902962400 ∷ 16914990367244312
    ∷ 4352278265957056518 ∷ 64858509113975008 ∷ 16914990365153336 ∷ 60471863904305152
    ∷ 28823037622878208 ∷ 35121454147960832 ∷ 17320980946121129984 ∷ 2165242739903823872
    ∷ 67659961837813760 ∷ 70938827006279680 ∷ 7940879956062256 ∷ 33439227233173504
    ∷ 15882199689986048 ∷ 30679496164507648 ∷ 55851034987593728 ∷ 18160341939621593088
    ∷ 35520927009472512 ∷ 3967142912858126 ∷ 6781891203569688 ∷ 31551688986335344 ∷ 56438 ∷ []

key_ok : ℕ → Bool
unfolding key
key_ok n = key (font (32 + n)) == get_or keys n 0

keys_ok : check_all key_ok 95 ≡ true
unfolding check_all key_ok font
keys_ok = refl

-- none of a list is `k`
absent : ℕ → List ℕ → Bool
absent k [] = true
absent k (x ∷ xs) = not (k == x) && absent k xs

all_differ : List ℕ → Bool
unfolding absent
all_differ [] = true
all_differ (x ∷ xs) = absent x xs && all_differ xs

keys_differ : all_differ keys ≡ true
unfolding all_differ
keys_differ = refl

absent-get_or :
    (k : ℕ) (xs : List ℕ) (i : ℕ) → absent k xs ≡ true → i < length xs → k ≢ get_or xs i 0
unfolding absent
absent-get_or k [] i e lt same = absurd (omega arith)
absent-get_or k (x ∷ xs) zero e lt same = absurd (ground (arith, e, same))
absent-get_or k (x ∷ xs) (suc i) e lt same =
    absent-get_or k xs i (ground (arith, e)) (omega arith) same

all_differ-get_or :
    (xs : List ℕ) (i j : ℕ)
    → all_differ xs ≡ true
    → i < j
    → j < length xs
    → get_or xs i 0 ≢ get_or xs j 0
unfolding all_differ
all_differ-get_or [] i j e lt within same = absurd (omega arith)
all_differ-get_or (x ∷ xs) i zero e lt within same = absurd (omega arith)
all_differ-get_or (x ∷ xs) zero (suc j) e lt within same =
    absent-get_or x xs j (ground (arith, e)) (omega arith) same
all_differ-get_or (x ∷ xs) (suc i) (suc j) e lt within same =
    all_differ-get_or xs i j (ground (arith, e)) (omega arith) (omega arith) same

key-get_or : (c : ℕ) → 32 ≤ c → c ≤ 126 → key (font c) ≡ get_or keys (c - 32) 0
unfolding key_ok
key-get_or c lo hi =
    let place : 32 + (c - 32) ≡ c = omega (arith, lo) in
    let row : key_ok (c - 32) ≡ true = check_all-entry key_ok 95 (c - 32) (omega arith) keys_ok in
    ap (λ n. key (font n)) (sym place)
    ∙ (==_iff (key (font (32 + (c - 32)))) (get_or keys (c - 32) 0)).0 row

same_key : (f g : ℕ → ℕ) → ((i : ℕ) → i < 8 → f i ≡ g i) → key f ≡ key g
unfolding key
same_key f g same =
    rw
      (
        same 0 (omega arith),
        same 1 (omega arith),
        same 2 (omega arith),
        same 3 (omega arith),
        same 4 (omega arith),
        same 5 (omega arith),
        same 6 (omega arith),
        same 7 (omega arith),
      )
      refl

lt_or_gt : (a b : ℕ) → a ≢ b → (a < b) ⊎ (b < a)
lt_or_gt a b ne = ground arith

differs_or_same :
    (n : ℕ) (f g : ℕ → ℕ) → ((i : ℕ) → i < n → f i ≡ g i) ⊎ ((i : ℕ) × (i < n) × (f i ≢ g i))
differs_or_same zero f g = inl (λ i lt. absurd (omega arith))
differs_or_same (suc n) f g = elim (differs_or_same n f g) [
  | inr (i, lt, ne) ↦ inr (i, omega arith, ne)
  | inl same ↦ elim (eq_cases (f n) (g n)) [
    | inr ne ↦ inr (n, omega arith, ne)
    | inl last ↦
        inl (λ i lt. elim (eq_cases i n) [ inl e ↦ rw e last | inr less ↦ same i (omega arith) ])
  ]
]

keys_apart : (c d : ℕ) → 32 ≤ c → c ≤ 126 → 32 ≤ d → d ≤ 126 → c ≢ d → key (font c) ≢ key (font d)
keys_apart c d lo hi lo' hi' ne same =
    let alike : get_or keys (c - 32) 0 ≡ get_or keys (d - 32) 0 =
      sym (key-get_or c lo hi) ∙ same ∙ key-get_or d lo' hi' in
    elim (lt_or_gt c d ne) [
      | inl lt ↦
          all_differ-get_or keys (c - 32) (d - 32) keys_differ (omega arith) (omega arith) alike
      | inr gt ↦
          all_differ-get_or keys (d - 32) (c - 32) keys_differ (omega arith) (omega arith)
            (sym alike)
    ]

-- Two printable characters that differ have a row in the font that differs.
pub font-printable :
    (c d : ℕ)
    → 32 ≤ c
    → c ≤ 126
    → 32 ≤ d
    → d ≤ 126
    → c ≢ d
    → (i : ℕ) × (i < 8) × (font c i ≢ font d i)
font-printable c d lo hi lo' hi' ne = elim (differs_or_same 8 (font c) (font d)) [
  | inl same ↦ absurd (keys_apart c d lo hi lo' hi' ne (same_key (font c) (font d) same))
  | inr differs ↦ differs
]
