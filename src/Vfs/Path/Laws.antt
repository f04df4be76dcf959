-- ===== src/Vfs/Path/Laws.antt =====
-- vfs_token_path of kernel/fs/vfs.c: the list holds the names between the slashes.
use mathlib.Core.List.{append_assoc, append-nil}
use osakauss.Common.{
  ℕ, zero, suc, ◌^◌, ◌+◌, ◌<◌, ◌≤◌, ◌≡◌, refl, sym, ap, ◌∙◌, inl, inr, false, List, [], ◌∷◌, ◌++◌,
  some, ◌==◌, ==_ne, length, arith,
}
use osakauss.Klibc.Mem.{Memory, Ptr}
use osakauss.Klibc.Str.{is_delim, Token}
use osakauss.Klibc.Str.Laws.{IsString, IsString-copy, strlen_lem}
use osakauss.Klibc.Str.Tokens.{
  after_delims, first_token, rest_of, Ended, subject, no_token, a_token, strtok-Outcome,
}
use osakauss.Klibc.Num.Bytes.{IsString-bytes}
use osakauss.Dynlist.{Dl, dl_init, append_item}
use osakauss.Dynlist.Laws.{contents, from_cells, dl_push-room, append_item-contents}
use osakauss.Vfs.{Vfs}
use osakauss.Vfs.Find.{vfs_get_dir}
use osakauss.Vfs.Lookup
use osakauss.Vfs.Lookup.{vfs_get_dir-Outcome}
use osakauss.Pmm.{pmm_alloc}
use osakauss.Vfs.Path.Names.{
  parts, names, names-after_delims, names-cons, after_delims-cases, length-rest_of-cons, Short,
  names-Short,
}
use osakauss.Vfs.Path.{slash, Tokens, token_loop, vfs_token_path, strings_at, get_dir_at}

-- At the addresses of a list stand the words, one for one.
abbrev pub Strings : Memory → List Ptr → List (List ℕ) → Type 0
Strings m [] [] = Unit
Strings m [] (w ∷ ws) = ⊥
Strings m (p ∷ ps) [] = ⊥
Strings m (p ∷ ps) (w ∷ ws) = IsString m p w × Strings m ps ws

-- What the loop leaves, from the string `s` at `at` and the list `t`.
record Looped (m : Memory) (at : Ptr) (t : Dl) (s : List ℕ) (k : Tokens) : Type 0 where
  places : List Ptr
  listed : contents k.list ≡ contents t ++ places
  strings : Strings k.mem places (names s)
  same : (a : ℕ) → a < at → k.mem a ≡ m a
  idle : s ≡ [] → (a : ℕ) → k.mem a ≡ m a
  pmm : k.list.pmm ≡ t.pmm

-- the end of the path
end-Looped :
    (m : Memory) (at backup : Ptr) (t : Dl) (s : List ℕ)
    → after_delims slash s ≡ []
    → Looped m at t s (record { list = t; mem = m; backup = backup })
unfolding names parts
end-Looped m at backup t s none_left =
    let no_names : names s ≡ [] = sym (names-after_delims s) ∙ ap names none_left in
    record {
      places = [];
      listed = sym (append-nil (contents t));
      strings = rw no_names tt;
      same = λ a lt. refl;
      idle = λ e a. refl;
      pmm = refl;
    }

names-split :
    (c : ℕ) (s w : List ℕ)
    → after_delims slash s ≡ c ∷ w
    → (c == b'/') ≡ false
    → names s ≡ first_token slash (c ∷ w) ∷ names (rest_of slash (c ∷ w))
names-split c s w e miss = sym (names-after_delims s) ∙ ap names e ∙ names-cons c w miss

-- the string of a name is not touched by the rounds behind it
name_kept :
    (m : Memory) (p : Ptr) (v : List ℕ) (name : Token) (t : Dl) (k : Tokens)
    → Ended m p p v slash name
    → Looped name.mem name.backup t (rest_of slash v) k
    → IsString k.mem p (first_token slash v)
name_kept m p v name t k ended later = elim ended.apart [
  | inl apart ↦
      IsString-copy name.mem k.mem p p (first_token slash v)
        (λ i le. later.same (p + i) (omega arith)) ended.word
  | inr last ↦
      IsString-copy name.mem k.mem p p (first_token slash v) (λ i le. later.idle last (p + i))
        ended.word
]

-- one name in front
name-Looped :
    (m : Memory) (at p : Ptr) (t : Dl) (s : List ℕ) (c : ℕ) (w : List ℕ) (name : Token) (k : Tokens)
    → after_delims slash s ≡ c ∷ w
    → (c == b'/') ≡ false
    → at ≤ p
    → Ended m p p (c ∷ w) slash name
    → Looped name.mem name.backup (append_item t p) (rest_of slash (c ∷ w)) k
    → Looped m at t s k
unfolding after_delims
name-Looped m at p t s c w name k e miss le ended later = record {
  places = p ∷ later.places;
  listed =
      later.listed
      ∙ ap (λ xs. xs ++ later.places) (append_item-contents t p)
      ∙ append_assoc (contents t) (p ∷ []) later.places;
  strings =
      rw (names-split c s w e miss)
        (name_kept m p (c ∷ w) name (append_item t p) k ended later, later.strings);
  same = λ a lt. later.same a (omega (arith, ended.forward)) ∙ ended.before a (omega arith);
  idle = λ none_left a. absurd (cc (ap (after_delims slash) none_left, e));
  pmm = later.pmm;
}

-- the list of a path with at most as many names as there is room for
token_loop-Looped :
    (rounds fuel : ℕ) (m : Memory) (backup path : Ptr) (t : Dl) (s : List ℕ)
    → length s < rounds
    → length s < fuel
    → 0 < subject backup path
    → IsString m (subject backup path) s
    → t.total + length (names s) ≤ t.capacity
    → (k : Tokens) × (token_loop rounds fuel m backup path t ≡ some k)
      × Looped m (subject backup path) t s k
unfolding token_loop is_delim
token_loop-Looped zero fuel m backup path t s left f nz h room = absurd (omega arith)
token_loop-Looped (suc rounds) fuel m backup path t s left f nz h room =
    let (name, run, out) = strtok-Outcome fuel m backup path s slash f refl nz h in
    elim out [
      | no_token none_left null ↦ (
        record { list = t; mem = m; backup = backup },
        rw (token_loop, run, null) refl,
        end-Looped m (subject backup path) backup t s none_left,
      )
      | a_token some_left le ended ↦ elim (after_delims-cases s) [
        | inl none_left ↦ absurd (some_left none_left)
        | inr (c, w, e, miss, shorter) ↦
            let ended' : Ended m name.token name.token (c ∷ w) slash name = rw e at ended in
            let rest_len = length-rest_of-cons c w miss in
            let forward = ended'.forward in
            let words = ap length (names-split c s w e miss) in
            let (k, ran, later) =
              token_loop-Looped rounds fuel name.mem name.backup 0 (append_item t name.token)
                (rest_of slash (c ∷ w)) (omega arith) (omega arith) (omega arith) ended'.rest
                (omega (arith, words)) in
            let push = dl_push-room t name.token (λ full. absurd (omega (arith, words))) in
            (
              k,
              rw (token_loop, run, ==_ne name.token 0 (omega arith), push) ran,
              name-Looped m (subject backup path) name.token t s c w name k e miss le ended' later,
            )
      ]
    ]

strings_at-Strings :
    (fuel : ℕ) (m : Memory) (ps : List Ptr) (ws : List (List ℕ))
    → fuel ≤ 2 ^ 32
    → Short fuel ws
    → Strings m ps ws
    → strings_at fuel m ps ≡ some ws
unfolding strings_at
strings_at-Strings fuel m [] [] small short h = refl
strings_at-Strings fuel m [] (w ∷ ws) small short h = absurd h
strings_at-Strings fuel m (p ∷ ps) [] small short h = absurd h
strings_at-Strings fuel m (p ∷ ps) (w ∷ ws) small short h =
    rw
      (
        strings_at,
        strlen_lem fuel m p w short.0 (omega (arith, short.0)) h.0,
        strings_at-Strings fuel m ps ws small short.1 h.1,
        IsString-bytes m p w h.0,
      )
      refl

-- A path in memory with at most six names: `vfs_token_path` ends, and the list that it returns points to
-- the names between the slashes, in their order, each of them a string now. The memory in front of
-- the path is as before.
pub vfs_token_path-names :
    (fuel : ℕ) (m : Memory) (backup path : Ptr) (t : Dl) (s : List ℕ)
    → 0 < path
    → IsString m path s
    → length s < fuel
    → length (names s) ≤ 6
    → (k : Tokens) × (vfs_token_path fuel m backup path t ≡ some k)
      × Strings k.mem (contents k.list) (names s)
      × ((a : ℕ) → a < path → k.mem a ≡ m a)
      × (k.list.pmm ≡ (dl_init t).pmm)
unfolding vfs_token_path contents from_cells dl_init
vfs_token_path-names fuel m backup path t s nz h f few =
    let given : subject backup path ≡ path = rw (==_ne path 0 (omega arith)) refl in
    let (k, run, looped) =
      token_loop-Looped fuel fuel m backup path (dl_init t) s f f (rw given nz) (rw given h)
        (omega (arith, few)) in
    (k, run, rw looped.listed looped.strings, λ a lt. looped.same a (rw given lt), looped.pmm)

-- A path in memory with at most six names: the look-up ends, and for the names between the slashes, from
-- the root, it gives what `Outcome` says: the node that they lead to; where they lead nowhere, NULL or
-- the node without children at which they end. It changes the tree nowhere, but the block that holds
-- the list of the names is never given back.
pub get_dir_at-Outcome :
    (fuel : ℕ) (v : Vfs) (cells : Ptr → ℕ → Ptr) (m : Memory) (backup path : Ptr) (s : List ℕ)
    → 0 < path
    → IsString m path s
    → length s < fuel
    → fuel ≤ 2 ^ 32
    → length (names s) ≤ 6
    → (r : Ptr) × (m' : Memory) × (get_dir_at fuel v cells m backup path
        ≡ some (r, record v { pmm = (pmm_alloc v.pmm 48).1 }, m'))
      × Lookup.Outcome v v.root false (names s) r
unfolding get_dir_at dl_init
get_dir_at-Outcome fuel v cells m backup path s nz h f small few =
    let t : Dl = record { items = 0; capacity = 0; total = 0; cells = cells; pmm = v.pmm } in
    let (k, run, strings, same, pmm) = vfs_token_path-names fuel m backup path t s nz h f few in
    let read =
      strings_at-Strings fuel k.mem (contents k.list) (names s) small (names-Short fuel s f)
        strings in
    (
      vfs_get_dir v (names s),
      k.mem,
      rw (get_dir_at, run, read, pmm) refl,
      vfs_get_dir-Outcome v (names s),
    )
