-- ===== src/Boot/Laws.antt =====
-- kernel/main.c: the search for a tag and for the initial disk.
use osakauss.Common.{
  ℕ, zero, suc, ◌<◌, ◌≡◌, ◌≢◌, refl, ap, ◌⊎◌, inl, inr, Bool, true, false, List, [], ◌∷◌, ◌++◌,
  Option, none, some, ==_ne, ==_iff, eq_cases, Bool-cases, length, arith,
}
use osakauss.Format.{codes, text, word, formatv, directive}
use osakauss.Klibc.Mem.{Ptr}
use osakauss.Log.{Log}
use osakauss.Log.Laws.{logf-join}
use osakauss.Log.Faults.Laws.{after}
use osakauss.Vfs.Find.{name_eq}
use osakauss.Boot.{
  Tag, BootInfo, Module, get_tag_loop, stivale2_get_tag, initrd_module_name, tracef, with_log,
  with_found, find_initrd, init_initrd,
}

-- The tags from an address on: a list that is linked by `next` and ends at NULL.
pub data Chain (tags : Ptr → Tag) : Ptr → List Ptr → Type 0 where
  last : Chain tags 0 []
  link : {p : Ptr} {ps : List Ptr} → p ≢ 0 → Chain tags (tags p).next ps → Chain tags p (p ∷ ps)

-- No tag of the list has the identifier.
abbrev pub NoTag : (Ptr → Tag) → ℕ → List Ptr → Type 0
NoTag tags id [] = Unit
NoTag tags id (p ∷ ps) = ((tags p).identifier ≢ id) × NoTag tags id ps

-- What the search gives: NULL when no tag has the identifier, and else the first tag that has it.
abbrev pub Searched : (Ptr → Tag) → ℕ → List Ptr → Ptr → Type 0
Searched tags id ps r =
    ((r ≡ 0) × NoTag tags id ps)
    ⊎ ((front : List Ptr) × (back : List Ptr) × (ps ≡ front ++ (r ∷ back))
        × (r ≢ 0)
        × ((tags r).identifier ≡ id)
        × NoTag tags id front)

Searched-cons :
    (tags : Ptr → Tag) (id p : ℕ) (ps : List Ptr) (r : Ptr)
    → (tags p).identifier ≢ id
    → Searched tags id ps r
    → Searched tags id (p ∷ ps) r
Searched-cons tags id p ps r ne (inl (null, none_has)) = inl (null, (ne, none_has))
Searched-cons tags id p ps r ne (inr (front, back, split, real, has, before)) =
    inr (p ∷ front, back, ap (λ qs. p ∷ qs) split, real, has, (ne, before))

get_tag_loop-Searched :
    (fuel : ℕ) (tags : Ptr → Tag) (at id : ℕ) (ps : List Ptr)
    → Chain tags at ps
    → length ps < fuel
    → (r : Ptr) × (get_tag_loop fuel tags at id ≡ some r) × Searched tags id ps r
unfolding get_tag_loop
get_tag_loop-Searched zero tags at id ps chain f = absurd (omega arith)
get_tag_loop-Searched (suc fuel) tags zero id [] last f = (0, refl, inl (refl, tt))
get_tag_loop-Searched (suc fuel) tags (suc p) id [] chain f = elim chain [ ]
get_tag_loop-Searched (suc fuel) tags p id (q ∷ ps) (link real chain) f =
    elim (eq_cases (tags p).identifier id) [
      | inl has ↦ (
        p,
        rw (==_ne p 0 real, (==_iff (tags p).identifier id).1 has) refl,
        inr ([], ps, refl, real, has, tt),
      )
      | inr ne ↦
          let (r, run, out) =
            get_tag_loop-Searched fuel tags (tags p).next id ps chain (omega arith) in
          (
            r,
            rw (==_ne p 0 real, ==_ne (tags p).identifier id ne) run,
            Searched-cons tags id p ps r ne out,
          )
    ]

-- On a list of tags that is linked up to NULL, `stivale2_get_tag` ends, for as many tags as there are: it
-- gives the first tag with the identifier, or NULL when there is none.
pub stivale2_get_tag-Searched :
    (fuel : ℕ) (tags : Ptr → Tag) (info : BootInfo) (id : ℕ) (ps : List Ptr)
    → Chain tags info.tags ps
    → length ps < fuel
    → (r : Ptr) × (stivale2_get_tag fuel tags info id ≡ some r) × Searched tags id ps r
unfolding stivale2_get_tag
stivale2_get_tag-Searched fuel tags info id ps chain f =
    get_tag_loop-Searched fuel tags info.tags id ps chain f

-- No module of the list is named like the initial disk.
abbrev pub NoInitrd : List Module → Type 0
NoInitrd [] = Unit
NoInitrd (m ∷ ms) = (name_eq m.string initrd_module_name ≡ false) × NoInitrd ms

traced :
    (font : ℕ → ℕ → ℕ) (l : Log) (message : List ℕ)
    → formatv (codes "%s :: " ++ message) (text (codes "init_initrd") ∷ word 0 ∷ [])
      ≡ some (codes "init_initrd :: " ++ message, word 0 ∷ [])
    → tracef font true l (codes "init_initrd") message
      ≡ after font l (codes "init_initrd :: " ++ message)
traced font l message shown = logf-join font l _ _ _ (word 0 ∷ []) shown

-- What is logged behind `initrd_init`, if it returns.
abbrev pub then_log {ℓ} : {S : Type ℓ} → (ℕ → ℕ → ℕ) → List ℕ → Option (S × Log) → Option (S × Log)
then_log font message none = none
then_log font message (some r) = with_log r.0 (after font r.1 message)

module _ {ℓ} {S : Type ℓ} (initrd_init : ℕ → ℕ → S × Log → Option (S × Log)) where
  -- The initial disk is that of the first module with its name, and is set up once; or no module has the
  -- name, and nothing is set up. The log says which, behind what the set-up writes to it.
  abbrev pub Mounted : (ℕ → ℕ → ℕ) → List Module → S → Log → Option (S × Log) → Type ℓ
  Mounted font modules s l r =
      ((front : List Module) × (m : Module) × (back : List Module) × (modules ≡ front ++ (m ∷ back))
        × NoInitrd front
        × (name_eq m.string initrd_module_name ≡ true)
        × (r
            ≡ then_log font (codes "init_initrd :: Found initrd and mounted\n")
                (initrd_init m.begin m.end (s, l))))
      ⊎ (NoInitrd modules
          × (r
              ≡ with_log s (
                  after font l (codes "init_initrd :: Couldn't find initrd in list of modules\n"))))

  abbrev FoundOutcome : List Module → S × Log → Option (Bool × (S × Log)) → Type ℓ
  FoundOutcome modules s r =
      ((front : List Module) × (m : Module) × (back : List Module) × (modules ≡ front ++ (m ∷ back))
        × NoInitrd front
        × (name_eq m.string initrd_module_name ≡ true)
        × (r ≡ with_found initrd_init (initrd_init m.begin m.end s)))
      ⊎ (NoInitrd modules × (r ≡ some (false, s)))

  find_initrd-FoundOutcome :
      (modules : List Module) (s : S × Log)
      → FoundOutcome modules s (find_initrd initrd_init modules s)
  unfolding find_initrd
  find_initrd-FoundOutcome [] s = inr (tt, refl)
  find_initrd-FoundOutcome (m ∷ ms) s = elim (Bool-cases (name_eq m.string initrd_module_name)) [
    | inl named ↦ inl ([], m, ms, refl, tt, named, rw named refl)
    | inr other ↦ elim (find_initrd-FoundOutcome ms s) [
      | inl (front, n, back, split, before, named, run) ↦
          inl (m ∷ front, n, back, ap (λ ks. m ∷ ks) split, (other, before), named, rw other run)
      | inr (none_named, run) ↦ inr ((other, none_named), rw other run)
    ]
  ]

  -- behind the loop that has found a module
  init_initrd_logs :
      (font : ℕ → ℕ → ℕ) (modules : List Module) (s : S) (l : Log) (r : Option (S × Log))
      → find_initrd initrd_init modules (s, l) ≡ with_found initrd_init r
      → init_initrd initrd_init font true modules s l
        ≡ then_log font (codes "init_initrd :: Found initrd and mounted\n") r
  unfolding init_initrd formatv directive
  init_initrd_logs font modules s l none run = rw (init_initrd, run) refl
  init_initrd_logs font modules s l (some (s', l')) run =
      rw (init_initrd, run)
        (ap (with_log s') (traced font l' (codes "Found initrd and mounted\n") refl))

  -- With the trace on, `init_initrd` sets up the initial disk with the bounds of the first module that is
  -- named "initrd", and no other, and, if that returns, logs that it has; when no module is, it sets up
  -- nothing and logs that.
  pub init_initrd-Mounted :
      (font : ℕ → ℕ → ℕ) (modules : List Module) (s : S) (l : Log)
      → Mounted font modules s l (init_initrd initrd_init font true modules s l)
  unfolding init_initrd formatv directive
  init_initrd-Mounted font modules s l = elim (find_initrd-FoundOutcome modules (s, l)) [
    | inl (front, m, back, split, before, named, run) ↦ inl (
      front,
      m,
      back,
      split,
      before,
      named,
      init_initrd_logs font modules s l (initrd_init m.begin m.end (s, l)) run,
    )
    | inr (none_named, run) ↦ inr (
      none_named,
      rw (init_initrd, run)
          (ap (with_log s)
            (traced font l (codes "Couldn't find initrd in list of modules\n") refl)),
    )
  ]
