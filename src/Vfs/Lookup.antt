-- ===== src/Vfs/Lookup.antt =====
-- How kernel/fs/vfs.c resolves a path, against a resolution by the first child of each name.
use osakauss.Common.{
  ℕ, ◌+◌, ◌≤◌, ◌≡◌, refl, sym, ap, ◌∙◌, ◌≢◌, ◌⊎◌, inl, inr, Bool, true, false, List, [], ◌∷◌, ◌++◌,
  Option, none, some, ◌==◌, ==_ne, Bool-cases, if◌then◌else◌, arith, length,
}
use osakauss.Klibc.Mem.{Ptr}
use osakauss.Vfs.{Vfs, is_file_or_device, children_of}
use osakauss.Vfs.Find.{
  search, enter, name_eq, get_dir_loop, vfs_get_dir, get_file_loop, vfs_get_file,
}

-- the first of the children that has the name
unfoldable pub first_child : Vfs → List ℕ → List Ptr → Option Ptr
first_child s token [] = none
first_child s token (c ∷ cs) =
    let rest = first_child s token cs in if name_eq (s.nodes c).name token then some c else rest

abbrev pub after_child : Option Ptr → (Ptr → Option Ptr) → Option Ptr
after_child none next = none
after_child (some c) next = next c

-- From a node, each name of a path leads to the first child that has it, or, where that is a mount
-- point, to the file system that is mounted on it.
unfoldable pub resolve : Vfs → Ptr → List (List ℕ) → Option Ptr
resolve s node [] = some node
resolve s node (token ∷ tokens) =
    after_child (first_child s token (children_of s node))
      (λ c. resolve s (enter s node (some c)) tokens)

pub resolve-nil : (s : Vfs) (node : Ptr) → resolve s node [] ≡ some node
unfolding resolve
resolve-nil s node = refl

loop-nil : (s : Vfs) (node : Ptr) (found : Bool) → get_dir_loop s [] node found ≡ node
unfolding get_dir_loop
loop-nil s node found = refl

-- `found_child` behind an inner loop that does not stop
abbrev kept : List Ptr → Bool → Bool
kept [] found = found
kept (c ∷ cs) found = false

kept-false : (cs : List Ptr) → kept cs false ≡ false
kept-false [] = refl
kept-false (c ∷ cs) = refl

-- what the inner loop gives
abbrev Searched : Vfs → List ℕ → List Ptr → Bool → Type 0
Searched s token cs found =
    ((c : Ptr) × (first_child s token cs ≡ some c) × (search s token cs found ≡ (some c, true)))
    ⊎ ((first_child s token cs ≡ none) × (search s token cs found ≡ (none, kept cs found)))

search-Searched :
    (s : Vfs) (token : List ℕ) (cs : List Ptr) (found : Bool) → Searched s token cs found
unfolding search first_child
search-Searched s token [] found = inr (refl, refl)
search-Searched s token (c ∷ cs) found = elim (Bool-cases (name_eq (s.nodes c).name token)) [
  | inl same ↦ inl (c, rw same refl, rw same refl)
  | inr differs ↦ elim (search-Searched s token cs false) [
    | inl hit ↦ inl (hit.0, rw differs hit.1, rw differs hit.2)
    | inr miss ↦ inr (rw differs miss.0, rw differs (miss.1 ∙ ap (λ b. (none, b)) (kept-false cs)))
  ]
]

-- The outcome of the loop from a node: the node that the path leads to; NULL, where the first name that
-- leads nowhere is looked for among some children, or in front of everything; or, where it is looked
-- for in a node without children behind a part of the path, that node.
pub data Outcome (s : Vfs) (node : Ptr) (found : Bool) (tokens : List (List ℕ)) (r : Ptr)
    : Type 0 where
  resolved : resolve s node tokens ≡ some r → Outcome s node found tokens r
  missing :
      (front back : List (List ℕ)) (token : List ℕ) (last : Ptr)
      → tokens ≡ front ++ (token ∷ back)
      → resolve s node front ≡ some last
      → first_child s token (children_of s last) ≡ none
      → (children_of s last ≢ []) ⊎ ((found ≡ false) × (front ≡ []))
      → r ≡ 0
      → Outcome s node found tokens r
  childless :
      (front back : List (List ℕ)) (token : List ℕ)
      → tokens ≡ front ++ (token ∷ back)
      → resolve s node front ≡ some r
      → children_of s r ≡ []
      → (found ≡ true) ⊎ (front ≢ [])
      → Outcome s node found tokens r

-- From a node without children the loop never gets away.
stuck :
    (s : Vfs) (tokens : List (List ℕ)) (node : Ptr)
    → children_of s node ≡ []
    → get_dir_loop s tokens node true ≡ node
unfolding get_dir_loop search
stuck s [] node e = refl
stuck s (token ∷ tokens) node e = rw (e) (stuck s tokens node e)

loop-hit :
    (s : Vfs) (token : List ℕ) (tokens : List (List ℕ)) (node c : Ptr) (found : Bool)
    → search s token (children_of s node) found ≡ (some c, true)
    → get_dir_loop s (token ∷ tokens) node found
      ≡ get_dir_loop s tokens (enter s node (some c)) true
unfolding get_dir_loop
loop-hit s token tokens node c found e = rw (get_dir_loop, e) refl

loop-miss :
    (s : Vfs) (token : List ℕ) (tokens : List (List ℕ)) (node : Ptr) (found b : Bool)
    → search s token (children_of s node) found ≡ (none, b)
    → get_dir_loop s (token ∷ tokens) node found ≡ (if b then get_dir_loop s tokens node b else 0)
unfolding get_dir_loop
loop-miss s token tokens node found b e = rw (get_dir_loop, e) refl

pub resolve-hit :
    (s : Vfs) (token : List ℕ) (tokens : List (List ℕ)) (node c : Ptr)
    → first_child s token (children_of s node) ≡ some c
    → resolve s node (token ∷ tokens) ≡ resolve s (enter s node (some c)) tokens
unfolding resolve
resolve-hit s token tokens node c e = rw (resolve, e) refl

resolve-miss :
    (s : Vfs) (token : List ℕ) (tokens : List (List ℕ)) (node : Ptr)
    → first_child s token (children_of s node) ≡ none
    → resolve s node (token ∷ tokens) ≡ none
unfolding resolve
resolve-miss s token tokens node e = rw (resolve, e) refl

-- one name in front
Outcome-hit :
    (s : Vfs) (token : List ℕ) (tokens : List (List ℕ)) (node c : Ptr) (found : Bool) (r : Ptr)
    → first_child s token (children_of s node) ≡ some c
    → Outcome s (enter s node (some c)) true tokens r
    → Outcome s node found (token ∷ tokens) r
Outcome-hit s token tokens node c found r e (resolved h) =
    resolved (resolve-hit s token tokens node c e ∙ h)
Outcome-hit s token tokens node c found r e
      (missing front back name last parts h gone (inl some_there) z) =
    missing (token ∷ front) back name last (ap (λ ts. token ∷ ts) parts)
      (resolve-hit s token front node c e ∙ h) gone (inl some_there) z
Outcome-hit s token tokens node c found r e
      (missing front back name last parts h gone (inr at_start) z) =
    absurd (cc (at_start.0))
Outcome-hit s token tokens node c found r e (childless front back last parts h none_there origin) =
    childless (token ∷ front) back last (ap (λ ts. token ∷ ts) parts)
      (resolve-hit s token front node c e ∙ h) none_there (inr (λ same. absurd cc))

Outcome-miss :
    (s : Vfs) (token : List ℕ) (tokens : List (List ℕ)) (node : Ptr) (found : Bool) (cs : List Ptr)
    → children_of s node ≡ cs
    → first_child s token (children_of s node) ≡ none
    → Outcome s node found
        (token ∷ tokens)
        (if kept cs found then get_dir_loop s tokens node (kept cs found) else 0)
Outcome-miss s token tokens node true [] e first =
    childless [] tokens token refl (rw (stuck s tokens node e) (resolve-nil s node))
      (rw (stuck s tokens node e) e) (inl refl)
Outcome-miss s token tokens node false [] e first =
    missing [] tokens token node refl (resolve-nil s node) first (inr (refl, refl)) refl
Outcome-miss s token tokens node found (c ∷ cs) e first =
    missing [] tokens token node refl (resolve-nil s node) first (inl (λ none_there. absurd cc))
      refl

get_dir_loop-Outcome :
    (s : Vfs) (tokens : List (List ℕ)) (node : Ptr) (found : Bool)
    → Outcome s node found tokens (get_dir_loop s tokens node found)
get_dir_loop-Outcome s [] node found =
    resolved (resolve-nil s node ∙ ap some (sym (loop-nil s node found)))
get_dir_loop-Outcome s (token ∷ tokens) node found =
    elim (search-Searched s token (children_of s node) found) [
      | inl (c, first, run) ↦ rw (loop-hit s token tokens node c found run) (
          Outcome-hit s token tokens node c found _ first
            (get_dir_loop-Outcome s tokens (enter s node (some c)) true))
      | inr (first, run) ↦
          rw (loop-miss s token tokens node found (kept (children_of s node) found) run)
            (Outcome-miss s token tokens node found (children_of s node) refl first)
    ]

-- The loop finds what a path leads to.
pub get_dir_loop-resolve :
    (s : Vfs) (tokens : List (List ℕ)) (node : Ptr) (found : Bool) {r : Ptr}
    → resolve s node tokens ≡ some r
    → get_dir_loop s tokens node found ≡ r
get_dir_loop-resolve s [] node found e =
    let parts : some node ≡ some _ = sym (resolve-nil s node) ∙ e in loop-nil s node found ∙ cc
get_dir_loop-resolve s (token ∷ tokens) node found e =
    elim (search-Searched s token (children_of s node) found) [
      | inl (c, first, run) ↦
          loop-hit s token tokens node c found run
          ∙ get_dir_loop-resolve s tokens (enter s node (some c)) true
              (sym (resolve-hit s token tokens node c first) ∙ e)
      | inr (first, run) ↦ absurd (cc (resolve-miss s token tokens node first, e))
    ]

-- `vfs_get_dir` gives the node that the path leads to. Where the path leads nowhere, there is a first name
-- that no child of the node has to which the names in front of it lead: if that node has children, or
-- no name is in front, the result is NULL; if it has none and at least one name is in front, the result
-- is that node, whatever names follow.
pub vfs_get_dir-Outcome :
    (s : Vfs) (tokens : List (List ℕ)) → Outcome s s.root false tokens (vfs_get_dir s tokens)
unfolding vfs_get_dir
vfs_get_dir-Outcome s [] = resolved (resolve-nil s s.root)
vfs_get_dir-Outcome s (token ∷ tokens) = get_dir_loop-Outcome s (token ∷ tokens) s.root false

type_test_skipped :
    (s : Vfs) (total index : ℕ) (hit : Option Ptr) (on : Ptr)
    → total ≢ index
    → (elim hit [
      | none ↦ on
      | some c ↦
          if total == index then (if is_file_or_device (s.nodes c).type then c else 0) else on
    ])
      ≡ on
type_test_skipped s total index none on ne = refl
type_test_skipped s total index (some c) on ne = rw (==_ne total index ne) refl

file_loop-dir_loop :
    (s : Vfs) (total index : ℕ) (tokens : List (List ℕ)) (node : Ptr) (found : Bool)
    → index + length tokens ≤ total
    → get_file_loop s total index tokens node found ≡ get_dir_loop s tokens node found
unfolding get_file_loop get_dir_loop
file_loop-dir_loop s total index [] node found le = refl
file_loop-dir_loop s total index (token ∷ tokens) node found le =
    let hit = (search s token (children_of s node) found).0 in
    let found' = (search s token (children_of s node) found).1 in
    type_test_skipped s total index hit _ (omega arith)
    ∙ ap (λ rest. if found' then rest else 0)
        (file_loop-dir_loop s total (index + 1) tokens (enter s node hit) found' (omega arith))

-- `vfs_get_file` gives the same node as `vfs_get_dir` for every path, a directory for one: its test of
-- the node's type is never reached.
pub vfs_get_file-vfs_get_dir :
    (s : Vfs) (tokens : List (List ℕ)) → vfs_get_file s tokens ≡ vfs_get_dir s tokens
unfolding vfs_get_file vfs_get_dir
vfs_get_file-vfs_get_dir s [] =
    file_loop-dir_loop s 0 0 [] s.root false (omega arith) ∙ loop-nil s s.root false
vfs_get_file-vfs_get_dir s (token ∷ tokens) =
    file_loop-dir_loop s (length (token ∷ tokens)) 0 (token ∷ tokens) s.root false (omega arith)
