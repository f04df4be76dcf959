-- ===== src/Vfs/Children.antt =====
-- How kernel/fs/vfs.c changes the tree: what a node that is added or mounted does to the look-ups.
use osakauss.Common.{
  ℕ, zero, suc, ◌+◌, ◌-◌, ◌*◌, ◌%◌, ◌^◌, ◌<◌, ◌≤◌, ◌/◌, ◌≡◌, refl, sym, ap, ◌∙◌, ◌≢◌, inl, inr,
  true, false, List, [], ◌∷◌, ◌++◌, none, some, ==_ne, ==_refl, eq_cases, Bool-cases, if◌then◌else◌,
  arith, length, take, length-append,
}
use osakauss.Klibc.Mem.{Ptr}
use osakauss.Pmm.{Pmm, pmm_alloc}
use osakauss.Vfs.{
  Vfs, is_directory, is_mountpoint, children_of, with_child, vfs_add_node, vfs_mount, array_bytes,
  sizeof_ptr, copied, tail_of,
}
use osakauss.Vfs.Find.{name_eq, enter, get_dir_loop}
use osakauss.Vfs.Lookup.{first_child, resolve-hit, resolve-nil, get_dir_loop-resolve}

take-all : (xs : List Ptr) (n : ℕ) → length xs ≡ n → take n xs ≡ xs
take-all [] zero e = refl
take-all [] (suc n) e = refl
take-all (x ∷ xs) zero e = absurd (omega arith)
take-all (x ∷ xs) (suc n) e = ap (λ ys. x ∷ ys) (take-all xs n (omega arith))

copied-all : (n k : ℕ) (old new : List Ptr) → length old ≡ n → n ≤ k → copied n k old new ≡ old
unfolding copied
copied-all zero k [] new e le = refl
copied-all zero k (c ∷ cs) new e le = absurd (omega arith)
copied-all (suc n) k [] new e le = absurd (omega arith)
copied-all (suc n) k (c ∷ cs) new e le =
    let ne : k ≢ 0 = omega arith in
    rw (==_ne k 0 ne)
      (ap (λ ys. c ∷ ys) (copied-all n (k - 1) cs (tail_of new) (omega arith) (omega arith)))

with_child-children :
    (s : Vfs) (parent node array : Ptr) (pmm' : Pmm)
    → parent ≢ node
    → (s.nodes parent).children_count + 1 < 2 ^ 29
    → length (children_of s parent) ≡ (s.nodes parent).children_count
    → children_of (with_child s parent node array pmm') parent ≡ children_of s parent ++ (node ∷ [])
unfolding with_child
with_child-children s parent node array pmm' apart few full =
    let old = children_of s parent in
    let n = (s.nodes parent).children_count in
    let all : n ≤ sizeof_ptr * (n + 1) % 2 ^ 64 % 2 ^ 32 / 8 = omega (arith, few) in
    rw
      (
        copied-all n (sizeof_ptr * (n + 1) % 2 ^ 64 % 2 ^ 32 / 8) old (s.arrays array) full all,
        ==_ne node parent (λ e. apart (sym e)),
        ==_refl parent,
        ==_refl array,
      )
      (take-all (old ++ (node ∷ [])) ((s.nodes parent).children_count + 1)
        (length-append old (node ∷ []) ∙ ap (λ n. n + 1) full))

with_child-node :
    (s : Vfs) (parent node array : Ptr) (pmm' : Pmm)
    → parent ≢ node
    → (with_child s parent node array pmm').nodes node
      ≡ record (s.nodes node) { child_id = (s.nodes parent).children_count; parent = parent }
unfolding with_child
with_child-node s parent node array pmm' apart =
    let place : (s.nodes parent).children_count + 1 - 1 ≡ (s.nodes parent).children_count =
      omega arith in
    rw (==_refl node, ==_ne parent node apart, place) refl

with_child-other :
    (s : Vfs) (parent node array : Ptr) (pmm' : Pmm) (p : Ptr)
    → p ≢ parent
    → p ≢ node
    → (with_child s parent node array pmm').nodes p ≡ s.nodes p
unfolding with_child
with_child-other s parent node array pmm' p other other' =
    rw (==_ne node p (λ e. other' (sym e)), ==_ne parent p (λ e. other (sym e))) refl

-- Where an array can be allocated, of fewer than 2 ^ 29 pointers, `vfs_add_node` returns 1 for a directory and another node: the
-- directory's children are then those that it had and, last, the node; the node knows its parent and
-- its place; what any node but these two holds is as it was.
pub vfs_add_node_lem :
    (s : Vfs) (parent node : Ptr)
    → is_directory (s.nodes parent).type ≡ true
    → parent ≢ node
    → (s.nodes parent).children_count + 1 < 2 ^ 29
    → length (children_of s parent) ≡ (s.nodes parent).children_count
    → (pmm_alloc s.pmm (array_bytes (s.nodes parent))).0 ≢ 0
    → (s' : Vfs) × (vfs_add_node s parent node ≡ some (1, s'))
      × (children_of s' parent ≡ children_of s parent ++ (node ∷ []))
      × ((s'.nodes node).parent ≡ parent)
      × ((s'.nodes node).child_id ≡ (s.nodes parent).children_count)
      × ((s'.nodes node).name ≡ (s.nodes node).name)
      × ((s'.nodes node).type ≡ (s.nodes node).type)
      × ((p : Ptr) → p ≢ parent → p ≢ node → s'.nodes p ≡ s.nodes p)
unfolding vfs_add_node
vfs_add_node_lem s parent node dir apart few full room =
    let (array, pmm') = pmm_alloc s.pmm (array_bytes (s.nodes parent)) in
    let placed = with_child-node s parent node array pmm' apart in
    (
      with_child s parent node array pmm',
      rw (vfs_add_node, dir, ==_ne array 0 room) refl,
      with_child-children s parent node array pmm' apart few full,
      ap (λ n. n.parent) placed,
      ap (λ n. n.child_id) placed,
      ap (λ n. n.name) placed,
      ap (λ n. n.type) placed,
      with_child-other s parent node array pmm',
    )

first_child-append :
    (s : Vfs) (token : List ℕ) (cs : List Ptr) (node : Ptr)
    → first_child s token cs ≡ none
    → name_eq (s.nodes node).name token ≡ true
    → first_child s token (cs ++ (node ∷ [])) ≡ some node
unfolding first_child
first_child-append s token [] node h same = rw same refl
first_child-append s token (c ∷ cs) node h same =
    elim (Bool-cases (name_eq (s.nodes c).name token)) [
      | inl hit ↦ let gone : some c ≡ none = rw hit at h in absurd cc
      | inr miss ↦ rw miss (first_child-append s token cs node (rw miss at h) same)
    ]

-- The same names give the same first child.
pub first_child-same :
    (s s' : Vfs) (token : List ℕ) (cs : List Ptr)
    → ((p : Ptr) → (s'.nodes p).name ≡ (s.nodes p).name)
    → first_child s' token cs ≡ first_child s token cs
unfolding first_child
first_child-same s s' token [] same = refl
first_child-same s s' token (c ∷ cs) same =
    ap (λ n. if name_eq n token then some c else first_child s' token cs) (same c)
    ∙ ap (λ r. if name_eq (s.nodes c).name token then some c else r)
        (first_child-same s s' token cs same)

with_child-names :
    (s : Vfs) (parent node array : Ptr) (pmm' : Pmm)
    → parent ≢ node
    → (p : Ptr) → ((with_child s parent node array pmm').nodes p).name ≡ (s.nodes p).name
unfolding with_child
with_child-names s parent node array pmm' apart p = elim (eq_cases node p) [
  | inl same ↦
      ap (λ q. ((with_child s parent node array pmm').nodes q).name) (sym same)
      ∙ ap (λ n. n.name) (with_child-node s parent node array pmm' apart)
      ∙ ap (λ q. (s.nodes q).name) same
  | inr differs ↦ elim (eq_cases parent p) [
    | inl same ↦ rw (==_ne node p differs, same, ==_refl p) refl
    | inr differs' ↦ rw (==_ne node p differs, ==_ne parent p differs') refl
  ]
]

name_eq_refl : (s : List ℕ) → name_eq s s ≡ true
name_eq_refl [] = refl
name_eq_refl (c ∷ s) = rw (==_refl c) (name_eq_refl s)

-- A node that is no mount point and is added to fewer than 2 ^ 29 - 1 others, under a name that none of the directory's children has is
-- found under that name, from the directory on.
pub vfs_add_node-found :
    (s : Vfs) (parent node : Ptr)
    → is_directory (s.nodes parent).type ≡ true
    → parent ≢ node
    → (s.nodes parent).children_count + 1 < 2 ^ 29
    → length (children_of s parent) ≡ (s.nodes parent).children_count
    → (pmm_alloc s.pmm (array_bytes (s.nodes parent))).0 ≢ 0
    → is_mountpoint (s.nodes node).type ≡ false
    → first_child s (s.nodes node).name (children_of s parent) ≡ none
    → (s' : Vfs) × (vfs_add_node s parent node ≡ some (1, s'))
      × (get_dir_loop s' ((s.nodes node).name ∷ []) parent false ≡ node)
      × (first_child s' (s.nodes node).name (children_of s' parent) ≡ some node)
      × ((s'.nodes node).type ≡ (s.nodes node).type)
      × (s'.root ≡ s.root)
unfolding vfs_add_node with_child
vfs_add_node-found s parent node dir apart few full room plain new =
    let (array, pmm') = pmm_alloc s.pmm (array_bytes (s.nodes parent)) in
    let s' = with_child s parent node array pmm' in
    let name = (s.nodes node).name in
    let placed = with_child-node s parent node array pmm' apart in
    let names = with_child-names s parent node array pmm' apart in
    let first : first_child s' name (children_of s' parent) ≡ some node =
      ap (first_child s' name) (with_child-children s parent node array pmm' apart few full)
      ∙ first_child-same s s' name (children_of s parent ++ (node ∷ [])) names
      ∙ first_child-append s name (children_of s parent) node new (name_eq_refl name) in
    let entered : enter s' parent (some node) ≡ node =
      ap (λ n. if is_mountpoint n.type then n.ptr else node) placed
      ∙ ap (λ b. if b then (s.nodes node).ptr else node) plain in
    (
      s',
      rw (vfs_add_node, dir, ==_ne array 0 room) refl,
      get_dir_loop-resolve s' (name ∷ []) parent false (
          resolve-hit s' name [] parent node first
          ∙ resolve-nil s' (enter s' parent (some node))
          ∙ ap some entered),
      first,
      ap (λ n. n.type) placed,
      refl,
    )

-- After a mount on a directory, a path through it goes on in the file system that is mounted.
pub vfs_mount-enter :
    (s : Vfs) (mountpoint filesystem node : Ptr)
    → mountpoint ≢ 0
    → is_directory (s.nodes mountpoint).type ≡ true
    → enter (vfs_mount s mountpoint filesystem) node (some mountpoint) ≡ filesystem
unfolding vfs_mount
vfs_mount-enter s mountpoint filesystem node ne dir =
    rw (vfs_mount, ==_ne mountpoint 0 ne, dir, ==_refl mountpoint) refl
