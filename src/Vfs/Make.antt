-- ===== src/Vfs/Make.antt =====
-- vfs_mkdir of kernel/fs/vfs.c: a directory that is made is found.
mod Tests
use osakauss.Common.{
  ℕ, ◌+◌, ◌*◌, ◌%◌, ◌^◌, ◌<◌, ◌≡◌, ◌≢◌, refl, sym, ap, ◌∙◌, true, false, not, List, [], ◌∷◌, none,
  some, ==_ne, ==_refl, ◌==◌, lt→ltb, ltb, arith, length, take,
}
use osakauss.Klibc.Mem.{Ptr}
use osakauss.Pmm.{pmm_alloc}
use osakauss.Vfs.{
  Vfs, VfsNode, vfs_node_directory, is_directory, is_mountpoint, children_of, vfs_add_node,
  array_bytes, calloc_node, calloc_array, put_node, takes_nodes, vfs_mkdir,
}
use osakauss.Vfs.Find.{get_dir_loop}
use osakauss.Vfs.Lookup.{first_child}
use osakauss.Vfs.Children.{vfs_add_node-found}

-- the two addresses that are allocated, and the state in which the node is added
abbrev pub new_node : Vfs → Ptr
new_node s = (calloc_node s).0

abbrev pub new_array : Vfs → Ptr
new_array s = (calloc_array (calloc_node s).1).0

-- the node with other contents
abbrev pub fresh : Vfs → VfsNode → Vfs
fresh s n = put_node (calloc_array (calloc_node s).1).1 (new_node s) n

abbrev pub new_dir : Vfs → List ℕ → Vfs
new_dir s name = fresh s (record ((calloc_array (calloc_node s).1).1.nodes (new_node s)) {
  children = new_array s;
  children_count = 0;
  type = vfs_node_directory;
  del_flag = false;
  name = name;
})

-- None of the addresses is `p`.
abbrev pub Apart : Ptr → List Ptr → Type 0
Apart p [] = Unit
Apart p (c ∷ cs) = (c ≢ p) × Apart p cs

pub fresh_root : (s : Vfs) (n : VfsNode) → (fresh s n).root ≡ s.root
unfolding calloc_node calloc_array
fresh_root s n = refl

pub fresh-other :
    (s : Vfs) (n : VfsNode) (p : Ptr) → p ≢ new_node s → (fresh s n).nodes p ≡ s.nodes p
unfolding calloc_node calloc_array
fresh-other s n p other = let ne = ==_ne (new_node s) p (λ e. other (sym e)) in rw ne refl

pub fresh-children :
    (s : Vfs) (n : VfsNode) (parent : Ptr)
    → parent ≢ new_node s
    → (s.nodes parent).children ≢ new_array s
    → children_of (fresh s n) parent ≡ children_of s parent
unfolding calloc_node calloc_array
fresh-children s n parent other apart =
    let old = fresh-other s n parent other in
    let ne = ==_ne (new_array s) (s.nodes parent).children (λ e. apart (sym e)) in
    ap (λ v. take v.children_count ((fresh s n).arrays v.children)) old ∙ rw ne refl

pub fresh-first :
    (s : Vfs) (n : VfsNode) (token : List ℕ) (cs : List Ptr)
    → Apart (new_node s) cs
    → first_child (fresh s n) token cs ≡ first_child s token cs
unfolding first_child
fresh-first s n token [] apart = refl
fresh-first s n token (c ∷ cs) apart =
    rw (fresh-other s n c apart.0, fresh-first s n token cs apart.1) refl

new_dir-node : (s : Vfs) (name : List ℕ) → ((new_dir s name).nodes (new_node s)).name ≡ name
unfolding calloc_node calloc_array
new_dir-node s name = rw (==_refl (new_node s)) refl

new_dir_plain :
    (s : Vfs) (name : List ℕ) → is_mountpoint ((new_dir s name).nodes (new_node s)).type ≡ false
unfolding calloc_node calloc_array
new_dir_plain s name = rw (==_refl (new_node s)) refl

new_dir-type :
    (s : Vfs) (name : List ℕ) → ((new_dir s name).nodes (new_node s)).type ≡ vfs_node_directory
unfolding calloc_node calloc_array
new_dir-type s name = rw (==_refl (new_node s)) refl

-- What a directory and the memory manager have to be like for a new directory of that name.
pub record CanMake (s : Vfs) (parent : Ptr) (name : List ℕ) : Type 0 where
  pub takes : takes_nodes (s.nodes parent) ≡ true
  pub no_op : (s.nodes parent).ops.mkdir ≡ 0
  pub few : (s.nodes parent).children_count + 1 < 2 ^ 29
  pub fits : length name < 256
  pub full : length (children_of s parent) ≡ (s.nodes parent).children_count
  pub new : first_child s name (children_of s parent) ≡ none
  pub real : new_node s ≢ 0
  pub other : parent ≢ new_node s
  pub apart : Apart (new_node s) (children_of s parent)
  pub unused : (s.nodes parent).children ≢ new_array s
  pub room : (pmm_alloc (new_dir s name).pmm (array_bytes (s.nodes parent))).0 ≢ 0

-- The directory `parent` has the new directory, under its name.
pub record Made (s : Vfs) (parent : Ptr) (name : List ℕ) (s' : Vfs) : Type 0 where
  pub found : get_dir_loop s' (name ∷ []) parent false ≡ new_node s
  pub first : first_child s' name (children_of s' parent) ≡ some (new_node s)
  pub dir : (s'.nodes (new_node s)).type ≡ vfs_node_directory
  pub root : s'.root ≡ s.root

-- `vfs_mkdir` in a directory that is not deleted, has no function of its own for it and holds fewer than
-- 2 ^ 29 - 1 children, with a name that fits
-- and that no child has, where the memory manager gives out a node and arrays that are in use nowhere:
-- it returns the new node, which is a directory, and the look-up of the name from the parent on finds
-- it.
pub vfs_mkdir-Made :
    (call : Ptr → Ptr → Ptr → List ℕ → Vfs → Vfs) (s : Vfs) (parent : Ptr) (name : List ℕ)
    → CanMake s parent name
    → (s' : Vfs) × (vfs_mkdir call s parent name ≡ some (new_node s, s')) × Made s parent name s'
unfolding vfs_mkdir calloc_node calloc_array
vfs_mkdir-Made call s parent name h =
    let made = new_dir s name in
    let n = made.nodes (new_node s) in
    let contents = record ((calloc_array (calloc_node s).1).1.nodes (new_node s)) {
      children = new_array s;
      children_count = 0;
      type = vfs_node_directory;
      del_flag = false;
      name = name;
    } in
    let old = fresh-other s contents parent h.other in
    let same = fresh-children s contents parent h.other h.unused in
    let named = new_dir-node s name in
    let dir : is_directory (s.nodes parent).type ≡ true = ground (arith, h.takes) in
    let (s', added, found, first, type, root) =
      vfs_add_node-found made parent (new_node s) (rw old dir) h.other (rw old h.few)
        (rw (same, old) h.full) (rw old h.room) (new_dir_plain s name)
        (rw (named, same) (fresh-first s contents name (children_of s parent) h.apart ∙ h.new)) in
    (
      s',
      rw
          (
            vfs_mkdir,
            h.takes,
            ==_ne (new_node s) 0 h.real,
            lt→ltb (length name) 256 h.fits,
            added,
            h.no_op,
          )
          refl,
      record {
        found = rw named at found;
        first = rw named at first;
        dir = type ∙ new_dir-type s name;
        root = root;
      },
    )
