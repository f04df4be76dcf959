-- ===== src/Vfs.antt =====
-- kernel/fs/vfs.c: the tree of the virtual file system. Nodes and arrays of node pointers are typed
-- stores over the addresses that the physical memory manager gives out; a function pointer is its
-- address, 0 is NULL, and what the functions behind them do is the argument `call`. A path is given by
-- the names between its slashes, and a name by its bytes before the NUL. `none` is a halt of the
-- kernel, or a name that does not fit into `name[256]`.
pub mod Find
pub mod Lookup
pub mod Children
pub mod Make
pub mod Path
mod Tests
use osakauss.Common.{
  ℕ, zero, ◌+◌, ◌-◌, ◌*◌, ◌%◌, ◌^◌, Bool, true, false, not, ◌&&◌, ◌||◌, List, [], ◌∷◌, ◌++◌, Option,
  none, some, ltb, ◌==◌, if◌then◌else◌, take, length, get_or, suc, ◌/◌,
}
use osakauss.Klibc.Mem.{Ptr}
use osakauss.Pmm.{Pmm, pmm_alloc, pmm_free}

pub data NodeType : Type 0 where
  vfs_node_file : NodeType
  vfs_node_directory : NodeType
  vfs_node_mountpoint : NodeType
  vfs_node_device : NodeType

-- the addresses of the functions of a file system
pub record VfsOps : Type 0 where
  pub read : Ptr
  pub write : Ptr
  pub mkdir : Ptr
  pub mkfile : Ptr
  pub delfile : Ptr
  pub deldir : Ptr

-- the fields that some code reads or writes
pub record VfsNode : Type 0 where
  pub name : List ℕ
  pub size : ℕ
  pub type : NodeType
  pub del_flag : Bool
  pub ops : VfsOps
  pub offset : ℕ
  pub parent : Ptr
  pub children : Ptr
  pub children_count : ℕ
  pub child_id : ℕ
  pub ptr : Ptr
  pub device : Ptr
  pub device_id : ℕ

-- `sizeof(vfs_node)` and the size of a pointer
abbrev pub sizeof_node : ℕ
sizeof_node = 424

abbrev pub sizeof_ptr : ℕ
sizeof_ptr = 8

abbrev pub no_ops : VfsOps
no_ops = record { read = 0; write = 0; mkdir = 0; mkfile = 0; delfile = 0; deldir = 0 }

-- a node of zeroes
abbrev pub zero_node : VfsNode
zero_node = record {
  name = [];
  size = 0;
  type = vfs_node_file;
  del_flag = false;
  ops = no_ops;
  offset = 0;
  parent = 0;
  children = 0;
  children_count = 0;
  child_id = 0;
  ptr = 0;
  device = 0;
  device_id = 0;
}

pub record Vfs : Type 0 where
  pub pmm : Pmm
  pub nodes : Ptr → VfsNode
  pub arrays : Ptr → List Ptr
  pub root : Ptr

abbrev pub is_directory : NodeType → Bool
is_directory vfs_node_directory = true
is_directory _ = false

abbrev pub is_mountpoint : NodeType → Bool
is_mountpoint vfs_node_mountpoint = true
is_mountpoint _ = false

abbrev pub is_file_or_device : NodeType → Bool
is_file_or_device vfs_node_file = true
is_file_or_device vfs_node_device = true
is_file_or_device _ = false

abbrev pub put_node : Vfs → Ptr → VfsNode → Vfs
put_node s p node = record s { nodes = λ q. if p == q then node else s.nodes q }

abbrev pub put_array : Vfs → Ptr → List Ptr → Vfs
put_array s p array = record s { arrays = λ q. if p == q then array else s.arrays q }

-- the first `children_count` entries of a node's array
abbrev pub children_of : Vfs → Ptr → List Ptr
children_of s p = take (s.nodes p).children_count (s.arrays (s.nodes p).children)

-- `pmm_calloc(sizeof(vfs_node))`, for a node and for an array
unfoldable pub calloc_node : Vfs → Ptr × Vfs
calloc_node s =
    let (p, pmm') = pmm_alloc s.pmm sizeof_node in
    (p, put_node (record s { pmm = pmm' }) p zero_node)

unfoldable pub calloc_array : Vfs → Ptr × Vfs
calloc_array s =
    let (p, pmm') = pmm_alloc s.pmm sizeof_node in (p, put_array (record s { pmm = pmm' }) p [])

abbrev pub tail_of : List Ptr → List Ptr
tail_of [] = []
tail_of (c ∷ cs) = cs

-- The first `n` entries of an array `new` when `k` entries of `old` have been copied to it.
unfoldable pub copied : ℕ → ℕ → List Ptr → List Ptr → List Ptr
copied zero k old new = []
copied (suc n) k old new =
    (if k == 0 then get_or new 0 0 else get_or old 0 0)
    ∷ copied n (k - 1) (tail_of old) (tail_of new)

-- the number of bytes for the children of a node and one more, a u64
abbrev pub array_bytes : VfsNode → ℕ
array_bytes p = sizeof_ptr * (p.children_count + 1) % 2 ^ 64

-- The node as the last child of the parent, with the array that has been allocated for the children:
-- `pmm_realloc` has copied the children that there were, as far as its number of bytes, a u32 in
-- `memcpy`, goes.
unfoldable pub with_child : Vfs → Ptr → Ptr → Ptr → Pmm → Vfs
with_child s parent node array pmm' =
    let p = s.nodes parent in
    let count = p.children_count + 1 in
    let freed : Vfs = record s { pmm = pmm_free pmm' p.children } in
    let size = array_bytes p % 2 ^ 32 in
    let kept = copied p.children_count (size / 8) (children_of s parent) (s.arrays array) in
    let filled = put_array freed array (kept ++ (node ∷ [])) in
    let grown = put_node filled parent (record p { children = array; children_count = count }) in
    put_node grown node (record (grown.nodes node) { child_id = count - 1; parent = parent })

-- The result is 0 or 1.
unfoldable pub vfs_add_node : Vfs → Ptr → Ptr → Option (ℕ × Vfs)
vfs_add_node s parent node =
    let p = s.nodes parent in
    let (array, pmm') = pmm_alloc s.pmm (array_bytes p) in
    let added : Option (ℕ × Vfs) = some (1, with_child s parent node array pmm') in
    if is_directory p.type then (if array == 0 then none else added) else some (0, s)

-- May a node be made in this one?
abbrev pub takes_nodes : VfsNode → Bool
takes_nodes p = is_directory p.type && not p.del_flag

-- The call of a function of the parent, if it has one, behind `vfs_add_node`; then the new node.
abbrev pub then_call : (Vfs → Vfs) → Ptr → Ptr → Option (ℕ × Vfs) → Option (Ptr × Vfs)
then_call f op node none = none
then_call f op node (some (status, s)) = some (node, if op == 0 then s else f s)

-- The arguments of `call` are the function, the parent, the node and the name.
module _ (call : Ptr → Ptr → Ptr → List ℕ → Vfs → Vfs) where
  unfoldable pub vfs_mkdir : Vfs → Ptr → List ℕ → Option (Ptr × Vfs)
  vfs_mkdir s parent name =
      let (node, s1) = calloc_node s in
      let (array, s2) = calloc_array s1 in
      let made = put_node s2 node (record (s2.nodes node) {
        children = array;
        children_count = 0;
        type = vfs_node_directory;
        del_flag = false;
        name = name;
      }) in
      let op = (s.nodes parent).ops.mkdir in
      let added = then_call (call op parent node name) op node (vfs_add_node made parent node) in
      if takes_nodes (s.nodes parent)
      then (if node == 0 then some (0, s1) else if ltb (length name) 256 then added else none)
      else some (0, s)

  unfoldable pub vfs_mkfile : Vfs → Ptr → List ℕ → Option (Ptr × Vfs)
  vfs_mkfile s parent name =
      let (node, s1) = calloc_node s in
      let made =
        put_node s1 node
          (record (s1.nodes node) { del_flag = false; type = vfs_node_file; name = name }) in
      let op = (s.nodes parent).ops.mkfile in
      let added = then_call (call op parent node name) op node (vfs_add_node made parent node) in
      if takes_nodes (s.nodes parent)
      then (if node == 0 then some (0, s1) else if ltb (length name) 256 then added else none)
      else some (0, s)

  -- The functions are called without a test.
  unfoldable pub vfs_deldir : Vfs → Ptr → ℕ × Vfs
  vfs_deldir s node =
      let s1 = call (s.nodes node).ops.deldir node node [] s in
      let p = pmm_free (pmm_free s1.pmm (s1.nodes node).children) node in
      (1, if is_directory (s.nodes node).type then record s1 { pmm = p } else s)

  unfoldable pub vfs_delfile : Vfs → Ptr → ℕ × Vfs
  vfs_delfile s node =
      let s1 = call (s.nodes node).ops.delfile node node [] s in
      (1, if is_directory (s.nodes node).type then record s1 { pmm = pmm_free s1.pmm node } else s)

-- A mount on NULL, on a mount point or on another node that is no directory changes nothing.
unfoldable pub vfs_mount : Vfs → Ptr → Ptr → Vfs
vfs_mount s mountpoint filesystem =
    let node = s.nodes mountpoint in
    if (mountpoint == 0) || not (is_directory node.type)
    then s
    else put_node s mountpoint (record node { type = vfs_node_mountpoint; ptr = filesystem })

-- The arguments of `call` are the function, the node, the size, the offset and the buffer.
module _ {ℓ} {S : Type ℓ} (call : Ptr → Ptr → ℕ → ℕ → Ptr → S → ℕ × S) where
  unfoldable pub vfs_read : Vfs → Ptr → ℕ → ℕ → Ptr → S → ℕ × S
  vfs_read v node size offset buffer s =
      let op = (v.nodes node).ops.read in
      if op == 0 then (0, s) else call op node size offset buffer s

  unfoldable pub vfs_write : Vfs → Ptr → ℕ → ℕ → Ptr → S → ℕ × S
  vfs_write v node size offset buffer s =
      let op = (v.nodes node).ops.write in
      if op == 0 then (0, s) else call op node size offset buffer s
