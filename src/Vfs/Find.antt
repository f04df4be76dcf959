-- ===== src/Vfs/Find.antt =====
-- kernel/fs/vfs.c: the look-ups of a path, which is given by the names between its slashes.
use osakauss.Common.{
  ℕ, ◌+◌, Bool, true, false, ◌&&◌, List, [], ◌∷◌, Option, none, some, ◌==◌, if◌then◌else◌, length,
}
use osakauss.Klibc.Mem.{Ptr}
use osakauss.Vfs.{Vfs, is_file_or_device, is_mountpoint, children_of}

-- `strcmp(…) == 0`
abbrev pub name_eq : List ℕ → List ℕ → Bool
name_eq [] [] = true
name_eq [] (d ∷ t) = false
name_eq (c ∷ s) [] = false
name_eq (c ∷ s) (d ∷ t) = (c == d) && name_eq s t

-- The inner loop over the children: the child that it stops at, and `found_child`.
unfoldable pub search : Vfs → List ℕ → List Ptr → Bool → Option Ptr × Bool
search s token [] found_child = (none, found_child)
search s token (c ∷ cs) found_child =
    if name_eq (s.nodes c).name token then (some c, true) else search s token cs false

-- the node that the loop goes on with
abbrev pub enter : Vfs → Ptr → Option Ptr → Ptr
enter s node none = node
enter s node (some c) = if is_mountpoint (s.nodes c).type then (s.nodes c).ptr else c

-- The outer loop over the names of the path.
unfoldable pub get_dir_loop : Vfs → List (List ℕ) → Ptr → Bool → Ptr
get_dir_loop s [] node found_child = node
get_dir_loop s (token ∷ tokens) node found_child =
    let (hit, found) = search s token (children_of s node) found_child in
    let rest = get_dir_loop s tokens (enter s node hit) found in if found then rest else 0

unfoldable pub vfs_get_dir : Vfs → List (List ℕ) → Ptr
vfs_get_dir s [] = s.root
vfs_get_dir s (token ∷ tokens) = get_dir_loop s (token ∷ tokens) s.root false

-- The loop of `vfs_get_file`, with its test on the index.
unfoldable pub get_file_loop : Vfs → ℕ → ℕ → List (List ℕ) → Ptr → Bool → Ptr
get_file_loop s total index [] node found_child = node
get_file_loop s total index (token ∷ tokens) node found_child =
    let (hit, found) = search s token (children_of s node) found_child in
    let rest = get_file_loop s total (index + 1) tokens (enter s node hit) found in
    let on = if found then rest else 0 in
    elim hit [
      | none ↦ on
      | some c ↦
          if total == index then (if is_file_or_device (s.nodes c).type then c else 0) else on
    ]

unfoldable pub vfs_get_file : Vfs → List (List ℕ) → Ptr
vfs_get_file s tokens = get_file_loop s (length tokens) 0 tokens s.root false
