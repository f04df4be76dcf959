-- ===== src/Vfs/Tests.antt =====
-- Runs of kernel/fs/vfs.c on a tree with an empty directory "dev" below the root.
use osakauss.Common.{
  ℕ, ◌+◌, ◌*◌, ◌%◌, ◌^◌, ◌≡◌, refl, ◌≢◌, true, false, List, [], ◌∷◌, none, some, ◌==◌,
  if◌then◌else◌, arith,
}
use osakauss.Bitmap.{bit_map_get_bit, get_bit, sector_of}
use osakauss.Bits.Word.{sar}
use osakauss.Klibc.Mem.{Ptr}
use osakauss.Pmm.{Pmm, pmm_alloc, find_section, get_block, take_section}
use osakauss.Vfs.{
  Vfs, VfsNode, vfs_node_directory, vfs_node_file, zero_node, vfs_add_node, vfs_mount, children_of,
}
use osakauss.Vfs.Find.{vfs_get_dir, vfs_get_file, get_dir_loop, search, enter}
use osakauss.Vfs.Lookup.{first_child, Outcome, vfs_get_dir-Outcome, vfs_get_file-vfs_get_dir}
use osakauss.Vfs.Children.{vfs_add_node_lem, vfs_add_node-found, vfs_mount-enter}

-- three free blocks from address 0x1000 on
abbrev blocks : Pmm
blocks = record {
  start_address = 0x1000;
  end_address = 0x1000;
  bitmap_ = record { bitmap = λ _. 0; bitmap_setup = true; entries = 3 };
  bitmap_at = 0x1000;
  block_entries = λ _. 0;
  block_entries_at = 0x1006;
}

abbrev dev : List ℕ
dev = b'd' ∷ b'e' ∷ b'v' ∷ []

abbrev tty : List ℕ
tty = b't' ∷ b't' ∷ b'y' ∷ []

abbrev root_node : VfsNode
root_node = record zero_node {
  type = vfs_node_directory;
  name = b'/' ∷ [];
  children = 0x9000;
  children_count = 1;
}

abbrev dev_node : VfsNode
dev_node = record zero_node { type = vfs_node_directory; name = dev; children = 0xa000 }

abbrev tty_node : VfsNode
tty_node = record zero_node { type = vfs_node_file; name = tty }

-- the root at 100, "dev" at 200 and a file "tty" that is nowhere in the tree at 300
abbrev tree : Vfs
tree = record {
  pmm = blocks;
  nodes = λ p. if p == 100 then root_node else if p == 200 then dev_node else tty_node;
  arrays = λ p. if p == 0x9000 then 200 ∷ [] else [];
  root = 100;
}

get_dir-dev : vfs_get_dir tree (dev ∷ []) ≡ 200
unfolding vfs_get_dir get_dir_loop search
get_dir-dev = refl

-- "dev" has no children, and yet every path below it is found, and is "dev".
get_dir-below_dev : vfs_get_dir tree (dev ∷ tty ∷ dev ∷ []) ≡ 200
unfolding vfs_get_dir get_dir_loop search
get_dir-below_dev = refl

get_dir-no_tty : vfs_get_dir tree (tty ∷ []) ≡ 0
unfolding vfs_get_dir get_dir_loop search
get_dir-no_tty = refl

vfs_get_dir-Outcome_example :
    Outcome tree 100 false (dev ∷ tty ∷ []) (vfs_get_dir tree (dev ∷ tty ∷ []))
vfs_get_dir-Outcome_example = vfs_get_dir-Outcome tree (dev ∷ tty ∷ [])

vfs_get_file-vfs_get_dir_example : vfs_get_file tree (dev ∷ []) ≡ vfs_get_dir tree (dev ∷ [])
vfs_get_file-vfs_get_dir_example = vfs_get_file-vfs_get_dir tree (dev ∷ [])

alloc_array : (pmm_alloc blocks 16).0 ≡ 0x1000
unfolding pmm_alloc find_section get_block bit_map_get_bit get_bit sector_of sar take_section
alloc_array = refl

alloc_array-NonNull : (pmm_alloc blocks (8 * (root_node.children_count + 1) % 2 ^ 64)).0 ≢ 0
alloc_array-NonNull h = absurd (omega (arith, alloc_array, h))

vfs_add_node_lem_example :
    (s' : Vfs) × (vfs_add_node tree 100 300 ≡ some (1, s'))
    × (children_of s' 100 ≡ 200 ∷ 300 ∷ [])
    × ((s'.nodes 300).parent ≡ 100)
    × ((s'.nodes 300).child_id ≡ 1)
    × ((s'.nodes 300).name ≡ tty)
    × ((s'.nodes 300).type ≡ vfs_node_file)
    × ((p : Ptr) → p ≢ 100 → p ≢ 300 → s'.nodes p ≡ tree.nodes p)
vfs_add_node_lem_example =
    vfs_add_node_lem tree 100 300 refl (omega arith) (omega arith) refl alloc_array-NonNull

no_tty : first_child tree tty (200 ∷ []) ≡ none
unfolding first_child
no_tty = refl

vfs_add_node-found_example :
    (s' : Vfs) × (vfs_add_node tree 100 300 ≡ some (1, s'))
    × (get_dir_loop s' (tty ∷ []) 100 false ≡ 300)
    × (first_child s' tty (children_of s' 100) ≡ some 300)
    × ((s'.nodes 300).type ≡ vfs_node_file)
    × (s'.root ≡ 100)
vfs_add_node-found_example =
    vfs_add_node-found tree 100 300 refl (omega arith) (omega arith) refl alloc_array-NonNull refl
      no_tty

vfs_mount-enter_example : enter (vfs_mount tree 200 500) 100 (some 200) ≡ 500
vfs_mount-enter_example = vfs_mount-enter tree 200 500 100 (omega arith) refl
