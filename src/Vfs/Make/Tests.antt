-- ===== src/Vfs/Make/Tests.antt =====
-- A run of vfs_mkdir: "dev" in an empty root, with three free blocks.
use osakauss.Common.{ℕ, ◌+◌, ◌*◌, ◌%◌, ◌^◌, ◌≡◌, refl, true, List, [], some, arith}
use osakauss.Bitmap.{
  bit_map_get_bit, bit_map_set_bit, bit_map_clr_bit, get_bit, set_bit, clr_bit, sector_of,
}
use osakauss.Bits.Word.{sar, shl_one, complement}
use osakauss.Klibc.Mem.{Ptr}
use osakauss.Format.{codes}
use osakauss.Pmm.{Pmm, pmm_alloc, find_section, get_block, set_block, set_blocks, take_section}
use osakauss.Vfs.{
  Vfs, VfsNode, vfs_node_directory, zero_node, sizeof_ptr, calloc_node, calloc_array, vfs_mkdir,
}
use osakauss.Vfs.Lookup.{first_child}
use osakauss.Vfs.Make.{new_node, new_array, new_dir, CanMake, Made, vfs_mkdir-Made}

abbrev blocks : Pmm
blocks = record {
  start_address = 0x1000;
  end_address = 0x1000;
  bitmap_ = record { bitmap = λ _. 0; bitmap_setup = true; entries = 3 };
  bitmap_at = 0x1000;
  block_entries = λ _. 0;
  block_entries_at = 0x1006;
}

abbrev root_node : VfsNode
root_node = record zero_node { type = vfs_node_directory; name = codes "/"; children = 0x9000 }

abbrev tree : Vfs
tree = record { pmm = blocks; nodes = λ p. root_node; arrays = λ p. []; root = 100 }

abbrev nothing : Ptr → Ptr → Ptr → List ℕ → Vfs → Vfs
nothing op parent node name s = s

node_at : new_node tree ≡ 0x1000
unfolding calloc_node pmm_alloc find_section get_block bit_map_get_bit get_bit sector_of sar
    take_section
node_at = refl

array_at : new_array tree ≡ 0x2000
unfolding calloc_node calloc_array pmm_alloc find_section get_block set_block set_blocks
    bit_map_get_bit bit_map_set_bit bit_map_clr_bit get_bit set_bit clr_bit sector_of sar shl_one
    complement take_section
array_at = refl

third_at :
    (pmm_alloc
      (new_dir tree (codes "dev")).pmm
      (sizeof_ptr * (root_node.children_count + 1) % 2 ^ 64)).0
    ≡ 0x3000
unfolding calloc_node calloc_array pmm_alloc find_section get_block set_block set_blocks
    bit_map_get_bit bit_map_set_bit bit_map_clr_bit get_bit set_bit clr_bit sector_of sar shl_one
    complement take_section
third_at = refl

tree-CanMake : CanMake tree 100 (codes "dev")
unfolding first_child
tree-CanMake = record {
  takes = refl;
  no_op = refl;
  few = omega arith;
  fits = omega arith;
  full = refl;
  new = refl;
  real = λ e. absurd (omega (arith, node_at, e));
  other = λ e. absurd (omega (arith, node_at, e));
  apart = tt;
  unused = λ e. absurd (omega (arith, array_at, e));
  room = λ e. absurd (omega (arith, third_at, e));
}

vfs_mkdir-Made_example :
    (s' : Vfs) × (vfs_mkdir nothing tree 100 (codes "dev") ≡ some (new_node tree, s'))
    × Made tree 100 (codes "dev") s'
vfs_mkdir-Made_example = vfs_mkdir-Made nothing tree 100 (codes "dev") tree-CanMake
