-- ===== src/Fd/Tests.antt =====
-- A run of devfs_init in an empty root, with eight free blocks.
use osakauss.Common.{ℕ, ◌≡◌, refl, ◌≢◌, true, List, [], ◌∷◌, some, arith}
use osakauss.Bitmap.{
  bit_map_get_bit, bit_map_set_bit, bit_map_clr_bit, get_bit, set_bit, clr_bit, sector_of,
}
use osakauss.Bits.Word.{sar, shl_one, complement}
use osakauss.Klibc.Mem.{Ptr}
use osakauss.Format.{codes}
use osakauss.Pmm.{
  Pmm, pmm_alloc, pmm_free, address2blockoffset, find_section, get_block, set_block, set_blocks,
  take_section,
}
use osakauss.Vfs.{
  Vfs, VfsNode, vfs_node_directory, zero_node, children_of, array_bytes, calloc_node, calloc_array,
  copied, with_child, vfs_add_node, vfs_mkdir,
}
use osakauss.Vfs.Find.{vfs_get_dir}
use osakauss.Vfs.Lookup.{first_child}
use osakauss.Vfs.Make.{new_node, new_array, new_dir, CanMake}
use osakauss.Fd.{with_list, devfs_init}
use osakauss.Fd.Devices.{dev, CanMount, devfs_init-found}

abbrev blocks : Pmm
blocks = record {
  start_address = 0x1000;
  end_address = 0x1000;
  bitmap_ = record { bitmap = λ _. 0; bitmap_setup = true; entries = 8 };
  bitmap_at = 0x1000;
  block_entries = λ _. 0;
  block_entries_at = 0x1006;
}

abbrev root_node : VfsNode
root_node = record zero_node { type = vfs_node_directory; name = codes "/"; children = 0x9000 }

abbrev tree : Vfs
tree = record { pmm = blocks; nodes = λ p. root_node; arrays = λ p. []; root = 100 }

abbrev nothing : Ptr → Ptr → Ptr → List ℕ → Vfs → Vfs
nothing op parent node name s = s

-- the tree behind the look-up of "/"
abbrev listed : Vfs
listed = with_list tree

-- the array for the children of the root, and the tree with "dev"
abbrev root_array : Ptr × Pmm
root_array = pmm_alloc (new_dir listed dev).pmm (array_bytes root_node)

abbrev with_dev : Vfs
with_dev = with_child (new_dir listed dev) 100 (new_node listed) root_array.0 root_array.1

node_at : new_node listed ≡ 0x2000
unfolding calloc_node pmm_alloc find_section get_block set_block set_blocks bit_map_get_bit
    bit_map_set_bit get_bit set_bit sector_of sar shl_one take_section
node_at = refl

array_at : new_array listed ≡ 0x3000
unfolding calloc_node calloc_array pmm_alloc find_section get_block set_block set_blocks
    bit_map_get_bit bit_map_set_bit bit_map_clr_bit get_bit set_bit clr_bit sector_of sar shl_one
    complement take_section
array_at = refl

third_at : root_array.0 ≡ 0x4000
unfolding calloc_node calloc_array pmm_alloc find_section get_block set_block set_blocks
    bit_map_get_bit bit_map_set_bit bit_map_clr_bit get_bit set_bit clr_bit sector_of sar shl_one
    complement take_section
third_at = refl

listed-CanMake : CanMake listed 100 dev
unfolding first_child
listed-CanMake = record {
  takes = refl;
  no_op = refl;
  few = omega arith;
  fits = omega arith;
  full = refl;
  new = refl;
  real = λ e. absurd (omega (arith, node_at, e));
  other = λ e. absurd (omega (arith, node_at, e));
  apart = tt;
  unused = λ e. absurd (omega (arith, array_at, e));
  room = λ e. absurd (omega (arith, third_at, e));
}

mkdir-dev : vfs_mkdir nothing listed 100 dev ≡ some (new_node listed, with_dev)
unfolding vfs_mkdir vfs_add_node with_child calloc_node calloc_array pmm_alloc find_section
    get_block set_block set_blocks bit_map_get_bit bit_map_set_bit bit_map_clr_bit get_bit set_bit
    clr_bit sector_of sar shl_one complement take_section
mkdir-dev = refl

fourth_at : new_node with_dev ≡ 0x5000
unfolding with_child calloc_node calloc_array pmm_alloc pmm_free address2blockoffset find_section
    get_block set_block set_blocks bit_map_get_bit bit_map_set_bit bit_map_clr_bit get_bit set_bit
    clr_bit sector_of sar shl_one complement take_section
fourth_at = refl

fifth_at : new_array with_dev ≡ 0x6000
unfolding with_child calloc_node calloc_array pmm_alloc pmm_free address2blockoffset find_section
    get_block set_block set_blocks bit_map_get_bit bit_map_set_bit bit_map_clr_bit get_bit set_bit
    clr_bit sector_of sar shl_one complement take_section
fifth_at = refl

root_children : children_of with_dev 100 ≡ 0x2000 ∷ []
unfolding with_child calloc_node calloc_array pmm_alloc find_section get_block set_block set_blocks
    bit_map_get_bit bit_map_set_bit bit_map_clr_bit get_bit set_bit clr_bit sector_of sar shl_one
    complement take_section copied
root_children = refl

root_array_at : (with_dev.nodes 100).children ≡ 0x4000
unfolding with_child calloc_node calloc_array pmm_alloc find_section get_block set_block set_blocks
    bit_map_get_bit bit_map_set_bit bit_map_clr_bit get_bit set_bit clr_bit sector_of sar shl_one
    complement take_section
root_array_at = refl

with_dev-CanMount : CanMount listed with_dev
with_dev-CanMount = record {
  real = λ e. absurd (omega (arith, fourth_at, e));
  other = λ e. absurd (omega (arith, fourth_at, e));
  other_dir = λ e. absurd (omega (arith, node_at, fourth_at, e));
  apart = rw root_children ((λ e. absurd (omega (arith, fourth_at, e))), tt);
  unused = λ e. absurd (omega (arith, fifth_at, root_array_at, e));
}

devfs_init-found_example :
    (s' : Vfs) × (devfs_init nothing tree ≡ some (true, s', new_node with_dev))
    × (vfs_get_dir s' (dev ∷ []) ≡ new_node with_dev)
    × (new_node listed ≢ new_node with_dev)
devfs_init-found_example =
    devfs_init-found nothing tree with_dev listed-CanMake mkdir-dev with_dev-CanMount
