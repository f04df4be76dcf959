-- ===== src/Fd.antt =====
-- kernel/fs/fd.c, kernel/fs/devfs.c and vfs_init of kernel/fs/vfs.c, which sets up both: file descriptors, which are indices into a dynamic list of
-- nodes, and the file system of the devices.

pub mod Devices
mod Tests
use osakauss.Common.{
  ℕ, ◌+◌, ◌-◌, ◌*◌, ◌%◌, ◌^◌, Bool, true, false, ◌||◌, List, [], ◌∷◌, Option, none, some, ◌==◌,
  if◌then◌else◌,
}
use osakauss.Common.Int.{ℤ, pos, negsuc}
use osakauss.Klibc.Mem.{Ptr}
use osakauss.Dynlist.{Dl, dl_init, dl_init_capacity, dl_set, dl_get}
use osakauss.Pmm.{pmm_alloc}
use osakauss.Vfs.{
  Vfs, VfsNode, sizeof_ptr, vfs_node_directory, vfs_node_device, calloc_node, calloc_array,
  put_node, vfs_add_node, vfs_mkdir, vfs_mount, vfs_read, vfs_write,
}
use osakauss.Vfs.Find.{vfs_get_dir}

-- `fds`
unfoldable pub fd_init : Dl → Dl
fd_init fds = dl_init fds

-- The root of the tree, and then the descriptors. The pointers that `pmm_calloc` returns are not tested.
unfoldable pub vfs_init : Vfs → Dl → Vfs × Dl
vfs_init s fds =
    let (root, s1) = calloc_node s in
    let (array, s2) = calloc_array s1 in
    let set_up =
      put_node (record s2 { root = root }) root
        (record (s2.nodes root) {
          children = array;
          children_count = 0;
          type = vfs_node_directory;
          name = b'/' ∷ [];
          del_flag = false;
        }) in
    let fds' = fd_init (record fds { pmm = set_up.pmm }) in (record set_up { pmm = fds'.pmm }, fds')

unfoldable pub fd_remove : Dl → ℤ → Dl
fd_remove fds fd = (dl_set fds fd 0).1

unfoldable pub fd_close : Dl → ℤ → ℕ × Dl
fd_close fds fd = (1, fd_remove fds fd)

-- The name is not looked at, and nothing is opened.
abbrev pub fd_open : List ℕ → Dl → ℕ × Dl
fd_open name fds = (0, fds)

-- an `int` that is passed as a `u32`
abbrev pub to_u32 : ℤ → ℕ
to_u32 (pos n) = n % 2 ^ 32
to_u32 (negsuc n) = (2 ^ 32 - (n + 1) % 2 ^ 32) % 2 ^ 32

-- `call` is what the functions of the nodes do, as for `vfs_read`.
module _ {ℓ} {S : Type ℓ} (call : Ptr → Ptr → ℕ → ℕ → Ptr → S → ℕ × S) where
  unfoldable pub fd_read : Vfs → Dl → ℤ → ℤ → ℤ → Ptr → S → ℕ × S
  fd_read v fds fd size offset buffer s =
      vfs_read call v (dl_get fds fd) (to_u32 size) (to_u32 offset) buffer s

  unfoldable pub fd_write : Vfs → Dl → ℤ → ℤ → ℤ → Ptr → S → ℕ × S
  fd_write v fds fd size offset buffer s =
      vfs_write call v (dl_get fds fd) (to_u32 size) (to_u32 offset) buffer s

-- The tree and `devfs_root`. The pointer that `pmm_calloc` returns is not tested.
unfoldable pub add_new_device : Vfs → Ptr → ℕ → List ℕ → Ptr → Ptr → Option Vfs
add_new_device s devfs_root device_id name write read =
    let (p, s1) = calloc_node s in
    let node : VfsNode = s1.nodes p in
    let made = put_node s1 p (record node {
      name = name;
      ops = record node.ops { write = write; read = read };
      type = vfs_node_device;
      device_id = device_id;
    }) in
    elim (vfs_add_node made devfs_root p) [ none ↦ none | some (status, s2) ↦ some s2 ]

-- What `vfs_get_dir("/")` leaves of the memory: the list of the names, which are none, is not freed.
abbrev pub with_list : Vfs → Vfs
with_list s = record s { pmm = (pmm_alloc s.pmm (sizeof_ptr * dl_init_capacity)).1 }

-- The result is whether it has worked, the tree, and `devfs_root` (0 where it is not set).
unfoldable pub devfs_init : (Ptr → Ptr → Ptr → List ℕ → Vfs → Vfs) → Vfs → Option (Bool × Vfs × Ptr)
devfs_init call s =
    let dev : List ℕ = b'd' ∷ b'e' ∷ b'v' ∷ [] in
    let s0 = with_list s in
    elim (vfs_mkdir call s0 (vfs_get_dir s []) dev) [
      | none ↦ none
      | some made ↦
          let (dev_mountpoint, s1) = made in
          let (dev_fs, s2) = calloc_node s1 in
          let (array, s3) = calloc_array s2 in
          let s4 = put_node s3 dev_fs (record (s3.nodes dev_fs) {
            children = array;
            children_count = 0;
            type = vfs_node_directory;
            name = dev;
          }) in
          some (
            if (dev_mountpoint == 0) || (dev_fs == 0)
            then (false, s2, 0)
            else (true, vfs_mount s4 dev_mountpoint dev_fs, dev_fs))
    ]
