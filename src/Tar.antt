-- ===== src/Tar.antt =====
-- kernel/fs/tar.c: the size field of a header, reads within a file, and the walk over an archive. An
-- archive is its bytes from the start of the disk. What `vfs_read` of the disk does is the argument
-- `disk`; allocation is that of the virtual file system, and `none` is a halt of the kernel.
pub mod Laws
mod Tests
use osakauss.Common.{
  ℕ, zero, suc, ◌+◌, ◌-◌, ◌*◌, ◌/◌, ◌%◌, ◌^◌, List, [], ◌∷◌, Option, none, some, ltb, leb, ◌==◌,
  ◌&&◌, if◌then◌else◌,
}
use osakauss.Common.Int.{ℤ, pos}
use osakauss.Format.{signed}
use osakauss.Klibc.Mem.{Ptr}
use osakauss.Vfs.{
  Vfs, VfsNode, vfs_node_directory, vfs_node_file, calloc_node, calloc_array, put_node,
  vfs_add_node,
}

-- The loop of `getsize` over `j`, with `count`, in the arithmetic of an `unsigned int`.
unfoldable pub getsize_from : (ℕ → ℕ) → ℕ → ℕ → ℕ → ℕ
getsize_from digit zero size count = size
getsize_from digit (suc j) size count =
    getsize_from digit j ((size + (digit j + 2 ^ 32 - b'0') % 2 ^ 32 * count) % 2 ^ 32)
      (count * 8 % 2 ^ 32)

unfoldable pub getsize : (ℕ → ℕ) → ℕ
getsize digit = getsize_from digit 11 0 1

-- `read`, the function of a file of the archive: the number of bytes, an `int`, and the read that is
-- passed on, of a size and at an offset of the disk, which are a u32 each.
unfoldable pub tar_read : VfsNode → ℕ → ℕ → ℤ × Option (ℕ × ℕ)
tar_read node size offset =
    let wanted = (offset + size) % 2 ^ 32 in
    let size_read = if ltb node.size wanted then (node.size - offset) % 2 ^ 32 else size in
    if leb node.size offset
    then (pos 0, none)
    else (signed size_read, some (size_read, (node.offset + offset) % 2 ^ 32))

-- one file of an archive
pub record TarFile : Type 0 where
  pub name : List ℕ
  pub size : ℕ
  pub offset : ℕ

-- `offset`, an `int` that is given by its 32 bits, behind a file of the size: the first sum is one of
-- unsigned numbers, and the second one of `int`, of which C leaves an overflow undefined.
unfoldable pub next_offset : ℕ → ℕ → Option ℕ
next_offset offset size =
    let blocks = (offset + (size / 512 + 1) * 512) % 2 ^ 32 in
    let overflow = ltb blocks (2 ^ 31) && leb (2 ^ 31) (blocks + 512) in
    if size % 512 == 0
    then some blocks
    else if overflow
    then none
    else some ((blocks + 512) % 2 ^ 32)

-- `offset + sizeof(struct tar_file_header)`, in 64 bits
unfoldable pub contents_offset : ℕ → ℕ
contents_offset offset =
    if ltb offset (2 ^ 31) then offset + 512 else (offset + (2 ^ 64 - 2 ^ 32) + 512) % 2 ^ 64

-- the node of a file, added to the root
unfoldable pub add_file : Vfs → Ptr → Ptr → Ptr → TarFile → Option Vfs
add_file s root disk read file =
    let (p, s1) = calloc_node s in
    let node : VfsNode = s1.nodes p in
    let made = put_node s1 p (record node {
      size = file.size;
      name = file.name;
      ops = record node.ops { read = read };
      offset = file.offset;
      type = vfs_node_file;
      device = disk;
    }) in
    let added : Option Vfs = elim (vfs_add_node made root p) [
      | none ↦ none
      | some (status, s2) ↦ some s2
    ] in
    if p == 0 then none else added

-- The loop of `tar_parse_filesystem`. `header` gives the name and the bytes of the size field at an
-- offset, or nothing where nothing can be read; the fuel is the number of headers that are looked at,
-- and `none` is also that it has run out, or that `offset` overflows.
unfoldable pub tar_loop :
    ℕ → (ℕ → Option (List ℕ × (ℕ → ℕ))) → Vfs → Ptr → Ptr → Ptr → ℕ → Option Vfs
tar_loop zero header s root disk read offset = none
tar_loop (suc fuel) header s root disk read offset = elim (header offset) [
  | none ↦ some s
  | some h ↦
      let (name, digits) = h in
      let size = getsize digits in
      let file : TarFile = record { name = name; size = size; offset = contents_offset offset } in
      elim name [
        | [] ↦ some s
        | c ∷ cs ↦ elim (add_file s root disk read file) [
          | none ↦ none
          | some s' ↦ elim (next_offset offset size) [
            | none ↦ none
            | some next ↦ tar_loop fuel header s' root disk read next
          ]
        ]
      ]
]

-- The root of the file system, 0 for NULL. `read` is the address of the function `read`.
unfoldable pub tar_parse_filesystem :
    ℕ → (ℕ → Option (List ℕ × (ℕ → ℕ))) → Vfs → Ptr → Ptr → Option (Ptr × Vfs)
tar_parse_filesystem fuel header s disk read =
    let (root, s1) = calloc_node s in
    let (array, s2) = calloc_array s1 in
    let made = put_node s2 root (record (s2.nodes root) {
      children = array;
      children_count = 0;
      type = vfs_node_directory;
    }) in
    let parsed : Option (Ptr × Vfs) = elim (tar_loop fuel header made root disk read 0) [
      | none ↦ none
      | some s' ↦ some (root, s')
    ] in
    if root == 0 then some (0, s1) else if array == 0 then some (0, s2) else parsed
