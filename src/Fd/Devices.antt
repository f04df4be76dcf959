-- ===== src/Fd/Devices.antt =====
-- kernel/fs/devfs.c: where the file system of the devices is found.
use osakauss.Common.{
  ℕ, ◌≡◌, ◌≢◌, refl, sym, ap, ◌∙◌, inl, inr, eq_cases, ==_iff, true, false, List, [], ◌∷◌, some,
  ==_ne,
}
use osakauss.Klibc.Mem.{Ptr}
use osakauss.Format.{codes}
use osakauss.Vfs.{
  Vfs, VfsNode, vfs_node_directory, is_directory, children_of, calloc_node, calloc_array, vfs_mkdir,
  vfs_mount,
}
use osakauss.Vfs.Find.{enter, get_dir_loop, vfs_get_dir}
use osakauss.Vfs.Lookup.{first_child, resolve-hit, resolve-nil, get_dir_loop-resolve}
use osakauss.Vfs.Children.{first_child-same, vfs_mount-enter}
use osakauss.Vfs.Make.{
  new_node, new_array, fresh, fresh_root, Apart, fresh-other, fresh-children, fresh-first, CanMake,
  Made, vfs_mkdir-Made,
}
use osakauss.Fd.{with_list, devfs_init}

module _ (s : Vfs) (mountpoint filesystem : Ptr) (real : mountpoint ≢ 0)
    (dir : is_directory (s.nodes mountpoint).type ≡ true) where
  -- A mount changes no name,
  vfs_mount_names :
      (p : Ptr) → ((vfs_mount s mountpoint filesystem).nodes p).name ≡ (s.nodes p).name
  unfolding vfs_mount
  vfs_mount_names p = elim (eq_cases mountpoint p) [
    | inl same ↦
        rw (vfs_mount, ==_ne mountpoint 0 real, dir, (==_iff mountpoint p).1 same)
          (ap (λ q. (s.nodes q).name) same)
    | inr differs ↦ rw (vfs_mount, ==_ne mountpoint 0 real, dir, ==_ne mountpoint p differs) refl
  ]

  -- no children of another node,
  vfs_mount_children :
      (p : Ptr)
      → mountpoint ≢ p
      → children_of (vfs_mount s mountpoint filesystem) p ≡ children_of s p
  unfolding vfs_mount
  vfs_mount_children p other =
      rw (vfs_mount, ==_ne mountpoint 0 real, dir, ==_ne mountpoint p other) refl

  -- and not the root.
  vfs_mount_root : (vfs_mount s mountpoint filesystem).root ≡ s.root
  unfolding vfs_mount
  vfs_mount_root = rw (vfs_mount, ==_ne mountpoint 0 real, dir) refl

abbrev pub dev : List ℕ
dev = codes "dev"

-- the file system of the devices, before it is mounted
abbrev pub dev_node : Vfs → VfsNode
dev_node s1 = record ((calloc_array (calloc_node s1).1).1.nodes (new_node s1)) {
  children = new_array s1;
  children_count = 0;
  type = vfs_node_directory;
  name = dev;
}

-- What the memory manager has to give out behind `vfs_mkdir`.
pub record CanMount (s s1 : Vfs) : Type 0 where
  pub real : new_node s1 ≢ 0
  pub other : s.root ≢ new_node s1
  pub other_dir : new_node s ≢ new_node s1
  pub apart : Apart (new_node s1) (children_of s1 s.root)
  pub unused : (s1.nodes s.root).children ≢ new_array s1

mounted-found :
    (s s1 : Vfs)
    → CanMake s s.root dev
    → CanMount s s1
    → Made s s.root dev s1
    → vfs_get_dir (vfs_mount (fresh s1 (dev_node s1)) (new_node s) (new_node s1)) (dev ∷ [])
      ≡ new_node s1
unfolding vfs_get_dir
mounted-found s s1 h k made =
    let mp = new_node s in
    let s4 = fresh s1 (dev_node s1) in
    let s' = vfs_mount s4 mp (new_node s1) in
    let dir : is_directory (s4.nodes mp).type ≡ true =
      rw (fresh-other s1 (dev_node s1) mp k.other_dir, made.dir) refl in
    let apart : mp ≢ s.root = λ e. h.other (sym e) in
    let root : s'.root ≡ s.root =
      vfs_mount_root s4 mp (new_node s1) h.real dir ∙ fresh_root s1 (dev_node s1) ∙ made.root in
    let children : children_of s' s.root ≡ children_of s1 s.root =
      vfs_mount_children s4 mp (new_node s1) h.real dir s.root apart
      ∙ fresh-children s1 (dev_node s1) s.root k.other k.unused in
    let first : first_child s' dev (children_of s' s.root) ≡ some mp =
      ap (first_child s' dev) children
      ∙ first_child-same s4 s' dev (children_of s1 s.root)
          (vfs_mount_names s4 mp (new_node s1) h.real dir)
      ∙ fresh-first s1 (dev_node s1) dev (children_of s1 s.root) k.apart
      ∙ made.first in
    ap (λ r. get_dir_loop s' (dev ∷ []) r false) root
    ∙ get_dir_loop-resolve s' (dev ∷ []) s.root false (
        resolve-hit s' dev [] s.root mp first
        ∙ resolve-nil s' (enter s' s.root (some mp))
        ∙ ap some (vfs_mount-enter s4 mp (new_node s1) s.root h.real dir))

-- Where, behind the list of the look-up of "/", which stays allocated, "dev" can be made in the root, and
-- behind that a node and an array that are in use nowhere are given out, `devfs_init` succeeds, and the look-up of "/dev" then gives the root of the devices' file system
-- and not the directory that it is mounted on.
pub devfs_init-found :
    (call : Ptr → Ptr → Ptr → List ℕ → Vfs → Vfs) (s s1 : Vfs)
    → CanMake (with_list s) s.root dev
    → vfs_mkdir call (with_list s) s.root dev ≡ some (new_node (with_list s), s1)
    → CanMount (with_list s) s1
    → (s' : Vfs) × (devfs_init call s ≡ some (true, s', new_node s1))
      × (vfs_get_dir s' (dev ∷ []) ≡ new_node s1)
      × (new_node (with_list s) ≢ new_node s1)
unfolding devfs_init vfs_get_dir calloc_node calloc_array
devfs_init-found call s s1 h run k =
    let s0 = with_list s in
    let (s2, run2, made2) = vfs_mkdir-Made call s0 s.root dev h in
    let same : s2 ≡ s1 = cc (run, run2) in
    let made : Made s0 s.root dev s1 = rw same at made2 in
    (
      vfs_mount (fresh s1 (dev_node s1)) (new_node s0) (new_node s1),
      rw (devfs_init, run, ==_ne (new_node s0) 0 h.real, ==_ne (new_node s1) 0 k.real) refl,
      mounted-found s0 s1 h k made,
      k.other_dir,
    )
