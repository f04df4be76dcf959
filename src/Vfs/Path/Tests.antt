-- ===== src/Vfs/Path/Tests.antt =====
-- A run of the look-up of a path in memory: "/d/t" from 16 on, in a tree without children.
use osakauss.Common.{
  ℕ, ◌-◌, ◌<◌, ◌≤◌, ◌≡◌, refl, true, false, List, [], ◌∷◌, some, get_or, length, arith,
}
use osakauss.Klibc.Mem.{Memory, Ptr}
use osakauss.Klibc.Str.Laws.{IsString}
use osakauss.Pmm.{Pmm, pmm_alloc}
use osakauss.Format.{codes}
use osakauss.Dynlist.{Dl, dl_init}
use osakauss.Dynlist.Laws.{contents}
use osakauss.Vfs.{Vfs, zero_node}
use osakauss.Vfs.Lookup
use osakauss.Vfs.Path.{Tokens, vfs_token_path, get_dir_at}
use osakauss.Vfs.Path.Names.{parts, names}
use osakauss.Vfs.Path.Laws.{Strings, vfs_token_path-names, get_dir_at-Outcome}

abbrev path : List ℕ
path = codes "/d/t"

abbrev strings : Memory
strings a = get_or path (a - 16) 0

path-IsString : IsString strings 16 path
path-IsString = (
  refl,
  omega arith,
  omega arith,
  (
    refl,
    omega arith,
    omega arith,
    (refl, omega arith, omega arith, (refl, omega arith, omega arith, refl)),
  ),
)

names-path : names path ≡ codes "d" ∷ codes "t" ∷ []
unfolding names parts
names-path = refl

few : length (names path) ≤ 6
unfolding names parts
few = omega arith

-- three free blocks from address 0x1000 on
abbrev blocks : Pmm
blocks = record {
  start_address = 0x1000;
  end_address = 0x1000;
  bitmap_ = record { bitmap = λ _. 0; bitmap_setup = true; entries = 3 };
  bitmap_at = 0x1000;
  block_entries = λ _. 0;
  block_entries_at = 0x1006;
}

abbrev empty : Dl
empty = record { items = 0; capacity = 0; total = 0; cells = λ a i. 0; pmm = blocks }

abbrev tree : Vfs
tree = record { pmm = blocks; nodes = λ p. zero_node; arrays = λ p. []; root = 100 }

vfs_token_path-names_example :
    (k : Tokens) × (vfs_token_path 9 strings 0 16 empty ≡ some k)
    × Strings k.mem (contents k.list) (names path)
    × ((a : ℕ) → a < 16 → k.mem a ≡ strings a)
    × (k.list.pmm ≡ (dl_init empty).pmm)
vfs_token_path-names_example =
    vfs_token_path-names 9 strings 0 16 empty path (omega arith) path-IsString (omega arith) few

get_dir_at-Outcome_example :
    (r : Ptr) × (m' : Memory) × (get_dir_at 9 tree (λ a i. 0) strings 0 16
      ≡ some (r, record tree { pmm = (pmm_alloc tree.pmm 48).1 }, m'))
    × Lookup.Outcome tree tree.root false (names path) r
get_dir_at-Outcome_example =
    get_dir_at-Outcome 9 tree (λ a i. 0) strings 0 16 path (omega arith) path-IsString (omega arith)
      (omega arith) few
