-- ===== src/Vfs/Path.antt =====
-- vfs_token_path of kernel/fs/vfs.c, and the look-up of a path that stands in memory: how the names of
-- a path get from `strtok` into a dynamic list. `none` is fuel that has run out.
pub mod Names
pub mod Laws
mod Tests
use osakauss.Common.{ℕ, zero, suc, List, [], ◌∷◌, Option, none, some, ◌==◌, if◌then◌else◌}
use osakauss.Klibc.Mem.{Memory, Ptr}
use osakauss.Klibc.Str.{strlen, Token, strtok}
use osakauss.Klibc.Num.Bytes.{bytes}
use osakauss.Dynlist.{Dl, dl_init, dl_push}
use osakauss.Dynlist.Laws.{contents}
use osakauss.Vfs.{Vfs}
use osakauss.Vfs.Find.{vfs_get_dir}

-- the delimiters
abbrev pub slash : List ℕ
slash = b'/' ∷ []

-- What the loop leaves: the list, and the memory and `backup_string` of `strtok`.
pub record Tokens : Type 0 where
  pub list : Dl
  pub mem : Memory
  pub backup : Ptr

-- The loop, with the call of `strtok` for the next name in front: on `path` for the first, and then on
-- NULL. What `push` returns is not tested.
unfoldable pub token_loop : ℕ → ℕ → Memory → Ptr → Ptr → Dl → Option Tokens
token_loop zero fuel m backup path t = none
token_loop (suc rounds) fuel m backup path t = elim (strtok fuel m backup path slash) [
  | none ↦ none
  | some name ↦
      let rest = token_loop rounds fuel name.mem name.backup 0 (dl_push t name.token).1 in
      if name.token == 0
      then some (record { list = t; mem = name.mem; backup = name.backup })
      else rest
]

unfoldable pub vfs_token_path : ℕ → Memory → Ptr → Ptr → Dl → Option Tokens
vfs_token_path fuel m backup path t = token_loop fuel fuel m backup path (dl_init t)

-- the strings at the addresses of a list
unfoldable pub strings_at : ℕ → Memory → List Ptr → Option (List (List ℕ))
strings_at fuel m [] = some []
strings_at fuel m (p ∷ ps) = elim (strlen fuel m p) [
  | none ↦ none
  | some n ↦ elim (strings_at fuel m ps) [ none ↦ none | some names ↦ some (bytes m p n ∷ names) ]
]

-- The names of the list are compared where they stand, in the memory of the path. The list is not freed.
unfoldable pub get_dir_at :
    ℕ → Vfs → (Ptr → ℕ → Ptr) → Memory → Ptr → Ptr → Option (Ptr × Vfs × Memory)
get_dir_at fuel v cells m backup path =
    let t : Dl = record { items = 0; capacity = 0; total = 0; cells = cells; pmm = v.pmm } in
    elim (vfs_token_path fuel m backup path t) [
      | none ↦ none
      | some tokens ↦ elim (strings_at fuel tokens.mem (contents tokens.list)) [
        | none ↦ none
        | some names ↦ some (vfs_get_dir v names, record v { pmm = tokens.list.pmm }, tokens.mem)
      ]
    ]
