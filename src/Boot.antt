-- ===== src/Boot.antt =====
-- kernel/main.c: what the kernel takes from the boot loader (include/stivale2.h), a list of linked tags,
-- and the search for the initial disk among the modules. The tags are a typed store over addresses;
-- `none` is a list without an end, a wait of the log, or behaviour that C leaves undefined.
pub mod Laws
pub mod Start
mod Tests
use osakauss.Common.{
  ℕ, zero, suc, Bool, true, false, List, [], ◌∷◌, ◌++◌, Option, none, some, ◌==◌, if◌then◌else◌,
}
use osakauss.Format.{codes, text, word}
use osakauss.Klibc.Mem.{Ptr}
use osakauss.Log.{Log, logf}
use osakauss.Vfs.Find.{name_eq}

pub record Tag : Type 0 where
  pub identifier : ℕ
  pub next : Ptr

-- `struct stivale2_struct`
pub record BootInfo : Type 0 where
  pub brand : List ℕ
  pub version : List ℕ
  pub tags : Ptr

pub record Module : Type 0 where
  pub begin : ℕ
  pub end : ℕ
  pub string : List ℕ

abbrev pub modules_id : ℕ
modules_id = 0x4b6fe466aade04ce

abbrev pub framebuffer_id : ℕ
framebuffer_id = 0x506461d2950408fa

abbrev pub memmap_id : ℕ
memmap_id = 0x2187f79e8612de07

-- the loop, from the tag `current_tag`; fuel for the tags that it looks at
unfoldable pub get_tag_loop : ℕ → (Ptr → Tag) → Ptr → ℕ → Option Ptr
get_tag_loop zero tags current_tag id = none
get_tag_loop (suc fuel) tags current_tag id =
    let rest = get_tag_loop fuel tags (tags current_tag).next id in
    if current_tag == 0
    then some 0
    else if (tags current_tag).identifier == id
    then some current_tag
    else rest

unfoldable pub stivale2_get_tag : ℕ → (Ptr → Tag) → BootInfo → ℕ → Option Ptr
stivale2_get_tag fuel tags info id = get_tag_loop fuel tags info.tags id

abbrev pub initrd_module_name : List ℕ
initrd_module_name = codes "initrd"

-- the macro `tracef` in the function `func`, with NULL for its argument
abbrev pub tracef : (ℕ → ℕ → ℕ) → Bool → Log → List ℕ → List ℕ → Option Log
tracef font trace l func fmt =
    if trace then logf font l (codes "%s :: " ++ fmt) (text func ∷ word 0 ∷ []) else some l

abbrev pub with_log {ℓ} : {S : Type ℓ} → S → Option Log → Option (S × Log)
with_log s none = none
with_log s (some l) = some (s, l)

-- `initrd_init`, which stands in no file of the repository, is an argument: it may change the state and
-- write to the log, and `none` is that it does not return.
module _ {ℓ} {S : Type ℓ} (initrd_init : ℕ → ℕ → S × Log → Option (S × Log)) where
  abbrev pub with_found : Option (S × Log) → Option (Bool × (S × Log))
  with_found none = none
  with_found (some r) = some (true, r)

  -- the loop over the modules, with `found`
  unfoldable pub find_initrd : List Module → S × Log → Option (Bool × (S × Log))
  find_initrd [] r = some (false, r)
  find_initrd (m ∷ modules) r =
      if name_eq m.string initrd_module_name
      then with_found (initrd_init m.begin m.end r)
      else find_initrd modules r

  unfoldable pub init_initrd : (ℕ → ℕ → ℕ) → Bool → List Module → S → Log → Option (S × Log)
  init_initrd font trace modules s l = elim (find_initrd modules (s, l)) [
    | none ↦ none
    | some r ↦
        let (found, (s', l')) = r in
        with_log s' (
          tracef font trace l' (codes "init_initrd") (
            if found
            then codes "Found initrd and mounted\n"
            else codes "Couldn't find initrd in list of modules\n"))
  ]
