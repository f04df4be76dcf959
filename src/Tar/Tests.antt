-- ===== src/Tar/Tests.antt =====
-- Runs of kernel/fs/tar.c.
use osakauss.Common.{
  ℕ, ◌-◌, ◌+◌, ◌<◌, ◌≤◌, ◌≡◌, refl, [], ◌∷◌, none, some, min, arith, get_or, Bool, true, ◌&&◌, leb,
}
use osakauss.Common.Table.{check_all, check_all-entry}
use osakauss.Common.Int.{pos}
use osakauss.Vfs.{VfsNode, zero_node}
use osakauss.Tar.{getsize, tar_read}
use osakauss.Tar.Laws.{octal, Octal, getsize-octal, tar_read_lem}

-- the size field "00000001750"
abbrev field : ℕ → ℕ
field j = get_or (48 ∷ 48 ∷ 48 ∷ 48 ∷ 48 ∷ 48 ∷ 48 ∷ 49 ∷ 55 ∷ 53 ∷ 48 ∷ []) j 48

octal-field : octal field 11 ≡ 1000
unfolding octal
octal-field = refl

field_row : ℕ → Bool
field_row j = leb 48 (field j) && leb (field j) 55

field_row-true : check_all field_row 11 ≡ true
unfolding check_all field_row
field_row-true = refl

field-Octal : Octal field 11
unfolding field_row
field-Octal j lt =
    let row : field_row j ≡ true = check_all-entry field_row 11 j lt field_row-true in
    (ground (arith, row), ground (arith, row))

getsize-octal_example : getsize field ≡ octal field 11
getsize-octal_example = getsize-octal field field-Octal (omega (arith, octal-field))

-- a file of 1000 bytes at 512
abbrev file : VfsNode
file = record zero_node { size = 1000; offset = 512 }

tar_read_lem_example :
    (file.size ≤ 900 → tar_read file 200 900 ≡ (pos 0, none))
    × (900 < file.size
        → tar_read file 200 900
          ≡ (pos (min 200 (file.size - 900)), some (min 200 (file.size - 900), file.offset + 900)))
tar_read_lem_example = tar_read_lem file 200 900 (omega arith) (omega arith) (omega arith)
