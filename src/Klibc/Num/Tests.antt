-- ===== src/Klibc/Num/Tests.antt =====
-- Runs of libs/klibc/libc.c.
use osakauss.Common.{
  ℕ, Bool, true, leb, ◌&&◌, ◌+◌, ◌≤◌, ◌<◌, ◌≡◌, refl, ◌⊎◌, List, [], ◌∷◌, some, length, get_or,
  reverse, if◌then◌else◌, arith,
}
use osakauss.Common.Table.{check_all, check_all-entry}
use osakauss.Common.Int.{pos, negsuc}
use osakauss.Format.{codes, format_i32, format_i32_base, is_negative}
use osakauss.Klibc.Mem.{Memory}
use osakauss.Klibc.Str.Laws.{IsString}
use osakauss.Klibc.Num.{reverse_string, digit_count, oct2bin, oct2bin_from}
use osakauss.Klibc.Num.Laws.{Leaves, itoa-format_i32_base}
use osakauss.Klibc.Num.Swap.{reverse_string_lem}
use osakauss.Klibc.Num.Count.{digit_count-length, oct2bin-octal}
use osakauss.Tar.Laws.{octal, Octal}

-- "755" from 4 on
abbrev mode : Memory
mode a = get_or (0 ∷ 0 ∷ 0 ∷ 0 ∷ b'7' ∷ b'5' ∷ b'5' ∷ 0 ∷ []) a 0

mode-IsString : IsString mode 4 (codes "755")
mode-IsString = (
  refl,
  omega arith,
  omega arith,
  (refl, omega arith, omega arith, (refl, omega arith, omega arith, refl)),
)

oct2bin-mode : oct2bin mode 4 3 ≡ some (pos 493)
unfolding oct2bin oct2bin_from
oct2bin-mode = refl

digit_count-negative : digit_count (negsuc 41) ≡ some 0
unfolding digit_count
digit_count-negative = refl

itoa-format_i32_base_example :
    (out : List ℕ) × (format_i32_base (negsuc 41) 10 ≡ some out) × Leaves mode (negsuc 41) 16 10 out
itoa-format_i32_base_example = itoa-format_i32_base mode (negsuc 41) 16 10 (omega arith)

reverse_string_lem_example :
    (m' : Memory) × (reverse_string 8 mode 4 ≡ some m')
    × IsString m' 4 (reverse (codes "755"))
    × ((a : ℕ) → (a < 4) ⊎ (4 + length (codes "755") ≤ a) → m' a ≡ mode a)
reverse_string_lem_example =
    reverse_string_lem 8 mode 4 (codes "755") (omega arith) (omega arith) mode-IsString

digit_count-length_example :
    (out : List ℕ) × (format_i32 (pos 730) ≡ some out)
    × (digit_count (pos 730) ≡ some (if is_negative (pos 730) then 0 else length out))
digit_count-length_example = digit_count-length (pos 730) (omega arith)

digit_row : ℕ → Bool
digit_row j = leb b'0' (mode (4 + j)) && leb (mode (4 + j)) b'7'

mode_rows : check_all digit_row 3 ≡ true
unfolding check_all digit_row
mode_rows = refl

mode-Octal : Octal (λ j. mode (4 + j)) 3
unfolding digit_row
mode-Octal j lt =
    let row : digit_row j ≡ true = check_all-entry digit_row 3 j lt mode_rows in
    (ground (arith, row), ground (arith, row))

octal-mode : octal (λ j. mode (4 + j)) 3 ≡ 493
unfolding octal
octal-mode = refl

oct2bin-octal_example : oct2bin mode 4 3 ≡ some (pos (octal (λ j. mode (4 + j)) 3))
oct2bin-octal_example = oct2bin-octal mode 4 3 mode-Octal (omega (arith, octal-mode))
