-- ===== src/Format/Tests.antt =====
-- Runs of libs/format.c.
use osakauss.Common.{
  ℕ, ◌<◌, ◌≤◌, ◌≡◌, get_or, refl, ◌⊎◌, inr, true, false, List, [], ◌∷◌, ◌++◌, none, some, length,
  arith,
}
use osakauss.Common.Int.{pos, negsuc, magnitude}
use osakauss.Format.{
  codes, Arg, digits_from, hex_digits, directive, word, text, formatv, format_i32_base, format_i32,
  format_h32, format_pointer, sign_of,
}
use osakauss.Format.Digits.{
  read_digits, digit_value, format_i32_base-read, format_i32_base-unsupported, read_i32,
  read_i32-format_i32,
}
use osakauss.Format.Hex.{format_h32-read, format_pointer-read}
use osakauss.Format.Pieces.{
  text_piece, byte_piece, decimal_piece, percent_piece, Piece, AllShow, formatv-AllShow,
}
use osakauss.Format.Directives.{formatv-no_percent, formatv-trailing_percent}

format_i32-min : format_i32 (negsuc 2147483647) ≡ some (codes "-2147483648")
unfolding format_i32 format_i32_base digits_from
format_i32-min = refl

format_h32-short : format_h32 0xb8000 true ≡ codes "0xb8000"
unfolding format_h32 hex_digits
format_h32-short = refl

-- a format of the kernel's log and its arguments
abbrev report : List ℕ
report = codes "%s: %d%%"

abbrev values : List Arg
values = text (codes "mem") ∷ word 42 ∷ word 7 ∷ []

formatv-report : formatv report values ≡ some (codes "mem: 42%", word 7 ∷ [])
unfolding formatv directive format_i32 format_i32_base digits_from
formatv-report = refl

format_i32_base-read_example :
    (out : List ℕ) × (format_i32_base (negsuc 254) 16 ≡ some (sign_of (negsuc 254) 16 ++ out))
    × (read_digits 16 0 out ≡ 255)
    × (length out ≤ 64)
    × ((magnitude (negsuc 254) ≡ 0) ⊎ (0 < digit_value (get_or out 0 b'0')))
format_i32_base-read_example =
    format_i32_base-read (negsuc 254) 16 (omega arith) (omega arith) (omega arith)

format_i32_base-unsupported_example : format_i32_base (pos 5) 40 ≡ some []
format_i32_base-unsupported_example = format_i32_base-unsupported (pos 5) 40 (inr (omega arith))

read_i32-format_i32_example :
    (out : List ℕ) × (format_i32 (negsuc 41) ≡ some out) × (read_i32 out ≡ negsuc 41)
read_i32-format_i32_example = read_i32-format_i32 (negsuc 41) (omega arith)

format_h32-read_example :
    (out : List ℕ) × (format_h32 0xb8000 false ≡ b'0' ∷ b'x' ∷ out)
    × (read_digits 16 0 out ≡ 0xb8000)
    × (false ≡ false → length out ≡ 8)
format_h32-read_example = format_h32-read 0xb8000 false (omega arith)

format_pointer-read_example :
    ((◌≡◌ {A = ℕ} 4096 0) × (format_pointer 4096 ≡ codes "(nil)"))
    ⊎ ((0 < 4096)
        × ((out : List ℕ) × (format_pointer 4096 ≡ b'0' ∷ b'x' ∷ out)
            × (read_digits 16 0 out ≡ 4096)
            × (length out ≡ 8)))
format_pointer-read_example = format_pointer-read 4096 (omega arith)

-- the same format by its pieces
abbrev pieces : List Piece
pieces =
    text_piece (codes "mem")
    ∷ byte_piece b':'
    ∷ byte_piece b' '
    ∷ decimal_piece 42
    ∷ percent_piece
    ∷ []

formatv-AllShow_example :
    (out : List ℕ) × (formatv report values ≡ some (out, word 7 ∷ [])) × AllShow pieces out
formatv-AllShow_example =
    formatv-AllShow pieces (word 7 ∷ []) (tt, (omega arith, (omega arith, (omega arith, (tt, tt)))))

formatv-no_percent_example : formatv (codes "booted") values ≡ some (codes "booted", values)
formatv-no_percent_example = formatv-no_percent (codes "booted") values refl

formatv-trailing_percent_example : formatv (report ++ (b'%' ∷ [])) values ≡ none
formatv-trailing_percent_example = formatv-trailing_percent report values formatv-report
