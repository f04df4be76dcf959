-- ===== src/Format/Pieces.antt =====
-- `formatv` of libs/format.c against what each piece of a format means.
use osakauss.Common.{
  ℕ, ◌%◌, ◌^◌, ◌<◌, ◌≤◌, ◌≡◌, refl, sym, ap, ltb, ltb→lt, ltb_false→le, Bool-cases, inl, inr, ◌∙◌,
  ◌≢◌, true, List, [], ◌∷◌, ◌++◌, some, ==_ne, arith,
}
use mathlib.Core.List.{append_assoc}
use osakauss.Common.Int.{magnitude}
use osakauss.Format.{
  Arg, word, text, print_then, directive, formatv, format_h32, format_i32, format_pointer, signed,
}
use osakauss.Format.Digits.{read_i32-format_i32}
use osakauss.Format.Directives.{print_then-nil, formatv-percent, formatv-plain, formatv-nil}

-- A piece of a format: a byte that stands for itself; a directive with its argument; or a `%` before a
-- byte that is none of the letters.
pub data Piece : Type 0 where
  byte_piece : ℕ → Piece
  char_piece : ℕ → Piece
  text_piece : List ℕ → Piece
  hex_piece : ℕ → Piece
  decimal_piece : ℕ → Piece
  pointer_piece : ℕ → Piece
  percent_piece : Piece
  unknown_piece : ℕ → Piece

-- how a piece is written in the format
abbrev pub written : Piece → List ℕ
written (byte_piece c) = c ∷ []
written (char_piece w) = b'%' ∷ b'c' ∷ []
written (text_piece s) = b'%' ∷ b's' ∷ []
written (hex_piece w) = b'%' ∷ b'x' ∷ []
written (decimal_piece w) = b'%' ∷ b'd' ∷ []
written (pointer_piece w) = b'%' ∷ b'p' ∷ []
written percent_piece = b'%' ∷ b'%' ∷ []
written (unknown_piece d) = b'%' ∷ d ∷ []

-- the argument that it takes
abbrev pub arguments : Piece → List Arg
arguments (char_piece w) = word w ∷ []
arguments (text_piece s) = text s ∷ []
arguments (hex_piece w) = word w ∷ []
arguments (decimal_piece w) = word w ∷ []
arguments (pointer_piece w) = word w ∷ []
arguments _ = []

-- Bytes that stand for themselves are not `%`, those of an unknown directive are no letter of another
-- one, and an `int` has 32 bits.
abbrev pub IsPiece : Piece → Type 0
IsPiece (byte_piece c) = c ≢ b'%'
IsPiece (decimal_piece w) = w < 2 ^ 32
IsPiece (unknown_piece d) =
    (d ≢ b'c') × (d ≢ b's') × (d ≢ b'x') × (d ≢ b'd') × (d ≢ b'p') × (d ≢ b'%')
IsPiece _ = Unit

-- what a piece prints
abbrev pub Shows : Piece → List ℕ → Type 0
Shows (byte_piece c) out = out ≡ c ∷ []
Shows (char_piece w) out = out ≡ (w % 256) ∷ []
Shows (text_piece s) out = out ≡ s
Shows (hex_piece w) out = out ≡ format_h32 w true
Shows (decimal_piece w) out = format_i32 (signed w) ≡ some out
Shows (pointer_piece w) out = out ≡ format_pointer w
Shows percent_piece out = out ≡ b'%' ∷ []
Shows (unknown_piece d) out = out ≡ []

-- the format of some pieces, and their arguments
abbrev pub format_of : List Piece → List ℕ
format_of [] = []
format_of (p ∷ ps) = written p ++ format_of ps

abbrev pub arguments_of : List Piece → List Arg
arguments_of [] = []
arguments_of (p ∷ ps) = arguments p ++ arguments_of ps

abbrev pub ArePieces : List Piece → Type 0
ArePieces [] = Unit
ArePieces (p ∷ ps) = IsPiece p × ArePieces ps

-- The text is what the pieces print, one behind the other.
abbrev pub AllShow : List Piece → List ℕ → Type 0
AllShow [] out = out ≡ []
AllShow (p ∷ ps) out =
    (xs : List ℕ) × (later : List ℕ) × Shows p xs × AllShow ps later × (out ≡ xs ++ later)

-- one piece in front of a format
abbrev PrintedFirst : Piece → List ℕ → List Arg → Type 0
PrintedFirst p s args =
    (xs : List ℕ) × Shows p xs
    × (formatv (written p ++ s) (arguments p ++ args) ≡ print_then xs (formatv s args))

magnitude-signed : (w : ℕ) → w < 2 ^ 32 → magnitude (signed w) ≤ 2 ^ 31
magnitude-signed w small = elim (Bool-cases (ltb w (2 ^ 31))) [
  | inl low ↦ rw low (omega (arith, ltb→lt w (2 ^ 31) low))
  | inr high ↦ rw high (omega (arith, ltb_false→le w (2 ^ 31) high, small))
]

formatv-piece : (p : Piece) (s : List ℕ) (args : List Arg) → IsPiece p → PrintedFirst p s args
unfolding directive
formatv-piece (byte_piece c) s args ok = (c ∷ [], refl, formatv-plain c s args ok)
formatv-piece (char_piece w) s args ok =
    ((w % 256) ∷ [], refl, formatv-percent b'%' b'c' s (word w ∷ args) refl)
formatv-piece (text_piece t) s args ok = (t, refl, formatv-percent b'%' b's' s (text t ∷ args) refl)
formatv-piece (hex_piece w) s args ok =
    (format_h32 w true, refl, formatv-percent b'%' b'x' s (word w ∷ args) refl)
formatv-piece (decimal_piece w) s args ok =
    let (xs, run, back) = read_i32-format_i32 (signed w) (magnitude-signed w ok) in
    (xs, run, formatv-percent b'%' b'd' s (word w ∷ args) refl ∙ rw run refl)
formatv-piece (pointer_piece w) s args ok =
    (format_pointer w, refl, formatv-percent b'%' b'p' s (word w ∷ args) refl)
formatv-piece percent_piece s args ok = (b'%' ∷ [], refl, formatv-percent b'%' b'%' s args refl)
formatv-piece (unknown_piece d) s args (c, t, x, i, p, percent) = (
  [],
  refl,
  formatv-percent b'%' d s args refl
      ∙ rw
          (
            ==_ne d b'c' c,
            ==_ne d b's' t,
            ==_ne d b'x' x,
            ==_ne d b'd' i,
            ==_ne d b'p' p,
            ==_ne d b'%' percent,
          )
          (sym (print_then-nil (formatv s args))),
)

-- `formatv` on a format that is made of pieces, with their arguments and some more behind them: it prints
-- what the pieces mean, in their order, takes the arguments of the pieces and leaves the others. The
-- pieces are bytes other than `%`, the directives with `c`, `s`, `x`, `d`, where the argument has 32
-- bits, `p` and `%`, and those with any other byte, which print nothing and take nothing.
pub formatv-AllShow :
    (ps : List Piece) (rest : List Arg)
    → ArePieces ps
    → (out : List ℕ) × (formatv (format_of ps) (arguments_of ps ++ rest) ≡ some (out, rest))
      × AllShow ps out
formatv-AllShow [] rest ok = ([], formatv-nil rest, refl)
formatv-AllShow (p ∷ ps) rest ok =
    let (later, run, shows) = formatv-AllShow ps rest ok.1 in
    let (xs, first, step) = formatv-piece p (format_of ps) (arguments_of ps ++ rest) ok.0 in
    (
      xs ++ later,
      ap (formatv (format_of (p ∷ ps))) (append_assoc (arguments p) (arguments_of ps) rest)
          ∙ step
          ∙ ap (print_then xs) run,
      (xs, later, first, shows, refl),
    )
