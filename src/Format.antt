-- ===== src/Format.antt =====
-- libs/format.c: formatted output. The callback `f` is called with one byte after the other; a
-- function here returns the list of these bytes.
pub mod Digits
pub mod Hex
pub mod Directives
pub mod Pieces
mod Tests
use Prim.Native.String.{String}
use Prim.Native.Char.{code}
use osakauss.Common.{
  ℕ, zero, suc, ◌+◌, ◌-◌, ◌*◌, ◌/◌, ◌%◌, ◌^◌, bit_and, Bool, true, false, ◌&&◌, ◌||◌, List, [], ◌∷◌,
  ◌++◌, Option, none, some, ltb, leb, ◌==◌, get_or, if◌then◌else◌,
}
use osakauss.Common.Int.{ℤ, pos, negsuc, neg, quot}

-- the bytes of a literal
abbrev pub codes : String → List ℕ
codes String.[] = []
codes (String.◌∷◌ c s) = code c ∷ codes s

abbrev pub chars : List ℕ
chars = codes "zyxwvutsrqponmlkjihgfedcba9876543210123456789abcdefghijklmnopqrstuvwxyz"

-- `chars[35 + n % base]`; C's remainder has the sign of `n`.
abbrev pub digit_of : ℤ → ℕ → ℕ
digit_of (pos n) base = get_or chars (35 + n % base) 0
digit_of (negsuc n) base = get_or chars (35 - suc n % base) 0

abbrev pub is_zero : ℤ → Bool
is_zero (pos n) = n == 0
is_zero (negsuc n) = false

abbrev pub is_negative : ℤ → Bool
is_negative (pos n) = false
is_negative (negsuc n) = true

-- The conversion loop. `buf` is what it has written, the last byte first, which is the order in which
-- the bytes are passed on. The fuel is the room that is left in the buffer: `none` is an overrun.
unfoldable pub digits_from : ℕ → ℤ → ℕ → List ℕ → Option (List ℕ)
digits_from zero n base buf = none
digits_from (suc room) n base buf =
    let written = digit_of n base ∷ buf in
    let rest = digits_from room (quot n base) base written in
    if is_zero (quot n base) then some written else rest

abbrev pub sign_of : ℤ → ℕ → List ℕ
sign_of n base = if is_negative n && (base == 10) then b'-' ∷ [] else []

-- the bytes `xs` in front, where the conversion succeeded
abbrev pub prepend : List ℕ → Option (List ℕ) → Option (List ℕ)
prepend xs none = none
prepend xs (some out) = some (xs ++ out)

unfoldable pub format_i32_base : ℤ → ℕ → Option (List ℕ)
format_i32_base n base =
    if ltb base 2 || ltb 36 base
    then some []
    else prepend (sign_of n base) (digits_from 64 n base [])

unfoldable pub format_i32 : ℤ → Option (List ℕ)
format_i32 n = format_i32_base n 10

abbrev pub hex_digit : ℕ → ℕ
hex_digit tmp = if leb 0xa tmp then tmp - 0xa + b'a' else tmp + b'0'

-- The loop over `i = 4 * k`, from 28 down to 4.
unfoldable pub hex_digits : ℕ → ℕ → Bool → List ℕ
hex_digits zero n no_zeroes = []
hex_digits (suc k) n no_zeroes =
    let tmp = bit_and (n / 2 ^ (4 * suc k)) 0xf in
    let skipped = hex_digits k n no_zeroes in
    let printed = hex_digits k n false in
    if tmp == 0 then (if no_zeroes then skipped else b'0' ∷ skipped) else hex_digit tmp ∷ printed

unfoldable pub format_h32 : ℕ → Bool → List ℕ
format_h32 n no_zeroes =
    b'0' ∷ b'x' ∷ (hex_digits 7 n no_zeroes ++ (hex_digit (bit_and n 0xf) ∷ []))

unfoldable pub format_pointer : ℕ → List ℕ
format_pointer p = if p == 0 then codes "(nil)" else format_h32 p false

-- A variable argument, as it is passed: a 32-bit pattern, or a string.
pub data Arg : Type 0 where
  word : ℕ → Arg
  text : List ℕ → Arg

-- The integer of a 32-bit pattern.
abbrev pub signed : ℕ → ℤ
signed w = if ltb w (2 ^ 31) then pos w else negsuc (2 ^ 32 - w - 1)

-- What has been printed, and the arguments that are left; `none` is behaviour that C leaves undefined:
-- an argument that is missing or of another kind, or a read past the end of the format.
abbrev pub Printed : Type 0
Printed = Option (List ℕ × List Arg)

abbrev pub print_then : List ℕ → Printed → Printed
print_then xs none = none
print_then xs (some (out, rest)) = some (xs ++ out, rest)

abbrev pub print_shown : Option (List ℕ) → Printed → Printed
print_shown none later = none
print_shown (some xs) later = print_then xs later

abbrev pub print_word : (ℕ → Option (List ℕ)) → List Arg → (List Arg → Printed) → Printed
print_word show [] next = none
print_word show (word w ∷ args) next = print_shown (show w) (next args)
print_word show (text s ∷ args) next = none

abbrev pub print_text : List Arg → (List Arg → Printed) → Printed
print_text [] next = none
print_text (word w ∷ args) next = none
print_text (text s ∷ args) next = print_then s (next args)

-- The inner switch, on the byte behind a `%`; `next` is the rest of the loop.
unfoldable pub directive : ℕ → List Arg → (List Arg → Printed) → Printed
directive d args next =
    if d == b'c'
    then print_word (λ w. some ((w % 256) ∷ [])) args next
    else if d == b's'
    then print_text args next
    else if d == b'x'
    then print_word (λ w. some (format_h32 w true)) args next
    else if d == b'd'
    then print_word (λ w. format_i32 (signed w)) args next
    else if d == b'p'
    then print_word (λ w. some (format_pointer w)) args next
    else if d == b'%'
    then print_then (b'%' ∷ []) (next args)
    else next args

-- The format is given by its bytes before the NUL. After a `%` at its end the loop steps over the NUL.
unfoldable pub formatv : List ℕ → List Arg → Printed
formatv [] args = some ([], args)
formatv (c ∷ []) args = if c == b'%' then none else some (c ∷ [], args)
formatv (c ∷ d ∷ s) args =
    let inner = directive d args (formatv s) in
    let plain = print_then (c ∷ []) (formatv (d ∷ s) args) in if c == b'%' then inner else plain
