-- ===== src/Klibc/Tests.antt =====
-- Runs of libs/klibc/mem.c and libs/klibc/string.c.
use osakauss.Common.{
  ℕ, ◌+◌, ◌-◌, ◌≡◌, refl, ◌↔◌, inr, false, List, [], ◌∷◌, some, length, get_or, if◌then◌else◌,
  arith,
}
use osakauss.Common.Int.{pos}
use osakauss.Klibc.Mem.{Memory, memset, memmove, memcpy, memcmp}
use osakauss.Klibc.Mem.Laws.{
  in_range, memset_lem, memmove_lem, memcpy-memmove, Compared, memcmp-Compared,
}
use osakauss.Klibc.Str.{strlen, strcmp, strcpy, Token, strtok, is_delim}
use osakauss.Klibc.Str.Laws.{
  IsString, strlen_lem, compare_chars, strcmp_lem, strcmp-zero_iff, strcpy_lem,
}
use osakauss.Klibc.Str.Tokens.{Outcome, strtok-Outcome}

-- a memory with two strings, "a/b" from 1 on and "a" from 5 on
abbrev strings : Memory
strings a = get_or (0 ∷ b'a' ∷ b'/' ∷ b'b' ∷ 0 ∷ b'a' ∷ []) a 0

abbrev path : List ℕ
path = b'a' ∷ b'/' ∷ b'b' ∷ []

path-IsString : IsString strings 1 path
path-IsString = (
  refl,
  omega arith,
  omega arith,
  (refl, omega arith, omega arith, (refl, omega arith, omega arith, refl)),
)

dir-IsString : IsString strings 5 (b'a' ∷ [])
dir-IsString = (refl, omega arith, omega arith, refl)

memset_lem_example :
    ((memset strings 2 7 3).1 ≡ 2)
    × ((a : ℕ) → (memset strings 2 7 3).0 a ≡ (if in_range 2 3 a then 7 else strings a))
memset_lem_example = memset_lem strings 2 7 3 (omega arith) (omega arith)

memmove_lem_example :
    ((memmove strings 2 1 3).1 ≡ 2)
    × ((a : ℕ)
        → (memmove strings 2 1 3).0 a
          ≡ (if in_range 2 3 a then strings (1 + (a - 2)) else strings a))
memmove_lem_example = memmove_lem strings 2 1 3 (omega arith)

memcpy-memmove_example : (memcpy strings 8 1 4).0 9 ≡ (memmove strings 8 1 4).0 9
memcpy-memmove_example = memcpy-memmove strings 8 1 4 (omega arith) (inr (omega arith)) 9

memcmp-Compared_example : Compared strings 1 5 3 (memcmp strings 1 5 3)
memcmp-Compared_example = memcmp-Compared strings 1 5 3 (omega arith)

strlen_lem_example : strlen 9 strings 1 ≡ some 3
strlen_lem_example = strlen_lem 9 strings 1 path (omega arith) (omega arith) path-IsString

strcmp_lem_example : strcmp 9 strings 1 5 ≡ some (compare_chars path (b'a' ∷ []))
strcmp_lem_example =
    strcmp_lem 9 strings 1 5 path (b'a' ∷ []) (omega arith) path-IsString dir-IsString

strcmp-zero_iff_example : (strcmp 9 strings 1 5 ≡ some (pos 0)) ↔ (path ≡ b'a' ∷ [])
strcmp-zero_iff_example =
    strcmp-zero_iff 9 strings 1 5 path (b'a' ∷ []) (omega arith) path-IsString dir-IsString

strcpy_lem_example :
    (m' : Memory) × (strcpy 9 strings 20 1 ≡ some m')
    × IsString m' 20 path
    × ((a : ℕ) → in_range 20 (length path + 1) a ≡ false → m' a ≡ strings a)
strcpy_lem_example =
    strcpy_lem 9 strings 20 1 path (omega arith) (omega arith) (inr (omega arith)) path-IsString

strtok-Outcome_example :
    (t : Token) × (strtok 9 strings 0 1 (b'/' ∷ []) ≡ some t)
    × Outcome strings 1 0 path (b'/' ∷ []) t
unfolding is_delim
strtok-Outcome_example =
    strtok-Outcome 9 strings 0 1 path (b'/' ∷ []) (omega arith) refl (omega arith) path-IsString
