-- ===== src/Klibc/Str.antt =====
-- libs/klibc/string.c over a byte-addressed memory. A loop that ends at a NUL byte runs on fuel, and
-- `none` means that the fuel ran out; the laws give it enough. `char` is signed on x86-64.
pub mod Laws
pub mod Tokens
use osakauss.Common.{
  ℕ, zero, suc, ◌+◌, ◌-◌, ◌%◌, ◌^◌, Bool, true, false, not, List, [], ◌∷◌, Option, none, some, ltb,
  ◌==◌, if◌then◌else◌,
}
use osakauss.Common.Int.{ℤ, pos, minus_one}
use osakauss.Klibc.Mem.{Memory, Ptr, store, copy_up}
use osakauss.Pmm.{pmm_alloc}
use osakauss.Pmm.Memory.{Machine}

-- the loop of `strlen`; `len` is a `usize`, 32 bits
strlen_from : ℕ → Memory → Ptr → ℕ → Option ℕ
strlen_from zero m str len = none
strlen_from (suc fuel) m str len =
    let rest = strlen_from fuel m str ((len + 1) % 2 ^ 32) in
    if m (str + len) == 0 then some len else rest

unfoldable pub strlen : ℕ → Memory → Ptr → Option ℕ
unfolding strlen_from
strlen fuel m str = strlen_from fuel m str 0

-- `a < b` for two values of type `char`, as bytes
abbrev pub char_lt : ℕ → ℕ → Bool
char_lt a b = ltb ((a + 128) % 256) ((b + 128) % 256)

strcmp_from : ℕ → Memory → Ptr → Ptr → ℕ → Option ℤ
strcmp_from zero m str str1 i = none
strcmp_from (suc fuel) m str str1 i =
    let a = m (str + i) in
    let b = m (str1 + i) in
    let rest = strcmp_from fuel m str str1 (i + 1) in
    if not (a == b)
    then some (if char_lt a b then minus_one else pos 1)
    else if a == 0
    then some (pos 0)
    else rest

unfoldable pub strcmp : ℕ → Memory → Ptr → Ptr → Option ℤ
unfolding strcmp_from
strcmp fuel m str str1 = strcmp_from fuel m str str1 0

-- The loop copies for `v <= srclen`.
unfoldable pub strcpy : ℕ → Memory → Ptr → Ptr → Option Memory
strcpy fuel m target src = elim (strlen fuel m src) [
  | none ↦ none
  | some srclen ↦ some (copy_up m target src (srclen + 1))
]

-- `while (*src) *p++ = *src++; *p = '\0';`
copy_string : ℕ → Memory → Ptr → Ptr → Option Memory
copy_string zero m p src = none
copy_string (suc fuel) m p src =
    let rest = copy_string fuel (store m p (m src)) (p + 1) (src + 1) in
    if m src == 0 then some (store m p 0) else rest

-- the loop of `strdup` that counts, with `len` an `int`
count_string : ℕ → Memory → Ptr → ℕ → Option ℕ
count_string zero m src len = none
count_string (suc fuel) m src len =
    let rest = count_string fuel m src (len + 1) in if m (src + len) == 0 then some len else rest

unfoldable pub strdup : ℕ → Machine → Ptr → Option (Ptr × Machine)
unfolding copy_string count_string
strdup fuel s src = elim (count_string fuel s.mem src 0) [
  | none ↦ none
  | some len ↦
      let (str, p) = pmm_alloc s.pmm (len + 1) in
      elim (copy_string fuel s.mem str src) [
        | none ↦ none
        | some mem ↦ some (str, record { pmm = p; mem = mem })
      ]
]

-- `delim` holds the bytes of the string before its NUL.
unfoldable pub is_delim : ℕ → List ℕ → Bool
is_delim c [] = false
is_delim c (d ∷ delim) = if c == d then true else is_delim c delim

-- the first loop of `strtok`: where it stops, on a byte that is no delimiter
unfoldable pub skip_delims : ℕ → Memory → Ptr → List ℕ → Option Ptr
skip_delims zero m s delim = none
skip_delims (suc fuel) m s delim =
    let rest = skip_delims fuel m (s + 1) delim in if is_delim (m s) delim then rest else some s

-- What `strtok` leaves: the token (0 for NULL), the memory, and the static `backup_string`.
pub record Token : Type 0 where
  pub token : Ptr
  pub mem : Memory
  pub backup : Ptr

-- the second loop, from the token on
unfoldable pub end_token : ℕ → Memory → Ptr → Ptr → List ℕ → Option Token
end_token zero m ret s delim = none
end_token (suc fuel) m ret s delim =
    let rest = end_token fuel m ret (s + 1) delim in
    if m s == 0
    then some (record { token = ret; mem = m; backup = s })
    else if is_delim (m s) delim
    then some (record { token = ret; mem = store m s 0; backup = s + 1 })
    else rest

unfoldable pub strtok : ℕ → Memory → Ptr → Ptr → List ℕ → Option Token
unfolding skip_delims end_token
strtok fuel m backup src_string delim =
    let s = if src_string == 0 then backup else src_string in
    let scan : Option Token = elim (skip_delims fuel m s delim) [
      | none ↦ none
      | some ret ↦
          if m ret == 0
          then some (record { token = 0; mem = m; backup = backup })
          else end_token fuel m ret ret delim
    ] in
    if s == 0 then some (record { token = 0; mem = m; backup = backup }) else scan
