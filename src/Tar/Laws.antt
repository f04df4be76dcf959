-- ===== src/Tar/Laws.antt =====
-- The sizes, reads and offsets of kernel/fs/tar.c.
use osakauss.Common.{
  ℕ, zero, suc, ◌+◌, ◌-◌, ◌*◌, ◌/◌, ◌%◌, ◌^◌, ◌≤◌, ◌<◌, ◌≡◌, refl, sym, ap, ◌∙◌, false, none, some,
  ltb, leb, lt→ltb, if◌then◌else◌, arith, min,
}
use native.Mathlib.Nat.{div-add-mod, mod-add-mod, mul-zero, add-mul-mod_self_left}
use osakauss.Common.Int.{pos}
use osakauss.Vfs.{VfsNode}
use osakauss.Tar.{getsize_from, getsize, tar_read}

-- The number that the first `n` digits stand for in base 8, the first digit first.
unfoldable pub octal : (ℕ → ℕ) → ℕ → ℕ
octal digit zero = 0
octal digit (suc n) = octal digit n * 8 + (digit n - b'0')

-- The remainder of a factor may be taken first.
mod-mul_inside : (x c o m : ℕ) → (x + c % m * o) % m ≡ (x + c * o) % m
mod-mul_inside x c o m =
    let parts : c * o ≡ c % m * o + m * (c / m * o) = grind (arith, div-add-mod c m) in
    let split : x + c * o ≡ x + c % m * o + m * (c / m * o) = omega (arith, parts) in
    sym (ap (λ n. n % m) split ∙ add-mul-mod_self_left (x + c % m * o) m (c / m * o))

-- Digits that are octal.
abbrev pub Octal : (ℕ → ℕ) → ℕ → Type 0
Octal digit n = (j : ℕ) → j < n → (b'0' ≤ digit j) × (digit j ≤ b'7')

getsize_from_lem :
    (digit : ℕ → ℕ) (j size count : ℕ)
    → Octal digit j
    → size < 2 ^ 32
    → getsize_from digit j size count ≡ (size + count * octal digit j) % 2 ^ 32
unfolding getsize_from octal
getsize_from_lem digit zero size count digits small = omega (arith, mul-zero count)
getsize_from_lem digit (suc j) size count digits small =
    let d = digit j - b'0' in
    let bounds = digits j (omega arith) in
    let d' : (digit j + 2 ^ 32 - b'0') % 2 ^ 32 ≡ d = omega (arith, bounds.0, bounds.1) in
    let size' = (size + (digit j + 2 ^ 32 - b'0') % 2 ^ 32 * count) % 2 ^ 32 in
    let o = octal digit j in
    let expanded : size + d * count + count * 8 * o ≡ size + count * (o * 8 + d) = grind arith in
    getsize_from_lem digit j size' (count * 8 % 2 ^ 32) (λ k lt. digits k (omega arith))
      (omega arith)
    ∙ mod-mul_inside size' (count * 8) o (2 ^ 32)
    ∙ ap (λ e. ((size + e * count) % 2 ^ 32 + count * 8 * o) % 2 ^ 32) d'
    ∙ mod-add-mod (size + d * count) (2 ^ 32) (count * 8 * o)
    ∙ ap (λ n. n % 2 ^ 32) expanded

-- Eleven octal digits that stand for a number below 2 ^ 32: `getsize` gives that number, although
-- `count` overflows on the way.
pub getsize-octal :
    (digit : ℕ → ℕ) → Octal digit 11 → octal digit 11 < 2 ^ 32 → getsize digit ≡ octal digit 11
unfolding getsize
getsize-octal digit digits small = getsize_from_lem digit 11 0 1 digits (omega arith) ∙ omega arith

-- A read of fewer than 2 ^ 31 bytes of a file of an archive, where neither `offset + size` nor the offset
-- on the disk overflows 32 bits, gives the number of bytes from the offset on that the file has, at
-- most `size`, and passes the same number on, at the file's place of the disk; from the file's end on
-- it gives 0 and reads nothing.
pub tar_read_lem :
    (node : VfsNode) (size offset : ℕ)
    → size < 2 ^ 31
    → offset + size < 2 ^ 32
    → node.offset + offset < 2 ^ 32
    → (node.size ≤ offset → tar_read node size offset ≡ (pos 0, none))
      × (offset < node.size
          → tar_read node size offset ≡ (
            pos (min size (node.size - offset)),
            some (min size (node.size - offset), node.offset + offset),
          ))
unfolding tar_read
tar_read_lem node size offset few small on_disk =
    (λ behind. ground arith, λ inside. read_count inside)
  where
    wanted : (offset + size) % 2 ^ 32 ≡ offset + size
    wanted = omega arith

    read_count :
        offset < node.size
        → tar_read node size offset ≡ (
          pos (min size (node.size - offset)),
          some (min size (node.size - offset), node.offset + offset),
        )
    read_count inside =
        let on : leb node.size offset ≡ false = ground arith in
        let n : (if ltb node.size ((offset + size) % 2 ^ 32)
              then (node.size - offset) % 2 ^ 32
              else size)
            ≡ min size (node.size - offset) =
          ground arith in
        let count : min size (node.size - offset) < 2 ^ 31 = ground (arith, few) in
        let place : (node.offset + offset) % 2 ^ 32 ≡ node.offset + offset =
          omega (arith, on_disk) in
        rw (on, n, place, lt→ltb (min size (node.size - offset)) (2 ^ 31) count) refl
