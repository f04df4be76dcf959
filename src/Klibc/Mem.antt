-- ===== src/Klibc/Mem.antt =====
-- libs/klibc/mem.c over a byte-addressed memory. `usize` is 32 bits wide (include/types.h).
pub mod Laws
use osakauss.Common.{ℕ, zero, suc, ◌+◌, ◌-◌, ◌%◌, ◌^◌, ltb, ◌==◌, if◌then◌else◌}
use osakauss.Common.Int.{ℤ, pos, minus_one}

abbrev pub Memory : Type 0
Memory = ℕ → ℕ

abbrev pub Ptr : Type 0
Ptr = ℕ

abbrev pub store : Memory → Ptr → ℕ → Memory
store m p v a = if p == a then v else m a

-- `for (i …; i < size; i++) buf[i] = value`, with the rounds that are left
unfoldable pub fill : ℕ → Memory → Ptr → ℕ → Memory
fill v m buf zero = m
fill v m buf (suc n) = fill v (store m buf v) (buf + 1) n

unfoldable pub memset : Memory → Ptr → ℕ → ℕ → Memory × Ptr
memset m buf value size = (fill (value % 256) m buf (size % 2 ^ 32), buf)

-- the copy loop that goes up, with the rounds that are left
unfoldable pub copy_up : Memory → Ptr → Ptr → ℕ → Memory
copy_up m dst src zero = m
copy_up m dst src (suc n) = copy_up (store m dst (m src)) (dst + 1) (src + 1) n

-- the copy loop that goes down: `for (i = size; i != 0; i--) dst[i-1] = src[i-1]`
unfoldable pub copy_down : Memory → Ptr → Ptr → ℕ → Memory
copy_down m dst src zero = m
copy_down m dst src (suc i) = copy_down (store m (dst + i) (m (src + i))) dst src i

unfoldable pub memmove : Memory → Ptr → Ptr → ℕ → Memory × Ptr
memmove m dst src size =
    if ltb dst src
    then (copy_up m dst src (size % 2 ^ 32), dst)
    else (copy_down m dst src (size % 2 ^ 32), dst)

unfoldable pub memcpy : Memory → Ptr → Ptr → ℕ → Memory × Ptr
memcpy m dst src size = (copy_up m dst src (size % 2 ^ 32), dst)

-- the loop of `memcmp`, with the rounds that are left
unfoldable pub compare_bytes : Memory → Ptr → Ptr → ℕ → ℤ
compare_bytes m a b zero = pos 0
compare_bytes m a b (suc n) =
    let rest = compare_bytes m (a + 1) (b + 1) n in
    if ltb (m a) (m b) then minus_one else if ltb (m b) (m a) then pos 1 else rest

unfoldable pub memcmp : Memory → Ptr → Ptr → ℕ → ℤ
memcmp m a b size = compare_bytes m a b (size % 2 ^ 32)
