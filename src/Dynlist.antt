-- ===== src/Dynlist.antt =====
-- libs/klibc/dynlist.c: the growing list of pointers. The memory of the items is a typed store: for each
-- address of an allocated array its cells. The pointer to the list itself is not NULL, so the tests for
-- that are left out; UNDEFINE is -1 and SUCCESS is 0.
pub mod Laws
mod Tests
use osakauss.Common.{
  ℕ, zero, suc, ◌+◌, ◌-◌, ◌*◌, ◌/◌, ◌%◌, ◌^◌, Bool, true, false, ◌&&◌, ltb, ◌==◌, if◌then◌else◌,
}
use osakauss.Common.Int.{ℤ, pos, negsuc, minus_one}
use osakauss.Klibc.Mem.{Ptr, store}
use osakauss.Pmm.{Pmm, pmm_alloc, pmm_free}

-- `struct dl`; `capacity` and `total` are an `int` each, of which the values from 0 to 2 ^ 31 - 1 are
-- modelled. With it go the cells of all arrays and the physical memory manager.
pub record Dl : Type 0 where
  pub items : Ptr
  pub capacity : ℕ
  pub total : ℕ
  pub cells : Ptr → ℕ → Ptr
  pub pmm : Pmm

abbrev pub dl_init_capacity : ℕ
dl_init_capacity = 6

-- `items[i] = item`
abbrev pub put_item : Dl → ℕ → Ptr → Dl
put_item v i item = record v {
  cells = λ a. if v.items == a then store (v.cells a) i item else v.cells a;
}

unfoldable pub dl_total : Dl → ℕ
dl_total v = v.total

-- The new array has the cells of the old one, which is freed even where there is no new one. The number
-- of bytes is a u64 in `pmm_alloc`, and a u32 in `memcpy`.
unfoldable pub dl_resize : Dl → ℕ → ℤ × Dl
dl_resize v capacity =
    let (items, pmm') = pmm_alloc v.pmm (8 * capacity % 2 ^ 64) in
    let copied = 8 * capacity % 2 ^ 64 % 2 ^ 32 / 8 in
    let freed : Dl = record v { pmm = pmm_free pmm' v.items } in
    let old = v.cells v.items in
    if items == 0 then (minus_one, freed) else (
      pos 0,
      record freed {
        items = items;
        capacity = capacity;
        cells = λ a.
            if items == a
            then (λ i. if ltb i copied then old i else v.cells items i)
            else v.cells a;
      },
    )

-- `items[total++] = item`
abbrev pub append_item : Dl → Ptr → Dl
append_item v item = record (put_item v v.total item) { total = v.total + 1 }

abbrev pub is_undefined : ℤ → Bool
is_undefined (pos n) = false
is_undefined (negsuc n) = true

unfoldable pub dl_push : Dl → Ptr → ℤ × Dl
dl_push v item =
    let (status, grown) = dl_resize v (v.capacity * 2) in
    if v.capacity == v.total
    then (status, if is_undefined status then grown else append_item grown item)
    else (pos 0, append_item v item)

-- Is the index one of the list's? A negative one is not.
abbrev pub in_list : Dl → ℤ → Bool
in_list v (pos i) = ltb i v.total
in_list v (negsuc i) = false

abbrev pub index_of : ℤ → ℕ
index_of (pos i) = i
index_of (negsuc i) = 0

unfoldable pub dl_set : Dl → ℤ → Ptr → ℤ × Dl
dl_set v index item =
    if in_list v index then (pos 0, put_item v (index_of index) item) else (minus_one, v)

unfoldable pub dl_get : Dl → ℤ → Ptr
dl_get v index = if in_list v index then v.cells v.items (index_of index) else 0

-- The loop of `dl_pop` on the cells, from `i` on, with the rounds that are left.
unfoldable pub shift_down : (ℕ → Ptr) → ℕ → ℕ → ℕ → Ptr
shift_down f i zero = f
shift_down f i (suc n) = shift_down (store (store f i (f (i + 1))) (i + 1) 0) (i + 1) n

unfoldable pub dl_pop : Dl → ℤ → ℤ × Dl
dl_pop v index =
    let i = index_of index in
    let cells = shift_down (store (v.cells v.items) i 0) i (v.total - 1 - i) in
    let shorter : Dl = record v {
      cells = λ a. if v.items == a then cells else v.cells a;
      total = v.total - 1;
    } in
    let (status, resized) = dl_resize shorter (v.capacity / 2) in
    let shrinks = ltb 0 shorter.total && (shorter.total == v.capacity / 4) in
    if in_list v index then (pos 0, if shrinks then resized else shorter) else (minus_one, v)

unfoldable pub dl_free : Dl → ℤ × Dl
dl_free v = (pos 0, record v { pmm = pmm_free v.pmm v.items; items = 0 })

unfoldable pub dl_init : Dl → Dl
dl_init v =
    let (items, pmm') = pmm_alloc v.pmm (8 * dl_init_capacity) in
    record v { capacity = dl_init_capacity; total = 0; items = items; pmm = pmm' }
