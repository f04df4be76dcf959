-- ===== src/Dynlist/Laws.antt =====
-- libs/klibc/dynlist.c as a list.
use osakauss.Common.{
  ℕ, zero, suc, ◌+◌, ◌-◌, ◌*◌, ◌/◌, ◌%◌, ◌^◌, ◌≤◌, ◌<◌, ◌≡◌, refl, sym, ap, ◌∙◌, ◌≢◌, inl, inr,
  true, false, ◌&&◌, List, [], ◌∷◌, ◌++◌, ltb, ◌==◌, ==_ne, ==_refl, ==_iff, ltb→lt, lt→ltb,
  Bool-cases, eq_cases, if◌then◌else◌, arith,
}
use osakauss.Common.Int.{ℤ, pos, negsuc, minus_one}
use osakauss.Klibc.Mem.{Ptr, store}
use osakauss.Pmm.{pmm_alloc}
use osakauss.Dynlist.{Dl, dl_resize, append_item, dl_push, in_list, index_of, shift_down, dl_pop}

-- `n` cells, from `i` on
unfoldable pub from_cells : (ℕ → Ptr) → ℕ → ℕ → List Ptr
from_cells f i zero = []
from_cells f i (suc n) = f i ∷ from_cells f (i + 1) n

unfoldable pub contents : Dl → List Ptr
contents v = from_cells (v.cells v.items) 0 v.total

from_cells-snoc :
    (f : ℕ → Ptr) (i n k : ℕ) (x : Ptr)
    → k ≡ i + n
    → from_cells (store f k x) i (suc n) ≡ from_cells f i n ++ (x ∷ [])
unfolding from_cells
from_cells-snoc f i zero k x e = ap (λ y. y ∷ []) (rw ((==_iff k i).1 (omega arith)) refl)
from_cells-snoc f i (suc n) k x e =
    let ne : k ≢ i = omega arith in
    ap (λ y. y ∷ from_cells (store f k x) (i + 1) (suc n)) (rw (==_ne k i ne) refl)
    ∙ ap (λ ys. f i ∷ ys) (from_cells-snoc f (i + 1) n k x (omega arith))

pub append_item-contents :
    (v : Dl) (item : Ptr) → contents (append_item v item) ≡ contents v ++ (item ∷ [])
unfolding contents
append_item-contents v item =
    let n : v.total + 1 ≡ suc v.total = omega arith in
    rw (==_refl v.items, n) (from_cells-snoc (v.cells v.items) 0 v.total v.total item (omega arith))

from_cells-same :
    (f g : ℕ → Ptr) (i n : ℕ)
    → ((j : ℕ) → j < i + n → f j ≡ g j)
    → from_cells f i n ≡ from_cells g i n
unfolding from_cells
from_cells-same f g i zero same = refl
from_cells-same f g i (suc n) same =
    ap (λ x. x ∷ from_cells f (i + 1) n) (same i (omega arith))
    ∙ ap (λ xs. g i ∷ xs) (from_cells-same f g (i + 1) n (λ j lt. same j (omega arith)))

-- the items that are copied to a new array
copied-cells :
    (old new : ℕ → Ptr) (capacity total : ℕ)
    → total ≤ capacity
    → capacity < 2 ^ 29
    → from_cells (λ i. if ltb i (8 * capacity % 2 ^ 64 % 2 ^ 32 / 8) then old i else new i) 0 total
      ≡ from_cells old 0 total
copied-cells old new capacity total fits small =
    let all : 8 * capacity % 2 ^ 64 % 2 ^ 32 / 8 ≡ capacity = omega (arith, small) in
    rw all (from_cells-same _ old 0 total (λ j lt. rw (lt→ltb j capacity (omega arith)) refl))

-- Whether there is a new array or not, a list that it has room for is the same.
dl_resize-contents :
    (v : Dl) (capacity : ℕ)
    → v.total ≤ capacity
    → capacity < 2 ^ 29
    → contents (dl_resize v capacity).1 ≡ contents v
unfolding contents dl_resize
dl_resize-contents v capacity fits small =
    let items = (pmm_alloc v.pmm (8 * capacity % 2 ^ 64)).0 in
    elim (Bool-cases (items == 0)) [
      | inl null ↦ rw (dl_resize, null) refl
      | inr got ↦
          rw (dl_resize, got, ==_refl items)
            (copied-cells (v.cells v.items) (v.cells items) capacity v.total fits small)
    ]

dl_resize_room :
    (v : Dl) (capacity : ℕ)
    → (pmm_alloc v.pmm (8 * capacity % 2 ^ 64)).0 ≢ 0
    → ((dl_resize v capacity).0 ≡ pos 0)
      × ((dl_resize v capacity).1.total ≡ v.total)
      × ((dl_resize v capacity).1.capacity ≡ capacity)
unfolding dl_resize
dl_resize_room v capacity room =
    let ne = ==_ne (pmm_alloc v.pmm (8 * capacity % 2 ^ 64)).0 0 room in
    (rw (dl_resize, ne) refl, rw (dl_resize, ne) refl, rw (dl_resize, ne) refl)

dl_push-full :
    (v : Dl) (item : Ptr)
    → v.capacity ≡ v.total
    → (dl_resize v (v.capacity * 2)).0 ≡ pos 0
    → dl_push v item ≡ (pos 0, append_item (dl_resize v (v.capacity * 2)).1 item)
unfolding dl_push
dl_push-full v item full ok = rw (dl_push, (==_iff v.capacity v.total).1 full, ok) refl

pub dl_push-room :
    (v : Dl) (item : Ptr) → v.capacity ≢ v.total → dl_push v item ≡ (pos 0, append_item v item)
unfolding dl_push
dl_push-room v item free = rw (dl_push, ==_ne v.capacity v.total free) refl

-- For a capacity below 2 ^ 28 that is not 0, and a total within it: where there is room, or twice the
-- room can be allocated, `dl_push` succeeds, the item goes to the end of the list, and the total stays
-- within the capacity.
pub dl_push-contents :
    (v : Dl) (item : Ptr)
    → 0 < v.capacity
    → v.capacity < 2 ^ 28
    → v.total ≤ v.capacity
    → (v.capacity ≡ v.total → (pmm_alloc v.pmm (8 * (v.capacity * 2) % 2 ^ 64)).0 ≢ 0)
    → ((dl_push v item).0 ≡ pos 0)
      × (contents (dl_push v item).1 ≡ contents v ++ (item ∷ []))
      × ((dl_push v item).1.total ≤ (dl_push v item).1.capacity)
dl_push-contents v item some_room small within room = elim (eq_cases v.capacity v.total) [
  | inl full ↦
      let r = (dl_resize v (v.capacity * 2)).1 in
      let (ok, total, capacity) = dl_resize_room v (v.capacity * 2) (room full) in
      rw (dl_push-full v item full ok) (
        refl,
        append_item-contents r item
            ∙ ap (λ xs. xs ++ (item ∷ []))
                (dl_resize-contents v (v.capacity * 2) (omega arith) (omega arith)),
        omega arith,
      )
  | inr free ↦ rw (dl_push-room v item free) (refl, append_item-contents v item, omega arith)
]

-- the list without the item at an index
unfoldable pub delete : ℕ → List Ptr → List Ptr
delete i [] = []
delete zero (x ∷ xs) = xs
delete (suc i) (x ∷ xs) = x ∷ delete i xs

shift_down_lem :
    (f : ℕ → Ptr) (i n j : ℕ)
    → j < i + n
    → shift_down f i n j ≡ (if ltb j i then f j else f (j + 1))
unfolding shift_down
shift_down_lem f i zero j h = ground arith
shift_down_lem f i (suc n) j h =
    ground (arith, shift_down_lem (store (store f i (f (i + 1))) (i + 1) 0) (i + 1) n j)

from_cells-shifted :
    (f g : ℕ → Ptr) (k n : ℕ)
    → ((j : ℕ) → k ≤ j → j < k + n → g j ≡ f (j + 1))
    → from_cells g k n ≡ from_cells f (k + 1) n
unfolding from_cells
from_cells-shifted f g k zero same = refl
from_cells-shifted f g k (suc n) same =
    ap (λ y. y ∷ from_cells g (k + 1) n) (same k (omega arith) (omega arith))
    ∙ ap (λ ys. f (k + 1) ∷ ys)
        (from_cells-shifted f g (k + 1) n (λ j lo hi. same j (omega arith) (omega arith)))

from_cells-delete :
    (f g : ℕ → Ptr) (k d n : ℕ)
    → d ≤ n
    → ((j : ℕ) → j < k + n → g j ≡ (if ltb j (k + d) then f j else f (j + 1)))
    → from_cells g k n ≡ delete d (from_cells f k (suc n))
unfolding from_cells delete
from_cells-delete f g k zero n le same =
    from_cells-shifted f g k n (λ j lo hi. same j hi ∙ ground arith)
from_cells-delete f g k (suc d) zero le same = absurd (omega arith)
from_cells-delete f g k (suc d) (suc n) le same =
    let first : g k ≡ f k = same k (omega arith) ∙ ground arith in
    let place : k + suc d ≡ k + 1 + d = omega arith in
    ap (λ y. y ∷ from_cells g (k + 1) n) first
    ∙ ap (λ ys. f k ∷ ys)
        (from_cells-delete f g (k + 1) d n (omega arith)
          (λ j hi. same j (omega arith) ∙ ap (λ b. if ltb j b then f j else f (j + 1)) place))

-- what `dl_pop` leaves before it gives memory back
shorter : Dl → ℕ → Dl
shorter v i = record v {
  cells = λ a.
      if v.items == a
      then shift_down (store (v.cells v.items) i 0) i (v.total - 1 - i)
      else v.cells a;
  total = v.total - 1;
}

shorter-contents : (v : Dl) (i : ℕ) → i < v.total → contents (shorter v i) ≡ delete i (contents v)
unfolding contents shorter
shorter-contents v i h =
    let f = v.cells v.items in
    let n : v.total ≡ suc (v.total - 1) = omega arith in
    rw (==_refl v.items) (
      from_cells-delete f (shift_down (store f i 0) i (v.total - 1 - i)) 0 i (v.total - 1)
        (omega arith)
        (λ j hi. shift_down_lem (store f i 0) i (v.total - 1 - i) j (omega arith) ∙ ground arith)
      ∙ ap (λ t. delete i (from_cells f 0 t)) (sym n))

-- For a capacity below 2 ^ 30: `dl_pop` of an index of the list succeeds and takes the item at the index
-- out of the list, whether memory is given back or not; of another index it fails and changes nothing.
pub dl_pop-contents :
    (v : Dl) (index : ℤ)
    → v.capacity < 2 ^ 30
    → (in_list v index ≡ true
        → ((dl_pop v index).0 ≡ pos 0)
          × (contents (dl_pop v index).1 ≡ delete (index_of index) (contents v)))
      × (in_list v index ≡ false → dl_pop v index ≡ (minus_one, v))
unfolding dl_pop shorter
dl_pop-contents v (pos i) small = (
  λ inside. (
    rw (dl_pop, inside) refl,
    rw (dl_pop, inside)
        (elim (Bool-cases (ltb 0 (v.total - 1) && (v.total - 1 == v.capacity / 4))) [
          | inl shrinks ↦ rw shrinks (
              dl_resize-contents (shorter v i) (v.capacity / 2) (ground (arith, shrinks))
                (omega arith)
              ∙ shorter-contents v i (ltb→lt i v.total inside))
          | inr stays ↦ rw stays (shorter-contents v i (ltb→lt i v.total inside))
        ]),
  ),
  λ outside. rw (dl_pop, outside) refl,
)
dl_pop-contents v (negsuc i) small = (λ inside. absurd cc, λ outside. refl)
