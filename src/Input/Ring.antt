-- ===== src/Input/Ring.antt =====
-- The key buffer of kernel/input.c as a queue of at most 1999 characters.
use osakauss.Common.{
  ℕ, zero, suc, ◌+◌, ◌-◌, ◌%◌, ◌<◌, ◌≡◌, refl, sym, ap, ◌∙◌, ◌≢◌, true, false, List, [], ◌∷◌, ◌++◌,
  none, some, ltb, ==_ne, ==_refl, ==_iff, lt→ltb, arith, length,
}
use osakauss.Klibc.Mem.{store}
use osakauss.Input.{
  KeyBuffer, buffer_size, dec32, put_key, make_room, key_buffer_append, take_key, wait_key,
  read_key_buffer,
}

abbrev pub IsValid : KeyBuffer → Type 0
IsValid kb = (kb.r < buffer_size) × (kb.w < buffer_size)

-- `n` characters of the ring, from `r` on
unfoldable pub from_ring : (ℕ → ℕ) → ℕ → ℕ → List ℕ
from_ring buf r zero = []
from_ring buf r (suc n) = buf r ∷ from_ring buf ((r + 1) % buffer_size) n

abbrev pub held : KeyBuffer → ℕ
held kb = (kb.w + buffer_size - kb.r) % buffer_size

-- the characters that wait to be read
unfoldable pub queued : KeyBuffer → List ℕ
queued kb = from_ring kb.buf kb.r (held kb)

pub length-from_ring : (buf : ℕ → ℕ) (r n : ℕ) → length (from_ring buf r n) ≡ n
unfolding from_ring
length-from_ring buf r zero = refl
length-from_ring buf r (suc n) = ap suc (length-from_ring buf ((r + 1) % buffer_size) n)

from_ring-snoc :
    (buf : ℕ → ℕ) (r n c : ℕ)
    → r < buffer_size
    → n < buffer_size - 1
    → from_ring (store buf ((r + n) % buffer_size) c) r (suc n) ≡ from_ring buf r n ++ (c ∷ [])
unfolding from_ring
from_ring-snoc buf r zero c hr hn =
    let e : (r + 0) % 2000 ≡ r = omega arith in ap (λ x. x ∷ []) (rw (e, ==_refl r) refl)
from_ring-snoc buf r (suc n) c hr hn =
    let apart : (r + suc n) % 2000 ≢ r = omega arith in
    let e : (r + suc n) % 2000 ≡ ((r + 1) % 2000 + n) % 2000 = omega arith in
    ap (λ x. x ∷ from_ring (store buf ((r + suc n) % 2000) c) ((r + 1) % 2000) (suc n))
      (rw (==_ne ((r + suc n) % 2000) r apart) refl)
    ∙ ap (λ xs. buf r ∷ xs)
        (ap (λ i. from_ring (store buf i c) ((r + 1) % 2000) (suc n)) e
          ∙ from_ring-snoc buf ((r + 1) % 2000) n c (omega arith) (omega arith))

make_room-free :
    (kb : KeyBuffer) → kb.w ≢ (kb.r + buffer_size - 1) % buffer_size → make_room kb ≡ kb
unfolding make_room
make_room-free kb ne = rw (==_ne kb.w ((kb.r + 2000 - 1) % 2000) ne) refl

make_room-full :
    (kb : KeyBuffer)
    → kb.w ≡ (kb.r + buffer_size - 1) % buffer_size
    → make_room kb ≡ record kb { w = 0; r = 0 }
unfolding make_room
make_room-full kb e = rw ((==_iff kb.w ((kb.r + 2000 - 1) % 2000)).1 e) refl

put_key-inside :
    (kb : KeyBuffer) (c : ℕ)
    → kb.w < buffer_size
    → put_key kb c ≡ some (record kb { buf = store kb.buf kb.w c; w = (kb.w + 1) % buffer_size })
unfolding put_key
put_key-inside kb c h = rw (lt→ltb kb.w 2000 h) refl

key_buffer_append-plain :
    (kb : KeyBuffer) (c : ℕ) → c ≢ 0 → c ≢ 8 → key_buffer_append kb c ≡ put_key (make_room kb) c
unfolding key_buffer_append
key_buffer_append-plain kb c nonzero key = rw (==_ne c 0 nonzero, ==_ne c 8 key) refl

-- A character that is neither NUL nor a backspace, appended to a ring that is not full, is written
-- inside of the ring and goes to the end of the queue.
pub queued-append :
    (kb : KeyBuffer) (c : ℕ)
    → IsValid kb
    → c ≢ 0
    → c ≢ 8
    → length (queued kb) < 1999
    → (kb' : KeyBuffer) × (key_buffer_append kb c ≡ some kb')
      × IsValid kb'
      × (queued kb' ≡ queued kb ++ (c ∷ []))
unfolding queued
queued-append kb c valid nonzero key room =
    let few : held kb < 1999 = rw (length-from_ring kb.buf kb.r (held kb)) at room in
    let kb' : KeyBuffer = record kb { buf = store kb.buf kb.w c; w = (kb.w + 1) % buffer_size } in
    let free : kb.w ≢ (kb.r + buffer_size - 1) % buffer_size = omega arith in
    let more : held kb' ≡ suc (held kb) = omega arith in
    let place : kb.w ≡ (kb.r + held kb) % 2000 = omega arith in
    (
      kb',
      key_buffer_append-plain kb c nonzero key
          ∙ ap (λ k. put_key k c) (make_room-free kb free)
          ∙ put_key-inside kb c valid.1,
      (valid.0, omega arith),
      ap (from_ring kb'.buf kb.r) more
          ∙ ap (λ i. from_ring (store kb.buf i c) kb.r (suc (held kb))) place
          ∙ from_ring-snoc kb.buf kb.r (held kb) c valid.0 few,
    )

-- A character that is neither NUL nor a backspace, appended to a full ring, becomes the only one:
-- the 1999 characters that waited are dropped.
pub queued-append_full :
    (kb : KeyBuffer) (c : ℕ)
    → IsValid kb
    → c ≢ 0
    → c ≢ 8
    → length (queued kb) ≡ 1999
    → (kb' : KeyBuffer) × (key_buffer_append kb c ≡ some kb') × IsValid kb' × (queued kb' ≡ c ∷ [])
unfolding queued from_ring
queued-append_full kb c valid nonzero key full =
    let all : held kb ≡ 1999 = rw (length-from_ring kb.buf kb.r (held kb)) at full in
    let last : kb.w ≡ (kb.r + 2000 - 1) % 2000 = omega arith in
    (
      record { buf = store kb.buf 0 c; w = 1; r = 0 },
      key_buffer_append-plain kb c nonzero key
          ∙ ap (λ k. put_key k c) (make_room-full kb last)
          ∙ put_key-inside (record kb { w = 0; r = 0 }) c (omega arith),
      (omega arith, omega arith),
      from_ring-snoc kb.buf 0 0 c (omega arith) (omega arith),
    )

-- Reading without waiting, from a ring that is not empty, gives the head of the queue.
take_key-queued :
    (kb : KeyBuffer)
    → IsValid kb
    → kb.w ≢ kb.r
    → IsValid (take_key kb).1 × (queued kb ≡ (take_key kb).0 ∷ queued (take_key kb).1)
unfolding take_key queued from_ring
take_key-queued kb valid ne =
    let rest : ℕ = (kb.w + buffer_size - (kb.r + 1) % buffer_size) % buffer_size in
    let more : held kb ≡ suc rest = omega arith in
    ((omega arith, valid.1), ap (from_ring kb.buf kb.r) more)

wait_key-ready :
    (kb : KeyBuffer) (typed : List ℕ) → kb.w ≢ kb.r → wait_key kb typed ≡ some (kb, typed)
unfolding wait_key
wait_key-ready kb [] ne = rw (==_ne kb.w kb.r ne) refl
wait_key-ready kb (c ∷ typed) ne = rw (==_ne kb.w kb.r ne) refl

queued-empty : (kb : KeyBuffer) → IsValid kb → kb.w ≡ kb.r → queued kb ≡ []
unfolding queued from_ring
queued-empty kb valid e =
    let none_held : held kb ≡ 0 = omega arith in ap (from_ring kb.buf kb.r) none_held

-- A blocking read of a ring that is not empty does not wait: it gives the head of the queue, and
-- leaves the rest of it and the interrupts to come.
pub read_key_buffer-queued :
    (kb : KeyBuffer) (typed : List ℕ) (c : ℕ) (cs : List ℕ)
    → IsValid kb
    → queued kb ≡ c ∷ cs
    → (kb' : KeyBuffer) × (read_key_buffer true kb typed ≡ some (c, kb', typed))
      × IsValid kb'
      × (queued kb' ≡ cs)
unfolding read_key_buffer
read_key_buffer-queued kb typed c cs valid e =
    let ne : kb.w ≢ kb.r = λ same. absurd (cc (e, queued-empty kb valid same)) in
    let taken = take_key-queued kb valid ne in
    let parts : c ∷ cs ≡ (take_key kb).0 ∷ queued (take_key kb).1 = sym e ∙ taken.1 in
    let head : (take_key kb).0 ≡ c = cc in
    let tail : queued (take_key kb).1 ≡ cs = cc in
    (
      (take_key kb).1,
      rw (read_key_buffer, wait_key-ready kb typed ne)
          (ap (λ x. some (x, (take_key kb).1, typed)) head),
      taken.0,
      tail,
    )

make_room-zero : (kb : KeyBuffer) → kb.w ≡ 0 → (make_room kb).w ≡ 0
unfolding make_room
make_room-zero kb e = ground arith

-- A backspace that is appended when the write position is 0 is written outside of the ring.
pub key_buffer_append-backspace_zero : (kb : KeyBuffer) → kb.w ≡ 0 → key_buffer_append kb 8 ≡ none
unfolding key_buffer_append put_key
key_buffer_append-backspace_zero kb e =
    let far : ltb (dec32 (make_room kb).w) 2000 ≡ false =
      ap (λ w. ltb (dec32 w) 2000) (make_room-zero kb e) in
    rw far refl
