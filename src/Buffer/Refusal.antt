-- ===== src/Buffer/Refusal.antt =====
-- What the growing functions of Buffer.cpp do when the allocator refuses.
use chain_socket.Base.{
  ℕ, ◌+◌, ◌*◌, ◌<◌, ◌≤◌, ◌≡◌, refl, ◌≢◌, List, [], none, arith, length, ◌↔◌, leb, ◌-◌, true, false,
  Option-cases, inl, inr,
}
use chain_socket.Base.Outcome.{aborted, Yields}
use chain_socket.Buffer.{
  MessageBuffer, Allocator, buffer_size, int_max, room_for, init, push_back, alloc, alloc_n, regrow,
}
use chain_socket.Buffer.Contents.{IsValid, contents, to_int_lem}

-- init leaves a valid buffer exactly when malloc granted its block, and then an empty one.
pub init_iff :
    (a : Allocator) (b : MessageBuffer)
    → (IsValid (init a b) ↔ (a.malloc buffer_size ≢ none)) × (contents (init a b) ≡ [])
unfolding init
init_iff a b = elim (Option-cases (a.malloc buffer_size)) [
  | inl refused ↦
      ((λ (block, v). absurd (cc (v.owned)), λ granted. absurd (granted refused)), rw refused)
  | inr (block, granted) ↦ (
    (
      λ v refused. cc,
      λ _. (
        block,
        record {
          owned = granted;
          sized = a.malloc_size buffer_size block granted;
          fits = omega arith;
        },
      ),
    ),
    rw granted,
  )
]

regrow-refused :
    (a : Allocator) (b : MessageBuffer) → a.realloc b.buff b.capacity ≡ none → regrow a b ≡ aborted
unfolding regrow
regrow-refused a b refused = rw (refused, regrow)

-- When a valid buffer short of room is refused every new block, alloc() still returns: it has
-- thrown the bytes away, and left a null block under its size and a new capacity. In the same
-- state push_back and alloc(int) abort. The sizes fit an int.
pub alloc_loses_bytes :
    (a : Allocator) (b : MessageBuffer) (bytes : List ℕ)
    → IsValid b
    → b.size + length bytes + 3 * buffer_size ≤ int_max
    → b.capacity < b.size + 2 * buffer_size
    → ((n : ℕ) → a.realloc b.buff n ≡ none)
    → Yields
        (λ b'.
          (¬ IsValid b')
          × (contents b' ≡ [])
          × (b'.size ≡ b.size)
          × (b'.capacity ≡ room_for b.size))
        (alloc a b)
      × (push_back a b bytes ≡ aborted)
      × (alloc_n a b (length bytes) ≡ aborted)
unfolding alloc push_back alloc_n
alloc_loses_bytes a b bytes (block, v) small tight refused =
    let cap = room_for b.size in
    let more = b.size + length bytes in
    let short : leb (buffer_size * 2) (b.capacity - b.size) ≡ false = ground arith in
    let shorter : leb (buffer_size * 2) (b.capacity - more) ≡ false = ground arith in
    let full : leb b.capacity (more + buffer_size * 2) ≡ true = ground arith in
    let fits = to_int_lem (room_for more) (omega arith) in
    let fits_more = to_int_lem more (omega arith) in
    (
      (
        record b { capacity = cap; buff = none },
        rw (short, to_int_lem cap (omega arith), v.owned, refused cap),
        (λ (block', v'). cc (v'.owned), refl, refl, refl),
      ),
      rw (
        fits_more,
        fits,
        full,
        regrow-refused a (record b { capacity = room_for more }) (refused _),
      ),
      rw (
        fits_more,
        shorter,
        fits,
        regrow-refused a (record b { size = more; capacity = room_for more }) (refused _),
      ),
    )
