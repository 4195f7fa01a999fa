-- ===== src/Buffer/Contents.antt =====
-- The bytes that a buffer holds, and what each operation of Buffer.cpp does to them.
use chain_socket.Base.{
  ℕ, ◌+◌, ◌-◌, ◌*◌, ◌≤◌, ◌<◌, ◌≡◌, refl, List, [], ◌++◌, Option, none, some, ltb, leb, ◌==◌,
  if◌then◌else◌, length, take, drop, arith, Bool-cases, inl, inr, length-append, length-take,
  length-drop, take-append_length, drop-take, Option-cases, ◌∙◌, ◌≢◌, subst, take-take_le, false,
}
use chain_socket.Base.Outcome.{Outcome, done, ◌>>=◌, Yields, Yields-bind}
use chain_socket.Buffer.{
  MessageBuffer, Allocator, buffer_size, int_max, room_for, to_int, copy, regrow, push_back, alloc,
  alloc_n, shift_down, erase,
}

-- The buffer owns a block of its capacity, which its size does not exceed.
pub record Owns (b : MessageBuffer) (block : List ℕ) : Type 0 where
  pub owned : b.buff ≡ some block
  pub sized : length block ≡ b.capacity
  pub fits : b.size ≤ b.capacity

abbrev pub IsValid : MessageBuffer → Type 0
IsValid b = (block : List ℕ) × Owns b block

abbrev bytes_of : Option (List ℕ) → ℕ → List ℕ
bytes_of none n = []
bytes_of (some block) n = take n block

-- The bytes that are waiting, oldest first.
abbrev pub contents : MessageBuffer → List ℕ
contents b = bytes_of b.buff b.size

-- The allocator grants every request.
abbrev pub Grants : Allocator → Type 0
Grants a = (old : Option (List ℕ)) (n : ℕ) → a.realloc old n ≢ none

pub length-contents : (b : MessageBuffer) → IsValid b → length (contents b) ≡ b.size
length-contents b (block, v) = rw v.owned (omega (arith, length-take b.size block, v.sized, v.fits))

pub copy_lem :
    (block bytes : List ℕ) (at : ℕ)
    → at + length bytes ≤ length block
    → (block' : List ℕ) × (copy (some block) at bytes ≡ done (some block'))
      × (length block' ≡ length block)
      × (take (at + length bytes) block' ≡ take at block ++ bytes)
unfolding copy
copy_lem block bytes at h = (
  take at block ++ bytes ++ drop (at + length bytes) block,
  ground arith,
  omega (
    arith,
    length-append (take at block ++ bytes) (drop (at + length bytes) block),
    front,
    length-drop (at + length bytes) block,
  ),
  take-append_length (at + length bytes) (take at block ++ bytes) _ front,
)
  where
    front : length (take at block ++ bytes) ≡ at + length bytes
    front = omega (arith, length-append (take at block) bytes, length-take at block)

-- `realloc` leaves a valid buffer, and the first `k` bytes as they were.
regrow_lem :
    (a : Allocator) (b : MessageBuffer) (block : List ℕ) (k : ℕ)
    → Grants a
    → b.buff ≡ some block
    → k ≤ length block
    → k ≤ b.capacity
    → b.size ≤ b.capacity
    → Yields
        (λ b'.
          (block' : List ℕ) × Owns b' block'
          × (take k block' ≡ take k block)
          × (b'.size ≡ b.size)
          × (b'.capacity ≡ b.capacity))
        (regrow a b)
unfolding regrow
regrow_lem a b block k g owned old new fits = elim (Option-cases (a.realloc b.buff b.capacity)) [
  | inl refused ↦ absurd (g b.buff b.capacity refused)
  | inr (block', granted) ↦ (
    record b { buff = some block' },
    rw (granted, regrow),
    (
      block',
      record { owned = refl; sized = a.realloc_size b.buff b.capacity block' granted; fits = fits },
      a.realloc_keeps block b.capacity block' k (rw owned at granted) old new,
      refl,
      refl,
    ),
  )
]

pub to_int_lem : (n : ℕ) → n ≤ int_max → to_int n ≡ done n
to_int_lem n h = ground arith

-- The last lines of push_back, on a buffer with room.
abbrev store : MessageBuffer → List ℕ → ℕ → Outcome MessageBuffer
store b bytes new_size = do
  buff ← copy b.buff b.size bytes
  done (record b { buff = buff; size = new_size })

-- A valid buffer of these bytes, with more than two blocks of room behind them.
abbrev pub HoldsWithRoom : List ℕ → MessageBuffer → Type 0
HoldsWithRoom bytes b = IsValid b × (contents b ≡ bytes) × (b.size + 2 * buffer_size < b.capacity)

store_lem :
    (b : MessageBuffer) (bytes : List ℕ) (new_size : ℕ)
    → IsValid b
    → new_size ≡ b.size + length bytes
    → new_size + 2 * buffer_size < b.capacity
    → Yields (HoldsWithRoom (contents b ++ bytes)) (store b bytes new_size)
store_lem b bytes new_size (block, v) e room =
    let (block', copied, len, front) = copy_lem block bytes b.size (omega (arith, v.sized)) in
    (
      record b { buff = some block'; size = new_size },
      rw (v.owned, copied),
      (
        (block', record { owned = refl; sized = len ∙ v.sized; fits = omega arith }),
        rw (e, v.owned) front,
        room,
      ),
    )

-- A valid buffer that still holds the same bytes, with `n` bytes of room past its size.
abbrev Roomy : MessageBuffer → ℕ → MessageBuffer → Type 0
Roomy b n b' =
    IsValid b' × (contents b' ≡ contents b) × (b'.size ≡ b.size) × (b.size + n ≤ b'.capacity)

regrow-Roomy :
    (a : Allocator) (b : MessageBuffer) (n : ℕ)
    → Grants a
    → IsValid b
    → Yields
        (Roomy b (n + 2 * buffer_size + 1))
        (regrow a (record b { capacity = room_for (b.size + n) }))
regrow-Roomy a b n g (block, v) =
    let cap = room_for (b.size + n) in
    let (b', grown, (block', v', kept, same, cap')) =
      regrow_lem a (record b { capacity = cap }) block b.size g v.owned
        (omega (arith, v.sized, v.fits)) (omega arith) (omega arith) in
    (b', grown, ((block', v'), rw (v'.owned, same, v.owned) kept, same, omega (arith, cap')))

-- On a valid buffer, when the allocator grants its requests and the sizes fit an int, push_back
-- appends the bytes, and leaves more than two blocks of room behind them.
pub push_back_appends :
    (a : Allocator) (b : MessageBuffer) (bytes : List ℕ)
    → Grants a
    → IsValid b
    → b.size + length bytes + 3 * buffer_size ≤ int_max
    → Yields (HoldsWithRoom (contents b ++ bytes)) (push_back a b bytes)
unfolding push_back
push_back_appends a b bytes g v small =
    rw
      (
        to_int_lem (b.size + length bytes) (omega arith),
        to_int_lem (room_for (b.size + length bytes)) (omega arith),
      )
      (Yields-bind (Roomy b (length bytes + 2 * buffer_size + 1)) _ _ _ grown
        (λ b' (v', kept, same, room).
          rw (← kept) (store_lem b' bytes (b.size + length bytes) v' (omega arith) (omega arith))))
  where
    grown : Yields (Roomy b (length bytes + 2 * buffer_size + 1)) (
        if leb b.capacity (b.size + length bytes + buffer_size * 2)
        then regrow a (record b { capacity = room_for (b.size + length bytes) })
        else done b)
    grown = elim (Bool-cases (leb b.capacity (b.size + length bytes + buffer_size * 2))) [
      | inl tight ↦ rw tight (regrow-Roomy a b (length bytes) g v)
      | inr roomy ↦ rw roomy (b, refl, (v, refl, refl, ground arith))
    ]

-- When the allocator grants its requests and the sizes fit an int, alloc() keeps the bytes of a
-- valid buffer and leaves at least two blocks of room behind them, for the next recv.
pub alloc_keeps :
    (a : Allocator) (b : MessageBuffer)
    → Grants a
    → IsValid b
    → b.size + 3 * buffer_size ≤ int_max
    → Yields
        (λ b'.
          IsValid b'
          × (contents b' ≡ contents b)
          × (b'.size ≡ b.size)
          × (b.size + 2 * buffer_size ≤ b'.capacity))
        (alloc a b)
unfolding alloc
alloc_keeps a b g (block, v) small =
    elim (Bool-cases (leb (buffer_size * 2) (b.capacity - b.size))) [
      | inl roomy ↦ rw roomy (b, refl, ((block, v), refl, refl, ground arith))
      | inr tight ↦
          let cap = room_for b.size in
          let fits : to_int cap ≡ done cap = to_int_lem cap (omega arith) in
          elim (Option-cases (a.realloc b.buff cap)) [
            | inl refused ↦ absurd (g b.buff cap refused)
            | inr (block', granted) ↦
                let kept =
                  a.realloc_keeps block cap block' b.size (rw v.owned at granted)
                    (omega (arith, v.sized, v.fits)) (omega arith) in
                (
                  record b { capacity = cap; buff = some block' },
                  rw (tight, fits, v.owned, granted),
                  (
                    (
                      block',
                      record {
                        owned = refl;
                        sized = a.realloc_size b.buff cap block' granted;
                        fits = omega arith;
                      },
                    ),
                    rw v.owned kept,
                    refl,
                    omega arith,
                  ),
                )
          ]
    ]

-- alloc(n) keeps the bytes of a valid buffer, makes it n bytes longer and returns the offset at
-- which the new bytes begin; the allocator grants its requests, and the sizes fit an int.
pub alloc_n_extends :
    (a : Allocator) (b : MessageBuffer) (n : ℕ)
    → Grants a
    → IsValid b
    → b.size + n + 3 * buffer_size ≤ int_max
    → Yields
        (λ r.
          IsValid r.0
          × (take b.size (contents r.0) ≡ contents b)
          × (r.0.size ≡ b.size + n)
          × (r.0.size + 2 * buffer_size ≤ r.0.capacity)
          × (r.1 ≡ b.size))
        (alloc_n a b n)
unfolding alloc_n
alloc_n_extends a b n g (block, v) small =
    rw (to_int_lem (b.size + n) (omega arith), to_int_lem (room_for (b.size + n)) (omega arith))
      (elim (Bool-cases (leb (buffer_size * 2) (b.capacity - (b.size + n)))) [
        | inl roomy ↦ (
          (record b { size = b.size + n }, b.size + n - n),
          rw roomy,
          (
            (block, record { owned = v.owned; sized = v.sized; fits = ground arith }),
            rw v.owned (take-take_le b.size (b.size + n) block (omega arith)),
            refl,
            ground arith,
            omega arith,
          ),
        )
        | inr tight ↦
            let cap = room_for (b.size + n) in
            let (b', grown, (block', v', kept, size, cap')) =
              regrow_lem a (record b { capacity = cap; size = b.size + n }) block b.size g v.owned
                (omega (arith, v.sized, v.fits)) (omega arith) (omega arith) in
            (
              (b', b.size + n - n),
              rw (tight, grown),
              (
                (block', v'),
                rw (v'.owned, v.owned)
                    (take-take_le b.size b'.size block' (omega (arith, size)) ∙ kept),
                size,
                omega (arith, size, cap'),
                omega arith,
              ),
            )
      ])

-- erase(len) drops the first len bytes of a valid buffer that holds as many.
pub erase_drops :
    (b : MessageBuffer) (len : ℕ)
    → IsValid b
    → len ≤ b.size
    → Yields
        (λ b'.
          IsValid b'
          × (contents b' ≡ drop len (contents b))
          × (b'.size ≡ b.size - len)
          × (b'.capacity ≡ b.capacity))
        (erase b len)
unfolding erase shift_down
erase_drops b len (block, v) h = elim (Bool-cases (len == 0)) [
  | inl none_asked ↦
      let e : len ≡ 0 = ground arith in
      rw none_asked (b, refl, ((block, v), rw e, omega arith, refl))
  | inr some_asked ↦
      let in_range : ltb b.size len ≡ false = ground arith in
      let no_overrun : ltb (length block) b.size ≡ false = ground (arith, v.sized, v.fits) in
      elim (Bool-cases (ltb len b.size)) [
        | inl part ↦
            let rest = take (b.size - len) (drop len block) in
            let long : length rest ≡ b.size - len = omega (
              arith,
              length-take (b.size - len) (drop len block),
              length-drop len block,
              v.sized,
              v.fits,
            ) in
            let (block', copied, size, front) =
              copy_lem block rest 0 (omega (arith, long, v.sized, v.fits)) in
            (
              record b { buff = some block'; size = b.size - len },
              rw (some_asked, in_range, part, v.owned, no_overrun, copied),
              (
                (
                  block',
                  record { owned = refl; sized = size ∙ v.sized; fits = omega (arith, v.fits) },
                ),
                rw (v.owned, drop-take len b.size block)
                    (subst (λ k. take k block' ≡ rest) (omega (arith, long)) front),
                refl,
                refl,
              ),
            )
        | inr whole ↦ (
          record b { size = b.size - len },
          rw (some_asked, in_range, whole),
          (
            (block, record { owned = v.owned; sized = v.sized; fits = omega (arith, v.fits) }),
            (let empty : b.size - len ≡ 0 = ground arith in
                rw (v.owned, drop-take len b.size block, empty)),
            refl,
            refl,
          ),
        )
      ]
]
