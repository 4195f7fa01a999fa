-- ===== src/Buffer.antt =====
-- code/ChainSocket/Buffer.h and Buffer.cpp: the byte buffer `MessageBuffer` of a session.
-- An `int` that the code never makes negative is a number; a sum past INT_MAX is a fault.
pub mod Contents
pub mod Middle
pub mod Queue
pub mod Refusal
pub mod Samples
mod Tests
use chain_socket.Base.{
  ℕ, ◌+◌, ◌-◌, ◌*◌, ◌/◌, ◌^◌, ◌≤◌, ◌≡◌, List, [], ◌++◌, Option, none, some, ltb, leb, ◌==◌,
  if◌then◌else◌, length, take, drop,
}
use chain_socket.Base.Outcome.{Outcome, done, aborted, fault, ◌>>=◌}

abbrev pub buffer_size : ℕ
buffer_size = 1024

abbrev pub buffer_max_size : ℕ
buffer_max_size = 100 * 1024 * 1024

abbrev pub int_max : ℕ
int_max = 2 ^ 31 - 1

-- The C allocator, which is not part of the repository. A request may be refused; a block that is
-- granted has the size asked for, and a block that is moved keeps its first bytes.
pub record Allocator : Type 0 where
  pub malloc : ℕ → Option (List ℕ)
  pub realloc : Option (List ℕ) → ℕ → Option (List ℕ)
  pub malloc_size : (n : ℕ) (block : List ℕ) → malloc n ≡ some block → length block ≡ n
  pub realloc_size :
      (old : Option (List ℕ)) (n : ℕ) (block : List ℕ)
      → realloc old n ≡ some block
      → length block ≡ n
  pub realloc_keeps :
      (old : List ℕ) (n : ℕ) (block : List ℕ) (k : ℕ)
      → realloc (some old) n ≡ some block
      → k ≤ length old
      → k ≤ n
      → take k block ≡ take k old

pub record MessageBuffer : Type 0 where
  pub size : ℕ
  pub buff : Option (List ℕ)
  pub capacity : ℕ
  pub max_size : ℕ

-- The members' initialisers.
abbrev pub blank : MessageBuffer
blank = record { size = 0; buff = none; capacity = 0; max_size = buffer_max_size }

-- The result of `malloc` is not checked.
unfoldable pub init : Allocator → MessageBuffer → MessageBuffer
init a b = record {
  size = 0;
  buff = a.malloc buffer_size;
  capacity = buffer_size;
  max_size = buffer_max_size;
}

pub set_max_size : MessageBuffer → ℕ → MessageBuffer
set_max_size b size = record b { max_size = size }

pub destroy : MessageBuffer → MessageBuffer
destroy b = record b { capacity = 0; buff = none; size = 0 }

pub reset : Allocator → MessageBuffer → MessageBuffer
reset a b = init a (destroy b)

-- `memcpy(block + at, bytes, n)`, and `memmove`, which reads its source first.
pub copy : Option (List ℕ) → ℕ → List ℕ → Outcome (Option (List ℕ))
copy none at bytes = fault
copy (some block) at bytes =
    if ltb (length block) (at + length bytes)
    then fault
    else done (some (take at block ++ bytes ++ drop (at + length bytes) block))

-- An `int` result.
abbrev pub to_int : ℕ → Outcome ℕ
to_int n = if ltb int_max n then fault else done n

-- The capacity that the three growing functions ask for.
abbrev pub room_for : ℕ → ℕ
room_for n = (n / buffer_size + 3) * buffer_size

-- The call of `realloc` in `push_back` and `alloc(int)`, with its check.
pub regrow : Allocator → MessageBuffer → Outcome MessageBuffer
regrow a b = elim (a.realloc b.buff b.capacity) [
  | none ↦ aborted
  | some block ↦ done (record b { buff = some block })
]

-- `newSize >= capacity - BUFFER_SIZE * 2`, where the right side may be negative.
pub push_back : Allocator → MessageBuffer → List ℕ → Outcome MessageBuffer
push_back a b bytes = do
  new_size ← to_int (b.size + length bytes)
  cap ← to_int (room_for new_size)
  grown ←
      if leb b.capacity (new_size + buffer_size * 2)
      then regrow a (record b { capacity = cap })
      else done b
  buff ← copy grown.buff grown.size bytes
  done (record grown { buff = buff; size = new_size })

-- The check after `realloc` looks at the old pointer, not at the new one.
pub alloc : Allocator → MessageBuffer → Outcome MessageBuffer
alloc a b = if leb (buffer_size * 2) (b.capacity - b.size) then done b else (do
  new_size ← to_int (room_for b.size)
  let tmp = a.realloc b.buff new_size
  elim b.buff [ none ↦ aborted | some _ ↦ done (record b { capacity = new_size; buff = tmp }) ])

-- `alloc(int)`: the buffer, and the offset of the pointer that is returned.
pub alloc_n : Allocator → MessageBuffer → ℕ → Outcome (MessageBuffer × ℕ)
alloc_n a b n = do
  size ← to_int (b.size + n)
  let b' = record b { size = size }
  let grow : Outcome MessageBuffer = (do
    cap ← to_int (room_for size)
    regrow a (record b' { capacity = cap }))
  grown ← if leb (buffer_size * 2) (b'.capacity - b'.size) then done b' else grow
  done (grown, size - n)

-- `memmove(buff, buff + len, size - len)`
pub shift_down : Option (List ℕ) → ℕ → ℕ → Outcome (Option (List ℕ))
shift_down none len size = fault
shift_down (some block) len size =
    if ltb (length block) size
    then fault
    else copy (some block) 0 (take (size - len) (drop len block))

-- A length above the size would make the size negative, and the next copy write before the block.
pub erase : MessageBuffer → ℕ → Outcome MessageBuffer
erase b len = if len == 0 then done b else if ltb b.size len then fault else (do
  buff ← if ltb len b.size then shift_down b.buff len b.size else done b.buff
  done (record b { buff = buff; size = b.size - len }))
