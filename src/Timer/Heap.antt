-- ===== src/Timer/Heap.antt =====
-- Facts about the heap as a list: entries at an index, swaps and the heap order.
use chain_socket.Base.{
  ℕ, zero, suc, ◌+◌, ◌≤◌, ◌<◌, ◌≡◌, refl, leb, List, [], ◌∷◌, ◌++◌, ltb, ◌==◌, if◌then◌else◌,
  length, set, take, arith, get_or, length-set,
}
use chain_socket.Base.Outcome.{done}
use chain_socket.Timer.{HeapEntry, entry, earlier, parent}

abbrev nothing : HeapEntry
nothing = record { time = 0; timer = 0 }

-- The entry at an index that is in range.
unfoldable pub at : List HeapEntry → ℕ → HeapEntry
at h i = get_or h i nothing

pub entry-at : (h : List HeapEntry) (i : ℕ) → i < length h → entry h i ≡ done (at h i)
unfolding entry at
entry-at [] i lt = absurd (omega arith)
entry-at (x ∷ h) zero lt = refl
entry-at (x ∷ h) (suc i) lt = entry-at h i (omega arith)

pub at-set :
    (h : List HeapEntry) (i j : ℕ) (e : HeapEntry)
    → i < length h
    → at (set h i e) j ≡ (if i == j then e else at h j)
unfolding at
at-set [] i j e lt = absurd (omega arith)
at-set (x ∷ h) zero zero e lt = refl
at-set (x ∷ h) zero (suc j) e lt = ground arith
at-set (x ∷ h) (suc i) zero e lt = ground arith
at-set (x ∷ h) (suc i) (suc j) e lt = ground (arith, at-set h i j e)

pub at-append :
    (h : List HeapEntry) (e : HeapEntry) (i : ℕ)
    → i < length h + 1
    → at (h ++ e ∷ []) i ≡ (if i == length h then e else at h i)
unfolding at
at-append [] e zero lt = refl
at-append [] e (suc i) lt = absurd (omega arith)
at-append (x ∷ h) e zero lt = ground arith
at-append (x ∷ h) e (suc i) lt = ground (arith, at-append h e i)

pub at-take : (n : ℕ) (h : List HeapEntry) (i : ℕ) → i < n → at (take n h) i ≡ at h i
unfolding at
at-take zero h i lt = absurd (omega arith)
at-take (suc n) [] i lt = refl
at-take (suc n) (x ∷ h) zero lt = refl
at-take (suc n) (x ∷ h) (suc i) lt = at-take n h i (omega arith)

-- SwapHeap's exchange of two entries.
abbrev pub exchange : List HeapEntry → ℕ → ℕ → List HeapEntry
exchange h i j = set (set h i (at h j)) j (at h i)

pub length-exchange : (h : List HeapEntry) (i j : ℕ) → length (exchange h i j) ≡ length h
length-exchange h i j = rw (length-set, length-set)

pub at-exchange :
    (h : List HeapEntry) (i j c : ℕ)
    → i < length h
    → j < length h
    → at (exchange h i j) c ≡ (if j == c then at h i else if i == c then at h j else at h c)
at-exchange h i j c hi hj =
    rw (at-set (set h i (at h j)) j c (at h i) (rw length-set hj), at-set h i c (at h j) hi)

abbrev pub key : List HeapEntry → ℕ → ℕ
key h i = (at h i).time

pub earlier-key :
    (h : List HeapEntry) (i j : ℕ)
    → i < length h
    → j < length h
    → earlier h i j ≡ done (ltb (key h i) (key h j))
unfolding earlier
earlier-key h i j hi hj = rw (entry-at h i hi, entry-at h j hj)

-- No entry is earlier than the one above it.
abbrev pub IsHeap : List HeapEntry → Type 0
IsHeap h = (c : ℕ) → 0 < c → c < length h → key h (parent c) ≤ key h c

root_earliest_below :
    (f : ℕ) (h : List HeapEntry) (i : ℕ) → IsHeap h → i < f → i < length h → key h 0 ≤ key h i
root_earliest_below zero h i ord lt r = absurd (omega arith)
root_earliest_below (suc f) h i ord lt r =
    ground (arith, ord i, root_earliest_below f h (parent i) ord)

-- The root of a heap is an earliest entry.
pub root_earliest : (h : List HeapEntry) (i : ℕ) → IsHeap h → i < length h → key h 0 ≤ key h i
root_earliest h i ord r = root_earliest_below (suc i) h i ord (omega arith) r

-- How many entries have a time up to `now`.
unfoldable pub due : ℕ → List HeapEntry → ℕ
due now [] = 0
due now (e ∷ h) = (if leb e.time now then 1 else 0) + due now h

pub due-set :
    (now : ℕ) (h : List HeapEntry) (i : ℕ) (e : HeapEntry)
    → i < length h
    → due now (set h i e) + (if leb (key h i) now then 1 else 0)
      ≡ due now h + (if leb e.time now then 1 else 0)
unfolding due at
due-set now [] i e lt = absurd (omega arith)
due-set now (x ∷ h) zero e lt = omega arith
due-set now (x ∷ h) (suc i) e lt = omega (arith, due-set now h i e (omega arith))

pub due-exchange :
    (now : ℕ) (h : List HeapEntry) (i j : ℕ)
    → i < length h
    → j < length h
    → due now (exchange h i j) ≡ due now h
due-exchange now h i j hi hj =
    let second = due-set now (set h i (at h j)) j (at h i) (rw length-set hj) in
    ground (arith, second, due-set now h i (at h j) hi, at-set h i j (at h j) hi)

pub due-append :
    (now : ℕ) (h : List HeapEntry) (e : HeapEntry)
    → due now (h ++ e ∷ []) ≡ due now h + (if leb e.time now then 1 else 0)
unfolding due
due-append now [] e = omega arith
due-append now (x ∷ h) e = omega (arith, due-append now h e)

pub due-take :
    (now n : ℕ) (h : List HeapEntry)
    → length h ≡ n + 1
    → due now (take n h) + (if leb (key h n) now then 1 else 0) ≡ due now h
unfolding due at
due-take now n [] e = absurd (omega arith)
due-take now zero (x ∷ []) e = omega arith
due-take now zero (x ∷ y ∷ h) e = absurd (omega arith)
due-take now (suc n) (x ∷ h) e = omega (arith, due-take now n h (omega arith))
