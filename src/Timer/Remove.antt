-- ===== src/Timer/Remove.antt =====
-- RemoveTimer takes one timer's entry off the heap.
use chain_socket.Base.{
  ℕ, ◌+◌, ◌-◌, ◌≤◌, ◌<◌, ◌≡◌, refl, ◌≢◌, ◌∙◌, ap, true, List, ltb, ◌==◌, leb, not, ◌&&◌,
  if◌then◌else◌, length, length-take, arith, Bool-cases, inl, inr,
}
use chain_socket.Base.Outcome.{Yields}
use chain_socket.Timer.{HeapEntry, TimerManager, npos, parent, pop_back, resettle, remove_timer}
use chain_socket.Timer.Heap.{
  at, at-take, length-exchange, at-exchange, key, earlier-key, IsHeap, due, due-take,
}
use chain_socket.Timer.Wiring.{
  Wired, Absent, swapped, swap_heap-swapped, heap-swapped, swapped-Wired, swapped-Kept,
}
use chain_socket.Timer.Sift.{Settled, IsBridge, up_heap-Settled, down_heap-Settled}
use chain_socket.Timer.Schedule.{
  deadline, All, Others, Sound, SameTimers, SameTimers-trans, SameTimers-of_Kept, deadline-Kept,
}

-- Only the edges at `i`, above it or below it, may be out of order.
record Loose (h : List HeapEntry) (i : ℕ) : Type 0 where
  edges : (c : ℕ) → 0 < c → c < length h → c ≢ i → parent c ≢ i → key h (parent c) ≤ key h c
  bridge : IsBridge h i

resettle-Settled :
    (on : ℕ → Type 0) (m : TimerManager) (i : ℕ)
    → i < length m.heap
    → length m.heap ≤ npos
    → Wired on m
    → Loose m.heap i
    → Yields (Settled on m) (resettle m i)
unfolding resettle
resettle-Settled on m i hi small w v = elim (Bool-cases (ltb 0 i)) [
  | inr root ↦ rw root (
      down_heap-Settled on m i hi small w
        (record { edges = λ c p q r. ground (arith, v.edges c); bridge = v.bridge }))
  | inl above ↦
      let compared = earlier-key m.heap i (parent i) hi (omega arith) in
      elim (Bool-cases (ltb (key m.heap i) (key m.heap (parent i)))) [
        | inl less ↦
            rw (above, compared, less)
              (up_heap-Settled on m i hi small w (record {
                edges = λ c p q r. ground (arith, v.edges c, v.bridge c);
                bridge = v.bridge;
              }))
        | inr in_order ↦
            rw (above, compared, in_order)
              (down_heap-Settled on m i hi small w
                (record { edges = λ c p q r. ground (arith, v.edges c); bridge = v.bridge }))
      ]
]

-- Taking the last entry off leaves its timer without an entry, and the others in place.
module _ (m : TimerManager) (n t : ℕ) (size : length m.heap ≡ n + 1)
    (last : (at m.heap n).timer ≡ t) where
  popped_size : length (pop_back m).heap ≡ n
  unfolding pop_back
  popped_size = omega (arith, length-take (length m.heap - 1) m.heap)

  at-popped : (c : ℕ) → c < n → at (pop_back m).heap c ≡ at m.heap c
  unfolding pop_back
  at-popped c lt = at-take (length m.heap - 1) m.heap c (omega arith)

  popped-Wired : Wired All m → Wired (Others t) (pop_back m)
  unfolding pop_back
  popped-Wired w = record {
    indexed = λ c hc. ground (arith, popped_size, at-popped c, w.indexed c);
    timed = λ c hc. ground (arith, popped_size, at-popped c, w.timed c);
    linked = λ u o k. ground (arith, popped_size, at-popped (m.timers u).heap_index, w.linked u tt);
  }

  popped-Absent : Wired All m → Absent (pop_back m) t
  unfolding pop_back
  popped-Absent w c hc e = ground (arith, popped_size, at-popped c, w.indexed c, w.indexed n)

  popped_due :
      (now : ℕ)
      → due now (pop_back m).heap + (if leb (key m.heap n) now then 1 else 0) ≡ due now m.heap
  unfolding pop_back
  popped_due now =
      let same : length m.heap - 1 ≡ n = omega arith in rw same (due-take now n m.heap size)

module _ (m : TimerManager) where
  deadline-pop : (u : ℕ) → deadline (pop_back m) u ≡ deadline m u
  unfolding pop_back
  deadline-pop u = refl

  expires-pop : (u : ℕ) → ((pop_back m).timers u).expires ≡ (m.timers u).expires
  unfolding pop_back
  expires-pop u = refl

  same-pop : SameTimers m (pop_back m)
  unfolding pop_back
  same-pop = record { interval = λ u. refl; timer_type = λ u. refl; timer_fun = λ u. refl }

-- What RemoveTimer promises of its result: no entry for `t`, and all else as it was.
pub record Removed (m : TimerManager) (t : ℕ) (m' : TimerManager) : Type 0 where
  pub sound : Sound (Others t) m'
  pub absent : Absent m' t
  pub size : length m'.heap + 1 ≡ length m.heap
  pub others : (u : ℕ) → u ≢ t → deadline m' u ≡ deadline m u
  pub expires : (u : ℕ) → (m'.timers u).expires ≡ (m.timers u).expires
  pub same : SameTimers m m'
  pub due_less :
      (now : ℕ) → due now m'.heap + (if leb (m.timers t).expires now then 1 else 0) ≡ due now m.heap

popped-IsHeap :
    (m : TimerManager) (n : ℕ) → length m.heap ≡ n + 1 → IsHeap m.heap → IsHeap (pop_back m).heap
popped-IsHeap m n size ord c p q =
    let t = (at m.heap n).timer in
    let fewer = popped_size m n t size refl in
    ground (arith, fewer, at-popped m n t size refl c, at-popped m n t size refl (parent c), ord c)

-- RemoveTimer on an entry that is not the last puts the last one in its place.
exchanged-Loose :
    (m : TimerManager) (i n : ℕ)
    → length m.heap ≡ n + 1
    → i < n
    → IsHeap m.heap
    → Loose (pop_back (swapped m i n)).heap i
exchanged-Loose m i n size lt ord =
    let m1 = swapped m i n in
    let h1 = heap-swapped All m i n in
    let size1 : length m1.heap ≡ n + 1 = rw h1 (length-exchange m.heap i n ∙ size) in
    let t = (at m1.heap n).timer in
    let fewer = popped_size m1 n t size1 refl in
    let kept : (c : ℕ) → c < n → c ≢ i → key (pop_back m1).heap c ≡ key m.heap c = λ c below apart.
      ground (
        arith,
        at-popped m1 n t size1 refl c below,
        h1,
        at-exchange m.heap i n c (omega arith) (omega arith),
      ) in
    record {
      edges = λ c p q r s. ground (arith, fewer, kept c, kept (parent c), ord c);
      bridge = λ c p q r s. ground (arith, fewer, kept c, kept (parent i), ord c, ord i);
    }

-- The two cases of RemoveTimer, for the entry of `t` at `i` in a heap whose last index is `n`.
module _ (m : TimerManager) (t i n : ℕ) (s : Sound All m) (size : length m.heap ≡ n + 1)
    (hi : i < length m.heap) (here : (at m.heap i).timer ≡ t) where
  popped-Removed : i ≡ n → Removed m t (pop_back m)
  unfolding pop_back
  popped-Removed e =
      let last : (at m.heap n).timer ≡ t = rw e at here in
      let fewer = popped_size m n t size last in
      record {
        sound = record {
          ordered = popped-IsHeap m n size s.ordered;
          wired = popped-Wired m n t size last s.wired;
          small = omega (arith, fewer, size, s.small);
        };
        absent = popped-Absent m n t size last s.wired;
        size = omega (arith, fewer, size);
        others = λ u o. refl;
        expires = λ u. refl;
        same = record { interval = λ u. refl; timer_type = λ u. refl; timer_fun = λ u. refl };
        due_less = λ now. ground (arith, popped_due m n t size last now, s.wired.timed n);
      }

  resettled-Removed : i < n → Yields (Removed m t) (resettle (pop_back (swapped m i n)) i)
  resettled-Removed lt =
      let hn : n < length m.heap = omega (arith, size) in
      let m1 = swapped m i n in
      let wired1 = swapped-Wired All m i n s.wired hi hn in
      let kept1 = swapped-Kept All m i n s.wired hi hn s.small in
      let h1 = heap-swapped All m i n in
      let entry_n : at m1.heap n ≡ at m.heap i =
        ground (arith, h1, at-exchange m.heap i n n hi hn) in
      let last : (at m1.heap n).timer ≡ t = rw entry_n here in
      let time_n : key m1.heap n ≡ (m.timers t).expires =
        ap (λ e. e.time) entry_n ∙ s.wired.timed i hi ∙ ap (λ u. (m.timers u).expires) here in
      let size1 : length m1.heap ≡ n + 1 = kept1.size ∙ size in
      let fewer = popped_size m1 n t size1 last in
      let (m2, run, (ord, w, kept)) =
        resettle-Settled (Others t) (pop_back m1) i (omega (arith, fewer))
          (omega (arith, fewer, size, s.small)) (popped-Wired m1 n t size1 last wired1)
          (exchanged-Loose m i n size lt s.ordered) in
      (
        m2,
        run,
        record {
          sound = record {
            ordered = ord;
            wired = w;
            small = omega (arith, kept.size, fewer, size, s.small);
          };
          absent = kept.absent t (popped-Absent m1 n t size1 last wired1);
          size = omega (arith, kept.size, fewer, size);
          others = λ u o. deadline-Kept kept u ∙ deadline-pop m1 u ∙ deadline-Kept kept1 u;
          expires = λ u. kept.expires u ∙ expires-pop m1 u ∙ kept1.expires u;
          same =
              SameTimers-trans (SameTimers-of_Kept kept1)
                (SameTimers-trans (same-pop m1) (SameTimers-of_Kept kept));
          due_less = λ now. omega (
            arith,
            kept.due_same now,
            rw time_n at (popped_due m1 n t size1 last now),
            kept1.due_same now,
          );
        },
      )

-- RemoveTimer takes the entry of a timer that is set off the heap, and changes nothing else but
-- places: the other timers stay due when they were.
pub remove_timer-Removed :
    (m : TimerManager) (t : ℕ)
    → Sound All m
    → (m.timers t).heap_index ≢ npos
    → Yields (Removed m t) (remove_timer m t)
unfolding remove_timer
remove_timer-Removed m t s is_set =
    let i = (m.timers t).heap_index in
    let n = length m.heap - 1 in
    let (hi, here) = s.wired.linked t tt is_set in
    let size : length m.heap ≡ n + 1 = omega arith in
    let in_range : (not (length m.heap == 0) && ltb i (length m.heap)) ≡ true = ground arith in
    elim (Bool-cases (i == n)) [
      | inl at_end ↦
          let e : i ≡ n = ground arith in
          (pop_back m, rw (in_range, at_end), popped-Removed m t i n s size hi here e)
      | inr inside ↦
          let apart : i ≢ n = ground arith in
          let (m2, run, r) = resettled-Removed m t i n s size hi here (omega arith) in
          (m2, rw (in_range, inside, swap_heap-swapped All m i n hi (omega arith)) run, r)
    ]
