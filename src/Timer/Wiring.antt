-- ===== src/Timer/Wiring.antt =====
-- The links between the heap and the timers, and what SwapHeap does to them.
use chain_socket.Base.{ℕ, ◌≤◌, ◌<◌, ◌≡◌, refl, ◌≢◌, ◌∙◌, sym, ap, length, arith}
use chain_socket.Base.Outcome.{done}
use chain_socket.Timer.{TimerManager, npos, set_index, swap_heap}
use chain_socket.Timer.Heap.{
  at, entry-at, exchange, length-exchange, at-exchange, due, due-exchange,
}

-- Every entry is where its timer says, and has the timer's time; every timer of `on` that is set
-- is where it says.
pub record Wired (on : ℕ → Type 0) (m : TimerManager) : Type 0 where
  pub indexed : (i : ℕ) → i < length m.heap → (m.timers (at m.heap i).timer).heap_index ≡ i
  pub timed :
      (i : ℕ) → i < length m.heap → (at m.heap i).time ≡ (m.timers (at m.heap i).timer).expires
  pub linked :
      (t : ℕ)
      → on t
      → (m.timers t).heap_index ≢ npos
      → ((m.timers t).heap_index < length m.heap) × ((at m.heap (m.timers t).heap_index).timer ≡ t)

-- No entry is for this timer.
abbrev pub Absent : TimerManager → ℕ → Type 0
Absent m t = (i : ℕ) → i < length m.heap → (at m.heap i).timer ≢ t

-- The same timers, apart from where they are, and as many entries.
pub record Kept (m m' : TimerManager) : Type 0 where
  pub size : length m'.heap ≡ length m.heap
  pub expires : (t : ℕ) → (m'.timers t).expires ≡ (m.timers t).expires
  pub interval : (t : ℕ) → (m'.timers t).interval ≡ (m.timers t).interval
  pub timer_type : (t : ℕ) → (m'.timers t).timer_type ≡ (m.timers t).timer_type
  pub timer_fun : (t : ℕ) → (m'.timers t).timer_fun ≡ (m.timers t).timer_fun
  pub unset : (t : ℕ) → (m.timers t).heap_index ≡ npos → (m'.timers t).heap_index ≡ npos
  pub still_set : (t : ℕ) → (m.timers t).heap_index ≢ npos → (m'.timers t).heap_index ≢ npos
  pub absent : (t : ℕ) → Absent m t → Absent m' t
  pub due_same : (now : ℕ) → due now m'.heap ≡ due now m.heap

pub Kept-refl : (m : TimerManager) → Kept m m
Kept-refl m = record {
  size = refl;
  expires = λ t. refl;
  interval = λ t. refl;
  timer_type = λ t. refl;
  timer_fun = λ t. refl;
  unset = λ t e. e;
  still_set = λ t n. n;
  absent = λ t a. a;
  due_same = λ now. refl;
}

pub Kept-trans : {m n o : TimerManager} → Kept m n → Kept n o → Kept m o
Kept-trans k l = record {
  size = l.size ∙ k.size;
  expires = λ t. l.expires t ∙ k.expires t;
  interval = λ t. l.interval t ∙ k.interval t;
  timer_type = λ t. l.timer_type t ∙ k.timer_type t;
  timer_fun = λ t. l.timer_fun t ∙ k.timer_fun t;
  unset = λ t e. l.unset t (k.unset t e);
  still_set = λ t n. l.still_set t (k.still_set t n);
  absent = λ t a. l.absent t (k.absent t a);
  due_same = λ now. l.due_same now ∙ k.due_same now;
}

pub swapped : TimerManager → ℕ → ℕ → TimerManager
swapped m i j =
    set_index (set_index (record m { heap = exchange m.heap i j }) (at m.heap j).timer i)
      (at m.heap i).timer j

module _ (on : ℕ → Type 0) (m : TimerManager) (i j : ℕ) where
  pub swap_heap-swapped :
      i < length m.heap → j < length m.heap → swap_heap m i j ≡ done (swapped m i j)
  unfolding swap_heap swapped
  swap_heap-swapped hi hj = rw (
    entry-at m.heap i hi,
    entry-at m.heap j hj,
    entry-at (exchange m.heap i j) i (rw length-exchange hi),
    entry-at (exchange m.heap i j) j (rw length-exchange hj),
    first,
    second,
  )
    where
      first : at (exchange m.heap i j) i ≡ at m.heap j
      first = ground (arith, at-exchange m.heap i j i hi hj)

      second : at (exchange m.heap i j) j ≡ at m.heap i
      second = ground (arith, at-exchange m.heap i j j hi hj)

  pub heap-swapped : (swapped m i j).heap ≡ exchange m.heap i j
  unfolding swapped
  heap-swapped = refl

  module _ (w : Wired on m) (hi : i < length m.heap) (hj : j < length m.heap) where
    -- Different places hold different timers.
    index_apart :
        (c d : ℕ)
        → c < length m.heap
        → d < length m.heap
        → (at m.heap c).timer ≡ (at m.heap d).timer
        → c ≡ d
    index_apart c d hc hd e =
        sym (w.indexed c hc) ∙ ap (λ t. (m.timers t).heap_index) e ∙ w.indexed d hd

    pub swapped-Wired : Wired on (swapped m i j)
    unfolding swapped
    swapped-Wired = record {
      indexed = λ c hc. ground (
        arith,
        at-exchange m.heap i j c hi hj,
        length-exchange m.heap i j,
        index_apart c i,
        index_apart c j,
        index_apart i j,
        w.indexed c,
      );
      timed = λ c hc. ground (
        arith,
        at-exchange m.heap i j c hi hj,
        length-exchange m.heap i j,
        w.timed c,
        w.timed i,
        w.timed j,
      );
      linked = λ t o n. ground (
        arith,
        at-exchange m.heap i j i hi hj,
        at-exchange m.heap i j j hi hj,
        at-exchange m.heap i j (m.timers t).heap_index hi hj,
        length-exchange m.heap i j,
        w.linked t o,
      );
    }

    pub swapped-Kept : length m.heap ≤ npos → Kept m (swapped m i j)
    unfolding swapped
    swapped-Kept small = record {
      size = length-exchange m.heap i j;
      expires = λ t. ground arith;
      interval = λ t. ground arith;
      timer_type = λ t. ground arith;
      timer_fun = λ t. ground arith;
      unset = λ t e. ground (arith, w.indexed i, w.indexed j);
      still_set = λ t n. ground arith;
      absent = λ t a c hc.
          ground (arith, at-exchange m.heap i j c hi hj, length-exchange m.heap i j, a i, a j, a c);
      due_same = λ now. due-exchange now m.heap i j hi hj;
    }
