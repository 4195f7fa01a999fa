-- ===== src/Timer/Schedule.antt =====
-- The abstract view of a manager, when each timer is due, and what AddTimer does to it.
use chain_socket.Base.{
  ℕ, ◌+◌, ◌-◌, ◌≤◌, ◌<◌, ◌≡◌, ◌≢◌, ◌∙◌, [], ◌∷◌, ◌++◌, Option, none, some, ◌==◌, true, leb,
  if◌then◌else◌, length, arith, length-append,
}
use chain_socket.Base.Outcome.{Yields}
use chain_socket.Timer.{HeapEntry, TimerManager, npos, parent, set_index, up_heap, add_timer}
use chain_socket.Timer.Heap.{at-append, IsHeap, due, due-append}
use chain_socket.Timer.Wiring.{Wired, Kept, Absent}
use chain_socket.Timer.Sift.{Light, up_heap-Settled}

-- When a timer is due, if it is set.
abbrev pub deadline : TimerManager → ℕ → Option ℕ
deadline m t = if (m.timers t).heap_index == npos then none else some (m.timers t).expires

abbrev pub All : ℕ → Type 0
All t = Unit

abbrev pub Others : ℕ → ℕ → Type 0
Others t u = u ≢ t

-- A heap whose links hold for the timers of `on`, with indices that fit a size_t.
pub record Sound (on : ℕ → Type 0) (m : TimerManager) : Type 0 where
  pub ordered : IsHeap m.heap
  pub wired : Wired on m
  pub small : length m.heap ≤ npos

-- The same timers up to their places and times.
pub record SameTimers (m m' : TimerManager) : Type 0 where
  pub interval : (t : ℕ) → (m'.timers t).interval ≡ (m.timers t).interval
  pub timer_type : (t : ℕ) → (m'.timers t).timer_type ≡ (m.timers t).timer_type
  pub timer_fun : (t : ℕ) → (m'.timers t).timer_fun ≡ (m.timers t).timer_fun

pub SameTimers-trans : {m n o : TimerManager} → SameTimers m n → SameTimers n o → SameTimers m o
SameTimers-trans k l = record {
  interval = λ t. l.interval t ∙ k.interval t;
  timer_type = λ t. l.timer_type t ∙ k.timer_type t;
  timer_fun = λ t. l.timer_fun t ∙ k.timer_fun t;
}

pub SameTimers-of_Kept : {m m' : TimerManager} → Kept m m' → SameTimers m m'
SameTimers-of_Kept k = record {
  interval = k.interval;
  timer_type = k.timer_type;
  timer_fun = k.timer_fun;
}

pub deadline-Kept : {m m' : TimerManager} → Kept m m' → (t : ℕ) → deadline m' t ≡ deadline m t
deadline-Kept k t = ground (arith, k.expires t, k.unset t, k.still_set t)

module _ (m : TimerManager) (t : ℕ) where
  abbrev fresh : HeapEntry
  fresh = record { time = (m.timers t).expires; timer = t }

  -- What AddTimer leaves to UpHeap.
  abbrev grown : TimerManager
  grown = record (set_index m t (length m.heap)) { heap = m.heap ++ fresh ∷ [] }

  grown_size : length grown.heap ≡ length m.heap + 1
  grown_size = length-append m.heap (fresh ∷ [])

  grown-Wired : Wired (Others t) m → Absent m t → Wired All grown
  grown-Wired w a = record {
    indexed = λ c hc. ground (arith, grown_size, at-append m.heap fresh c, w.indexed c, a c);
    timed = λ c hc. ground (arith, grown_size, at-append m.heap fresh c, w.timed c, a c);
    linked = λ u o n. ground (
      arith,
      grown_size,
      at-append m.heap fresh (length m.heap),
      at-append m.heap fresh (m.timers u).heap_index,
      w.linked u,
    );
  }

  grown-Light : IsHeap m.heap → Light grown.heap (length m.heap)
  grown-Light ord = record {
    edges = λ c p q r.
        ground
          (arith, grown_size, at-append m.heap fresh c, at-append m.heap fresh (parent c), ord c);
    bridge = λ c p q r s. absurd (omega (arith, grown_size));
  }

  grown-SameTimers : SameTimers m grown
  grown-SameTimers = record {
    interval = λ u. ground arith;
    timer_type = λ u. ground arith;
    timer_fun = λ u. ground arith;
  }

  add_timer-grown : add_timer m t ≡ up_heap grown (length m.heap)
  unfolding add_timer
  add_timer-grown =
      let itself : (t == t) ≡ true = ground arith in
      let last : length (m.heap ++ fresh ∷ []) - 1 ≡ length m.heap = omega (arith, grown_size) in
      rw (itself, last)

-- What AddTimer promises of its result: `t` is due at its time, and all else is as it was.
pub record Added (m : TimerManager) (t : ℕ) (m' : TimerManager) : Type 0 where
  pub sound : Sound All m'
  pub size : length m'.heap ≡ length m.heap + 1
  pub due_at :
      (u : ℕ) → deadline m' u ≡ (if u == t then some (m.timers t).expires else deadline m u)
  pub same : SameTimers m m'
  pub due_more :
      (now : ℕ) → due now m'.heap ≡ due now m.heap + (if leb (m.timers t).expires now then 1 else 0)

-- AddTimer schedules a timer that has no entry at the time that it holds, and changes nothing else.
pub add_timer-Added :
    (m : TimerManager) (t : ℕ)
    → Sound (Others t) m
    → Absent m t
    → length m.heap < npos
    → Yields (Added m t) (add_timer m t)
add_timer-Added m t s a room =
    let size = grown_size m t in
    let (m', run, (ord, w, kept)) =
      up_heap-Settled All (grown m t) (length m.heap) (omega (arith, size)) (omega (arith, size))
        (grown-Wired m t s.wired a) (grown-Light m t s.ordered) in
    (
      m',
      rw add_timer-grown run,
      record {
        sound = record { ordered = ord; wired = w; small = omega (arith, kept.size, size) };
        size = kept.size ∙ size;
        due_at = λ u. deadline-Kept kept u ∙ ground arith;
        same = SameTimers-trans (grown-SameTimers m t) (SameTimers-of_Kept kept);
        due_more = λ now. kept.due_same now ∙ due-append now m.heap (fresh m t);
      },
    )
