-- ===== src/Timer/Fire.antt =====
-- One round of DetectTimers: the root is taken off the heap and its timer fires.
use chain_socket.Base.{
  ℕ, ◌+◌, ◌≤◌, ◌<◌, ◌≡◌, refl, sym, ◌≢◌, Option, none, some, ◌==◌, if◌then◌else◌, length, arith,
}
use chain_socket.Base.Outcome.{done, Yields}
use chain_socket.Timer.{
  Timer, TimerType, once, circle, TimerManager, Callback, npos, u64, store, set_index, remove_timer,
  rearm, on_timer,
}
use chain_socket.Timer.Heap.{at, key, root_earliest, due}
use chain_socket.Timer.Schedule.{deadline, All, Sound, SameTimers, add_timer-Added}
use chain_socket.Timer.Remove.{Removed, remove_timer-Removed}
use chain_socket.Timer.Control.{store-Sound, store-Sound_unset}

-- The timer of the root entry.
abbrev pub first : TimerManager → ℕ
first m = (at m.heap 0).timer

module _ (m : TimerManager) (s : Sound All m) (some_left : 0 < length m.heap) where
  pub first_set : (m.timers (first m)).heap_index ≢ npos
  first_set e = ground (arith, s.wired.indexed 0 some_left)

  pub first_time : key m.heap 0 ≡ (m.timers (first m)).expires
  first_time = s.wired.timed 0 some_left

  -- No timer is due before the one at the root.
  pub first_least : (u : ℕ) → (m.timers u).heap_index ≢ npos → key m.heap 0 ≤ (m.timers u).expires
  first_least u is_set =
      let (inside, here) = s.wired.linked u tt is_set in
      ground (
        arith,
        root_earliest m.heap (m.timers u).heap_index s.ordered inside,
        s.wired.timed (m.timers u).heap_index inside,
        here,
      )

-- When a timer is due after it has fired: an interval later if it is periodic, else not at all.
abbrev pub next_deadline : Timer → ℕ → Option ℕ
next_deadline tm now = elim tm.timer_type [ circle ↦ some (u64 (tm.interval + now)) | once ↦ none ]

-- What a round promises before the timer's function is called.
pub record Fired (m : TimerManager) (t now : ℕ) (m' : TimerManager) : Type 0 where
  pub sound : Sound All m'
  pub due_at :
      (u : ℕ) → deadline m' u ≡ (if u == t then next_deadline (m.timers t) now else deadline m u)
  pub same : SameTimers m m'
  pub due_fewer :
      ((m.timers t).timer_type ≡ circle → now < u64 ((m.timers t).interval + now))
      → (m.timers t).expires ≤ now
      → due now m'.heap + 1 ≡ due now m.heap

rearm-Fired :
    (m m1 : TimerManager) (t now : ℕ) (type : TimerType)
    → length m.heap ≤ npos
    → (m.timers t).timer_type ≡ type
    → Removed m t m1
    → Yields (Fired m t now) (rearm m1 t now type)
unfolding rearm
rearm-Fired m m1 t now once small e r = (
  set_index m1 t npos,
  refl,
  record {
    sound = store-Sound_unset m1 t _ r.sound r.absent refl;
    due_at = λ u. ground (arith, r.others u);
    same = record {
      interval = λ u. ground (arith, r.same.interval u);
      timer_type = λ u. ground (arith, r.same.timer_type u);
      timer_fun = λ u. ground (arith, r.same.timer_fun u);
    };
    due_fewer = λ later past. ground (arith, r.due_less now);
  },
)
rearm-Fired m m1 t now circle small e r =
    let tm : Timer = record (m1.timers t) { expires = u64 ((m1.timers t).interval + now) } in
    let (m2, run, added) =
      add_timer-Added (store m1 t tm) t (store-Sound m1 t tm r.sound r.absent) r.absent
        (omega (arith, r.size)) in
    (
      m2,
      run,
      record {
        sound = added.sound;
        due_at = λ u. ground (arith, added.due_at u, r.others u, r.same.interval t);
        same = record {
          interval = λ u. ground (arith, added.same.interval u, r.same.interval u);
          timer_type = λ u. ground (arith, added.same.timer_type u, r.same.timer_type u);
          timer_fun = λ u. ground (arith, added.same.timer_fun u, r.same.timer_fun u);
        };
        due_fewer = λ later past.
            ground (arith, r.due_less now, added.due_more now, r.same.interval t, later e);
      },
    )

-- A round of DetectTimers up to the call of the timer's function, then the call.
pub round-Fired :
    (call : Callback) (m : TimerManager) (t now : ℕ)
    → Sound All m
    → (m.timers t).heap_index ≢ npos
    → (m1 : TimerManager) × (remove_timer m t ≡ done m1)
      × (m2 : TimerManager) × Fired m t now m2
      × (on_timer call m1 t now ≡ done (call (m.timers t).timer_fun t m2))
unfolding on_timer
round-Fired call m t now s is_set =
    let (m1, removed, r) = remove_timer-Removed m t s is_set in
    let (m2, run, fired) =
      rearm-Fired m m1 t now (m1.timers t).timer_type s.small (sym (r.same.timer_type t)) r in
    (m1, removed, m2, fired, rw (run, fired.same.timer_fun t))
