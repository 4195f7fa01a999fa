-- ===== src/Timer/Control.antt =====
-- stop and Start, on a manager of any number of timers.
use chain_socket.Base.{
  ℕ, ◌+◌, ◌≤◌, ◌<◌, ◌≡◌, refl, none, some, ◌==◌, if◌then◌else◌, length, arith, Bool-cases, inl, inr,
}
use chain_socket.Base.Outcome.{Yields}
use chain_socket.Timer.{Timer, TimerType, TimerManager, npos, u64, store, set_index, stop, start}
use chain_socket.Timer.Wiring.{Absent}
use chain_socket.Timer.Schedule.{
  deadline, All, Others, Sound, SameTimers, SameTimers-trans, add_timer-Added,
}
use chain_socket.Timer.Remove.{remove_timer-Removed}

module _ (m : TimerManager) (t : ℕ) (v : Timer) (s : Sound (Others t) m) (a : Absent m t) where
  -- A timer without an entry can be written to.
  pub store-Sound : Sound (Others t) (store m t v)
  store-Sound = record {
    ordered = s.ordered;
    wired = record {
      indexed = λ c hc. ground (arith, a c hc, s.wired.indexed c hc);
      timed = λ c hc. ground (arith, a c hc, s.wired.timed c hc);
      linked = λ u o k. ground (arith, s.wired.linked u o);
    };
    small = s.small;
  }

  -- If it is marked as not set, the links hold for every timer.
  pub store-Sound_unset : v.heap_index ≡ npos → Sound All (store m t v)
  store-Sound_unset e = record {
    ordered = s.ordered;
    wired = record {
      indexed = λ c hc. ground (arith, a c hc, s.wired.indexed c hc);
      timed = λ c hc. ground (arith, a c hc, s.wired.timed c hc);
      linked = λ u o k. ground (arith, s.wired.linked u);
    };
    small = s.small;
  }

pub Sound-Others : (m : TimerManager) (t : ℕ) → Sound All m → Sound (Others t) m
Sound-Others m t s = record {
  ordered = s.ordered;
  wired = record {
    indexed = s.wired.indexed;
    timed = s.wired.timed;
    linked = λ u o k. s.wired.linked u tt k;
  };
  small = s.small;
}

pub Absent-unset :
    (m : TimerManager) (t : ℕ) → Sound All m → (m.timers t).heap_index ≡ npos → Absent m t
Absent-unset m t s e c hc same = ground (arith, s.wired.indexed c hc, s.small)

-- What stop promises of its result: the timer is not set, and all else is as it was.
pub record Stopped (m : TimerManager) (t : ℕ) (m' : TimerManager) : Type 0 where
  pub sound : Sound All m'
  pub absent : Absent m' t
  pub size : length m'.heap ≤ length m.heap
  pub due_at : (u : ℕ) → deadline m' u ≡ (if u == t then none else deadline m u)
  pub same : SameTimers m m'

-- stop returns, and leaves the timer unset and every other timer due when it was.
pub stop-Stopped : (m : TimerManager) (t : ℕ) → Sound All m → Yields (Stopped m t) (stop m t)
unfolding stop
stop-Stopped m t s = elim (Bool-cases ((m.timers t).heap_index == npos)) [
  | inl unset ↦ (
    m,
    rw unset,
    record {
      sound = s;
      absent = Absent-unset m t s (ground arith);
      size = omega arith;
      due_at = λ u. ground arith;
      same = record { interval = λ u. refl; timer_type = λ u. refl; timer_fun = λ u. refl };
    },
  )
  | inr is_set ↦
      let (m1, run, r) = remove_timer-Removed m t s (ground arith) in
      (
        set_index m1 t npos,
        rw (is_set, run),
        record {
          sound = store-Sound_unset m1 t _ r.sound r.absent refl;
          absent = r.absent;
          size = omega (arith, r.size);
          due_at = λ u. ground (arith, r.others u);
          same = SameTimers-trans r.same (record {
            interval = λ u. ground arith;
            timer_type = λ u. ground arith;
            timer_fun = λ u. ground arith;
          });
        },
      )
]

-- What Start promises of its result: the timer is due an interval from now, with the function and
-- the type that were given, and all else is as it was.
pub record Started (m : TimerManager) (t fun interval : ℕ) (type : TimerType) (now : ℕ)
    (m' : TimerManager) : Type 0 where
  pub sound : Sound All m'
  pub due_at :
      (u : ℕ) → deadline m' u ≡ (if u == t then some (u64 (interval + now)) else deadline m u)
  pub interval_at : (m'.timers t).interval ≡ interval
  pub type_at : (m'.timers t).timer_type ≡ type
  pub fun_at : (m'.timers t).timer_fun ≡ fun

-- Start on a timer that is set or not returns and schedules it anew, if the heap has room.
pub start-Started :
    (m : TimerManager) (t fun interval : ℕ) (type : TimerType) (now : ℕ)
    → Sound All m
    → length m.heap < npos
    → Yields (Started m t fun interval type now) (start m t fun interval type now)
unfolding start
start-Started m t fun interval type now s room =
    let (m1, run, r) = stop-Stopped m t s in
    let tm : Timer = record (m1.timers t) {
      interval = interval;
      timer_fun = fun;
      timer_type = type;
      expires = u64 (interval + now);
    } in
    let (m2, run2, added) =
      add_timer-Added (store m1 t tm) t (store-Sound m1 t tm (Sound-Others m1 t r.sound) r.absent)
        r.absent (omega (arith, r.size)) in
    (
      m2,
      rw run run2,
      record {
        sound = added.sound;
        due_at = λ u. ground (arith, added.due_at u, r.due_at u);
        interval_at = ground (arith, added.same.interval t);
        type_at = ground (arith, added.same.timer_type t);
        fun_at = ground (arith, added.same.timer_fun t);
      },
    )
