-- ===== src/Timer/New.antt =====
-- A new manager of code/ChainSocket/Timer.h, and its timers before they are started.
use chain_socket.Base.{ℕ, ◌≡◌, refl, [], none, arith}
use chain_socket.Timer.{Timer, TimerManager, new_timer}
use chain_socket.Timer.Schedule.{deadline, All, Sound}

-- No timer is set.
abbrev pub new_manager : (ℕ → Timer) → TimerManager
new_manager garbage = record { heap = []; timers = λ u. new_timer (garbage u) }

pub new_manager_idle : (garbage : ℕ → Timer) (u : ℕ) → deadline (new_manager garbage) u ≡ none
unfolding new_timer
new_manager_idle garbage u = refl

pub new_manager-Sound : (garbage : ℕ → Timer) → Sound All (new_manager garbage)
unfolding new_timer
new_manager-Sound garbage = record {
  ordered = λ c p q. absurd (omega arith);
  wired = record {
    indexed = λ i h. absurd (omega arith);
    timed = λ i h. absurd (omega arith);
    linked = λ t o n. absurd (n refl);
  };
  small = omega arith;
}
