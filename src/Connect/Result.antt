-- ===== src/Connect/Result.antt =====
-- ConnectPoller::getResult of code/ChainSocket/MsgHub.cpp: DetectTimers of the manager that only
-- has the timer of the checks, and whose callback is checkAllStatus.
pub mod Fire
pub mod Rounds
pub mod Starts
pub mod Samples
mod Tests
use chain_socket.Base.{
  ℕ, zero, suc, ◌+◌, ◌^◌, ◌≤◌, ◌<◌, ◌≡◌, refl, sym, ap, ◌∙◌, ◌≢◌, ◌⊎◌, inl, inr, Bool, true, false,
  List, [], ◌∷◌, Option, none, some, some-injective, leb, ◌==◌, if◌then◌else◌, length, arith, subst,
  Bool-cases, Option-cases, ℕ_discrete,
}
use chain_socket.Base.Map.{lookup}
use chain_socket.Base.Outcome.{Outcome, done, done-injective, no_fuel, Yields, ◌>>=◌}
use chain_socket.Timer.{
  Timer, TimerManager, TimerType, circle, Callback, npos, u64, entry, remove_timer, on_timer,
}
use chain_socket.Timer.Heap.{key, entry-at}
use chain_socket.Timer.Schedule.{deadline, All, Sound, SameTimers}
use chain_socket.Timer.Fire.{
  next_deadline, first, first_set, first_time, first_least, Fired, round-Fired,
}
use chain_socket.Timer.Control.{Stopped, stop-Stopped}
use chain_socket.Connect.{
  Pending, ConnectPoller, time_key, check_loop, stop_if_idle, check_all_status,
}
use chain_socket.Connect.View.{view, checked, check_loop_timer}
use chain_socket.Connect.Check.{IsWatched, check_all_status-checked}

-- The function of the timer works on the connects, and is called behind OnTimer.
abbrev nothing : Callback
nothing fun t m = m

-- A timer that is due: DetectTimers reads the clock before, as `now`, and checkAllStatus once more.
pub fire_check : ℕ → ℕ → (ℕ → Option ℕ) → ConnectPoller → ℕ → Outcome ConnectPoller
fire_check now now' answer c t = do
  m1 ← remove_timer c.tm t
  m2 ← on_timer nothing m1 t now
  check_all_status now' answer (record c { tm = m2 })

pub detect_checks : ℕ → ℕ → ℕ → (ℕ → Option ℕ) → ConnectPoller → Outcome ConnectPoller
detect_checks zero now now' answer c = no_fuel
detect_checks (suc f) now now' answer c =
    let next : Outcome ConnectPoller = (do
      top ← entry c.tm.heap 0
      let fire : Outcome ConnectPoller =
          fire_check now now' answer c top.timer >>= λ c'. detect_checks f now now' answer c'
      if leb top.time now then fire else done c) in
    if length c.tm.heap == 0 then done c else next

abbrev pub cleared : ConnectPoller → ConnectPoller
cleared c = record c { result_map = [] }

pub get_result : ℕ → ℕ → ℕ → (ℕ → Option ℕ) → ConnectPoller → Outcome ConnectPoller
get_result fuel now now' answer c = detect_checks fuel now now' answer (cleared c)

-- The manager has no other timer, and the timer of the checks is one of every 10 ms when it is set.
pub record Timed (m : TimerManager) (t : ℕ) : Type 0 where
  pub alone : (u : ℕ) → u ≢ t → deadline m u ≡ none
  pub periodic :
      deadline m t ≢ none → ((m.timers t).timer_type ≡ circle) × ((m.timers t).interval ≡ 10)

abbrev pub IsTimed : ConnectPoller → Type 0
IsTimed c = Timed c.tm c.connect_timer

-- Whether the timer of the checks is due.
abbrev pub past : ℕ → Option ℕ → Bool
past now none = false
past now (some e) = leb e now
