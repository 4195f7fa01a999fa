-- ===== src/Timer/Tests.antt =====
-- Runs of the timer manager, and its theorems at concrete managers.
use chain_socket.Base.{◌≡◌, refl, [], ◌∷◌, ◌==◌, if◌then◌else◌, arith}
use chain_socket.Base.Outcome.{◌>>=◌, done, Yields}
use chain_socket.Timer.{
  Timer, once, circle, TimerManager, Callback, npos, add_timer, remove_timer, start, detect_timers,
  up_heap, up_loop, swap_heap, entry, earlier, down_heap, down_loop, min_child, resettle, pop_back,
  on_timer, rearm,
}
use chain_socket.Timer.Heap.{at, due}
use chain_socket.Timer.Wiring.{Wired}
use chain_socket.Timer.Schedule.{All, Sound, Added, add_timer-Added}
use chain_socket.Timer.Remove.{Removed, remove_timer-Removed}
use chain_socket.Timer.Control.{Started, start-Started, Sound-Others, Absent-unset}
use chain_socket.Timer.Detect.{Waits, detect_timers_returns}

abbrev idle_timer : Timer
idle_timer = record {
  timer_type = once;
  timer_fun = 0;
  interval = 0;
  expires = 0;
  heap_index = npos;
}

abbrev slow : Timer
slow = record { timer_type = once; timer_fun = 7; interval = 4; expires = 9; heap_index = 1 }

abbrev quick : Timer
quick = record { timer_type = circle; timer_fun = 8; interval = 3; expires = 5; heap_index = 0 }

-- Timer 1 is due at 5 and again every 3, timer 0 once at 9.
abbrev two : TimerManager
two = record {
  heap = record { time = 5; timer = 1 } ∷ record { time = 9; timer = 0 } ∷ [];
  timers = λ u. if u == 0 then slow else if u == 1 then quick else idle_timer;
}

two-Wired : Wired All two
unfolding at
two-Wired = record {
  indexed = λ i h. ground arith;
  timed = λ i h. ground arith;
  linked = λ t o n. ground arith;
}

two-Sound : Sound All two
unfolding at
two-Sound = record { ordered = λ c p q. ground arith; wired = two-Wired; small = omega arith }

abbrev quiet : Callback
quiet fun t m = m

add_timer-Added_example : Yields (Added two 5) (add_timer two 5)
unfolding at
add_timer-Added_example =
    add_timer-Added two 5 (Sound-Others two 5 two-Sound) (Absent-unset two 5 two-Sound refl)
      (omega arith)

remove_timer-Removed_example : Yields (Removed two 1) (remove_timer two 1)
remove_timer-Removed_example = remove_timer-Removed two 1 two-Sound (omega arith)

start-Started_example : Yields (Started two 0 9 20 circle 6) (start two 0 9 20 circle 6)
start-Started_example = start-Started two 0 9 20 circle 6 two-Sound (omega arith)

detect_timers_returns_example : Yields (Waits 7) (detect_timers 3 quiet two 7)
unfolding due
detect_timers_returns_example =
    detect_timers_returns 3 quiet two 7 (λ fun t m s c. (s, c, omega arith)) two-Sound
      (λ u c. ground arith) (omega arith)

-- A period of 0.
abbrev stuck : TimerManager
stuck = record two { timers = λ u. if u == 1 then record quick { interval = 0 } else two.timers u }

detect_run : (detect_timers 3 quiet two 7 >>= λ r. done r.0) ≡ done 2
unfolding detect_timers remove_timer resettle pop_back down_heap down_loop min_child up_heap up_loop
    swap_heap earlier entry on_timer rearm add_timer
detect_run = refl
