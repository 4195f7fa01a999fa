-- ===== src/Connect/Tests.antt =====
-- The theorems on connecting sockets at a concrete poller of connects.
use chain_socket.Base.{ℕ, ◌≡◌, ◌==◌, if◌then◌else◌, refl, [], ◌∷◌, none, arith, Option}
use chain_socket.Base.Map.{lookup}
use chain_socket.Base.Outcome.{Yields}
use chain_socket.Timer.{TimerManager, Timer, circle, npos}
use chain_socket.Timer.Schedule.{Sound, All}
use chain_socket.Timer.Heap.{at}
use chain_socket.Connect.{ConnectPoller, check_all_status, connect_to, time_key, pending}
use chain_socket.Connect.View.{view, checked}
use chain_socket.Connect.Check.{IsWatched, check_all_status-checked}
use chain_socket.Connect.Start.{tried, connect_to-IsWatched}

-- The timer of the checks is due at 20 and every 10.
abbrev check_timer : Timer
check_timer = record {
  timer_type = circle;
  timer_fun = 1;
  interval = 10;
  expires = 20;
  heap_index = 0;
}

abbrev manager : TimerManager
manager = record {
  heap = record { time = 20; timer = 0 } ∷ [];
  timers = λ u. if u == 0 then check_timer else record check_timer { heap_index = npos };
}

manager-Sound : Sound All manager
unfolding at
manager-Sound = record {
  ordered = λ c p q. ground arith;
  wired = record {
    indexed = λ i h. ground arith;
    timed = λ i h. ground arith;
    linked = λ t o n. ground arith;
  };
  small = omega arith;
}

-- Socket 5 until 100 and socket 6 until 15.
abbrev connecting : ConnectPoller
connecting = record {
  tm = manager;
  connect_timer = 0;
  connect_time =
      record { fd = 5; limit_time = 100; ip = 49 ∷ []; port = 80 }
      ∷ record { fd = 6; limit_time = 15; ip = 50 ∷ []; port = 81 }
      ∷ [];
  result_map = [];
  closed = [];
}

connecting-IsWatched : IsWatched connecting
connecting-IsWatched = record {
  sound = manager-Sound;
  sorted = (λ k h. ground arith, (λ k h. refl, tt));
  watched = λ n e. cc;
  idle = λ e. absurd (cc);
}

-- Socket 5 has become ready at time 30, and the time of socket 6 is over.
abbrev answers : ℕ → Option ℕ
answers fd = none

check_all_status-checked_example :
    Yields
      (λ c'.
        ((fd : ℕ)
          → view c' fd
            ≡ checked 30 answers (lookup time_key fd connecting.connect_time) (view connecting fd))
        × IsWatched c')
      (check_all_status 30 answers connecting)
check_all_status-checked_example =
    check_all_status-checked 30 answers connecting connecting-IsWatched

connect_to-IsWatched_example :
    Yields
      (λ (a, socket, c').
        ((k : ℕ)
          → view c' k ≡ (
              if 9 == k then tried connecting 9 (51 ∷ []) 82 500 30 pending else view connecting k))
        × IsWatched c'
        × (a ≡ pending))
      (connect_to connecting 9 (51 ∷ []) 82 500 1 30 31 pending)
connect_to-IsWatched_example =
    connect_to-IsWatched connecting 9 (51 ∷ []) 82 500 1 30 31 pending connecting-IsWatched
      (omega arith)
