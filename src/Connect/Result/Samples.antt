-- ===== src/Connect/Result/Samples.antt =====
-- A concrete poller of connects, for the tests.
use chain_socket.Base.{◌≡◌, ◌==◌, false, if◌then◌else◌, refl, [], ◌∷◌, arith}
use chain_socket.Timer.{TimerManager, Timer, circle, npos}
use chain_socket.Timer.Schedule.{Sound, All}
use chain_socket.Timer.Heap.{at}
use chain_socket.Connect.{ConnectPoller}
use chain_socket.Connect.Check.{IsWatched}
use chain_socket.Connect.Result.{IsTimed}

-- The timer of the checks is due at 20 and every 10.
abbrev pub check_timer : Timer
check_timer = record {
  timer_type = circle;
  timer_fun = 1;
  interval = 10;
  expires = 20;
  heap_index = 0;
}

abbrev pub manager : TimerManager
manager = record {
  heap = record { time = 20; timer = 0 } ∷ [];
  timers = λ u. if u == 0 then check_timer else record check_timer { heap_index = npos };
}

manager-Sound : Sound All manager
unfolding at
manager-Sound = record {
  ordered = λ c p q. ground arith;
  wired = record {
    indexed = λ i h. ground arith;
    timed = λ i h. ground arith;
    linked = λ t o n. ground arith;
  };
  small = omega arith;
}

-- Socket 5 until 100 and socket 6 until 15.
abbrev pub connecting : ConnectPoller
connecting = record {
  tm = manager;
  connect_timer = 0;
  connect_time =
      record { fd = 5; limit_time = 100; ip = 49 ∷ []; port = 80 }
      ∷ record { fd = 6; limit_time = 15; ip = 50 ∷ []; port = 81 }
      ∷ [];
  result_map = [];
  closed = [];
}

pub connecting-IsWatched : IsWatched connecting
connecting-IsWatched = record {
  sound = manager-Sound;
  sorted = (λ k h. ground arith, (λ k h. refl, tt));
  watched = λ n e. cc;
  idle = λ e. absurd (cc);
}

pub connecting-IsTimed : IsTimed connecting
connecting-IsTimed = record {
  alone = λ u n. let other : (u == 0) ≡ false = ground arith in rw other refl;
  periodic = λ n. (refl, refl);
}
