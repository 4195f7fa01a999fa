-- ===== src/SelectPoller/Tests.antt =====
-- Runs of the select poller, and its theorem at concrete clients.
use chain_socket.Base.{
  ℕ, some, none, ◌≡◌, refl, Bool, true, false, ◌&&◌, ◌||◌, ◌==◌, if◌then◌else◌, List, [], ◌∷◌,
  arith,
}
use chain_socket.Base.Outcome.{fault, ◌>>=◌, Yields}
use chain_socket.Base.Map.{lookup, IsMap}
use chain_socket.SelectPoller.{
  Flags, SelectPoller, key, Select, fd_isset, Instant, poll_get_events, get_event_conn, scan, fill,
  fd_set, report, event, erase_once, get_loop,
}
use chain_socket.SelectPoller.Fill.{AllSockets, Answers}
use chain_socket.SelectPoller.Once.{kept, poll_get_events-events}

abbrev asks : Bool → Bool → Bool → Flags
asks read write once = record { read = read; write = write; once = once }

-- Three clients, registered with the pointers 1, 2 and 3.
abbrev selecting : SelectPoller
selecting = record {
  max_event = 10;
  clients =
      record { flag = asks true false false; fd = 5; ptr = some 1 }
      ∷ record { flag = asks true true true; fd = 6; ptr = some 2 }
      ∷ record { flag = asks false true false; fd = 9; ptr = some 3 }
      ∷ [];
  ev_clients = [];
}

-- Sockets 6 and 9 are ready.
abbrev is_ready : ℕ → Bool
is_ready fd = fd == 6 || fd == 9

abbrev keep_ready : List ℕ → List ℕ
keep_ready [] = []
keep_ready (fd ∷ fds) = if is_ready fd then fd ∷ keep_ready fds else keep_ready fds

keep_ready_lem :
    (fds : List ℕ) (fd : ℕ) → fd_isset fd (keep_ready fds) ≡ (fd_isset fd fds && is_ready fd)
keep_ready_lem [] fd = refl
keep_ready_lem (x ∷ xs) fd = ground (arith, keep_ready_lem xs fd)

abbrev answering : Select
answering n reads writes = (keep_ready reads, keep_ready writes)

answering-Answers : Answers is_ready is_ready answering
answering-Answers = record {
  reads = λ n r w fd h. keep_ready_lem r fd;
  writes = λ n r w fd h. keep_ready_lem w fd;
}

selecting-IsMap : IsMap key selecting.clients
selecting-IsMap = (
  λ k h.
      let not6 : (6 == k) ≡ false = ground arith in
      let not9 : (9 == k) ≡ false = ground arith in rw (not6, not9) refl,
  (λ k h. (let not9 : (9 == k) ≡ false = ground arith in rw not9 refl), (λ k h. refl, tt)),
)

selecting-AllSockets : AllSockets selecting.clients
selecting-AllSockets =
    (omega arith, omega arith, (omega arith, omega arith, (omega arith, omega arith, tt)))

abbrev round : Instant
round = record { select = answering; clock = 1000 }

poll_get_events-events_example :
    Yields
      (λ (n, left).
        (n ≡ 2)
        × (left.ev_clients
            ≡ record { flag = asks true true true; fd = 6; ptr = none }
              ∷ record { flag = asks false true false; fd = 9; ptr = none }
              ∷ [])
        × ((k : ℕ)
            → lookup key k left.clients ≡ kept is_ready is_ready (lookup key k selecting.clients)))
      (poll_get_events (round ∷ []) 0 20 10 selecting)
poll_get_events-events_example =
    poll_get_events-events is_ready is_ready round [] 0 20 10 selecting selecting-IsMap
      selecting-AllSockets answering-Answers (omega arith) (omega arith)

-- The pointer of socket 6 was 2.
first_event_conn :
    (poll_get_events (round ∷ []) 0 20 10 selecting >>= λ (n, left). get_event_conn left 0) ≡ fault
unfolding poll_get_events get_loop scan fill fd_set report event erase_once get_event_conn
first_event_conn = refl
