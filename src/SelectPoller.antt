-- ===== src/SelectPoller.antt =====
-- code/ChainSocket/SelectPoller.h and SelectPoller.cpp: interest in events kept in a map, with
-- select() asked about at most 1023 sockets at a time, on a system whose sets are bit arrays.
pub mod Fill
pub mod Scan
pub mod Once
mod Tests
use chain_socket.Base.{
  ℕ, zero, suc, ◌+◌, Bool, true, false, ◌&&◌, ◌||◌, List, [], ◌∷◌, ◌++◌, Option, none, some, ltb,
  ◌==◌, if◌then◌else◌, length, get_elem?, take, drop,
}
use chain_socket.Base.Outcome.{Outcome, done, fault, no_fuel, ◌>>=◌}
use chain_socket.Base.Map.{assign, erase}

-- EVENT_READ, EVENT_WRITE and EVENT_ONCE.
pub record Flags : Type 0 where
  pub read : Bool
  pub write : Bool
  pub once : Bool

-- The union `data` as the number that is its pointer, and `none` where not all bytes of the pointer
-- have been set; pointers have 8 bytes.
pub record SocketData : Type 0 where
  pub flag : Flags
  pub fd : ℕ
  pub ptr : Option ℕ

pub record SelectPoller : Type 0 where
  pub max_event : ℕ
  pub clients : List SocketData
  pub ev_clients : List SocketData

abbrev pub key : SocketData → ℕ
key e = e.fd

unfoldable pub poll_mod : SelectPoller → ℕ → Flags → ℕ → SelectPoller
poll_mod p fd flag ptr = record p {
  clients = assign key p.clients (record { flag = flag; fd = fd; ptr = some ptr });
}

unfoldable pub poll_add : SelectPoller → ℕ → Flags → ℕ → SelectPoller
poll_add p fd flag ptr = record p {
  clients = assign key p.clients (record { flag = flag; fd = fd; ptr = some ptr });
}

unfoldable pub poll_del : SelectPoller → ℕ → SelectPoller
poll_del p fd = record p { clients = erase key fd p.clients }

-- The sets as the sockets in them, and `maxSock`.
pub record FdSets : Type 0 where
  pub reads : List ℕ
  pub writes : List ℕ
  pub max_sock : ℕ

abbrev pub empty_sets : FdSets
empty_sets = record { reads = []; writes = []; max_sock = 0 }

-- FD_SET, which writes outside the set from FD_SETSIZE on.
pub fd_set : ℕ → List ℕ → Outcome (List ℕ)
fd_set fd set = if ltb fd 1024 then done (fd ∷ set) else fault

-- FD_ISSET
abbrev pub fd_isset : ℕ → List ℕ → Bool
fd_isset fd [] = false
fd_isset fd (x ∷ xs) = x == fd || fd_isset fd xs

pub fill : List SocketData → FdSets → Outcome FdSets
fill [] s = done s
fill (e ∷ es) s = do
  reads ← if e.flag.read then fd_set e.fd s.reads else done s.reads
  writes ← if e.flag.write then fd_set e.fd s.writes else done s.writes
  fill es (record {
    reads = reads;
    writes = writes;
    max_sock = if ltb s.max_sock e.fd then e.fd else s.max_sock;
  })

-- What select() leaves of the sets of reads and writes, given its first argument.
abbrev pub Select : Type 0
Select = ℕ → List ℕ → List ℕ → List ℕ × List ℕ

-- The entry for a socket that may have been triggered. `data.fd = 0` sets four bytes of a pointer that
-- has no value; the other bytes have none.
pub event : SocketData → List ℕ × List ℕ → SocketData
event e (reads, writes) = record {
  flag = record {
    read = e.flag.read && fd_isset e.fd reads;
    write = e.flag.write && fd_isset e.fd writes;
    once = e.flag.once;
  };
  fd = e.fd;
  ptr = none;
}

-- The second inner loop.
pub report : ℕ → List ℕ × List ℕ → List SocketData → List SocketData → List SocketData
report max sets [] evs = evs
report max sets (e ∷ es) evs =
    let x = event e sets in
    let more = report max sets es (evs ++ x ∷ []) in
    let same = report max sets es evs in
    if x.flag.read || x.flag.write
    then (if ltb max (length (evs ++ x ∷ [])) then evs ++ x ∷ [] else more)
    else same

-- The loop over the clients that are left, and whether it reaches their end.
pub scan : ℕ → Select → ℕ → List SocketData → List SocketData → Outcome (Bool × List SocketData)
scan n select max [] evs = done (true, evs)
scan zero select max (e ∷ es) evs = no_fuel
scan (suc n) select max (e ∷ es) evs = fill (take 1023 (e ∷ es)) empty_sets >>= λ s.
    elim s.max_sock [
      | zero ↦ done (false, evs)
      | (suc m) ↦
          scan n select max (drop 1023 (e ∷ es))
            (report max (select (suc m + 1) s.reads s.writes) (take 1023 (e ∷ es)) evs)
    ]

pub erase_once : List SocketData → List SocketData → List SocketData
erase_once [] clients = clients
erase_once (e ∷ es) clients =
    erase_once es (if e.flag.once then erase key e.fd clients else clients)

-- A round of the outer loop: what select() does in it, and the clock at its end.
pub record Instant : Type 0 where
  pub select : Select
  pub clock : ℕ

-- The outer loop, with the time limit.
pub get_loop : List Instant → ℕ → ℕ → SelectPoller → Outcome (ℕ × SelectPoller)
get_loop [] max outtick p = no_fuel
get_loop (i ∷ is) max outtick p = do
  (whole, evs) ← scan (length p.clients) i.select max p.clients []
  let left = record p { clients = erase_once evs p.clients; ev_clients = evs }
  let again = get_loop is max outtick left
  if whole
      then (if ltb 0 (length evs) || ltb outtick i.clock then done (length evs, left) else again)
      else done (0, record p { ev_clients = evs })

-- `now` is the clock at the start.
pub poll_get_events : List Instant → ℕ → ℕ → ℕ → SelectPoller → Outcome (ℕ × SelectPoller)
poll_get_events instants now timeout max p = get_loop instants max (now + timeout) p

-- `evClients[index]`, undefined past the end.
pub get_event_conn : SelectPoller → ℕ → Outcome ℕ
get_event_conn p index = elim (get_elem? p.ev_clients index) [
  | none ↦ fault
  | some e ↦ elim e.ptr [ none ↦ fault | some ptr ↦ done ptr ]
]

pub get_event_triger_flag : SelectPoller → ℕ → Outcome Flags
get_event_triger_flag p index = elim (get_elem? p.ev_clients index) [
  | none ↦ fault
  | some e ↦ done e.flag
]
