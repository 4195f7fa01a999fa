-- ===== src/Connect.antt =====
-- code/ChainSocket/MsgHub.h and MsgHub.cpp, class ConnectPoller, and socketInfo.h: sockets that are
-- still connecting, and what has become of them. Addresses are lists of bytes.
pub mod View
pub mod Check
pub mod Start
pub mod Result
mod Tests
use chain_socket.Base.{
  ℕ, ◌+◌, Bool, true, false, List, [], ◌∷◌, Option, none, some, ltb, ◌==◌, if◌then◌else◌,
}
use chain_socket.Base.Map.{lookup, assign, erase}
use chain_socket.Base.Outcome.{Outcome, done, ◌>>=◌}
use chain_socket.Timer.{TimerManager, circle, u64}
use chain_socket.Timer

-- An entry of `connectTime`. The second field of the tuple is always 0 and left out.
pub record Pending : Type 0 where
  pub fd : ℕ
  pub limit_time : ℕ
  pub ip : List ℕ
  pub port : ℕ

-- `sockInfo::ret`: 1 and -1.
pub data Ret : Type 0 where
  connected refused : Ret

-- `sockInfo`, with the fields that are set; the event is always CONNECT_EVENT.
pub record SockInfo : Type 0 where
  pub port : ℕ
  pub ip : List ℕ
  pub fd : ℕ
  pub ret : Ret

-- `closed` are the sockets that have been closed, newest first.
pub record ConnectPoller : Type 0 where
  pub tm : TimerManager
  pub connect_timer : ℕ
  pub connect_time : List Pending
  pub result_map : List SockInfo
  pub closed : List ℕ

-- The results 0, -1 and any other of GetSocketStatus.
pub data SocketStatus : Type 0 where
  ready in_progress : SocketStatus
  broken : ℕ → SocketStatus

-- What `send` of no bytes gives: no error, or what IsCONNECTERR makes of the error.
pub get_socket_status : Option ℕ → SocketStatus
get_socket_status none = ready
get_socket_status (some error) = if error == 0 then in_progress else broken error

-- What the loop of checkAllStatus does with a socket.
pub data Verdict : Type 0 where
  waits succeeds fails : Verdict

abbrev pub of_status : SocketStatus → Verdict
of_status ready = succeeds
of_status in_progress = waits
of_status (broken error) = fails

pub verdict : ℕ → (ℕ → Option ℕ) → Pending → Verdict
verdict now answer p =
    if ltb p.limit_time now then fails else of_status (get_socket_status (answer p.fd))

abbrev pub info : Pending → Ret → SockInfo
info p r = record { port = p.port; ip = p.ip; fd = p.fd; ret = r }

abbrev pub time_key : Pending → ℕ
time_key p = p.fd

abbrev pub info_key : SockInfo → ℕ
info_key i = i.fd

pub handle : Verdict → Pending → ConnectPoller → ConnectPoller
handle waits p c = c
handle succeeds p c = record c {
  connect_time = erase time_key p.fd c.connect_time;
  result_map = assign info_key c.result_map (info p connected);
}
handle fails p c = record c {
  closed = p.fd ∷ c.closed;
  connect_time = erase time_key p.fd c.connect_time;
  result_map = assign info_key c.result_map (info p refused);
}

-- The loop over `connectTime`; `answer` is what `send` gives for a socket.
pub check_loop : ℕ → (ℕ → Option ℕ) → List Pending → ConnectPoller → ConnectPoller
check_loop now answer [] c = c
check_loop now answer (p ∷ ps) c = check_loop now answer ps (handle (verdict now answer p) p c)

-- `if (connectTime.empty()) connectTimer->stop();`
pub stop_if_idle : List Pending → ConnectPoller → Outcome ConnectPoller
stop_if_idle [] c = do tm ← Timer.stop c.tm c.connect_timer; done (record c { tm = tm })
stop_if_idle (p ∷ ps) c = done c

pub check_all_status : ℕ → (ℕ → Option ℕ) → ConnectPoller → Outcome ConnectPoller
check_all_status now answer c =
    let c' = check_loop now answer c.connect_time c in stop_if_idle c'.connect_time c'

-- What becomes of connect(): done, in progress, or failed.
pub data Attempt : Type 0 where
  established pending failed : Attempt

-- `tryConnect` closes the socket of a failed attempt; the socket is then not stored.
pub try_connect : ConnectPoller → ℕ → Attempt → ConnectPoller × ℕ
try_connect c fd failed = (record c { closed = fd ∷ c.closed }, 0)
try_connect c fd established = (c, fd)
try_connect c fd pending = (c, fd)

-- The timer is started for the first socket, every 10 ms, with the function `fun`. The clock is
-- read twice.
pub start_if_idle : List Pending → ConnectPoller → ℕ → ℕ → Outcome ConnectPoller
start_if_idle [] c fun now = do
  tm ← Timer.start c.tm c.connect_timer fun 10 circle now
  done (record c { tm = tm })
start_if_idle (p ∷ ps) c fun now = done c

pub after_try : ConnectPoller → ℕ → List ℕ → ℕ → ℕ → ℕ → ℕ → ℕ → Attempt → Outcome ConnectPoller
after_try c fd ip port timeout fun now now' pending =
    start_if_idle c.connect_time
      (record c {
        connect_time =
            assign time_key c.connect_time
              (record { fd = fd; limit_time = u64 (now + timeout); ip = ip; port = port });
      })
      fun now'
after_try c fd ip port timeout fun now now' established = done c
after_try c fd ip port timeout fun now now' failed = done c

pub connect_to :
    ConnectPoller → ℕ → List ℕ → ℕ → ℕ → ℕ → ℕ → ℕ → Attempt → Outcome (Attempt × ℕ × ConnectPoller)
connect_to c fd ip port timeout fun now now' attempt = do
  let (c', socket) = try_connect c fd attempt
  c'' ← after_try c' socket ip port timeout fun now now' attempt
  done (attempt, socket, c'')
