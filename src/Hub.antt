-- ===== src/Hub.antt =====
-- code/ChainSocket/MsgHub.h and MsgHub.cpp, class MsgHub: sessions for connected sockets, and the
-- callbacks that the hub gives to the poller.
pub mod Sessions
pub mod Process
pub mod Tasks
pub mod Wait
pub mod Opens
pub mod Reach
mod Tests
use chain_socket.Base.{ℕ, ◌+◌, List, [], ◌∷◌, Option, none, some}
use chain_socket.Base.Outcome.{Outcome, done, aborted, ◌>>=◌}
use chain_socket.Buffer.{Allocator}
use chain_socket.Session.{Session, connect}
use chain_socket.Poller.{
  Poller, Status, success, failed, init_new_session, base_on_accept, post_recv, deref, put,
}
use chain_socket.Connect.{
  ConnectPoller, SockInfo, Ret, connected, refused, Attempt, established, pending,
}
use chain_socket.Connect

-- The virtual functions onConnect, with the session, and onConnectFailed. The addresses are the
-- ip, the port and, for the second, the type.
pub record HubHandlers : Type 0 where
  pub on_connect : Poller → ℕ → List ℕ → ℕ → Outcome Poller
  pub on_connect_failed : Poller → List ℕ → ℕ → Ret → Outcome Poller

-- A session for a connected socket, or the report of a failure with its type.
pub open_session :
    Allocator → Session → HubHandlers → Poller → ℕ → List ℕ → ℕ → Ret → Outcome (Status × Poller)
open_session a garbage h p fd ip port type = do
  (p', made) ← init_new_session a garbage p fd connect
  elim made [
    | none ↦ h.on_connect_failed p' ip port type >>= λ p''. done (failed 1, p'')
    | some id ↦ h.on_connect p' id ip port >>= λ p''. done (success, p'')
  ]

-- The rest of connectTo, after ConnectPoller::connectTo.
pub after_connect :
    Allocator
    → Session
    → HubHandlers
    → Poller
    → ℕ
    → List ℕ
    → ℕ
    → Attempt
    → Outcome (Status × Poller)
after_connect a garbage h p fd ip port established = open_session a garbage h p fd ip port refused
after_connect a garbage h p fd ip port pending = done (success, p)
after_connect a garbage h p fd ip port Connect.failed =
    h.on_connect_failed p ip port refused >>= λ p'. done (success, p')

pub record MsgHub : Type 0 where
  pub poller : Poller
  pub connects : ConnectPoller

-- The socket, the readings of the clock and what becomes of connect() come from outside.
pub connect_to :
    Allocator
    → Session
    → HubHandlers
    → MsgHub
    → ℕ
    → List ℕ
    → ℕ
    → ℕ
    → ℕ
    → ℕ
    → ℕ
    → Attempt
    → Outcome (Status × MsgHub)
connect_to a garbage h m fd ip port timeout fun now now' attempt = do
  (ret, socket, c) ← Connect.connect_to m.connects fd ip port timeout fun now now' attempt
  (status, p) ← after_connect a garbage h m.poller socket ip port ret
  done (status, record { poller = p; connects = c })

pub process_one : Allocator → Session → HubHandlers → Poller → SockInfo → Ret → Outcome Poller
process_one a garbage h p i connected =
    open_session a garbage h p i.fd i.ip i.port connected >>= λ (status, p'). done p'
process_one a garbage h p i refused = h.on_connect_failed p i.ip i.port refused

-- `eventMap` is walked in the order of the sockets.
pub process_connect_sockets :
    Allocator → Session → HubHandlers → Poller → List SockInfo → Outcome Poller
process_connect_sockets a garbage h p [] = done p
process_connect_sockets a garbage h p (i ∷ is) = do
  p' ← process_one a garbage h p i i.ret
  process_connect_sockets a garbage h p' is

-- The callbacks of the class itself; its onRecv and onSend do nothing to the poller.
pub on_connect : Poller → ℕ → List ℕ → ℕ → Outcome Poller
on_connect p id ip port = do s ← deref p id; done (put p id (some (record s { heart_beats = 90 })))

pub on_connect_failed : Poller → List ℕ → ℕ → Ret → Outcome Poller
on_connect_failed p ip port type = done p

pub on_accept : Poller → Option ℕ → ℕ → Outcome Poller
on_accept p listener aid = base_on_accept p listener aid >>= λ p'. post_recv p' aid

pub on_recv : Poller → ℕ → ℕ → Outcome Poller
on_recv p id len = done p

pub on_send : Poller → ℕ → ℕ → Outcome Poller
on_send p id len = done p
