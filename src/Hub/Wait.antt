-- ===== src/Hub/Wait.antt =====
-- MsgHub::waitMsg of code/ChainSocket/MsgHub.cpp: the checks of the connecting sockets, the sessions
-- for those that have connected, and one round of the event loop.
pub mod Round
pub mod Callbacks
mod Tests
use chain_socket.Base.{ℕ, List, Option}
use chain_socket.Base.Outcome.{Outcome, done, ◌>>=◌}
use chain_socket.Buffer.{Allocator}
use chain_socket.Session.{Session}
use chain_socket.Poller.{Handlers, Event, loop_once}
use chain_socket.Connect.Result.{get_result}
use chain_socket.Hub.{HubHandlers, MsgHub, process_connect_sockets}

-- `now` and `now'` are the readings of the clock, `answer` is what send() of no bytes gives for a
-- socket, and `es` is what the event loop is told. The callbacks work on the poller alone.
pub wait_msg :
    ℕ
    → Allocator
    → Session
    → HubHandlers
    → Handlers
    → MsgHub
    → ℕ
    → ℕ
    → (ℕ → Option ℕ)
    → List Event
    → Outcome MsgHub
wait_msg fuel a garbage hub h m now now' answer es = do
  c ← get_result fuel now now' answer m.connects
  p ← process_connect_sockets a garbage hub m.poller c.result_map
  p' ← loop_once a garbage h p es
  done (record { poller = p'; connects = c })
