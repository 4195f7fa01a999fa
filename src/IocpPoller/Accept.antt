-- ===== src/IocpPoller/Accept.antt =====
-- code/ChainSocket/IOCPPoller.cpp: what the Windows poller does for a listening socket.
pub mod Leak
use chain_socket.Base.{
  ℕ, zero, suc, ◌+◌, ◌%◌, ◌-◌, ◌^◌, Bool, true, false, List, [], ◌∷◌, ◌++◌, Option, none, some, ltb,
  ◌==◌, if◌then◌else◌, ◌&&◌, length, get_elem?, set,
}
use chain_socket.Base.Outcome.{Outcome, done, aborted, fault, no_fuel, ◌>>=◌}
use chain_socket.Buffer.{MessageBuffer, Allocator}
use chain_socket.Buffer
use chain_socket.Session.{Session, SessionType, accept, listen}
use chain_socket.IocpPoller.{
  RwMod, client_io_null, client_io_accept, client_io_connect, client_io_read, client_io_write,
  IoContext, IocpData, WinCall, closes, shuts, recv_posted, send_posted, accept_posted,
  context_updated, handle_closed, cleaned_up, Windows, Poller, Handlers, slot, deref, put, called,
  data_reset, id_gen, next_post, next_send, init_new_session, close_session,
}

-- WSASocket
next_socket : Poller → Option ℕ × Poller
next_socket p = elim p.system.sockets [
  | [] ↦ (none, p)
  | r ∷ rest ↦ (r, record p { system = record p.system { sockets = rest } })
]

-- post_accept_ex, with the listening socket; its result is not looked at.
pub post_accept_ex : Poller → Option ℕ → ℕ → Outcome Poller
post_accept_ex p none listener = done p
post_accept_ex p (some id) listener = do
  d ← deref p id
  let (made, p1) = next_socket p
  elim made [
    -- INVALID_SOCKET is stored before the test.
    | none ↦
        let ctx = record d.io_ctx_r {
          self = listener;
          accept = 2 ^ 64 - 1;
          action = client_io_accept;
        } in
        done (put p1 id (some (record d { io_ctx_r = ctx })))
    | some fd ↦
        let ctx = record d.io_ctx_r { self = listener; accept = fd; action = client_io_accept } in
        let (ok, p2) = next_post (put p1 id (some (record d { io_ctx_r = ctx }))) in
        done (if ok then called p2 (accept_posted listener fd) else p2)
  ]

-- `(Session *) sessions[id]`
abbrev pub named : ℕ → Option IocpData → Option ℕ
named id none = none
named id (some d) = some id

-- A socket that WSAAccept returned gets a session, or `client`, which AcceptEx had returned, is
-- closed.
pub welcome : Handlers → Poller → ℕ → ℕ → Option ℕ → Outcome Poller
welcome h p id client none = done (called p (closes client))
welcome h p id client (some aid) = do
  listener ← slot p id
  h.on_accept p (named id listener) (some aid)

abbrev pub with_accepts : Poller → List (Option ℕ) → Poller
with_accepts p fds = record p { system = record p.system { accepts = fds } }

-- The sockets that WSAAccept returns, up to an error; each call reads the context of the listening
-- session.
pub accept_loop :
    Allocator → IocpData → Handlers → Poller → ℕ → ℕ → List (Option ℕ) → Outcome Poller
accept_loop a garbage h p id client [] = do listener ← deref p id; done (with_accepts p [])
accept_loop a garbage h p id client (none ∷ fds) = do
  listener ← deref p id
  done (with_accepts p fds)
accept_loop a garbage h p id client (some fd ∷ fds) = do
  listener ← deref p id
  (p1, made) ← init_new_session a garbage p fd accept
  p2 ← welcome h p1 id client made
  accept_loop a garbage h p2 id client fds

-- do_accept is always called for the session in slot 0. The addresses are not modelled.
pub do_accept : Poller → ℕ → Outcome Poller
do_accept p id = do
  here ← slot p id
  elim here [
    | none ↦ done p
    | some d ↦ done (called p (context_updated d.io_ctx_r.accept d.io_ctx_r.self))
  ]

-- The end of the case ClientIoAccept, when the first socket has its session.
pub accept_rest : Allocator → IocpData → Handlers → Poller → ℕ → ℕ → ℕ → Outcome Poller
accept_rest a garbage h p id client aid = do
  listener ← slot p id
  p1 ← h.on_accept p (named id listener) (some aid)
  p2 ← accept_loop a garbage h (with_accepts p1 []) id client p1.system.accepts
  d ← deref p2 id
  post_accept_ex p2 (some id) d.io_ctx_r.self

pub same_id : Option ℕ → ℕ → Bool
same_id none id = false
same_id (some i) id = i == id

-- The case ClientIoAccept; only a session's first context is ever set to it.
pub accept_event : Allocator → IocpData → Handlers → Poller → ℕ → ℕ → Outcome Poller
accept_event a garbage h p id client = do
  pre ← id_gen p
  p1 ← do_accept p 0
  (p2, made) ← init_new_session a garbage p1 client accept
  elim made [
    | none ↦ done (called p2 (closes client))
    | some aid ↦ if same_id pre aid then accept_rest a garbage h p2 id client aid else aborted
  ]
