-- ===== src/IocpPoller/Loop.antt =====
-- code/ChainSocket/IOCPPoller.cpp: loopOnce, listenTo, and the start and the end of the poller.
pub mod Stop
use chain_socket.Base.{
  ℕ, zero, suc, ◌+◌, ◌%◌, ◌-◌, ◌^◌, Bool, true, false, List, [], ◌∷◌, ◌++◌, Option, none, some, ltb,
  ◌==◌, if◌then◌else◌, ◌&&◌, length, get_elem?, set,
}
use chain_socket.Base.Outcome.{Outcome, done, aborted, fault, no_fuel, ◌>>=◌}
use chain_socket.Buffer.{MessageBuffer, Allocator}
use chain_socket.Buffer
use chain_socket.Session.{Session, SessionType, accept, listen}
use chain_socket.IocpPoller.{
  RwMod, client_io_null, client_io_accept, client_io_connect, client_io_read, client_io_write,
  IoContext, IocpData, WinCall, closes, shuts, recv_posted, send_posted, accept_posted,
  context_updated, handle_closed, cleaned_up, Windows, Poller, Handlers, slot, deref, put, called,
  data_reset, id_gen, next_post, next_send, init_new_session, close_session,
}
use chain_socket.IocpPoller.Traffic.{do_recv, do_send}
use chain_socket.IocpPoller.Accept.{post_accept_ex, accept_event}

-- The operation that has been completed: its session, and which of the session's contexts it used.
pub data Context : Type 0 where
  no_context read_context write_context : Context

pub record Entry : Type 0 where
  pub key : ℕ
  pub context : Context

pub act : ℕ → Allocator → IocpData → Handlers → Poller → ℕ → IoContext → RwMod → Outcome Poller
act fuel a garbage h p id ctx client_io_accept = accept_event a garbage h p id ctx.accept
act fuel a garbage h p id ctx client_io_read = do_recv a h p id
act fuel a garbage h p id ctx client_io_write = do_send fuel h p id
act fuel a garbage h p id ctx client_io_null = done p
act fuel a garbage h p id ctx client_io_connect = done p

pub complete :
    ℕ → Allocator → IocpData → Handlers → Poller → ℕ → IocpData → Context → Outcome Poller
complete fuel a garbage h p id d no_context = done p
complete fuel a garbage h p id d read_context =
    act fuel a garbage h p id d.io_ctx_r d.io_ctx_r.action
complete fuel a garbage h p id d write_context =
    act fuel a garbage h p id d.io_ctx_s d.io_ctx_s.action

pub step : ℕ → Allocator → IocpData → Handlers → Poller → Entry → Outcome Poller
step fuel a garbage h p e = do
  here ← slot p e.key
  elim here [ none ↦ done p | some d ↦ complete fuel a garbage h p e.key d e.context ]

pub steps : ℕ → Allocator → IocpData → Handlers → Poller → List Entry → Outcome Poller
steps fuel a garbage h p [] = done p
steps fuel a garbage h p (e ∷ es) = do p' ← step fuel a garbage h p e; steps fuel a garbage h p' es

-- What GetQueuedCompletionStatusEx reports: entries, an error that loopOnce knows, or another one,
-- after which the number of entries is not set.
pub data Dequeued : Type 0 where
  entries : List Entry → Dequeued
  known_error other_error : Dequeued

pub loop_once : ℕ → Allocator → IocpData → Handlers → Poller → Dequeued → Outcome Poller
loop_once fuel a garbage h p (entries es) = steps fuel a garbage h p es
loop_once fuel a garbage h p known_error = done p
loop_once fuel a garbage h p other_error = fault

-- The answers to the calls of listenTo, in their order.
pub record ListenAnswers : Type 0 where
  pub socket : Option ℕ
  pub nonblocking : Bool
  pub keep_alive : Bool
  pub linger : Bool
  pub reuse : Bool
  pub bound : Bool
  pub listening : Bool

abbrev given_up : Poller → ℕ → Poller
given_up p fd = called (called (called p (closes fd)) cleaned_up) handle_closed

-- listenTo with a socket that listens.
pub listen_session : Allocator → IocpData → Poller → ℕ → Outcome (Bool × Poller)
listen_session a garbage p fd = do
  (p1, made) ←
      init_new_session a garbage (record p { listen_fds = p.listen_fds ++ fd ∷ [] }) fd listen
  elim made [
    | none ↦ done (false, p1)
    | some id ↦ post_accept_ex p1 (some id) fd >>= λ p2. done (true, p2)
  ]

-- `return -1` from a function into bool returns true.
pub listen_to : Allocator → IocpData → Poller → ListenAnswers → Outcome (Bool × Poller)
listen_to a garbage p r = elim r.socket [
  | none ↦ done (true, called p cleaned_up)
  | some fd ↦
      if r.nonblocking
      then (if r.keep_alive && (r.linger && (r.reuse && (r.bound && r.listening)))
          then listen_session a garbage p fd
          else done (true, given_up p fd))
      else done (true, p)
]

nulls : ℕ → List (Option IocpData)
nulls zero = []
nulls (suc n) = none ∷ nulls n

-- The answers are those of initIocp and of CreateIoCompletionPort.
pub init : Poller → Bool → Bool → Bool × Poller
unfolding nulls
init p started port =
    let p1 = record p { sessions = nulls 1000; cur_id = none; max_id = 1000 } in
    if started && port then (true, record p1 { is_run = true }) else (false, p1)

-- The loop of `reset` over the first `n` slots, where the code's `n` is the size of a vector object
-- in pointers.
pub reset_slots : ℕ → Allocator → List (Option IocpData) → List (Option IocpData)
reset_slots zero a ds = ds
reset_slots (suc n) a [] = []
reset_slots (suc n) a (none ∷ ds) = none ∷ reset_slots n a ds
reset_slots (suc n) a (some d ∷ ds) = some (data_reset a d) ∷ reset_slots n a ds

pub reset : ℕ → Allocator → Poller → Poller
reset n a p = record p { listen_fds = []; sessions = reset_slots n a p.sessions }

-- The loop of `stop` reads every session before it tests the pointer.
pub free_all : List (Option IocpData) → Outcome (List (Option IocpData))
free_all [] = done []
free_all (none ∷ ds) = fault
free_all (some d ∷ ds) = free_all ds >>= λ rest. done (none ∷ rest)

close_all : List ℕ → Poller → Poller
close_all [] p = p
close_all (fd ∷ fds) p = close_all fds (called p (closes fd))

pub stop : Poller → Outcome Poller
stop p =
    if p.is_run
    then (do
      let p1 = close_all p.listen_fds (called p handle_closed)
      left ← free_all p1.sessions
      done (record p1 { sessions = left }))
    else done p
