-- ===== src/IocpPoller.antt =====
-- code/ChainSocket/IOCPPoller.h and IOCPPoller.cpp: the sessions of the Windows poller, what it
-- reads and what it sends. A session is named by its index in the table; a null pointer is `none`.
-- An index of -1 is `none` too. The virtual callbacks are a parameter.
pub mod Traffic
pub mod Accept
pub mod Loop
pub mod Slots
mod Tests
use chain_socket.Base.{
  ℕ, zero, suc, ◌+◌, ◌-◌, ◌%◌, Bool, true, false, List, [], ◌∷◌, Option, none, some, ltb, ◌==◌,
  if◌then◌else◌, length, get_elem?, set,
}
use chain_socket.Base.Outcome.{Outcome, done, fault, no_fuel, ◌>>=◌}
use chain_socket.Buffer.{MessageBuffer, Allocator, alloc, copy, to_int, push_back, erase}
use chain_socket.Session.{Session, SessionType}
use chain_socket.Session
use chain_socket.Poller.{
  RecvResult, SendResult, received, recv_again, recv_failed, sent, send_again, send_failed,
}

pub data RwMod : Type 0 where
  client_io_null client_io_accept client_io_connect client_io_read client_io_write : RwMod

-- `Pre_IO_Context` without its OVERLAPPED and its WSABUF, which stays empty.
pub record IoContext : Type 0 where
  pub self : ℕ
  pub accept : ℕ
  pub action : RwMod

pub record IocpData : Type 0 where
  pub conn : Session
  pub io_ctx_r : IoContext
  pub io_ctx_s : IoContext

-- The calls that change sockets or leave an operation with the completion port.
pub data WinCall : Type 0 where
  closes shuts recv_posted send_posted : ℕ → WinCall
  accept_posted context_updated : ℕ → ℕ → WinCall
  handle_closed cleaned_up : WinCall

-- The answers that the system will give, in order, and the calls made so far, newest first. An
-- operation is posted or refused; a socket that is made is `none` when that failed. Where no
-- answer is left, there is nothing to read or to accept, nothing can be sent, a post and a port
-- are granted, and no socket can be made.
pub record Windows : Type 0 where
  pub recvs : List RecvResult
  pub sends : List SendResult
  pub posts : List Bool
  pub ports : List Bool
  pub sockets : List (Option ℕ)
  pub accepts : List (Option ℕ)
  pub calls : List WinCall

pub record Poller : Type 0 where
  pub sessions : List (Option IocpData)
  pub cur_id : Option ℕ
  pub max_id : ℕ
  pub is_run : Bool
  pub listen_fds : List ℕ
  pub system : Windows

pub record Handlers : Type 0 where
  pub on_recv : Poller → ℕ → ℕ → Outcome Poller
  pub on_send : Poller → ℕ → ℕ → Outcome Poller
  pub on_accept : Poller → Option ℕ → Option ℕ → Outcome Poller

-- `sessions[id]`, undefined out of range.
pub slot : Poller → ℕ → Outcome (Option IocpData)
slot p id = elim (get_elem? p.sessions id) [ none ↦ fault | some o ↦ done o ]

-- `*sessions[id]`
pub deref : Poller → ℕ → Outcome IocpData
deref p id = slot p id >>= λ o. elim o [ none ↦ fault | some d ↦ done d ]

abbrev pub put : Poller → ℕ → Option IocpData → Poller
put p id o = record p { sessions = set p.sessions id o }

abbrev pub called : Poller → WinCall → Poller
called p c = record p { system = record p.system { calls = c ∷ p.system.calls } }

abbrev pub blank_context : IoContext
blank_context = record { self = 0; accept = 0; action = client_io_null }

-- `IocpData::init`, on memory that malloc returned.
pub data_init : Allocator → IocpData → IocpData
data_init a d = record {
  conn = Session.init a d.conn;
  io_ctx_r = blank_context;
  io_ctx_s = blank_context;
}

-- `IocpData::destroy`; the contexts are freed, and not read again.
pub data_destroy : IocpData → IocpData
data_destroy d = record d { conn = Session.destroy d.conn }

pub data_reset : Allocator → IocpData → IocpData
unfolding data_init data_destroy
data_reset a d = data_init a (data_destroy d)

-- `curId + i`, where `curId` may be -1 and `i` is at least 1.
abbrev pub behind : Option ℕ → ℕ → ℕ
behind none i = i - 1
behind (some c) i = c + i

-- The loop of IdGen from `i` on, with the rounds that are left.
id_loop : ℕ → Poller → ℕ → Outcome (Option ℕ)
id_loop zero p i = done none
id_loop (suc n) p i = do
  here ← slot p (behind p.cur_id i % p.max_id)
  elim here [ some d ↦ id_loop n p (i + 1) | none ↦ done (some (behind p.cur_id i % p.max_id)) ]

pub id_gen : Poller → Outcome (Option ℕ)
unfolding id_loop
id_gen p = id_loop (p.max_id - 1) p 1

-- The answers to one call.
pub next_port : Poller → Bool × Poller
next_port p = elim p.system.ports [
  | [] ↦ (true, p)
  | r ∷ rest ↦ (r, record p { system = record p.system { ports = rest } })
]

pub next_post : Poller → Bool × Poller
next_post p = elim p.system.posts [
  | [] ↦ (true, p)
  | r ∷ rest ↦ (r, record p { system = record p.system { posts = rest } })
]

pub next_send : Poller → SendResult × Poller
next_send p = elim p.system.sends [
  | [] ↦ (send_again, p)
  | r ∷ rest ↦ (r, record p { system = record p.system { sends = rest } })
]

-- The session that initNewSession puts into the table.
pub new_data : Allocator → IocpData → ℕ → ℕ → SessionType → IocpData
unfolding data_init
new_data a garbage id fd type =
    let d = data_init a garbage in
    record d { conn = record d.conn { session_id = id; fd = fd; type = type } }

-- What initNewSession does when the socket has joined the completion port.
pub joined : IocpData → ℕ → IocpData
joined d fd = record d {
  io_ctx_r = record d.io_ctx_r { accept = fd; action = client_io_read };
  io_ctx_s = record d.io_ctx_s { accept = fd; action = client_io_write };
}

-- Without a free id, `sessions[-1]` is written. A socket that cannot join the completion port keeps
-- its slot.
pub init_new_session : Allocator → IocpData → Poller → ℕ → SessionType → Outcome (Poller × Option ℕ)
init_new_session a garbage p fd type = do
  made ← id_gen p
  elim made [
    | none ↦ fault
    | some id ↦ (do
      let d = new_data a garbage id fd type
      let (ok, p') = next_port (put (record p { cur_id = some id }) id (some d))
      if ok then done (put p' id (some (joined d fd)), some id) else done (p', none))
  ]

-- The second `destroy` is of memory that has been set to zero, and frees nothing.
pub close_session : Poller → ℕ → Outcome Poller
close_session p id = do
  here ← slot p id
  elim here [
    | none ↦ done p
    | some d ↦ done (put (called (called p (closes d.conn.fd)) (shuts d.conn.fd)) id none)
  ]
