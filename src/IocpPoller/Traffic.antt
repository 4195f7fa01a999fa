-- ===== src/IocpPoller/Traffic.antt =====
-- code/ChainSocket/IOCPPoller.cpp: what a session of the Windows poller reads and sends.
pub mod Receive
pub mod Send
use chain_socket.Base.{
  ℕ, zero, suc, ◌+◌, ◌-◌, ◌%◌, Bool, true, false, List, [], ◌∷◌, Option, none, some, ltb, ◌==◌,
  if◌then◌else◌, length, get_elem?, set,
}
use chain_socket.Base.Outcome.{Outcome, done, fault, no_fuel, ◌>>=◌}
use chain_socket.Buffer.{MessageBuffer, Allocator, alloc, copy, to_int, push_back, erase}
use chain_socket.Session.{Session, SessionType}
use chain_socket.Session
use chain_socket.Poller.{
  RecvResult, SendResult, received, recv_again, recv_failed, sent, send_again, send_failed,
}
use chain_socket.IocpPoller.{
  RwMod, client_io_null, client_io_accept, client_io_connect, client_io_read, client_io_write,
  IoContext, IocpData, WinCall, closes, shuts, recv_posted, send_posted, accept_posted,
  context_updated, handle_closed, cleaned_up, Windows, Poller, Handlers, slot, deref, put, called,
  data_reset, id_gen, next_post, next_send, init_new_session, close_session,
}

-- WSARecv for no bytes; whether it could be posted is reported to callers that do not look.
pub post_recv : Poller → ℕ → Outcome Poller
post_recv p id = do
  here ← slot p id
  elim here [
    | none ↦ done p
    | some d ↦
        let ctx = record d.io_ctx_r { action = client_io_read } in
        let (ok, p') = next_post (put p id (some (record d { io_ctx_r = ctx }))) in
        done (if ok then called p' (recv_posted ctx.accept) else p')
  ]

-- The case of EAGAIN in do_recv, after `n` bytes.
pub drained : Handlers → Poller → ℕ → ℕ → Outcome Poller
drained h p id n = if ltb 0 n then (h.on_recv p id n >>= λ p'. post_recv p' id) else post_recv p id

abbrev pub with_recvs : Poller → List RecvResult → Poller
with_recvs p rest = record p { system = record p.system { recvs = rest } }

abbrev pub with_read : Poller → ℕ → IocpData → MessageBuffer → Poller
with_read p id d b = put p id (some (record d { conn = record d.conn { read_buffer = b } }))

-- recv wrote at the end of the bytes that were there; then the size grows, and room is made.
pub took : Allocator → MessageBuffer → List ℕ → Outcome MessageBuffer
took a b bytes = do
  buff ← copy b.buff b.size bytes
  size ← to_int (b.size + length bytes)
  alloc a (record b { buff = buff; size = size })

-- The loop of do_recv after `n` bytes, with the answers of recv that are left.
pub recv_loop : Allocator → Handlers → Poller → ℕ → ℕ → List RecvResult → Outcome Poller
recv_loop a h p id n [] = drained h (with_recvs p []) id n
recv_loop a h p id n (recv_again ∷ rest) = drained h (with_recvs p rest) id n
recv_loop a h p id n (recv_failed ∷ rest) = close_session (with_recvs p rest) id
recv_loop a h p id n (received [] ∷ rest) = close_session (with_recvs p rest) id
recv_loop a h p id n (received (byte ∷ more) ∷ rest) = do
  d ← deref p id
  b ← took a d.conn.read_buffer (byte ∷ more)
  total ← to_int (n + length (byte ∷ more))
  recv_loop a h (with_read p id d b) id total rest

pub do_recv : Allocator → Handlers → Poller → ℕ → Outcome Poller
do_recv a h p id = do
  here ← slot p id
  elim here [
    | none ↦ done p
    | some d ↦ (do
      b ← alloc a d.conn.read_buffer
      recv_loop a h (with_read p id d b) id 0 p.system.recvs)
  ]

abbrev pub with_write : Poller → ℕ → IocpData → MessageBuffer → Poller
with_write p id d b = put p id (some (record d { conn = record d.conn { write_buffer = b } }))

-- WSASend for no bytes.
pub post_write : Poller → ℕ → IocpData → Outcome Poller
post_write p id d =
    let (ok, p') = next_post p in
    if ok then done (called p' (send_posted d.io_ctx_s.accept)) else close_session p' id

-- What becomes of an answer of send, and whether the loop goes on.
pub answered : Handlers → Poller → ℕ → IocpData → SendResult → Outcome (Bool × Poller)
answered h p id d send_again = post_write p id d >>= λ p'. done (false, p')
answered h p id d send_failed = close_session p id >>= λ p'. done (false, p')
answered h p id d (sent zero) = done (true, p)
answered h p id d (sent (suc n)) = do
  b ← erase d.conn.write_buffer (suc n)
  p' ← h.on_send (with_write p id d b) id (suc n)
  here ← slot p' id
  done (elim here [ none ↦ false | some d' ↦ true ], p')

-- One round of the loop of postSend.
pub send_round : Handlers → Poller → ℕ → Outcome (Bool × Poller)
send_round h p id = do
  d ← deref p id
  let (r, p') = next_send p
  if d.conn.write_buffer.size == 0 then done (false, p) else answered h p' id d r

-- The loop, for the rounds that are left.
pub send_loop : ℕ → Handlers → Poller → ℕ → Outcome Poller
send_loop zero h p id = no_fuel
send_loop (suc n) h p id = do
  (more, p') ← send_round h p id
  elim more [ true ↦ send_loop n h p' id | false ↦ done p' ]

pub post_send : ℕ → Handlers → Poller → ℕ → Outcome Poller
post_send fuel h p id = do
  here ← slot p id
  elim here [
    | none ↦ done p
    | some d ↦
        let ctx = record d.io_ctx_s { action = client_io_write } in
        send_loop fuel h (put p id (some (record d { io_ctx_s = ctx }))) id
  ]

pub do_send : ℕ → Handlers → Poller → ℕ → Outcome Poller
do_send fuel h p id = do
  here ← slot p id
  elim here [
    | none ↦ done p
    | some d ↦ if ltb 0 d.conn.write_buffer.size then post_send fuel h p id else done p
  ]

pub send_to : ℕ → Allocator → Handlers → Poller → ℕ → List ℕ → Outcome Poller
send_to fuel a h p id bytes = do
  here ← slot p id
  elim here [
    | none ↦ done p
    | some d ↦ (do
      b ← push_back a d.conn.write_buffer bytes
      let p' = with_write p id d b
      if ltb 0 d.conn.write_buffer.size then done p' else post_send fuel h p' id)
  ]

-- The callbacks of the base class.
pub base_on_recv : Poller → ℕ → ℕ → Outcome Poller
base_on_recv p id len = do
  here ← slot p id
  elim here [
    | none ↦ done p
    | some d ↦ erase d.conn.read_buffer len >>= λ b. done (with_read p id d b)
  ]

unfoldable pub base_on_send : Poller → ℕ → ℕ → Outcome Poller
base_on_send p id len = done p

pub base_on_accept : Poller → Option ℕ → Option ℕ → Outcome Poller
base_on_accept p listener aid = done p
