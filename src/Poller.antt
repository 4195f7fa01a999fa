-- ===== src/Poller.antt =====
-- code/ChainSocket/Poller.h and Poller.cpp: the table of sessions and the event loop, over epoll
-- (EpollPoller.cpp). A session is named by its index in the table, which is what the code gives to
-- epoll; a null pointer is `none`. The virtual callbacks are a parameter.
pub mod Table
pub mod Failure
pub mod Receive
pub mod Accept
pub mod Send
pub mod Ready
pub mod Traffic
pub mod Loop
pub mod Start
mod Tests
use chain_socket.Base.{
  ℕ, zero, suc, ◌+◌, ◌-◌, ◌%◌, Bool, true, false, List, [], ◌∷◌, ◌++◌, Option, none, some, ltb, leb,
  ◌==◌, if◌then◌else◌, length, get_elem?, set,
}
use chain_socket.Base.Outcome.{Outcome, done, aborted, fault, no_fuel, ◌>>=◌}
use chain_socket.Buffer.{MessageBuffer, Allocator, copy, push_back, erase, to_int}
use chain_socket.Buffer
use chain_socket.Session.{Session, SessionType, unused, accept, connect, listen}
use chain_socket.Session

-- What recv and send report: the bytes read, whose number is the result, or the number of bytes
-- sent; that there is nothing to do now (EAGAIN and its like); an error.
pub data RecvResult : Type 0 where
  received : List ℕ → RecvResult
  recv_again recv_failed : RecvResult

pub data SendResult : Type 0 where
  sent : ℕ → SendResult
  send_again send_failed : SendResult

-- The calls that change what the kernel watches and which sockets are open.
pub data Syscall : Type 0 where
  adds mods : ℕ → Bool → Bool → Bool → ℕ → Syscall
  closes : ℕ → Syscall

-- The answers that the kernel will give, in order, and the calls made so far, newest first. When
-- an answer is asked for and none is left, the call would block.
pub record Kernel : Type 0 where
  pub recvs : List RecvResult
  pub sends : List SendResult
  pub accepts : List ℕ
  pub calls : List Syscall

pub record Poller : Type 0 where
  pub sessions : List (Option Session)
  pub cur_id : ℕ
  pub max_id : ℕ
  pub is_run : Bool
  pub listen_fds : List ℕ
  pub listen_conns : List ℕ
  pub kernel : Kernel

-- A negative result of the code is `failed` with its absolute value.
pub data Status : Type 0 where
  success : Status
  failed : ℕ → Status

-- The virtual functions that the poller calls; they may do anything to it.
pub record Handlers : Type 0 where
  pub on_recv : Poller → ℕ → ℕ → Outcome Poller
  pub on_send : Poller → ℕ → ℕ → Outcome Poller
  pub on_accept : Poller → Option ℕ → ℕ → Outcome Poller

-- `sessions[id]`, undefined past the end.
pub slot : Poller → ℕ → Outcome (Option Session)
slot p id = elim (get_elem? p.sessions id) [ none ↦ fault | some s ↦ done s ]

-- `*sessions[id]`
pub deref : Poller → ℕ → Outcome Session
deref p id = slot p id >>= λ o. elim o [ none ↦ fault | some s ↦ done s ]

abbrev pub put : Poller → ℕ → Option Session → Poller
put p id o = record p { sessions = set p.sessions id o }

abbrev pub syscall : Poller → Syscall → Poller
syscall p c = record p { kernel = record p.kernel { calls = c ∷ p.kernel.calls } }

nulls : ℕ → List (Option Session)
nulls zero = []
nulls (suc n) = none ∷ nulls n

-- The fields that `init` leaves alone are empty in a new object.
pub init : Kernel → Poller
unfolding nulls
init k = record {
  sessions = nulls 30000;
  cur_id = 0;
  max_id = 30000;
  is_run = true;
  listen_fds = [];
  listen_conns = [];
  kernel = k;
}

pub stop : Poller → Poller
stop p = record p { is_run = false }

-- `EventPoller::pollAdd` and `pollMod`: the flags are read, write and one-shot. `pollDel` is empty.
unfoldable pub poll_add : Poller → ℕ → Bool → Bool → Bool → ℕ → Poller
poll_add p fd read write once id = syscall p (adds fd read write once id)

pub poll_mod : Poller → ℕ → Bool → Bool → Bool → ℕ → Poller
poll_mod p fd read write once id = syscall p (mods fd read write once id)

pub poll_del : Poller → ℕ → Poller
poll_del p fd = p

-- sizeof(Session), with pointers of 8 bytes.
abbrev pub session_size : ℕ
session_size = 88

-- `destroy` finds no block to free and no callback to call.
abbrev pub is_blank : Session → Bool
is_blank s = elim s.read_buffer.buff [
  | some block ↦ false
  | none ↦ elim s.write_buffer.buff [
    | some block ↦ false
    | none ↦ elim s.on_user_data_destory [ none ↦ true | some callback ↦ s.user_data == 0 ]
  ]
]

unfoldable pub set_up : Allocator → Session → ℕ → ℕ → SessionType → Session
set_up a garbage id fd type = record (Session.reset a garbage) {
  session_id = id;
  fd = fd;
  type = type;
}

-- The session that initNewSession puts into a free slot. `garbage` is what was in the memory that
-- malloc returned: `reset` frees and calls what its pointers point to, unless they are null. The
-- result of malloc is not checked.
pub fresh_session : Allocator → Session → ℕ → ℕ → SessionType → Outcome Session
fresh_session a garbage id fd type = elim (a.malloc session_size) [
  | none ↦ fault
  | some block ↦ if is_blank garbage then done (set_up a garbage id fd type) else fault
]

abbrev pub advance : Poller → Poller
advance p = record p { cur_id = (p.cur_id + 1) % p.max_id }

-- The loop of initNewSession with the rounds that are left.
init_loop : ℕ → Allocator → Session → Poller → ℕ → SessionType → Outcome (Poller × Option ℕ)
init_loop zero a garbage p fd type = done (p, none)
init_loop (suc n) a garbage p fd type = do
  here ← slot p p.cur_id
  elim here [
    | some s ↦ init_loop n a garbage (advance p) fd type
    | none ↦ fresh_session a garbage p.cur_id fd type >>= λ s.
        done (advance (put p p.cur_id (some s)), some p.cur_id)
  ]

pub init_new_session : Allocator → Session → Poller → ℕ → SessionType → Outcome (Poller × Option ℕ)
init_new_session a garbage p fd type = init_loop p.max_id a garbage p fd type

-- The session is freed without its buffers.
pub close_session : Poller → ℕ → Outcome Poller
close_session p id = do
  here ← slot p id
  elim here [
    | none ↦ done p
    | some s ↦ done (put (syscall (poll_del p s.fd) (closes s.fd)) id none)
  ]

unfoldable pub post_recv : Poller → ℕ → Outcome Poller
post_recv p id = do s ← deref p id; done (poll_add p s.fd true false false s.session_id)

-- The answer to one call of send or recv.
pub next_send : Poller → SendResult × Poller
next_send p = elim p.kernel.sends [
  | [] ↦ (send_again, p)
  | r ∷ rest ↦ (r, record p { kernel = record p.kernel { sends = rest } })
]

pub next_recv : Poller → RecvResult × Poller
next_recv p = elim p.kernel.recvs [
  | [] ↦ (recv_again, p)
  | r ∷ rest ↦ (r, record p { kernel = record p.kernel { recvs = rest } })
]

pub after_send : Handlers → Poller → ℕ → Session → SendResult → Outcome (Status × Poller)
after_send h p id s send_again = done (success, p)
after_send h p id s send_failed = done (failed 3, p)
after_send h p id s (sent zero) = done (success, p)
after_send h p id s (sent (suc n)) = do
  b ← erase s.write_buffer (suc n)
  p' ← h.on_send (put p id (some (record s { write_buffer = b }))) id (suc n)
  done (success, p')

pub post_send : Handlers → Poller → ℕ → Outcome (Status × Poller)
post_send h p id = do
  s ← deref p id
  let (r, p') = next_send p
  if s.write_buffer.size == 0 then done (success, p) else after_send h p' id s r

pub send_to : Allocator → Handlers → Poller → ℕ → List ℕ → Outcome Poller
send_to a h p id bytes = do
  s ← deref p id
  b ← push_back a s.write_buffer bytes
  let p' = put p id (some (record s { write_buffer = b }))
  if ltb 0 s.write_buffer.size then done p' else (post_send h p' id >>= λ (status, p''). done p'')

-- recv writes at the end of the bytes that are there; then the size grows.
pub after_recv :
    Allocator → Handlers → Poller → ℕ → Session → RecvResult → Outcome (Status × Poller)
after_recv a h p id s recv_again = done (success, p)
after_recv a h p id s recv_failed = done (failed 4, p)
after_recv a h p id s (received []) = done (failed 3, p)
after_recv a h p id s (received (byte ∷ rest)) = do
  let bytes = byte ∷ rest
  buff ← copy s.read_buffer.buff s.read_buffer.size bytes
  size ← to_int (s.read_buffer.size + length bytes)
  b ← Buffer.alloc a (record s.read_buffer { buff = buff; size = size })
  p' ← h.on_recv (put p id (some (record s { read_buffer = b }))) id (length bytes)
  done (success, p')

pub handle_read_event : Allocator → Handlers → Poller → ℕ → Outcome (Status × Poller)
handle_read_event a h p id = do
  s ← deref p id
  let (r, p') = next_recv p
  if ltb s.read_buffer.max_size s.read_buffer.size
      then done (failed 1, p)
      else after_recv a h p' id s r

-- One entry of the list that epoll_wait fills: a session and the flags that it reports.
pub record Event : Type 0 where
  pub id : ℕ
  pub readable : Bool
  pub writable : Bool

-- The rest of an event's handling, from `if (evFlag & EVENT_WRITE)` on. After a failed send the
-- session is closed, and then used: `break` leaves only the switch.
pub rearm_event : Poller → ℕ → Bool → Outcome Poller
rearm_event p id write = do s ← deref p id; done (poll_mod p s.fd true write true id)

after_write : Poller → ℕ → Status → Option Session → Outcome Poller
after_write p id status none = done p
after_write p id (failed n) (some s) = close_session p id >>= λ p'. rearm_event p' id false
after_write p id success (some s) = rearm_event p id (ltb 0 s.write_buffer.size)

pub write_event : Handlers → Poller → ℕ → Bool → Outcome Poller
write_event h p id false = rearm_event p id false
write_event h p id true = do
  (status, p') ← post_send h p id
  here ← slot p' id
  after_write p' id status here

after_read : Handlers → Poller → Event → Status → Option Session → Outcome Poller
after_read h p e status none = done p
after_read h p e (failed n) (some s) = close_session p e.id
after_read h p e success (some s) = write_event h p e.id e.writable

pub read_event : Allocator → Handlers → Poller → Event → Bool → Outcome Poller
read_event a h p e false = write_event h p e.id e.writable
read_event a h p e true = do
  (status, p') ← handle_read_event a h p e.id
  here ← slot p' e.id
  after_read h p' e status here

-- One answer of accept(): a new session, or the socket is closed again.
pub accepted : Handlers → Poller → ℕ → ℕ → Option ℕ → Outcome Poller
accepted h p id fd none = done (syscall p (closes fd))
accepted h p id fd (some aid) = do
  listener ← slot p id
  h.on_accept p (elim listener [ none ↦ none | some s ↦ some id ]) aid

accept_loop : Allocator → Session → Handlers → Poller → ℕ → List ℕ → Outcome Poller
accept_loop a garbage h p id [] = done p
accept_loop a garbage h p id (zero ∷ fds) =
    done (record p { kernel = record p.kernel { accepts = fds } })
accept_loop a garbage h p id (suc n ∷ fds) = do
  let fd = suc n
  (p1, made) ← init_new_session a garbage p fd accept
  p2 ← accepted h p1 id fd made
  accept_loop a garbage h p2 id fds

pub accept_event : Allocator → Session → Handlers → Poller → ℕ → Outcome Poller
accept_event a garbage h p id =
    accept_loop a garbage h (record p { kernel = record p.kernel { accepts = [] } }) id
      p.kernel.accepts

dispatch : Allocator → Session → Handlers → Poller → Event → SessionType → Outcome Poller
dispatch a garbage h p e connect = read_event a h p e e.readable
dispatch a garbage h p e accept = read_event a h p e e.readable
dispatch a garbage h p e listen = accept_event a garbage h p e.id
dispatch a garbage h p e unused = aborted

-- The handling of one event.
pub step : Allocator → Session → Handlers → Poller → Event → Outcome Poller
step a garbage h p e = do
  here ← slot p e.id
  elim here [ none ↦ done p | some s ↦ dispatch a garbage h p e s.type ]

-- The events that epoll_wait reported, in order.
pub loop_once : Allocator → Session → Handlers → Poller → List Event → Outcome Poller
loop_once a garbage h p [] = done p
loop_once a garbage h p (e ∷ es) = step a garbage h p e >>= λ p'. loop_once a garbage h p' es

-- The answers of socket(), bind() and listen(); `none` is -1.
pub create_listen_socket : ℕ → Bool → Bool → Option ℕ
create_listen_socket fd bound listening =
    if bound then (if listening then some fd else none) else none

-- `return -1` from a function into bool returns true.
pub listen_to : Allocator → Session → Poller → ℕ → Bool → Bool → Outcome (Bool × Poller)
listen_to a garbage p fd bound listening = elim (create_listen_socket fd bound listening) [
  | none ↦ done (true, p)
  | some lfd ↦ init_new_session a garbage p lfd listen >>= λ (p1, made). elim made [
    | none ↦ done (false, syscall p1 (closes lfd))
    | some id ↦
        let p2 = poll_add p1 lfd true false false id in
        done (
          true,
          record p2 {
            listen_fds = p2.listen_fds ++ lfd ∷ [];
            listen_conns = p2.listen_conns ++ id ∷ [];
          },
        )
  ]
]

-- The callbacks of the base class. The literal "hello" is five bytes.
pub base_on_recv : Allocator → Handlers → Poller → ℕ → ℕ → Outcome Poller
base_on_recv a h p id len = send_to a h p id (104 ∷ 101 ∷ 108 ∷ 108 ∷ 111 ∷ [])

pub base_on_send : Poller → ℕ → ℕ → Outcome Poller
base_on_send p id len = done p

unfoldable pub base_on_accept : Poller → Option ℕ → ℕ → Outcome Poller
base_on_accept p none aid = done p
base_on_accept p (some id) aid = do
  s ← deref p aid
  done (put p aid (some (record s { heart_beats = 90 })))
