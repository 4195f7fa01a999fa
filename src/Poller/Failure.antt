-- ===== src/Poller/Failure.antt =====
-- Poller::loopOnce when recv, send, bind or listen fails.
use chain_socket.Base.{
  ℕ, ◌≤◌, ◌≡◌, sym, ap, ◌∙◌, subst, ◌≢◌, ◌⊎◌, inl, inr, Bool, true, false, List, [], ◌∷◌, none,
  some, arith, ltb, ◌==◌, get_elem?-set_self, get_elem?-in_range_inv, Bool-cases,
}
use chain_socket.Base.Outcome.{done, fault, Yields}
use chain_socket.Buffer.{Allocator}
use chain_socket.Session.{Session, accept, connect}
use chain_socket.Poller.{
  Poller, Handlers, Event, RecvResult, SendResult, received, recv_failed, send_failed, failed,
  deref, put, syscall, closes, poll_del, close_session, next_send, next_recv, after_send, post_send,
  after_recv, handle_read_event, rearm_event, after_write, write_event, after_read, read_event,
  dispatch, step, listen_to, create_listen_socket,
}
use chain_socket.Poller.Table.{IsValid, session_at, slot-some, Closed, close_session-Closed}

pub deref-some :
    (p : Poller) (i : ℕ) {s : Session} → session_at p i ≡ some (some s) → deref p i ≡ done s
unfolding deref
deref-some p i e = rw (slot-some p i e)

-- A session that sends and receives.
abbrev pub IsStream : Session → Type 0
IsStream s = (s.type ≡ accept) ⊎ (s.type ≡ connect)

pub step-stream :
    (a : Allocator) (garbage : Session) (h : Handlers) (p : Poller) (e : Event) (s : Session)
    → session_at p e.id ≡ some (some s)
    → IsStream s
    → step a garbage h p e ≡ read_event a h p e e.readable
unfolding step dispatch
step-stream a garbage h p e s here (inl t) = rw (slot-some p e.id here, t)
step-stream a garbage h p e s here (inr t) = rw (slot-some p e.id here, t)

rearm_event-closed :
    (p : Poller) (id : ℕ) (write : Bool)
    → session_at p id ≡ some none
    → rearm_event p id write ≡ fault
unfolding rearm_event deref
rearm_event-closed p id write e = rw (slot-some p id e)

close_session-run :
    (p : Poller) (id : ℕ) {s : Session}
    → session_at p id ≡ some (some s)
    → close_session p id ≡ done (put (syscall p (closes s.fd)) id none)
unfolding close_session poll_del
close_session-run p id e = rw (slot-some p id e)

pub next_send-cons :
    (p : Poller) {r : SendResult} {rest : List SendResult}
    → p.kernel.sends ≡ r ∷ rest
    → next_send p ≡ (r, record p { kernel = record p.kernel { sends = rest } })
unfolding next_send
next_send-cons p e = rw e

pub next_recv-cons :
    (p : Poller) {r : RecvResult} {rest : List RecvResult}
    → p.kernel.recvs ≡ r ∷ rest
    → next_recv p ≡ (r, record p { kernel = record p.kernel { recvs = rest } })
unfolding next_recv
next_recv-cons p e = rw e

pub post_send-run :
    (h : Handlers) (p : Poller) (id : ℕ) {s : Session}
    → session_at p id ≡ some (some s)
    → s.write_buffer.size ≢ 0
    → post_send h p id ≡ after_send h (next_send p).1 id s (next_send p).0
unfolding post_send
post_send-run h p id {s} e n =
    let full : (s.write_buffer.size == 0) ≡ false = ground arith in rw (deref-some p id e, full)

pub write_event-failed :
    (h : Handlers) (p p' : Poller) (id n : ℕ) {s : Session}
    → post_send h p id ≡ done (failed n, p')
    → session_at p' id ≡ some (some s)
    → write_event h p id true ≡ fault
unfolding write_event after_write
write_event-failed h p p' id n {s} e here =
    let gone =
      get_elem?-set_self p'.sessions id none (get_elem?-in_range_inv p'.sessions id here) in
    rw (e, slot-some p' id here, close_session-run p' id here)
      (rearm_event-closed (put (syscall p' (closes s.fd)) id none) id false gone)

-- When a stream session has bytes to send and its socket is reported writable and not readable, a
-- send that fails makes the loop close the session and then read the null pointer in its slot.
pub step-write_failure :
    (a : Allocator) (garbage : Session) (h : Handlers) (p : Poller) (e : Event) (s : Session)
    (rest : List SendResult)
    → session_at p e.id ≡ some (some s)
    → IsStream s
    → e.readable ≡ false
    → e.writable ≡ true
    → s.write_buffer.size ≢ 0
    → p.kernel.sends ≡ send_failed ∷ rest
    → step a garbage h p e ≡ fault
unfolding read_event after_send
step-write_failure a garbage h p e s rest here stream unread writable some_bytes fails =
    let p' = record p { kernel = record p.kernel { sends = rest } } in
    let posted : post_send h p e.id ≡ done (failed 3, p') =
      rw (post_send-run h p e.id here some_bytes, next_send-cons p fails) in
    rw (step-stream a garbage h p e s here stream, unread, writable)
      (write_event-failed h p p' e.id 3 posted here)

-- The poller after one answer of recv has been taken.
abbrev pub after_answer : Poller → List RecvResult → Poller
after_answer p rest = record p { kernel = record p.kernel { recvs = rest } }

-- The answers of recv that end a session: an error, and the end of the stream.
abbrev pub Ends : RecvResult → Type 0
Ends r = (r ≡ recv_failed) ⊎ (r ≡ received [])

handle_read_event-Ends :
    (a : Allocator) (h : Handlers) (p : Poller) (id : ℕ) (s : Session) (r : RecvResult)
    (rest : List RecvResult)
    → session_at p id ≡ some (some s)
    → s.read_buffer.size ≤ s.read_buffer.max_size
    → p.kernel.recvs ≡ r ∷ rest
    → Ends r
    → (n : ℕ) × (handle_read_event a h p id ≡ done (failed n, after_answer p rest))
unfolding handle_read_event after_recv
handle_read_event-Ends a h p id s r rest here small answer ends =
    let fits : ltb s.read_buffer.max_size s.read_buffer.size ≡ false = ground arith in
    elim ends [
      | inl e ↦ (4, rw (deref-some p id here, fits, next_recv-cons p answer, e))
      | inr e ↦ (3, rw (deref-some p id here, fits, next_recv-cons p answer, e))
    ]

read_event-failed :
    (a : Allocator) (h : Handlers) (p p' : Poller) (e : Event) (n : ℕ) {s : Session}
    → handle_read_event a h p e.id ≡ done (failed n, p')
    → session_at p' e.id ≡ some (some s)
    → read_event a h p e true ≡ close_session p' e.id
unfolding read_event after_read
read_event-failed a h p p' e n r here = rw (r, slot-some p' e.id here)

-- When the socket of a stream session in a valid table is reported readable and recv fails or
-- reports the end of the stream, the handling of the event returns: the session is closed, once,
-- its slot is free and the others are as they were. Its read buffer is not over its limit.
pub step-read_failure :
    (a : Allocator) (garbage : Session) (h : Handlers) (p : Poller) (e : Event) (s : Session)
    (r : RecvResult) (rest : List RecvResult)
    → IsValid p
    → session_at p e.id ≡ some (some s)
    → IsStream s
    → e.readable ≡ true
    → s.read_buffer.size ≤ s.read_buffer.max_size
    → p.kernel.recvs ≡ r ∷ rest
    → Ends r
    → Yields (Closed (after_answer p rest) e.id) (step a garbage h p e)
step-read_failure a garbage h p e s r rest v here stream readable small answer ends =
    let p' = after_answer p rest in
    let v' : IsValid p' = record { size = v.size; cursor = v.cursor; named = v.named } in
    let inside = get_elem?-in_range_inv p.sessions e.id here in
    let (n, lost) = handle_read_event-Ends a h p e.id s r rest here small answer ends in
    let run =
      step-stream a garbage h p e s here stream
      ∙ ap (read_event a h p e) readable
      ∙ read_event-failed a h p p' e n lost here in
    subst (Yields (Closed p' e.id)) (sym run)
      (close_session-Closed p' e.id v' (omega (arith, v.size)))

-- listenTo reports success when bind or listen fails, without a new session.
pub listen_to-refused :
    (a : Allocator) (garbage : Session) (p : Poller) (fd : ℕ) (bound listening : Bool)
    → (bound ≡ false) ⊎ (listening ≡ false)
    → listen_to a garbage p fd bound listening ≡ done (true, p)
unfolding listen_to create_listen_socket
listen_to-refused a garbage p fd bound listening (inl e) = rw e
listen_to-refused a garbage p fd bound listening (inr e) = elim (Bool-cases bound) [
  | inl t ↦ rw (t, e)
  | inr f ↦ rw f
]
