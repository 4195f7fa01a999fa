-- ===== src/Poller/Send.antt =====
-- Poller::sendTo and Poller::postSend: what becomes of the bytes that a session is given.
use chain_socket.Base.{
  ℕ, zero, suc, ◌+◌, ◌*◌, ◌≤◌, ◌≡◌, refl, sym, ap, ◌∙◌, ◌≢◌, true, false, List, [], ◌∷◌, ◌++◌, some,
  arith, ltb, length, drop, get_elem?-set_self, get_elem?-in_range_inv,
}
use chain_socket.Base.Outcome.{Outcome, done, ◌>>=◌, Yields}
use chain_socket.Buffer.{MessageBuffer, Allocator, buffer_size, int_max}
use chain_socket.Buffer.Contents.{
  contents, Grants, HoldsWithRoom, push_back_appends, erase_drops, length-contents,
}
use chain_socket.Buffer.Contents
use chain_socket.Session.{Session}
use chain_socket.Poller.{
  Poller, Handlers, Status, SendResult, sent, send_again, send_failed, failed, success, put,
  after_send, post_send, send_to,
}
use chain_socket.Poller.Table.{session_at}
use chain_socket.Poller.Failure.{deref-some, next_send-cons, post_send-run}

empty_of_length {ℓ} : {A : Type ℓ} (xs : List A) → length xs ≡ 0 → xs ≡ []
empty_of_length [] e = refl
empty_of_length (x ∷ xs) e = absurd (omega arith)

filled : (bytes : List ℕ) → bytes ≢ [] → length bytes ≢ 0
filled bytes n e = n (empty_of_length bytes e)

abbrev pub with_write : Session → MessageBuffer → Session
with_write s b = record s { write_buffer = b }

-- The session in slot `id` has this write buffer now, and nothing else of the table has changed.
abbrev pub written : Poller → ℕ → Session → MessageBuffer → Poller
written p id s b = put p id (some (with_write s b))

abbrev pub after_answer : Poller → List SendResult → Poller
after_answer p rest = record p { kernel = record p.kernel { sends = rest } }

-- What postSend makes of an answer of send. The bytes that were sent, and no others, leave the
-- buffer, and onSend is told how many; otherwise the bytes all stay.
pub Flushed : Handlers → Poller → ℕ → Session → SendResult → Outcome (Status × Poller) → Type 0
Flushed h p id s (sent zero) r = r ≡ done (success, p)
Flushed h p id s (sent (suc n)) r =
    (b : MessageBuffer) × Contents.IsValid b
    × (contents b ≡ drop (suc n) (contents s.write_buffer))
    × (r ≡ (h.on_send (written p id s b) id (suc n) >>= λ p'. done (success, p')))
Flushed h p id s send_again r = r ≡ done (success, p)
Flushed h p id s send_failed r = r ≡ done (failed 3, p)

-- send never reports more bytes than it was given.
abbrev pub Within : SendResult → ℕ → Type 0
Within (sent n) size = n ≤ size
Within send_again size = 0 ≤ size
Within send_failed size = 0 ≤ size

after_send-Flushed :
    (h : Handlers) (p : Poller) (id : ℕ) (s : Session) (r : SendResult)
    → Contents.IsValid s.write_buffer
    → Within r s.write_buffer.size
    → Flushed h p id s r (after_send h p id s r)
unfolding Flushed after_send
after_send-Flushed h p id s (sent zero) v w = refl
after_send-Flushed h p id s (sent (suc n)) v w =
    let (b, run, (v', same, size, cap)) = erase_drops s.write_buffer (suc n) v w in
    (b, v', same, rw run)
after_send-Flushed h p id s send_again v w = refl
after_send-Flushed h p id s send_failed v w = refl

-- postSend on a session that has bytes to send makes one call of send. The bytes that were sent,
-- and no others, leave the write buffer, and onSend is told their number; EAGAIN and 0 change
-- nothing and succeed, an error is reported and changes nothing. send reports at most the number
-- of bytes that it was given.
pub post_send-Flushed :
    (h : Handlers) (p : Poller) (id : ℕ) (s : Session) (r : SendResult) (rest : List SendResult)
    → session_at p id ≡ some (some s)
    → Contents.IsValid s.write_buffer
    → s.write_buffer.size ≢ 0
    → p.kernel.sends ≡ r ∷ rest
    → Within r s.write_buffer.size
    → Flushed h (after_answer p rest) id s r (post_send h p id)
post_send-Flushed h p id s r rest here v full answer w =
    rw (post_send-run h p id here full, next_send-cons p answer)
      (after_send-Flushed h (after_answer p rest) id s r v w)

-- sendTo on a session whose write buffer is not empty returns. The bytes are appended to the write
-- buffer, no callback runs, nothing is sent and the kernel is not asked to report when the socket
-- is writable. The allocator grants its requests and the sizes fit an int.
pub send_to_waits :
    (a : Allocator) (h : Handlers) (p : Poller) (id : ℕ) (s : Session) (bytes : List ℕ)
    → Grants a
    → session_at p id ≡ some (some s)
    → Contents.IsValid s.write_buffer
    → s.write_buffer.size ≢ 0
    → s.write_buffer.size + length bytes + 3 * buffer_size ≤ int_max
    → Yields
        (λ p'.
          (b : MessageBuffer) × HoldsWithRoom (contents s.write_buffer ++ bytes) b
          × (p' ≡ written p id s b))
        (send_to a h p id bytes)
unfolding send_to
send_to_waits a h p id s bytes g here v full small =
    let (b, run, holds) = push_back_appends a s.write_buffer bytes g v small in
    let waiting : ltb 0 s.write_buffer.size ≡ true = ground arith in
    (written p id s b, rw (deref-some p id here, run, waiting), (b, holds, refl))

-- sendTo on a session whose write buffer is empty appends the bytes to it and calls send once: the
-- bytes that were sent leave the buffer and onSend is told their number; after EAGAIN or an error
-- all of them stay, sendTo returns, and the kernel is not asked to report when the socket is
-- writable. The allocator grants its requests and the sizes fit an int.
pub send_to_sends :
    (a : Allocator) (h : Handlers) (p : Poller) (id : ℕ) (s : Session) (bytes : List ℕ)
    (r : SendResult) (rest : List SendResult)
    → Grants a
    → session_at p id ≡ some (some s)
    → Contents.IsValid s.write_buffer
    → s.write_buffer.size ≡ 0
    → bytes ≢ []
    → length bytes + 3 * buffer_size ≤ int_max
    → p.kernel.sends ≡ r ∷ rest
    → Within r (length bytes)
    → (b : MessageBuffer) × (sent_to : Outcome (Status × Poller)) × Contents.IsValid b
      × (contents b ≡ bytes)
      × Flushed h (after_answer (written p id s b) rest) id (with_write s b) r sent_to
      × (send_to a h p id bytes ≡ (sent_to >>= λ (status, p'). done p'))
unfolding send_to
send_to_sends a h p id s bytes r rest g here v idle some_bytes small answer w =
    let empty =
      empty_of_length (contents s.write_buffer) (length-contents s.write_buffer v ∙ idle) in
    let (b, run, (v', same, room)) =
      push_back_appends a s.write_buffer bytes g v (omega (arith, idle)) in
    let holds : contents b ≡ bytes = same ∙ ap (λ q. q ++ bytes) empty in
    let size : b.size ≡ length bytes = sym (length-contents b v') ∙ ap length holds in
    let p' = written p id s b in
    let at =
      get_elem?-set_self p.sessions id (some (with_write s b))
        (get_elem?-in_range_inv p.sessions id here) in
    let waiting : ltb 0 s.write_buffer.size ≡ false = ground (arith, idle) in
    (
      b,
      post_send h p' id,
      v',
      holds,
      post_send-Flushed h p' id (with_write s b) r rest at v'
          (λ e. filled bytes some_bytes (sym size ∙ e)) answer (rw (← size) at w),
      rw (deref-some p id here, run, waiting),
    )
