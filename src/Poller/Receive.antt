-- ===== src/Poller/Receive.antt =====
-- Poller::handleReadEvent: what becomes of the bytes that arrive for a session.
use chain_socket.Base.{
  ℕ, ◌+◌, ◌*◌, ◌≤◌, ◌≡◌, refl, ◌∙◌, List, ◌∷◌, ◌++◌, some, false, arith, ltb, length,
}
use chain_socket.Base.Outcome.{Outcome, done, ◌>>=◌}
use chain_socket.Buffer.{MessageBuffer, Allocator, buffer_size, int_max}
use chain_socket.Buffer.Contents.{contents, Grants, copy_lem, to_int_lem, alloc_keeps}
use chain_socket.Buffer.Contents
use chain_socket.Session.{Session}
use chain_socket.Poller.{
  Poller, Handlers, Status, RecvResult, received, success, put, after_recv, handle_read_event,
}
use chain_socket.Poller.Table.{session_at}
use chain_socket.Poller.Failure.{deref-some, next_recv-cons, after_answer}

-- The bytes are behind those that were in the read buffer, two blocks of room follow them, and
-- onRecv is told how many came; its result is the poller.
unfoldable pub Received :
    Handlers → Poller → ℕ → Session → List ℕ → Outcome (Status × Poller) → Type 0
Received h p id s bytes r =
    (b : MessageBuffer) × Contents.IsValid b
    × (contents b ≡ contents s.read_buffer ++ bytes)
    × (b.size + 2 * buffer_size ≤ b.capacity)
    × (r ≡ (
        h.on_recv (put p id (some (record s { read_buffer = b }))) id (length bytes) >>= λ p'.
        done (success, p')))

pub after_recv-Received :
    (a : Allocator) (h : Handlers) (p : Poller) (id : ℕ) (s : Session) (byte : ℕ) (more : List ℕ)
    → Grants a
    → Contents.IsValid s.read_buffer
    → s.read_buffer.size + length (byte ∷ more) ≤ s.read_buffer.capacity
    → s.read_buffer.size + length (byte ∷ more) + 3 * buffer_size ≤ int_max
    → Received h p id s (byte ∷ more) (after_recv a h p id s (received (byte ∷ more)))
unfolding after_recv Received
after_recv-Received a h p id s byte more g (block, v) room small =
    let bytes = byte ∷ more in
    let total = s.read_buffer.size + length bytes in
    let (block', copied, len, front) =
      copy_lem block bytes s.read_buffer.size (omega (arith, v.sized)) in
    let longer : MessageBuffer = record s.read_buffer { buff = some block'; size = total } in
    let valid : Contents.IsValid longer =
      (block', record { owned = refl; sized = len ∙ v.sized; fits = room }) in
    let (b, run, (v', same, size, space)) = alloc_keeps a longer g valid small in
    (
      b,
      v',
      same ∙ rw v.owned front,
      omega (arith, size, space),
      rw (v.owned, copied, to_int_lem total (omega arith), run),
    )

-- When recv hands over bytes that fit behind those in the read buffer, handleReadEvent appends
-- them to it, leaves at least two blocks of room for the next recv, and calls onRecv with their
-- number. The allocator grants its requests, the sizes fit an int, and the read buffer is valid
-- and not over its limit.
pub handle_read_event-Received :
    (a : Allocator) (h : Handlers) (p : Poller) (id : ℕ) (s : Session) (byte : ℕ) (more : List ℕ)
    (rest : List RecvResult)
    → Grants a
    → session_at p id ≡ some (some s)
    → Contents.IsValid s.read_buffer
    → s.read_buffer.size ≤ s.read_buffer.max_size
    → p.kernel.recvs ≡ received (byte ∷ more) ∷ rest
    → s.read_buffer.size + length (byte ∷ more) ≤ s.read_buffer.capacity
    → s.read_buffer.size + length (byte ∷ more) + 3 * buffer_size ≤ int_max
    → Received h (after_answer p rest) id s (byte ∷ more) (handle_read_event a h p id)
unfolding handle_read_event
handle_read_event-Received a h p id s byte more rest g here v low answer room small =
    let open_ : ltb s.read_buffer.max_size s.read_buffer.size ≡ false = ground arith in
    rw (deref-some p id here, open_, next_recv-cons p answer)
      (after_recv-Received a h (after_answer p rest) id s byte more g v room small)
