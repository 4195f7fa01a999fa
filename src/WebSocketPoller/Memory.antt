-- ===== src/WebSocketPoller/Memory.antt =====
-- The memory of a read buffer while the loop over frames goes through it.
use chain_socket.Base.{
  ℕ, zero, suc, refl, Bool, ◌+◌, ◌-◌, ◌≤◌, ◌<◌, ◌≡◌, sym, ap, ◌∙◌, subst, List, [], ◌∷◌, ◌++◌,
  Option, some, arith, length, length-append, append_assoc, take, drop, drop-append_length,
}
use chain_socket.Base.Outcome.{done, ◌>>=◌, Yields}
use chain_socket.Buffer.Middle.{copy_middle}
use chain_socket.Session.{Session}
use chain_socket.Poller.{Poller, put}
use chain_socket.Poller.Table.{session_at}
use chain_socket.Poller.Failure.{deref-some}
use chain_socket.WebSocket.RoundTrip.{Key, IsBytes}
use chain_socket.WebSocketPoller.{
  MessageHandlers, memory, parsed, message, leaves, read_frame, overwrite, frames,
}
use chain_socket.WebSocketPoller.Wire.{
  wire, size_field, key_field, payload_field, header_length, IsKeyed, length-payload_field,
  read_frame-wire,
}
use chain_socket.WebSocketPoller.Kind.{first_byte, read_frame_kind}
use chain_socket.WebSocketPoller.Part.{read_frame_part}

-- A message as it is sent, in a binary or a text frame, with its masking key if it has one.
pub record Sent : Type 0 where
  pub binary : Bool
  pub key : Option Key
  pub bytes : List ℕ

-- The final frame of a message.
abbrev pub framed : Sent → List ℕ
framed m =
    first_byte m.binary
    ∷ (size_field m.key (length m.bytes) ++ (key_field m.key ++ payload_field m.key m.bytes))

abbrev pub IsSendable : Sent → Type 0
IsSendable m = IsKeyed m.key × IsBytes m.bytes × (length m.bytes ≤ 0xFFFF)

abbrev pub AllSendable : List Sent → Type 0
AllSendable [] = Unit
AllSendable (m ∷ ms) = IsSendable m × AllSendable ms

-- The frames of the messages, one after the other.
abbrev pub wires : List Sent → List ℕ
wires [] = []
wires (m ∷ ms) = framed m ++ wires ms

-- A proper part of a frame.
pub record IsPart (rest : List ℕ) : Type 0 where
  pub of : Sent
  pub cut : length rest < length (framed of)
  pub same : rest ≡ take (length rest) (framed of)

-- The session is in its slot, and the bytes of its read buffer from `at` on are these.
pub record Unread (p : Poller) (id at : ℕ) (rest : List ℕ) : Type 0 where
  pub s : Session
  pub here : session_at p id ≡ some (some s)
  pub front : List ℕ
  pub junk : List ℕ
  pub block : s.read_buffer.buff ≡ some (front ++ (rest ++ junk))
  pub place : length front ≡ at
  pub size : s.read_buffer.size ≡ at + length rest
  pub capacity : length (front ++ (rest ++ junk)) ≡ s.read_buffer.capacity

-- onReadMsg of the session `id` returns and leaves the session alone; what it does can be seen in
-- the poller as a list of messages, which writing to the table does not change.
pub record Reads (h : MessageHandlers) (id : ℕ) : Type 0 where
  pub seen : Poller → List (List ℕ)
  pub seen_put : (p : Poller) (o : Option Session) → seen (put p id o) ≡ seen p
  pub reads :
      (p : Poller) (bytes : List ℕ) (s : Session)
      → session_at p id ≡ some (some s)
      → Yields
          (λ p'. (session_at p' id ≡ session_at p id) × (seen p' ≡ seen p ++ bytes ∷ []))
          (h.on_read_msg p id bytes)

unfoldable pub head_of : Option Key → List ℕ → List ℕ
head_of m bytes = 129 ∷ (size_field m (length bytes) ++ key_field m)

pub wire_split :
    (m : Option Key) (bytes : List ℕ) → wire m bytes ≡ head_of m bytes ++ payload_field m bytes
unfolding head_of
wire_split m bytes =
    ap (λ xs. 129 ∷ xs)
      (sym (append_assoc (size_field m (length bytes)) (key_field m) (payload_field m bytes)))

unfoldable pub header_of : Sent → List ℕ
header_of m = first_byte m.binary ∷ (size_field m.key (length m.bytes) ++ key_field m.key)

pub framed_split : (m : Sent) → framed m ≡ header_of m ++ payload_field m.key m.bytes
unfolding header_of
framed_split m =
    ap (λ xs. first_byte m.binary ∷ xs)
      (sym (
        append_assoc (size_field m.key (length m.bytes)) (key_field m.key)
          (payload_field m.key m.bytes)))

pub length-header_of : (m : Sent) → length (header_of m) ≡ header_length m.key (length m.bytes)
unfolding header_of
length-header_of m =
    omega (arith, length-append (size_field m.key (length m.bytes)) (key_field m.key))

pub length-framed :
    (m : Sent) → length (framed m) ≡ header_length m.key (length m.bytes) + length m.bytes
length-framed m = omega (
  arith,
  ap length (framed_split m),
  length-append (header_of m) (payload_field m.key m.bytes),
  length-header_of m,
  length-payload_field m.key m.bytes,
)

regroup :
    (front header pay rest junk : List ℕ)
    → front ++ (((header ++ pay) ++ rest) ++ junk) ≡ (front ++ header) ++ (pay ++ (rest ++ junk))
regroup front header pay rest junk = simp append_assoc

-- A payload that is replaced in place by one of the same size.
module _ (p : Poller) (id at : ℕ) (header pay bytes rest : List ℕ)
    (same : length pay ≡ length bytes) (u : Unread p id at ((header ++ pay) ++ rest)) where
  abbrev pub cleared : Session
  cleared = record u.s {
    read_buffer = record u.s.read_buffer {
      buff = some ((u.front ++ header) ++ (bytes ++ (rest ++ u.junk)));
    };
  }

  overwrite_lem : overwrite p id u.s (at + length header) bytes ≡ done (put p id (some cleared))
  unfolding overwrite
  overwrite_lem =
      let place : at + length header ≡ length (u.front ++ header) =
        omega (arith, u.place, length-append u.front header) in
      let grouped = u.block ∙ ap some (regroup u.front header pay rest u.junk) in
      rw (grouped, place, copy_middle (u.front ++ header) pay bytes (rest ++ u.junk) same)

  pub cleared-Unread :
      (p' : Poller)
      → session_at p' id ≡ some (some cleared)
      → Unread p' id (at + (length header + length bytes)) rest
  cleared-Unread p' here = record {
    s = cleared;
    here = here;
    front = (u.front ++ header) ++ bytes;
    junk = u.junk;
    block = ap some (sym (append_assoc (u.front ++ header) bytes (rest ++ u.junk)));
    place =
        omega
          (arith, u.place, length-append u.front header, length-append (u.front ++ header) bytes);
    size =
        omega (arith, u.size, length-append (header ++ pay) rest, length-append header pay, same);
    capacity = omega (arith, u.capacity, same, length-append {0});
  }

-- The memory from the position on, and how many of its bytes have arrived.
pub start_of :
    (p : Poller) (id at : ℕ) (rest : List ℕ) (u : Unread p id at rest)
    → (drop at (memory u.s.read_buffer) ≡ rest ++ u.junk)
      × (u.s.read_buffer.size - at ≡ length rest)
start_of p id at rest u =
    (rw u.block (drop-append_length at u.front (rest ++ u.junk) u.place), omega (arith, u.size))

pub frames-message :
    (f : ℕ) (h : MessageHandlers) (p : Poller) (id at : ℕ) (header pay bytes rest : List ℕ)
    (same : length pay ≡ length bytes) (u : Unread p id at ((header ++ pay) ++ rest))
    → read_frame (((header ++ pay) ++ rest) ++ u.junk) (length ((header ++ pay) ++ rest))
      ≡ done (message (length header) bytes)
    → frames (suc f) h p id at ≡ (
        h.on_read_msg (put p id (some (cleared p id at header pay bytes rest same u))) id bytes
        >>= λ p'. frames f h p' id (at + (length header + length bytes)))
unfolding frames
frames-message f h p id at header pay bytes rest same u round =
    let (start, arrived) = start_of p id at ((header ++ pay) ++ rest) u in
    rw (
      deref-some p id u.here,
      start,
      arrived,
      round,
      overwrite_lem p id at header pay bytes rest same u,
    )

pub round_lem :
    (m : Sent) (more junk : List ℕ)
    → IsSendable m
    → read_frame
        (((header_of m ++ payload_field m.key m.bytes) ++ more) ++ junk)
        (length ((header_of m ++ payload_field m.key m.bytes) ++ more))
      ≡ done (message (length (header_of m)) m.bytes)
round_lem m more junk (keyed, all, small) =
    subst
      (λ w.
        read_frame ((w ++ more) ++ junk) (length (w ++ more))
        ≡ done (message (length (header_of m)) m.bytes))
      (framed_split m)
      (ap (λ xs. read_frame xs (length (framed m ++ more))) (append_assoc (framed m) more junk)
        ∙ read_frame_kind m.binary _ (length (framed m ++ more))
        ∙ read_frame-wire m.key m.bytes (more ++ junk) (length (framed m ++ more)) keyed all small
            (omega (arith, length-append (framed m) more))
        ∙ ap (λ k. done (message k m.bytes)) (sym (length-header_of m)))

-- The first bytes of a frame, whatever its kind.
cut_framed :
    (m : Sent) (junk : List ℕ) (n : ℕ)
    → read_frame (take n (framed m) ++ junk) n ≡ read_frame (take n (wire m.key m.bytes) ++ junk) n
cut_framed m junk zero = refl
cut_framed m junk (suc n) = read_frame_kind m.binary _ (suc n)

pub frames-part :
    (f : ℕ) (h : MessageHandlers) (p : Poller) (id at : ℕ) (rest : List ℕ)
    → Unread p id at rest
    → IsPart rest
    → frames (suc f) h p id at ≡ done (parsed at, p)
unfolding frames
frames-part f h p id at rest u part =
    let (start, arrived) = start_of p id at rest u in
    let round : read_frame (rest ++ u.junk) (length rest) ≡ done leaves =
      ap (λ xs. read_frame (xs ++ u.junk) (length rest)) part.same
      ∙ cut_framed part.of u.junk (length rest)
      ∙ read_frame_part part.of.key part.of.bytes u.junk (length rest) part.cut in
    rw (deref-some p id u.here, start, arrived, round)
