-- ===== src/WebSocketPoller/Transmit.antt =====
-- sendMsg queues the frame that onRecv reads.
use chain_socket.Base.{
  ℕ, ◌+◌, ◌*◌, ◌/◌, ◌%◌, ◌≤◌, ◌<◌, ◌≡◌, ◌⊎◌, refl, sym, ap, ◌∙◌, ◌≢◌, Bool, true, false, List, [],
  ◌∷◌, ◌++◌, append_assoc, Option, none, some, arith, leb, if◌then◌else◌, length, length-append,
  set-set, get_elem?-set_self, get_elem?-in_range_inv, Bool-cases, inl, inr,
}
use native.Mathlib.Nat.{mod-lt}
use chain_socket.Base.Outcome.{aborted, done, ◌>>=◌, Yields}
use chain_socket.Buffer.{MessageBuffer, Allocator, buffer_size, int_max}
use chain_socket.Buffer.Contents.{contents, Grants, HoldsWithRoom, length-contents}
use chain_socket.Buffer.Contents
use chain_socket.Session.{Session}
use chain_socket.Poller.{Poller, Handlers, send_to}
use chain_socket.Poller.Table.{session_at}
use chain_socket.Poller.Failure.{deref-some}
use chain_socket.Poller.Send.{written, with_write, send_to_waits}
use chain_socket.WebSocket.{htons, code, unmask}
use chain_socket.WebSocket.Bits.{with_mask_bit, without_mask_bit, low_byte}
use chain_socket.WebSocket.RoundTrip.{Key, key_bytes, mask, byte-some, key_byte, IsKey}
use chain_socket.WebSocketPoller.{masking_key, make_frame_head, send_msg1, send_msg2, send_msg}
use chain_socket.WebSocketPoller.Wire.{
  mask_bit, key_field, payload_field, wire, length-payload_field,
}
use chain_socket.WebSocketPoller.Memory.{head_of, wire_split}

-- The key of sendMsg2.
abbrev pub fixed_key : Key
fixed_key = record { k0 = 0x12; k1 = 0x34; k2 = 0x56; k3 = 0x78 }

-- Only the side that connected masks what it sends.
abbrev pub key_of : Bool → Option Key
key_of true = some fixed_key
key_of false = none

pub fixed_key-IsKey : IsKey fixed_key
fixed_key-IsKey = (omega arith, omega arith, omega arith, omega arith)

unmask_lem : (i : ℕ) (bs : List ℕ) → unmask masking_key i bs ≡ done (mask fixed_key i bs)
unfolding unmask
unmask_lem i [] = refl
unmask_lem i (b ∷ bs) =
    let (found, small) =
      key_byte fixed_key (i % 4) fixed_key-IsKey (mod-lt i {m = 4} (omega arith)) in
    rw (byte-some (key_bytes fixed_key) (i % 4) found, unmask_lem (i + 1) bs, unmask)

body_lem :
    (use_mask : Bool) (bytes : List ℕ)
    → (if use_mask then unmask masking_key 0 bytes else done bytes)
      ≡ done (payload_field (key_of use_mask) bytes)
body_lem true bytes = unmask_lem 0 bytes
body_lem false bytes = refl

head_short :
    (use_mask : Bool) (n : ℕ)
    → n ≤ 125
    → make_frame_head n use_mask masking_key
      ≡ done (129 ∷ (mask_bit (key_of use_mask) + n) ∷ key_field (key_of use_mask))
unfolding make_frame_head code
head_short true n h =
    let short : leb n 125 ≡ true = ground arith in rw (short, with_mask_bit n (omega arith))
head_short false n h =
    let short : leb n 125 ≡ true = ground arith in
    let same : 0 + n ≡ n = omega arith in rw (short, without_mask_bit n (omega arith), same)

head_long :
    (use_mask : Bool) (n : ℕ)
    → 125 < n
    → n ≤ 0xFFFF
    → make_frame_head n use_mask masking_key
      ≡ done (
          129
          ∷ (mask_bit (key_of use_mask) + 126)
          ∷ n / 256
          ∷ n % 256
          ∷ key_field (key_of use_mask))
unfolding make_frame_head code
head_long true n h small =
    let short : leb n 125 ≡ false = ground arith in
    let long : leb n 0xFFFF ≡ true = ground arith in
    let high : n / 256 % 256 ≡ n / 256 = omega arith in
    rw (short, long, low_byte n (omega arith), low_byte (n / 256) (omega arith), high)
head_long false n h small =
    let short : leb n 125 ≡ false = ground arith in
    let long : leb n 0xFFFF ≡ true = ground arith in
    let high : n / 256 % 256 ≡ n / 256 = omega arith in
    rw (short, long, low_byte n (omega arith), low_byte (n / 256) (omega arith), high)

head_over :
    (use_mask : Bool) (n : ℕ) → 0xFFFF < n → make_frame_head n use_mask masking_key ≡ aborted
unfolding make_frame_head
head_over use_mask n over =
    let short : leb n 125 ≡ false = ground arith in
    let long : leb n 0xFFFF ≡ false = ground arith in rw (short, long) refl

make_frame_head_lem :
    (use_mask : Bool) (bytes : List ℕ)
    → length bytes ≤ 0xFFFF
    → make_frame_head (length bytes) use_mask masking_key ≡ done (head_of (key_of use_mask) bytes)
unfolding head_of
make_frame_head_lem use_mask bytes small = elim (Bool-cases (leb (length bytes) 125)) [
  | inl short ↦ rw short (head_short use_mask (length bytes) (ground arith))
  | inr long ↦ rw long (head_long use_mask (length bytes) (ground arith) small)
]

head_small : (m : Option Key) (bytes : List ℕ) → length (head_of m bytes) ≤ 8
unfolding head_of
head_small none bytes = elim (Bool-cases (leb (length bytes) 125)) [
  | inl short ↦ rw short (omega arith)
  | inr long ↦ rw long (omega arith)
]
head_small (some k) bytes = elim (Bool-cases (leb (length bytes) 125)) [
  | inl short ↦ rw short (omega arith)
  | inr long ↦ rw long (omega arith)
]

-- Two calls of sendTo on a session with waiting bytes, one after the other.
send_twice :
    (a : Allocator) (h : Handlers) (p : Poller) (id : ℕ) (s : Session) (head body : List ℕ)
    → Grants a
    → session_at p id ≡ some (some s)
    → Contents.IsValid s.write_buffer
    → s.write_buffer.size ≢ 0
    → s.write_buffer.size + length head + length body + 3 * buffer_size ≤ int_max
    → Yields
        (λ p'.
          (b : MessageBuffer) × Contents.IsValid b
          × (contents b ≡ contents s.write_buffer ++ (head ++ body))
          × (p' ≡ written p id s b))
        (send_to a h p id head >>= λ p'. send_to a h p' id body)
send_twice a h p id s head body g here v waiting small =
    let (p1, run1, (b1, (v1, same1, room1), e1)) =
      send_to_waits a h p id s head g here v waiting (omega arith) in
    let here1 =
      get_elem?-set_self p.sessions id (some (with_write s b1))
        (get_elem?-in_range_inv p.sessions id here) in
    let size1 : b1.size ≡ s.write_buffer.size + length head =
      sym (length-contents b1 v1)
      ∙ ap length same1
      ∙ length-append (contents s.write_buffer) head
      ∙ ap (λ k. k + length head) (length-contents s.write_buffer v) in
    let (p2, run2, (b2, (v2, same2, room2), e2)) =
      send_to_waits a h (written p id s b1) id (with_write s b1) body g here1 v1
        (λ e. waiting (omega (arith, size1))) (omega (arith, size1)) in
    (
      p2,
      rw (run1, e1) run2,
      (
        b2,
        v2,
        same2 ∙ ap (λ q. q ++ body) same1 ∙ append_assoc (contents s.write_buffer) head body,
        e2
            ∙ ap (λ t. record p { sessions = t })
                (set-set p.sessions id (some (with_write s b1)) (some (with_write s b2))),
      ),
    )

send_msg-fits :
    (a : Allocator) (h : Handlers) (p : Poller) (id : ℕ) (s : Session) (bytes : List ℕ)
    → Grants a
    → session_at p id ≡ some (some s)
    → Contents.IsValid s.write_buffer
    → s.write_buffer.size ≢ 0
    → length bytes ≤ 0xFFFF
    → s.write_buffer.size + length bytes + 4 * buffer_size ≤ int_max
    → Yields
        (λ p'.
          (b : MessageBuffer) × Contents.IsValid b
          × (contents b ≡ contents s.write_buffer ++ wire (key_of s.is_connect) bytes)
          × (p' ≡ written p id s b))
        (send_msg a h p (some id) bytes)
unfolding send_msg send_msg2
send_msg-fits a h p id s bytes g here v waiting short small =
    let head = head_of (key_of s.is_connect) bytes in
    let body = payload_field (key_of s.is_connect) bytes in
    let (p', run, (b, v', same, e)) = send_twice a h p id s head body g here v waiting (
      omega (
        arith,
        head_small (key_of s.is_connect) bytes,
        length-payload_field (key_of s.is_connect) bytes,
      )) in
    (
      p',
      rw
          (
            deref-some p id here,
            make_frame_head_lem s.is_connect bytes short,
            body_lem s.is_connect bytes,
          )
          run,
      (
        b,
        v',
        same
            ∙ ap (λ w. contents s.write_buffer ++ w) (sym (wire_split (key_of s.is_connect) bytes)),
        e,
      ),
    )

-- sendMsg on a session whose write buffer is not empty: with a message of at most 65535 bytes it
-- returns and appends one whole text frame of RFC 6455 with the caller's bytes to the write buffer,
-- masked with the fixed key if the session is one that connected and not masked otherwise, and
-- nothing else changes; with a longer message it aborts. The allocator grants its requests and the
-- sizes fit an int.
pub send_msg-queues :
    (a : Allocator) (h : Handlers) (p : Poller) (id : ℕ) (s : Session) (bytes : List ℕ)
    → Grants a
    → session_at p id ≡ some (some s)
    → Contents.IsValid s.write_buffer
    → s.write_buffer.size ≢ 0
    → s.write_buffer.size + length bytes + 4 * buffer_size ≤ int_max
    → ((length bytes ≤ 0xFFFF)
        × Yields
            (λ p'.
              (b : MessageBuffer) × Contents.IsValid b
              × (contents b ≡ contents s.write_buffer ++ wire (key_of s.is_connect) bytes)
              × (p' ≡ written p id s b))
            (send_msg a h p (some id) bytes))
      ⊎ ((0xFFFF < length bytes) × (send_msg a h p (some id) bytes ≡ aborted))
unfolding send_msg send_msg2
send_msg-queues a h p id s bytes g here v waiting small =
    elim (Bool-cases (leb (length bytes) 0xFFFF)) [
      | inl short ↦
          let fits : length bytes ≤ 0xFFFF = ground arith in
          inl (fits, send_msg-fits a h p id s bytes g here v waiting fits small)
      | inr long ↦
          let over : 0xFFFF < length bytes = ground arith in
          inr (over, rw (deref-some p id here, head_over s.is_connect (length bytes) over) refl)
    ]

plain_head :
    (n : ℕ)
    → (if leb n 125
        then done (129 ∷ n ∷ [])
        else (if leb n 0xFFFF then done (129 ∷ 126 ∷ htons n) else aborted))
      ≡ make_frame_head n false masking_key
plain_head n = elim (Bool-cases (leb n 125)) [
  | inl short ↦
      let same : 0 + n ≡ n = omega arith in rw (short, head_short false n (ground arith), same) refl
  | inr long ↦ elim (Bool-cases (leb n 0xFFFF)) [
    | inl fits ↦
        let high : n / 256 % 256 ≡ n / 256 = ground arith in
        rw (long, fits, head_long false n (ground arith) (ground arith), high) refl
    | inr over ↦ rw (long, over) (sym (head_over false n (ground arith)))
  ]
]

-- sendMsg1 does what sendMsg2 does without a mask.
pub send_msg1_lem :
    (a : Allocator) (h : Handlers) (p : Poller) (id : ℕ) (bytes : List ℕ)
    → send_msg1 a h p id bytes ≡ send_msg2 a h p id bytes false
unfolding send_msg1 send_msg2 code
send_msg1_lem a h p id bytes = rw (plain_head (length bytes)) refl
