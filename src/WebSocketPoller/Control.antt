-- ===== src/WebSocketPoller/Control.antt =====
-- A control frame stops the loop over frames from ever ending.
use chain_socket.Base.{
  ℕ, zero, suc, ◌+◌, ◌≤◌, ◌≡◌, refl, ◌∙◌, ◌⊎◌, inl, inr, true, false, List, ◌∷◌, ◌++◌, some, none,
  arith, ltb, ◌==◌, length, length-append, append_assoc, bit_and, ap,
}
use chain_socket.Base.Outcome.{done, no_fuel}
use chain_socket.Poller.{Poller}
use chain_socket.Poller.Failure.{deref-some}
use chain_socket.WebSocket.{FrameType, ping_frame, pong_frame, closing_frame, code, byte, of_opcode}
use chain_socket.WebSocket.Bits.{plain_bit, plain_length}
use chain_socket.WebSocketPoller.{
  MessageHandlers, control, header_size, payload_size, payload, by_type, whole_frame, read_frame,
  frames, on_frames,
}
use chain_socket.WebSocketPoller.Memory.{Unread, start_of}

abbrev pub IsControl : FrameType → Type 0
IsControl t = (t ≡ ping_frame) ⊎ ((t ≡ pong_frame) ⊎ (t ≡ closing_frame))

-- A final control frame that is not masked.
abbrev pub control_frame : FrameType → List ℕ → List ℕ
control_frame t bytes = (128 + code t) ∷ length bytes ∷ bytes

whole_control :
    (t : FrameType) (frame : List ℕ) (n n0 : ℕ)
    → IsControl t
    → n0 ≤ 125
    → 2 + n0 ≤ n
    → whole_frame t frame n false n0 2 ≡ done (control 2 none)
unfolding whole_frame payload_size by_type payload
whole_control t frame n n0 (inl e) small enough =
    let below : ltb n0 126 ≡ true = ground arith in
    let whole : ltb n (2 + n0) ≡ false = ground arith in rw (below, whole, e)
whole_control t frame n n0 (inr (inl e)) small enough =
    let below : ltb n0 126 ≡ true = ground arith in
    let whole : ltb n (2 + n0) ≡ false = ground arith in rw (below, whole, e)
whole_control t frame n n0 (inr (inr e)) small enough =
    let below : ltb n0 126 ≡ true = ground arith in
    let whole : ltb n (2 + n0) ≡ false = ground arith in rw (below, whole, e)

-- The first byte of a control frame.
first_byte :
    (t : FrameType)
    → IsControl t
    → ((bit_and (128 + code t) 0x70 == 0) ≡ true)
      × ((bit_and (128 + code t) 0x80 == 0x80) ≡ true)
      × (of_opcode (bit_and (128 + code t) 0x0F) ≡ some t)
unfolding code of_opcode
first_byte t (inl e) = rw e (refl, refl, refl)
first_byte t (inr (inl e)) = rw e (refl, refl, refl)
first_byte t (inr (inr e)) = rw e (refl, refl, refl)

read_control :
    (t : FrameType) (bytes tail : List ℕ) (n : ℕ)
    → IsControl t
    → length bytes ≤ 125
    → 2 + length bytes ≤ n
    → read_frame (control_frame t bytes ++ tail) n ≡ done (control 2 none)
unfolding read_frame byte header_size
read_control t bytes tail n is_control small enough =
    let size = length bytes in
    let (no_ext, final, op) = first_byte t is_control in
    let two : ltb n 2 ≡ false = ground arith in
    let not126 : (size == 126) ≡ false = ground arith in
    let not127 : (size == 127) ≡ false = ground arith in
    let off : (0 == 0x80) ≡ false = ground arith in
    rw
      (
        two,
        no_ext,
        final,
        op,
        plain_bit size (omega arith),
        plain_length size (omega arith),
        not126,
        not127,
        off,
        two,
      )
      (whole_control t _ n size is_control small enough)

frames_endless :
    (t : FrameType) (bytes rest : List ℕ) (f : ℕ) (h : MessageHandlers) (p : Poller) (id at : ℕ)
    → IsControl t
    → length bytes ≤ 125
    → Unread p id at (control_frame t bytes ++ rest)
    → frames f h p id at ≡ no_fuel
unfolding frames
frames_endless t bytes rest zero h p id at is_control small u = refl
frames_endless t bytes rest (suc f) h p id at is_control small u =
    let (start, arrived) = start_of p id at (control_frame t bytes ++ rest) u in
    let round : read_frame ((control_frame t bytes ++ rest) ++ u.junk)
          (length (control_frame t bytes ++ rest))
        ≡ done (control 2 none) =
      ap (λ xs. read_frame xs (length (control_frame t bytes ++ rest)))
        (append_assoc (control_frame t bytes) rest u.junk)
      ∙ read_control t bytes (rest ++ u.junk) (length (control_frame t bytes ++ rest)) is_control
          small (omega (arith, length-append bytes rest)) in
    rw (deref-some p id u.here, start, arrived, round)
      (frames_endless t bytes rest f h p id at is_control small u)

-- When a session's read buffer begins with a whole ping, pong or close frame that is not masked,
-- onRecv never returns, however many rounds it is given: the loop does not go past the frame.
pub on_frames_endless :
    (t : FrameType) (bytes rest : List ℕ) (fuel : ℕ) (h : MessageHandlers) (p : Poller) (id : ℕ)
    → IsControl t
    → length bytes ≤ 125
    → Unread p id 0 (control_frame t bytes ++ rest)
    → on_frames fuel h p id ≡ no_fuel
unfolding on_frames
on_frames_endless t bytes rest fuel h p id is_control small u =
    rw (frames_endless t bytes rest fuel h p id 0 is_control small u)
