-- ===== src/WebSocket/Cut.antt =====
-- wsParseInputFrame on a frame of which only a part has arrived.
use chain_socket.Base.{
  ℕ, suc, ◌+◌, ◌*◌, ◌≤◌, ◌<◌, ◌≡◌, refl, true, false, List, ◌∷◌, none, arith, ltb, ◌==◌, length,
}
use chain_socket.Base.Outcome.{done}
use chain_socket.WebSocket.{
  FrameType, incomplete_frame, code, byte, get_payload_length, take_payload, parse_input_frame,
}
use chain_socket.WebSocket.Bits.{masked_length, masked_bit}
use chain_socket.WebSocket.RoundTrip.{IsTaken, head_ok}

-- What follows the first byte of a masked frame that is not empty, when bytes are missing: in the
-- key or the payload after a length of one byte, in a length of three, or after it.
pub data IsCut : List ℕ → Type 0 where
  after_short :
      (n : ℕ) (rest : List ℕ) → 0 < n → n ≤ 125 → length rest < n + 4 → IsCut ((128 + n) ∷ rest)
  in_length : (rest : List ℕ) → length rest < 2 → IsCut (254 ∷ rest)
  after_long :
      (hi lo : ℕ) (rest : List ℕ)
      → 0 < hi * 256 + lo
      → length rest < hi * 256 + lo + 4
      → IsCut (254 ∷ hi ∷ lo ∷ rest)

cut_payload :
    (frame : List ℕ) (payload extra : ℕ) (t : FrameType)
    → 0 < payload
    → length frame < payload + 6 + extra
    → take_payload frame payload extra t ≡ done (incomplete_frame, none)
unfolding take_payload
cut_payload frame payload extra t some_bytes short =
    let full : (payload == 0) ≡ false = ground arith in
    let missing : ltb (length frame) (payload + 6 + extra) ≡ true = ground arith in
    rw (full, missing)

no_payload : (frame : List ℕ) (t : FrameType) → take_payload frame 0 0 t ≡ done (t, none)
unfolding take_payload
no_payload frame t = refl

-- wsParseInputFrame reports an incomplete frame when bytes are missing of a masked text, binary,
-- close, ping or pong frame that is not empty, from the second byte on.
pub parse_input_frame-IsCut :
    (t : FrameType) (rest : List ℕ)
    → IsTaken t
    → IsCut rest
    → parse_input_frame ((128 + code t) ∷ rest) ≡ done (incomplete_frame, none)
unfolding parse_input_frame get_payload_length byte
parse_input_frame-IsCut t _ taken (after_short n rest pos small cut) =
    let (no_ext, final, op) = head_ok t taken in
    let not126 : (n == 0x7E) ≡ false = ground arith in
    let not127 : (n == 0x7F) ≡ false = ground arith in
    rw
      (no_ext, final, op, masked_bit n (omega arith), masked_length n (omega arith), not126, not127)
      (cut_payload ((128 + code t) ∷ (128 + n) ∷ rest) n 0 t pos (omega arith))
parse_input_frame-IsCut t _ taken (in_length rest cut) =
    let (no_ext, final, op) = head_ok t taken in
    let missing : ltb (suc (suc (length rest))) 4 ≡ true = ground arith in
    rw (no_ext, final, op, missing) (no_payload ((128 + code t) ∷ 254 ∷ rest) incomplete_frame)
parse_input_frame-IsCut t _ taken (after_long hi lo rest pos cut) =
    let (no_ext, final, op) = head_ok t taken in
    let enough : ltb (suc (suc (suc (suc (length rest))))) 4 ≡ false = ground arith in
    rw (no_ext, final, op, enough)
      (cut_payload ((128 + code t) ∷ 254 ∷ hi ∷ lo ∷ rest) (hi * 256 + lo) 2 t pos (omega arith))
