-- ===== src/WebSocket/Make.antt =====
-- wsMakeFrame writes frames whose length field is read back as the length of the payload.
use chain_socket.Base.{
  ℕ, suc, ◌+◌, ◌*◌, ◌/◌, ◌%◌, ◌≤◌, ◌<◌, ◌≡◌, refl, true, false, List, none, arith, ltb, leb, ◌==◌,
  length, drop, Bool-cases, inl, inr,
}
use chain_socket.Base.Outcome.{done, aborted, Yields}
use chain_socket.WebSocket.{FrameType, code, make_frame, byte, get_payload_length}
use chain_socket.WebSocket.Bits.{plain_length}

-- The length field gives the number of these bytes, and they follow it.
abbrev pub Carries : List ℕ → List ℕ → Type 0
Carries bytes frame =
    (extra : ℕ) × (get_payload_length frame ≡ done (length bytes, extra, none))
    × (drop (2 + extra) frame ≡ bytes)

module _ (bytes : List ℕ) (t : FrameType) (opcode : code t < 16) where
  make_short : length bytes ≤ 125 → Yields (Carries bytes) (make_frame bytes t)
  unfolding make_frame get_payload_length byte
  make_short small =
      let n = length bytes in
      let fits : leb 0x10 (code t) ≡ false = ground arith in
      let short : leb n 125 ≡ true = ground arith in
      let not126 : (n == 0x7E) ≡ false = ground arith in
      let not127 : (n == 0x7F) ≡ false = ground arith in
      rw (fits, short) (_, refl, (0, rw (plain_length n (omega arith), not126, not127), refl))

  make_long :
      125 < length bytes → length bytes ≤ 0xFFFF → Yields (Carries bytes) (make_frame bytes t)
  unfolding make_frame get_payload_length byte
  make_long big small =
      let n = length bytes in
      let fits : leb 0x10 (code t) ≡ false = ground arith in
      let long : leb n 125 ≡ false = ground arith in
      let two_bytes : leb n 0xFFFF ≡ true = ground arith in
      let back : n / 256 % 256 * 256 + n % 256 ≡ n = omega arith in
      let enough : ltb (suc (suc (suc (suc n)))) 4 ≡ false = ground arith in
      rw (fits, long, two_bytes) (_, refl, (2, rw (enough, back), refl))

-- wsMakeFrame with an opcode of four bits returns exactly when the payload has at most 65535 bytes,
-- and aborts otherwise. In the frame that it returns the length field, as getPayloadLength reads
-- it, gives the length of the payload, and the payload follows it.
pub make_frame-Carries :
    (bytes : List ℕ) (t : FrameType)
    → code t < 16
    → (length bytes ≤ 0xFFFF → Yields (Carries bytes) (make_frame bytes t))
      × (0xFFFF < length bytes → make_frame bytes t ≡ aborted)
unfolding make_frame
make_frame-Carries bytes t opcode = (
  λ small. elim (Bool-cases (leb (length bytes) 125)) [
    | inl short ↦ make_short bytes t opcode (ground arith)
    | inr long ↦ make_long bytes t opcode (ground arith) small
  ],
  λ big. ground arith,
)
