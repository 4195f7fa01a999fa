-- ===== src/WebSocketPoller/Kind.antt =====
-- A binary frame is read as a text frame with the same rest (code/example/wsserver/WebSocketPoller.hpp).
use chain_socket.Base.{
  ℕ, ◌≡◌, refl, true, false, Bool, List, [], ◌∷◌, arith, ltb, ◌==◌, bit_and, Bool-cases, inl, inr,
}
use chain_socket.WebSocket.{byte, of_opcode, text_frame, binary_frame}
use chain_socket.WebSocketPoller.{
  header_size, payload_size, payload, by_type, whole_frame, read_frame,
}

-- The first byte of a final frame of a message: RFC 6455, 5.2, with the opcode 2 or 1.
abbrev pub first_byte : Bool → ℕ
first_byte true = 130
first_byte false = 129

-- A frame with a length field of 16 bits.
long_binary :
    (more : List ℕ) (b1 n : ℕ) (masked : Bool)
    → whole_frame binary_frame (130 ∷ b1 ∷ more) n masked 126 (header_size 126 masked)
      ≡ whole_frame text_frame (129 ∷ b1 ∷ more) n masked 126 (header_size 126 masked)
unfolding whole_frame by_type payload payload_size header_size byte
long_binary [] b1 n masked = refl
long_binary (hi ∷ []) b1 n masked = refl
long_binary (hi ∷ lo ∷ more) b1 n true = refl
long_binary (hi ∷ lo ∷ more) b1 n false = refl

whole_binary :
    (more : List ℕ) (b1 n n0 : ℕ) (masked : Bool)
    → whole_frame binary_frame (130 ∷ b1 ∷ more) n masked n0 (header_size n0 masked)
      ≡ whole_frame text_frame (129 ∷ b1 ∷ more) n masked n0 (header_size n0 masked)
unfolding whole_frame by_type payload payload_size header_size byte
whole_binary more b1 n n0 masked = elim (Bool-cases (ltb n0 126)) [
  | inl short ↦
      let not126 : (n0 == 126) ≡ false = ground arith in
      let not127 : (n0 == 127) ≡ false = ground arith in
      elim (Bool-cases masked) [
        | inl m ↦ rw (short, not126, not127, m) refl
        | inr m ↦ rw (short, not126, not127, m) refl
      ]
  | inr long ↦ elim (Bool-cases (n0 == 126)) [
    | inl is126 ↦ let same : n0 ≡ 126 = ground arith in rw same (long_binary more b1 n masked)
    | inr over ↦ rw (long, over) refl
  ]
]

-- The rest of a round does not depend on the kind either.
either_kind :
    (more : List ℕ) (b1 n : ℕ) → read_frame (130 ∷ b1 ∷ more) n ≡ read_frame (129 ∷ b1 ∷ more) n
unfolding read_frame byte of_opcode
either_kind more b1 n = elim (Bool-cases (ltb n 2)) [
  | inl few ↦ rw few refl
  | inr two ↦
      let masked = bit_and b1 0x80 == 0x80 in
      let n0 = bit_and b1 0x7F in
      elim (Bool-cases (ltb n (header_size n0 masked))) [
        | inl cut ↦ rw (two, cut) refl
        | inr there ↦ rw (two, there) (whole_binary more b1 n n0 masked)
      ]
]

pub read_frame_kind :
    (b : Bool) (more : List ℕ) (n : ℕ)
    → read_frame (first_byte b ∷ more) n ≡ read_frame (129 ∷ more) n
unfolding read_frame byte of_opcode
read_frame_kind false more n = refl
read_frame_kind true [] n = refl
read_frame_kind true (b1 ∷ more) n = either_kind more b1 n
