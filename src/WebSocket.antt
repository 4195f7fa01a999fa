-- ===== src/WebSocket.antt =====
-- code/example/wsserver/websocket.h and websocket.cpp: the frames of the WebSocket protocol.
pub mod Bits
pub mod RoundTrip
pub mod Make
pub mod Cut
pub mod Base64
pub mod Sha1
pub mod Texts
pub mod Handshake
mod Tests
use Prim.Native.Nat.{bit_and, bit_or, bit_xor}
use chain_socket.Base.{
  ℕ, zero, suc, ◌+◌, ◌-◌, ◌*◌, ◌/◌, ◌%◌, Bool, true, false, ◌||◌, ◌&&◌, not, List, [], ◌∷◌, ◌++◌,
  Option, none, some, ltb, leb, ◌==◌, if◌then◌else◌, length, get_elem?, drop, take,
}
use chain_socket.Base.Outcome.{Outcome, done, aborted, fault, ◌>>=◌}

pub data FrameType : Type 0 where
  empty_frame error_frame incomplete_frame continuation_frame text_frame binary_frame ping_frame :
      FrameType
  pong_frame opening_frame closing_frame : FrameType

unfoldable pub code : FrameType → ℕ
code empty_frame = 0xF0
code error_frame = 0xF1
code incomplete_frame = 0xF2
code continuation_frame = 0
code text_frame = 1
code binary_frame = 2
code ping_frame = 9
code pong_frame = 10
code opening_frame = 0xF3
code closing_frame = 8

-- `htons` and a copy: the high byte first.
abbrev pub htons : ℕ → List ℕ
htons n = n / 256 % 256 ∷ n % 256 ∷ []

-- The caller's array is taken to have room for the frame.
pub make_frame : List ℕ → FrameType → Outcome (List ℕ)
make_frame bytes type =
    let head = bit_or 0x80 (code type) in
    if leb 0x10 (code type)
    then aborted
    else if leb (length bytes) 125
    then done (head ∷ length bytes ∷ bytes)
    else if leb (length bytes) 0xFFFF
    then done (head ∷ 126 ∷ htons (length bytes) ++ bytes)
    else aborted

-- `inputFrame[i]`, undefined past the end.
unfoldable pub byte : List ℕ → ℕ → Outcome ℕ
byte frame i = elim (get_elem? frame i) [ none ↦ fault | some b ↦ done b ]

-- The length, the extra bytes of its field, and the frame type if it is changed. A length of 64
-- bits is an error, with its highest bit set or not.
pub get_payload_length : List ℕ → Outcome (ℕ × ℕ × Option FrameType)
get_payload_length frame = do
  b ← byte frame 1
  let short = bit_and b 0x7F
  let n = length frame
  if (short == 0x7E && ltb n 4) || (short == 0x7F && ltb n 10)
      then done (0, 0, some incomplete_frame)
      else (if short == 0x7F
          then done (0, 0, some error_frame)
          else (if short == 0x7E
              then (do hi ← byte frame 2; lo ← byte frame 3; done (hi * 256 + lo, 2, none))
              else done (short, 0, none)))

-- `data[i] = data[i] ^ maskingKey[i % 4]`, from position `i` on.
unfoldable pub unmask : List ℕ → ℕ → List ℕ → Outcome (List ℕ)
unmask key i [] = done []
unmask key i (b ∷ bs) = do
  k ← byte key (i % 4)
  rest ← unmask key (i + 1) bs
  done (bit_xor b k ∷ rest)

-- The opcodes that the parser takes.
unfoldable pub of_opcode : ℕ → Option FrameType
of_opcode n =
    if n == 1
    then some text_frame
    else if n == 2
    then some binary_frame
    else if n == 8
    then some closing_frame
    else if n == 9
    then some ping_frame
    else if n == 10
    then some pong_frame
    else none

-- The payload is handed on where it is not empty; more bytes than the frame has fail an `assert`.
pub take_payload : List ℕ → ℕ → ℕ → FrameType → Outcome (FrameType × Option (List ℕ))
take_payload frame payload extra type =
    let rest = drop (2 + extra) frame in
    let unmasked = unmask (take 4 rest) 0 (take payload (drop 4 rest)) in
    if payload == 0
    then done (type, none)
    else if ltb (length frame) (payload + 6 + extra)
    then done (incomplete_frame, none)
    else if not (payload == length frame - 6 - extra)
    then aborted
    else (unmasked >>= λ bytes. done (type, some bytes))

pub parse_input_frame : List ℕ → Outcome (FrameType × Option (List ℕ))
parse_input_frame [] = aborted
parse_input_frame (b0 ∷ []) = done (incomplete_frame, none)
parse_input_frame (b0 ∷ b1 ∷ rest) =
    let frame = b0 ∷ b1 ∷ rest in
    if not (bit_and b0 0x70 == 0) || not (bit_and b0 0x80 == 0x80) || not (bit_and b1 0x80 == 0x80)
    then done (error_frame, none)
    else (elim (of_opcode (bit_and b0 0x0F)) [
      | none ↦ done (error_frame, none)
      | some type ↦ (do
        (payload, extra, changed) ← get_payload_length frame
        take_payload frame payload extra (elim changed [ none ↦ type | some t ↦ t ]))
    ])
