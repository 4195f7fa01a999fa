-- ===== src/WebSocketPoller.antt =====
-- code/example/wsserver/WebSocketPoller.hpp: messages in WebSocket frames over the sessions of a
-- poller.
pub mod Kind
pub mod Wire
pub mod Part
pub mod Memory
pub mod Deliver
pub mod Control
pub mod Transmit
pub mod Search
pub mod Opening
mod Tests
use chain_socket.Base.{
  ℕ, zero, suc, ◌+◌, ◌-◌, ◌*◌, ◌/◌, ◌%◌, Bool, true, false, ◌&&◌, not, List, [], ◌∷◌, ◌++◌, Option,
  none, some, ltb, leb, ◌==◌, if◌then◌else◌, length, get_elem?, drop, take, bit_and, bit_or,
}
use chain_socket.Base.Outcome.{Outcome, done, aborted, fault, no_fuel, ◌>>=◌}
use chain_socket.Buffer.{MessageBuffer, Allocator, copy, erase}
use chain_socket.Session.{Session}
use chain_socket.Poller.{Poller, Handlers, put, deref, send_to, close_session}
use chain_socket.WebSocket.{
  FrameType, text_frame, binary_frame, ping_frame, pong_frame, closing_frame, code, htons, byte,
  unmask, of_opcode,
}

-- `memcmp(cur, sub, n) == 0`
pub starts_with : List ℕ → List ℕ → Bool
starts_with cur [] = true
starts_with [] (s ∷ sub) = false
starts_with (c ∷ cur) (s ∷ sub) = c == s && starts_with cur sub

-- The loop of memstr with the rounds that are left; `sub` is what is searched for.
pub memstr_loop : ℕ → List ℕ → List ℕ → ℕ → Option ℕ
memstr_loop zero cur sub i = none
memstr_loop (suc n) cur sub i =
    let next = memstr_loop n (drop 1 cur) sub (i + 1) in
    if starts_with cur (take 1 sub) && starts_with cur sub then some i else next

-- The bytes, and the first `n` bytes of `sub`; `none` is -1. Neither pointer is null.
pub memstr : List ℕ → List ℕ → ℕ → Option ℕ
memstr bytes sub n =
    if length bytes == 0
    then none
    else if n == 0
    then none
    else memstr_loop (length bytes + 1 - n) bytes (take n sub) 0

-- What a round of the loop over frames finds at its position: too few bytes or an unknown opcode, a
-- frame that ends the session, a message with the size of its header, or a control frame, with
-- its payload if that has been unmasked.
pub data Round : Type 0 where
  leaves refuses : Round
  message : ℕ → List ℕ → Round
  control : ℕ → Option (List ℕ) → Round

-- The size of the header by the short length and the mask bit.
pub header_size : ℕ → Bool → ℕ
header_size n0 use_mask =
    2 + (if n0 == 126 then 2 else 0) + (if n0 == 127 then 8 else 0) + (if use_mask then 4 else 0)

-- The length of the payload and the position behind its field.
pub payload_size : List ℕ → ℕ → Outcome (ℕ × ℕ)
payload_size frame n0 =
    if ltb n0 126
    then done (n0, 2)
    else if n0 == 126
    then (do hi ← byte frame 2; lo ← byte frame 3; done (hi * 256 + lo, 4))
    else aborted

-- The payload as the loop leaves it.
pub payload : List ℕ → Bool → ℕ → ℕ → ℕ → Outcome (List ℕ)
payload frame use_mask at header n =
    let bytes = take n (drop header frame) in
    if use_mask then unmask (take 4 (drop at frame)) 0 bytes else done bytes

-- The rest of a round, for a frame that is complete.
pub by_type : FrameType → List ℕ → Bool → ℕ → ℕ → ℕ → Outcome Round
by_type text_frame frame use_mask at header n = do
  bytes ← payload frame use_mask at header n
  done (message header bytes)
by_type binary_frame frame use_mask at header n = do
  bytes ← payload frame use_mask at header n
  done (message header bytes)
by_type ping_frame frame use_mask at header n = do
  bytes ← payload frame use_mask at header n
  done (control header (if use_mask then some bytes else none))
by_type pong_frame frame use_mask at header n = done (control header none)
by_type closing_frame frame use_mask at header n = done (control header none)
by_type other frame use_mask at header n = aborted

-- The rest of a round, when the header is there.
pub whole_frame : FrameType → List ℕ → ℕ → Bool → ℕ → ℕ → Outcome Round
whole_frame type frame n use_mask n0 header = do
  (size, at) ← payload_size frame n0
  if ltb n (header + size) then done leaves else by_type type frame use_mask at header size

-- A round, on the memory from the position on and the number of bytes that have arrived.
pub read_frame : List ℕ → ℕ → Outcome Round
read_frame frame n = if ltb n 2 then done leaves else (do
  b0 ← byte frame 0
  b1 ← byte frame 1
  let use_mask = bit_and b1 0x80 == 0x80
  let n0 = bit_and b1 0x7F
  let header = header_size n0 use_mask
  if not (bit_and b0 0x70 == 0)
      then done refuses
      else if not (bit_and b0 0x80 == 0x80)
      then done refuses
      else (elim (of_opcode (bit_and b0 0x0F)) [
        | none ↦ done leaves
        | some type ↦
            if ltb n header then done leaves else whole_frame type frame n use_mask n0 header
      ]))

-- The virtual functions of the class: a message, as its bytes, and the end of a handshake.
pub record MessageHandlers : Type 0 where
  pub on_read_msg : Poller → ℕ → List ℕ → Outcome Poller
  pub on_hand_shake : Poller → ℕ → Outcome Poller

-- Writing to the session's read buffer in place.
pub overwrite : Poller → ℕ → Session → ℕ → List ℕ → Outcome Poller
overwrite p id s at bytes = do
  buff ← copy s.read_buffer.buff at bytes
  done (put p id (some (record s { read_buffer = record s.read_buffer { buff = buff } })))

-- How the loop over frames ends: the bytes to erase, or the session has been closed.
pub data Parsed : Type 0 where
  parsed : ℕ → Parsed
  ended : Parsed

abbrev pub memory : MessageBuffer → List ℕ
memory b = elim b.buff [ none ↦ [] | some block ↦ block ]

-- The loop over the frames from `parse_size` on. A control frame leaves the position where it is.
pub frames : ℕ → MessageHandlers → Poller → ℕ → ℕ → Outcome (Parsed × Poller)
frames zero h p id parse_size = no_fuel
frames (suc f) h p id parse_size = do
  s ← deref p id
  let start = drop parse_size (memory s.read_buffer)
  round ← read_frame start (s.read_buffer.size - parse_size)
  elim round [
    | leaves ↦ done (parsed parse_size, p)
    | refuses ↦ close_session p s.session_id >>= λ p'. done (ended, p')
    | message header bytes ↦ overwrite p id s (parse_size + header) bytes >>= λ p1.
        h.on_read_msg p1 id bytes >>= λ p2. frames f h p2 id (parse_size + (header + length bytes))
    | control header none ↦ frames f h p id parse_size
    | control header (some bytes) ↦
        overwrite p id s (parse_size + header) bytes >>= λ p1. frames f h p1 id parse_size
  ]

-- What follows the loop.
pub erase_parsed : Poller → ℕ → Parsed → Outcome Poller
erase_parsed p id ended = done p
erase_parsed p id (parsed n) = do
  s ← deref p id
  b ← erase s.read_buffer n
  done (put p id (some (record s { read_buffer = b })))

-- onRecv in the state WS_WAIT_FRAME.
pub on_frames : ℕ → MessageHandlers → Poller → ℕ → Outcome Poller
on_frames fuel h p id = do (end, p') ← frames fuel h p id 0; erase_parsed p' id end

abbrev pub masking_key : List ℕ
masking_key = 0x12 ∷ 0x34 ∷ 0x56 ∷ 0x78 ∷ []

-- `makeFrameHead`, which sendMsg2 repeats; the key has four bytes. The array is large enough.
pub make_frame_head : ℕ → Bool → List ℕ → Outcome (List ℕ)
make_frame_head size use_mask key =
    let head = bit_or 0x80 (code text_frame) in
    let bit : ℕ = if use_mask then 0x80 else 0 in
    let tail : List ℕ = if use_mask then key else [] in
    if leb size 125
    then done (head ∷ bit_or (bit_and size 0xFF) bit ∷ tail)
    else if leb size 0xFFFF
    then done (head ∷ bit_or 126 bit ∷ bit_and (size / 256) 0xFF ∷ bit_and size 0xFF ∷ tail)
    else aborted

-- sendMsg1 masks nothing. `htons` puts the high byte first.
pub send_msg1 : Allocator → Handlers → Poller → ℕ → List ℕ → Outcome Poller
send_msg1 a h p id bytes = do
  let first = bit_or 0x80 (code text_frame)
  head ←
      if leb (length bytes) 125
      then done (first ∷ length bytes ∷ [])
      else (if leb (length bytes) 0xFFFF
          then done (first ∷ 126 ∷ htons (length bytes))
          else aborted)
  p' ← send_to a h p id head
  send_to a h p' id bytes

-- The caller's bytes are masked in place.
pub send_msg2 : Allocator → Handlers → Poller → ℕ → List ℕ → Bool → Outcome Poller
send_msg2 a h p id bytes use_mask = do
  head ← make_frame_head (length bytes) use_mask masking_key
  body ← if use_mask then unmask masking_key 0 bytes else done bytes
  p' ← send_to a h p id head
  send_to a h p' id body

-- `none` is the null pointer.
pub send_msg : Allocator → Handlers → Poller → Option ℕ → List ℕ → Outcome Poller
send_msg a h p none bytes = done p
send_msg a h p (some id) bytes = do s ← deref p id; send_msg2 a h p id bytes s.is_connect
