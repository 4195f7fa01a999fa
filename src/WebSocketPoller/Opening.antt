-- ===== src/WebSocketPoller/Opening.antt =====
-- code/example/wsserver/WebSocketPoller.hpp: the opening handshake of a session, and onRecv.
pub mod Reply
mod Tests
use chain_socket.Base.{
  ℕ, zero, suc, ◌+◌, Bool, true, false, List, [], ◌∷◌, ◌++◌, Option, none, some, ltb, ◌==◌,
  if◌then◌else◌, take,
}
use chain_socket.Base.Outcome.{Outcome, done, aborted, fault, ◌>>=◌}
use chain_socket.Buffer.{MessageBuffer, Allocator, erase}
use chain_socket.Session.{Session}
use chain_socket.Poller.{Poller, Handlers, put, deref, post_recv, send_to, close_session}
use chain_socket.WebSocket.{FrameType, error_frame}
use chain_socket.WebSocket.Handshake.{
  Handshake, null_handshake, ws_parse_handshake, response_key, answer_of,
}
use chain_socket.WebSocketPoller.{MessageHandlers, memory, memstr, on_frames}

-- The bytes that have arrived.
abbrev pub received_bytes : MessageBuffer → List ℕ
received_bytes b = take b.size (memory b)

-- "\r\n\r\n" and "HTTP/1.1 101".
abbrev pub blank_line : List ℕ
blank_line = 13 ∷ 10 ∷ 13 ∷ 10 ∷ []

abbrev pub status_line : List ℕ
status_line = 72 ∷ 84 ∷ 84 ∷ 80 ∷ 47 ∷ 49 ∷ 46 ∷ 49 ∷ 32 ∷ 49 ∷ 48 ∷ 49 ∷ []

-- `userData.u32 = WS_WAIT_FRAME`, and `n` bytes leave the read buffer.
pub enter_frames : Poller → ℕ → ℕ → Outcome Poller
enter_frames p id n = do
  s ← deref p id
  b ← erase s.read_buffer n
  done (put p id (some (record s { user_data = 2; read_buffer = b })))

-- Whether there are bytes left to read.
pub more_bytes : Poller → ℕ → Outcome Bool
more_bytes p id = do s ← deref p id; done (ltb 0 s.read_buffer.size)

-- Behind the parsing of a request of `n` bytes, with its result.
pub after_request :
    Allocator
    → Handlers
    → Poller
    → ℕ
    → Session
    → ℕ
    → FrameType
    → Handshake
    → Outcome (Bool × Poller)
after_request a h p id s n error_frame hs = close_session p s.session_id >>= λ p'. done (false, p')
after_request a h p id s n type hs = elim hs.key [
  | none ↦ aborted
  | some key ↦ response_key key >>= λ text. send_to a h p id (answer_of text) >>= λ p1.
      enter_frames p1 id n >>= λ p2. more_bytes p2 id >>= λ more. done (more, p2)
]

-- onRecv in the state WS_WAIT_HANDSHAKE_WAIT, and whether it goes on to frames. `hs` is the one
-- handshake of the whole poller.
pub on_request : Allocator → Handlers → Poller → Handshake → ℕ → Outcome (Bool × Poller × Handshake)
on_request a h p hs id = do
  s ← deref p id
  elim (memstr (received_bytes s.read_buffer) blank_line 4) [
    | none ↦ done (false, p, hs)
    | some pos ↦ ws_parse_handshake (memory s.read_buffer) (pos + 1) hs >>= λ (type, hs').
        after_request a h p id s (pos + 4) type hs' >>= λ (more, p'). done (more, p', hs')
  ]

-- onRecv in the state WS_WAIT_HANDSHAKE_REQ. `sizeof` counts the 0 behind the text, and only four
-- bytes of it are compared.
pub on_response : MessageHandlers → Poller → ℕ → Outcome (Bool × Poller)
on_response mh p id = do
  s ← deref p id
  if ltb s.read_buffer.size 13
      then done (false, p)
      else (elim (memstr (received_bytes s.read_buffer) blank_line 4) [
        | none ↦ done (false, p)
        | some pos ↦ elim (memstr (received_bytes s.read_buffer) status_line 4) [
          | none ↦ close_session p s.session_id >>= λ p'. done (false, p')
          | some pos2 ↦ enter_frames p id (pos + 4) >>= λ p1.
              mh.on_hand_shake p1 id >>= λ p2. more_bytes p2 id >>= λ more. done (more, p2)
        ]
      ])

-- The last part of onRecv, unless it has returned before.
pub then_frames : ℕ → MessageHandlers → Poller → ℕ → Bool → Outcome Poller
then_frames fuel mh p id false = done p
then_frames fuel mh p id true = do
  s ← deref p id
  if s.user_data == 2 then on_frames fuel mh p id else done p

-- onRecv; `none` is the null pointer.
pub on_recv :
    Allocator
    → Handlers
    → MessageHandlers
    → ℕ
    → Poller
    → Handshake
    → Option ℕ
    → Outcome (Poller × Handshake)
on_recv a h mh fuel p hs none = done (p, hs)
on_recv a h mh fuel p hs (some id) = do
  s ← deref p id
  if s.user_data == 0
      then (on_request a h p hs id >>= λ (more, p', hs').
          then_frames fuel mh p' id more >>= λ p''. done (p'', hs'))
      else (if s.user_data == 1
          then (on_response mh p id >>= λ (more, p').
              then_frames fuel mh p' id more >>= λ p''. done (p'', hs))
          else (then_frames fuel mh p id true >>= λ p''. done (p'', hs)))

-- onAccept, for the session that was accepted.
pub on_accept : Poller → ℕ → Outcome (Poller × Handshake)
on_accept p id = do p' ← post_recv p id; done (p', null_handshake)

-- The request up to the address, and behind the port.
abbrev pub request_head : List ℕ
request_head =
    71 ∷ 69 ∷ 84 ∷ 32 ∷ 47 ∷ 32 ∷ 72 ∷ 84 ∷ 84 ∷ 80 ∷ 47 ∷ 49 ∷ 46 ∷ 49 ∷ 13 ∷ 10 ∷ 72 ∷ 111 ∷ 115
    ∷ 116 ∷ 58 ∷ 32 ∷ []

abbrev pub request_tail : List ℕ
request_tail =
    13 ∷ 10 ∷ 85 ∷ 115 ∷ 101 ∷ 114 ∷ 45 ∷ 65 ∷ 103 ∷ 101 ∷ 110 ∷ 116 ∷ 58 ∷ 32 ∷ 77 ∷ 111 ∷ 122
    ∷ 105 ∷ 108 ∷ 108 ∷ 97 ∷ 47 ∷ 53 ∷ 46 ∷ 48 ∷ 32 ∷ 40 ∷ 87 ∷ 105 ∷ 110 ∷ 100 ∷ 111 ∷ 119 ∷ 115
    ∷ 32 ∷ 78 ∷ 84 ∷ 32 ∷ 49 ∷ 48 ∷ 46 ∷ 48 ∷ 59 ∷ 32 ∷ 87 ∷ 105 ∷ 110 ∷ 54 ∷ 52 ∷ 59 ∷ 32 ∷ 120
    ∷ 54 ∷ 52 ∷ 59 ∷ 32 ∷ 114 ∷ 118 ∷ 58 ∷ 54 ∷ 57 ∷ 46 ∷ 48 ∷ 41 ∷ 32 ∷ 71 ∷ 101 ∷ 99 ∷ 107 ∷ 111
    ∷ 47 ∷ 50 ∷ 48 ∷ 49 ∷ 48 ∷ 48 ∷ 49 ∷ 48 ∷ 49 ∷ 32 ∷ 70 ∷ 105 ∷ 114 ∷ 101 ∷ 102 ∷ 111 ∷ 120 ∷ 47
    ∷ 54 ∷ 57 ∷ 46 ∷ 48 ∷ 13 ∷ 10 ∷ 65 ∷ 99 ∷ 99 ∷ 101 ∷ 112 ∷ 116 ∷ 58 ∷ 32 ∷ 42 ∷ 47 ∷ 42 ∷ 13
    ∷ 10 ∷ 65 ∷ 99 ∷ 99 ∷ 101 ∷ 112 ∷ 116 ∷ 45 ∷ 76 ∷ 97 ∷ 110 ∷ 103 ∷ 117 ∷ 97 ∷ 103 ∷ 101 ∷ 58
    ∷ 32 ∷ 101 ∷ 110 ∷ 45 ∷ 85 ∷ 83 ∷ 44 ∷ 122 ∷ 104 ∷ 45 ∷ 67 ∷ 78 ∷ 59 ∷ 113 ∷ 61 ∷ 48 ∷ 46 ∷ 56
    ∷ 44 ∷ 122 ∷ 104 ∷ 59 ∷ 113 ∷ 61 ∷ 48 ∷ 46 ∷ 55 ∷ 44 ∷ 122 ∷ 104 ∷ 45 ∷ 84 ∷ 87 ∷ 59 ∷ 113 ∷ 61
    ∷ 48 ∷ 46 ∷ 53 ∷ 44 ∷ 122 ∷ 104 ∷ 45 ∷ 72 ∷ 75 ∷ 59 ∷ 113 ∷ 61 ∷ 48 ∷ 46 ∷ 51 ∷ 44 ∷ 101 ∷ 110
    ∷ 59 ∷ 113 ∷ 61 ∷ 48 ∷ 46 ∷ 50 ∷ 13 ∷ 10 ∷ 65 ∷ 99 ∷ 99 ∷ 101 ∷ 112 ∷ 116 ∷ 45 ∷ 69 ∷ 110 ∷ 99
    ∷ 111 ∷ 100 ∷ 105 ∷ 110 ∷ 103 ∷ 58 ∷ 32 ∷ 103 ∷ 122 ∷ 105 ∷ 112 ∷ 44 ∷ 32 ∷ 100 ∷ 101 ∷ 102
    ∷ 108 ∷ 97 ∷ 116 ∷ 101 ∷ 13 ∷ 10 ∷ 83 ∷ 101 ∷ 99 ∷ 45 ∷ 87 ∷ 101 ∷ 98 ∷ 83 ∷ 111 ∷ 99 ∷ 107
    ∷ 101 ∷ 116 ∷ 45 ∷ 86 ∷ 101 ∷ 114 ∷ 115 ∷ 105 ∷ 111 ∷ 110 ∷ 58 ∷ 32 ∷ 49 ∷ 51 ∷ 13 ∷ 10 ∷ 79
    ∷ 114 ∷ 105 ∷ 103 ∷ 105 ∷ 110 ∷ 58 ∷ 32 ∷ 104 ∷ 116 ∷ 116 ∷ 112 ∷ 58 ∷ 47 ∷ 47 ∷ 119 ∷ 119 ∷ 119
    ∷ 46 ∷ 119 ∷ 101 ∷ 98 ∷ 115 ∷ 111 ∷ 99 ∷ 107 ∷ 101 ∷ 116 ∷ 45 ∷ 116 ∷ 101 ∷ 115 ∷ 116 ∷ 46 ∷ 99
    ∷ 111 ∷ 109 ∷ 13 ∷ 10 ∷ 83 ∷ 101 ∷ 99 ∷ 45 ∷ 87 ∷ 101 ∷ 98 ∷ 83 ∷ 111 ∷ 99 ∷ 107 ∷ 101 ∷ 116
    ∷ 45 ∷ 69 ∷ 120 ∷ 116 ∷ 101 ∷ 110 ∷ 115 ∷ 105 ∷ 111 ∷ 110 ∷ 115 ∷ 58 ∷ 32 ∷ 112 ∷ 101 ∷ 114
    ∷ 109 ∷ 101 ∷ 115 ∷ 115 ∷ 97 ∷ 103 ∷ 101 ∷ 45 ∷ 100 ∷ 101 ∷ 102 ∷ 108 ∷ 97 ∷ 116 ∷ 101 ∷ 13 ∷ 10
    ∷ 83 ∷ 101 ∷ 99 ∷ 45 ∷ 87 ∷ 101 ∷ 98 ∷ 83 ∷ 111 ∷ 99 ∷ 107 ∷ 101 ∷ 116 ∷ 45 ∷ 75 ∷ 101 ∷ 121
    ∷ 58 ∷ 32 ∷ 76 ∷ 47 ∷ 115 ∷ 104 ∷ 107 ∷ 106 ∷ 97 ∷ 55 ∷ 86 ∷ 52 ∷ 115 ∷ 89 ∷ 115 ∷ 43 ∷ 78 ∷ 103
    ∷ 43 ∷ 97 ∷ 121 ∷ 82 ∷ 119 ∷ 81 ∷ 61 ∷ 61 ∷ 13 ∷ 10 ∷ 67 ∷ 111 ∷ 110 ∷ 110 ∷ 101 ∷ 99 ∷ 116
    ∷ 105 ∷ 111 ∷ 110 ∷ 58 ∷ 32 ∷ 107 ∷ 101 ∷ 101 ∷ 112 ∷ 45 ∷ 97 ∷ 108 ∷ 105 ∷ 118 ∷ 101 ∷ 44 ∷ 32
    ∷ 85 ∷ 112 ∷ 103 ∷ 114 ∷ 97 ∷ 100 ∷ 101 ∷ 13 ∷ 10 ∷ 80 ∷ 114 ∷ 97 ∷ 103 ∷ 109 ∷ 97 ∷ 58 ∷ 32
    ∷ 110 ∷ 111 ∷ 45 ∷ 99 ∷ 97 ∷ 99 ∷ 104 ∷ 101 ∷ 13 ∷ 10 ∷ 67 ∷ 97 ∷ 99 ∷ 104 ∷ 101 ∷ 45 ∷ 67 ∷ 111
    ∷ 110 ∷ 116 ∷ 114 ∷ 111 ∷ 108 ∷ 58 ∷ 32 ∷ 110 ∷ 111 ∷ 45 ∷ 99 ∷ 97 ∷ 99 ∷ 104 ∷ 101 ∷ 13 ∷ 10
    ∷ 85 ∷ 112 ∷ 103 ∷ 114 ∷ 97 ∷ 100 ∷ 101 ∷ 58 ∷ 32 ∷ 119 ∷ 101 ∷ 98 ∷ 115 ∷ 111 ∷ 99 ∷ 107 ∷ 101
    ∷ 116 ∷ 13 ∷ 10 ∷ 13 ∷ 10 ∷ []

-- onConnect; the port is given by its decimal digits.
pub on_connect : Allocator → Handlers → Poller → Option ℕ → List ℕ → List ℕ → Outcome Poller
on_connect a h p none ip port = done p
on_connect a h p (some id) ip port = do
  p1 ← post_recv p id
  s ← deref p1 id
  let p2 = put p1 id (some (record s { heart_beats = 90; is_connect = true }))
  p3 ← send_to a h p2 id (request_head ++ (ip ++ (58 ∷ (port ++ request_tail))))
  s3 ← deref p3 id
  done (put p3 id (some (record s3 { user_data = 1 })))
