-- ===== src/WebSocketPoller/Opening/Tests.antt =====
-- Runs of the handshake of a session, and its theorem at a concrete one.
use chain_socket.Base.{
  ℕ, ◌≡◌, refl, List, [], ◌∷◌, none, some, arith, true, false, ltb, if◌then◌else◌, drop,
}
use chain_socket.Base.Outcome.{done, ◌>>=◌}
use chain_socket.Buffer.{MessageBuffer}
use chain_socket.Buffer.Contents.{contents}
use chain_socket.Buffer.Contents
use chain_socket.Buffer.Samples.{generous, three}
use chain_socket.Session.{Session, connect}
use chain_socket.Poller.{Poller, Handlers, put}
use chain_socket.WebSocket.{empty_frame}
use chain_socket.WebSocket.Handshake.{Handshake}
use chain_socket.WebSocketPoller.{MessageHandlers, starts_with, memstr_loop, memstr, on_frames}
use chain_socket.WebSocketPoller.Opening.{on_recv}
use chain_socket.WebSocketPoller.Opening.Reply.{entered, on_recv-accepts_any}

-- "HTTP/1.1 404" and an empty line.
abbrev not_found : List ℕ
not_found = 72 ∷ 84 ∷ 84 ∷ 80 ∷ 47 ∷ 49 ∷ 46 ∷ 49 ∷ 32 ∷ 52 ∷ 48 ∷ 52 ∷ 13 ∷ 10 ∷ 13 ∷ 10 ∷ []

abbrev waiting : Session
waiting = record {
  fd = 7;
  session_id = 0;
  write_buffer = three;
  read_buffer = record three { buff = some not_found; size = 16; capacity = 16 };
  type = connect;
  heart_beats = 90;
  can_read = false;
  io_pending = false;
  is_connect = true;
  user_data = 1;
  on_user_data_destory = none;
}

abbrev connecting : Poller
connecting = record {
  sessions = some waiting ∷ [];
  cur_id = 0;
  max_id = 1;
  is_run = true;
  listen_fds = [];
  listen_conns = [];
  kernel = record { recvs = []; sends = []; accepts = []; calls = [] };
}

abbrev idle : Handlers
idle = record {
  on_recv = λ p id n. done p;
  on_send = λ p id n. done p;
  on_accept = λ p new id. done p;
}

abbrev silent : MessageHandlers
silent = record { on_read_msg = λ p id bytes. done p; on_hand_shake = λ p id. done p }

abbrev blank_handshake : Handshake
blank_handshake = record {
  host = none;
  origin = none;
  key = none;
  resource = none;
  frame_type = empty_frame;
}

waiting-IsValid : Contents.IsValid waiting.read_buffer
waiting-IsValid = (not_found, record { owned = refl; sized = refl; fits = omega arith })

on_recv-accepts_any_example :
    (b : MessageBuffer) × Contents.IsValid b
    × (contents b ≡ [])
    × (on_recv generous idle silent 5 connecting blank_handshake (some 0) ≡ (
        (if ltb 0 b.size
          then on_frames 5 silent (put connecting 0 (some (entered waiting b))) 0
          else done (put connecting 0 (some (entered waiting b))))
        >>= λ q. done (q, blank_handshake)))
unfolding memstr memstr_loop starts_with
on_recv-accepts_any_example =
    on_recv-accepts_any generous idle silent 5 connecting blank_handshake 0 waiting
      (drop 4 not_found) 12 refl waiting-IsValid refl (omega arith) refl refl (λ q. refl)
