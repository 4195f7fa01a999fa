-- ===== src/WebSocketPoller/Tests.antt =====
-- Runs of the WebSocket poller, and its theorems at concrete sessions.
use chain_socket.Base.{
  ◌≤◌, ◌<◌, ◌⊎◌, ℕ, ◌≡◌, refl, ap, inl, inr, List, [], ◌∷◌, ◌++◌, none, some, arith, true, false,
  length,
}
use chain_socket.Base.Outcome.{aborted, done, no_fuel, Yields}
use chain_socket.Buffer.{MessageBuffer}
use chain_socket.Buffer.Contents.{contents}
use chain_socket.Buffer.Contents
use chain_socket.Buffer.Samples.{generous, generous-Grants, three, three-IsValid}
use chain_socket.Session.{Session, accept}
use chain_socket.Poller.{Poller, Handlers, RecvResult, received, recv_again, recv_failed}
use chain_socket.Poller.Send.{written}
use chain_socket.WebSocket.{pong_frame}
use chain_socket.WebSocketPoller.{
  MessageHandlers, memstr, memstr_loop, starts_with, send_msg, on_frames,
}
use chain_socket.WebSocketPoller.Wire.{wire}
use chain_socket.WebSocketPoller.Memory.{Sent, AllSendable, wires, IsPart, Unread, Reads}
use chain_socket.WebSocketPoller.Deliver.{Keeping, on_frames_delivers}
use chain_socket.WebSocketPoller.Control.{control_frame, on_frames_endless}
use chain_socket.WebSocketPoller.Transmit.{fixed_key, fixed_key-IsKey, send_msg-queues}
use chain_socket.WebSocketPoller.Search.{First, memstr-First}

-- The handlers note each message at the end of the list of what recv gives.
abbrev noted : Poller → List ℕ → Poller
noted p bytes = record p {
  kernel = record p.kernel { recvs = p.kernel.recvs ++ received bytes ∷ [] };
}

abbrev noting : MessageHandlers
noting = record { on_read_msg = λ p id bytes. done (noted p bytes); on_hand_shake = λ p id. done p }

abbrev bytes_of : List RecvResult → List (List ℕ)
bytes_of [] = []
bytes_of (received bytes ∷ rs) = bytes ∷ bytes_of rs
bytes_of (recv_again ∷ rs) = bytes_of rs
bytes_of (recv_failed ∷ rs) = bytes_of rs

bytes_of-append :
    (rs : List RecvResult) (bytes : List ℕ)
    → bytes_of (rs ++ received bytes ∷ []) ≡ bytes_of rs ++ bytes ∷ []
bytes_of-append [] bytes = refl
bytes_of-append (received first ∷ rs) bytes = ap (λ xs. first ∷ xs) (bytes_of-append rs bytes)
bytes_of-append (recv_again ∷ rs) bytes = bytes_of-append rs bytes
bytes_of-append (recv_failed ∷ rs) bytes = bytes_of-append rs bytes

abbrev reads_all : Reads noting 0
reads_all = record {
  seen = λ p. bytes_of p.kernel.recvs;
  seen_put = λ p o. refl;
  reads = λ p bytes s here. (noted p bytes, refl, (refl, bytes_of-append p.kernel.recvs bytes));
}

-- A session whose read buffer is full of these bytes.
abbrev holding : List ℕ → Session
holding bytes = record {
  fd = 7;
  session_id = 0;
  write_buffer = three;
  read_buffer = record three { buff = some bytes; size = length bytes; capacity = length bytes };
  type = accept;
  heart_beats = 0;
  can_read = false;
  io_pending = false;
  is_connect = true;
  user_data = 2;
  on_user_data_destory = none;
}

abbrev serving : List ℕ → Poller
serving bytes = record {
  sessions = some (holding bytes) ∷ [];
  cur_id = 0;
  max_id = 1;
  is_run = true;
  listen_fds = [];
  listen_conns = [];
  kernel = record { recvs = []; sends = []; accepts = []; calls = [] };
}

-- A masked binary message, a plain text one, and the first bytes of a third.
abbrev messages : List Sent
messages =
    record { binary = true; key = some fixed_key; bytes = 72 ∷ 105 ∷ [] }
    ∷ record { binary = false; key = none; bytes = 121 ∷ 111 ∷ 117 ∷ [] }
    ∷ []

abbrev arrived : List ℕ
arrived = wires messages ++ (129 ∷ 5 ∷ 72 ∷ [])

cut_message : IsPart (129 ∷ 5 ∷ 72 ∷ [])
cut_message = record {
  of = record { binary = false; key = none; bytes = 72 ∷ 101 ∷ 108 ∷ 108 ∷ 111 ∷ [] };
  cut = omega arith;
  same = refl;
}

arrived-Unread : Unread (serving arrived) 0 0 arrived
arrived-Unread = record {
  s = holding arrived;
  here = refl;
  front = [];
  junk = [];
  block = refl;
  place = refl;
  size = refl;
  capacity = refl;
}

messages-AllSendable : AllSendable messages
messages-AllSendable = (
  ((fixed_key-IsKey, (omega arith, (omega arith, tt)), omega arith)),
  (((tt, (omega arith, (omega arith, (omega arith, tt))), omega arith)), tt),
)

on_frames_delivers_example :
    Yields
      (λ p'.
        Keeping p' 0 (129 ∷ 5 ∷ 72 ∷ [])
        × (reads_all.seen p' ≡ (72 ∷ 105 ∷ []) ∷ (121 ∷ 111 ∷ 117 ∷ []) ∷ []))
      (on_frames 3 noting (serving arrived) 0)
on_frames_delivers_example =
    on_frames_delivers noting (serving arrived) 0 3 messages (129 ∷ 5 ∷ 72 ∷ []) reads_all
      arrived-Unread messages-AllSendable cut_message (omega arith)

abbrev ponged : List ℕ
ponged = control_frame pong_frame (1 ∷ 2 ∷ []) ++ wire none (72 ∷ [])

ponged-Unread : Unread (serving ponged) 0 0 ponged
ponged-Unread = record {
  s = holding ponged;
  here = refl;
  front = [];
  junk = [];
  block = refl;
  place = refl;
  size = refl;
  capacity = refl;
}

on_frames_endless_example : on_frames 100 noting (serving ponged) 0 ≡ no_fuel
on_frames_endless_example =
    on_frames_endless pong_frame (1 ∷ 2 ∷ []) (wire none (72 ∷ [])) 100 noting (serving ponged) 0
      (inr (inl refl)) (omega arith) ponged-Unread

abbrev quiet : Handlers
quiet = record {
  on_recv = λ p id n. done p;
  on_send = λ p id n. done p;
  on_accept = λ p new id. done p;
}

send_msg-queues_example :
    ((2 ≤ 0xFFFF)
      × Yields
          (λ p'.
            (b : MessageBuffer) × Contents.IsValid b
            × (contents b ≡ 10 ∷ 20 ∷ 30 ∷ wire (some fixed_key) (72 ∷ 105 ∷ []))
            × (p' ≡ written (serving []) 0 (holding []) b))
          (send_msg generous quiet (serving []) (some 0) (72 ∷ 105 ∷ [])))
    ⊎ ((0xFFFF < 2) × (send_msg generous quiet (serving []) (some 0) (72 ∷ 105 ∷ []) ≡ aborted))
send_msg-queues_example =
    send_msg-queues generous quiet (serving []) 0 (holding []) (72 ∷ 105 ∷ []) generous-Grants refl
      three-IsValid (λ e. omega arith) (omega arith)

memstr-First_example :
    First
      (13 ∷ 10 ∷ [])
      (65 ∷ 13 ∷ 13 ∷ 10 ∷ 66 ∷ [])
      (memstr (65 ∷ 13 ∷ 13 ∷ 10 ∷ 66 ∷ []) (13 ∷ 10 ∷ []) 2)
memstr-First_example = memstr-First (65 ∷ 13 ∷ 13 ∷ 10 ∷ 66 ∷ []) (13 ∷ 10 ∷ []) (omega arith)

memstr_found : memstr (65 ∷ 13 ∷ 13 ∷ 10 ∷ 66 ∷ []) (13 ∷ 10 ∷ []) 2 ≡ some 2
unfolding memstr memstr_loop starts_with
memstr_found = refl
