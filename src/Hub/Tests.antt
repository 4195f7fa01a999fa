-- ===== src/Hub/Tests.antt =====
-- The theorems on the hub at concrete pollers.
use chain_socket.Base.{
  true, false, ℕ, zero, suc, ◌≡◌, refl, sym, ap, List, [], ◌∷◌, some, none, some-injective, arith,
}
use chain_socket.Base.Outcome.{Yields}
use chain_socket.Poller.Loop.Samples.{zeroed, zeroed-Opens}
use chain_socket.Buffer.Samples.{generous, three}
use chain_socket.Session.{Session, listen}
use chain_socket.Poller.{Poller}
use chain_socket.Poller.Table.{IsValid, session_at}
use chain_socket.Poller.Accept.{Keeps}
use chain_socket.Connect.{SockInfo, connected, refused}
use chain_socket.Hub.{process_connect_sockets}
use chain_socket.Hub.Process.{
  class_handlers, class_handlers-Connects, AllPlaced, process_connect_sockets-AllPlaced,
}
use chain_socket.Hub.Sessions.{IsFull}

abbrev listening : Session
listening = record {
  fd = 3;
  session_id = 0;
  write_buffer = three;
  read_buffer = three;
  type = listen;
  heart_beats = 0;
  can_read = false;
  io_pending = false;
  is_connect = false;
  user_data = 0;
  on_user_data_destory = none;
}

-- A table of one slot, which is taken.
abbrev crowded : Poller
crowded = record {
  sessions = some listening ∷ [];
  cur_id = 0;
  max_id = 1;
  is_run = true;
  listen_fds = 3 ∷ [];
  listen_conns = 0 ∷ [];
  kernel = record { recvs = []; sends = []; accepts = 8 ∷ 9 ∷ []; calls = [] };
}

crowded-IsValid : IsValid crowded
crowded-IsValid = record { size = refl; cursor = omega arith; named = named }
  where
    named : (i : ℕ) (s : Session) → session_at crowded i ≡ some (some s) → s.session_id ≡ i
    named zero s e = sym (ap (λ o. o.session_id) (some-injective _ _ (some-injective _ _ e)))
    named (suc i) s e = absurd (cc)

crowded-IsFull : IsFull crowded
crowded-IsFull zero h = (listening, refl)
crowded-IsFull (suc i) h = absurd (omega arith)

abbrev arrivals : List SockInfo
arrivals =
    record { port = 80; ip = 49 ∷ []; fd = 5; ret = connected }
    ∷ record { port = 81; ip = 50 ∷ []; fd = 6; ret = refused }
    ∷ []

-- The same table with a free slot.
abbrev roomy : Poller
roomy = record crowded { sessions = some listening ∷ none ∷ []; max_id = 2 }

roomy-IsValid : IsValid roomy
roomy-IsValid = record { size = refl; cursor = omega arith; named = named }
  where
    named : (i : ℕ) (s : Session) → session_at roomy i ≡ some (some s) → s.session_id ≡ i
    named zero s e = sym (ap (λ o. o.session_id) (some-injective _ _ (some-injective _ _ e)))
    named (suc zero) s e = absurd (cc)
    named (suc (suc i)) s e = absurd (cc)

process_connect_sockets-AllPlaced_example :
    Yields
      (λ p'. Keeps roomy p' × AllPlaced p' arrivals)
      (process_connect_sockets generous zeroed class_handlers roomy arrivals)
process_connect_sockets-AllPlaced_example =
    process_connect_sockets-AllPlaced generous zeroed class_handlers roomy arrivals zeroed-Opens.0
      class_handlers-Connects roomy-IsValid
