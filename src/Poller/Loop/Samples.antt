-- ===== src/Poller/Loop/Samples.antt =====
-- A concrete poller that is ready, for the tests.
use chain_socket.Base.{
  ℕ, zero, suc, ◌≡◌, refl, subst, [], ◌∷◌, some, none, some-injective, arith, true, false,
}
use chain_socket.Buffer.{blank}
use chain_socket.Buffer.Samples.{generous, three, three-IsValid}
use chain_socket.Session.{Session, unused, accept, listen}
use chain_socket.Poller.{Poller, received, sent}
use chain_socket.Poller.Table.{Opens, session_at}
use chain_socket.Poller.Ready.{IsUsable, IsReady}

-- A session in slot 1 with three bytes in each buffer, and a listening one in slot 0.
abbrev pub streaming : Session
streaming = record {
  fd = 7;
  session_id = 1;
  write_buffer = three;
  read_buffer = three;
  type = accept;
  heart_beats = 0;
  can_read = false;
  io_pending = false;
  is_connect = false;
  user_data = 0;
  on_user_data_destory = none;
}

abbrev pub listening : Session
listening = record streaming { fd = 3; session_id = 0; type = listen }

abbrev pub polled : Poller
polled = record {
  sessions = some listening ∷ some streaming ∷ none ∷ [];
  cur_id = 1;
  max_id = 3;
  is_run = true;
  listen_fds = 3 ∷ [];
  listen_conns = 0 ∷ [];
  kernel = record {
    recvs = received (40 ∷ 50 ∷ []) ∷ [];
    sends = sent 2 ∷ [];
    accepts = [];
    calls = [];
  };
}

pub polled-IsReady : IsReady polled
polled-IsReady = record {
  valid = record { size = refl; cursor = omega arith; named = λ i s e. (each i s e).0 };
  usable = λ i s e. (each i s e).1;
}
  where
    each :
        (i : ℕ) (s : Session)
        → session_at polled i ≡ some (some s)
        → (s.session_id ≡ i) × IsUsable s
    each zero s e =
        subst (λ t. (t.session_id ≡ 0) × IsUsable t) (some-injective _ _ (some-injective _ _ e))
          (refl, record { reads = three-IsValid; writes = three-IsValid; typed = λ t. absurd (cc) })
    each (suc zero) s e =
        subst (λ t. (t.session_id ≡ 1) × IsUsable t) (some-injective _ _ (some-injective _ _ e))
          (refl, record { reads = three-IsValid; writes = three-IsValid; typed = λ t. absurd (cc) })
    each (suc (suc zero)) s e = absurd (cc)
    each (suc (suc (suc i))) s e = absurd (cc)

-- The memory of a session that malloc has just taken from the system, all zeros.
abbrev pub zeroed : Session
zeroed = record {
  fd = 0;
  session_id = 0;
  write_buffer = blank;
  read_buffer = blank;
  type = unused;
  heart_beats = 0;
  can_read = false;
  io_pending = false;
  is_connect = false;
  user_data = 0;
  on_user_data_destory = none;
}

pub zeroed-Opens : Opens generous zeroed
zeroed-Opens = ((λ e. absurd (cc), refl), λ e. absurd (cc))
