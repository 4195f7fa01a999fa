-- ===== src/Poller/Tests.antt =====
-- Runs of the poller, and its theorems at concrete pollers.
use chain_socket.Base.{
  ℕ, zero, suc, ◌≡◌, refl, sym, ◌∙◌, ap, inl, List, [], ◌∷◌, none, some, some-injective, arith,
  true, false, get_elem?-in_range_inv, get_elem?-set_self, get_elem?-set_ne, ℕ_discrete,
}
use chain_socket.Base.Outcome.{Outcome, done, fault, ◌>>=◌, Yields}
use chain_socket.Buffer.{MessageBuffer, blank}
use chain_socket.Buffer.Contents.{contents, HoldsWithRoom}
use chain_socket.Buffer.Contents
use chain_socket.Poller.Loop.Samples.{zeroed, zeroed-Opens}
use chain_socket.Buffer.Samples.{generous, generous-Grants, three, three-IsValid}
use chain_socket.Session.{Session, accept, listen}
use chain_socket.Poller.{
  Poller, Handlers, Status, RecvResult, SendResult, received, sent, send_failed, put,
  init_new_session, close_session, send_to, handle_read_event, step, accept_event, base_on_send,
  base_on_accept,
}
use chain_socket.Poller.Table.{
  IsValid, session_at, Found, init_new_session-Found, Closed, close_session-Closed, put-IsValid,
}
use chain_socket.Poller.Failure.{
  deref-some, step-write_failure, step-read_failure, listen_to-refused,
}
use chain_socket.Poller.Failure
use chain_socket.Poller.Send.{Flushed, written, with_write, post_send-Flushed, send_to_sends}
use chain_socket.Poller.Send
use chain_socket.Poller.Receive.{Received, handle_read_event-Received}
use chain_socket.Poller.Accept.{Keeps, Accepts, Handled, accept_event-Handled}

-- A session in slot 1 with three bytes in each buffer.
abbrev streaming : Session
streaming = record {
  fd = 7;
  session_id = 1;
  write_buffer = three;
  read_buffer = three;
  type = accept;
  heart_beats = 0;
  can_read = false;
  io_pending = false;
  is_connect = false;
  user_data = 0;
  on_user_data_destory = none;
}

abbrev listening : Session
listening = record streaming {
  fd = 3;
  session_id = 0;
  write_buffer = blank;
  read_buffer = blank;
  type = listen;
}

-- A table of three slots, the last of them free, and a kernel with some answers.
abbrev polled : Poller
polled = record {
  sessions = some listening ∷ some streaming ∷ none ∷ [];
  cur_id = 1;
  max_id = 3;
  is_run = true;
  listen_fds = 3 ∷ [];
  listen_conns = 0 ∷ [];
  kernel = record {
    recvs = received (40 ∷ 50 ∷ []) ∷ [];
    sends = sent 2 ∷ [];
    accepts = 8 ∷ 9 ∷ [];
    calls = [];
  };
}

abbrev with_kernel : List RecvResult → List SendResult → Poller
with_kernel r w = record polled { kernel = record polled.kernel { recvs = r; sends = w } }

polled-named : (i : ℕ) (s : Session) → session_at polled i ≡ some (some s) → s.session_id ≡ i
polled-named zero s e = sym (ap (λ o. o.session_id) (some-injective _ _ (some-injective _ _ e)))
polled-named (suc zero) s e =
    sym (ap (λ o. o.session_id) (some-injective _ _ (some-injective _ _ e)))
polled-named (suc (suc zero)) s e = absurd (cc)
polled-named (suc (suc (suc i))) s e = absurd (cc)

polled-IsValid : IsValid polled
polled-IsValid = record { size = refl; cursor = omega arith; named = polled-named }

kernel-IsValid : (r : List RecvResult) (w : List SendResult) → IsValid (with_kernel r w)
kernel-IsValid r w = record { size = refl; cursor = omega arith; named = polled-named }

-- The callbacks of the base class, but onRecv does nothing.
abbrev quiet : Handlers
quiet = record { on_recv = λ p id len. done p; on_send = base_on_send; on_accept = base_on_accept }

init_new_session-Found_example :
    Yields
      (λ r. Found generous zeroed polled 8 accept r × IsValid r.0)
      (init_new_session generous zeroed polled 8 accept)
init_new_session-Found_example =
    init_new_session-Found generous zeroed polled 8 accept zeroed-Opens.0 polled-IsValid

close_session-Closed_example : Yields (Closed polled 1) (close_session polled 1)
close_session-Closed_example = close_session-Closed polled 1 polled-IsValid (omega arith)

step-write_failure_example :
    step generous zeroed quiet
      (with_kernel [] (send_failed ∷ []))
      (record { id = 1; readable = false; writable = true })
    ≡ fault
step-write_failure_example =
    step-write_failure generous zeroed quiet (with_kernel [] (send_failed ∷ []))
      (record { id = 1; readable = false; writable = true }) streaming [] refl (inl refl) refl refl
      (λ e. absurd (omega arith)) refl

handle_read_event-Received_example :
    Received quiet
      (Failure.after_answer polled [])
      1
      streaming
      (40 ∷ 50 ∷ [])
      (handle_read_event generous quiet polled 1)
handle_read_event-Received_example =
    handle_read_event-Received generous quiet polled 1 streaming 40 (50 ∷ []) [] generous-Grants
      refl three-IsValid (omega arith) refl (omega arith) (omega arith)

-- The same session with nothing to send.
abbrev idle : Session
idle = record streaming { write_buffer = record three { size = 0 } }

abbrev idle_polled : Poller
idle_polled = record polled { sessions = some listening ∷ some idle ∷ none ∷ [] }

send_to_sends_example :
    (b : MessageBuffer) × (sent_to : Outcome (Status × Poller)) × Contents.IsValid b
    × (contents b ≡ 60 ∷ 70 ∷ [])
    × Flushed quiet
        (Send.after_answer (written idle_polled 1 idle b) [])
        1
        (with_write idle b)
        (sent 2)
        sent_to
    × (send_to generous quiet idle_polled 1 (60 ∷ 70 ∷ []) ≡ (sent_to >>= λ (status, p'). done p'))
send_to_sends_example =
    send_to_sends generous quiet idle_polled 1 idle (60 ∷ 70 ∷ []) (sent 2) [] generous-Grants refl
      (
        10 ∷ 20 ∷ 30 ∷ 0 ∷ 0 ∷ 0 ∷ 0 ∷ 0 ∷ [],
        record { owned = refl; sized = refl; fits = omega arith },
      )
      refl (λ e. absurd (cc)) (omega arith) refl (omega arith)

-- onAccept of the base class keeps sessions and their sockets.
heart_beats-Keeps :
    (p : Poller) (aid : ℕ) (s : Session)
    → IsValid p
    → session_at p aid ≡ some (some s)
    → Keeps p (put p aid (some (record s { heart_beats = 90 })))
heart_beats-Keeps p aid s v here = record {
  valid =
      put-IsValid p aid (some (record s { heart_beats = 90 })) v
        (λ s' e. sym (ap (λ t. t.session_id) (some-injective _ _ e)) ∙ v.named aid s here);
  size = refl;
  held = λ i t e. elim (ℕ_discrete aid i) [
    | yes same ↦
        let now =
          get_elem?-set_self p.sessions aid (some (record s { heart_beats = 90 }))
            (get_elem?-in_range_inv p.sessions aid here) in
        let one : s ≡ t = some-injective _ _ (some-injective _ _ (sym here ∙ rw (← same) at e)) in
        (record s { heart_beats = 90 }, rw (← same) now, ap (λ u. u.fd) one)
    | no other ↦
        (t, get_elem?-set_ne p.sessions (some (record s { heart_beats = 90 })) other ∙ e, refl)
  ];
  added = ([], refl);
}

quiet-Accepts : Accepts quiet
unfolding base_on_accept
quiet-Accepts p none aid s v here =
    (p, refl, record { valid = v; size = refl; held = λ i s e. (s, e, refl); added = ([], refl) })
quiet-Accepts p (some id) aid s v here = (
  put p aid (some (record s { heart_beats = 90 })),
  rw (deref-some p aid here),
  heart_beats-Keeps p aid s v here,
)

-- One of the two sockets gets the free slot, and the other is closed.
accept_event-Handled_example :
    Yields
      (λ p'. Keeps polled p' × Handled p' (8 ∷ 9 ∷ []))
      (accept_event generous zeroed quiet polled 0)
accept_event-Handled_example =
    accept_event-Handled generous zeroed quiet polled 0 zeroed-Opens.0 quiet-Accepts polled-IsValid
      (omega arith)
