-- ===== src/Poller/Loop/Tests.antt =====
-- loopOnce at a concrete poller.
use chain_socket.Base.{
  ℕ, ◌+◌, ◌*◌, length, ◌≤◌, ◌≡◌, refl, sym, ap, ◌∙◌, ◌⊎◌, subst, [], ◌∷◌, Option, some, none,
  some-injective, arith, true,
}
use chain_socket.Base.Outcome.{done, fault, done-injective, Yields}
use chain_socket.Buffer.{buffer_size, int_max}
use chain_socket.Buffer.Samples.{generous, generous-Grants, three-IsValid}
use chain_socket.Session.{Session}
use chain_socket.Poller.{
  Poller, Handlers, Status, Event, put, handle_read_event, next_recv, next_send, loop_once,
  base_on_send, base_on_accept,
}
use chain_socket.Poller.Table.{session_at, IsTaken}
use chain_socket.Poller.Failure.{deref-some, after_answer}
use chain_socket.Poller.Receive.{Received, handle_read_event-Received}
use chain_socket.Poller.Ready.{IsUsable, IsReady, Next, Next-refl, AreSound, put-Next}
use chain_socket.Poller.Traffic.{RecvFits, SendFits}
use chain_socket.Poller.Loop.{Fits, Failing, loop_once-IsReady}
use chain_socket.Poller.Loop.Samples.{zeroed, zeroed-Opens, streaming, polled, polled-IsReady}

-- The callbacks of the base class, but onRecv does nothing.
abbrev quiet : Handlers
quiet = record { on_recv = λ p id len. done p; on_send = base_on_send; on_accept = base_on_accept }

-- onAccept of the base class only changes the heart beats.
quiet_accepts :
    (p : Poller) (listener : Option ℕ) (aid : ℕ)
    → IsReady p
    → IsTaken p aid
    → Yields (Next p) (base_on_accept p listener aid)
unfolding base_on_accept
quiet_accepts p none aid r taken = (p, refl, Next-refl p r)
quiet_accepts p (some id) aid r (s, here) =
    let u = r.usable aid s here in
    let s' : Session = record s { heart_beats = 90 } in
    rw (deref-some p aid here) (
      put p aid (some s'),
      refl,
      put-Next p aid (some s') r (λ t e.
          subst (λ x. (x.session_id ≡ aid) × IsUsable x) (some-injective _ _ e)
            (
              r.valid.named aid s here,
              record { reads = u.reads; writes = u.writes; typed = u.typed },
            )),
    )

quiet-AreSound : AreSound quiet
unfolding base_on_send
quiet-AreSound = record {
  recv = λ p id n r taken. (p, refl, Next-refl p r);
  send = λ p id n r taken. (p, refl, Next-refl p r);
  accept = quiet_accepts;
}

abbrev both : Event
both = record { id = 1; readable = true; writable = true }

the_one : {s : Session} → session_at polled 1 ≡ some (some s) → streaming ≡ s
the_one e = some-injective _ _ (some-injective _ _ e)

recv_fits : RecvFits polled 1
unfolding next_recv
recv_fits s bytes here e =
    let same = the_one here in
    let read : 40 ∷ 50 ∷ [] ≡ bytes = cc in
    subst
      (λ t.
        (t.read_buffer.size + length bytes ≤ t.read_buffer.capacity)
        × (t.read_buffer.size + length bytes + 3 * buffer_size ≤ int_max))
      same (omega (arith, ap length read), omega (arith, ap length read))

send_fits :
    (status : Status) (p' : Poller)
    → handle_read_event generous quiet polled 1 ≡ done (status, p')
    → SendFits p' 1
unfolding next_send Received
send_fits status p' run =
    let (b, v, same, room, e) =
      handle_read_event-Received generous quiet polled 1 streaming 40 (50 ∷ []) [] generous-Grants
        refl three-IsValid (omega arith) refl (omega arith) (omega arith) in
    let s' : Session = record streaming { read_buffer = b } in
    let after = put (after_answer polled []) 1 (some s') in
    let reached : after ≡ p' = ap (λ r. r.1) (done-injective (sym e ∙ run)) in
    subst (λ q. SendFits q 1) reached
      (λ s here full n answer.
        let one : s' ≡ s = some-injective _ _ (some-injective _ _ here) in
        let two : 2 ≡ n = cc in subst (λ t. n ≤ t.write_buffer.size) one (omega (arith, two)))

both-Fits : Fits generous quiet polled both
both-Fits = record {
  inside = omega arith;
  reads = λ r. recv_fits;
  writes_only = λ r w. absurd (cc);
  writes_after = λ status p' r w run. send_fits status p' run;
}

loop_once-IsReady_example :
    Yields (λ p'. IsReady p' × (p'.max_id ≡ 3)) (loop_once generous zeroed quiet polled (both ∷ []))
    ⊎ ((loop_once generous zeroed quiet polled (both ∷ []) ≡ fault)
        × Failing generous zeroed quiet polled (both ∷ []))
loop_once-IsReady_example =
    loop_once-IsReady generous zeroed quiet polled (both ∷ []) generous-Grants zeroed-Opens
      quiet-AreSound polled-IsReady (both-Fits, λ p' run. tt)
