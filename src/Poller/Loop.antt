-- ===== src/Poller/Loop.antt =====
-- Poller::loopOnce as a whole: between two events the poller is ready.
pub mod Samples
mod Tests
use native.Mathlib.Nat.{mod-lt}
use chain_socket.Base.{
  ℕ, zero, suc, ◌+◌, ◌≤◌, ◌<◌, ◌≡◌, refl, sym, ap, ◌∙◌, subst, ◌≢◌, ◌⊎◌, inl, inr, Bool, true,
  false, List, [], ◌∷◌, Option, none, some, arith, ltb, Option-cases, Bool-cases,
  get_elem?-in_range, get_elem?-in_range_inv, get_elem?-set_self, some-injective,
}
use chain_socket.Base.Outcome.{Outcome, done, fault, ◌>>=◌, Yields, Yields-bind, >>=_assoc}
use chain_socket.Buffer.{Allocator, buffer_size}
use chain_socket.Buffer.Contents.{Grants}
use chain_socket.Session.{Session, SessionType, unused, accept, connect, listen}
use chain_socket.Session.Reset.{reset_lem}
use chain_socket.Poller.{
  Poller, Handlers, Kernel, Status, Event, success, failed, slot, put, syscall, closes, advance,
  set_up, init_new_session, close_session, poll_del, poll_mod, post_send, handle_read_event,
  rearm_event, after_write, write_event, after_read, read_event, accepted, accept_loop,
  accept_event, dispatch, step, loop_once,
}
use chain_socket.Poller.Table.{
  IsValid, Opens, session_at, IsTaken, slot-some, Found, full, first_free, init_new_session-Found,
  turned,
}
use chain_socket.Poller.Failure.{deref-some, write_event-failed}
use chain_socket.Poller.Ready.{
  IsUsable, IsReady, Next, Next-refl, Next-trans, AreSound, kernel-Next, put-Next,
}
use chain_socket.Poller.Traffic.{
  RecvFits, SendFits, SendFails, NextBehind, handle_read_event-Next, post_send-Next,
}

-- A slot of the table is free or has a session.
pub looked :
    (p : Poller) (id : ℕ)
    → IsReady p
    → id < p.max_id
    → ((session_at p id ≡ some none) × (slot p id ≡ done none))
      ⊎ ((s : Session) × (session_at p id ≡ some (some s)) × (slot p id ≡ done (some s)))
looked p id r inside =
    let (o, here) = get_elem?-in_range p.sessions id (omega (arith, r.valid.size)) in
    elim (Option-cases o) [
      | inl free ↦ let e = here ∙ ap some free in inl (e, slot-some p id e)
      | inr (s, used) ↦ let e = here ∙ ap some used in inr (s, e, slot-some p id e)
    ]

rearm_event-Next :
    (p : Poller) (id : ℕ) (write : Bool)
    → IsReady p
    → IsTaken p id
    → Yields (Next p) (rearm_event p id write)
unfolding rearm_event poll_mod
rearm_event-Next p id write r (s, here) = rw (deref-some p id here) (_, refl, kernel-Next p _ r)

pub close_session-Next :
    (p : Poller) (id : ℕ) → IsReady p → id < p.max_id → Yields (Next p) (close_session p id)
unfolding close_session poll_del
close_session-Next p id r inside = elim (looked p id r inside) [
  | inl (e, free) ↦ rw free (p, refl, Next-refl p r)
  | inr (s, e, used) ↦
      let k = kernel-Next p (record p.kernel { calls = closes s.fd ∷ p.kernel.calls }) r in
      let l = put-Next (syscall p (closes s.fd)) id none k.ready (λ t same. absurd (cc)) in
      rw used (_, refl, Next-trans p _ _ k l)
]

-- The answers that the kernel gives while the event `e` of a session is handled.
pub record Fits (a : Allocator) (h : Handlers) (p : Poller) (e : Event) : Type 0 where
  pub inside : e.id < p.max_id
  pub reads : e.readable ≡ true → RecvFits p e.id
  pub writes_only : e.readable ≡ false → e.writable ≡ true → SendFits p e.id
  pub writes_after :
      (status : Status) (p' : Poller)
      → e.readable ≡ true
      → e.writable ≡ true
      → handle_read_event a h p e.id ≡ done (status, p')
      → SendFits p' e.id

-- The socket of the event `e` is writable, and the send that follows, behind the reading if it is
-- readable too, answers with an error.
abbrev pub FailsAt : Allocator → Handlers → Poller → Event → Type 0
FailsAt a h p e =
    (e.writable ≡ true)
    × (((e.readable ≡ false) × SendFails p e.id)
        ⊎ ((e.readable ≡ true)
            × (p' : Poller) × (handle_read_event a h p e.id ≡ done (success, p'))
            × SendFails p' e.id))

module _ (a : Allocator) (garbage : Session) (h : Handlers) (grants : Grants a)
    (sound : AreSound h) where
  write_event-Next :
      (p : Poller) (id : ℕ) (writable : Bool)
      → IsReady p
      → IsTaken p id
      → (writable ≡ true → SendFits p id)
      → Yields (Next p) (write_event h p id writable)
        ⊎ ((write_event h p id writable ≡ fault) × (writable ≡ true) × SendFails p id)
  unfolding write_event after_write
  write_event-Next p id false r taken fits = inl (rearm_event-Next p id false r taken)
  write_event-Next p id true r taken fits =
      let ((status, p'), run, (k, posted)) =
        post_send-Next a h grants sound p id r taken (fits refl) in
      let (s0, here0) = taken in
      let inside : id < p'.max_id =
        omega (arith, k.size, r.valid.size, get_elem?-in_range_inv p.sessions id here0) in
      elim posted [
        | inr (bad, (s, here), fails) ↦
            inr
              (write_event-failed h p p' id 3 (run ∙ ap (λ x. done (x, p')) bad) here, refl, fails)
        | inl good ↦ inl (elim (looked p' id k.ready inside) [
          | inl (e, free) ↦ rw (run, free) (p', refl, k)
          | inr (s, e, used) ↦
              let (q, ran, l) = rearm_event-Next p' id (ltb 0 s.write_buffer.size) k.ready (s, e) in
              rw (run, used, good, ran) (q, refl, Next-trans p p' q k l)
        ])
      ]

  gone : (p : Poller) (e : Event) (status : Status) → after_read h p e status none ≡ done p
  unfolding after_read
  gone p e status = refl

  -- What is done behind the reading.
  behind :
      (p : Poller) (e : Event) (status : Status) (s : Session)
      → IsReady p
      → e.id < p.max_id
      → session_at p e.id ≡ some (some s)
      → (status ≡ success → e.writable ≡ true → SendFits p e.id)
      → Yields (Next p) (after_read h p e status (some s))
        ⊎ ((after_read h p e status (some s) ≡ fault)
            × (status ≡ success)
            × (e.writable ≡ true)
            × SendFails p e.id)
  unfolding after_read
  behind p e success s r inside here fits =
      elim (write_event-Next p e.id e.writable r (s, here) (fits refl)) [
        | inl ends ↦ inl ends
        | inr (bad, w, fails) ↦ inr (bad, refl, w, fails)
      ]
  behind p e (failed n) s r inside here fits = inl (close_session-Next p e.id r inside)

  read_event-Next :
      (p : Poller) (e : Event) (readable : Bool)
      → e.readable ≡ readable
      → IsReady p
      → IsTaken p e.id
      → Fits a h p e
      → Yields (Next p) (read_event a h p e readable)
        ⊎ ((read_event a h p e readable ≡ fault) × FailsAt a h p e)
  unfolding read_event
  read_event-Next p e false same r taken fits =
      elim (write_event-Next p e.id e.writable r taken (fits.writes_only same)) [
        | inl ends ↦ inl ends
        | inr (bad, w, fails) ↦ inr (bad, (w, inl (same, fails)))
      ]
  read_event-Next p e true same r taken fits =
      let ((status, p'), run, k) =
        handle_read_event-Next a h grants sound p e.id r taken (fits.reads same) in
      let inside : e.id < p'.max_id = omega (arith, k.size, fits.inside) in
      elim (looked p' e.id k.ready inside) [
        | inl (at, free) ↦ inl (rw (run, free, gone p' e status) (p', refl, k))
        | inr (s, at, used) ↦
            elim (behind p' e status s k.ready inside at
              (λ ok w. fits.writes_after status p' same w run)) [
                | inl (q, ran, l) ↦ inl (rw (run, used, ran) (q, refl, Next-trans p p' q k l))
                | inr (ran, ok, w, fails) ↦ inr (
                  rw (run, used, ran) refl,
                  (w, inr (same, p', run ∙ ap (λ x. done (x, p')) ok, fails)),
                )
              ]
      ]

-- A session that initNewSession makes can be used, when malloc grants its buffers.
fresh-IsUsable :
    (a : Allocator) (garbage : Session) (id fd : ℕ) (type : SessionType)
    → a.malloc buffer_size ≢ none
    → type ≢ unused
    → IsUsable (set_up a garbage id fd type)
unfolding set_up
fresh-IsUsable a garbage id fd type granted typed =
    let ((read, _), (write, _), same) = reset_lem a garbage garbage granted in
    record { reads = read; writes = write; typed = typed }

turned-Next : (p : Poller) (k : ℕ) → IsReady p → Next p (turned p k)
turned-Next p k r = record {
  ready = record {
    valid = record {
      size = r.valid.size;
      cursor = mod-lt (p.cur_id + k) {m = p.max_id} (omega (arith, r.valid.cursor));
      named = r.valid.named;
    };
    usable = r.usable;
  };
  size = refl;
}

pub Found-Next :
    (a : Allocator) (garbage : Session) (p : Poller) (fd : ℕ) (type : SessionType)
    (r : Poller × Option ℕ)
    → a.malloc buffer_size ≢ none
    → type ≢ unused
    → IsReady p
    → Found a garbage p fd type r
    → Next p r.0 × ((id : ℕ) → r.1 ≡ some id → IsTaken r.0 id)
unfolding set_up
Found-Next a garbage p fd type r granted typed ready (full all e) =
    subst (λ r. Next p r.0 × ((id : ℕ) → r.1 ≡ some id → IsTaken r.0 id)) (sym e)
      (Next-refl p ready, λ id same. absurd (cc))
Found-Next a garbage p fd type r granted typed ready (first_free k id low at taken free e) =
    let new = set_up a garbage id fd type in
    let grown = put (turned p (k + 1)) id (some new) in
    let t = turned-Next p (k + 1) ready in
    let l = put-Next (turned p (k + 1)) id (some new) t.ready (λ s same.
      subst (λ x. (x.session_id ≡ id) × IsUsable x) (some-injective _ _ same)
        (refl, fresh-IsUsable a garbage id fd type granted typed)) in
    let here : IsTaken grown id = (
      new,
      get_elem?-set_self p.sessions id (some new) (get_elem?-in_range_inv p.sessions id free),
    ) in
    subst (λ r. Next p r.0 × ((id : ℕ) → r.1 ≡ some id → IsTaken r.0 id)) (sym e)
      (Next-trans p _ _ t l, λ i same. subst (IsTaken grown) (some-injective _ _ same) here)

module _ (a : Allocator) (garbage : Session) (h : Handlers) (opens : Opens a garbage)
    (sound : AreSound h) where
  accepted-Next :
      (p : Poller) (id fd : ℕ) (made : Option ℕ)
      → IsReady p
      → id < p.max_id
      → ((aid : ℕ) → made ≡ some aid → IsTaken p aid)
      → Yields (Next p) (accepted h p id fd made)
  unfolding accepted
  accepted-Next p id fd none r inside taken =
      (_, refl, kernel-Next p (record p.kernel { calls = closes fd ∷ p.kernel.calls }) r)
  accepted-Next p id fd (some aid) r inside taken = elim (looked p id r inside) [
    | inl (e, free) ↦ rw free (sound.accept p none aid r (taken aid refl))
    | inr (s, e, used) ↦ rw used (sound.accept p (some id) aid r (taken aid refl))
  ]

  accept_one-Next :
      (p : Poller) (id fd : ℕ)
      → IsReady p
      → id < p.max_id
      → Yields
          (Next p)
          (init_new_session a garbage p fd accept >>= λ (p1, made). accepted h p1 id fd made)
  accept_one-Next p id fd r inside =
      Yields-bind _ _ (init_new_session a garbage p fd accept) _
        (init_new_session-Found a garbage p fd accept opens.0 r.valid)
        λ (p1, made) (found, v).
          let (k, taken) =
            Found-Next a garbage p fd accept (p1, made) opens.1 (λ e. absurd (cc)) r found in
          let (q, run, l) = accepted-Next p1 id fd made k.ready (omega (arith, k.size)) taken in
          (q, run, Next-trans p p1 q k l)

  accept_loop-Next :
      (p : Poller) (id : ℕ) (fds : List ℕ)
      → IsReady p
      → id < p.max_id
      → Yields (Next p) (accept_loop a garbage h p id fds)
  unfolding accept_loop
  accept_loop-Next p id [] r inside = (p, refl, Next-refl p r)
  accept_loop-Next p id (zero ∷ fds) r inside = (_, refl, kernel-Next p _ r)
  accept_loop-Next p id (suc n ∷ fds) r inside =
      subst (Yields (Next p)) (>>=_assoc (init_new_session a garbage p (suc n) accept) _ _) (
        Yields-bind (Next p) _ _ _ (accept_one-Next p id (suc n) r inside) λ p2 k.
          let (q, run, l) = accept_loop-Next p2 id fds k.ready (omega (arith, k.size)) in
          (q, run, Next-trans p p2 q k l))

  accept_event-Next :
      (p : Poller) (id : ℕ)
      → IsReady p
      → id < p.max_id
      → Yields (Next p) (accept_event a garbage h p id)
  unfolding accept_event
  accept_event-Next p id r inside =
      let p0 = record p { kernel = record p.kernel { accepts = [] } } in
      let k = kernel-Next p (record p.kernel { accepts = [] }) r in
      let (q, run, l) = accept_loop-Next p0 id p.kernel.accepts k.ready inside in
      (q, run, Next-trans p p0 q k l)

  module _ (grants : Grants a) where
    dispatch-Next :
        (p : Poller) (e : Event) (s : Session) (type : SessionType)
        → type ≢ unused
        → IsReady p
        → session_at p e.id ≡ some (some s)
        → Fits a h p e
        → Yields (Next p) (dispatch a garbage h p e type)
          ⊎ ((dispatch a garbage h p e type ≡ fault) × FailsAt a h p e)
    unfolding dispatch
    dispatch-Next p e s unused known r here fits = absurd (known refl)
    dispatch-Next p e s accept known r here fits =
        read_event-Next a garbage h grants sound p e e.readable refl r (s, here) fits
    dispatch-Next p e s connect known r here fits =
        read_event-Next a garbage h grants sound p e e.readable refl r (s, here) fits
    dispatch-Next p e s listen known r here fits = inl (accept_event-Next p e.id r fits.inside)

    step-Next :
        (p : Poller) (e : Event)
        → IsReady p
        → Fits a h p e
        → Yields (Next p) (step a garbage h p e)
          ⊎ ((step a garbage h p e ≡ fault) × FailsAt a h p e)
    unfolding step
    step-Next p e r fits = elim (looked p e.id r fits.inside) [
      | inl (at, free) ↦ inl (rw free (p, refl, Next-refl p r))
      | inr (s, at, used) ↦
          let u = r.usable e.id s at in rw used (dispatch-Next p e s s.type u.typed r at fits)
    ]

-- The answers fit in every state in which an event is handled.
abbrev pub AllFit : Allocator → Session → Handlers → Poller → List Event → Type 0
AllFit a garbage h p [] = Unit
AllFit a garbage h p (e ∷ es) =
    Fits a h p e × ((p' : Poller) → step a garbage h p e ≡ done p' → AllFit a garbage h p' es)

-- One of the events meets a send that answers with an error, and those before it do not.
pub data Failing (a : Allocator) (garbage : Session) (h : Handlers)
    : Poller → List Event → Type 0 where
  fails_first :
      {p : Poller} {e : Event} {es : List Event} → FailsAt a h p e → Failing a garbage h p (e ∷ es)
  fails_later :
      {p p' : Poller} {e : Event} {es : List Event}
      → step a garbage h p e ≡ done p'
      → Failing a garbage h p' es
      → Failing a garbage h p (e ∷ es)

pub Failing-nonempty :
    (a : Allocator) (garbage : Session) (h : Handlers) (p : Poller) (es : List Event)
    → Failing a garbage h p es
    → es ≢ []
Failing-nonempty a garbage h p es (fails_first f) = λ e. absurd (cc)
Failing-nonempty a garbage h p es (fails_later run f) = λ e. absurd (cc)

-- loopOnce over any events returns, and the poller is ready again, with as many slots: the table is
-- valid, and both buffers of every session in it can be used; or it reads a null pointer, and then a
-- send for one of the events, whose socket was writable, answered with an error. It is started on a
-- ready poller; the events name slots of the table; the callbacks return and leave the poller ready;
-- the allocator grants its requests, with nothing in the memory of a session that makes reset free
-- or call anything; recv and send report no more bytes than they are asked for, and the sizes fit an
-- int.
pub loop_once-IsReady :
    (a : Allocator) (garbage : Session) (h : Handlers) (p : Poller) (es : List Event)
    → Grants a
    → Opens a garbage
    → AreSound h
    → IsReady p
    → AllFit a garbage h p es
    → Yields (λ p'. IsReady p' × (p'.max_id ≡ p.max_id)) (loop_once a garbage h p es)
      ⊎ ((loop_once a garbage h p es ≡ fault) × Failing a garbage h p es)
unfolding loop_once
loop_once-IsReady a garbage h p [] grants opens sound r fits = inl (p, refl, (r, refl))
loop_once-IsReady a garbage h p (e ∷ es) grants opens sound r (first, later) =
    elim (step-Next a garbage h opens sound grants p e r first) [
      | inr (bad, fails) ↦ inr (rw bad refl, fails_first fails)
      | inl (p', run, k) ↦
          elim (loop_once-IsReady a garbage h p' es grants opens sound k.ready (later p' run)) [
            | inl (q, ran, (ready, size)) ↦ inl (rw run (q, ran, (ready, size ∙ k.size)))
            | inr (bad, fails) ↦ inr (rw run bad, fails_later run fails)
          ]
    ]
