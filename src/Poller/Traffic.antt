-- ===== src/Poller/Traffic.antt =====
-- What postSend and handleReadEvent make of a poller that is ready.
use chain_socket.Base.{
  ℕ, zero, suc, ◌+◌, ◌*◌, ◌≤◌, ◌≡◌, refl, sym, ap, ◌∙◌, ◌⊎◌, subst, ◌≢◌, inl, inr, List, [], ◌∷◌,
  some, arith, ltb, ◌==◌, length, Bool-cases, get_elem?-in_range_inv, get_elem?-set_self,
  some-injective,
}
use chain_socket.Base.Outcome.{Outcome, done, ◌>>=◌, Yields}
use chain_socket.Buffer.{MessageBuffer, Allocator, buffer_size, int_max, push_back}
use chain_socket.Buffer.Contents.{Grants, erase_drops, push_back_appends}
use chain_socket.Session.{Session}
use chain_socket.Poller.{
  Poller, Handlers, Kernel, Status, RecvResult, SendResult, received, recv_again, recv_failed, sent,
  send_again, send_failed, success, failed, put, next_send, next_recv, after_send, post_send,
  after_recv, handle_read_event, send_to,
}
use chain_socket.Poller.Table.{session_at, IsTaken}
use chain_socket.Poller.Failure.{deref-some}
use chain_socket.Poller.Receive.{Received, after_recv-Received}
use chain_socket.Poller.Ready.{
  IsUsable, IsReady, Next, Next-refl, Next-trans, AreSound, kernel-Next, put-Next,
}

-- Asking the kernel for an answer only changes the kernel.
asked_recv :
    (p : Poller) (l : List RecvResult)
    → p.kernel.recvs ≡ l
    → (k : Kernel) × ((next_recv p).1 ≡ record p { kernel = k })
unfolding next_recv
asked_recv p [] e = (p.kernel, rw e refl)
asked_recv p (r ∷ rest) e = (record p.kernel { recvs = rest }, rw e refl)

asked_send :
    (p : Poller) (l : List SendResult)
    → p.kernel.sends ≡ l
    → (k : Kernel) × ((next_send p).1 ≡ record p { kernel = k })
unfolding next_send
asked_send p [] e = (p.kernel, rw e refl)
asked_send p (r ∷ rest) e = (record p.kernel { sends = rest }, rw e refl)

-- What recv may answer for the session in slot `id`: no more bytes than it was asked for, and a size
-- that fits an int.
abbrev pub RecvFits : Poller → ℕ → Type 0
RecvFits p id =
    (s : Session) (bytes : List ℕ)
    → session_at p id ≡ some (some s)
    → (next_recv p).0 ≡ received bytes
    → (s.read_buffer.size + length bytes ≤ s.read_buffer.capacity)
      × (s.read_buffer.size + length bytes + 3 * buffer_size ≤ int_max)

-- What send may answer: no more bytes than it was given.
abbrev pub SendFits : Poller → ℕ → Type 0
SendFits p id =
    (s : Session)
    → session_at p id ≡ some (some s)
    → s.write_buffer.size ≢ 0
    → (n : ℕ) → (next_send p).0 ≡ sent n
    → n ≤ s.write_buffer.size

-- The session in slot `id` has bytes to send, and send answers with an error.
abbrev pub SendFails : Poller → ℕ → Type 0
SendFails p id =
    (s : Session) × (session_at p id ≡ some (some s))
    × (s.write_buffer.size ≢ 0)
    × ((next_send p).0 ≡ send_failed)

-- The next state, behind a status.
abbrev pub NextBehind : Poller → Status × Poller → Type 0
NextBehind p r = Next p r.1

-- postSend reports success, or the failure of send with the session in its slot.
abbrev pub Posted : Poller → ℕ → Status × Poller → Type 0
Posted p id r = (r.0 ≡ success) ⊎ ((r.0 ≡ failed 3) × IsTaken r.1 id × SendFails p id)

callback :
    (p q : Poller) (r : Outcome Poller)
    → Next p q
    → Yields (Next q) r
    → Yields (NextBehind p) (r >>= λ p'. done (success, p'))
callback p q r k (p', e, l) = ((success, p'), rw e refl, Next-trans p q p' k l)

module _ (a : Allocator) (h : Handlers) (grants : Grants a) (sound : AreSound h) where
  received-Next :
      (p q : Poller) (id : ℕ) (s : Session) (byte : ℕ) (more : List ℕ)
      → Next p q
      → session_at q id ≡ some (some s)
      → s.read_buffer.size + length (byte ∷ more) ≤ s.read_buffer.capacity
      → s.read_buffer.size + length (byte ∷ more) + 3 * buffer_size ≤ int_max
      → Yields (NextBehind p) (after_recv a h q id s (received (byte ∷ more)))
  unfolding Received
  received-Next p q id s byte more k here room small =
      let u = k.ready.usable id s here in
      let (b, v, same, space, run) =
        after_recv-Received a h q id s byte more grants u.reads room small in
      let s' : Session = record s { read_buffer = b } in
      let q' = put q id (some s') in
      let l = put-Next q id (some s') k.ready (λ t e.
        let same_session : s' ≡ t = some-injective _ _ e in
        subst (λ x. (x.session_id ≡ id) × IsUsable x) same_session
          (
            k.ready.valid.named id s here,
            record { reads = v; writes = u.writes; typed = u.typed },
          )) in
      let taken : IsTaken q' id = (
        s',
        get_elem?-set_self q.sessions id (some s') (get_elem?-in_range_inv q.sessions id here),
      ) in
      let ran = sound.recv q' id (length (byte ∷ more)) l.ready taken in
      rw run (callback p q' _ (Next-trans p q q' k l) ran)

  after_recv-Next :
      (p q : Poller) (id : ℕ) (s : Session) (answer : RecvResult)
      → Next p q
      → session_at q id ≡ some (some s)
      → ((bytes : List ℕ)
          → answer ≡ received bytes
          → (s.read_buffer.size + length bytes ≤ s.read_buffer.capacity)
            × (s.read_buffer.size + length bytes + 3 * buffer_size ≤ int_max))
      → Yields (NextBehind p) (after_recv a h q id s answer)
  unfolding after_recv
  after_recv-Next p q id s recv_again k here fits = ((success, q), refl, k)
  after_recv-Next p q id s recv_failed k here fits = ((failed 4, q), refl, k)
  after_recv-Next p q id s (received []) k here fits = ((failed 3, q), refl, k)
  after_recv-Next p q id s (received (byte ∷ more)) k here fits =
      let (room, small) = fits (byte ∷ more) refl in
      received-Next p q id s byte more k here room small

  pub handle_read_event-Next :
      (p : Poller) (id : ℕ)
      → IsReady p
      → IsTaken p id
      → RecvFits p id
      → Yields (NextBehind p) (handle_read_event a h p id)
  unfolding handle_read_event
  handle_read_event-Next p id r (s, here) fits =
      let (k, asked) = asked_recv p p.kernel.recvs refl in
      let same : session_at (next_recv p).1 id ≡ some (some s) =
        ap (λ q. session_at q id) asked ∙ here in
      let next : Next p (next_recv p).1 = rw asked (kernel-Next p k r) in
      elim (Bool-cases (ltb s.read_buffer.max_size s.read_buffer.size)) [
        | inl over ↦ rw (deref-some p id here, over) ((failed 1, p), refl, Next-refl p r)
        | inr under ↦
            rw (deref-some p id here, under)
              (after_recv-Next p (next_recv p).1 id s (next_recv p).0 next same
                (λ bytes e. fits s bytes here e))
      ]

  after_send-Next :
      (p q : Poller) (id : ℕ) (s : Session) (answer : SendResult)
      → Next p q
      → session_at q id ≡ some (some s)
      → ((n : ℕ) → answer ≡ sent n → n ≤ s.write_buffer.size)
      → Yields
          (λ r.
            NextBehind p r
            × ((r.0 ≡ success) ⊎ ((r.0 ≡ failed 3) × (r.1 ≡ q) × (answer ≡ send_failed))))
          (after_send h q id s answer)
  unfolding after_send
  after_send-Next p q id s send_again k here fits = ((success, q), refl, (k, inl refl))
  after_send-Next p q id s send_failed k here fits =
      ((failed 3, q), refl, (k, inr (refl, refl, refl)))
  after_send-Next p q id s (sent zero) k here fits = ((success, q), refl, (k, inl refl))
  after_send-Next p q id s (sent (suc n)) k here fits =
      let u = k.ready.usable id s here in
      let (b, run, (v, same, size, cap)) =
        erase_drops s.write_buffer (suc n) u.writes (fits (suc n) refl) in
      let s' : Session = record s { write_buffer = b } in
      let q' = put q id (some s') in
      let l = put-Next q id (some s') k.ready (λ t e.
        let same_session : s' ≡ t = some-injective _ _ e in
        subst (λ x. (x.session_id ≡ id) × IsUsable x) same_session
          (
            k.ready.valid.named id s here,
            record { reads = u.reads; writes = v; typed = u.typed },
          )) in
      let taken : IsTaken q' id = (
        s',
        get_elem?-set_self q.sessions id (some s') (get_elem?-in_range_inv q.sessions id here),
      ) in
      let (p', ran, m) = sound.send q' id (suc n) l.ready taken in
      rw (run, ran) ((success, p'), refl, (Next-trans p q p' k (Next-trans q q' p' l m), inl refl))

  pub post_send-Next :
      (p : Poller) (id : ℕ)
      → IsReady p
      → IsTaken p id
      → SendFits p id
      → Yields (λ r. NextBehind p r × Posted p id r) (post_send h p id)
  unfolding post_send
  post_send-Next p id r (s, here) fits =
      let (k, asked) = asked_send p p.kernel.sends refl in
      let same : session_at (next_send p).1 id ≡ some (some s) =
        ap (λ q. session_at q id) asked ∙ here in
      let next : Next p (next_send p).1 = rw asked (kernel-Next p k r) in
      elim (Bool-cases (s.write_buffer.size == 0)) [
        | inl idle ↦ rw (deref-some p id here, idle) ((success, p), refl, (Next-refl p r, inl refl))
        | inr some_bytes ↦
            let full : s.write_buffer.size ≢ 0 = ground arith in
            let (res, run, (l, sends)) =
              after_send-Next p (next_send p).1 id s (next_send p).0 next same (fits s here full) in
            rw (deref-some p id here, some_bytes)
              (
                res,
                run,
                (
                  l,
                  elim sends [
                    | inl fine ↦ inl fine
                    | inr (bad, at, error) ↦
                        inr (
                          bad,
                          subst (λ q. IsTaken q id) (sym at) (s, same),
                          (s, here, full, error),
                        )
                  ],
                ),
              )
      ]

-- What sendTo may be given for the session in slot `id`, and what send may answer it.
abbrev pub SendToFits : Allocator → Poller → ℕ → List ℕ → Type 0
SendToFits a p id bytes =
    (s : Session)
    → session_at p id ≡ some (some s)
    → (s.write_buffer.size + length bytes + 3 * buffer_size ≤ int_max)
      × ((b : MessageBuffer)
          → push_back a s.write_buffer bytes ≡ done b
          → SendFits (put p id (some (record s { write_buffer = b }))) id)

pub send_to-Next :
    (a : Allocator) (h : Handlers) (p : Poller) (id : ℕ) (bytes : List ℕ)
    → Grants a
    → AreSound h
    → IsReady p
    → IsTaken p id
    → SendToFits a p id bytes
    → Yields (Next p) (send_to a h p id bytes)
unfolding send_to
send_to-Next a h p id bytes grants sound r (s, here) fits =
    let u = r.usable id s here in
    let (small, answers) = fits s here in
    let (b, run, (v, same, room)) =
      push_back_appends a s.write_buffer bytes grants u.writes small in
    let s' : Session = record s { write_buffer = b } in
    let p' = put p id (some s') in
    let k = put-Next p id (some s') r (λ t e.
      subst (λ x. (x.session_id ≡ id) × IsUsable x) (some-injective _ _ e)
        (r.valid.named id s here, record { reads = u.reads; writes = v; typed = u.typed })) in
    let taken : IsTaken p' id = (
      s',
      get_elem?-set_self p.sessions id (some s') (get_elem?-in_range_inv p.sessions id here),
    ) in
    elim (Bool-cases (ltb 0 s.write_buffer.size)) [
      | inl waiting ↦ rw (deref-some p id here, run, waiting) (p', refl, k)
      | inr idle ↦
          let ((status, q), ran, (l, ok)) =
            post_send-Next a h grants sound p' id k.ready taken (answers b run) in
          rw (deref-some p id here, run, idle, ran) (q, refl, Next-trans p p' q k l)
    ]
