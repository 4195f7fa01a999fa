-- ===== src/Poller/Accept.antt =====
-- The LISTEN case of Poller::loopOnce: every socket that accept returns gets a session or is closed.
use chain_socket.Base.{
  ℕ, zero, suc, ◌+◌, ◌<◌, ◌≡◌, refl, sym, ap, ◌∙◌, subst, ◌⊎◌, inl, inr, List, [], ◌∷◌, ◌++◌,
  append_assoc, Option, none, some, arith, get_elem?-in_range, get_elem?-in_range_inv,
  get_elem?-set_self, get_elem?-set_ne,
}
use chain_socket.Base.Outcome.{done, ◌>>=◌, Yields, Yields-bind, >>=_assoc}
use chain_socket.Buffer.{Allocator}
use chain_socket.Session.{Session, SessionType, accept}
use chain_socket.Poller.{
  Poller, Handlers, Syscall, slot, put, syscall, closes, set_up, init_new_session, accepted,
  accept_loop, accept_event,
}
use chain_socket.Poller.Table.{
  IsValid, CanOpen, session_at, slot-some, Found, full, first_free, init_new_session-Found, turned,
}

-- The table is valid and as large as before, a slot with a session still has one with the same
-- socket, and calls have only been added.
pub record Keeps (p p' : Poller) : Type 0 where
  pub valid : IsValid p'
  pub size : p'.max_id ≡ p.max_id
  pub held :
      (i : ℕ) (s : Session)
      → session_at p i ≡ some (some s)
      → (s' : Session) × (session_at p' i ≡ some (some s')) × (s'.fd ≡ s.fd)
  pub added : (new : List Syscall) × (p'.kernel.calls ≡ new ++ p.kernel.calls)

pub Keeps-refl : (p : Poller) → IsValid p → Keeps p p
Keeps-refl p v = record { valid = v; size = refl; held = λ i s e. (s, e, refl); added = ([], refl) }

pub Keeps-trans : (p q r : Poller) → Keeps p q → Keeps q r → Keeps p r
Keeps-trans p q r k l = record {
  valid = l.valid;
  size = l.size ∙ k.size;
  held = λ i s e.
      let (s', e', f') = k.held i s e in
      let (s'', e'', f'') = l.held i s' e' in (s'', e'', f'' ∙ f');
  added =
      let (new, e) = k.added in
      let (newer, e') = l.added in
      (newer ++ new, e' ∙ ap (λ c. newer ++ c) e ∙ sym (append_assoc newer new p.kernel.calls));
}

-- A session has the socket, or the socket has been closed.
abbrev pub Served : Poller → ℕ → Type 0
Served p fd =
    ((i : ℕ) × (s : Session) × (session_at p i ≡ some (some s)) × (s.fd ≡ fd))
    ⊎ ((new old : List Syscall) × (p.kernel.calls ≡ new ++ closes fd ∷ old))

Served-Keeps : (p q : Poller) (fd : ℕ) → Keeps p q → Served p fd → Served q fd
Served-Keeps p q fd k (inl (i, s, here, same)) =
    let (s', here', same') = k.held i s here in inl (i, s', here', same' ∙ same)
Served-Keeps p q fd k (inr (new, old, e)) =
    let (newer, e') = k.added in
    inr (
      newer ++ new,
      old,
      e' ∙ ap (λ c. newer ++ c) e ∙ sym (append_assoc newer new (closes fd ∷ old)),
    )

-- What accept returned up to the first 0, at which the code stops: all of it is served.
pub Handled : Poller → List ℕ → Type 0
Handled p [] = Unit
Handled p (zero ∷ fds) = Unit
Handled p (suc n ∷ fds) = Served p (suc n) × Handled p fds

-- onAccept returns, and keeps sessions and their sockets.
abbrev pub Accepts : Handlers → Type 0
Accepts h =
    (p : Poller) (listener : Option ℕ) (aid : ℕ) (s : Session)
    → IsValid p
    → session_at p aid ≡ some (some s)
    → Yields (Keeps p) (h.on_accept p listener aid)

-- What the handling of one accepted socket makes of the poller.
abbrev Serves : Poller → ℕ → Poller → Type 0
Serves p fd p' = Keeps p p' × Served p' fd

closed-Serves : (p : Poller) (fd : ℕ) → IsValid p → Serves p fd (syscall p (closes fd))
closed-Serves p fd v = (
  record {
    valid = record { size = v.size; cursor = v.cursor; named = v.named };
    size = refl;
    held = λ i s e. (s, e, refl);
    added = (closes fd ∷ [], refl);
  },
  inr ([], p.kernel.calls, refl),
)

taken_elsewhere :
    (p : Poller) (id i : ℕ) (s : Session) (o : Option Session)
    → session_at p id ≡ some none
    → session_at p i ≡ some (some s)
    → session_at (put p id o) i ≡ some (some s)
taken_elsewhere p id i s o free here =
    get_elem?-set_ne p.sessions o (λ e. absurd (let both = rw e at free in cc)) ∙ here

-- The table with a new session in a free slot.
module _ (a : Allocator) (garbage : Session) (p : Poller) (fd k id : ℕ) (type : SessionType)
    (free : session_at p id ≡ some none) where
  abbrev pub fresh : Session
  fresh = set_up a garbage id fd type

  abbrev pub grown : Poller
  grown = put (turned p k) id (some fresh)

  pub grown_here : session_at grown id ≡ some (some fresh)
  grown_here =
      get_elem?-set_self p.sessions id (some fresh) (get_elem?-in_range_inv p.sessions id free)

  pub grown-Keeps : IsValid grown → Keeps p grown
  grown-Keeps v = record {
    valid = v;
    size = refl;
    held = λ i s e. (s, taken_elsewhere p id i s (some fresh) free e, refl);
    added = ([], refl);
  }

  grown-Served : Served grown fd
  unfolding set_up
  grown-Served = inl (id, fresh, grown_here, refl)

slot-in_range :
    (p : Poller) (id : ℕ) → IsValid p → id < p.max_id → (o : Option Session) × (slot p id ≡ done o)
slot-in_range p id v h =
    let (o, here) = get_elem?-in_range p.sessions id (omega (arith, v.size)) in
    (o, slot-some p id here)

accept_one-Serves :
    (a : Allocator) (garbage : Session) (h : Handlers) (p : Poller) (id fd : ℕ)
    → CanOpen a garbage
    → Accepts h
    → IsValid p
    → id < p.max_id
    → Yields
        (Serves p fd)
        (init_new_session a garbage p fd accept >>= λ (p1, made). accepted h p1 id fd made)
unfolding accepted
accept_one-Serves a garbage h p id fd can acc v inside =
    Yields-bind _ _ (init_new_session a garbage p fd accept) _
      (init_new_session-Found a garbage p fd accept can v) λ r (found, v'). served r found v'
  where
    served :
        (r : Poller × Option ℕ)
        → Found a garbage p fd accept r
        → IsValid r.0
        → Yields (Serves p fd) (accepted h r.0 id fd r.1)
    served r (full all e) v' = rw e (syscall p (closes fd), refl, closed-Serves p fd v)
    served r (first_free k sid below at taken free e) v' =
        let valid : IsValid (grown a garbage p fd (k + 1) sid accept free) = rw e at v' in
        let kept = grown-Keeps a garbage p fd (k + 1) sid accept free valid in
        let (o, looked) =
          slot-in_range (grown a garbage p fd (k + 1) sid accept free) id valid inside in
        let (p', ran, keeps) =
          acc (grown a garbage p fd (k + 1) sid accept free)
            (elim o [ none ↦ none | some s ↦ some id ]) sid _ valid
            (grown_here a garbage p fd (k + 1) sid accept free) in
        rw e (
          rw (looked, ran)
            (
              p',
              refl,
              (
                Keeps-trans _ _ _ kept keeps,
                Served-Keeps _ _ fd keeps (grown-Served a garbage p fd (k + 1) sid accept free),
              ),
            ))

Handled-Keeps : (p q : Poller) (fds : List ℕ) → Keeps p q → Handled p fds → Handled q fds
unfolding Handled
Handled-Keeps p q [] k all = tt
Handled-Keeps p q (zero ∷ fds) k all = tt
Handled-Keeps p q (suc n ∷ fds) k (first, rest) =
    (Served-Keeps p q (suc n) k first, Handled-Keeps p q fds k rest)

accept_loop-Handled :
    (a : Allocator) (garbage : Session) (h : Handlers) (p : Poller) (id : ℕ) (fds : List ℕ)
    → CanOpen a garbage
    → Accepts h
    → IsValid p
    → id < p.max_id
    → Yields (λ p'. Keeps p p' × Handled p' fds) (accept_loop a garbage h p id fds)
unfolding accept_loop Handled
accept_loop-Handled a garbage h p id [] can acc v inside = (p, refl, (Keeps-refl p v, tt))
accept_loop-Handled a garbage h p id (zero ∷ fds) can acc v inside = (
  record p { kernel = record p.kernel { accepts = fds } },
  refl,
  (
    record {
      valid = record { size = v.size; cursor = v.cursor; named = v.named };
      size = refl;
      held = λ i s e. (s, e, refl);
      added = ([], refl);
    },
    tt,
  ),
)
accept_loop-Handled a garbage h p id (suc n ∷ fds) can acc v inside =
    subst (Yields (λ p'. Keeps p p' × (Served p' (suc n) × Handled p' fds)))
      (>>=_assoc (init_new_session a garbage p (suc n) accept) _ _)
      (Yields-bind (Serves p (suc n)) _ _ _
        (accept_one-Serves a garbage h p id (suc n) can acc v inside)
        λ p2 (k, one).
          let (p', run, (k', all)) =
            accept_loop-Handled a garbage h p2 id fds can acc k.valid (omega (arith, k.size)) in
          (p', run, (Keeps-trans p p2 p' k k', (Served-Keeps p2 p' (suc n) k' one, all))))

-- When a listening socket is reported, in a valid table and with an onAccept that returns and keeps
-- sessions and their sockets, and malloc grants the memory of a session with nothing in it that
-- makes reset free or call anything, the handling returns: the table is valid, every session that was
-- there is there with its socket, and each socket that accept returned, up to the first 0, either
-- belongs to a session or has been closed.
pub accept_event-Handled :
    (a : Allocator) (garbage : Session) (h : Handlers) (p : Poller) (id : ℕ)
    → CanOpen a garbage
    → Accepts h
    → IsValid p
    → id < p.max_id
    → Yields (λ p'. Keeps p p' × Handled p' p.kernel.accepts) (accept_event a garbage h p id)
unfolding accept_event
accept_event-Handled a garbage h p id can acc v inside =
    let p0 = record p { kernel = record p.kernel { accepts = [] } } in
    let v0 : IsValid p0 = record { size = v.size; cursor = v.cursor; named = v.named } in
    let (p', run, (k, all)) =
      accept_loop-Handled a garbage h p0 id p.kernel.accepts can acc v0 inside in
    (p', run, (record { valid = k.valid; size = k.size; held = k.held; added = k.added }, all))
