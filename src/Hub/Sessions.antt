-- ===== src/Hub/Sessions.antt =====
-- The hub's sessions: its onAccept keeps the promise that the poller asks of callbacks, and a full
-- table gives a connected socket neither a session nor a close.
use native.Mathlib.Nat.{mod-lt}
use chain_socket.Base.{
  true, false, ℕ, ◌+◌, ◌<◌, ◌≡◌, refl, sym, ap, ◌∙◌, List, [], ◌∷◌, Option, none, some,
  some-injective, arith, ℕ_discrete, get_elem?-set_self, get_elem?-set_ne, get_elem?-in_range_inv,
}
use chain_socket.Base.Outcome.{done, Yields}
use chain_socket.Buffer.{Allocator}
use chain_socket.Session.{Session, connect}
use chain_socket.Poller.{
  Poller, Handlers, Syscall, put, syscall, adds, post_recv, poll_add, base_on_accept,
  init_new_session, accept_event,
}
use chain_socket.Poller.Table.{
  IsValid, CanOpen, IsTaken, session_at, put-IsValid, Found, full, first_free,
  init_new_session-Found,
}
use chain_socket.Poller.Failure.{deref-some}
use chain_socket.Poller.Accept.{Keeps, Handled, accept_event-Handled}
use chain_socket.Connect.{SockInfo, connected, refused, Ret}
use chain_socket.Hub.{
  HubHandlers, open_session, process_one, process_connect_sockets, on_accept, on_recv, on_send,
}

module _ (p : Poller) (id : ℕ) (s : Session) (v : IsValid p)
    (here : session_at p id ≡ some (some s)) where
  abbrev pub beating : Session
  beating = record s { heart_beats = 90 }

  abbrev pub beaten : Poller
  beaten = put p id (some beating)

  -- The same session with its counter reset, and a call added.
  pub beaten_here : session_at beaten id ≡ some (some beating)
  beaten_here =
      get_elem?-set_self p.sessions id (some beating) (get_elem?-in_range_inv p.sessions id here)

  pub beaten-IsValid : IsValid beaten
  beaten-IsValid =
      put-IsValid p id (some beating) v
        (λ s' e. sym (ap (λ t. t.session_id) (some-injective _ _ e)) ∙ v.named id s here)

  pub beaten_held :
      (i : ℕ) (t : Session)
      → session_at p i ≡ some (some t)
      → (s' : Session) × (session_at beaten i ≡ some (some s')) × (s'.fd ≡ t.fd)
  beaten_held i t e = elim (ℕ_discrete id i) [
    | yes same ↦
        let one : s ≡ t = some-injective _ _ (some-injective _ _ (sym here ∙ rw (← same) at e)) in
        (beating, rw (← same) beaten_here, ap (λ u. u.fd) one)
    | no other ↦ (t, get_elem?-set_ne p.sessions (some beating) other ∙ e, refl)
  ]

added-Keeps :
    (p q : Poller) (c : Syscall)
    → IsValid q
    → (q.max_id ≡ p.max_id)
    → ((i : ℕ) (t : Session)
        → session_at p i ≡ some (some t)
        → (s' : Session) × (session_at q i ≡ some (some s')) × (s'.fd ≡ t.fd))
    → q.kernel.calls ≡ p.kernel.calls
    → Keeps p (syscall q c)
added-Keeps p q c v size held calls = record {
  valid = record { size = v.size; cursor = v.cursor; named = v.named };
  size = size;
  held = held;
  added = (c ∷ [], ap (λ cs. c ∷ cs) calls);
}

on_accept-Keeps :
    (p : Poller) (listener : Option ℕ) (aid : ℕ) (s : Session)
    → IsValid p
    → session_at p aid ≡ some (some s)
    → Yields (Keeps p) (on_accept p listener aid)
unfolding on_accept base_on_accept post_recv poll_add
on_accept-Keeps p none aid s v here = (
  syscall p (adds s.fd true false false s.session_id),
  rw (deref-some p aid here),
  added-Keeps p p _ v refl (λ i t e. (t, e, refl)) refl,
)
on_accept-Keeps p (some id) aid s v here = (
  syscall (beaten p aid s v here) (adds s.fd true false false s.session_id),
  rw (deref-some p aid here, deref-some (beaten p aid s v here) aid (beaten_here p aid s v here)),
  added-Keeps p (beaten p aid s v here) _ (beaten-IsValid p aid s v here) refl
      (beaten_held p aid s v here) refl,
)

-- The callbacks of the class.
abbrev pub hub_handlers : Handlers
hub_handlers = record { on_recv = on_recv; on_send = on_send; on_accept = on_accept }

-- With the callbacks of the hub, the handling of a listening socket in a valid table returns, when a
-- session can be opened: the
-- table is valid, every session that was there is there with its socket, and each socket that
-- accept returned, up to the first 0, either belongs to a session or has been closed.
pub hub_accepts :
    (a : Allocator) (garbage : Session) (p : Poller) (id : ℕ)
    → CanOpen a garbage
    → IsValid p
    → id < p.max_id
    → Yields
        (λ p'. Keeps p p' × Handled p' p.kernel.accepts)
        (accept_event a garbage hub_handlers p id)
hub_accepts a garbage p id can v inside =
    accept_event-Handled a garbage hub_handlers p id can on_accept-Keeps v inside

-- No slot is free.
abbrev pub IsFull : Poller → Type 0
IsFull p = (i : ℕ) → i < p.max_id → IsTaken p i

init_new_session-full :
    (a : Allocator) (garbage : Session) (p : Poller) (fd : ℕ)
    → CanOpen a garbage
    → IsValid p
    → IsFull p
    → init_new_session a garbage p fd connect ≡ done (p, none)
init_new_session-full a garbage p fd can v taken =
    let (r, run, (found, ok)) = init_new_session-Found a garbage p fd connect can v in
    run ∙ ap done (nothing r found)
  where
    nothing : (r : Poller × Option ℕ) → Found a garbage p fd connect r → r ≡ (p, none)
    nothing r (full all e) = e
    nothing r (first_free k id below place before free e) =
        let (s, used) =
          taken id (omega (arith, mod-lt (p.cur_id + k) {m = p.max_id} (omega arith))) in
        absurd (let both = sym free ∙ used in cc)

-- In a full table with an onConnectFailed that does nothing, and with memory for a session, the hub
-- drops the sockets that have connected: no session is made, and none of the sockets is closed.
pub process_connect_sockets-full :
    (a : Allocator) (garbage : Session) (h : HubHandlers) (p : Poller) (is : List SockInfo)
    → CanOpen a garbage
    → IsValid p
    → IsFull p
    → ((q : Poller) (ip : List ℕ) (port : ℕ) (type : Ret)
        → h.on_connect_failed q ip port type ≡ done q)
    → process_connect_sockets a garbage h p is ≡ done p
unfolding process_connect_sockets process_one open_session
process_connect_sockets-full a garbage h p [] can v taken nothing = refl
process_connect_sockets-full a garbage h p (i ∷ is) can v taken nothing =
    rw (one i i.ret) (process_connect_sockets-full a garbage h p is can v taken nothing)
  where
    one : (i : SockInfo) (r : Ret) → process_one a garbage h p i r ≡ done p
    one i connected =
        rw (init_new_session-full a garbage p i.fd can v taken, nothing p i.ip i.port connected)
    one i refused = nothing p i.ip i.port refused
