-- ===== src/Hub/Process.antt =====
-- processConnectSockets gives every connected socket a session while there is a free slot.
use chain_socket.Base.{
  ℕ, ◌+◌, ◌-◌, ◌%◌, ◌<◌, ◌≡◌, refl, ap, ◌∙◌, subst, ◌⊎◌, inl, inr, List, [], ◌∷◌, Option, some,
  arith, leb, Bool-cases,
}
use chain_socket.Base.Outcome.{done, Yields, Yields-bind}
use chain_socket.Buffer.{Allocator}
use chain_socket.Session.{Session, connect}
use chain_socket.Poller.{Poller, set_up, init_new_session}
use chain_socket.Poller.Table.{
  IsValid, CanOpen, IsTaken, session_at, Found, full, first_free, init_new_session-Found,
}
use chain_socket.Poller.Accept.{
  Keeps, Keeps-refl, Keeps-trans, fresh, grown, grown_here, grown-Keeps,
}
use chain_socket.Connect.{SockInfo, Ret, connected, refused}
use chain_socket.Poller.Failure.{deref-some}
use chain_socket.Hub.{
  HubHandlers, on_connect, on_connect_failed, open_session, process_one, process_connect_sockets,
}
use chain_socket.Hub.Sessions.{IsFull, beaten, beaten-IsValid, beaten_held}

-- The hub's callbacks return, and keep sessions and their sockets.
pub record Connects (h : HubHandlers) : Type 0 where
  pub on_connect :
      (p : Poller) (id : ℕ) (s : Session) (ip : List ℕ) (port : ℕ)
      → IsValid p
      → session_at p id ≡ some (some s)
      → Yields (Keeps p) (h.on_connect p id ip port)
  pub on_connect_failed :
      (p : Poller) (ip : List ℕ) (port : ℕ) (type : Ret)
      → IsValid p
      → Yields (Keeps p) (h.on_connect_failed p ip port type)

-- The callbacks of the class.
abbrev pub class_handlers : HubHandlers
class_handlers = record { on_connect = on_connect; on_connect_failed = on_connect_failed }

pub class_handlers-Connects : Connects class_handlers
unfolding on_connect on_connect_failed
class_handlers-Connects = record {
  on_connect = λ p id s ip port v here. (
    beaten p id s v here,
    rw (deref-some p id here),
    record {
      valid = beaten-IsValid p id s v here;
      size = refl;
      held = beaten_held p id s v here;
      added = ([], refl);
    },
  );
  on_connect_failed = λ p ip port type v. (p, refl, Keeps-refl p v);
}

-- A session has the socket, or no slot is free.
abbrev pub Placed : Poller → ℕ → Type 0
Placed p fd = ((i : ℕ) × (s : Session) × (session_at p i ≡ some (some s)) × (s.fd ≡ fd)) ⊎ IsFull p

Placed-Keeps : (p q : Poller) (fd : ℕ) → Keeps p q → Placed p fd → Placed q fd
Placed-Keeps p q fd k (inl (i, s, here, same)) =
    let (s', here', same') = k.held i s here in inl (i, s', here', same' ∙ same)
Placed-Keeps p q fd k (inr all) = inr λ i h.
    let (s, here) = all i (omega (arith, k.size)) in
    let (s', here', same) = k.held i s here in (s', here')

-- Every socket that has connected has a place.
pub AllPlaced : Poller → List SockInfo → Type 0
AllPlaced p [] = Unit
AllPlaced p (i ∷ is) = (i.ret ≡ connected → Placed p i.fd) × AllPlaced p is

-- The slots from the cursor on, once around the table, are all of them.
around :
    (p : Poller)
    → IsValid p
    → ((j : ℕ) → j < p.max_id → IsTaken p ((p.cur_id + j) % p.max_id))
    → IsFull p
around p v all i h = elim (Bool-cases (leb p.cur_id i)) [
  | inl after ↦
      let back : (p.cur_id + (i - p.cur_id)) % p.max_id ≡ i = grind (arith, h) in
      subst (IsTaken p) back (all (i - p.cur_id) (omega arith))
  | inr before ↦
      let below : i < p.cur_id = ground arith in
      let sum : p.cur_id + (i + p.max_id - p.cur_id) ≡ i + p.max_id = omega (arith, v.cursor) in
      let back : (i + p.max_id) % p.max_id ≡ i = grind (arith, h) in
      subst (IsTaken p) (ap (λ n. n % p.max_id) sum ∙ back)
        (all (i + p.max_id - p.cur_id) (omega (arith, v.cursor)))
]

module _ (a : Allocator) (garbage : Session) (h : HubHandlers) (can : CanOpen a garbage)
    (c : Connects h) where
  placed :
      (p : Poller) (i : SockInfo) (r : Poller × Option ℕ)
      → IsValid p
      → Found a garbage p i.fd connect r
      → IsValid r.0
      → init_new_session a garbage p i.fd connect ≡ done r
      → Yields (λ p'. Keeps p p' × Placed p' i.fd) (process_one a garbage h p i connected)
  unfolding process_one open_session set_up
  placed p i r v (full all e) ok run =
      let (p', ran, keeps) = c.on_connect_failed p i.ip i.port connected v in
      (p', rw (run ∙ ap done e, ran), (keeps, Placed-Keeps p p' i.fd keeps (inr (around p v all))))
  placed p i r v (first_free k id below place before free e) ok run =
      let q = grown a garbage p i.fd (k + 1) id connect free in
      let valid : IsValid q = rw e at ok in
      let kept = grown-Keeps a garbage p i.fd (k + 1) id connect free valid in
      let here = grown_here a garbage p i.fd (k + 1) id connect free in
      let (p', ran, keeps) = c.on_connect q id _ i.ip i.port valid here in
      (
        p',
        rw (run ∙ ap done e, ran),
        (
          Keeps-trans p q p' kept keeps,
          Placed-Keeps q p' i.fd keeps
              (inl (id, fresh a garbage p i.fd (k + 1) id connect free, here, refl)),
        ),
      )

  process_one-Placed :
      (p : Poller) (i : SockInfo) (ret : Ret)
      → IsValid p
      → Yields
          (λ p'. Keeps p p' × (ret ≡ connected → Placed p' i.fd))
          (process_one a garbage h p i ret)
  unfolding process_one
  process_one-Placed p i connected v =
      let (r, run, (found, ok)) = init_new_session-Found a garbage p i.fd connect can v in
      let (p', ran, (keeps, at)) = placed p i r v found ok run in (p', ran, (keeps, λ _. at))
  process_one-Placed p i refused v =
      let (p', ran, keeps) = c.on_connect_failed p i.ip i.port refused v in
      (p', ran, (keeps, λ e. absurd (cc)))

AllPlaced-Keeps : (p q : Poller) (is : List SockInfo) → Keeps p q → AllPlaced p is → AllPlaced q is
unfolding AllPlaced
AllPlaced-Keeps p q [] k all = tt
AllPlaced-Keeps p q (i ∷ is) k (first, rest) =
    (λ e. Placed-Keeps p q i.fd k (first e), AllPlaced-Keeps p q is k rest)

-- On a valid table, with callbacks that return and keep sessions and their sockets, and when malloc
-- grants the memory of a session with nothing in it that makes reset free or call anything,
-- processConnectSockets returns: the table is valid, every session that was there is there with its
-- socket, and each connected socket has a session unless no slot is free.
pub process_connect_sockets-AllPlaced :
    (a : Allocator) (garbage : Session) (h : HubHandlers) (p : Poller) (is : List SockInfo)
    → CanOpen a garbage
    → Connects h
    → IsValid p
    → Yields (λ p'. Keeps p p' × AllPlaced p' is) (process_connect_sockets a garbage h p is)
unfolding process_connect_sockets AllPlaced
process_connect_sockets-AllPlaced a garbage h p [] can c v = (p, refl, (Keeps-refl p v, tt))
process_connect_sockets-AllPlaced a garbage h p (i ∷ is) can c v =
    Yields-bind (λ p'. Keeps p p' × (i.ret ≡ connected → Placed p' i.fd)) _ _ _
      (process_one-Placed a garbage h can c p i i.ret v)
      λ q (k, one).
        let (p', run, (k', all)) =
          process_connect_sockets-AllPlaced a garbage h q is can c k.valid in
        (p', run, (Keeps-trans p q p' k k', (λ e. Placed-Keeps q p' i.fd k' (one e), all)))
