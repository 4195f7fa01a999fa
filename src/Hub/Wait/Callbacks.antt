-- ===== src/Hub/Wait/Callbacks.antt =====
-- The callbacks of the class MsgHub keep the hub ready.
use chain_socket.Base.{
  ℕ, ◌≡◌, refl, subst, Option, none, some, some-injective, get_elem?-set_self,
  get_elem?-in_range_inv,
}
use chain_socket.Base.Outcome.{Yields}
use chain_socket.Session.{Session}
use chain_socket.Poller.{Poller, put, post_recv, poll_add, base_on_accept}
use chain_socket.Poller.Table.{IsTaken, session_at}
use chain_socket.Poller.Failure.{deref-some}
use chain_socket.Poller.Ready.{
  IsUsable, IsReady, Next, Next-refl, Next-trans, AreSound, kernel-Next, put-Next,
}
use chain_socket.Hub.{on_connect, on_connect_failed, on_accept, on_recv, on_send}
use chain_socket.Hub.Process.{class_handlers}
use chain_socket.Hub.Sessions.{hub_handlers}
use chain_socket.Hub.Wait.Round.{AreReady}

-- A session with its counter reset.
abbrev beating : Session → Session
beating s = record s { heart_beats = 90 }

beating-Next :
    (p : Poller) (id : ℕ) (s : Session)
    → IsReady p
    → session_at p id ≡ some (some s)
    → Next p (put p id (some (beating s)))
      × (session_at (put p id (some (beating s))) id ≡ some (some (beating s)))
beating-Next p id s r here =
    let u = r.usable id s here in
    (
      put-Next p id (some (beating s)) r (λ t e.
          subst (λ x. (x.session_id ≡ id) × IsUsable x) (some-injective _ _ e)
            (
              r.valid.named id s here,
              record { reads = u.reads; writes = u.writes; typed = u.typed },
            )),
      get_elem?-set_self p.sessions id (some (beating s))
          (get_elem?-in_range_inv p.sessions id here),
    )

pub class_handlers-AreReady : AreReady class_handlers
unfolding on_connect on_connect_failed
class_handlers-AreReady = record {
  on_connect = λ p id ip port r (s, here).
      rw (deref-some p id here) (_, refl, (beating-Next p id s r here).0);
  on_connect_failed = λ p ip port type r. (p, refl, Next-refl p r);
}

accept_keeps :
    (p : Poller) (listener : Option ℕ) (aid : ℕ)
    → IsReady p
    → IsTaken p aid
    → Yields (λ q. Next p q × IsTaken q aid) (base_on_accept p listener aid)
unfolding base_on_accept
accept_keeps p none aid r taken = (p, refl, (Next-refl p r, taken))
accept_keeps p (some id) aid r (s, here) =
    let (k, at) = beating-Next p aid s r here in
    rw (deref-some p aid here) (_, refl, (k, (beating s, at)))

recv_posted : (p : Poller) (id : ℕ) → IsReady p → IsTaken p id → Yields (Next p) (post_recv p id)
unfolding post_recv poll_add
recv_posted p id r (s, here) = rw (deref-some p id here) (_, refl, kernel-Next p _ r)

pub hub_handlers-AreSound : AreSound hub_handlers
unfolding on_accept on_recv on_send
hub_handlers-AreSound = record {
  recv = λ p id n r taken. (p, refl, Next-refl p r);
  send = λ p id n r taken. (p, refl, Next-refl p r);
  accept = λ p listener aid r taken.
      let (q, run, (k, kept)) = accept_keeps p listener aid r taken in
      let (q', ran, l) = recv_posted q aid k.ready kept in
      rw (run, ran) (q', refl, Next-trans p q q' k l);
}
