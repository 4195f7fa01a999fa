-- ===== src/Hub/Wait/Round.antt =====
-- One waitMsg takes a hub that is ready to a hub that is ready.
use chain_socket.Base.{
  ℕ, ◌+◌, ◌^◌, ◌≤◌, ◌<◌, ◌≡◌, refl, sym, ◌∙◌, ap, List, [], ◌∷◌, Option, if◌then◌else◌, subst,
  Option-cases, inl, inr, ◌⊎◌,
}
use chain_socket.Base.Map.{lookup}
use chain_socket.Base.Outcome.{done, fault, done-injective, Yields, Yields-bind}
use chain_socket.Buffer.{Allocator}
use chain_socket.Buffer.Contents.{Grants}
use chain_socket.Session.{Session, connect}
use chain_socket.Poller.{Poller, Handlers, Event, loop_once}
use chain_socket.Poller.Table.{IsTaken, Opens, init_new_session-Found}
use chain_socket.Poller.Accept.{Keeps}
use chain_socket.Poller.Ready.{IsReady, Next, Next-refl, Next-trans, AreSound}
use chain_socket.Poller.Loop.{Found-Next, AllFit, Failing, loop_once-IsReady}
use chain_socket.Timer.Schedule.{deadline}
use chain_socket.Connect.{ConnectPoller, SockInfo, Ret, connected, refused, time_key}
use chain_socket.Connect.View.{view, checked}
use chain_socket.Connect.Check.{IsWatched}
use chain_socket.Connect.Result.{get_result, cleared, IsTimed, past}
use chain_socket.Connect.Result.Rounds.{get_result-checked}
use chain_socket.Hub.{HubHandlers, MsgHub, open_session, process_one, process_connect_sockets}
use chain_socket.Hub.Process.{Connects, AllPlaced, process_connect_sockets-AllPlaced}
use chain_socket.Hub.Wait.{wait_msg}

-- The hub's callbacks return and leave the poller ready.
pub record AreReady (hub : HubHandlers) : Type 0 where
  pub on_connect :
      (p : Poller) (id : ℕ) (ip : List ℕ) (port : ℕ)
      → IsReady p
      → IsTaken p id
      → Yields (Next p) (hub.on_connect p id ip port)
  pub on_connect_failed :
      (p : Poller) (ip : List ℕ) (port : ℕ) (type : Ret)
      → IsReady p
      → Yields (Next p) (hub.on_connect_failed p ip port type)

module _ (a : Allocator) (garbage : Session) (hub : HubHandlers) (opens : Opens a garbage)
    (ready : AreReady hub) where
  pub open_session-Next :
      (p : Poller) (fd : ℕ) (ip : List ℕ) (port : ℕ) (type : Ret)
      → IsReady p
      → Yields (λ r. Next p r.1) (open_session a garbage hub p fd ip port type)
  unfolding open_session
  open_session-Next p fd ip port type r =
      let ((p1, made), run, (found, v)) =
        init_new_session-Found a garbage p fd connect opens.0 r.valid in
      let (k, taken) =
        Found-Next a garbage p fd connect (p1, made) opens.1 (λ e. absurd (cc)) r found in
      elim (Option-cases made) [
        | inl e ↦
            let (q, ran, l) = ready.on_connect_failed p1 ip port type k.ready in
            rw (run ∙ ap (λ o. done (p1, o)) e, ran) (_, refl, Next-trans p p1 q k l)
        | inr (id, e) ↦
            let (q, ran, l) = ready.on_connect p1 id ip port k.ready (taken id e) in
            rw (run ∙ ap (λ o. done (p1, o)) e, ran) (_, refl, Next-trans p p1 q k l)
      ]

  process_one-Next :
      (p : Poller) (i : SockInfo) (ret : Ret)
      → IsReady p
      → Yields (Next p) (process_one a garbage hub p i ret)
  unfolding process_one
  process_one-Next p i refused r = ready.on_connect_failed p i.ip i.port refused r
  process_one-Next p i connected r =
      let ((status, q), run, k) = open_session-Next p i.fd i.ip i.port connected r in
      rw run (q, refl, k)

  process_connect_sockets-Next :
      (p : Poller) (is : List SockInfo)
      → IsReady p
      → Yields (Next p) (process_connect_sockets a garbage hub p is)
  unfolding process_connect_sockets
  process_connect_sockets-Next p [] r = (p, refl, Next-refl p r)
  process_connect_sockets-Next p (i ∷ is) r =
      Yields-bind (Next p) _ _ _ (process_one-Next p i i.ret r) λ q k.
        let (p', run, l) = process_connect_sockets-Next q is k.ready in
        (p', run, Next-trans p q p' k l)

-- Both parts of the hub are valid, and the timer of the checks is the only one.
pub record IsReadyHub (m : MsgHub) : Type 0 where
  pub poller : IsReady m.poller
  pub watched : IsWatched m.connects
  pub timed : IsTimed m.connects

-- What one waitMsg promises: the hub is ready again; every connecting socket has been judged if the
-- timer of the checks was due; and before the event loop ran, in a poller that kept its sessions
-- and their sockets, each socket that was found connected had a session or no slot was free.
pub record Waited (a : Allocator) (garbage : Session) (h : Handlers) (m : MsgHub) (now now' : ℕ)
    (answer : ℕ → Option ℕ) (es : List Event) (m' : MsgHub) : Type 0 where
  pub ready : IsReadyHub m'
  pub judged :
      (fd : ℕ)
      → view m'.connects fd ≡ (
          if past now (deadline m.connects.tm m.connects.connect_timer)
          then checked now' answer
              (lookup time_key fd m.connects.connect_time)
              (view (cleared m.connects) fd)
          else view (cleared m.connects) fd)
  pub placed :
      (p : Poller) × Keeps m.poller p
      × AllPlaced p m'.connects.result_map
      × (loop_once a garbage h p es ≡ done m'.poller)

-- waitMsg on a hub that is ready returns, unless the event loop reads a null pointer because a send
-- for an event whose socket is writable answered with an error. The hub is ready again; when the timer of the checks was
-- due, every connecting socket has been judged once, and there are no results otherwise; each
-- socket that was found connected got a session unless no slot was free, before the event loop ran,
-- and the sessions that were there kept their sockets until then. The callbacks return, leave the
-- poller ready and, for the hub's, keep sessions and their sockets; the allocator grants its
-- requests, with nothing in the memory of a session that makes reset free or call anything; the
-- clock is not within 10 ms of its end; two rounds of timers are allowed; recv and send report no
-- more bytes than they are asked for, and the sizes fit an int.
pub wait_msg-Waited :
    (fuel : ℕ) (a : Allocator) (garbage : Session) (hub : HubHandlers) (h : Handlers) (m : MsgHub)
    (now now' : ℕ) (answer : ℕ → Option ℕ) (es : List Event)
    → Grants a
    → Opens a garbage
    → AreReady hub
    → Connects hub
    → AreSound h
    → IsReadyHub m
    → now + 10 < 2 ^ 64
    → 2 ≤ fuel
    → ((c : ConnectPoller) (p : Poller)
        → get_result fuel now now' answer m.connects ≡ done c
        → process_connect_sockets a garbage hub m.poller c.result_map ≡ done p
        → AllFit a garbage h p es)
    → Yields
        (Waited a garbage h m now now' answer es)
        (wait_msg fuel a garbage hub h m now now' answer es)
      ⊎ ((wait_msg fuel a garbage hub h m now now' answer es ≡ fault)
          × (c : ConnectPoller) × (p : Poller) × (get_result fuel now now' answer m.connects
              ≡ done c)
          × (process_connect_sockets a garbage hub m.poller c.result_map ≡ done p)
          × Failing a garbage h p es)
unfolding wait_msg
wait_msg-Waited fuel a garbage hub h m now now' answer es grants opens ready keeps sound r fits
      enough plausible =
    let (c, run1, (watched, timed, judged)) =
      get_result-checked fuel now now' answer m.connects r.watched r.timed fits enough in
    let (p, run2, k) =
      process_connect_sockets-Next a garbage hub opens ready m.poller c.result_map r.poller in
    let (q, run2', (kept, placed)) =
      process_connect_sockets-AllPlaced a garbage hub m.poller c.result_map opens.0 keeps
        r.poller.valid in
    let one : q ≡ p = done-injective (sym run2' ∙ run2) in
    elim (loop_once-IsReady a garbage h p es grants opens sound k.ready (plausible c p run1 run2)) [
      | inr (bad, fails) ↦ inr (rw (run1, run2, bad) refl, c, p, run1, run2, fails)
      | inl (p', run3, (poller, size)) ↦ inl (
        record { poller = p'; connects = c },
        rw (run1, run2, run3) refl,
        record {
          ready = record { poller = poller; watched = watched; timed = timed };
          judged = judged;
          placed = (
            p,
            subst (Keeps m.poller) one kept,
            subst (λ x. AllPlaced x c.result_map) one placed,
            run3,
          );
        },
      )
    ]
