-- ===== src/Hub/Tasks/Ready.antt =====
-- onTask keeps the hub ready.
use chain_socket.Base.{
  ℕ, ◌<◌, ◌≡◌, refl, ap, ◌∙◌, ◌≢◌, true, List, Option, none, some, ltb, arith, Option-cases,
  if◌then◌else◌, Bool-cases, inl, inr,
}
use chain_socket.Base.Outcome.{done, Yields, ◌>>=◌}
use chain_socket.Buffer.{Allocator}
use chain_socket.Buffer.Contents.{Grants}
use chain_socket.Session.{Session}
use chain_socket.Poller.{Poller, Handlers, slot}
use chain_socket.Poller.Table.{IsTaken, session_at}
use chain_socket.Poller.Table.{Opens}
use chain_socket.Poller.Ready.{AreSound}
use chain_socket.Poller.Traffic.{SendToFits, send_to-Next}
use chain_socket.Poller.Loop.{looked, close_session-Next}
use chain_socket.Hub.{HubHandlers, MsgHub}
use chain_socket.Hub.Wait.Round.{AreReady, IsReadyHub}
use chain_socket.Hub.Opens.{connect_to-IsReadyHub}
use chain_socket.Hub.Tasks.{
  Task, nothing, send_task, close_task, connect_task, unknown, ConnectionTask, is_current, Outside,
  run_task, on_task,
}

-- The task has a type and names a slot of the table; one that sends names a session, and its bytes
-- and the answer of send fit.
pub record TaskFits (a : Allocator) (p : Poller) (t : ConnectionTask) : Type 0 where
  pub inside : t.session_id < p.max_id
  pub typed : t.task ≢ nothing
  pub sends :
      (bytes : List ℕ)
      → t.task ≡ send_task bytes
      → (t.sess_ptr ≢ none) × SendToFits a p t.session_id bytes

current_session :
    (t : ConnectionTask) (o : Option Session) (id : ℕ)
    → t.sess_ptr ≡ some id
    → is_current t o ≡ true
    → (id ≡ t.session_id) × ((s : Session) × (o ≡ some s))
unfolding is_current
current_session t none id e current = absurd (let both = rw e at current in cc)
current_session t (some s) id e current =
    let same = rw e at current in (ground (arith, same), (s, refl))

module _ (a : Allocator) (garbage : Session) (hub : HubHandlers) (h : Handlers) (o : Outside)
    (m : MsgHub) (t : ConnectionTask) (grants : Grants a) (opens : Opens a garbage)
    (ready : AreReady hub) (sound : AreSound h) (r : IsReadyHub m)
    (fits : TaskFits a m.poller t) where
  run_task-IsReadyHub :
      (task : Task) (s : Option Session)
      → t.task ≡ task
      → session_at m.poller t.session_id ≡ some s
      → is_current t s ≡ true
      → Yields IsReadyHub (run_task a garbage hub h o m t task)
  unfolding run_task
  run_task-IsReadyHub nothing s e here current = absurd (fits.typed e)
  run_task-IsReadyHub unknown s e here current = (m, refl, r)
  run_task-IsReadyHub (send_task bytes) s e here current = elim (Bool-cases (ltb 16 t.len)) [
    | inr small ↦ rw small (m, refl, r)
    | inl long ↦ elim (Option-cases t.sess_ptr) [
      | inl null ↦ absurd ((fits.sends bytes e).0 null)
      | inr (id, to) ↦
          let (same, (s0, filled)) = current_session t s id to current in
          let taken : IsTaken m.poller t.session_id = (s0, here ∙ ap some filled) in
          let (p, run, k) =
            send_to-Next a h m.poller t.session_id bytes grants sound r.poller taken
              (fits.sends bytes e).1 in
          rw (long, to, same, run)
            (_, refl, record { poller = k.ready; watched = r.watched; timed = r.timed })
    ]
  ]
  run_task-IsReadyHub (close_task reason) s e here current = elim (Bool-cases (ltb 8 t.len)) [
    | inr small ↦ rw small (m, refl, r)
    | inl long ↦
        let (p, run, k) = close_session-Next m.poller t.session_id r.poller fits.inside in
        rw (long, run) (_, refl, record { poller = k.ready; watched = r.watched; timed = r.timed })
  ]
  run_task-IsReadyHub (connect_task ip port timeout) s e here current =
      elim (Bool-cases (ltb 136 t.len)) [
        | inr small ↦ rw small (m, refl, r)
        | inl long ↦
            let ((status, m'), run, k) =
              connect_to-IsReadyHub a garbage hub opens ready m o.fd ip port timeout o.fun o.now
                o.later o.attempt r in
            rw (long, run) (m', refl, k)
      ]

-- onTask that is given a task keeps the hub ready.
pub on_task-IsReadyHub :
    (a : Allocator) (garbage : Session) (hub : HubHandlers) (h : Handlers) (o : Outside)
    (m : MsgHub) (t : ConnectionTask)
    → Grants a
    → Opens a garbage
    → AreReady hub
    → AreSound h
    → IsReadyHub m
    → TaskFits a m.poller t
    → Yields IsReadyHub (on_task a garbage hub h o m (some t))
unfolding on_task
on_task-IsReadyHub a garbage hub h o m t grants opens ready sound r fits =
    elim (looked m.poller t.session_id r.poller fits.inside) [
      | inl (here, at) ↦ either none here at
      | inr (s, here, at) ↦ either (some s) here at
    ]
  where
    either :
        (s : Option Session)
        → session_at m.poller t.session_id ≡ some s
        → slot m.poller t.session_id ≡ done s
        → Yields IsReadyHub (do
          x ← slot m.poller t.session_id
          if is_current t x then run_task a garbage hub h o m t t.task else done m)
    either s here at = elim (Bool-cases (is_current t s)) [
      | inr stale ↦ rw (at, stale) (m, refl, r)
      | inl current ↦
          rw (at, current)
            (run_task-IsReadyHub a garbage hub h o m t grants opens ready sound r fits t.task s refl
              here current)
    ]
