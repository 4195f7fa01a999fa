-- ===== src/Connect/Result/Starts.antt =====
-- connectTo keeps the timer of the checks the only one.
use chain_socket.Base.{
  ℕ, ◌+◌, ◌<◌, ◌≡◌, refl, sym, ap, ◌∙◌, ◌≢◌, false, List, [], ◌∷◌, ◌==◌, arith, subst, ℕ_discrete,
  length, ltb, Bool-cases, inl, inr,
}
use chain_socket.Base.Outcome.{done-injective, Yields}
use chain_socket.Base.Map.{assign}
use chain_socket.Timer.{TimerManager, npos, circle, u64}
use chain_socket.Timer.Heap.{at}
use chain_socket.Timer.Schedule.{All, Sound}
use chain_socket.Timer.Control.{start-Started}
use chain_socket.Connect.{
  Pending, ConnectPoller, Attempt, established, pending, failed, try_connect, start_if_idle,
  after_try, connect_to, time_key,
}
use chain_socket.Connect.Check.{IsWatched}
use chain_socket.Connect.Start.{connect_to-IsWatched}
use chain_socket.Connect.Result.{Timed, IsTimed}
use chain_socket.Connect.Result.Fire.{armed}

-- Every entry of the heap is for the one timer.
entry_timer :
    (m : TimerManager) (t i : ℕ)
    → Sound All m
    → Timed m t
    → i < length m.heap
    → (at m.heap i).timer ≡ t
entry_timer m t i s timed h = elim (ℕ_discrete (at m.heap i).timer t) [
  | yes e ↦ e
  | no n ↦
      let index : (m.timers (at m.heap i).timer).heap_index ≢ npos =
        λ e. absurd (omega (arith, e, s.wired.indexed i h, s.small)) in
      let when = armed m (at m.heap i).timer index in
      absurd (let never = sym (timed.alone (at m.heap i).timer n) ∙ when in cc)
]

-- So there is at most one.
one_entry : (m : TimerManager) (t : ℕ) → Sound All m → Timed m t → length m.heap < npos
one_entry m t s timed = elim (Bool-cases (ltb 1 (length m.heap))) [
  | inr few ↦ ground arith
  | inl many ↦
      let two : 1 < length m.heap = ground arith in
      let low : 0 < length m.heap = omega arith in
      let at_0 = ap (λ u. (m.timers u).heap_index) (entry_timer m t 0 s timed low) in
      let at_1 = ap (λ u. (m.timers u).heap_index) (entry_timer m t 1 s timed two) in
      absurd (omega (arith, at_0, at_1, s.wired.indexed 0 low, s.wired.indexed 1 two))
]

start_if_idle-IsTimed :
    (ps : List Pending) (c : ConnectPoller) (fun now : ℕ)
    → Sound All c.tm
    → IsTimed c
    → length c.tm.heap < npos
    → Yields IsTimed (start_if_idle ps c fun now)
unfolding start_if_idle
start_if_idle-IsTimed [] c fun now s timed room =
    let t = c.connect_timer in
    let (tm, run, started) = start-Started c.tm t fun 10 circle now s room in
    (
      record c { tm = tm },
      rw run,
      record {
        alone = λ u n.
            let other : (u == t) ≡ false = ground arith in
            let same = rw other at (started.due_at u) in same ∙ timed.alone u n;
        periodic = λ n. (started.type_at, started.interval_at);
      },
    )
start_if_idle-IsTimed (p ∷ ps) c fun now s timed room = (c, refl, timed)

IsTimed-after :
    (c : ConnectPoller) (fd : ℕ) (ip : List ℕ) (port timeout fun now now' : ℕ) (attempt : Attempt)
    → Sound All c.tm
    → IsTimed c
    → Yields (λ (a, socket, c'). IsTimed c') (connect_to c fd ip port timeout fun now now' attempt)
unfolding connect_to try_connect after_try
IsTimed-after c fd ip port timeout fun now now' established s timed = (_, refl, timed)
IsTimed-after c fd ip port timeout fun now now' failed s timed =
    (_, refl, record { alone = timed.alone; periodic = timed.periodic })
IsTimed-after c fd ip port timeout fun now now' pending s timed =
    let p : Pending = record { fd = fd; limit_time = u64 (now + timeout); ip = ip; port = port } in
    let c1 : ConnectPoller = record c { connect_time = assign time_key c.connect_time p } in
    let (c', run, t) =
      start_if_idle-IsTimed c.connect_time c1 fun now' s
        (record { alone = timed.alone; periodic = timed.periodic })
        (one_entry c.tm c.connect_timer s timed) in
    ((pending, fd, c'), rw run refl, t)

pub connect_to-IsTimed :
    (c : ConnectPoller) (fd : ℕ) (ip : List ℕ) (port timeout fun now now' : ℕ) (attempt : Attempt)
    → IsWatched c
    → IsTimed c
    → Yields
        (λ (a, socket, c'). IsWatched c' × IsTimed c')
        (connect_to c fd ip port timeout fun now now' attempt)
connect_to-IsTimed c fd ip port timeout fun now now' attempt w timed =
    let room = one_entry c.tm c.connect_timer w.sound timed in
    let (r, run, (same, watched, kept)) =
      connect_to-IsWatched c fd ip port timeout fun now now' attempt w room in
    let (r', run', t) = IsTimed-after c fd ip port timeout fun now now' attempt w.sound timed in
    let one : r' ≡ r = done-injective (sym run' ∙ run) in
    (r, run, (watched, subst (λ x. IsTimed x.2) one t))
