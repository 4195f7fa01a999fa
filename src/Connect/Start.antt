-- ===== src/Connect/Start.antt =====
-- connectTo records a socket that is connecting, and sets the timer of the checks.
use chain_socket.Base.{
  ℕ, ◌+◌, ◌<◌, ◌≡◌, refl, sym, ◌∙◌, ◌≢◌, true, false, List, [], ◌∷◌, some, ◌==◌, if◌then◌else◌,
  arith, subst, ℕ_discrete, length,
}
use chain_socket.Base.Map.{
  lookup, assign, IsMap, lookup-assign_self, lookup-assign_ne, assign-IsMap,
}
use chain_socket.Base.Outcome.{Yields}
use chain_socket.Timer.{npos, u64, circle}
use chain_socket.Timer.Schedule.{deadline}
use chain_socket.Timer.Control.{start-Started}
use chain_socket.Connect.{
  Pending, ConnectPoller, time_key, info_key, Attempt, established, pending, failed, try_connect,
  start_if_idle, after_try, connect_to,
}
use chain_socket.Connect.View.{count, View, view}
use chain_socket.Connect.Check.{IsWatched}

start_if_idle-IsWatched :
    (ps : List Pending) (c : ConnectPoller) (next : List Pending) (fun now : ℕ)
    → IsWatched c
    → c.connect_time ≡ ps
    → IsMap time_key next
    → next ≢ []
    → length c.tm.heap < npos
    → Yields
        (λ c'. ((fd : ℕ) → view c' fd ≡ view (record c { connect_time = next }) fd) × IsWatched c')
        (start_if_idle ps (record c { connect_time = next }) fun now)
unfolding start_if_idle
start_if_idle-IsWatched [] c next fun now w e m full room =
    let (tm, run, started) = start-Started c.tm c.connect_timer fun 10 circle now w.sound room in
    let self : (c.connect_timer == c.connect_timer) ≡ true = ground arith in
    let due : deadline tm c.connect_timer ≡ some (u64 (10 + now)) =
      rw self at (started.due_at c.connect_timer) in
    (
      record c { tm = tm; connect_time = next },
      rw run,
      (
        λ fd. refl,
        record {
          sound = started.sound;
          sorted = m;
          watched = λ _ e'. cc;
          idle = λ n. absurd (full n);
        },
      ),
    )
start_if_idle-IsWatched (p ∷ ps) c next fun now w e m full room = (
  record c { connect_time = next },
  refl,
  (
    λ fd. refl,
    record {
      sound = w.sound;
      sorted = m;
      watched = λ _. w.watched (λ n. let both = sym e ∙ n in cc);
      idle = λ n. absurd (full n);
    },
  ),
)

assign_full : (ps : List Pending) (p : Pending) → assign time_key ps p ≢ []
assign_full ps p e =
    let found = lookup-assign_self time_key ps p in
    let both : lookup time_key p.fd [] ≡ some p = rw e at found in cc

-- The view of the socket of an attempt after connectTo.
abbrev pub tried : ConnectPoller → ℕ → List ℕ → ℕ → ℕ → ℕ → Attempt → View
tried c fd ip port timeout now established = view c fd
tried c fd ip port timeout now pending =
    let p : Pending = record { fd = fd; limit_time = u64 (now + timeout); ip = ip; port = port } in
    (some p, lookup info_key fd c.result_map, count fd c.closed)
tried c fd ip port timeout now failed =
    (lookup time_key fd c.connect_time, lookup info_key fd c.result_map, count fd c.closed + 1)

view-assign :
    (c : ConnectPoller) (p : Pending) (k : ℕ)
    → view (record c { connect_time = assign time_key c.connect_time p }) k ≡ (
        if p.fd == k
        then (some p, lookup info_key p.fd c.result_map, count p.fd c.closed)
        else view c k)
view-assign c p k = elim (ℕ_discrete p.fd k) [
  | yes e ↦
      let hit : (p.fd == k) ≡ true = ground arith in
      let own : view (record c { connect_time = assign time_key c.connect_time p }) p.fd
          ≡ (some p, lookup info_key p.fd c.result_map, count p.fd c.closed) =
        rw (lookup-assign_self time_key c.connect_time p) in
      rw hit (
        subst
          (λ j.
            view (record c { connect_time = assign time_key c.connect_time p }) j
            ≡ (some p, lookup info_key p.fd c.result_map, count p.fd c.closed))
          e own)
  | no n ↦
      let miss : (p.fd == k) ≡ false = ground arith in
      rw (miss, lookup-assign_ne time_key c.connect_time p k (λ e. n (sym e)))
]

-- connectTo on a valid poller of connects whose timer heap has room returns. A socket that is still
-- connecting is recorded with its time limit, and the timer of the checks is set from then on; one
-- that is connected is recorded nowhere; one whose attempt failed is closed once. Nothing changes
-- for any other socket.
pub connect_to-IsWatched :
    (c : ConnectPoller) (fd : ℕ) (ip : List ℕ) (port timeout fun now now' : ℕ) (attempt : Attempt)
    → IsWatched c
    → length c.tm.heap < npos
    → Yields
        (λ (a, socket, c').
          ((k : ℕ)
            → view c' k ≡ (if fd == k then tried c fd ip port timeout now attempt else view c k))
          × IsWatched c'
          × (a ≡ attempt))
        (connect_to c fd ip port timeout fun now now' attempt)
unfolding connect_to try_connect after_try
connect_to-IsWatched c fd ip port timeout fun now now' established w room =
    ((established, fd, c), refl, (λ k. ground arith, w, refl))
connect_to-IsWatched c fd ip port timeout fun now now' failed w room = (
  (failed, 0, record c { closed = fd ∷ c.closed }),
  refl,
  (
    λ k. elim (ℕ_discrete fd k) [
      | yes e ↦
          let hit : (fd == fd) ≡ true = ground arith in
          subst
            (λ j.
              view (record c { closed = fd ∷ c.closed }) j
              ≡ (if fd == j then tried c fd ip port timeout now failed else view c j))
            e (rw hit)
      | no n ↦ (let miss : (fd == k) ≡ false = ground arith in rw miss)
    ],
    record { sound = w.sound; sorted = w.sorted; watched = w.watched; idle = w.idle },
    refl,
  ),
)
connect_to-IsWatched c fd ip port timeout fun now now' pending w room =
    let p : Pending = record { fd = fd; limit_time = u64 (now + timeout); ip = ip; port = port } in
    let next = assign time_key c.connect_time p in
    let (c', run, (same, ok)) =
      start_if_idle-IsWatched c.connect_time c next fun now' w refl
        (assign-IsMap time_key c.connect_time p w.sorted) (assign_full c.connect_time p) room in
    ((pending, fd, c'), rw run, (λ k. same k ∙ view-assign c p k, ok, refl))
