-- ===== src/SelectPoller/Fill.antt =====
-- The sets that are given to select(), and what the events of a set of clients are.
use chain_socket.Base.{
  ℕ, none, ◌+◌, ◌≤◌, ◌<◌, ◌≡◌, refl, ap, Bool, true, false, ◌&&◌, ◌||◌, List, [], ◌∷◌, ◌++◌, arith,
  ltb, if◌then◌else◌, Bool-cases, inl, inr,
}
use chain_socket.Base.Outcome.{done, Yields}
use chain_socket.SelectPoller.{SocketData, FdSets, fd_set, fd_isset, fill, Select, event}

-- The clients are open sockets whose numbers fit in a set.
abbrev pub AllSockets : List SocketData → Type 0
AllSockets [] = Unit
AllSockets (e ∷ es) = (0 < e.fd) × (e.fd < 1024) × AllSockets es

-- The sets tell for each client what is asked of it.
abbrev pub Asked : List SocketData → FdSets → Type 0
Asked [] s = Unit
Asked (e ∷ es) s =
    (e.flag.read ≡ true → fd_isset e.fd s.reads ≡ true)
    × (e.flag.write ≡ true → fd_isset e.fd s.writes ≡ true)
    × (e.fd ≤ s.max_sock)
    × Asked es s

-- The second sets have all that the first have.
pub record Grows (s s' : FdSets) : Type 0 where
  reads : (fd : ℕ) → fd_isset fd s.reads ≡ true → fd_isset fd s'.reads ≡ true
  writes : (fd : ℕ) → fd_isset fd s.writes ≡ true → fd_isset fd s'.writes ≡ true
  max_sock : s.max_sock ≤ s'.max_sock

-- One set, with a socket added if it is asked for.
fd_set_lem :
    (asked : Bool) (fd : ℕ) (set : List ℕ)
    → fd < 1024
    → Yields
        (λ set'.
          (asked ≡ true → fd_isset fd set' ≡ true)
          × ((j : ℕ) → fd_isset j set ≡ true → fd_isset j set' ≡ true))
        (if asked then fd_set fd set else done set)
unfolding fd_set
fd_set_lem true fd set h =
    let fits : ltb fd 1024 ≡ true = ground arith in
    (fd ∷ set, rw fits refl, (λ e. ground arith, λ j e. ground arith))
fd_set_lem false fd set h = (set, refl, (λ e. absurd (cc), λ j e. e))

pub fill-Asked :
    (es : List SocketData) (s : FdSets)
    → AllSockets es
    → Yields (λ s'. Asked es s' × Grows s s') (fill es s)
unfolding fill
fill-Asked [] s all =
    (s, refl, (tt, record { reads = λ fd h. h; writes = λ fd h. h; max_sock = omega arith }))
fill-Asked (e ∷ es) s (pos, fits, all) =
    let (reads, run_r, (asked_r, kept_r)) = fd_set_lem e.flag.read e.fd s.reads fits in
    let (writes, run_w, (asked_w, kept_w)) = fd_set_lem e.flag.write e.fd s.writes fits in
    let max_sock : ℕ = if ltb s.max_sock e.fd then e.fd else s.max_sock in
    let (s', run, (asked, grows)) =
      fill-Asked es (record { reads = reads; writes = writes; max_sock = max_sock }) all in
    let here : e.fd ≤ max_sock = ground arith in
    let before : s.max_sock ≤ max_sock = ground arith in
    (
      s',
      rw (run_r, run_w) run,
      (
        (
          λ h. grows.reads e.fd (asked_r h),
          λ h. grows.writes e.fd (asked_w h),
          omega (arith, grows.max_sock),
          asked,
        ),
        record {
          reads = λ fd h. grows.reads fd (kept_r fd h);
          writes = λ fd h. grows.writes fd (kept_w fd h);
          max_sock = omega (arith, grows.max_sock);
        },
      ),
    )

-- select() leaves those sockets below its first argument in the sets that are ready.
pub record Answers (readable writable : ℕ → Bool) (select : Select) : Type 0 where
  pub reads :
      (n : ℕ) (r w : List ℕ) (fd : ℕ)
      → fd < n
      → fd_isset fd (select n r w).0 ≡ (fd_isset fd r && readable fd)
  pub writes :
      (n : ℕ) (r w : List ℕ) (fd : ℕ)
      → fd < n
      → fd_isset fd (select n r w).1 ≡ (fd_isset fd w && writable fd)

module _ (readable writable : ℕ → Bool) where
  -- The event of a client, and the clients that have one, in order.
  abbrev pub event_of : SocketData → SocketData
  event_of e = record {
    flag = record {
      read = e.flag.read && readable e.fd;
      write = e.flag.write && writable e.fd;
      once = e.flag.once;
    };
    fd = e.fd;
    ptr = none;
  }

  abbrev pub fires : SocketData → Bool
  fires e = e.flag.read && readable e.fd || e.flag.write && writable e.fd

  abbrev pub events : List SocketData → List SocketData
  events [] = []
  events (e ∷ es) = if fires e then event_of e ∷ events es else events es

  pub events-append : (xs ys : List SocketData) → events (xs ++ ys) ≡ events xs ++ events ys
  events-append [] ys = refl
  events-append (x ∷ xs) ys = elim (Bool-cases (fires x)) [
    | inl hit ↦ rw hit (ap (λ es. event_of x ∷ es) (events-append xs ys))
    | inr miss ↦ rw miss (events-append xs ys)
  ]

  flag_of :
      (asked : Bool) (fd : ℕ) (before after : List ℕ) (ready : Bool)
      → (asked ≡ true → fd_isset fd before ≡ true)
      → fd_isset fd after ≡ (fd_isset fd before && ready)
      → (asked && fd_isset fd after) ≡ (asked && ready)
  flag_of true fd before after ready h e = ground (arith, e, h refl)
  flag_of false fd before after ready h e = refl

  pub event-event_of :
      (select : Select) (e : SocketData) (es : List SocketData) (s : FdSets)
      → Answers readable writable select
      → Asked (e ∷ es) s
      → event e (select (s.max_sock + 1) s.reads s.writes) ≡ event_of e
  unfolding event
  event-event_of select e es s answers (reads, writes, small, rest) =
      let n = s.max_sock + 1 in
      let r =
        flag_of e.flag.read e.fd s.reads (select n s.reads s.writes).0 (readable e.fd) reads
          (answers.reads n s.reads s.writes e.fd (omega arith)) in
      let w =
        flag_of e.flag.write e.fd s.writes (select n s.reads s.writes).1 (writable e.fd) writes
          (answers.writes n s.reads s.writes e.fd (omega arith)) in
      rw (r, w) refl
