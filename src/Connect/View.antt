-- ===== src/Connect/View.antt =====
-- What is known of a socket, before and after the loop of checkAllStatus.
use chain_socket.Base.{
  ℕ, ◌+◌, ◌≡◌, refl, sym, ◌∙◌, leb, ltb, zero, suc, Bool-cases, Option-cases, inl, inr, ap, ◌≢◌,
  true, false, List, [], ◌∷◌, Option, none, some, ◌==◌, if◌then◌else◌, arith, subst, ℕ_discrete,
}
use chain_socket.Base.Map.{
  lookup, IsMap, lookup-assign_self, lookup-assign_ne, lookup-erase_ne, lookup-erase_self,
  erase-IsMap,
}
use chain_socket.Connect.{
  Pending, SockInfo, connected, refused, ConnectPoller, Verdict, waits, succeeds, fails, verdict,
  get_socket_status, info, time_key, info_key, handle, check_loop,
}

abbrev pub count : ℕ → List ℕ → ℕ
count k [] = 0
count k (x ∷ xs) = let rest = count k xs in if x == k then rest + 1 else rest

-- What there is to know of a socket: whether it is connecting, its result, and how often it has
-- been closed.
abbrev pub View : Type 0
View = Option Pending × Option SockInfo × ℕ

abbrev pub view : ConnectPoller → ℕ → View
view c fd = (lookup time_key fd c.connect_time, lookup info_key fd c.result_map, count fd c.closed)

abbrev pub judged : Verdict → Pending → View → View
judged waits p v = v
judged succeeds p (o, r, n) = (none, some (info p connected), n)
judged fails p (o, r, n) = (none, some (info p refused), n + 1)

-- The view of a socket that has been given up: it is closed once more and reported with -1.
abbrev pub given_up : Pending → View → View
given_up p (o, r, n) =
    (none, some (record { port = p.port; ip = p.ip; fd = p.fd; ret = refused }), n + 1)

-- The view of a socket after a check at the time `now`: it is given up when its time limit is
-- behind, or send gives an error other than 0; without an error it is reported with 1.
abbrev pub checked : ℕ → (ℕ → Option ℕ) → Option Pending → View → View
checked now answer none v = v
checked now answer (some p) (o, r, n) =
    if leb (suc p.limit_time) now then given_up p (o, r, n) else (elim (answer p.fd) [
      | none ↦ (none, some (record { port = p.port; ip = p.ip; fd = p.fd; ret = connected }), n)
      | some zero ↦ (o, r, n)
      | some (suc error) ↦ given_up p (o, r, n)
    ])

judged-verdict :
    (now : ℕ) (answer : ℕ → Option ℕ) (p : Pending) (o : Option Pending) (r : Option SockInfo)
    (n : ℕ)
    → judged (verdict now answer p) p (o, r, n) ≡ checked now answer (some p) (o, r, n)
unfolding verdict get_socket_status
judged-verdict now answer p o r n = elim (Bool-cases (ltb p.limit_time now)) [
  | inl over ↦ let late : leb (suc p.limit_time) now ≡ true = ground arith in rw (over, late) refl
  | inr left ↦
      let early : leb (suc p.limit_time) now ≡ false = ground arith in
      elim (Option-cases (answer p.fd)) [
        | inl no_error ↦ rw (left, early, no_error) refl
        | inr (zero, e) ↦ rw (left, early, e) refl
        | inr (suc k, e) ↦
            let wrong : (suc k == 0) ≡ false = ground arith in rw (left, early, e, wrong) refl
      ]
]

handle_self :
    (v : Verdict) (p : Pending) (c : ConnectPoller)
    → IsMap time_key c.connect_time
    → view (handle v p c) p.fd ≡ judged v p (view c p.fd)
unfolding handle
handle_self waits p c m = refl
handle_self succeeds p c m = rw (
  lookup-erase_self time_key c.connect_time p.fd m,
  lookup-assign_self info_key c.result_map (info p connected),
)
handle_self fails p c m =
    let same : (p.fd == p.fd) ≡ true = ground arith in
    rw (
      lookup-erase_self time_key c.connect_time p.fd m,
      lookup-assign_self info_key c.result_map (info p refused),
      same,
    )

handle_others :
    (v : Verdict) (p : Pending) (c : ConnectPoller) (fd : ℕ)
    → fd ≢ p.fd
    → view (handle v p c) fd ≡ view c fd
unfolding handle
handle_others waits p c fd n = refl
handle_others succeeds p c fd n = rw (
  lookup-erase_ne time_key c.connect_time p.fd fd n,
  lookup-assign_ne info_key c.result_map (info p connected) fd n,
)
handle_others fails p c fd n =
    let other : (p.fd == fd) ≡ false = ground arith in
    rw (
      lookup-erase_ne time_key c.connect_time p.fd fd n,
      lookup-assign_ne info_key c.result_map (info p refused) fd n,
      other,
    )

handle-IsMap :
    (v : Verdict) (p : Pending) (c : ConnectPoller)
    → IsMap time_key c.connect_time
    → IsMap time_key (handle v p c).connect_time
unfolding handle
handle-IsMap waits p c m = m
handle-IsMap succeeds p c m = erase-IsMap time_key c.connect_time p.fd m
handle-IsMap fails p c m = erase-IsMap time_key c.connect_time p.fd m

handle_timer :
    (v : Verdict) (p : Pending) (c : ConnectPoller)
    → ((handle v p c).tm ≡ c.tm) × ((handle v p c).connect_timer ≡ c.connect_timer)
unfolding handle
handle_timer waits p c = (refl, refl)
handle_timer succeeds p c = (refl, refl)
handle_timer fails p c = (refl, refl)

module _ (now : ℕ) (answer : ℕ → Option ℕ) where
  pub view-check_loop :
      (ps : List Pending) (c : ConnectPoller) (fd : ℕ)
      → IsMap time_key ps
      → IsMap time_key c.connect_time
      → view (check_loop now answer ps c) fd
        ≡ checked now answer (lookup time_key fd ps) (view c fd)
  unfolding check_loop
  view-check_loop [] c fd ms mc = refl
  view-check_loop (p ∷ ps) c fd (first, ms) mc =
      let v = verdict now answer p in
      let rest = view-check_loop ps (handle v p c) fd ms (handle-IsMap v p c mc) in
      elim (ℕ_discrete p.fd fd) [
        | yes e ↦
            let hit : (p.fd == fd) ≡ true = ground arith in
            let none_left : lookup time_key fd ps ≡ none = first fd (omega arith) in
            let here : view (handle v p c) fd ≡ judged v p (view c fd) =
              subst (λ k. view (handle v p c) k ≡ judged v p (view c k)) e (handle_self v p c mc) in
            rw hit (
              rest
              ∙ ap (λ o. checked now answer o (view (handle v p c) fd)) none_left
              ∙ here
              ∙ judged-verdict now answer p _ _ _)
        | no n ↦
            let miss : (p.fd == fd) ≡ false = ground arith in
            rw miss (
              rest
              ∙ ap (checked now answer (lookup time_key fd ps))
                  (handle_others v p c fd (λ e. n (sym e))))
      ]

  pub check_loop-IsMap :
      (ps : List Pending) (c : ConnectPoller)
      → IsMap time_key c.connect_time
      → IsMap time_key (check_loop now answer ps c).connect_time
  unfolding check_loop
  check_loop-IsMap [] c m = m
  check_loop-IsMap (p ∷ ps) c m = check_loop-IsMap ps _ (handle-IsMap (verdict now answer p) p c m)

  pub check_loop_timer :
      (ps : List Pending) (c : ConnectPoller)
      → ((check_loop now answer ps c).tm ≡ c.tm)
        × ((check_loop now answer ps c).connect_timer ≡ c.connect_timer)
  unfolding check_loop
  check_loop_timer [] c = (refl, refl)
  check_loop_timer (p ∷ ps) c =
      let (m, t) = check_loop_timer ps (handle (verdict now answer p) p c) in
      let (m', t') = handle_timer (verdict now answer p) p c in (m ∙ m', t ∙ t')

  pub check_loop_nil :
      (ps : List Pending) (c : ConnectPoller) → ps ≡ [] → check_loop now answer ps c ≡ c
  unfolding check_loop
  check_loop_nil ps c e = rw e
