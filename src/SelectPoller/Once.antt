-- ===== src/SelectPoller/Once.antt =====
-- pollGetEvents reports the ready clients and forgets those that asked for one event.
use chain_socket.Base.{
  ℕ, ◌≤◌, ◌<◌, ◌≡◌, refl, sym, ap, ◌∙◌, Bool, true, false, ◌&&◌, ◌||◌, List, [], ◌∷◌, Option, none,
  some, arith, ltb, ◌==◌, if◌then◌else◌, length, ℕ_discrete, Bool-cases, inl, inr,
}
use chain_socket.Base.Outcome.{Yields}
use chain_socket.Base.Map.{lookup, erase, IsMap, lookup-erase_ne, lookup-erase_self, erase-IsMap}
use chain_socket.SelectPoller.{
  SocketData, SelectPoller, key, erase_once, Instant, get_loop, poll_get_events,
}
use chain_socket.SelectPoller.Fill.{AllSockets, Answers, fires, events}
use chain_socket.SelectPoller.Scan.{scan_lem}

-- Whether there is an event for socket `k` that is to be the only one.
abbrev once_for : ℕ → List SocketData → Bool
once_for k [] = false
once_for k (e ∷ es) = e.fd == k && e.flag.once || once_for k es

if_same : (b : Bool) → if◌then◌else◌ {A = Option SocketData} b none none ≡ none
if_same true = refl
if_same false = refl

or_false : (b : Bool) → (b || false) ≡ b
or_false true = refl
or_false false = refl

lookup-erase_once :
    (evs clients : List SocketData) (k : ℕ)
    → IsMap key clients
    → lookup key k (erase_once evs clients)
      ≡ (if once_for k evs then none else lookup key k clients)
unfolding erase_once
lookup-erase_once [] clients k m = refl
lookup-erase_once (e ∷ es) clients k m = elim (Bool-cases e.flag.once) [
  | inl once ↦
      let rest = lookup-erase_once es (erase key e.fd clients) k (erase-IsMap key clients e.fd m) in
      elim (ℕ_discrete e.fd k) [
        | yes same ↦
            let hit : (e.fd == k) ≡ true = ground arith in
            rw (once, hit)
              (rest ∙ rw (same, lookup-erase_self key clients k m) (if_same (once_for k es)))
        | no other ↦
            let miss : (e.fd == k) ≡ false = ground arith in
            rw (once, miss)
              (rest ∙ rw (lookup-erase_ne key clients e.fd k (λ h. other (sym h))) refl)
      ]
  | inr not_once ↦
      let off : (e.fd == k && false) ≡ false = ground arith in
      rw (not_once, off) (lookup-erase_once es clients k m)
]

module _ (readable writable : ℕ → Bool) where
  abbrev is_last : Option SocketData → Bool
  is_last none = false
  is_last (some e) = fires readable writable e && e.flag.once

  -- What is left of a client.
  abbrev pub kept : Option SocketData → Option SocketData
  kept none = none
  kept (some e) = if fires readable writable e && e.flag.once then none else some e

  once_for-events :
      (cs : List SocketData) (k : ℕ)
      → IsMap key cs
      → once_for k (events readable writable cs) ≡ is_last (lookup key k cs)
  once_for-events [] k m = refl
  once_for-events (x ∷ xs) k (first, m) =
      let rest = once_for-events xs k m in
      elim (ℕ_discrete x.fd k) [
        | yes same ↦
            let hit : (x.fd == k) ≡ true = ground arith in
            let later : once_for k (events readable writable xs) ≡ false =
              rest ∙ ap is_last (first k (omega arith)) in
            elim (Bool-cases (fires readable writable x)) [
              | inl fired ↦
                  rw (fired, hit, later)
                    (or_false x.flag.once ∙ ap (λ b. b && x.flag.once) (sym fired))
              | inr idle ↦ rw (idle, hit, later) (ap (λ b. b && x.flag.once) (sym idle))
            ]
        | no other ↦
            let miss : (x.fd == k) ≡ false = ground arith in
            elim (Bool-cases (fires readable writable x)) [
              | inl fired ↦ rw (fired, miss) rest
              | inr idle ↦ rw (idle, miss) rest
            ]
      ]

  kept_lem : (o : Option SocketData) → (if is_last o then none else o) ≡ kept o
  kept_lem none = refl
  kept_lem (some e) = refl

  module _ (i : Instant) (is : List Instant) (now timeout max : ℕ) (p : SelectPoller) where
    -- When some client is ready for what it asks, and at most `maxEvent` are, pollGetEvents returns
    -- in its first round with the number of those clients and one event for each of them, in the
    -- order of their sockets, however many rounds of select() they take; the event's pointer is
    -- not the one that was registered: bytes of it are not set. A client of these that asked for one event is
    -- forgotten, and every other is kept. The clients are open sockets below FD_SETSIZE, and
    -- select() answers by what is ready.
    pub poll_get_events-events :
        IsMap key p.clients
        → AllSockets p.clients
        → Answers readable writable i.select
        → 0 < length (events readable writable p.clients)
        → length (events readable writable p.clients) ≤ max
        → Yields
            (λ (n, left).
              (n ≡ length (events readable writable p.clients))
              × (left.ev_clients ≡ events readable writable p.clients)
              × ((k : ℕ) → lookup key k left.clients ≡ kept (lookup key k p.clients)))
            (poll_get_events (i ∷ is) now timeout max p)
    unfolding poll_get_events get_loop
    poll_get_events-events m all answers some_event room =
        let evs = events readable writable p.clients in
        let run =
          scan_lem readable writable i.select answers max (length p.clients) p.clients []
            (omega arith) all (omega (arith, room)) in
        let found : ltb 0 (length evs) ≡ true = ground arith in
        (
          (length evs, record p { clients = erase_once evs p.clients; ev_clients = evs }),
          rw (run, found) refl,
          (
            refl,
            refl,
            λ k.
                lookup-erase_once evs p.clients k m
                ∙ ap (λ b. if b then none else lookup key k p.clients)
                    (once_for-events p.clients k m)
                ∙ kept_lem (lookup key k p.clients),
          ),
        )
