-- ===== src/SelectPoller/Scan.antt =====
-- The events of a round do not depend on how the clients are cut into pieces of 1023.
use chain_socket.Base.{
  ℕ, zero, suc, ◌+◌, ◌-◌, ◌≤◌, ◌<◌, ◌≡◌, refl, sym, ap, ◌∙◌, Bool, true, false, List, [], ◌∷◌, ◌++◌,
  append_assoc, append-nil, arith, ltb, length, length-append, length-drop, take, drop,
  take-append-drop, Bool-cases, inl, inr,
}
use chain_socket.Base.Outcome.{done}
use chain_socket.SelectPoller.{SocketData, FdSets, empty_sets, fill, Select, report, scan}
use chain_socket.SelectPoller.Fill.{
  AllSockets, Asked, fill-Asked, Answers, event_of, fires, events, events-append, event-event_of,
}

take-AllSockets : (n : ℕ) (es : List SocketData) → AllSockets es → AllSockets (take n es)
take-AllSockets zero es all = tt
take-AllSockets (suc n) [] all = tt
take-AllSockets (suc n) (e ∷ es) (pos, fits, all) = (pos, fits, take-AllSockets n es all)

drop-AllSockets : (n : ℕ) (es : List SocketData) → AllSockets es → AllSockets (drop n es)
drop-AllSockets zero es all = all
drop-AllSockets (suc n) [] all = tt
drop-AllSockets (suc n) (e ∷ es) (pos, fits, all) = drop-AllSockets n es all

module _ (readable writable : ℕ → Bool) (select : Select)
    (answers : Answers readable writable select) (max : ℕ) where
  report_lem :
      (es : List SocketData) (s : FdSets) (evs : List SocketData)
      → Asked es s
      → length evs + length (events readable writable es) ≤ max
      → report max (select (s.max_sock + 1) s.reads s.writes) es evs
        ≡ evs ++ events readable writable es
  unfolding report
  report_lem [] s evs asked room = sym (append-nil evs)
  report_lem (e ∷ es) s evs (r, w, m, asked) room = elim (Bool-cases (fires readable writable e)) [
    | inl hit ↦
        let x = event_of readable writable e in
        let room' = rw hit at room in
        let size = length-append evs (x ∷ []) in
        let below : ltb max (length (evs ++ x ∷ [])) ≡ false = ground (arith, size) in
        rw (event-event_of readable writable select e es s answers (r, w, m, asked), hit, below)
          (report_lem es s (evs ++ x ∷ []) asked (omega (arith, size, room'))
            ∙ append_assoc evs (x ∷ []) (events readable writable es))
    | inr miss ↦
        let room' = rw miss at room in
        rw (event-event_of readable writable select e es s answers (r, w, m, asked), miss)
          (report_lem es s evs asked room')
  ]

  -- One piece, when its sets have a socket.
  chunk_lem :
      (n : ℕ) (e : SocketData) (es evs evs' : List SocketData) (s : FdSets)
      → fill (take 1023 (e ∷ es)) empty_sets ≡ done s
      → 0 < s.max_sock
      → report max (select (s.max_sock + 1) s.reads s.writes) (take 1023 (e ∷ es)) evs ≡ evs'
      → scan (suc n) select max (e ∷ es) evs ≡ scan n select max (drop 1023 (e ∷ es)) evs'
  unfolding scan
  chunk_lem n e es evs evs' s run pos found =
      let some_sock : s.max_sock ≡ suc (s.max_sock - 1) = omega arith in
      let back : suc (s.max_sock - 1) + 1 ≡ s.max_sock + 1 = omega arith in
      rw (run, some_sock, back, found) refl

  pub scan_lem :
      (n : ℕ) (es evs : List SocketData)
      → length es ≤ n
      → AllSockets es
      → length evs + length (events readable writable es) ≤ max
      → scan n select max es evs ≡ done (true, evs ++ events readable writable es)
  unfolding scan
  scan_lem n [] evs enough all room = ap (λ xs. done (true, xs)) (sym (append-nil evs))
  scan_lem zero (e ∷ es) evs enough all room = absurd (omega arith)
  scan_lem (suc n) (e ∷ es) evs enough all room =
      let chunk = take 1023 (e ∷ es) in
      let rest = drop 1023 (e ∷ es) in
      let (s, run, (asked, grows)) =
        fill-Asked chunk empty_sets (take-AllSockets 1023 (e ∷ es) all) in
      let whole : events readable writable (e ∷ es)
          ≡ events readable writable chunk ++ events readable writable rest =
        ap (events readable writable) (sym (take-append-drop 1023 (e ∷ es)))
        ∙ events-append readable writable chunk rest in
      let size = ap length whole in
      let parts = length-append (events readable writable chunk) (events readable writable rest) in
      let found = report_lem chunk s evs asked (omega (arith, size, parts, room)) in
      chunk_lem n e es evs _ s run (omega (arith, all.0, asked.2)) found
      ∙ scan_lem n rest (evs ++ events readable writable chunk)
          (omega (arith, length-drop 1023 (e ∷ es))) (drop-AllSockets 1023 (e ∷ es) all)
          (omega (arith, size, parts, room, length-append evs (events readable writable chunk)))
      ∙ ap (λ xs. done (true, xs))
          (append_assoc evs (events readable writable chunk) (events readable writable rest)
            ∙ ap (λ xs. evs ++ xs) (sym whole))
