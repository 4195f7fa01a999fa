-- ===== src/IocpPoller/Traffic/Send.antt =====
-- postSend of code/ChainSocket/IOCPPoller.cpp: what becomes of the bytes in the write buffer.
use chain_socket.Base.{
  ℕ, zero, suc, ◌+◌, ◌-◌, ◌≤◌, ◌<◌, ◌≡◌, refl, sym, ap, ◌∙◌, subst, ◌≢◌, ◌⊎◌, inl, inr, true, false,
  Bool, List, [], ◌∷◌, ◌++◌, some, none, arith, ◌==◌, length, map, drop, set-set, set-get_elem?,
  get_elem?-set_self, get_elem?-in_range_inv, Bool-cases,
}
use chain_socket.Base.Outcome.{Outcome, done, aborted, fault, no_fuel, ◌>>=◌}
use chain_socket.Buffer.{MessageBuffer}
use chain_socket.Buffer.Contents.{contents, IsValid, erase_drops}
use chain_socket.Poller.{SendResult, sent, send_again}
use chain_socket.IocpPoller.{
  client_io_write, IocpData, send_posted, Poller, Handlers, put, called, next_post, next_send,
  close_session, closes, shuts,
}
use chain_socket.IocpPoller.Traffic.{
  with_write, post_write, answered, send_round, send_loop, post_send,
}
use chain_socket.IocpPoller.Slots.{session_at, slot-some, deref-some}

abbrev pub total : List ℕ → ℕ
total [] = 0
total (n ∷ ns) = n + total ns

-- Each call of send took something.
abbrev pub AllTook : List ℕ → Type 0
AllTook [] = Unit
AllTook (n ∷ ns) = (n ≢ 0) × AllTook ns

abbrev pub with_sends : Poller → List SendResult → Poller
with_sends p rest = record p { system = record p.system { sends = rest } }

-- onSend does nothing, like that of the base class.
abbrev pub IsQuiet : Handlers → Type 0
IsQuiet h = (p : Poller) (id n : ℕ) → h.on_send p id n ≡ done p

abbrev pub writing : IocpData → MessageBuffer → IocpData
writing d b = record d { conn = record d.conn { write_buffer = b } }

drop-drop : (n m : ℕ) (xs : List ℕ) → drop m (drop n xs) ≡ drop (n + m) xs
drop-drop zero m xs = ap (λ k. drop k xs) (omega arith)
drop-drop (suc n) zero [] = let shift : suc n + 0 ≡ suc n = omega arith in rw shift refl
drop-drop (suc n) (suc m) [] =
    let shift : suc n + suc m ≡ suc (n + suc m) = omega arith in rw shift refl
drop-drop (suc n) m (x ∷ xs) =
    let shift : suc n + m ≡ suc (n + m) = omega arith in rw shift (drop-drop n m xs)

next_send-cons :
    (p : Poller) {r : SendResult} {rest : List SendResult}
    → p.system.sends ≡ r ∷ rest
    → next_send p ≡ (r, with_sends p rest)
unfolding next_send
next_send-cons p e = rw e

module _ (h : Handlers) (quiet : IsQuiet h) where
  answered-sent :
      (p : Poller) (id n : ℕ) (d : IocpData)
      → session_at p id ≡ some (some d)
      → IsValid d.conn.write_buffer
      → suc n ≤ d.conn.write_buffer.size
      → (b : MessageBuffer) × IsValid b
        × (contents b ≡ drop (suc n) (contents d.conn.write_buffer))
        × (b.size ≡ d.conn.write_buffer.size - suc n)
        × (answered h p id d (sent (suc n)) ≡ done (true, with_write p id d b))
  unfolding answered
  answered-sent p id n d here v within =
      let (b, run, (v', same, size, cap)) = erase_drops d.conn.write_buffer (suc n) v within in
      let q = with_write p id d b in
      let at : session_at q id ≡ some (some (writing d b)) =
        get_elem?-set_self p.sessions id (some (writing d b))
          (get_elem?-in_range_inv p.sessions id here) in
      (b, v', same, size, rw (run, quiet q id (suc n), slot-some q id at) refl)

  send_round-sent :
      (p : Poller) (id n : ℕ) (d : IocpData) (rest : List SendResult)
      → session_at p id ≡ some (some d)
      → IsValid d.conn.write_buffer
      → suc n ≤ d.conn.write_buffer.size
      → p.system.sends ≡ sent (suc n) ∷ rest
      → (b : MessageBuffer) × IsValid b
        × (contents b ≡ drop (suc n) (contents d.conn.write_buffer))
        × (b.size ≡ d.conn.write_buffer.size - suc n)
        × (send_round h p id ≡ done (true, with_sends (with_write p id d b) rest))
  unfolding send_round
  send_round-sent p id n d rest here v within answers =
      let (b, v', same, size, run) = answered-sent (with_sends p rest) id n d here v within in
      let full : (d.conn.write_buffer.size == 0) ≡ false = ground arith in
      (b, v', same, size, rw (deref-some p id here, next_send-cons p answers, full) run)

  send_loop-next :
      (m : ℕ) (p q : Poller) (id : ℕ)
      → send_round h p id ≡ done (true, q)
      → send_loop (suc m) h p id ≡ send_loop m h q id
  unfolding send_loop
  send_loop-next m p q id e = rw e refl

  send_loop-sent :
      (ns : List ℕ) (m : ℕ) (p : Poller) (id : ℕ) (d : IocpData) (rest : List SendResult)
      → session_at p id ≡ some (some d)
      → IsValid d.conn.write_buffer
      → AllTook ns
      → total ns ≤ d.conn.write_buffer.size
      → p.system.sends ≡ map sent ns ++ rest
      → (b : MessageBuffer) × IsValid b
        × (contents b ≡ drop (total ns) (contents d.conn.write_buffer))
        × (b.size ≡ d.conn.write_buffer.size - total ns)
        × (send_loop (length ns + m) h p id
            ≡ send_loop m h (with_sends (with_write p id d b) rest) id)
  send_loop-sent [] m p id d rest here v took within answers =
      let none_before : length {A = ℕ} [] + m ≡ m = omega arith in
      let back : with_sends (with_write p id d d.conn.write_buffer) rest ≡ p =
        ap (λ ds. record p { sessions = ds; system = record p.system { sends = rest } })
          (set-get_elem? p.sessions id here)
        ∙ ap (λ l. record p { system = record p.system { sends = l } }) (sym answers) in
      (d.conn.write_buffer, v, refl, omega arith, rw (none_before, back) refl)
  send_loop-sent (zero ∷ ns) m p id d rest here v (some_bytes, took) within answers =
      absurd (some_bytes refl)
  send_loop-sent (suc n ∷ ns) m p id d rest here v (some_bytes, took) within answers =
      let wb = d.conn.write_buffer in
      let (b, v', same, size, run) =
        send_round-sent p id n d (map sent ns ++ rest) here v (omega arith) answers in
      let q = with_sends (with_write p id d b) (map sent ns ++ rest) in
      let at =
        get_elem?-set_self p.sessions id (some (writing d b))
          (get_elem?-in_range_inv p.sessions id here) in
      let (b', v'', same', size', run') =
        send_loop-sent ns m q id (writing d b) rest at v' took (omega (arith, size)) refl in
      let one_more : length (suc n ∷ ns) + m ≡ suc (length ns + m) = omega arith in
      (
        b',
        v'',
        same' ∙ ap (drop (total ns)) same ∙ drop-drop (suc n) (total ns) (contents wb),
        omega (arith, size, size'),
        rw one_more (
            send_loop-next (length ns + m) p q id run
            ∙ run'
            ∙ ap
                (λ ds.
                  send_loop m h
                    (record p { sessions = ds; system = record p.system { sends = rest } }) id)
                (set-set p.sessions id _ _)),
      )

-- How postSend ends, when it has left `left` bytes in the write buffer and `rest` are the answers
-- of send that it has not asked for.
pub data Ended (q : Poller) (id : ℕ) (d : IocpData) (left : ℕ) (rest : List SendResult)
    (r : Outcome Poller) : Type 0 where
  all_sent : left ≡ 0 → r ≡ done q → Ended q id d left rest r
  waits :
      (later : List SendResult)
      → rest ≡ send_again ∷ later
      → (next_post (with_sends q later)).0 ≡ true
      → r ≡ done (called (next_post (with_sends q later)).1 (send_posted d.io_ctx_s.accept))
      → Ended q id d left rest r
  refused :
      (later : List SendResult)
      → rest ≡ send_again ∷ later
      → (next_post (with_sends q later)).0 ≡ false
      → r
        ≡ done (
            put
              (called
                (called (next_post (with_sends q later)).1 (closes d.conn.fd))
                (shuts d.conn.fd))
              id
              none)
      → Ended q id d left rest r

-- Everything has been sent, or the next answer of send is EAGAIN.
abbrev pub Stops : ℕ → List SendResult → Type 0
Stops left rest =
    (left ≡ 0) ⊎ ((left ≢ 0) × (later : List SendResult) × (rest ≡ send_again ∷ later))

-- Asking whether a request is posted leaves the table alone.
next_post_table :
    (p : Poller) (id : ℕ) (l : List Bool)
    → p.system.posts ≡ l
    → session_at (next_post p).1 id ≡ session_at p id
unfolding next_post
next_post_table p id [] e = rw e refl
next_post_table p id (b ∷ bs) e = rw e refl

closed :
    (p : Poller) (id : ℕ) (d : IocpData)
    → session_at p id ≡ some (some d)
    → close_session p id
      ≡ done (put (called (called p (closes d.conn.fd)) (shuts d.conn.fd)) id none)
unfolding close_session
closed p id d here = rw (slot-some p id here) refl

post_write-Ended :
    (p : Poller) (id left : ℕ) (d : IocpData) (rest later : List SendResult)
    → session_at p id ≡ some (some d)
    → rest ≡ send_again ∷ later
    → Ended p id d left rest (post_write (with_sends p later) id d)
unfolding post_write
post_write-Ended p id left d rest later here e =
    elim (Bool-cases (next_post (with_sends p later)).0) [
      | inl ok ↦ waits later e ok (rw ok refl)
      | inr no_post ↦ refused later e no_post (
          rw no_post
            (closed _ id d (next_post_table (with_sends p later) id p.system.posts refl ∙ here)))
    ]

last_round :
    (m : Outcome Poller) (g : Bool × Poller → Outcome Poller)
    → ((q : Poller) → g (false, q) ≡ done q)
    → ((m >>= λ q. done (false, q)) >>= g) ≡ m
last_round (done q) g e = e q
last_round aborted g e = refl
last_round fault g e = refl
last_round no_fuel g e = refl

send_loop-Ended :
    (h : Handlers) (m : ℕ) (p : Poller) (id : ℕ) (d : IocpData) (rest : List SendResult)
    → session_at p id ≡ some (some d)
    → p.system.sends ≡ rest
    → Stops d.conn.write_buffer.size rest
    → Ended p id d d.conn.write_buffer.size rest (send_loop (suc m) h p id)
unfolding send_loop send_round answered
send_loop-Ended h m p id d rest here answers (inl e) =
    let empty : (d.conn.write_buffer.size == 0) ≡ true = ground arith in
    all_sent e (rw (deref-some p id here, empty) refl)
send_loop-Ended h m p id d rest here answers (inr (full, later, e)) =
    let some_bytes : (d.conn.write_buffer.size == 0) ≡ false = ground arith in
    let one : send_loop (suc m) h p id ≡ post_write (with_sends p later) id d =
      rw (deref-some p id here, next_send-cons p (answers ∙ e), some_bytes)
        (last_round (post_write (with_sends p later) id d) _ (λ q. refl)) in
    subst (Ended p id d d.conn.write_buffer.size rest) (sym one)
      (post_write-Ended p id d.conn.write_buffer.size d rest later here e)

-- The session whose second context is set to ClientIoWrite.
abbrev pub ready_to_write : IocpData → IocpData
ready_to_write d = record d { io_ctx_s = record d.io_ctx_s { action = client_io_write } }

-- postSend on a session, with a callback onSend that does nothing, calls send again and again: the
-- bytes that the calls took, and no others, leave the write buffer in their order. When they were
-- all the bytes, it returns; when the next answer is EAGAIN, it posts a write and returns, and if that
-- is refused it frees the session's slot, closes its socket, shuts it down and returns. The write buffer is valid, no call of send takes 0 bytes
-- or more than there are, and one round more than there are such calls is enough.
pub post_send-Ended :
    (h : Handlers) (p : Poller) (id : ℕ) (d : IocpData) (ns : List ℕ) (rest : List SendResult)
    (fuel : ℕ)
    → IsQuiet h
    → session_at p id ≡ some (some d)
    → IsValid d.conn.write_buffer
    → AllTook ns
    → total ns ≤ d.conn.write_buffer.size
    → p.system.sends ≡ map sent ns ++ rest
    → Stops (d.conn.write_buffer.size - total ns) rest
    → length ns < fuel
    → (b : MessageBuffer) × IsValid b
      × (contents b ≡ drop (total ns) (contents d.conn.write_buffer))
      × (b.size ≡ d.conn.write_buffer.size - total ns)
      × Ended
          (with_sends (with_write p id (ready_to_write d) b) rest)
          id
          (writing (ready_to_write d) b)
          b.size
          rest
          (post_send fuel h p id)
unfolding post_send
post_send-Ended h p id d ns rest fuel quiet here v took within answers stops enough =
    let d' = ready_to_write d in
    let p' = put p id (some d') in
    let m = fuel - suc (length ns) in
    let at =
      get_elem?-set_self p.sessions id (some d') (get_elem?-in_range_inv p.sessions id here) in
    let (b, v', same, size, run) =
      send_loop-sent h quiet ns (suc m) p' id d' rest at v took within answers in
    let q = with_sends (with_write p id d' b) rest in
    let twice : with_sends (with_write p' id d' b) rest ≡ q =
      ap (λ ds. record p { sessions = ds; system = record p.system { sends = rest } })
        (set-set p.sessions id _ _) in
    let now =
      get_elem?-set_self p.sessions id (some (writing d' b))
        (get_elem?-in_range_inv p.sessions id here) in
    let fuel_split : fuel ≡ length ns + suc m = omega arith in
    let whole : post_send fuel h p id ≡ send_loop (suc m) h q id =
      rw (slot-some p id here) (
        ap (λ f. send_loop f h p' id) fuel_split
        ∙ run
        ∙ ap (λ x. send_loop (suc m) h x id) twice) in
    let ended =
      send_loop-Ended h m q id (writing d' b) rest now refl
        (subst (λ k. Stops k rest) (sym size) stops) in
    (b, v', same, size, subst (Ended q id (writing d' b) b.size rest) (sym whole) ended)
