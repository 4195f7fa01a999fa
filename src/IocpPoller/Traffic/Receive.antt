-- ===== src/IocpPoller/Traffic/Receive.antt =====
-- do_recv of code/ChainSocket/IOCPPoller.cpp: what becomes of the bytes that arrive for a session.
use chain_socket.Base.{
  ℕ, ◌+◌, ◌*◌, ◌≤◌, ◌≡◌, refl, sym, ap, ◌∙◌, ◌≢◌, ◌⊎◌, inl, inr, true, List, [], ◌∷◌, ◌++◌,
  append-nil, append_assoc, none, some, arith, ltb, length, length-append, map, set-set,
  set-get_elem?, get_elem?-set_self, get_elem?-in_range_inv,
}
use chain_socket.Base.Outcome.{done, Yields, ◌>>=◌}
use chain_socket.Buffer.{MessageBuffer, Allocator, alloc, buffer_size, int_max}
use chain_socket.Buffer.Contents.{contents, Grants, IsValid, copy_lem, to_int_lem, alloc_keeps}
use chain_socket.Poller.{RecvResult, received, recv_again, recv_failed}
use chain_socket.IocpPoller.{IocpData, closes, shuts, Poller, Handlers, put, called, close_session}
use chain_socket.IocpPoller.Traffic.{
  post_recv, drained, with_recvs, with_read, took, recv_loop, do_recv,
}
use chain_socket.IocpPoller.Slots.{session_at, slot-some, deref-some}

-- The chunks one behind the other.
abbrev pub joined_up : List (List ℕ) → List ℕ
joined_up [] = []
joined_up (c ∷ cs) = c ++ joined_up cs

-- Each chunk has bytes, and no more than recv was asked for when it came; the sizes fit an int.
abbrev pub Fits : Allocator → MessageBuffer → List (List ℕ) → Type 0
Fits a b [] = Unit
Fits a b (c ∷ cs) =
    (length c ≢ 0)
    × (b.size + length c ≤ b.capacity)
    × (b.size + length c + 3 * buffer_size ≤ int_max)
    × ((b' : MessageBuffer) → took a b c ≡ done b' → Fits a b' cs)

pub took_appends :
    (a : Allocator) (b : MessageBuffer) (c : List ℕ)
    → Grants a
    → IsValid b
    → b.size + length c ≤ b.capacity
    → b.size + length c + 3 * buffer_size ≤ int_max
    → Yields
        (λ b'.
          IsValid b'
          × (contents b' ≡ contents b ++ c)
          × (b'.size ≡ b.size + length c)
          × (b'.size + 2 * buffer_size ≤ b'.capacity))
        (took a b c)
unfolding took
took_appends a b c g (block, v) room small =
    let total = b.size + length c in
    let (block', copied, len, front) = copy_lem block c b.size (omega (arith, v.sized)) in
    let longer : MessageBuffer = record b { buff = some block'; size = total } in
    let valid : IsValid longer =
      (block', record { owned = refl; sized = len ∙ v.sized; fits = room }) in
    let (b', run, (v', same, size, space)) = alloc_keeps a longer g valid small in
    (
      b',
      rw (v.owned, copied, to_int_lem total (omega arith), run),
      (v', same ∙ rw v.owned front, size, omega (arith, size, space)),
    )

positive : (xs : List ℕ) → xs ≢ [] → ltb 0 (length xs) ≡ true
positive [] n = absurd (n refl)
positive (x ∷ xs) n = ground arith

-- The session in slot `id` has this read buffer now.
abbrev pub reading : IocpData → MessageBuffer → IocpData
reading d b = record d { conn = record d.conn { read_buffer = b } }

with_read-twice :
    (p : Poller) (id : ℕ) (d : IocpData) (b b' : MessageBuffer)
    → with_read (with_read p id d b) id (reading d b) b' ≡ with_read p id d b'
with_read-twice p id d b b' = ap (λ ds. record p { sessions = ds }) (set-set p.sessions id _ _)

module _ (a : Allocator) (h : Handlers) (grants : Grants a) where
  recv_loop-chunks :
      (cs : List (List ℕ)) (p : Poller) (id n : ℕ) (d : IocpData) (rest : List RecvResult)
      → session_at p id ≡ some (some d)
      → IsValid d.conn.read_buffer
      → n ≤ d.conn.read_buffer.size
      → Fits a d.conn.read_buffer cs
      → (b : MessageBuffer) × IsValid b
        × (contents b ≡ contents d.conn.read_buffer ++ joined_up cs)
        × (recv_loop a h p id n (map received cs ++ rest)
            ≡ recv_loop a h (with_read p id d b) id (n + length (joined_up cs)) rest)
  unfolding recv_loop
  recv_loop-chunks [] p id n d rest here v low fits =
      let back : with_read p id d d.conn.read_buffer ≡ p =
        ap (λ ds. record p { sessions = ds }) (set-get_elem? p.sessions id here) in
      let none_more : n + 0 ≡ n = omega arith in
      (
        d.conn.read_buffer,
        v,
        sym (append-nil (contents d.conn.read_buffer)),
        rw (back, none_more) refl,
      )
  recv_loop-chunks ([] ∷ cs) p id n d rest here v low (full, room, small, later) =
      absurd (full refl)
  recv_loop-chunks ((byte ∷ bs) ∷ cs) p id n d rest here v low (full, room, small, later) =
      let c = byte ∷ bs in
      let (b, run, (v', same, size, space)) =
        took_appends a d.conn.read_buffer c grants v room small in
      let p' = with_read p id d b in
      let at =
        get_elem?-set_self p.sessions id (some (reading d b))
          (get_elem?-in_range_inv p.sessions id here) in
      let (b', v'', same', run') =
        recv_loop-chunks cs p' id (n + length c) (reading d b) rest at v' (omega (arith, size))
          (later b run) in
      (
        b',
        v'',
        same'
            ∙ ap (λ l. l ++ joined_up cs) same
            ∙ append_assoc (contents d.conn.read_buffer) c (joined_up cs),
        rw (deref-some p id here, run, to_int_lem (n + length c) (omega arith))
            (run'
              ∙ ap (λ q. recv_loop a h q id (n + length c + length (joined_up cs)) rest)
                  (with_read-twice p id d b b')
              ∙ ap (λ k. recv_loop a h (with_read p id d b') id k rest)
                  (omega (arith, length-append c (joined_up cs)))),
      )

  -- The session reads until recv has no more to give.
  recv_all :
      (p : Poller) (id : ℕ) (d : IocpData) (cs : List (List ℕ)) (rest : List RecvResult)
      → session_at p id ≡ some (some d)
      → IsValid d.conn.read_buffer
      → d.conn.read_buffer.size + 3 * buffer_size ≤ int_max
      → ((b : MessageBuffer) → alloc a d.conn.read_buffer ≡ done b → Fits a b cs)
      → p.system.recvs ≡ map received cs ++ rest
      → (b : MessageBuffer) × IsValid b
        × (contents b ≡ contents d.conn.read_buffer ++ joined_up cs)
        × (do_recv a h p id ≡ recv_loop a h (with_read p id d b) id (length (joined_up cs)) rest)
  unfolding do_recv
  recv_all p id d cs rest here v small fits answers =
      let (b, run, (v', same, size, space)) = alloc_keeps a d.conn.read_buffer grants v small in
      let at =
        get_elem?-set_self p.sessions id (some (reading d b))
          (get_elem?-in_range_inv p.sessions id here) in
      let (b', v'', same', run') =
        recv_loop-chunks cs (with_read p id d b) id 0 (reading d b) rest at v' (omega arith)
          (fits b run) in
      (
        b',
        v'',
        same' ∙ ap (λ l. l ++ joined_up cs) same,
        rw (slot-some p id here, run)
            (ap (recv_loop a h (with_read p id d b) id 0) answers
              ∙ run'
              ∙ ap (λ q. recv_loop a h q id (0 + length (joined_up cs)) rest)
                  (with_read-twice p id d b b')
              ∙ ap (λ k. recv_loop a h (with_read p id d b') id k rest) {y = length (joined_up cs)}
                  (omega arith)),
      )

-- do_recv on a session whose socket has some bytes, in any number of pieces, and then EAGAIN, reads
-- all of them: they are behind those that were in the read buffer, onRecv is called once, with
-- their number, and then the next reading is posted. The allocator grants its requests, no piece is
-- empty or longer than what recv was asked for, and the sizes fit an int.
pub do_recv-drains :
    (a : Allocator) (h : Handlers) (p : Poller) (id : ℕ) (d : IocpData) (cs : List (List ℕ))
    (rest : List RecvResult)
    → Grants a
    → session_at p id ≡ some (some d)
    → IsValid d.conn.read_buffer
    → d.conn.read_buffer.size + 3 * buffer_size ≤ int_max
    → ((b : MessageBuffer) → alloc a d.conn.read_buffer ≡ done b → Fits a b cs)
    → joined_up cs ≢ []
    → p.system.recvs ≡ map received cs ++ recv_again ∷ rest
    → (b : MessageBuffer) × IsValid b
      × (contents b ≡ contents d.conn.read_buffer ++ joined_up cs)
      × (do_recv a h p id ≡ (
          h.on_recv (with_recvs (with_read p id d b) rest) id (length (joined_up cs)) >>= λ p'.
          post_recv p' id))
unfolding recv_loop drained
do_recv-drains a h p id d cs rest g here v small fits some_bytes answers =
    let (b, v', same, run) =
      recv_all a h g p id d cs (recv_again ∷ rest) here v small fits answers in
    let any : ltb 0 (length (joined_up cs)) ≡ true = positive (joined_up cs) some_bytes in
    (b, v', same, run ∙ rw any refl)

-- The answer of recv that ends the connection.
abbrev pub IsEnd : RecvResult → Type 0
IsEnd r = (r ≡ received []) ⊎ (r ≡ recv_failed)

-- The session is closed, whatever its read buffer holds.
closed_over :
    (p : Poller) (id : ℕ) (d : IocpData) (b : MessageBuffer) (rest : List RecvResult)
    → session_at p id ≡ some (some d)
    → close_session (with_recvs (with_read p id d b) rest) id
      ≡ done
          (put (called (called (with_recvs p rest) (closes d.conn.fd)) (shuts d.conn.fd)) id none)
unfolding close_session
closed_over p id d b rest here =
    let q = with_recvs (with_read p id d b) rest in
    let at : session_at q id ≡ some (some (reading d b)) =
      get_elem?-set_self p.sessions id (some (reading d b))
        (get_elem?-in_range_inv p.sessions id here) in
    let gone = called (called (with_recvs p rest) (closes d.conn.fd)) (shuts d.conn.fd) in
    rw (slot-some q id at)
      (ap (λ ds. done (record gone { sessions = ds })) (set-set p.sessions id _ none))

at_end :
    (a : Allocator) (h : Handlers) (p : Poller) (id n : ℕ) (r : RecvResult) (rest : List RecvResult)
    → IsEnd r
    → recv_loop a h p id n (r ∷ rest) ≡ close_session (with_recvs p rest) id
unfolding recv_loop
at_end a h p id n r rest (inl e) = rw e refl
at_end a h p id n r rest (inr e) = rw e refl

-- When the bytes are followed by the end of the connection or by an error, and no EAGAIN comes
-- between, do_recv closes the session and its socket, and never calls onRecv: the bytes are lost.
-- The allocator grants its requests, no piece is empty or longer than what recv was asked for, and
-- the sizes fit an int.
pub do_recv_loses :
    (a : Allocator) (h : Handlers) (p : Poller) (id : ℕ) (d : IocpData) (cs : List (List ℕ))
    (r : RecvResult) (rest : List RecvResult)
    → Grants a
    → session_at p id ≡ some (some d)
    → IsValid d.conn.read_buffer
    → d.conn.read_buffer.size + 3 * buffer_size ≤ int_max
    → ((b : MessageBuffer) → alloc a d.conn.read_buffer ≡ done b → Fits a b cs)
    → IsEnd r
    → p.system.recvs ≡ map received cs ++ r ∷ rest
    → do_recv a h p id
      ≡ done
          (put (called (called (with_recvs p rest) (closes d.conn.fd)) (shuts d.conn.fd)) id none)
do_recv_loses a h p id d cs r rest g here v small fits end answers =
    let (b, v', same, run) = recv_all a h g p id d cs (r ∷ rest) here v small fits answers in
    run
    ∙ at_end a h (with_read p id d b) id (length (joined_up cs)) r rest end
    ∙ closed_over p id d b rest here
