-- ===== src/WebSocketPoller/Opening/Reply.antt =====
-- What a client takes for an accepted handshake.
use chain_socket.Base.{
  ℕ, suc, ◌+◌, ◌-◌, ◌≤◌, ◌≡◌, refl, ap, ◌∙◌, subst, false, List, ◌∷◌, some, arith, ltb, ◌==◌,
  if◌then◌else◌, length, length-take, length-drop, drop, get_elem?-set_self, get_elem?-in_range_inv,
  Bool-cases, inl, inr,
}
use chain_socket.Base.Outcome.{done, ◌>>=◌}
use chain_socket.Buffer.{MessageBuffer, Allocator, erase}
use chain_socket.Buffer.Contents.{contents, erase_drops, length-contents}
use chain_socket.Buffer.Contents
use chain_socket.Session.{Session}
use chain_socket.Poller.{Poller, Handlers, put}
use chain_socket.Poller.Table.{session_at}
use chain_socket.Poller.Failure.{deref-some}
use chain_socket.WebSocket.Handshake.{Handshake}
use chain_socket.WebSocketPoller.{MessageHandlers, starts_with, memstr_loop, memstr, on_frames}
use chain_socket.WebSocketPoller.Search.{First, memstr-First}
use chain_socket.WebSocketPoller.Opening.{
  received_bytes, blank_line, status_line, enter_frames, more_bytes, on_response, then_frames,
  on_recv,
}

http_found : (more : List ℕ) → memstr (72 ∷ 84 ∷ 84 ∷ 80 ∷ more) status_line 4 ≡ some 0
unfolding memstr memstr_loop starts_with
http_found more =
    let full : (length (72 ∷ 84 ∷ 84 ∷ 80 ∷ more) == 0) ≡ false = ground arith in
    let rounds : length (72 ∷ 84 ∷ 84 ∷ 80 ∷ more) + 1 - 4 ≡ suc (length more) = omega arith in
    rw (full, rounds) refl

found_inside :
    (bytes : List ℕ) (pos : ℕ) → memstr bytes blank_line 4 ≡ some pos → pos + 4 ≤ length bytes
found_inside bytes pos e =
    let (here, before) : First blank_line bytes (some pos) =
      subst (First blank_line bytes) e (memstr-First bytes blank_line (omega arith)) in
    omega (arith, ap length here, length-take 4 (drop pos bytes), length-drop pos bytes)

received_bytes_lem : (b : MessageBuffer) → Contents.IsValid b → received_bytes b ≡ contents b
received_bytes_lem b (block, v) = rw v.owned refl

-- The session behind the handshake, with this read buffer.
abbrev pub entered : Session → MessageBuffer → Session
entered s b = record s { user_data = 2; read_buffer = b }

module _ (a : Allocator) (h : Handlers) (mh : MessageHandlers) (fuel : ℕ) (p : Poller)
    (hs : Handshake) (id : ℕ) (s : Session) where
  enter_run :
      (n : ℕ) (b : MessageBuffer)
      → session_at p id ≡ some (some s)
      → erase s.read_buffer n ≡ done b
      → enter_frames p id n ≡ done (put p id (some (entered s b)))
  unfolding enter_frames
  enter_run n b here run = rw (deref-some p id here, run) refl

  more_run :
      (b : MessageBuffer)
      → session_at p id ≡ some (some s)
      → more_bytes (put p id (some (entered s b))) id ≡ done (ltb 0 b.size)
  unfolding more_bytes
  more_run b here =
      let here' =
        get_elem?-set_self p.sessions id (some (entered s b))
          (get_elem?-in_range_inv p.sessions id here) in
      rw (deref-some (put p id (some (entered s b))) id here') refl

  response_run :
      (pos : ℕ) (b : MessageBuffer)
      → session_at p id ≡ some (some s)
      → ltb s.read_buffer.size 13 ≡ false
      → memstr (received_bytes s.read_buffer) blank_line 4 ≡ some pos
      → memstr (received_bytes s.read_buffer) status_line 4 ≡ some 0
      → erase s.read_buffer (pos + 4) ≡ done b
      → mh.on_hand_shake (put p id (some (entered s b))) id ≡ done (put p id (some (entered s b)))
      → on_response mh p id ≡ done (ltb 0 b.size, put p id (some (entered s b)))
  unfolding on_response
  response_run pos b here long line found run quiet =
      rw
        (
          deref-some p id here,
          long,
          line,
          found,
          enter_run (pos + 4) b here run,
          quiet,
          more_run b here,
        )
        refl

  after_run :
      (b : MessageBuffer)
      → session_at p id ≡ some (some s)
      → s.user_data ≡ 1
      → on_response mh p id ≡ done (ltb 0 b.size, put p id (some (entered s b)))
      → on_recv a h mh fuel p hs (some id) ≡ (
          (if ltb 0 b.size
            then on_frames fuel mh (put p id (some (entered s b))) id
            else done (put p id (some (entered s b))))
          >>= λ q. done (q, hs))
  unfolding on_recv then_frames
  after_run b here state run =
      let here' =
        get_elem?-set_self p.sessions id (some (entered s b))
          (get_elem?-in_range_inv p.sessions id here) in
      elim (Bool-cases (ltb 0 b.size)) [
        | inl left ↦
            rw
              (
                deref-some p id here,
                state,
                run,
                left,
                deref-some (put p id (some (entered s b))) id here',
              )
              refl
        | inr none_left ↦ rw (deref-some p id here, state, run, none_left) refl
      ]

  -- onRecv of a session that waits for the response to its handshake, with 13 bytes or more that
  -- begin with `HTTP` and with an empty line in them: whatever the status of the response is, the
  -- response leaves the read buffer, and what is behind it is read as frames. onHandShake changes
  -- nothing.
  pub on_recv-accepts_any :
      (more : List ℕ) (pos : ℕ)
      → session_at p id ≡ some (some s)
      → Contents.IsValid s.read_buffer
      → s.user_data ≡ 1
      → 13 ≤ s.read_buffer.size
      → contents s.read_buffer ≡ 72 ∷ 84 ∷ 84 ∷ 80 ∷ more
      → memstr (contents s.read_buffer) blank_line 4 ≡ some pos
      → ((q : Poller) → mh.on_hand_shake q id ≡ done q)
      → (b : MessageBuffer) × Contents.IsValid b
        × (contents b ≡ drop (pos + 4) (contents s.read_buffer))
        × (on_recv a h mh fuel p hs (some id) ≡ (
            (if ltb 0 b.size
              then on_frames fuel mh (put p id (some (entered s b))) id
              else done (put p id (some (entered s b))))
            >>= λ q. done (q, hs)))
  on_recv-accepts_any more pos here v state size http line quiet =
      let inside = found_inside (contents s.read_buffer) pos line in
      let (b, run, (v', same, size', cap')) =
        erase_drops s.read_buffer (pos + 4) v
          (omega (arith, inside, length-contents s.read_buffer v)) in
      let long : ltb s.read_buffer.size 13 ≡ false = ground arith in
      let whole = received_bytes_lem s.read_buffer v in
      let response =
        response_run pos b here long (ap (λ c. memstr c blank_line 4) whole ∙ line)
          (ap (λ c. memstr c status_line 4) (whole ∙ http) ∙ http_found more) run
          (quiet (put p id (some (entered s b)))) in
      (b, v', same, after_run b here state response)
