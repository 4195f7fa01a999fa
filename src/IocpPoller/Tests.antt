-- ===== src/IocpPoller/Tests.antt =====
-- The theorems of the Windows poller at a concrete poller.
use chain_socket.Base.{
  ℕ, ◌-◌, ◌≡◌, refl, sym, ◌∙◌, subst, inl, inr, List, [], ◌∷◌, some, none, arith, true, false,
}
use chain_socket.Base.Outcome.{done, done-injective, ◌>>=◌}
use chain_socket.Buffer.{MessageBuffer, alloc}
use chain_socket.Buffer.Contents.{contents, alloc_keeps}
use chain_socket.Buffer.Contents
use chain_socket.Buffer.Samples.{generous, generous-Grants, three, three-IsValid}
use chain_socket.Session.{accept}
use chain_socket.Poller.{RecvResult, received, recv_again, sent, send_again}
use chain_socket.IocpPoller.{IocpData, Poller, Handlers, blank_context, closes, shuts, put, called}
use chain_socket.IocpPoller.Traffic.{
  base_on_recv, base_on_send, base_on_accept, with_recvs, with_read, with_write, post_recv, do_recv,
  post_send,
}
use chain_socket.IocpPoller.Traffic.Receive.{Fits, took_appends, do_recv-drains, do_recv_loses}
use chain_socket.IocpPoller.Traffic.Send.{
  IsQuiet, Ended, with_sends, writing, ready_to_write, post_send-Ended,
}

-- A session in slot 0 with three bytes in each buffer.
abbrev streaming : IocpData
streaming = record {
  conn = record {
    fd = 7;
    session_id = 0;
    write_buffer = three;
    read_buffer = three;
    type = accept;
    heart_beats = 0;
    can_read = false;
    io_pending = false;
    is_connect = false;
    user_data = 0;
    on_user_data_destory = none;
  };
  io_ctx_r = blank_context;
  io_ctx_s = blank_context;
}

-- A table of three slots, and a system with some answers.
abbrev polled : List RecvResult → Poller
polled recvs = record {
  sessions = some streaming ∷ none ∷ none ∷ [];
  cur_id = some 0;
  max_id = 3;
  is_run = true;
  listen_fds = [];
  system = record {
    recvs = recvs;
    sends = sent 1 ∷ sent 1 ∷ send_again ∷ [];
    posts = [];
    ports = false ∷ [];
    sockets = [];
    accepts = [];
    calls = [];
  };
}

-- The callbacks of the base class.
abbrev quiet : Handlers
quiet = record { on_recv = base_on_recv; on_send = base_on_send; on_accept = base_on_accept }

abbrev chunks : List (List ℕ)
chunks = (40 ∷ 50 ∷ []) ∷ (60 ∷ []) ∷ []

chunks_fit : (b : MessageBuffer) → alloc generous three ≡ done b → Fits generous b chunks
chunks_fit b run =
    let (b', run', (v, same, size, space)) =
      alloc_keeps generous three generous-Grants three-IsValid (omega arith) in
    let one : b' ≡ b = done-injective (sym run' ∙ run) in
    subst (λ x. Fits generous x chunks) one
      (
        (λ e. absurd (omega (arith, e))),
        omega (arith, size, space),
        omega (arith, size),
        λ c ran.
            let (c', ran', (v', same', size', space')) =
              took_appends generous b' (40 ∷ 50 ∷ []) generous-Grants v (omega (arith, size, space))
                (omega (arith, size)) in
            let two : c' ≡ c = done-injective (sym ran' ∙ ran) in
            subst (λ x. Fits generous x ((60 ∷ []) ∷ [])) two
              (
                (λ e. absurd (omega (arith, e))),
                omega (arith, size, size', space'),
                omega (arith, size, size'),
                λ x r. tt,
              ),
      )

abbrev arriving : RecvResult → Poller
arriving r = polled (received (40 ∷ 50 ∷ []) ∷ received (60 ∷ []) ∷ r ∷ [])

do_recv-drains_example :
    (b : MessageBuffer) × Contents.IsValid b
    × (contents b ≡ 10 ∷ 20 ∷ 30 ∷ 40 ∷ 50 ∷ 60 ∷ [])
    × (do_recv generous quiet (arriving recv_again) 0 ≡ (
        base_on_recv (with_recvs (with_read (arriving recv_again) 0 streaming b) []) 0 3 >>= λ p'.
        post_recv p' 0))
do_recv-drains_example =
    do_recv-drains generous quiet (arriving recv_again) 0 streaming chunks [] generous-Grants refl
      three-IsValid (omega arith) chunks_fit (λ e. absurd (cc)) refl

do_recv_loses_example :
    do_recv generous quiet (arriving (received [])) 0
    ≡ done
        (put (called (called (with_recvs (arriving (received [])) []) (closes 7)) (shuts 7)) 0 none)
do_recv_loses_example =
    do_recv_loses generous quiet (arriving (received [])) 0 streaming chunks (received []) []
      generous-Grants refl three-IsValid (omega arith) chunks_fit (inl refl) refl

quiet-IsQuiet : IsQuiet quiet
unfolding base_on_send
quiet-IsQuiet p id n = refl

post_send-Ended_example :
    (b : MessageBuffer) × Contents.IsValid b
    × (contents b ≡ 30 ∷ [])
    × (b.size ≡ 3 - 2)
    × Ended
        (with_sends (with_write (polled []) 0 (ready_to_write streaming) b) (send_again ∷ []))
        0
        (writing (ready_to_write streaming) b)
        b.size
        (send_again ∷ [])
        (post_send 3 quiet (polled []) 0)
post_send-Ended_example =
    post_send-Ended quiet (polled []) 0 streaming (1 ∷ 1 ∷ []) (send_again ∷ []) 3 quiet-IsQuiet
      refl three-IsValid ((λ e. absurd (omega (arith, e))), ((λ e. absurd (omega (arith, e))), tt))
      (omega arith) refl (inr ((λ e. absurd (omega (arith, e))), [], refl)) (omega arith)
