-- ===== src/IocpPoller/Accept/Leak.antt =====
-- The case ClientIoAccept of loopOnce in code/ChainSocket/IOCPPoller.cpp, when a session cannot be
-- made for a socket.
use chain_socket.Base.{
  ℕ, ◌≡◌, refl, false, Bool, List, ◌∷◌, Option, none, some, get_elem?-set_self,
  get_elem?-in_range_inv,
}
use chain_socket.Base.Outcome.{done}
use chain_socket.Buffer.{Allocator}
use chain_socket.Session.{accept}
use chain_socket.IocpPoller.{
  IocpData, Poller, Handlers, closes, called, id_gen, next_port, new_data, init_new_session,
}
use chain_socket.IocpPoller.Slots.{session_at, deref-some, entered}
use chain_socket.IocpPoller.Accept.{welcome, accept_loop}

refused_port :
    (p : Poller) (ports : List Bool)
    → p.system.ports ≡ false ∷ ports
    → next_port p ≡ (false, record p { system = record p.system { ports = ports } })
unfolding next_port
refused_port p ports e = rw e refl

-- When the completion port refuses a socket that WSAAccept returned, the loop closes `client`, the
-- socket of another session, and goes on. The socket itself stays open, in a session that keeps its
-- slot and that onAccept is not told of.
pub accept_loop_leaks :
    (a : Allocator) (garbage : IocpData) (h : Handlers) (p : Poller) (id client fd aid : ℕ)
    (fds : List (Option ℕ)) (d : IocpData) (ports : List Bool)
    → session_at p id ≡ some (some d)
    → id_gen p ≡ done (some aid)
    → session_at p aid ≡ some none
    → p.system.ports ≡ false ∷ ports
    → (q : Poller) × (new : IocpData) × (q.system.calls ≡ closes client ∷ p.system.calls)
      × (session_at q aid ≡ some (some new))
      × (new.conn.fd ≡ fd)
      × (accept_loop a garbage h p id client (some fd ∷ fds)
          ≡ accept_loop a garbage h q id client fds)
unfolding accept_loop init_new_session welcome new_data
accept_loop_leaks a garbage h p id client fd aid fds d ports here made free answers =
    let new = new_data a garbage aid fd accept in
    let q0 = entered p aid new in
    let q1 = record q0 { system = record q0.system { ports = ports } } in
    (
      called q1 (closes client),
      new,
      refl,
      get_elem?-set_self p.sessions aid (some new) (get_elem?-in_range_inv p.sessions aid free),
      refl,
      rw (deref-some p id here, made, refused_port q0 ports answers) refl,
    )
