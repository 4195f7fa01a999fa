-- ===== src/IocpPoller/Loop/Stop.antt =====
-- Poller::stop of code/ChainSocket/IOCPPoller.cpp.
use chain_socket.Base.{
  ℕ, zero, suc, ◌≡◌, refl, ap, ◌∙◌, true, List, [], ◌∷◌, Option, none, some, some-injective,
  get_elem?,
}
use chain_socket.Base.Outcome.{fault}
use chain_socket.IocpPoller.{IocpData, Poller, closes, handle_closed, called}
use chain_socket.IocpPoller.Slots.{session_at}
use chain_socket.IocpPoller.Loop.{free_all, close_all, stop}

free_all_null :
    (ds : List (Option IocpData)) (i : ℕ) → get_elem? ds i ≡ some none → free_all ds ≡ fault
unfolding free_all
free_all_null [] i e = absurd (cc)
free_all_null (none ∷ ds) i e = refl
free_all_null (some d ∷ ds) zero e = absurd (let both = some-injective _ _ e in cc)
free_all_null (some d ∷ ds) (suc i) e = rw (free_all_null ds i e) refl

close_all_sessions : (fds : List ℕ) (p : Poller) → (close_all fds p).sessions ≡ p.sessions
unfolding close_all
close_all_sessions [] p = refl
close_all_sessions (fd ∷ fds) p = close_all_sessions fds (called p (closes fd))

-- stop, on a poller that runs and whose table has a free slot, reads a null pointer.
pub stop_faults :
    (p : Poller) (i : ℕ) → p.is_run ≡ true → session_at p i ≡ some none → stop p ≡ fault
unfolding stop
stop_faults p i runs free =
    let same = close_all_sessions p.listen_fds (called p handle_closed) in
    let null =
      free_all_null (close_all p.listen_fds (called p handle_closed)).sessions i
        (ap (λ ds. get_elem? ds i) same ∙ free) in
    rw (null, runs) refl
