-- ===== src/Hub/Opens.antt =====
-- MsgHub::connectTo of code/ChainSocket/MsgHub.cpp keeps the hub ready.
use chain_socket.Base.{ℕ, refl, List}
use chain_socket.Base.Outcome.{Yields}
use chain_socket.Buffer.{Allocator}
use chain_socket.Session.{Session}
use chain_socket.Poller.{Poller}
use chain_socket.Poller.Table.{Opens}
use chain_socket.Poller.Ready.{IsReady, Next, Next-refl}
use chain_socket.Connect.{ConnectPoller, Attempt, established, pending, refused}
use chain_socket.Connect
use chain_socket.Connect.Result.Starts.{connect_to-IsTimed}
use chain_socket.Hub.{HubHandlers, MsgHub, after_connect, connect_to}
use chain_socket.Hub.Wait.Round.{AreReady, IsReadyHub, open_session-Next}

module _ (a : Allocator) (garbage : Session) (hub : HubHandlers) (opens : Opens a garbage)
    (ready : AreReady hub) where
  after_connect-Next :
      (p : Poller) (fd : ℕ) (ip : List ℕ) (port : ℕ) (attempt : Attempt)
      → IsReady p
      → Yields (λ r. Next p r.1) (after_connect a garbage hub p fd ip port attempt)
  unfolding after_connect
  after_connect-Next p fd ip port established r =
      open_session-Next a garbage hub opens ready p fd ip port refused r
  after_connect-Next p fd ip port pending r = (_, refl, Next-refl p r)
  after_connect-Next p fd ip port Connect.failed r =
      let (q, run, k) = ready.on_connect_failed p ip port refused r in rw run (_, refl, k)

  pub connect_to-IsReadyHub :
      (m : MsgHub) (fd : ℕ) (ip : List ℕ) (port timeout fun now now' : ℕ) (attempt : Attempt)
      → IsReadyHub m
      → Yields
          (λ r. IsReadyHub r.1)
          (connect_to a garbage hub m fd ip port timeout fun now now' attempt)
  unfolding connect_to
  connect_to-IsReadyHub m fd ip port timeout fun now now' attempt r =
      let ((ret, socket, c), run, (watched, timed)) =
        connect_to-IsTimed m.connects fd ip port timeout fun now now' attempt r.watched r.timed in
      let ((status, p), ran, k) = after_connect-Next m.poller socket ip port ret r.poller in
      rw (run, ran) (_, refl, record { poller = k.ready; watched = watched; timed = timed })
