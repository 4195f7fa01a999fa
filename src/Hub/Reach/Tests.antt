-- ===== src/Hub/Reach/Tests.antt =====
-- A hub that is reached by three calls.
use chain_socket.Base.{ℕ, List, [], ◌∷◌, ◌≡◌, none, arith, inl, inr, refl}
use chain_socket.Base.Outcome.{done, Yields}
use chain_socket.Buffer.Samples.{generous, generous-Grants}
use chain_socket.Poller.{Kernel}
use chain_socket.Poller.Start.{init-IsReady}
use chain_socket.Poller.Loop.Samples.{zeroed, zeroed-Opens}
use chain_socket.Timer.{Timer, circle}
use chain_socket.Connect.{Attempt, pending}
use chain_socket.Hub.{MsgHub, connect_to}
use chain_socket.Poller.Loop.{Failing-nonempty}
use chain_socket.Hub.Process.{class_handlers, class_handlers-Connects}
use chain_socket.Hub.Sessions.{hub_handlers}
use chain_socket.Hub.Wait.{wait_msg}
use chain_socket.Hub.Wait.Round.{IsReadyHub, wait_msg-Waited}
use chain_socket.Hub.Wait.Callbacks.{class_handlers-AreReady, hub_handlers-AreSound}
use chain_socket.Hub.Tasks.{close_task, ConnectionTask, Outside}
use chain_socket.Hub.Tasks.Ready.{TaskFits, on_task-IsReadyHub}
use chain_socket.Hub.Opens.{connect_to-IsReadyHub}
use chain_socket.Hub.Reach.{
  new_hub, connects, waits, runs, Reaches, at_once, further, new_hub-IsReadyHub, new_hub-Reaches,
}

abbrev silent : Kernel
silent = record { recvs = []; sends = []; accepts = []; calls = [] }

abbrev any_timer : Timer
any_timer = record { timer_type = circle; timer_fun = 1; interval = 0; expires = 0; heap_index = 0 }

abbrev start : MsgHub
start = new_hub silent (λ u. any_timer) 0

-- A task that closes the session in slot 0.
abbrev closing : ConnectionTask
closing = record { sess_ptr = none; session_id = 0; len = 16; task = close_task 1 }

abbrev world : Outside
world = record { fd = 5; fun = 1; now = 20; later = 20; attempt = pending }

closing-TaskFits : TaskFits generous start.poller closing
unfolding new_hub
closing-TaskFits = record {
  inside = omega (arith, (init-IsReady silent).valid.cursor);
  typed = λ e. absurd (cc);
  sends = λ bytes e. absurd (cc);
}

-- onTask with a task that closes, connectTo with a socket that is still connecting, then waitMsg.
journey : (m : MsgHub) × Reaches generous zeroed class_handlers hub_handlers start m
journey =
    let (m0, run0, r0) =
      on_task-IsReadyHub generous zeroed class_handlers hub_handlers world start closing
        generous-Grants zeroed-Opens class_handlers-AreReady hub_handlers-AreSound
        (new_hub-IsReadyHub silent (λ u. any_timer) 0) closing-TaskFits in
    let ((status, m1), run1, r1) =
      connect_to-IsReadyHub generous zeroed class_handlers zeroed-Opens class_handlers-AreReady m0 5
        (49 ∷ []) 80 100 1 20 20 pending r0 in
    let waited : (m2 : MsgHub) × (wait_msg 2 generous zeroed class_handlers hub_handlers m1 40 41
            (λ fd. none) []
          ≡ done m2) =
      elim (wait_msg-Waited 2 generous zeroed class_handlers hub_handlers m1 40 41 (λ fd. none) []
        generous-Grants zeroed-Opens class_handlers-AreReady class_handlers-Connects
        hub_handlers-AreSound r1 (omega arith) (omega arith) (λ c p got placed. tt)) [
          | inl (m2, run2, w) ↦ (m2, run2)
          | inr (bad, c, p, got, placed, fails) ↦
              absurd (Failing-nonempty generous zeroed hub_handlers p [] fails refl)
        ] in
    (
      waited.0,
      further
          (further (further at_once (runs world closing closing-TaskFits run0))
            (connects 5 (49 ∷ []) 80 100 1 20 20 pending status run1))
          (waits 2 40 41 (λ fd. none) [] (omega arith) (omega arith) (λ c p got placed. tt)
            waited.1),
    )

new_hub-Reaches_example :
    IsReadyHub journey.0
    × ((fd : ℕ) (ip : List ℕ) (port timeout fun now now' : ℕ) (attempt : Attempt)
        → Yields
            (λ r. IsReadyHub r.1)
            (connect_to generous zeroed class_handlers journey.0 fd ip port timeout fun now now'
              attempt))
new_hub-Reaches_example =
    new_hub-Reaches generous zeroed class_handlers hub_handlers silent (λ u. any_timer) 0 journey.0
      generous-Grants zeroed-Opens class_handlers-AreReady class_handlers-Connects
      hub_handlers-AreSound journey.1
