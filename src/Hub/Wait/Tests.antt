-- ===== src/Hub/Wait/Tests.antt =====
-- waitMsg at a concrete hub.
use chain_socket.Base.{◌≡◌, sym, ap, ◌∙◌, ◌⊎◌, List, [], ◌∷◌, none, arith, false}
use chain_socket.Base.Outcome.{done, fault, done-injective, Yields}
use chain_socket.Buffer.Samples.{generous, generous-Grants}
use chain_socket.Poller.{Poller, Event}
use chain_socket.Poller.Loop.{AllFit, Failing}
use chain_socket.Poller.Loop.Samples.{zeroed, zeroed-Opens, polled, polled-IsReady}
use chain_socket.Connect.{ConnectPoller}
use chain_socket.Connect.Result.{get_result}
use chain_socket.Connect.Result.Samples.{connecting, connecting-IsWatched, connecting-IsTimed}
use chain_socket.Hub.{MsgHub, process_connect_sockets}
use chain_socket.Hub.Process.{
  class_handlers, class_handlers-Connects, process_connect_sockets-AllPlaced,
}
use chain_socket.Hub.Sessions.{hub_handlers}
use chain_socket.Hub.Wait.{wait_msg}
use chain_socket.Hub.Wait.Round.{IsReadyHub, Waited, wait_msg-Waited}
use chain_socket.Hub.Wait.Callbacks.{class_handlers-AreReady, hub_handlers-AreSound}

abbrev hub : MsgHub
hub = record { poller = polled; connects = connecting }

hub-IsReadyHub : IsReadyHub hub
hub-IsReadyHub = record {
  poller = polled-IsReady;
  watched = connecting-IsWatched;
  timed = connecting-IsTimed;
}

-- The listening session is reported.
abbrev reported : List Event
reported = record { id = 0; readable = false; writable = false } ∷ []

reported-AllFit :
    (c : ConnectPoller) (p : Poller)
    → process_connect_sockets generous zeroed class_handlers polled c.result_map ≡ done p
    → AllFit generous zeroed hub_handlers p reported
reported-AllFit c p run =
    let (q, run', (kept, placed)) =
      process_connect_sockets-AllPlaced generous zeroed class_handlers polled c.result_map
        zeroed-Opens.0 class_handlers-Connects polled-IsReady.valid in
    let one : q ≡ p = done-injective (sym run' ∙ run) in
    (
      record {
        inside = omega (arith, kept.size, ap (λ x. x.max_id) one);
        reads = λ e. absurd (cc);
        writes_only = λ r w. absurd (cc);
        writes_after = λ status p' r. absurd (cc);
      },
      λ p' ran. tt,
    )

-- Socket 5 has connected, and the time of socket 6 is over.
wait_msg-Waited_example :
    Yields
      (Waited generous zeroed hub_handlers hub 25 26 (λ k. none) reported)
      (wait_msg 2 generous zeroed class_handlers hub_handlers hub 25 26 (λ k. none) reported)
    ⊎ ((wait_msg 2 generous zeroed class_handlers hub_handlers hub 25 26 (λ k. none) reported
          ≡ fault)
        × (c : ConnectPoller) × (p : Poller) × (get_result 2 25 26 (λ k. none) connecting ≡ done c)
        × (process_connect_sockets generous zeroed class_handlers polled c.result_map ≡ done p)
        × Failing generous zeroed hub_handlers p reported)
wait_msg-Waited_example =
    wait_msg-Waited 2 generous zeroed class_handlers hub_handlers hub 25 26 (λ k. none) reported
      generous-Grants zeroed-Opens class_handlers-AreReady class_handlers-Connects
      hub_handlers-AreSound hub-IsReadyHub (omega arith) (omega arith)
      (λ c p got run. reported-AllFit c p run)
