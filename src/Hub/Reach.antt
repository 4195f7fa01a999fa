-- ===== src/Hub/Reach.antt =====
-- Every hub that can be reached from a new one by calls of connectTo, waitMsg and onTask is ready
-- (code/ChainSocket/MsgHub.cpp).
mod Tests
use chain_socket.Base.{
  ℕ, ◌+◌, ◌^◌, ◌≤◌, ◌<◌, ◌≡◌, refl, sym, ap, ◌∙◌, ◌≢◌, List, [], ◌∷◌, Option, none, some, arith,
  subst, inl, inr,
}
use chain_socket.Base.Outcome.{Outcome, done, done-injective, Yields, ◌>>=◌}
use chain_socket.Buffer.{Allocator, buffer_size}
use chain_socket.Buffer.Contents.{Grants}
use chain_socket.Session.{Session}
use chain_socket.Poller.{Poller, Kernel, Handlers, Event, Status, init}
use chain_socket.Poller.Table.{Opens}
use chain_socket.Poller.Ready.{IsReady, Next, Next-refl, AreSound}
use chain_socket.Poller.Loop.{AllFit}
use chain_socket.Poller.Start.{init-IsReady}
use chain_socket.Timer.{Timer}
use chain_socket.Timer.New.{new_manager, new_manager-Sound, new_manager_idle}
use chain_socket.Connect.{ConnectPoller, Attempt, established, pending, refused}
use chain_socket.Connect
use chain_socket.Connect.Check.{IsWatched}
use chain_socket.Connect.Result.{get_result, IsTimed}
use chain_socket.Connect.Result.Starts.{connect_to-IsTimed}
use chain_socket.Hub.{HubHandlers, MsgHub, after_connect, connect_to, process_connect_sockets}
use chain_socket.Hub.Process.{Connects}
use chain_socket.Hub.Wait.{wait_msg}
use chain_socket.Hub.Opens.{connect_to-IsReadyHub}
use chain_socket.Hub.Tasks.{ConnectionTask, Outside, on_task}
use chain_socket.Hub.Tasks.Ready.{TaskFits, on_task-IsReadyHub}
use chain_socket.Hub.Wait.Round.{AreReady, IsReadyHub, Waited, wait_msg-Waited, open_session-Next}

-- `ConnectPoller::ConnectPoller`: a manager without timers that are set, and the timer `t`.
pub new_connects : (ℕ → Timer) → ℕ → ConnectPoller
new_connects garbage t = record {
  tm = new_manager garbage;
  connect_timer = t;
  connect_time = [];
  result_map = [];
  closed = [];
}

-- A new hub, after Poller::init.
pub new_hub : Kernel → (ℕ → Timer) → ℕ → MsgHub
new_hub k garbage t = record { poller = init k; connects = new_connects garbage t }

-- A call of connectTo, waitMsg or onTask that returns. What comes from outside of it is as
-- documented: the clock is not within 10 ms of its end, and recv and send report no more bytes than
-- they are asked for.
pub data Step (a : Allocator) (garbage : Session) (hub : HubHandlers) (h : Handlers) (m : MsgHub)
    : MsgHub → Type 0 where
  connects :
      (fd : ℕ) (ip : List ℕ) (port timeout fun now now' : ℕ) (attempt : Attempt) (status : Status)
      {m' : MsgHub}
      → connect_to a garbage hub m fd ip port timeout fun now now' attempt ≡ done (status, m')
      → Step a garbage hub h m m'
  waits :
      (fuel now now' : ℕ) (answer : ℕ → Option ℕ) (es : List Event) {m' : MsgHub}
      → now + 10 < 2 ^ 64
      → 2 ≤ fuel
      → ((c : ConnectPoller) (p : Poller)
          → get_result fuel now now' answer m.connects ≡ done c
          → process_connect_sockets a garbage hub m.poller c.result_map ≡ done p
          → AllFit a garbage h p es)
      → wait_msg fuel a garbage hub h m now now' answer es ≡ done m'
      → Step a garbage hub h m m'
  runs :
      (o : Outside) (t : ConnectionTask) {m' : MsgHub}
      → TaskFits a m.poller t
      → on_task a garbage hub h o m (some t) ≡ done m'
      → Step a garbage hub h m m'

pub data Reaches (a : Allocator) (garbage : Session) (hub : HubHandlers) (h : Handlers) (m : MsgHub)
    : MsgHub → Type 0 where
  at_once : Reaches a garbage hub h m m
  further :
      {n o : MsgHub}
      → Reaches a garbage hub h m n
      → Step a garbage hub h n o
      → Reaches a garbage hub h m o

pub new_hub-IsReadyHub :
    (k : Kernel) (garbage : ℕ → Timer) (t : ℕ) → IsReadyHub (new_hub k garbage t)
unfolding new_hub new_connects
new_hub-IsReadyHub k garbage t = record {
  poller = init-IsReady k;
  watched = record {
    sound = new_manager-Sound garbage;
    sorted = tt;
    watched = λ n. absurd (n refl);
    idle = λ e. new_manager_idle garbage t;
  };
  timed = record {
    alone = λ u n. new_manager_idle garbage u;
    periodic = λ n. absurd (n (new_manager_idle garbage t));
  };
}

module _ (a : Allocator) (garbage : Session) (hub : HubHandlers) (h : Handlers) (grants : Grants a)
    (opens : Opens a garbage) (ready : AreReady hub) (keeps : Connects hub)
    (sound : AreSound h) where
  Step-IsReadyHub : (m m' : MsgHub) → IsReadyHub m → Step a garbage hub h m m' → IsReadyHub m'
  Step-IsReadyHub m m' r (connects fd ip port timeout fun now now' attempt status e) =
      let (s, run, k) =
        connect_to-IsReadyHub a garbage hub opens ready m fd ip port timeout fun now now' attempt
          r in
      subst (λ x. IsReadyHub x.1) (done-injective (sym run ∙ e)) k
  Step-IsReadyHub m m' r (waits fuel now now' answer es fits enough plausible e) =
      elim (wait_msg-Waited fuel a garbage hub h m now now' answer es grants opens ready keeps sound
        r fits enough plausible) [
          | inl (n, run, w) ↦ subst IsReadyHub (done-injective (sym run ∙ e)) w.ready
          | inr (bad, c, p, got, placed, fails) ↦ absurd (let both = sym bad ∙ e in cc)
        ]
  Step-IsReadyHub m m' r (runs o t fits e) =
      let (n, run, k) = on_task-IsReadyHub a garbage hub h o m t grants opens ready sound r fits in
      subst IsReadyHub (done-injective (sym run ∙ e)) k

  Reaches-IsReadyHub : (m m' : MsgHub) → IsReadyHub m → Reaches a garbage hub h m m' → IsReadyHub m'
  Reaches-IsReadyHub m m' r at_once = r
  Reaches-IsReadyHub m m' r (further {n = n} before step) =
      Step-IsReadyHub n m' (Reaches-IsReadyHub m n r before) step

-- Every hub that calls of connectTo, waitMsg and onTask reach from a new hub is ready: its table is
-- valid, each session in it has two buffers that can be used, and the timer of the checks is set
-- exactly while sockets are connecting. Every call of connectTo from there returns. The calls are
-- those that return, whatever send answers. The callbacks return, leave the poller ready and, for
-- the hub's, keep sessions and their sockets; the allocator grants its requests, with nothing in the
-- memory of a session that makes reset free or call anything. In each call of waitMsg, the clock is
-- not within 10 ms of its end, two rounds of timers are allowed, recv and send report no more bytes
-- than they are asked for, and the sizes fit an int; the task of a call of onTask has a type, names a
-- slot of the table and, to send, a session, and fits in the same way.
pub new_hub-Reaches :
    (a : Allocator) (garbage : Session) (hub : HubHandlers) (h : Handlers) (k : Kernel)
    (timers : ℕ → Timer) (t : ℕ) (m : MsgHub)
    → Grants a
    → Opens a garbage
    → AreReady hub
    → Connects hub
    → AreSound h
    → Reaches a garbage hub h (new_hub k timers t) m
    → IsReadyHub m
      × ((fd : ℕ) (ip : List ℕ) (port timeout fun now now' : ℕ) (attempt : Attempt)
          → Yields
              (λ r. IsReadyHub r.1)
              (connect_to a garbage hub m fd ip port timeout fun now now' attempt))
new_hub-Reaches a garbage hub h k timers t m grants opens ready keeps sound reaches =
    let r =
      Reaches-IsReadyHub a garbage hub h grants opens ready keeps sound (new_hub k timers t) m
        (new_hub-IsReadyHub k timers t) reaches in
    (
      r,
      λ fd ip port timeout fun now now' attempt.
          connect_to-IsReadyHub a garbage hub opens ready m fd ip port timeout fun now now' attempt
            r,
    )
