-- ===== src/Hub/Tasks.antt =====
-- code/ChainSocket/MsgHub.cpp: the tasks that other threads leave for the hub. The queue is a
-- library's; what try_dequeue gives is an argument, and `none` is its failure.
pub mod Ready
use chain_socket.Base.{
  ℕ, Bool, true, false, List, Option, none, some, ltb, ◌==◌, if◌then◌else◌, ◌≡◌, refl, ◌≢◌, ◌≤◌,
  ◌⊎◌, arith, Bool-cases, inl, inr,
}
use chain_socket.Base.Outcome.{Outcome, done, aborted, fault, ◌>>=◌}
use chain_socket.Buffer.{Allocator}
use chain_socket.Session.{Session}
use chain_socket.Poller.{Handlers, slot, send_to, close_session}
use chain_socket.Connect.{Attempt}
use chain_socket.Hub.{HubHandlers, MsgHub, connect_to}

-- The type of a task with what its data points to: nothing, a SendTask, a CloseTask or a
-- ConnectTask.
pub data Task : Type 0 where
  nothing : Task
  send_task : List ℕ → Task
  close_task : ℕ → Task
  connect_task : List ℕ → ℕ → ℕ → Task
  unknown : Task

-- A session's pointer is its index, and `none` the null pointer.
pub record ConnectionTask : Type 0 where
  pub sess_ptr : Option ℕ
  pub session_id : ℕ
  pub len : ℕ
  pub task : Task

-- `sessions[sessionId] == sessPtr`
pub is_current : ConnectionTask → Option Session → Bool
is_current t none = elim t.sess_ptr [ none ↦ true | some id ↦ false ]
is_current t (some s) = elim t.sess_ptr [ none ↦ false | some id ↦ id == t.session_id ]

-- What connectTo takes from outside: its socket, the timer's number, the clock and connect().
pub record Outside : Type 0 where
  pub fd : ℕ
  pub fun : ℕ
  pub now : ℕ
  pub later : ℕ
  pub attempt : Attempt

-- The sizes are those of SendTask, CloseTask and ConnectTask with pointers of 8 bytes. sendTo
-- dereferences its pointer.
pub run_task :
    Allocator
    → Session
    → HubHandlers
    → Handlers
    → Outside
    → MsgHub
    → ConnectionTask
    → Task
    → Outcome MsgHub
run_task a garbage hh h o m t nothing = aborted
run_task a garbage hh h o m t (send_task bytes) =
    if ltb 16 t.len
    then (elim t.sess_ptr [
      | none ↦ fault
      | some id ↦ send_to a h m.poller id bytes >>= λ p. done (record m { poller = p })
    ])
    else done m
run_task a garbage hh h o m t (close_task reason) =
    if ltb 8 t.len
    then (close_session m.poller t.session_id >>= λ p. done (record m { poller = p }))
    else done m
run_task a garbage hh h o m t (connect_task ip port timeout) =
    if ltb 136 t.len
    then (connect_to a garbage hh m o.fd ip port timeout o.fun o.now o.later o.attempt
        >>= λ (status, m'). done m')
    else done m
run_task a garbage hh h o m t unknown = done m

pub on_task :
    Allocator
    → Session
    → HubHandlers
    → Handlers
    → Outside
    → MsgHub
    → Option ConnectionTask
    → Outcome MsgHub
on_task a garbage hh h o m none = done m
on_task a garbage hh h o m (some t) = do
  s ← slot m.poller t.session_id
  if is_current t s then run_task a garbage hh h o m t t.task else done m

-- The sizes that tasks are compared with.
abbrev size_of : Task → ℕ
size_of nothing = 0
size_of (send_task bytes) = 16
size_of (close_task reason) = 8
size_of (connect_task ip port timeout) = 136
size_of unknown = 0

ignored :
    (a : Allocator) (garbage : Session) (hh : HubHandlers) (h : Handlers) (o : Outside) (m : MsgHub)
    (t : ConnectionTask) (task : Task)
    → task ≢ nothing
    → t.len ≤ size_of task
    → run_task a garbage hh h o m t task ≡ done m
unfolding run_task
ignored a garbage hh h o m t nothing some_task small = absurd (some_task refl)
ignored a garbage hh h o m t (send_task bytes) some_task small =
    let over : ltb 16 t.len ≡ false = ground arith in rw over refl
ignored a garbage hh h o m t (close_task reason) some_task small =
    let over : ltb 8 t.len ≡ false = ground arith in rw over refl
ignored a garbage hh h o m t (connect_task ip port timeout) some_task small =
    let over : ltb 136 t.len ≡ false = ground arith in rw over refl
ignored a garbage hh h o m t unknown some_task small = refl

-- onTask changes nothing for a task of any type but 0 whose length is at most the size of the
-- structure that its data points to, so also for one of exactly that size, and nothing for a task of
-- a session that is no longer in its slot. The slot is one of the table.
pub on_task-ignores :
    (a : Allocator) (garbage : Session) (hh : HubHandlers) (h : Handlers) (o : Outside) (m : MsgHub)
    (t : ConnectionTask) (s : Option Session)
    → slot m.poller t.session_id ≡ done s
    → ((t.task ≢ nothing) × (t.len ≤ size_of t.task)) ⊎ (is_current t s ≡ false)
    → on_task a garbage hh h o m (some t) ≡ done m
unfolding on_task
on_task-ignores a garbage hh h o m t s here (inr stale) = rw (here, stale) refl
on_task-ignores a garbage hh h o m t s here (inl (some_task, small)) =
    elim (Bool-cases (is_current t s)) [
      | inl current ↦ rw (here, current) (ignored a garbage hh h o m t t.task some_task small)
      | inr stale ↦ rw (here, stale) refl
    ]
