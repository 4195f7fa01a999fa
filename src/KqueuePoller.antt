-- ===== src/KqueuePoller.antt =====
-- code/ChainSocket/KqueuePoller.h and KqueuePoller.cpp: interest in events and what kevent() reports
-- of them, on a system with kqueue. The answers of kevent() and the values of its filters come from
-- outside.
pub mod Filters
use chain_socket.Base.{
  ℕ, ◌*◌, ◌/◌, ◌%◌, Bool, true, false, List, [], ◌∷◌, ◌++◌, Option, none, some, ltb, ◌==◌,
  if◌then◌else◌, length, get_elem?, drop, bit_and,
}
use chain_socket.Base.Outcome.{Outcome, done, fault, ◌>>=◌}
use chain_socket.SelectPoller.{Flags}

pub data Filter : Type 0 where
  evfilt_read evfilt_write : Filter

-- A change with EV_ADD, and EV_ONESHOT for `once`.
pub record Change : Type 0 where
  pub ident : ℕ
  pub filter : Filter
  pub once : Bool
  pub udata : ℕ

-- A reported event with its flags EV_ADD and so on as a number.
pub record Kevent : Type 0 where
  pub filter : Filter
  pub flags : ℕ
  pub udata : ℕ

-- `changes` are those that kevent() was given, in their order; it prints a message when one of them
-- is refused.
pub record KqueuePoller : Type 0 where
  pub max_event : ℕ
  pub event_list : List Kevent
  pub changes : List Change

-- The constructor, with what malloc left in the block of events.
abbrev pub new_poller : ℕ → List Kevent → KqueuePoller
new_poller max_event garbage = record { max_event = max_event; event_list = garbage; changes = [] }

pub disable_write : KqueuePoller → ℕ → KqueuePoller
disable_write p fd = p

change : KqueuePoller → ℕ → Filter → Flags → ℕ → KqueuePoller
change p fd filter flag ptr = record p {
  changes = p.changes ++ record { ident = fd; filter = filter; once = flag.once; udata = ptr } ∷ [];
}

pub poll_mod : KqueuePoller → ℕ → Flags → ℕ → KqueuePoller
poll_mod p fd flag ptr =
    let q = if flag.write then change p fd evfilt_write flag ptr else p in
    if flag.read then change q fd evfilt_read flag ptr else q

pub poll_add : KqueuePoller → ℕ → Flags → ℕ → KqueuePoller
poll_add p fd flag ptr =
    let q = if flag.write then change p fd evfilt_write flag ptr else p in
    if flag.read then change q fd evfilt_read flag ptr else q

pub poll_del : KqueuePoller → ℕ → KqueuePoller
poll_del p fd = p

-- The seconds and nanoseconds of the timeout for a time that is not negative.
pub timeout : ℕ → ℕ × ℕ
timeout time = (time / 1000, time % 1000 * 1000)

abbrev pub max_events : ℕ
max_events = 4096

-- What kevent() answers to a number of events and a timeout; `none` is an error.
abbrev pub Wait : Type 0
Wait = ℕ → ℕ × ℕ → Option (List Kevent)

-- The events are written to a block of `maxEvent`.
stored : KqueuePoller → Option (List Kevent) → Outcome (KqueuePoller × Option ℕ)
stored p none = done (p, none)
stored p (some es) =
    if ltb p.max_event (length es)
    then fault
    else done (record p { event_list = es ++ drop (length es) p.event_list }, some (length es))

pub poll_get_events : Wait → KqueuePoller → ℕ → Outcome (KqueuePoller × Option ℕ)
poll_get_events kevent p time = stored p (kevent max_events (timeout time))

kevent_at : KqueuePoller → ℕ → Outcome Kevent
kevent_at p index = elim (get_elem? p.event_list index) [ none ↦ fault | some e ↦ done e ]

pub get_event_conn : KqueuePoller → ℕ → Outcome ℕ
get_event_conn p index = kevent_at p index >>= λ e. done e.udata

-- The values of EVFILT_READ and EVFILT_WRITE as words of 32 bits.
pub record FilterWords : Type 0 where
  pub read_word : ℕ
  pub write_word : ℕ

pub get_event_triger_flag : FilterWords → KqueuePoller → ℕ → Outcome Flags
get_event_triger_flag w p index = do
  e ← kevent_at p index
  done (record {
    read = if bit_and e.flags w.read_word == 0 then false else true;
    write = if bit_and e.flags w.write_word == 0 then false else true;
    once = false;
  })
