-- ===== src/IocpPoller/Slots.antt =====
-- IdGen and initNewSession of code/ChainSocket/IOCPPoller.cpp: which slot a new session gets.
use chain_socket.Base.{ℕ, ◌%◌, ◌≤◌, ◌<◌, ◌≡◌, ◌⊎◌, true, false, Option, none, some, get_elem?}
use chain_socket.Base.Outcome.{Outcome, done, fault}
use chain_socket.Buffer.{Allocator}
use chain_socket.Session.{SessionType}
use chain_socket.IocpPoller.{
  IocpData, Poller, slot, deref, put, behind, next_port, new_data, joined,
}

abbrev pub session_at : Poller → ℕ → Option (Option IocpData)
session_at p i = get_elem? p.sessions i

abbrev pub IsTaken : Poller → ℕ → Type 0
IsTaken p i = (d : IocpData) × (session_at p i ≡ some (some d))

-- The `i`th slot behind the cursor, around the table.
abbrev pub ahead : Poller → ℕ → ℕ
ahead p i = behind p.cur_id i % p.max_id

pub slot-some :
    (p : Poller) (i : ℕ) {o : Option IocpData} → session_at p i ≡ some o → slot p i ≡ done o
unfolding slot
slot-some p i e = rw (e, slot)

pub deref-some :
    (p : Poller) (i : ℕ) {d : IocpData} → session_at p i ≡ some (some d) → deref p i ≡ done d
unfolding deref
deref-some p i e = rw (slot-some p i e)

-- What IdGen finds: the first free slot behind the cursor; or nothing, when all but the cursor's own
-- slot are taken.
pub data Free (p : Poller) (r : Option ℕ) : Type 0 where
  all_taken : ((j : ℕ) → 1 ≤ j → j < p.max_id → IsTaken p (ahead p j)) → r ≡ none → Free p r
  first_free :
      (k : ℕ)
      → 1 ≤ k
      → k < p.max_id
      → ((j : ℕ) → 1 ≤ j → j < k → IsTaken p (ahead p j))
      → session_at p (ahead p k) ≡ some none
      → r ≡ some (ahead p k)
      → Free p r

-- The table with the session `d` in slot `id`, where the cursor stands now.
abbrev pub entered : Poller → ℕ → IocpData → Poller
entered p id d = put (record p { cur_id = some id }) id (some d)

-- What initNewSession makes of a table.
pub data Made (a : Allocator) (garbage : IocpData) (p : Poller) (fd : ℕ) (type : SessionType)
    (r : Outcome (Poller × Option ℕ)) : Type 0 where
  nowhere :
      ((j : ℕ) → 1 ≤ j → j < p.max_id → IsTaken p (ahead p j))
      → r ≡ fault
      → Made a garbage p fd type r
  made_at :
      (k id : ℕ)
      → 1 ≤ k
      → k < p.max_id
      → id ≡ ahead p k
      → ((j : ℕ) → 1 ≤ j → j < k → IsTaken p (ahead p j))
      → session_at p id ≡ some none
      → (let d = new_data a garbage id fd type in
          let q = next_port (entered p id d) in
          ((q.0 ≡ true) × (r ≡ done (put q.1 id (some (joined d fd)), some id)))
          ⊎ ((q.0 ≡ false) × (r ≡ done (q.1, none))))
      → Made a garbage p fd type r
