-- ===== src/Poller/Table.antt =====
-- The table of sessions: initNewSession finds a free slot whenever there is one, and closeSession
-- frees it.
use native.Mathlib.Nat.{mod-add-mod, mod-lt}
use chain_socket.Base.{
  ℕ, zero, suc, ◌+◌, ◌%◌, ◌<◌, ◌≡◌, refl, sym, ◌∙◌, ap, ◌≢◌, ◌⊎◌, inl, inr, ◌∷◌, true, Option, none,
  some, arith, length, get_elem?, set, get_elem?-in_range, get_elem?-in_range_inv, some-injective,
  subst, length-set, get_elem?-set_self, get_elem?-set_ne, Option-cases, ℕ_discrete,
}
use chain_socket.Base.Outcome.{done, Yields}
use chain_socket.Buffer.{Allocator, buffer_size}
use chain_socket.Session.{Session, SessionType}
use chain_socket.Poller.{
  Poller, slot, put, advance, session_size, is_blank, set_up, fresh_session, init_loop,
  init_new_session, close_session, syscall, closes, poll_del,
}

abbrev pub session_at : Poller → ℕ → Option (Option Session)
session_at p i = get_elem? p.sessions i

abbrev pub IsTaken : Poller → ℕ → Type 0
IsTaken p i = (s : Session) × (session_at p i ≡ some (some s))

-- The table has max_id slots, and a session is in the slot of its name.
pub record IsValid (p : Poller) : Type 0 where
  pub size : length p.sessions ≡ p.max_id
  pub cursor : p.cur_id < p.max_id
  pub named : (i : ℕ) (s : Session) → session_at p i ≡ some (some s) → s.session_id ≡ i

-- The table with its cursor `k` slots further on.
abbrev pub turned : Poller → ℕ → Poller
turned p k = record p { cur_id = (p.cur_id + k) % p.max_id }

turned-zero : (p : Poller) → IsValid p → turned p 0 ≡ p
turned-zero p v =
    let back : (p.cur_id + 0) % p.max_id ≡ p.cur_id = grind (arith, v.cursor) in
    ap (λ c. record p { cur_id = c }) back

turned-max_id : (p : Poller) → IsValid p → turned p p.max_id ≡ p
turned-max_id p v =
    let back : (p.cur_id + p.max_id) % p.max_id ≡ p.cur_id = grind (arith, v.cursor) in
    ap (λ c. record p { cur_id = c }) back

onwards : (c k m : ℕ) → ((c + k) % m + 1) % m ≡ (c + (k + 1)) % m
onwards c k m = mod-add-mod (c + k) m 1 ∙ ap (λ n. n % m) (omega arith)

advance-turned : (p : Poller) (k : ℕ) → advance (turned p k) ≡ turned p (k + 1)
advance-turned p k = ap (λ c. record p { cur_id = c }) (onwards p.cur_id k p.max_id)

pub slot-some :
    (p : Poller) (i : ℕ) {o : Option Session} → session_at p i ≡ some o → slot p i ≡ done o
unfolding slot
slot-some p i e = rw (e, slot)

one_more :
    (p : Poller) (k : ℕ)
    → ((j : ℕ) → j < k → IsTaken p ((p.cur_id + j) % p.max_id))
    → IsTaken p ((p.cur_id + k) % p.max_id)
    → (j : ℕ) → j < k + 1
    → IsTaken p ((p.cur_id + j) % p.max_id)
one_more p k taken used j h = elim (ℕ_discrete j k) [
  | yes e ↦ rw e used
  | no n ↦ taken j (omega arith)
]

-- What initNewSession promises of its result: no slot is free, and nothing has changed; or the
-- first free slot from the cursor on has the new session, and the cursor stands behind it.
pub data Found (a : Allocator) (garbage : Session) (p : Poller) (fd : ℕ) (type : SessionType)
    (r : Poller × Option ℕ) : Type 0 where
  full :
      ((j : ℕ) → j < p.max_id → IsTaken p ((p.cur_id + j) % p.max_id))
      → r ≡ (p, none)
      → Found a garbage p fd type r
  first_free :
      (k id : ℕ)
      → k < p.max_id
      → id ≡ (p.cur_id + k) % p.max_id
      → ((j : ℕ) → j < k → IsTaken p ((p.cur_id + j) % p.max_id))
      → session_at p id ≡ some none
      → r ≡ (put (turned p (k + 1)) id (some (set_up a garbage id fd type)), some id)
      → Found a garbage p fd type r

-- malloc grants the memory of a session, and no pointer in it makes `reset` free or call anything.
abbrev pub CanOpen : Allocator → Session → Type 0
CanOpen a garbage = (a.malloc session_size ≢ none) × (is_blank garbage ≡ true)

-- Its buffers are granted too.
abbrev pub Opens : Allocator → Session → Type 0
Opens a garbage = CanOpen a garbage × (a.malloc buffer_size ≢ none)

fresh_session-set_up :
    (a : Allocator) (garbage : Session) (id fd : ℕ) (type : SessionType)
    → CanOpen a garbage
    → fresh_session a garbage id fd type ≡ done (set_up a garbage id fd type)
unfolding fresh_session
fresh_session-set_up a garbage id fd type (granted, blank) =
    elim (Option-cases (a.malloc session_size)) [
      | inl refused ↦ absurd (granted refused)
      | inr (block, given) ↦ rw (fresh_session, given, blank) refl
    ]

module _ (a : Allocator) (garbage : Session) (p : Poller) (fd : ℕ) (type : SessionType)
    (can : CanOpen a garbage) where
  init_loop-Found :
      (n k : ℕ)
      → IsValid p
      → k + n ≡ p.max_id
      → ((j : ℕ) → j < k → IsTaken p ((p.cur_id + j) % p.max_id))
      → Yields (Found a garbage p fd type) (init_loop n a garbage (turned p k) fd type)
  unfolding init_loop
  init_loop-Found zero k v e taken =
      let k_max : k ≡ p.max_id = omega arith in
      (
        (turned p k, none),
        refl,
        full (λ j h. taken j (omega arith)) (rw (k_max, turned-max_id p v)),
      )
  init_loop-Found (suc n) k v e taken =
      let id = (p.cur_id + k) % p.max_id in
      let (o, here) =
        get_elem?-in_range p.sessions id
          (omega (arith, v.size, mod-lt (p.cur_id + k) {m = p.max_id} (omega arith))) in
      elim (Option-cases o) [
        | inl free ↦ (
          (advance (put (turned p k) id (some (set_up a garbage id fd type))), some id),
          rw (
            slot-some (turned p k) id (here ∙ ap some free),
            init_loop,
            fresh_session-set_up a garbage id fd type can,
          ),
          first_free k id (omega arith) refl taken (here ∙ ap some free)
              (rw (onwards p.cur_id k p.max_id)),
        )
        | inr (s, used) ↦
            rw (slot-some (turned p k) id (here ∙ ap some used), init_loop)
              (rw (advance-turned p k) (
                init_loop-Found n (k + 1) v (omega arith)
                  (one_more p k taken (s, here ∙ ap some used))))
      ]

-- Writing a session under its own name keeps the table valid.
pub put-IsValid :
    (p : Poller) (id : ℕ) (o : Option Session)
    → IsValid p
    → ((s : Session) → o ≡ some s → s.session_id ≡ id)
    → IsValid (put p id o)
put-IsValid p id o v own = record {
  size = length-set p.sessions id o ∙ v.size;
  cursor = v.cursor;
  named = λ i s e. elim (ℕ_discrete id i) [
    | yes same ↦
        let inside : i < length p.sessions =
          omega
            (arith, length-set p.sessions id o, get_elem?-in_range_inv (set p.sessions id o) i e) in
        let written = get_elem?-set_self p.sessions id o (omega arith) in
        own s (some-injective _ _ (sym written ∙ rw (← same) at e)) ∙ same
    | no other ↦ v.named i s (sym (get_elem?-set_ne p.sessions o other) ∙ e)
  ];
}

cursor-IsValid : (p : Poller) (c : ℕ) → IsValid p → c < p.max_id → IsValid (record p { cur_id = c })
cursor-IsValid p c v h = record { size = v.size; cursor = h; named = v.named }

Found-IsValid :
    (a : Allocator) (garbage : Session) (p : Poller) (fd : ℕ) (type : SessionType)
    (r : Poller × Option ℕ)
    → IsValid p
    → Found a garbage p fd type r
    → IsValid r.0
unfolding set_up
Found-IsValid a garbage p fd type r v (full all e) = subst (λ q. IsValid q.0) (sym e) v
Found-IsValid a garbage p fd type r v (first_free k id h at taken free e) =
    subst (λ q. IsValid q.0) (sym e)
      (put-IsValid (turned p (k + 1)) id _
        (cursor-IsValid p _ v (mod-lt (p.cur_id + (k + 1)) {m = p.max_id} (omega arith)))
        λ s same. cc)

-- On a valid table initNewSession returns, when malloc grants the memory of a session and nothing in
-- it makes reset free or call anything. It puts the new session into the first free slot from
-- the cursor on, and moves the cursor behind it; only when no slot is free does it return null,
-- and then the table is as it was. The table stays valid.
pub init_new_session-Found :
    (a : Allocator) (garbage : Session) (p : Poller) (fd : ℕ) (type : SessionType)
    → CanOpen a garbage
    → IsValid p
    → Yields (λ r. Found a garbage p fd type r × IsValid r.0) (init_new_session a garbage p fd type)
unfolding init_new_session
init_new_session-Found a garbage p fd type can v =
    let start = turned-zero p v in
    let (r, run, found) =
      init_loop-Found a garbage p fd type can p.max_id 0 v (omega arith)
        (λ j h. absurd (omega arith)) in
    (r, rw start at run, (found, Found-IsValid a garbage p fd type r v found))

-- What closeSession promises of its result.
pub record Closed (p : Poller) (id : ℕ) (p' : Poller) : Type 0 where
  pub valid : IsValid p'
  pub freed : session_at p' id ≡ some none
  pub others : (j : ℕ) → j ≢ id → session_at p' j ≡ session_at p j
  pub once :
      ((session_at p id ≡ some none) × (p' ≡ p))
      ⊎ ((s : Session) × (session_at p id ≡ some (some s))
          × (p'.kernel.calls ≡ closes s.fd ∷ p.kernel.calls))

-- closeSession on an index of a valid table frees that slot and no other, closes the socket of the
-- session in it exactly once, and does nothing if the slot is free already.
pub close_session-Closed :
    (p : Poller) (id : ℕ) → IsValid p → id < p.max_id → Yields (Closed p id) (close_session p id)
unfolding close_session poll_del
close_session-Closed p id v h =
    let (o, here) = get_elem?-in_range p.sessions id (omega (arith, v.size)) in
    elim (Option-cases o) [
      | inl free ↦ (
        p,
        rw (slot-some p id (here ∙ ap some free), close_session),
        record {
          valid = v;
          freed = here ∙ ap some free;
          others = λ j n. refl;
          once = inl (here ∙ ap some free, refl);
        },
      )
      | inr (s, used) ↦ (
        put (syscall p (closes s.fd)) id none,
        rw (slot-some p id (here ∙ ap some used), close_session),
        record {
          valid =
              put-IsValid (syscall p (closes s.fd)) id none
                (record { size = v.size; cursor = v.cursor; named = v.named })
                (λ s' e. absurd (cc));
          freed = get_elem?-set_self p.sessions id none (omega (arith, v.size));
          others = λ j n. get_elem?-set_ne p.sessions none (λ e. n (sym e));
          once = inr (s, here ∙ ap some used, refl);
        },
      )
    ]
