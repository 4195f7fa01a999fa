-- ===== src/Poller/Ready.antt =====
-- The state between two events of Poller::loopOnce, and the calls of send and recv that keep it.
use chain_socket.Base.{
  ℕ, ◌<◌, ◌≡◌, refl, sym, ◌∙◌, ◌≢◌, Option, some, arith, length, length-set, set,
  get_elem?-in_range_inv, get_elem?-set_self, get_elem?-set_ne, some-injective, ℕ_discrete,
}
use chain_socket.Base.Outcome.{Yields}
use chain_socket.Buffer.Contents.{Grants, erase_drops}
use chain_socket.Buffer.Contents
use chain_socket.Session.{Session, unused}
use chain_socket.Poller.{Poller, Handlers, Kernel, put}
use chain_socket.Poller.Table.{IsValid, session_at, IsTaken, put-IsValid}

-- Both buffers of the session can be used, and its type is one that loopOnce knows.
pub record IsUsable (s : Session) : Type 0 where
  pub reads : Contents.IsValid s.read_buffer
  pub writes : Contents.IsValid s.write_buffer
  pub typed : s.type ≢ unused

-- The table is valid, and so is every session in it.
pub record IsReady (p : Poller) : Type 0 where
  pub valid : IsValid p
  pub usable : (i : ℕ) (s : Session) → session_at p i ≡ some (some s) → IsUsable s

-- Ready again, with as many slots.
pub record Next (p p' : Poller) : Type 0 where
  pub ready : IsReady p'
  pub size : p'.max_id ≡ p.max_id

pub Next-refl : (p : Poller) → IsReady p → Next p p
Next-refl p r = record { ready = r; size = refl }

pub Next-trans : (p q r : Poller) → Next p q → Next q r → Next p r
Next-trans p q r k l = record { ready = l.ready; size = l.size ∙ k.size }

-- The callbacks return and leave the poller ready. They may close sessions, open new ones, and
-- change what the buffers hold.
pub record AreSound (h : Handlers) : Type 0 where
  pub recv : (p : Poller) (id n : ℕ) → IsReady p → IsTaken p id → Yields (Next p) (h.on_recv p id n)
  pub send : (p : Poller) (id n : ℕ) → IsReady p → IsTaken p id → Yields (Next p) (h.on_send p id n)
  pub accept :
      (p : Poller) (listener : Option ℕ) (aid : ℕ)
      → IsReady p
      → IsTaken p aid
      → Yields (Next p) (h.on_accept p listener aid)

-- A change that only concerns the kernel.
pub kernel-Next : (p : Poller) (k : Kernel) → IsReady p → Next p (record p { kernel = k })
kernel-Next p k r = record {
  ready = record {
    valid = record { size = r.valid.size; cursor = r.valid.cursor; named = r.valid.named };
    usable = r.usable;
  };
  size = refl;
}

-- A slot that gets a usable session under its own name, or none.
pub put-Next :
    (p : Poller) (id : ℕ) (o : Option Session)
    → IsReady p
    → ((s : Session) → o ≡ some s → (s.session_id ≡ id) × IsUsable s)
    → Next p (put p id o)
put-Next p id o r own = record {
  ready = record {
    valid = put-IsValid p id o r.valid (λ s e. (own s e).0);
    usable = λ i s e. elim (ℕ_discrete id i) [
      | yes same ↦
          let inside : i < length p.sessions =
            omega (
              arith,
              length-set p.sessions id o,
              get_elem?-in_range_inv (set p.sessions id o) i e,
            ) in
          let written = get_elem?-set_self p.sessions id o (omega arith) in
          (own s (some-injective _ _ (sym written ∙ rw (← same) at e))).1
      | no other ↦ r.usable i s (sym (get_elem?-set_ne p.sessions o other) ∙ e)
    ];
  };
  size = refl;
}
