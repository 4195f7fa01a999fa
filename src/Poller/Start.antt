-- ===== src/Poller/Start.antt =====
-- A new poller is ready.
use chain_socket.Base.{
  ℕ, zero, suc, ◌≡◌, refl, ap, ◌≢◌, some, some-injective, arith, length, get_elem?,
}
use chain_socket.Poller.{Kernel, nulls, init}
use chain_socket.Poller.Ready.{IsReady}
use chain_socket.Session.{Session}

length-nulls : (n : ℕ) → length (nulls n) ≡ n
unfolding nulls
length-nulls zero = refl
length-nulls (suc n) = ap suc (length-nulls n)

nulls_empty : (n i : ℕ) (s : Session) → get_elem? (nulls n) i ≢ some (some s)
unfolding nulls
nulls_empty zero i s e = absurd (cc)
nulls_empty (suc n) zero s e = absurd (let both = some-injective _ _ e in cc)
nulls_empty (suc n) (suc i) s e = nulls_empty n i s e

pub init-IsReady : (k : Kernel) → IsReady (init k)
unfolding init
init-IsReady k = record {
  valid = record {
    size = length-nulls 30000;
    cursor = omega arith;
    named = λ i s e. absurd (nulls_empty 30000 i s e);
  };
  usable = λ i s e. absurd (nulls_empty 30000 i s e);
}
