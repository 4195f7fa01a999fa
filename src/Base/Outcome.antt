-- ===== src/Base/Outcome.antt =====
-- How a call of the C++ code ends, and the rules for calls that return.
use chain_socket.Base.{◌≡◌, refl}

-- `fault` is undefined behaviour (a copy outside its block, a null dereference, a signed overflow),
-- `aborted` is `abort()` or a failed `assert`, `no_fuel` is a loop of the model that was cut off.
pub data Outcome {ℓ} (A : Type ℓ) : Type ℓ where
  done : A → Outcome A
  aborted fault no_fuel : Outcome A

infixl 5 ◌>>=◌
abbrev pub ◌>>=◌ {ℓ κ} : {A : Type ℓ} {B : Type κ} → Outcome A → (A → Outcome B) → Outcome B
done a >>= f = f a
aborted >>= f = aborted
fault >>= f = fault
no_fuel >>= f = no_fuel

-- The call returns, with a value that satisfies `P`.
abbrev pub Yields {ℓ κ} : {A : Type ℓ} → (A → Type κ) → Outcome A → Type (ℓ ⊔ κ)
Yields {A} P r = (a : A) × (r ≡ done a) × P a

module _ {ℓ κ ι} {A : Type ℓ} {B : Type κ} where
  pub Yields-bind {ι'} :
      (P : A → Type ι) (Q : B → Type ι') (r : Outcome A) (f : A → Outcome B)
      → Yields P r
      → ((a : A) → P a → Yields Q (f a))
      → Yields Q (r >>= f)
  Yields-bind P Q r f (a, e, p) k = let (b, e', q) = k a p in (b, rw e e', q)

pub done-injective {ℓ} : {A : Type ℓ} {a b : A} → done a ≡ done b → a ≡ b
done-injective e = cc

-- A call that returns comes from two calls that return.
pub >>=-eq-done {ℓ κ} :
    {A : Type ℓ} {B : Type κ} (m : Outcome A) (f : A → Outcome B) {b : B}
    → (m >>= f) ≡ done b
    → (a : A) × (m ≡ done a) × (f a ≡ done b)
>>=-eq-done (done a) f h = (a, refl, h)
>>=-eq-done aborted f h = cc
>>=-eq-done fault f h = cc
>>=-eq-done no_fuel f h = cc

pub >>=_assoc {ℓ κ ι} :
    {A : Type ℓ} {B : Type κ} {C : Type ι} (m : Outcome A) (f : A → Outcome B) (g : B → Outcome C)
    → (m >>= f >>= g) ≡ (m >>= λ a. f a >>= g)
>>=_assoc (done a) f g = refl
>>=_assoc aborted f g = refl
>>=_assoc fault f g = refl
>>=_assoc no_fuel f g = refl
