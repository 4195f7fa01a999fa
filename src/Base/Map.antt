-- ===== src/Base/Map.antt =====
-- A map from numbers as a list of entries in the order of their keys, as std::map keeps it.
use chain_socket.Base.Tests.{ltb, ◌==◌, if◌then◌else◌, Bool-cases}
use Prim.Native.Nat.{ℕ, ◌≤◌}
use mathlib.Core.Path.{◌≡◌, refl, ◌∙◌}
use mathlib.Core.Logic.{◌≢◌, inl, inr}
use mathlib.Core.Bool.{true, false}
use mathlib.Core.Option.{Option, none, some}
use mathlib.Core.List.{List, [], ◌∷◌}
use native.Mathlib.Omega.{arith}
use native.Mathlib.Decide.{ℕ_discrete}

module _ {A : Type 0} (key : A → ℕ) where
  abbrev pub lookup : ℕ → List A → Option A
  lookup k [] = none
  lookup k (x ∷ xs) = if key x == k then some x else lookup k xs

  -- `map[key v] = v`
  abbrev pub assign : List A → A → List A
  assign [] v = v ∷ []
  assign (x ∷ xs) v =
      let rest = assign xs v in
      if key v == key x then v ∷ xs else (if ltb (key v) (key x) then v ∷ x ∷ xs else x ∷ rest)

  -- `map.erase(k)`
  abbrev pub erase : ℕ → List A → List A
  erase k [] = []
  erase k (x ∷ xs) = let rest = erase k xs in if key x == k then xs else x ∷ rest

  -- The keys increase.
  abbrev pub IsMap : List A → Type 0
  IsMap [] = Unit
  IsMap (x ∷ xs) = ((k : ℕ) → k ≤ key x → lookup k xs ≡ none) × IsMap xs

  pub lookup-assign_self : (xs : List A) (v : A) → lookup (key v) (assign xs v) ≡ some v
  lookup-assign_self [] v = ground arith
  lookup-assign_self (x ∷ xs) v = ground (arith, lookup-assign_self xs v)

  pub lookup-assign_ne :
      (xs : List A) (v : A) (k : ℕ) → k ≢ key v → lookup k (assign xs v) ≡ lookup k xs
  lookup-assign_ne [] v k n = ground arith
  lookup-assign_ne (x ∷ xs) v k n = ground (arith, lookup-assign_ne xs v k n)

  pub lookup-erase_ne : (xs : List A) (k j : ℕ) → j ≢ k → lookup j (erase k xs) ≡ lookup j xs
  lookup-erase_ne [] k j n = refl
  lookup-erase_ne (x ∷ xs) k j n = ground (arith, lookup-erase_ne xs k j n)

  pub lookup-erase_self : (xs : List A) (k : ℕ) → IsMap xs → lookup k (erase k xs) ≡ none
  lookup-erase_self [] k m = refl
  lookup-erase_self (x ∷ xs) k (first, m) = ground (arith, first k, lookup-erase_self xs k m)

  pub erase-IsMap : (xs : List A) (k : ℕ) → IsMap xs → IsMap (erase k xs)
  erase-IsMap [] k m = tt
  erase-IsMap (x ∷ xs) k (first, m) = elim (ℕ_discrete (key x) k) [
    | yes e ↦ (let hit : (key x == k) ≡ true = ground arith in rw hit m)
    | no n ↦
        let miss : (key x == k) ≡ false = ground arith in
        rw miss (
          λ j h. elim (ℕ_discrete j k) [
            | yes e ↦ rw e (lookup-erase_self xs k m)
            | no o ↦ lookup-erase_ne xs k j o ∙ first j h
          ],
          erase-IsMap xs k m,
        )
  ]

  pub assign-IsMap : (xs : List A) (v : A) → IsMap xs → IsMap (assign xs v)
  assign-IsMap [] v m = (λ j h. refl, tt)
  assign-IsMap (x ∷ xs) v (first, m) = elim (ℕ_discrete (key v) (key x)) [
    | yes e ↦
        let hit : (key v == key x) ≡ true = ground arith in rw hit (λ j h. first j (omega arith), m)
    | no n ↦
        let miss : (key v == key x) ≡ false = ground arith in
        elim (Bool-cases (ltb (key v) (key x))) [
          | inl below ↦ rw (miss, below) (λ j h. ground (arith, first j (ground arith)), (first, m))
          | inr above ↦
              rw (miss, above)
                (
                  λ j h. lookup-assign_ne xs v j (λ e. ground (arith)) ∙ first j h,
                  assign-IsMap xs v m,
                )
        ]
  ]
