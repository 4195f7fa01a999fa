-- ===== src/WebSocketPoller/Search.antt =====
-- memstr finds the first place where a pattern occurs.
use chain_socket.Base.{
  ℕ, zero, suc, ◌+◌, ◌-◌, ◌<◌, ◌≡◌, refl, ap, ◌∙◌, true, false, ◌&&◌, List, [], ◌∷◌, Option, none,
  some, arith, ◌==◌, length, take, drop, length-take, length-drop, Bool-cases, inl, inr,
}
use mathlib.Core.Option
use chain_socket.WebSocket.RoundTrip.{take_all}
use chain_socket.WebSocketPoller.{starts_with, memstr_loop, memstr}

-- The pattern stands in the bytes at position `i`.
abbrev pub Occurs : List ℕ → List ℕ → ℕ → Type 0
Occurs sub bytes i = take (length sub) (drop i bytes) ≡ sub

-- The first place of the pattern, or that there is none.
abbrev pub First : List ℕ → List ℕ → Option ℕ → Type 0
First sub bytes none = (j : ℕ) → ¬ Occurs sub bytes j
First sub bytes (some i) = Occurs sub bytes i × ((j : ℕ) → j < i → ¬ Occurs sub bytes j)

starts_with-true : (cur sub : List ℕ) → starts_with cur sub ≡ true → take (length sub) cur ≡ sub
unfolding starts_with
starts_with-true cur [] h = refl
starts_with-true [] (s ∷ sub) h = absurd (cc)
starts_with-true (c ∷ cur) (s ∷ sub) h =
    let same : c ≡ s = ground arith in
    let rest : starts_with cur sub ≡ true = ground arith in rw (same, starts_with-true cur sub rest)

starts_with-take : (cur sub : List ℕ) → take (length sub) cur ≡ sub → starts_with cur sub ≡ true
unfolding starts_with
starts_with-take cur [] h = refl
starts_with-take [] (s ∷ sub) h = absurd (cc)
starts_with-take (c ∷ cur) (s ∷ sub) h =
    let same : c ≡ s = cc in
    let rest : take (length sub) cur ≡ sub = cc in
    let head : (c == s) ≡ true = ground arith in rw (head, starts_with-take cur sub rest)

first_byte : (cur sub : List ℕ) → starts_with cur sub ≡ true → starts_with cur (take 1 sub) ≡ true
unfolding starts_with
first_byte cur [] h = refl
first_byte [] (s ∷ sub) h = absurd (cc)
first_byte (c ∷ cur) (s ∷ sub) h = ground arith

no_room : (sub bytes : List ℕ) (j : ℕ) → length bytes < length sub → ¬ Occurs sub bytes j
no_room sub bytes j short e =
    omega (arith, ap length e, length-take (length sub) (drop j bytes), length-drop j bytes)

not_before :
    (sub : List ℕ) (c : ℕ) (cs : List ℕ) (i : ℕ)
    → ¬ Occurs sub (c ∷ cs) 0
    → ((j : ℕ) → j < i → ¬ Occurs sub cs j)
    → (j : ℕ) → j < suc i
    → ¬ Occurs sub (c ∷ cs) j
not_before sub c cs i not_here before zero below = not_here
not_before sub c cs i not_here before (suc j) below = before j (omega arith)

nowhere :
    (sub : List ℕ) (c : ℕ) (cs : List ℕ)
    → ¬ Occurs sub (c ∷ cs) 0
    → ((j : ℕ) → ¬ Occurs sub cs j)
    → (j : ℕ) → ¬ Occurs sub (c ∷ cs) j
nowhere sub c cs not_here first zero = not_here
nowhere sub c cs not_here first (suc j) = first j

later :
    (sub : List ℕ) (c : ℕ) (cs : List ℕ) (r : Option ℕ)
    → ¬ Occurs sub (c ∷ cs) 0
    → First sub cs r
    → First sub (c ∷ cs) (Option.map suc r)
later sub c cs none not_here first = nowhere sub c cs not_here first
later sub c cs (some i) not_here (here, before) = (here, not_before sub c cs i not_here before)

shifted :
    (i : ℕ) (r : Option ℕ)
    → Option.map (λ j. suc i + j) r ≡ Option.map (λ j. i + j) (Option.map suc r)
shifted i none = refl
shifted i (some j) = ap some (omega arith)

from_zero : (r : Option ℕ) → Option.map (λ j. 0 + j) r ≡ r
from_zero none = refl
from_zero (some j) = ap some (omega arith)

memstr_loop-First :
    (n : ℕ) (cur sub : List ℕ) (i : ℕ)
    → 0 < length sub
    → n ≡ length cur + 1 - length sub
    → (r : Option ℕ) × First sub cur r × (memstr_loop n cur sub i ≡ Option.map (λ j. i + j) r)
unfolding memstr_loop
memstr_loop-First zero cur sub i some_sub rounds =
    (none, λ j. no_room sub cur j (omega arith), refl)
memstr_loop-First (suc n) [] sub i some_sub rounds = absurd (omega arith)
memstr_loop-First (suc n) (c ∷ cs) sub i some_sub rounds =
    elim (Bool-cases (starts_with (c ∷ cs) sub)) [
      | inl here ↦
          let stay : i + 0 ≡ i = omega arith in
          (
            some 0,
            (starts_with-true (c ∷ cs) sub here, λ j below. absurd (omega arith)),
            rw (here, first_byte (c ∷ cs) sub here, stay),
          )
      | inr there ↦
          let (r, first, run) = memstr_loop-First n cs sub (suc i) some_sub (omega arith) in
          let next : i + 1 ≡ suc i = omega arith in
          let not_here : ¬ Occurs sub (c ∷ cs) 0 =
            λ e. cc (there, starts_with-take (c ∷ cs) sub e) in
          let off : (starts_with (c ∷ cs) (take 1 sub) && false) ≡ false = ground arith in
          (
            Option.map suc r,
            later sub c cs r not_here first,
            rw (there, off, next) (run ∙ shifted i r),
          )
    ]

-- memstr with a pattern that is not empty returns the first position at which the whole pattern
-- occurs, and -1 exactly when it occurs nowhere.
pub memstr-First :
    (bytes sub : List ℕ) → 0 < length sub → First sub bytes (memstr bytes sub (length sub))
unfolding memstr
memstr-First [] sub some_sub = λ j. no_room sub [] j some_sub
memstr-First (c ∷ cs) sub some_sub =
    let (r, first, run) =
      memstr_loop-First (length (c ∷ cs) + 1 - length sub) (c ∷ cs) sub 0 some_sub refl in
    let full : (length (c ∷ cs) == 0) ≡ false = ground arith in
    let pattern : (length sub == 0) ≡ false = ground arith in
    let whole : take (length sub) sub ≡ sub = take_all sub (length sub) refl in
    rw (full, pattern, whole, run, from_zero r) first
