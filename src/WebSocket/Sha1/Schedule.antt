-- ===== src/WebSocket/Sha1/Schedule.antt =====
-- sha1mix keeps 16 words; FIPS 180 computes all 80.
use chain_socket.Base.{
  ℕ, zero, suc, ◌+◌, ◌%◌, ◌≤◌, ◌<◌, ◌≡◌, refl, sym, ap, ◌∙◌, subst, ◌≢◌, true, List, [], ◌∷◌, arith,
  ltb, if◌then◌else◌, length, length-set, get_or, set, bit_xor, ℕ_discrete,
}
use chain_socket.WebSocket.Sha1.{
  Regs, rol, mix, choose, parity, majority, word_at, expand, plain_rounds, rounds, plus, sha1mix,
}

-- FIPS 180-4, 6.1.2: the words of a block.
pub record IsSchedule (block : List ℕ) (word : ℕ → ℕ) : Type 0 where
  pub first : (t : ℕ) → t < 16 → word t ≡ get_or block t 0
  pub next :
      (t : ℕ)
      → word (t + 16)
        ≡ rol (bit_xor (bit_xor (bit_xor (word (t + 13)) (word (t + 8))) (word (t + 2))) (word t)) 1

-- FIPS 180-4, 4.1.1 and 4.2.1: the function and the constant of round `t`.
abbrev pub function : ℕ → Regs → ℕ
function t r =
    if ltb t 20
    then choose r
    else if ltb t 40
    then parity r
    else if ltb t 60
    then majority r
    else parity r

abbrev pub constant : ℕ → ℕ
constant t =
    if ltb t 20
    then 0x5a827999
    else if ltb t 40
    then 0x6ed9eba1
    else if ltb t 60
    then 0x8f1bbcdc
    else 0xca62c1d6

-- `n` rounds from round `t` on.
unfoldable pub fips_rounds : ℕ → ℕ → (ℕ → ℕ) → Regs → Regs
fips_rounds zero t word r = r
fips_rounds (suc n) t word r =
    fips_rounds n (t + 1) word (mix r (function t r) (constant t) (word t))

fips_rounds-split :
    (n m t : ℕ) (word : ℕ → ℕ) (r : Regs)
    → fips_rounds (n + m) t word r ≡ fips_rounds m (t + n) word (fips_rounds n t word r)
unfolding fips_rounds
fips_rounds-split zero m t word r =
    let none_more : 0 + m ≡ m = omega arith in
    let here : t + 0 ≡ t = omega arith in rw (none_more, here) refl
fips_rounds-split (suc n) m t word r =
    let one_more : suc n + m ≡ suc (n + m) = omega arith in
    let after : t + suc n ≡ t + 1 + n = omega arith in
    rw (one_more, after) (fips_rounds-split n m (t + 1) word _)

get_or-set_self : (xs : List ℕ) (i v : ℕ) → i < length xs → get_or (set xs i v) i 0 ≡ v
get_or-set_self [] i v h = absurd (omega arith)
get_or-set_self (x ∷ xs) zero v h = refl
get_or-set_self (x ∷ xs) (suc i) v h = get_or-set_self xs i v (omega arith)

get_or-set_ne : (xs : List ℕ) (i j v : ℕ) → i ≢ j → get_or (set xs i v) j 0 ≡ get_or xs j 0
get_or-set_ne [] i j v h = refl
get_or-set_ne (x ∷ xs) zero zero v h = absurd (h refl)
get_or-set_ne (x ∷ xs) zero (suc j) v h = refl
get_or-set_ne (x ∷ xs) (suc i) zero v h = refl
get_or-set_ne (x ∷ xs) (suc i) (suc j) v h = get_or-set_ne xs i j v (λ e. h (ap suc e))

module _ (block : List ℕ) (word : ℕ → ℕ) (schedule : IsSchedule block word) where
  -- The array holds the 16 words from word `k` on, each at its number modulo 16.
  Holds : ℕ → List ℕ → Type 0
  Holds k w = (length w ≡ 16) × ((j : ℕ) → j < 16 → get_or w ((k + j) % 16) 0 ≡ word (k + j))

  held : (k j i : ℕ) (w : List ℕ) → Holds k w → j < 16 → i ≡ k + 16 + j → word_at w i ≡ word (k + j)
  unfolding Holds word_at
  held k j i w (size, all) h e = let same : i % 16 ≡ (k + j) % 16 = omega arith in rw same (all j h)

  new_word :
      (k : ℕ) (w : List ℕ) → Holds k w → expand w (k + 16) ≡ set w ((k + 16) % 16) (word (k + 16))
  unfolding expand
  new_word k w h =
      let zero_more : word (k + 0) ≡ word k = ap word (omega arith) in
      rw
        (
          held k 13 (k + 16 + 13) w h (omega arith) (omega arith),
          held k 8 (k + 16 + 8) w h (omega arith) (omega arith),
          held k 2 (k + 16 + 2) w h (omega arith) (omega arith),
          held k 0 (k + 16) w h (omega arith) (omega arith),
          zero_more,
          schedule.next k,
        )
        refl

  place : (k j : ℕ) → j < 15 → (k + 16) % 16 ≢ (suc k + j) % 16
  place k j h e = omega arith

  expand-Holds : (k : ℕ) (w : List ℕ) → Holds k w → Holds (suc k) (expand w (k + 16))
  unfolding Holds
  expand-Holds k w (size, all) = rw (new_word k w (size, all)) (
    length-set w ((k + 16) % 16) (word (k + 16)) ∙ size,
    λ j h. elim (ℕ_discrete j 15) [
      | yes last ↦
          let turn : (suc k + j) % 16 ≡ (k + 16) % 16 = omega arith in
          let same : suc k + j ≡ k + 16 = omega arith in
          rw (turn, same) (get_or-set_self w ((k + 16) % 16) (word (k + 16)) (omega (arith, size)))
      | no before ↦
          let shift : suc k + j ≡ k + suc j = omega arith in
          get_or-set_ne w ((k + 16) % 16) ((suc k + j) % 16) (word (k + 16))
            (place k j (omega arith))
          ∙ rw shift (all (suc j) (omega arith))
    ],
  )

  expanded : (k : ℕ) (w : List ℕ) → Holds k w → word_at (expand w (k + 16)) (k + 16) ≡ word (k + 16)
  unfolding Holds word_at
  expanded k w (size, all) =
      rw (new_word k w (size, all))
        (get_or-set_self w ((k + 16) % 16) (word (k + 16)) (omega (arith, size)))

  rounds-fips :
      (n : ℕ) (f : Regs → ℕ) (v k i : ℕ) (w : List ℕ) (r : Regs)
      → Holds k w
      → i ≡ k + 16
      → ((t : ℕ) (s : Regs) → i ≤ t → t < i + n → function t s ≡ f s)
      → ((t : ℕ) → i ≤ t → t < i + n → constant t ≡ v)
      → (Holds (k + n) (rounds n f v i (w, r)).0)
        × ((rounds n f v i (w, r)).1 ≡ fips_rounds n i word r)
  unfolding rounds fips_rounds
  rounds-fips zero f v k i w r h e same_f same_v = (subst (λ j. Holds j w) (omega arith) h, refl)
  rounds-fips (suc n) f v k i w r h e same_f same_v =
      let at_word : word_at (expand w i) i ≡ word i = rw e (expanded k w h) in
      let (held_after, run) =
        rounds-fips n f v (suc k) (i + 1) (expand w i) (mix r (f r) v (word i))
          (rw e (expand-Holds k w h)) (omega arith)
          (λ t s from to. same_f t s (omega arith) (omega arith))
          (λ t from to. same_v t (omega arith) (omega arith)) in
      let total : suc k + n ≡ k + suc n = omega arith in
      let s' = rounds n f v (i + 1) (expand w i, mix r (f r) v (word i)) in
      let one : rounds (suc n) f v i (w, r) ≡ s' =
        ap (λ x. rounds n f v (i + 1) (expand w i, mix r (f r) v x)) at_word in
      let same : mix r (f r) v (word i) ≡ mix r (function i r) (constant i) (word i) =
        rw (same_f i r (omega arith) (omega arith), same_v i (omega arith) (omega arith)) refl in
      subst (λ s. Holds (k + suc n) s.0 × (s.1 ≡ fips_rounds (suc n) i word r)) (sym one)
        (subst (λ j. Holds j s'.0) total held_after, run ∙ ap (fips_rounds n (i + 1) word) same)

  -- One of the four loops, from the state that the one before it leaves.
  Stage : ℕ → Regs → List ℕ × Regs → Type 0
  Stage k r s = Holds k s.0 × (s.1 ≡ r)

  stage :
      (n k : ℕ) (f : Regs → ℕ) (v : ℕ) (s : List ℕ × Regs) (r : Regs)
      → ((t : ℕ) (q : Regs) → k + 16 ≤ t → t < k + 16 + n → function t q ≡ f q)
      → ((t : ℕ) → k + 16 ≤ t → t < k + 16 + n → constant t ≡ v)
      → Stage k r s
      → Stage (k + n) (fips_rounds n (k + 16) word r) (rounds n f v (k + 16) s)
  unfolding Stage
  stage n k f v (w, q) r same_f same_v (h, e) =
      let (h', run) = rounds-fips n f v k (k + 16) w q h refl same_f same_v in
      (h', run ∙ ap (fips_rounds n (k + 16) word) e)

  plain_rounds-fips :
      (n i : ℕ) (w : List ℕ) (r : Regs)
      → ((j : ℕ) → j < 16 → get_or w j 0 ≡ word j)
      → i + n ≤ 16
      → plain_rounds n i w r ≡ fips_rounds n i word r
  unfolding plain_rounds fips_rounds word_at
  plain_rounds-fips zero i w r all h = refl
  plain_rounds-fips (suc n) i w r all h =
      let low : i % 16 ≡ i = omega arith in
      let early : ltb i 20 ≡ true = ground arith in
      rw (low, all i (omega arith), early) (plain_rounds-fips n (i + 1) w _ all (omega arith))

  at_start : length block ≡ 16 → Holds 0 block
  unfolding Holds
  at_start size = (
    size,
    λ j h.
        let low : (0 + j) % 16 ≡ j = omega arith in
        let same : 0 + j ≡ j = omega arith in rw (low, same) (sym (schedule.first j h)),
  )

-- sha1mix on an array of 16 words adds to the registers the 80 rounds of FIPS 180 with the words of
-- the block's schedule, of which it never keeps more than 16.
pub sha1mix-fips :
    (block : List ℕ) (word : ℕ → ℕ) (r : Regs)
    → IsSchedule block word
    → length block ≡ 16
    → (sha1mix r block).1 ≡ plus r (fips_rounds 80 0 word r)
unfolding sha1mix Stage
sha1mix-fips block word r schedule size =
    let r16 = fips_rounds 16 0 word r in
    let first : (j : ℕ) → j < 16 → get_or block j 0 ≡ word j = λ j h. sym (schedule.first j h) in
    let plain = plain_rounds-fips block word schedule 16 0 block r first (omega arith) in
    let s16 : Stage block word schedule 0 r16 (block, plain_rounds 16 0 block r) =
      (at_start block word schedule size, plain) in
    let s20 =
      stage block word schedule 4 0 choose 0x5a827999 _ r16 (λ t q a b. ground arith)
        (λ t a b. ground arith) s16 in
    let r20 = fips_rounds 4 16 word r16 in
    let s40 =
      stage block word schedule 20 4 parity 0x6ed9eba1 _ r20 (λ t q a b. ground arith)
        (λ t a b. ground arith) s20 in
    let r40 = fips_rounds 20 20 word r20 in
    let s60 =
      stage block word schedule 20 24 majority 0x8f1bbcdc _ r40 (λ t q a b. ground arith)
        (λ t a b. ground arith) s40 in
    let r60 = fips_rounds 20 40 word r40 in
    let s80 =
      stage block word schedule 20 44 parity 0xca62c1d6 _ r60 (λ t q a b. ground arith)
        (λ t a b. ground arith) s60 in
    ap (plus r) (
      s80.1
      ∙ sym (
          fips_rounds-split 16 64 0 word r
          ∙ fips_rounds-split 4 60 16 word r16
          ∙ fips_rounds-split 20 40 20 word r20
          ∙ fips_rounds-split 20 20 40 word r40))
