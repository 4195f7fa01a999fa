-- ===== src/WebSocket/Sha1/Digits.antt =====
-- The operations on bits, digit by digit, and two identities of the round functions of SHA-1.
use Prim.Native.Nat.{
  min, max, digits, bitwise, differ, bit_and-bitwise, bit_or-bitwise, bit_xor-bitwise,
}
use native.Mathlib.Nat.{le_refl}
use chain_socket.Base.{
  ℕ, zero, suc, ◌+◌, ◌*◌, ◌/◌, ◌%◌, ◌≤◌, ◌<◌, ◌≡◌, refl, sym, ◌∙◌, ◌⊎◌, inl, inr, arith, bit_and,
  bit_or, bit_xor,
}

module _ (z : ℕ → ℕ) (f : ℕ → ℕ → ℕ) where
  enough_digits : (n m a b : ℕ) → a ≤ n → a ≤ m → digits z f n a b ≡ digits z f m a b
  enough_digits zero zero a b p q = refl
  enough_digits zero (suc m) zero b p q = refl
  enough_digits zero (suc m) (suc a) b p q = absurd (omega arith)
  enough_digits (suc n) zero zero b p q = refl
  enough_digits (suc n) zero (suc a) b p q = absurd (omega arith)
  enough_digits (suc n) (suc m) zero b p q = refl
  enough_digits (suc n) (suc m) (suc a) b p q =
      rw (enough_digits n m (suc a / 2) (b / 2) (omega arith) (omega arith))

  lowest_digit :
      (a b : ℕ)
      → bitwise z f (suc a) b ≡ bitwise z f (suc a / 2) (b / 2) * 2 + f (suc a % 2) (b % 2)
  lowest_digit a b =
      omega (arith, enough_digits a (suc a / 2) (suc a / 2) (b / 2) (omega arith) (le_refl _))

is_bit : (a : ℕ) → (a % 2 ≡ 0) ⊎ (a % 2 ≡ 1)
is_bit a = ground arith

or_digits : (a b : ℕ) → bit_or a b ≡ bit_or (a / 2) (b / 2) * 2 + max (a % 2) (b % 2)
or_digits zero b = simp bit_or-bitwise (omega arith)
or_digits (suc a) b = simp bit_or-bitwise (lowest_digit (λ y. y) max a b)

and_digits : (a b : ℕ) → bit_and a b ≡ bit_and (a / 2) (b / 2) * 2 + min (a % 2) (b % 2)
and_digits zero b = simp bit_and-bitwise (omega arith)
and_digits (suc a) b = simp bit_and-bitwise (lowest_digit (λ y. 0) min a b)

xor_digits : (a b : ℕ) → bit_xor a b ≡ bit_xor (a / 2) (b / 2) * 2 + differ (a % 2) (b % 2)
xor_digits zero b = simp bit_xor-bitwise (omega arith)
xor_digits (suc a) b = simp bit_xor-bitwise (lowest_digit (λ y. y) differ a b)

-- One digit of a result: the half of it and what is left.
abbrev Splits : (ℕ → ℕ → ℕ) → (ℕ → ℕ → ℕ) → ℕ → ℕ → Type 0
Splits op f a b = (op a b / 2 ≡ op (a / 2) (b / 2)) × (op a b % 2 ≡ f (a % 2) (b % 2))

and_cut : (a b : ℕ) → Splits bit_and min a b
and_cut a b = (omega (arith, and_digits a b), omega (arith, and_digits a b))

or_cut : (a b : ℕ) → Splits bit_or max a b
or_cut a b = (omega (arith, or_digits a b), omega (arith, or_digits a b))

differ_small : (a b : ℕ) → differ (a % 2) (b % 2) < 2
differ_small a b = elim (is_bit a) [
  | inl x ↦ rw x (omega arith)
  | inr x ↦ elim (is_bit b) [ inl y ↦ rw (x, y) (omega arith) | inr y ↦ rw (x, y) (omega arith) ]
]

xor_cut : (a b : ℕ) → Splits bit_xor differ a b
xor_cut a b = (
  omega (arith, xor_digits a b, differ_small a b),
  omega (arith, xor_digits a b, differ_small a b),
)

-- FIPS 180-4, 4.1.1: Ch, where the bits of z that x does not have are ¬x ∧ z, and Maj.
abbrev pub ch : ℕ → ℕ → ℕ → ℕ
ch x y z = bit_xor (bit_and x y) (bit_xor z (bit_and x z))

abbrev pub maj : ℕ → ℕ → ℕ → ℕ
maj x y z = bit_xor (bit_xor (bit_and x y) (bit_and x z)) (bit_and y z)

halves : (a b : ℕ) → a / 2 ≡ b / 2 → a % 2 ≡ b % 2 → a ≡ b
halves a b same last = omega (arith, same, last)

-- What the code computes for Ch and for Maj.
abbrev pub choosing : ℕ → ℕ → ℕ → ℕ
choosing x y z = bit_xor z (bit_and x (bit_xor y z))

abbrev pub most : ℕ → ℕ → ℕ → ℕ
most x y z = bit_or (bit_and x y) (bit_and z (bit_or x y))

choosing_half : (x y z : ℕ) → choosing x y z / 2 ≡ choosing (x / 2) (y / 2) (z / 2)
choosing_half x y z =
    rw ((xor_cut z (bit_and x (bit_xor y z))).0, (and_cut x (bit_xor y z)).0, (xor_cut y z).0) refl

choosing_last :
    (x y z : ℕ) → choosing x y z % 2 ≡ differ (z % 2) (min (x % 2) (differ (y % 2) (z % 2)))
choosing_last x y z =
    rw ((xor_cut z (bit_and x (bit_xor y z))).1, (and_cut x (bit_xor y z)).1, (xor_cut y z).1) refl

ch_half : (x y z : ℕ) → ch x y z / 2 ≡ ch (x / 2) (y / 2) (z / 2)
ch_half x y z =
    rw
      (
        (xor_cut (bit_and x y) (bit_xor z (bit_and x z))).0,
        (and_cut x y).0,
        (xor_cut z (bit_and x z)).0,
        (and_cut x z).0,
      )
      refl

ch_last :
    (x y z : ℕ) → ch x y z % 2 ≡ differ (min (x % 2) (y % 2)) (differ (z % 2) (min (x % 2) (z % 2)))
ch_last x y z =
    rw
      (
        (xor_cut (bit_and x y) (bit_xor z (bit_and x z))).1,
        (and_cut x y).1,
        (xor_cut z (bit_and x z)).1,
        (and_cut x z).1,
      )
      refl

most_half : (x y z : ℕ) → most x y z / 2 ≡ most (x / 2) (y / 2) (z / 2)
most_half x y z =
    rw
      (
        (or_cut (bit_and x y) (bit_and z (bit_or x y))).0,
        (and_cut x y).0,
        (and_cut z (bit_or x y)).0,
        (or_cut x y).0,
      )
      refl

most_last :
    (x y z : ℕ) → most x y z % 2 ≡ max (min (x % 2) (y % 2)) (min (z % 2) (max (x % 2) (y % 2)))
most_last x y z =
    rw
      (
        (or_cut (bit_and x y) (bit_and z (bit_or x y))).1,
        (and_cut x y).1,
        (and_cut z (bit_or x y)).1,
        (or_cut x y).1,
      )
      refl

maj_half : (x y z : ℕ) → maj x y z / 2 ≡ maj (x / 2) (y / 2) (z / 2)
maj_half x y z =
    rw
      (
        (xor_cut (bit_xor (bit_and x y) (bit_and x z)) (bit_and y z)).0,
        (xor_cut (bit_and x y) (bit_and x z)).0,
        (and_cut x y).0,
        (and_cut x z).0,
        (and_cut y z).0,
      )
      refl

maj_last :
    (x y z : ℕ)
    → maj x y z % 2
      ≡ differ (differ (min (x % 2) (y % 2)) (min (x % 2) (z % 2))) (min (y % 2) (z % 2))
maj_last x y z =
    rw
      (
        (xor_cut (bit_xor (bit_and x y) (bit_and x z)) (bit_and y z)).1,
        (xor_cut (bit_and x y) (bit_and x z)).1,
        (and_cut x y).1,
        (and_cut x z).1,
        (and_cut y z).1,
      )
      refl

-- The digits on which the two pairs agree.
abbrev Agrees : ℕ → ℕ → ℕ → Type 0
Agrees x y z =
    (differ z (min x (differ y z)) ≡ differ (min x y) (differ z (min x z)))
    × (max (min x y) (min z (max x y)) ≡ differ (differ (min x y) (min x z)) (min y z))

agrees : (x y z : ℕ) → Agrees (x % 2) (y % 2) (z % 2)
agrees x y z = elim (is_bit x) [
  | inl a ↦ elim (is_bit y) [
    | inl b ↦ elim (is_bit z) [
      | inl c ↦ rw (a, b, c) (refl, refl)
      | inr c ↦ rw (a, b, c) (refl, refl)
    ]
    | inr b ↦ elim (is_bit z) [
      | inl c ↦ rw (a, b, c) (refl, refl)
      | inr c ↦ rw (a, b, c) (refl, refl)
    ]
  ]
  | inr a ↦ elim (is_bit y) [
    | inl b ↦ elim (is_bit z) [
      | inl c ↦ rw (a, b, c) (refl, refl)
      | inr c ↦ rw (a, b, c) (refl, refl)
    ]
    | inr b ↦ elim (is_bit z) [
      | inl c ↦ rw (a, b, c) (refl, refl)
      | inr c ↦ rw (a, b, c) (refl, refl)
    ]
  ]
]

both_same :
    (n x y z : ℕ) → x ≤ n → y ≤ n → z ≤ n → (choosing x y z ≡ ch x y z) × (most x y z ≡ maj x y z)
both_same zero x y z a b c =
    let (x0, y0, z0) : (x ≡ 0) × (y ≡ 0) × (z ≡ 0) = (omega arith, omega arith, omega arith) in
    rw (x0, y0, z0) (refl, refl)
both_same (suc n) x y z a b c =
    let (one, two) =
      both_same n (x / 2) (y / 2) (z / 2) (omega arith) (omega arith) (omega arith) in
    let (last, last') = agrees x y z in
    (
      halves _ _ (choosing_half x y z ∙ one ∙ sym (ch_half x y z))
          (choosing_last x y z ∙ last ∙ sym (ch_last x y z)),
      halves _ _ (most_half x y z ∙ two ∙ sym (maj_half x y z))
          (most_last x y z ∙ last' ∙ sym (maj_last x y z)),
    )

pub choosing-ch : (x y z : ℕ) → choosing x y z ≡ ch x y z
choosing-ch x y z = (both_same (x + y + z) x y z (omega arith) (omega arith) (omega arith)).0

pub most-maj : (x y z : ℕ) → most x y z ≡ maj x y z
most-maj x y z = (both_same (x + y + z) x y z (omega arith) (omega arith) (omega arith)).1
