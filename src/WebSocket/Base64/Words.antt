-- ===== src/WebSocket/Base64/Words.antt =====
-- Laws of the bit operations that put bytes together, at variables.
use Prim.Native.Nat.{max, min, digits, bit_and-bitwise, bit_or-bitwise}
use chain_socket.Base.{
  ℕ, zero, suc, ◌+◌, ◌*◌, ◌/◌, ◌%◌, ◌^◌, ◌≤◌, ◌<◌, ◌≡◌, refl, ap, ◌∙◌, arith, bit_and, bit_or,
}

abbrev and_digits : ℕ → ℕ → ℕ → ℕ
and_digits n a b = digits (λ b. zero) min n a b

abbrev or_digits : ℕ → ℕ → ℕ → ℕ
or_digits n a b = digits (λ b. b) max n a b

-- More fuel than the first number changes nothing.
and_enough : (n m a b : ℕ) → a ≤ n → a ≤ m → and_digits n a b ≡ and_digits m a b
and_enough zero zero a b p q = refl
and_enough zero (suc m) zero b p q = refl
and_enough zero (suc m) (suc a) b p q = absurd (omega arith)
and_enough (suc n) zero zero b p q = refl
and_enough (suc n) zero (suc a) b p q = absurd (omega arith)
and_enough (suc n) (suc m) zero b p q = refl
and_enough (suc n) (suc m) (suc a) b p q =
    omega (arith, and_enough n m (suc a / 2) (b / 2) (omega arith) (omega arith))

or_enough : (n m a b : ℕ) → a ≤ n → a ≤ m → or_digits n a b ≡ or_digits m a b
or_enough zero zero a b p q = refl
or_enough zero (suc m) zero b p q = refl
or_enough zero (suc m) (suc a) b p q = absurd (omega arith)
or_enough (suc n) zero zero b p q = refl
or_enough (suc n) zero (suc a) b p q = absurd (omega arith)
or_enough (suc n) (suc m) zero b p q = refl
or_enough (suc n) (suc m) (suc a) b p q =
    omega (arith, or_enough n m (suc a / 2) (b / 2) (omega arith) (omega arith))

and_none : (b : ℕ) → bit_and 0 b ≡ 0
and_none b = bit_and-bitwise 0 b

pub or_none : (b : ℕ) → bit_or 0 b ≡ b
or_none b = bit_or-bitwise 0 b

-- The lowest bit apart.
and_step : (a b : ℕ) → bit_and a b ≡ bit_and (a / 2) (b / 2) * 2 + min (a % 2) (b % 2)
and_step zero b = omega (arith, and_none b, and_none (b / 2))
and_step (suc a) b = omega (
  arith,
  bit_and-bitwise (suc a) b,
  bit_and-bitwise (suc a / 2) (b / 2),
  and_enough a (suc a / 2) (suc a / 2) (b / 2) (omega arith) (omega arith),
)

or_step : (a b : ℕ) → bit_or a b ≡ bit_or (a / 2) (b / 2) * 2 + max (a % 2) (b % 2)
or_step zero b = omega (arith, or_none b, or_none (b / 2))
or_step (suc a) b = omega (
  arith,
  bit_or-bitwise (suc a) b,
  bit_or-bitwise (suc a / 2) (b / 2),
  or_enough a (suc a / 2) (suc a / 2) (b / 2) (omega arith) (omega arith),
)

and_zero_fuel : (n a : ℕ) → a ≤ n → bit_and a 0 ≡ 0
and_zero_fuel n zero h = refl
and_zero_fuel zero (suc a) h = absurd (omega arith)
and_zero_fuel (suc n) (suc a) h =
    omega (arith, and_step (suc a) 0, and_zero_fuel n (suc a / 2) (omega arith))

or_zero_fuel : (n a : ℕ) → a ≤ n → bit_or a 0 ≡ a
or_zero_fuel n zero h = refl
or_zero_fuel zero (suc a) h = absurd (omega arith)
or_zero_fuel (suc n) (suc a) h =
    omega (arith, or_step (suc a) 0, or_zero_fuel n (suc a / 2) (omega arith))

-- `a` shifted to the left by `k` bits.
abbrev pub shifted : ℕ → ℕ → ℕ
shifted zero a = a
shifted (suc k) a = shifted k a * 2

-- A number below the shifted bits is added.
pub or_shifted : (k a b : ℕ) → b < shifted k 1 → bit_or (shifted k a) b ≡ shifted k a + b
or_shifted zero a zero h = omega (arith, or_zero_fuel a a (omega arith))
or_shifted zero a (suc b) h = absurd (omega arith)
or_shifted (suc k) a b h =
    let half : shifted k a * 2 / 2 ≡ shifted k a = omega arith in
    let low : shifted k a * 2 % 2 ≡ 0 = omega arith in
    omega (
      arith,
      or_step (shifted k a * 2) b,
      low,
      ap (λ x. bit_or x (b / 2)) half,
      or_shifted k a (b / 2) (omega arith),
    )

or_comm_fuel : (n a b : ℕ) → a ≤ n → bit_or a b ≡ bit_or b a
or_comm_fuel n zero b h = omega (arith, or_none b, or_zero_fuel b b (omega arith))
or_comm_fuel zero (suc a) b h = absurd (omega arith)
or_comm_fuel (suc n) (suc a) b h =
    omega (
      arith,
      or_step (suc a) b,
      or_step b (suc a),
      or_comm_fuel n (suc a / 2) (b / 2) (omega arith),
    )

pub or_comm : (a b : ℕ) → bit_or a b ≡ bit_or b a
or_comm a b = or_comm_fuel a a b (omega arith)

-- Three bytes put together.
pub three_bytes :
    (a b c : ℕ)
    → b < 256
    → c < 256
    → bit_or (bit_or (a * 2 ^ 16) (b * 2 ^ 8)) c ≡ a * 65536 + b * 256 + c
three_bytes a b c hb hc =
    let high : a * 2 ^ 16 ≡ shifted 16 a = omega arith in
    let two : bit_or (a * 2 ^ 16) (b * 2 ^ 8) ≡ a * 65536 + b * 256 =
      ap (λ x. bit_or x (b * 2 ^ 8)) high
      ∙ or_shifted 16 a (b * 2 ^ 8) (omega arith)
      ∙ omega arith in
    let above : a * 65536 + b * 256 ≡ shifted 8 (a * 256 + b) = omega arith in
    ap (λ x. bit_or x c) (two ∙ above) ∙ or_shifted 8 (a * 256 + b) c (omega arith) ∙ omega arith

-- Six bits.
pub low_six : (a : ℕ) → bit_and a 0x3F ≡ a % 64
low_six a = omega (
  arith,
  and_step a 63,
  and_step (a / 2) 31,
  and_step (a / 2 / 2) 15,
  and_step (a / 2 / 2 / 2) 7,
  and_step (a / 2 / 2 / 2 / 2) 3,
  and_step (a / 2 / 2 / 2 / 2 / 2) 1,
  and_zero_fuel (a / 2 / 2 / 2 / 2 / 2 / 2) (a / 2 / 2 / 2 / 2 / 2 / 2) (omega arith),
)
