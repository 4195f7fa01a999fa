-- ===== src/WebSocket/Bits.antt =====
-- Laws of the bit operations on bytes, each checked on every byte.
use Prim.Native.Nat.{bit_and, bit_or, bit_xor}
use chain_socket.Base.{
  ℕ, zero, suc, ◌+◌, ◌%◌, ◌<◌, ◌≡◌, refl, Bool, true, false, ◌&&◌, ◌==◌, ==_iff, if◌then◌else◌,
  ℕ_discrete, arith,
}

-- Whether all numbers below `n` pass.
unfoldable pub every : ℕ → (ℕ → Bool) → Bool
every zero p = true
every (suc n) p = let rest = every n p in if p n then rest else false

pub every-true : (n : ℕ) (p : ℕ → Bool) (x : ℕ) → every n p ≡ true → x < n → p x ≡ true
unfolding every
every-true zero p x h below = absurd (omega arith)
every-true (suc n) p x h below = elim (ℕ_discrete x n) [
  | yes e ↦ ground arith
  | no other ↦ ground (arith, every-true n p x)
]

xor_table : every 256 (λ x. every 256 (λ k. bit_xor (bit_xor x k) k == x)) ≡ true
unfolding every
xor_table = refl

pub xor_twice : (x k : ℕ) → x < 256 → k < 256 → bit_xor (bit_xor x k) k ≡ x
xor_twice x k hx hk = (==_iff _ x).0 (
    every-true 256 (λ j. bit_xor (bit_xor x j) j == x) k
      (every-true 256 (λ y. every 256 (λ j. bit_xor (bit_xor y j) j == y)) x xor_table hx) hk)

mask_table :
    every 128 (λ n. (bit_and (128 + n) 0x7F == n) && (bit_and (128 + n) 0x80 == 0x80)) ≡ true
unfolding every
mask_table = refl

pub masked_length : (n : ℕ) → n < 128 → bit_and (128 + n) 0x7F ≡ n
masked_length n h = ground (
  arith,
  every-true 128 (λ j. (bit_and (128 + j) 0x7F == j) && (bit_and (128 + j) 0x80 == 0x80)) n
      mask_table h,
)

pub masked_bit : (n : ℕ) → n < 128 → bit_and (128 + n) 0x80 ≡ 0x80
masked_bit n h = ground (
  arith,
  every-true 128 (λ j. (bit_and (128 + j) 0x7F == j) && (bit_and (128 + j) 0x80 == 0x80)) n
      mask_table h,
)

plain_table : every 128 (λ n. bit_and n 0x7F == n) ≡ true
unfolding every
plain_table = refl

pub plain_length : (n : ℕ) → n < 128 → bit_and n 0x7F ≡ n
plain_length n h = (==_iff _ n).0 (every-true 128 (λ j. bit_and j 0x7F == j) n plain_table h)

plain_bit_table : every 128 (λ n. bit_and n 0x80 == 0) ≡ true
unfolding every
plain_bit_table = refl

pub plain_bit : (n : ℕ) → n < 128 → bit_and n 0x80 ≡ 0
plain_bit n h = (==_iff _ 0).0 (every-true 128 (λ j. bit_and j 0x80 == 0) n plain_bit_table h)

or_table :
    every 128 (λ n. (bit_or (bit_and n 0xFF) 0x80 == 128 + n) && (bit_or (bit_and n 0xFF) 0 == n))
    ≡ true
unfolding every
or_table = refl

pub with_mask_bit : (n : ℕ) → n < 128 → bit_or (bit_and n 0xFF) 0x80 ≡ 128 + n
with_mask_bit n h = ground (
  arith,
  every-true 128
      (λ j. (bit_or (bit_and j 0xFF) 0x80 == 128 + j) && (bit_or (bit_and j 0xFF) 0 == j)) n
      or_table h,
)

pub without_mask_bit : (n : ℕ) → n < 128 → bit_or (bit_and n 0xFF) 0 ≡ n
without_mask_bit n h = ground (
  arith,
  every-true 128
      (λ j. (bit_or (bit_and j 0xFF) 0x80 == 128 + j) && (bit_or (bit_and j 0xFF) 0 == j)) n
      or_table h,
)

word_table : every 65536 (λ n. bit_and n 0xFF == n % 256) ≡ true
unfolding every
word_table = refl

pub low_byte : (n : ℕ) → n < 65536 → bit_and n 0xFF ≡ n % 256
low_byte n h =
    (==_iff _ (n % 256)).0 (every-true 65536 (λ j. bit_and j 0xFF == j % 256) n word_table h)
