-- ===== src/WebSocket/Sha1.antt =====
-- code/example/wsserver/websocket.h: sha1mix and sha1.
pub mod Schedule
pub mod Expansion
pub mod Bytes
pub mod Standard
pub mod Loading
pub mod Bytewise
pub mod Padding
pub mod Message
pub mod Digits
pub mod Fips
mod Tests
use chain_socket.Base.{
  ℕ, zero, suc, ◌+◌, ◌-◌, ◌*◌, ◌/◌, ◌%◌, ◌^◌, Bool, true, false, List, [], ◌∷◌, ◌++◌, ltb,
  if◌then◌else◌, length, get_or, set, drop, take, bit_and, bit_or, bit_xor,
}

-- The variables `a` to `e`.
pub record Regs : Type 0 where
  pub a : ℕ
  pub b : ℕ
  pub c : ℕ
  pub d : ℕ
  pub e : ℕ

abbrev pub u32 : ℕ → ℕ
u32 n = n % 2 ^ 32

-- `rol(x, s)`
pub rol : ℕ → ℕ → ℕ
rol x s = bit_or (u32 (x * 2 ^ s)) (x / 2 ^ (32 - s))

-- `mix(f, v)`, with the word of the round.
pub mix : Regs → ℕ → ℕ → ℕ → Regs
mix r f v word = record {
  a = u32 (f + v + rol r.a 5 + r.e + word);
  b = r.a;
  c = rol r.b 30;
  d = r.c;
  e = r.d;
}

abbrev pub choose : Regs → ℕ
choose r = bit_xor r.d (bit_and r.b (bit_xor r.c r.d))

abbrev pub parity : Regs → ℕ
parity r = bit_xor (bit_xor r.b r.c) r.d

abbrev pub majority : Regs → ℕ
majority r = bit_or (bit_and r.b r.c) (bit_and r.d (bit_or r.b r.c))

-- `w[i & 0xf]`, which is in range: the array has 16 words.
pub word_at : List ℕ → ℕ → ℕ
word_at w i = get_or w (i % 16) 0

-- The assignment to `w[i & 0xf]` in the rounds from 16 on.
pub expand : List ℕ → ℕ → List ℕ
expand w i = set w (i % 16) (
    rol
      (bit_xor (bit_xor (bit_xor (word_at w (i + 13)) (word_at w (i + 8))) (word_at w (i + 2)))
        (word_at w i))
      1)

-- The first loop, for `n` rounds from `i` on.
pub plain_rounds : ℕ → ℕ → List ℕ → Regs → Regs
plain_rounds zero i w r = r
plain_rounds (suc n) i w r = plain_rounds n (i + 1) w (mix r (choose r) 0x5a827999 (word_at w i))

-- The other loops, for `n` rounds from `i` on, each with its function and its constant.
pub rounds : ℕ → (Regs → ℕ) → ℕ → ℕ → List ℕ × Regs → List ℕ × Regs
rounds zero f v i s = s
rounds (suc n) f v i (w, r) =
    let w' = expand w i in rounds n f v (i + 1) (w', mix r (f r) v (word_at w' i))

-- `r[0] += a` to `r[4] += e`
abbrev pub plus : Regs → Regs → Regs
plus r s = record {
  a = u32 (r.a + s.a);
  b = u32 (r.b + s.b);
  c = u32 (r.c + s.c);
  d = u32 (r.d + s.d);
  e = u32 (r.e + s.e);
}

-- What is left in the array, and the new `r`.
pub sha1mix : Regs → List ℕ → List ℕ × Regs
sha1mix r w =
    let s16 : List ℕ × Regs = (w, plain_rounds 16 0 w r) in
    let s20 = rounds 4 choose 0x5a827999 16 s16 in
    let s40 = rounds 20 parity 0x6ed9eba1 20 s20 in
    let s60 = rounds 20 majority 0x8f1bbcdc 40 s40 in
    let (w', last) = rounds 20 parity 0xca62c1d6 60 s60 in (w', plus r last)

-- The word of four bytes, the first of them the highest.
pub word_of : List ℕ → ℕ → ℕ
word_of p i =
    bit_or
      (bit_or (bit_or (get_or p (i + 3) 0) (get_or p (i + 2) 0 * 2 ^ 8))
        (get_or p (i + 1) 0 * 2 ^ 16))
      (u32 (get_or p i 0 * 2 ^ 24))

-- The inner loop, for the `n` words from position `i` on.
pub load : ℕ → List ℕ → ℕ → List ℕ → List ℕ
load zero p i w = w
load (suc n) p i w = load n p (i + 4) (set w (i / 4 % 16) (word_of p i))

-- The loop over the `n` whole blocks from position `i` on.
pub blocks : ℕ → List ℕ → ℕ → List ℕ × Regs → List ℕ × Regs
blocks zero p i s = s
blocks (suc n) p i (w, r) = blocks n p (i + 64) (sha1mix r (load 16 p i w))

abbrev pub zero_words : List ℕ
zero_words = 0 ∷ 0 ∷ 0 ∷ 0 ∷ 0 ∷ 0 ∷ 0 ∷ 0 ∷ 0 ∷ 0 ∷ 0 ∷ 0 ∷ 0 ∷ 0 ∷ 0 ∷ 0 ∷ []

-- `w[i >> 2 & 0xf] |= b << ((3 ^ (i & 3)) << 3)`
pub or_byte : List ℕ → ℕ → ℕ → List ℕ
or_byte w i b =
    set w (i / 4 % 16) (bit_or (word_at w (i / 4)) (u32 (b * 2 ^ (bit_xor 3 (i % 4) * 8))))

-- The loop over the bytes that are left, the first of which has position `i`.
pub or_bytes : List ℕ → ℕ → List ℕ → List ℕ
or_bytes w i [] = w
or_bytes w i (b ∷ bs) = or_bytes (or_byte w i b) (i + 1) bs

abbrev pub initial : Regs
initial = record { a = 0x67452301; b = 0xefcdab89; c = 0x98badcfe; d = 0x10325476; e = 0xc3d2e1f0 }

-- `h[4 * k]` to `h[4 * k + 3]` for one of the words.
abbrev pub four_bytes : ℕ → List ℕ
four_bytes x = x / 2 ^ 24 % 256 ∷ x / 2 ^ 16 % 256 ∷ x / 2 ^ 8 % 256 ∷ x % 256 ∷ []

-- The last loop: the 20 bytes of the hash.
pub digest : Regs → List ℕ
digest r =
    four_bytes r.a ++ (four_bytes r.b ++ (four_bytes r.c ++ (four_bytes r.d ++ four_bytes r.e)))

-- `r` is not changed by the padding of the last words.
pub sha1 : List ℕ → List ℕ
sha1 p =
    let n = length p in
    let whole = n / 64 in
    let (w0, r0) = blocks whole p 0 (zero_words, initial) in
    let w1 = or_byte (or_bytes zero_words (whole * 64) (drop (whole * 64) p)) n 0x80 in
    let (w2, r2) : List ℕ × Regs =
      if ltb 56 (n % 64) then (zero_words, (sha1mix r0 w1).1) else (w1, r0) in
    let (w3, r) = sha1mix r2 (set w2 15 (u32 (n * 2 ^ 3))) in digest r
