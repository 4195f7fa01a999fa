-- ===== src/WebSocket/Base64/Letters.antt =====
-- The characters that base64 writes, and their values by RFC 4648.
use chain_socket.Base.{
  ℕ, ◌+◌, ◌-◌, ◌*◌, ◌/◌, ◌%◌, ◌^◌, ◌≤◌, ◌<◌, ◌≡◌, refl, Bool, true, false, ◌&&◌, not, [], ◌∷◌,
  arith, leb, ◌==◌, if◌then◌else◌, bit_and, bit_or,
}
use chain_socket.WebSocket.Bits.{every, every-true}
use chain_socket.WebSocket.Base64.{letter, pad_or, group}
use chain_socket.WebSocket.Base64.Words.{three_bytes, low_six}

-- RFC 4648, section 4: the value of a character, 0 for `=`.
unfoldable pub value : ℕ → ℕ
value c =
    if leb 65 c && leb c 90
    then c - 65
    else if leb 97 c && leb c 122
    then c - 71
    else if leb 48 c && leb c 57
    then c + 4
    else if c == 43
    then 62
    else if c == 47
    then 63
    else 0

-- What the proofs need of a character of six bits.
good : ℕ → Bool
good s =
    (value (letter s) == s)
    && not (letter s == 61)
    && (bit_or 0 (bit_and (2 ^ 64 - 1) (letter s)) % 256 == letter s)
    && (bit_or 61 (bit_and (2 ^ 64 - 2 ^ 33) (letter s)) % 256 == 61)

letter_table : every 64 good ≡ true
unfolding every good letter value
letter_table = refl

letter-good : (s : ℕ) → s < 64 → good s ≡ true
letter-good s h = every-true 64 good s letter_table h

pub value-letter : (s : ℕ) → s < 64 → value (letter s) ≡ s
unfolding good
value-letter s h = ground (arith, letter-good s h)

pub letter_other : (s : ℕ) → s < 64 → (letter s == 61) ≡ false
unfolding good
letter_other s h = ground (arith, letter-good s h)

-- A character of the payload, and one of the padding.
pub pad_or-letter : (n k s : ℕ) → s < 64 → k ≤ n → n < 2 ^ 31 → pad_or n k (letter s) ≡ letter s
unfolding good pad_or
pad_or-letter n k s h inside small =
    let high : (n + 2 ^ 64 - k) % 2 ^ 64 / 2 ^ 31 ≡ 0 = omega arith in
    let kept : bit_or 0 (bit_and (2 ^ 64 - 1) (letter s)) % 256 ≡ letter s =
      ground (arith, letter-good s h) in
    rw high kept

pub pad_or-pad : (n k s : ℕ) → s < 64 → n < k → k ≤ n + 3 → n < 2 ^ 31 → pad_or n k (letter s) ≡ 61
unfolding good pad_or
pad_or-pad n k s h outside near small =
    let high : (n + 2 ^ 64 - k) % 2 ^ 64 / 2 ^ 31 ≡ 2 ^ 33 - 1 = omega arith in
    let kept : bit_or 61 (bit_and (2 ^ 64 - 2 ^ 33) (letter s)) % 256 ≡ 61 =
      ground (arith, letter-good s h) in
    rw high kept

letter_mod : (x : ℕ) → letter x ≡ letter (x % 64)
unfolding letter
letter_mod x =
    let same : x % 64 % 64 ≡ x % 64 = omega arith in rw (low_six x, low_six (x % 64), same)

abbrev pub joined : ℕ → ℕ → ℕ → ℕ
joined a b c = a * 65536 + b * 256 + c

-- The six bits of the three bytes from position `shift` on.
abbrev pub six : ℕ → ℕ → ℕ
six x shift = x / shift % 64

pub six_small : (x shift : ℕ) → six x shift < 64
six_small x shift = omega arith

pub group_lem :
    (n i a b c : ℕ)
    → b < 256
    → c < 256
    → group n i a b c
      ≡ letter (six (joined a b c) 262144)
        ∷ letter (six (joined a b c) 4096)
        ∷ pad_or n i (letter (six (joined a b c) 64))
        ∷ pad_or n (1 + i) (letter (six (joined a b c) 1))
        ∷ []
unfolding group
group_lem n i a b c hb hc =
    let x = joined a b c in
    let last : six x 1 ≡ x % 64 = omega arith in
    rw (
      three_bytes a b c hb hc,
      letter_mod (x / 262144),
      letter_mod (x / 4096),
      letter_mod (x / 64),
      letter_mod x,
      last,
    )
