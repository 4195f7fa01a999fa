-- ===== src/WebSocket/Sha1/Standard.antt =====
-- FIPS 180-4, 5.1.1: the padding of a message whose length in bits fits in 64 bits; and its hash, put
-- together from the operations of code/example/wsserver/websocket.h. WebSocket/Sha1/Fips.antt has the
-- standard by itself.
use chain_socket.Base.{
  ℕ, zero, suc, ◌+◌, ◌-◌, ◌*◌, ◌/◌, ◌%◌, ◌^◌, List, [], ◌∷◌, ◌++◌, length, get_or, replicate,
}
use chain_socket.WebSocket.Sha1.{Regs, plus, initial, digest}
use chain_socket.WebSocket.Sha1.Schedule.{fips_rounds}
use chain_socket.WebSocket.Sha1.Expansion.{words_of}

-- The word of four bytes from position `i` on.
abbrev pub big_endian : (ℕ → ℕ) → ℕ → ℕ
big_endian g i = g i * 2 ^ 24 + g (i + 1) * 2 ^ 16 + g (i + 2) * 2 ^ 8 + g (i + 3)

-- The `m` words from position `i` on.
abbrev pub words_at : ℕ → ℕ → (ℕ → ℕ) → List ℕ
words_at zero i g = []
words_at (suc m) i g = big_endian g i ∷ words_at m (i + 4) g

-- A message as a function of the position; behind its end there are zeros.
abbrev pub byte_of : List ℕ → ℕ → ℕ
byte_of p i = get_or p i 0

-- The number of the zero bytes behind the one bit.
abbrev pub gap : ℕ → ℕ
gap n = (119 - n % 64) % 64

-- The length in bits, in eight bytes.
abbrev pub length_bytes : ℕ → List ℕ
length_bytes x =
    x / 2 ^ 56 % 256
    ∷ x / 2 ^ 48 % 256
    ∷ x / 2 ^ 40 % 256
    ∷ x / 2 ^ 32 % 256
    ∷ x / 2 ^ 24 % 256
    ∷ x / 2 ^ 16 % 256
    ∷ x / 2 ^ 8 % 256
    ∷ x % 256
    ∷ []

abbrev pub padded : List ℕ → List ℕ
padded p = p ++ (0x80 ∷ (replicate (gap (length p)) 0 ++ length_bytes (length p * 8)))

-- The registers after one more block of 16 words.
abbrev pub compress : Regs → List ℕ → Regs
compress r block = plus r (fips_rounds 80 0 (words_of block) r)

-- The `n` blocks from position `i` on.
abbrev pub fips_blocks : ℕ → ℕ → (ℕ → ℕ) → Regs → Regs
fips_blocks zero i g r = r
fips_blocks (suc n) i g r = fips_blocks n (i + 64) g (compress r (words_at 16 i g))

unfoldable pub block_sha1 : List ℕ → List ℕ
block_sha1 p = digest (fips_blocks (length (padded p) / 64) 0 (byte_of (padded p)) initial)
