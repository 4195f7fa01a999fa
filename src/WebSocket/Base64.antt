-- ===== src/WebSocket/Base64.antt =====
-- code/example/wsserver/websocket.h: base64len and base64.
pub mod Words
pub mod Letters
pub mod Decode
mod Tests
use chain_socket.Base.{
  ℕ, zero, suc, ◌+◌, ◌-◌, ◌*◌, ◌/◌, ◌%◌, ◌^◌, List, [], ◌∷◌, ◌++◌, leb, if◌then◌else◌, length,
  get_or, bit_and, bit_or,
}

abbrev pub base64len : ℕ → ℕ
base64len n = (n + 2) % 2 ^ 64 / 3 * 4 % 2 ^ 64

-- The array `t`: A to Z, a to z, 0 to 9, + and /.
abbrev pub alphabet : List ℕ
alphabet =
    65 ∷ 66 ∷ 67 ∷ 68 ∷ 69 ∷ 70 ∷ 71 ∷ 72 ∷ 73 ∷ 74 ∷ 75 ∷ 76 ∷ 77 ∷ 78 ∷ 79 ∷ 80 ∷ 81 ∷ 82 ∷ 83
    ∷ 84 ∷ 85 ∷ 86 ∷ 87 ∷ 88 ∷ 89 ∷ 90 ∷ 97 ∷ 98 ∷ 99 ∷ 100 ∷ 101 ∷ 102 ∷ 103 ∷ 104 ∷ 105 ∷ 106
    ∷ 107 ∷ 108 ∷ 109 ∷ 110 ∷ 111 ∷ 112 ∷ 113 ∷ 114 ∷ 115 ∷ 116 ∷ 117 ∷ 118 ∷ 119 ∷ 120 ∷ 121 ∷ 122
    ∷ 48 ∷ 49 ∷ 50 ∷ 51 ∷ 52 ∷ 53 ∷ 54 ∷ 55 ∷ 56 ∷ 57 ∷ 43 ∷ 47 ∷ []

-- `t[s & 0x3f]`, whose index is always in range.
pub letter : ℕ → ℕ
letter s = get_or alphabet (bit_and s 0x3F) 0

-- `(((n - k) >> 31) & '=') | (~((n - k) >> 31) & c)`, on numbers of 64 bits, as a character.
pub pad_or : ℕ → ℕ → ℕ → ℕ
pad_or n k c =
    let high = (n + 2 ^ 64 - k) % 2 ^ 64 / 2 ^ 31 in
    bit_or (bit_and high 61) (bit_and (2 ^ 64 - 1 - high) c) % 256

-- The four characters of a round with three bytes; `i` is the position of the last of them.
pub group : ℕ → ℕ → ℕ → ℕ → ℕ → List ℕ
group n i a b c =
    let x = bit_or (bit_or (a * 2 ^ 16) (b * 2 ^ 8)) c in
    letter (x / 2 ^ 18)
    ∷ letter (x / 2 ^ 12)
    ∷ pad_or n i (letter (x / 2 ^ 6))
    ∷ pad_or n (1 + i) (letter x)
    ∷ []

-- The loop, on the bytes that are left, the first of which has position `i`.
pub base64_loop : ℕ → ℕ → List ℕ → List ℕ
base64_loop n i [] = []
base64_loop n i (a ∷ []) = group n (i + 2) a 0 0
base64_loop n i (a ∷ b ∷ []) = group n (i + 2) a b 0
base64_loop n i (a ∷ b ∷ c ∷ rest) = group n (i + 2) a b c ++ base64_loop n (i + 3) rest

-- What is written to a buffer of this size, and the result.
pub base64 : ℕ → List ℕ → List ℕ × ℕ
base64 nbuf p =
    let m = base64len (length p) in (if leb m nbuf then base64_loop (length p) 0 p else [], m)
