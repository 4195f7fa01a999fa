-- ===== src/WebSocket/Base64/Decode.antt =====
-- base64 against the decoder of RFC 4648.
use chain_socket.Base.{
  ℕ, ◌+◌, ◌*◌, ◌/◌, ◌%◌, ◌^◌, ◌≤◌, ◌<◌, ◌≡◌, refl, List, [], ◌∷◌, ◌++◌, arith, leb, ◌==◌,
  Bool-cases, inl, inr, if◌then◌else◌, length,
}
use chain_socket.WebSocket.Base64.{base64len, group, base64_loop, base64}
use chain_socket.WebSocket.Base64.Letters.{value}

-- The bytes of four characters.
pub quad : ℕ → ℕ → ℕ → ℕ → List ℕ
quad a b c d =
    let x = value a * 262144 + value b * 4096 + value c * 64 + value d in
    if c == 61
    then x / 65536 ∷ []
    else if d == 61
    then x / 65536 ∷ x / 256 % 256 ∷ []
    else x / 65536 ∷ x / 256 % 256 ∷ x % 256 ∷ []

pub decode : List ℕ → List ℕ
decode [] = []
decode (a ∷ []) = []
decode (a ∷ b ∷ []) = []
decode (a ∷ b ∷ c ∷ []) = []
decode (a ∷ b ∷ c ∷ d ∷ rest) = quad a b c d ++ decode rest

module _ (n : ℕ) (small : n < 2 ^ 31) where
  length-base64_loop : (i : ℕ) (p : List ℕ) → length (base64_loop n i p) ≡ (length p + 2) / 3 * 4
  unfolding base64_loop group
  length-base64_loop i [] = refl
  length-base64_loop i (a ∷ []) = refl
  length-base64_loop i (a ∷ b ∷ []) = refl
  length-base64_loop i (a ∷ b ∷ c ∷ rest) = omega (arith, length-base64_loop (i + 3) rest)

-- The size without the wrap-around.
base64len_lem : (n : ℕ) → n < 2 ^ 31 → base64len n ≡ (n + 2) / 3 * 4
base64len_lem n small = omega arith

-- base64 on fewer than 2^31 bytes writes at most as many characters as the buffer has room for.
pub length-base64_le : (nbuf : ℕ) (p : List ℕ) → length p < 2 ^ 31 → length (base64 nbuf p).0 ≤ nbuf
unfolding base64
length-base64_le nbuf p small =
    let size = base64len_lem (length p) small in
    elim (Bool-cases (leb ((length p + 2) / 3 * 4) nbuf)) [
      | inl room ↦
          let below : (length p + 2) / 3 * 4 ≤ nbuf = ground arith in
          rw (size, room) (omega (arith, below, length-base64_loop (length p) small 0 p))
      | inr over ↦ rw (size, over) (omega arith)
    ]
