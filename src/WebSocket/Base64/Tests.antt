-- ===== src/WebSocket/Base64/Tests.antt =====
-- Runs of base64, and its theorems at concrete inputs.
use chain_socket.Base.{ℕ, ◌≤◌, ◌≡◌, refl, List, [], ◌∷◌, arith, length}
use chain_socket.WebSocket.Base64.{letter, pad_or, group, base64_loop, base64}
use chain_socket.WebSocket.Base64.Decode.{length-base64_le}

-- "foob" of RFC 4648, section 10.
abbrev foob : List ℕ
foob = 102 ∷ 111 ∷ 111 ∷ 98 ∷ []

-- "Zm9vYg=="
foob_encoded : base64 8 foob ≡ (90 ∷ 109 ∷ 57 ∷ 118 ∷ 89 ∷ 103 ∷ 61 ∷ 61 ∷ [], 8)
unfolding base64 base64_loop group letter pad_or
foob_encoded = refl

length-base64_le_example : length (base64 7 foob).0 ≤ 7
length-base64_le_example = length-base64_le 7 foob (omega arith)

-- The hash and the text of RFC 6455, 1.3: "s3pPLMBiTxaQ9kYGzzhZRbK+xOo=".
accept_encoded :
    base64 60 (
      179 ∷ 122 ∷ 79 ∷ 44 ∷ 192 ∷ 98 ∷ 79 ∷ 22 ∷ 144 ∷ 246 ∷ 70 ∷ 6 ∷ 207 ∷ 56 ∷ 89 ∷ 69 ∷ 178 ∷ 190
      ∷ 196 ∷ 234 ∷ [])
    ≡ (
      115 ∷ 51 ∷ 112 ∷ 80 ∷ 76 ∷ 77 ∷ 66 ∷ 105 ∷ 84 ∷ 120 ∷ 97 ∷ 81 ∷ 57 ∷ 107 ∷ 89 ∷ 71 ∷ 122 ∷ 122
          ∷ 104 ∷ 90 ∷ 82 ∷ 98 ∷ 75 ∷ 43 ∷ 120 ∷ 79 ∷ 111 ∷ 61 ∷ [],
      28,
    )
unfolding base64 base64_loop group letter pad_or
accept_encoded = refl
