-- ===== src/WebSocket/Sha1/Tests.antt =====
-- Runs of sha1.
use chain_socket.Base.{ℕ, arith, ◌≡◌, refl, List, [], ◌∷◌, take}
use chain_socket.WebSocket.Sha1.{
  rol, mix, word_at, expand, plain_rounds, rounds, sha1mix, word_of, load, blocks, or_byte,
  or_bytes, digest, sha1,
}
use chain_socket.WebSocket.Sha1.Fips.{fips_sha1}
use chain_socket.WebSocket.Sha1.Message.{sha1-fips_sha1}

-- The hash of "abc" in FIPS 180.
sha1_abc :
    sha1 (97 ∷ 98 ∷ 99 ∷ [])
    ≡ 0xa9 ∷ 0x99 ∷ 0x3e ∷ 0x36 ∷ 0x47 ∷ 0x06 ∷ 0x81 ∷ 0x6a ∷ 0xba ∷ 0x3e ∷ 0x25 ∷ 0x71 ∷ 0x78
      ∷ 0x50 ∷ 0xc2 ∷ 0x6c ∷ 0x9c ∷ 0xd0 ∷ 0xd8 ∷ 0x9d ∷ []
unfolding sha1 digest or_bytes or_byte blocks load word_of sha1mix rounds plain_rounds expand
    word_at mix rol
sha1_abc = refl

-- The message of two blocks in FIPS 180, of 56 bytes. Its hash there begins with 0x84; here the
-- last bytes of the length and the bit behind the message come to stand in one block.
abbrev two_blocks : List ℕ
two_blocks =
    97 ∷ 98 ∷ 99 ∷ 100 ∷ 98 ∷ 99 ∷ 100 ∷ 101 ∷ 99 ∷ 100 ∷ 101 ∷ 102 ∷ 100 ∷ 101 ∷ 102 ∷ 103 ∷ 101
    ∷ 102 ∷ 103 ∷ 104 ∷ 102 ∷ 103 ∷ 104 ∷ 105 ∷ 103 ∷ 104 ∷ 105 ∷ 106 ∷ 104 ∷ 105 ∷ 106 ∷ 107 ∷ 105
    ∷ 106 ∷ 107 ∷ 108 ∷ 106 ∷ 107 ∷ 108 ∷ 109 ∷ 107 ∷ 108 ∷ 109 ∷ 110 ∷ 108 ∷ 109 ∷ 110 ∷ 111 ∷ 109
    ∷ 110 ∷ 111 ∷ 112 ∷ 110 ∷ 111 ∷ 112 ∷ 113 ∷ []

sha1-two_blocks : take 4 (sha1 two_blocks) ≡ 91 ∷ 224 ∷ 141 ∷ 244 ∷ []
unfolding sha1 digest or_bytes or_byte blocks load word_of sha1mix rounds plain_rounds expand
    word_at mix rol
sha1-two_blocks = refl

-- "dGhlIHNhbXBsZSBub25jZQ==258EAFA5-E914-47DA-95CA-C5AB0DC85B11", the key of RFC 6455, 1.3.
abbrev accept_key : List ℕ
accept_key =
    100 ∷ 71 ∷ 104 ∷ 108 ∷ 73 ∷ 72 ∷ 78 ∷ 104 ∷ 98 ∷ 88 ∷ 66 ∷ 115 ∷ 90 ∷ 83 ∷ 66 ∷ 117 ∷ 98 ∷ 50
    ∷ 53 ∷ 106 ∷ 90 ∷ 81 ∷ 61 ∷ 61 ∷ 50 ∷ 53 ∷ 56 ∷ 69 ∷ 65 ∷ 70 ∷ 65 ∷ 53 ∷ 45 ∷ 69 ∷ 57 ∷ 49 ∷ 52
    ∷ 45 ∷ 52 ∷ 55 ∷ 68 ∷ 65 ∷ 45 ∷ 57 ∷ 53 ∷ 67 ∷ 65 ∷ 45 ∷ 67 ∷ 53 ∷ 65 ∷ 66 ∷ 48 ∷ 68 ∷ 67 ∷ 56
    ∷ 53 ∷ 66 ∷ 49 ∷ 49 ∷ []

sha1-accept_key :
    sha1 accept_key
    ≡ 179 ∷ 122 ∷ 79 ∷ 44 ∷ 192 ∷ 98 ∷ 79 ∷ 22 ∷ 144 ∷ 246 ∷ 70 ∷ 6 ∷ 207 ∷ 56 ∷ 89 ∷ 69 ∷ 178 ∷ 190
      ∷ 196 ∷ 234 ∷ []
unfolding sha1 digest or_bytes or_byte blocks load word_of sha1mix rounds plain_rounds expand
    word_at mix rol
sha1-accept_key = refl

sha1-fips_sha1_example : sha1 (97 ∷ 98 ∷ 99 ∷ []) ≡ fips_sha1 (97 ∷ 98 ∷ 99 ∷ [])
sha1-fips_sha1_example =
    sha1-fips_sha1 (97 ∷ 98 ∷ 99 ∷ []) (omega arith, (omega arith, (omega arith, tt))) (omega arith)
      (λ e. absurd (omega (arith, e)))
