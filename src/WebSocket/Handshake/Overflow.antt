-- ===== src/WebSocket/Handshake/Overflow.antt =====
-- A request that makes wsParseHandshake write outside of a block.
use chain_socket.Base.{ℕ, ◌≡◌, refl, ◌≢◌, true, false, List, ◌∷◌, ◌++◌, arith, leb, ◌==◌, length}
use chain_socket.Base.Outcome.{fault}
use chain_socket.WebSocket.Texts.{get}
use chain_socket.WebSocket.Handshake.{
  Handshake, begins, strchr, found, is_space, skip_spaces, token, parse_resource,
  ws_parse_handshake,
}

space : is_space 32 ≡ true
unfolding is_space
space = refl

token_of :
    (c : ℕ) (rest : List ℕ)
    → is_space c ≡ false
    → c ≢ 0
    → token (skip_spaces (32 ∷ c ∷ rest)) ≡ c ∷ token rest
unfolding skip_spaces token
token_of c rest visible some_c =
    let not_nul : (c == 0) ≡ false = ground arith in rw (space, visible, not_nul, visible) refl

-- wsParseHandshake on a request that begins with `GET`, two spaces and a character that is neither
-- white space nor 0 writes outside of the block that it allocates for the resource: the block has
-- one byte, and sscanf skips the second space.
pub ws_parse_handshake-overflows :
    (c : ℕ) (rest : List ℕ) (size : ℕ) (hs : Handshake)
    → is_space c ≡ false
    → c ≢ 0
    → ws_parse_handshake (get ++ 32 ∷ c ∷ rest) size hs ≡ fault
unfolding ws_parse_handshake parse_resource begins strchr found
ws_parse_handshake-overflows c rest size hs visible some_c =
    let some_token : (length (c ∷ token rest) == 0) ≡ false = ground arith in
    let too_long : leb 1 (length (c ∷ token rest)) ≡ true = ground arith in
    rw (token_of c rest visible some_c, some_token, too_long) refl
