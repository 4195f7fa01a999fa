-- ===== src/WebSocket/Handshake/Tests.antt =====
-- Runs of the handshake, and its theorems at concrete requests.
use chain_socket.Base.{ℕ, ◌≡◌, ◌≢◌, refl, false, List, [], ◌∷◌, ◌++◌, none, some, arith, length}
use chain_socket.Base.Outcome.{done, fault, no_fuel}
use chain_socket.WebSocket.{opening_frame}
use chain_socket.WebSocket.Texts.{
  rn, host_field, key_field, upgrade_field, upgrade2, connection_field, get,
}
use chain_socket.WebSocket.Handshake.{
  Handshake, null_handshake, begins, strchr, strstr, found, get_upto_linefeed, is_space,
  skip_spaces, token, tolower, parse_line, goes_on, parse_lines, verdict, parse_fields,
  parse_resource, ws_parse_handshake,
}
use chain_socket.WebSocket.Handshake.Ends.{ws_parse_handshake_ends}
use chain_socket.WebSocket.Handshake.Overflow.{ws_parse_handshake-overflows}

-- "dGhlIHNhbXBsZSBub25jZQ==", the key of RFC 6455, 1.3.
abbrev sample_key : List ℕ
sample_key =
    100 ∷ 71 ∷ 104 ∷ 108 ∷ 73 ∷ 72 ∷ 78 ∷ 104 ∷ 98 ∷ 88 ∷ 66 ∷ 115 ∷ 90 ∷ 83 ∷ 66 ∷ 117 ∷ 98 ∷ 50
    ∷ 53 ∷ 106 ∷ 90 ∷ 81 ∷ 61 ∷ 61 ∷ []

-- "GET /a HTTP/1.1" and the fields Host, Upgrade, Connection and Sec-WebSocket-Key.
abbrev request : List ℕ
request =
    get
    ++ (47 ∷ 97 ∷ 32 ∷ 72 ∷ 84 ∷ 84 ∷ 80 ∷ 47 ∷ 49 ∷ 46 ∷ 49 ∷ 13 ∷ 10 ∷ [])
    ++ host_field
    ++ (104 ∷ 13 ∷ 10 ∷ [])
    ++ upgrade_field
    ++ (119 ∷ 101 ∷ 98 ∷ 115 ∷ 111 ∷ 99 ∷ 107 ∷ 101 ∷ 116 ∷ 13 ∷ 10 ∷ [])
    ++ connection_field
    ++ upgrade2
    ++ rn
    ++ key_field
    ++ sample_key
    ++ rn
    ++ rn

abbrev parsed_request : Handshake
parsed_request = record {
  host = some (104 ∷ []);
  origin = none;
  key = some sample_key;
  resource = some (47 ∷ 97 ∷ []);
  frame_type = opening_frame;
}

slash : is_space 47 ≡ false
unfolding is_space
slash = refl

request_parsed :
    ws_parse_handshake request (length request) null_handshake
    ≡ done (opening_frame, parsed_request)
unfolding ws_parse_handshake parse_resource parse_fields begins strchr strstr found
    get_upto_linefeed is_space skip_spaces token tolower parse_line goes_on parse_lines verdict
    null_handshake
request_parsed = refl

ws_parse_handshake-overflows_example :
    ws_parse_handshake (get ++ 32 ∷ 47 ∷ 97 ∷ 32 ∷ 13 ∷ 10 ∷ []) 9 null_handshake ≡ fault
ws_parse_handshake-overflows_example =
    ws_parse_handshake-overflows 47 (97 ∷ 32 ∷ 13 ∷ 10 ∷ []) 9 null_handshake slash
      (λ e. omega (arith, e))

ws_parse_handshake_ends_example :
    ws_parse_handshake request (length request) null_handshake ≢ no_fuel
ws_parse_handshake_ends_example = ws_parse_handshake_ends request (length request) null_handshake
