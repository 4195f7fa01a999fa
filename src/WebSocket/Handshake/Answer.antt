-- ===== src/WebSocket/Handshake/Answer.antt =====
-- The answer to a handshake, and the keys for which there is none.
use chain_socket.Base.{ℕ, List, [], ◌∷◌}
use chain_socket.WebSocket.Handshake.{Handshake}

-- The response of RFC 6455, 4.2.2, to the Sec-WebSocket-Accept field: "HTTP/1.1 101 Switching
-- Protocols", "Upgrade: websocket", "Connection: Upgrade" and "Sec-WebSocket-Accept: ", with CR LF
-- between them.
abbrev pub response_head : List ℕ
response_head =
    72 ∷ 84 ∷ 84 ∷ 80 ∷ 47 ∷ 49 ∷ 46 ∷ 49 ∷ 32 ∷ 49 ∷ 48 ∷ 49 ∷ 32 ∷ 83 ∷ 119 ∷ 105 ∷ 116 ∷ 99 ∷ 104
    ∷ 105 ∷ 110 ∷ 103 ∷ 32 ∷ 80 ∷ 114 ∷ 111 ∷ 116 ∷ 111 ∷ 99 ∷ 111 ∷ 108 ∷ 115 ∷ 13 ∷ 10 ∷ 85 ∷ 112
    ∷ 103 ∷ 114 ∷ 97 ∷ 100 ∷ 101 ∷ 58 ∷ 32 ∷ 119 ∷ 101 ∷ 98 ∷ 115 ∷ 111 ∷ 99 ∷ 107 ∷ 101 ∷ 116 ∷ 13
    ∷ 10 ∷ 67 ∷ 111 ∷ 110 ∷ 110 ∷ 101 ∷ 99 ∷ 116 ∷ 105 ∷ 111 ∷ 110 ∷ 58 ∷ 32 ∷ 85 ∷ 112 ∷ 103 ∷ 114
    ∷ 97 ∷ 100 ∷ 101 ∷ 13 ∷ 10 ∷ 83 ∷ 101 ∷ 99 ∷ 45 ∷ 87 ∷ 101 ∷ 98 ∷ 83 ∷ 111 ∷ 99 ∷ 107 ∷ 101
    ∷ 116 ∷ 45 ∷ 65 ∷ 99 ∷ 99 ∷ 101 ∷ 112 ∷ 116 ∷ 58 ∷ 32 ∷ []

-- The GUID of RFC 6455, "258EAFA5-E914-47DA-95CA-C5AB0DC85B11".
abbrev pub rfc_guid : List ℕ
rfc_guid =
    50 ∷ 53 ∷ 56 ∷ 69 ∷ 65 ∷ 70 ∷ 65 ∷ 53 ∷ 45 ∷ 69 ∷ 57 ∷ 49 ∷ 52 ∷ 45 ∷ 52 ∷ 55 ∷ 68 ∷ 65 ∷ 45
    ∷ 57 ∷ 53 ∷ 67 ∷ 65 ∷ 45 ∷ 67 ∷ 53 ∷ 65 ∷ 66 ∷ 48 ∷ 68 ∷ 67 ∷ 56 ∷ 53 ∷ 66 ∷ 49 ∷ 49 ∷ []
