-- ===== src/WebSocket/Texts.antt =====
-- code/example/wsserver/websocket.cpp and websocket.h: the texts of the handshake, as bytes.
use chain_socket.Base.{ℕ, List, [], ◌∷◌}

-- "Connection: "
abbrev pub connection_field : List ℕ
connection_field = 67 ∷ 111 ∷ 110 ∷ 110 ∷ 101 ∷ 99 ∷ 116 ∷ 105 ∷ 111 ∷ 110 ∷ 58 ∷ 32 ∷ []

-- "upgrade"
abbrev pub upgrade : List ℕ
upgrade = 117 ∷ 112 ∷ 103 ∷ 114 ∷ 97 ∷ 100 ∷ 101 ∷ []

-- "Upgrade"
abbrev pub upgrade2 : List ℕ
upgrade2 = 85 ∷ 112 ∷ 103 ∷ 114 ∷ 97 ∷ 100 ∷ 101 ∷ []

-- "Upgrade: "
abbrev pub upgrade_field : List ℕ
upgrade_field = 85 ∷ 112 ∷ 103 ∷ 114 ∷ 97 ∷ 100 ∷ 101 ∷ 58 ∷ 32 ∷ []

-- "websocket"
abbrev pub websocket : List ℕ
websocket = 119 ∷ 101 ∷ 98 ∷ 115 ∷ 111 ∷ 99 ∷ 107 ∷ 101 ∷ 116 ∷ []

-- "Host: "
abbrev pub host_field : List ℕ
host_field = 72 ∷ 111 ∷ 115 ∷ 116 ∷ 58 ∷ 32 ∷ []

-- "Origin: "
abbrev pub origin_field : List ℕ
origin_field = 79 ∷ 114 ∷ 105 ∷ 103 ∷ 105 ∷ 110 ∷ 58 ∷ 32 ∷ []

-- "Sec-WebSocket-Key: "
abbrev pub key_field : List ℕ
key_field =
    83 ∷ 101 ∷ 99 ∷ 45 ∷ 87 ∷ 101 ∷ 98 ∷ 83 ∷ 111 ∷ 99 ∷ 107 ∷ 101 ∷ 116 ∷ 45 ∷ 75 ∷ 101 ∷ 121 ∷ 58
    ∷ 32 ∷ []

-- "Sec-WebSocket-Protocol: "
abbrev pub protocol_field : List ℕ
protocol_field =
    83 ∷ 101 ∷ 99 ∷ 45 ∷ 87 ∷ 101 ∷ 98 ∷ 83 ∷ 111 ∷ 99 ∷ 107 ∷ 101 ∷ 116 ∷ 45 ∷ 80 ∷ 114 ∷ 111 ∷ 116
    ∷ 111 ∷ 99 ∷ 111 ∷ 108 ∷ 58 ∷ 32 ∷ []

-- "Sec-WebSocket-Version: "
abbrev pub version_field : List ℕ
version_field =
    83 ∷ 101 ∷ 99 ∷ 45 ∷ 87 ∷ 101 ∷ 98 ∷ 83 ∷ 111 ∷ 99 ∷ 107 ∷ 101 ∷ 116 ∷ 45 ∷ 86 ∷ 101 ∷ 114 ∷ 115
    ∷ 105 ∷ 111 ∷ 110 ∷ 58 ∷ 32 ∷ []

-- "13"
abbrev pub version : List ℕ
version = 49 ∷ 51 ∷ []

-- "258EAFA5-E914-47DA-95CA-C5AB0DC85B11"
abbrev pub secret : List ℕ
secret =
    50 ∷ 53 ∷ 56 ∷ 69 ∷ 65 ∷ 70 ∷ 65 ∷ 53 ∷ 45 ∷ 69 ∷ 57 ∷ 49 ∷ 52 ∷ 45 ∷ 52 ∷ 55 ∷ 68 ∷ 65 ∷ 45
    ∷ 57 ∷ 53 ∷ 67 ∷ 65 ∷ 45 ∷ 67 ∷ 53 ∷ 65 ∷ 66 ∷ 48 ∷ 68 ∷ 67 ∷ 56 ∷ 53 ∷ 66 ∷ 49 ∷ 49 ∷ []

-- "GET "
abbrev pub get : List ℕ
get = 71 ∷ 69 ∷ 84 ∷ 32 ∷ []

-- "\r\n"
abbrev pub rn : List ℕ
rn = 13 ∷ 10 ∷ []

-- "HTTP/1.1 101 Switching Protocols\r\n"
abbrev pub switching : List ℕ
switching =
    72 ∷ 84 ∷ 84 ∷ 80 ∷ 47 ∷ 49 ∷ 46 ∷ 49 ∷ 32 ∷ 49 ∷ 48 ∷ 49 ∷ 32 ∷ 83 ∷ 119 ∷ 105 ∷ 116 ∷ 99 ∷ 104
    ∷ 105 ∷ 110 ∷ 103 ∷ 32 ∷ 80 ∷ 114 ∷ 111 ∷ 116 ∷ 111 ∷ 99 ∷ 111 ∷ 108 ∷ 115 ∷ 13 ∷ 10 ∷ []

-- "Sec-WebSocket-Accept: "
abbrev pub accept_field : List ℕ
accept_field =
    83 ∷ 101 ∷ 99 ∷ 45 ∷ 87 ∷ 101 ∷ 98 ∷ 83 ∷ 111 ∷ 99 ∷ 107 ∷ 101 ∷ 116 ∷ 45 ∷ 65 ∷ 99 ∷ 99 ∷ 101
    ∷ 112 ∷ 116 ∷ 58 ∷ 32 ∷ []
