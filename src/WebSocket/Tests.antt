-- ===== src/WebSocket/Tests.antt =====
-- Runs of the frame codec, and its theorems at concrete frames.
use chain_socket.Base.{ℕ, ◌≤◌, ◌<◌, ◌≡◌, refl, List, [], ◌∷◌, some, none, arith}
use chain_socket.Base.Outcome.{done, aborted, Yields}
use chain_socket.WebSocket.{
  incomplete_frame, text_frame, ping_frame, error_frame, code, make_frame, parse_input_frame,
  of_opcode,
}
use chain_socket.WebSocket.RoundTrip.{Key, client_frame, parse_input_frame-client_frame}
use chain_socket.WebSocket.Cut.{after_short, parse_input_frame-IsCut}
use chain_socket.WebSocket.Make.{Carries, make_frame-Carries}

-- The masked "Hello" of RFC 6455, 5.7.
abbrev rfc_key : Key
rfc_key = record { k0 = 0x37; k1 = 0xFA; k2 = 0x21; k3 = 0x3D }

abbrev hello : List ℕ
hello = 0x48 ∷ 0x65 ∷ 0x6C ∷ 0x6C ∷ 0x6F ∷ []

rfc_frame :
    client_frame text_frame rfc_key hello
    ≡ 0x81 ∷ 0x85 ∷ 0x37 ∷ 0xFA ∷ 0x21 ∷ 0x3D ∷ 0x7F ∷ 0x9F ∷ 0x4D ∷ 0x51 ∷ 0x58 ∷ []
unfolding code
rfc_frame = refl

-- A frame without its mask is refused.
unmasked_run : parse_input_frame (0x81 ∷ 0x05 ∷ hello) ≡ done (error_frame, none)
unfolding parse_input_frame
unmasked_run = refl

parse_input_frame-client_frame_example :
    parse_input_frame (client_frame text_frame rfc_key hello) ≡ done (text_frame, some hello)
unfolding code of_opcode
parse_input_frame-client_frame_example =
    parse_input_frame-client_frame text_frame rfc_key hello refl
      (omega arith, omega arith, omega arith, omega arith)
      (omega arith, (omega arith, (omega arith, (omega arith, (omega arith, tt))))) (omega arith)
      (omega arith)

make_frame-Carries_example :
    (5 ≤ 0xFFFF → Yields (Carries hello) (make_frame hello ping_frame))
    × (0xFFFF < 5 → make_frame hello ping_frame ≡ aborted)
unfolding code
make_frame-Carries_example = make_frame-Carries hello ping_frame (omega arith)

-- The frame of RFC 6455 without its last two bytes.
parse_input_frame-IsCut_example :
    parse_input_frame (0x81 ∷ 0x85 ∷ 0x37 ∷ 0xFA ∷ 0x21 ∷ 0x3D ∷ 0x7F ∷ 0x9F ∷ 0x4D ∷ [])
    ≡ done (incomplete_frame, none)
unfolding code of_opcode
parse_input_frame-IsCut_example =
    parse_input_frame-IsCut text_frame (0x85 ∷ 0x37 ∷ 0xFA ∷ 0x21 ∷ 0x3D ∷ 0x7F ∷ 0x9F ∷ 0x4D ∷ [])
      refl
      (after_short 5 (0x37 ∷ 0xFA ∷ 0x21 ∷ 0x3D ∷ 0x7F ∷ 0x9F ∷ 0x4D ∷ []) (omega arith)
        (omega arith) (omega arith))
