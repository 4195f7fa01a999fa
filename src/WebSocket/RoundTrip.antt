-- ===== src/WebSocket/RoundTrip.antt =====
-- wsParseInputFrame reads the frames that a client sends by RFC 6455.
use Prim.Native.Nat.{bit_and, bit_xor}
use native.Mathlib.Nat.{mod-lt}
use chain_socket.Base.{
  ℕ, zero, suc, ◌+◌, ◌-◌, ◌*◌, ◌/◌, ◌%◌, ◌≤◌, ◌<◌, ◌≡◌, refl, sym, ap, ◌≢◌, true, false, List, [],
  ◌∷◌, ◌++◌, some, arith, ltb, leb, ◌==◌, if◌then◌else◌, length, get_elem?, get_or, take, drop,
  Bool-cases, inl, inr,
}
use chain_socket.Base.Outcome.{done}
use chain_socket.WebSocket.{
  FrameType, empty_frame, error_frame, incomplete_frame, continuation_frame, text_frame,
  binary_frame, ping_frame, pong_frame, opening_frame, closing_frame, code, byte,
  get_payload_length, unmask, of_opcode, take_payload, parse_input_frame,
}
use chain_socket.WebSocket.Bits.{xor_twice, masked_length, masked_bit}

-- A masking key of four bytes.
pub record Key : Type 0 where
  pub k0 : ℕ
  pub k1 : ℕ
  pub k2 : ℕ
  pub k3 : ℕ

abbrev pub key_bytes : Key → List ℕ
key_bytes k = k.k0 ∷ k.k1 ∷ k.k2 ∷ k.k3 ∷ []

abbrev pub IsKey : Key → Type 0
IsKey k = (k.k0 < 256) × (k.k1 < 256) × (k.k2 < 256) × (k.k3 < 256)

abbrev pub IsBytes : List ℕ → Type 0
IsBytes [] = Unit
IsBytes (b ∷ bs) = (b < 256) × IsBytes bs

-- RFC 6455, 5.3: byte i is combined with byte i modulo 4 of the key.
abbrev pub mask : Key → ℕ → List ℕ → List ℕ
mask k i [] = []
mask k i (b ∷ bs) = bit_xor b (get_or (key_bytes k) (i % 4) 0) ∷ mask k (i + 1) bs

-- RFC 6455, 5.2: the length of a masked frame, in one byte or in three.
abbrev pub length_field : ℕ → List ℕ
length_field n = if leb n 125 then (128 + n) ∷ [] else 254 ∷ n / 256 ∷ n % 256 ∷ []

-- A final frame of a client.
abbrev pub client_frame : FrameType → Key → List ℕ → List ℕ
client_frame type k bytes =
    (128 + code type) ∷ length_field (length bytes) ++ key_bytes k ++ mask k 0 bytes

pub length-mask : (k : Key) (i : ℕ) (bs : List ℕ) → length (mask k i bs) ≡ length bs
length-mask k i [] = refl
length-mask k i (b ∷ bs) = ap suc (length-mask k (i + 1) bs)

pub key_byte :
    (k : Key) (i : ℕ)
    → IsKey k
    → i < 4
    → (get_elem? (key_bytes k) i ≡ some (get_or (key_bytes k) i 0))
      × (get_or (key_bytes k) i 0 < 256)
key_byte k zero (h0, h1, h2, h3) lt = (refl, h0)
key_byte k (suc zero) (h0, h1, h2, h3) lt = (refl, h1)
key_byte k (suc (suc zero)) (h0, h1, h2, h3) lt = (refl, h2)
key_byte k (suc (suc (suc zero))) (h0, h1, h2, h3) lt = (refl, h3)
key_byte k (suc (suc (suc (suc i)))) h lt = absurd (omega arith)

pub byte-some :
    (frame : List ℕ) (i : ℕ) {b : ℕ} → get_elem? frame i ≡ some b → byte frame i ≡ done b
unfolding byte
byte-some frame i e = rw (e, byte)

pub unmask-mask :
    (k : Key) (i : ℕ) (bs : List ℕ)
    → IsKey k
    → IsBytes bs
    → unmask (key_bytes k) i (mask k i bs) ≡ done bs
unfolding unmask
unmask-mask k i [] h all = refl
unmask-mask k i (b ∷ bs) h (first, all) =
    let (found, small) = key_byte k (i % 4) h (mod-lt i {m = 4} (omega arith)) in
    rw (
      byte-some (key_bytes k) (i % 4) found,
      unmask-mask k (i + 1) bs h all,
      xor_twice b _ first small,
      unmask,
    )

pub take_all : (xs : List ℕ) (n : ℕ) → n ≡ length xs → take n xs ≡ xs
take_all [] zero e = refl
take_all [] (suc n) e = absurd (omega arith)
take_all (x ∷ xs) zero e = absurd (omega arith)
take_all (x ∷ xs) (suc n) e = ap (λ ys. x ∷ ys) (take_all xs n (omega arith))

take_payload_lem :
    (frame : List ℕ) (k : Key) (bytes : List ℕ) (extra : ℕ) (type : FrameType)
    → IsKey k
    → IsBytes bytes
    → length bytes ≢ 0
    → drop (2 + extra) frame ≡ key_bytes k ++ mask k 0 bytes
    → length frame ≡ length bytes + 6 + extra
    → take_payload frame (length bytes) extra type ≡ done (type, some bytes)
unfolding take_payload
take_payload_lem frame k bytes extra type h all some_bytes rest size =
    let full : (length bytes == 0) ≡ false = ground arith in
    let whole : ltb (length frame) (length bytes + 6 + extra) ≡ false = ground arith in
    let exact : (length bytes == length frame - 6 - extra) ≡ true = ground arith in
    let payload = take_all (mask k 0 bytes) (length bytes) (sym (length-mask k 0 bytes)) in
    rw (full, whole, exact, rest, payload, unmask-mask k 0 bytes h all)

-- The first byte of a frame of a type that the parser takes.
abbrev pub HeadOk : FrameType → Type 0
HeadOk t =
    ((bit_and (128 + code t) 0x70 == 0) ≡ true)
    × ((bit_and (128 + code t) 0x80 == 0x80) ≡ true)
    × (of_opcode (bit_and (128 + code t) 0x0F) ≡ some t)

-- The types that the parser takes.
abbrev pub IsTaken : FrameType → Type 0
IsTaken t = of_opcode (code t) ≡ some t

pub head_ok : (t : FrameType) → IsTaken t → HeadOk t
unfolding code of_opcode
head_ok text_frame e = (refl, refl, refl)
head_ok binary_frame e = (refl, refl, refl)
head_ok closing_frame e = (refl, refl, refl)
head_ok ping_frame e = (refl, refl, refl)
head_ok pong_frame e = (refl, refl, refl)
head_ok continuation_frame e = absurd (cc)
head_ok empty_frame e = absurd (cc)
head_ok error_frame e = absurd (cc)
head_ok incomplete_frame e = absurd (cc)
head_ok opening_frame e = absurd (cc)

module _ (t : FrameType) (k : Key) (bytes : List ℕ) (taken : IsTaken t) (h : IsKey k)
    (all : IsBytes bytes) where
  parse_short :
      0 < length bytes
      → length bytes ≤ 125
      → parse_input_frame (client_frame t k bytes) ≡ done (t, some bytes)
  unfolding parse_input_frame get_payload_length byte
  parse_short pos small =
      let (no_ext, final, op) = head_ok t taken in
      let n = length bytes in
      let short : leb n 125 ≡ true = ground arith in
      let not126 : (n == 0x7E) ≡ false = ground arith in
      let not127 : (n == 0x7F) ≡ false = ground arith in
      let frame : List ℕ = (128 + code t) ∷ (128 + n) ∷ key_bytes k ++ mask k 0 bytes in
      let rest =
        take_payload_lem frame k bytes 0 t h all (λ e. omega arith) refl
          (omega (arith, length-mask k 0 bytes)) in
      rw
        (
          short,
          no_ext,
          final,
          op,
          masked_bit n (omega arith),
          masked_length n (omega arith),
          not126,
          not127,
        )
        rest

  parse_long :
      125 < length bytes
      → length bytes ≤ 0xFFFF
      → parse_input_frame (client_frame t k bytes) ≡ done (t, some bytes)
  unfolding parse_input_frame get_payload_length byte
  parse_long big small =
      let (no_ext, final, op) = head_ok t taken in
      let n = length bytes in
      let long : leb n 125 ≡ false = ground arith in
      let back : n / 256 * 256 + n % 256 ≡ n = omega arith in
      let frame : List ℕ =
        (128 + code t) ∷ 254 ∷ n / 256 ∷ n % 256 ∷ key_bytes k ++ mask k 0 bytes in
      let rest =
        take_payload_lem frame k bytes 2 t h all (λ e. omega arith) refl
          (omega (arith, length-mask k 0 bytes)) in
      let payload : take_payload frame (n / 256 * 256 + n % 256) 2 t ≡ done (t, some bytes) =
        rw back rest in
      let enough : ltb (length frame) 4 ≡ false = ground arith in
      rw (long, no_ext, final, op, enough) payload

-- wsParseInputFrame reads a final masked frame of RFC 6455 as a client sends it: of a text, binary,
-- close, ping or pong frame whose payload has between 1 and 65535 bytes it returns the type and the
-- payload as it was before it was masked.
pub parse_input_frame-client_frame :
    (t : FrameType) (k : Key) (bytes : List ℕ)
    → IsTaken t
    → IsKey k
    → IsBytes bytes
    → 0 < length bytes
    → length bytes ≤ 0xFFFF
    → parse_input_frame (client_frame t k bytes) ≡ done (t, some bytes)
parse_input_frame-client_frame t k bytes taken h all pos small =
    elim (Bool-cases (leb (length bytes) 125)) [
      | inl short ↦ parse_short t k bytes taken h all pos (ground arith)
      | inr long ↦ parse_long t k bytes taken h all (ground arith) small
    ]
