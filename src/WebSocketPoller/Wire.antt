-- ===== src/WebSocketPoller/Wire.antt =====
-- The loop over frames reads a text frame of RFC 6455, masked or not.
use chain_socket.Base.{
  ℕ, ◌+◌, ◌*◌, ◌/◌, ◌%◌, ◌≤◌, ◌<◌, ◌≡◌, refl, ap, ◌∙◌, true, false, Bool, List, [], ◌∷◌, ◌++◌,
  Option, none, some, arith, ltb, leb, ◌==◌, if◌then◌else◌, length, length-append, take, drop,
  take-append_length, Bool-cases, inl, inr, bit_and,
}
use chain_socket.Base.Outcome.{done}
use chain_socket.WebSocket.{text_frame, byte, of_opcode}
use chain_socket.WebSocket.Bits.{masked_length, masked_bit, plain_length, plain_bit}
use chain_socket.WebSocket.RoundTrip.{
  Key, IsKey, IsBytes, key_bytes, mask, length-mask, unmask-mask,
}
use chain_socket.WebSocketPoller.{
  message, header_size, payload_size, payload, by_type, whole_frame, read_frame,
}

-- RFC 6455, 5.2: the bit that says that the payload is masked.
abbrev pub mask_bit : Option Key → ℕ
mask_bit none = 0
mask_bit (some k) = 128

abbrev pub key_field : Option Key → List ℕ
key_field none = []
key_field (some k) = key_bytes k

abbrev pub payload_field : Option Key → List ℕ → List ℕ
payload_field none bytes = bytes
payload_field (some k) bytes = mask k 0 bytes

abbrev pub size_field : Option Key → ℕ → List ℕ
size_field m n =
    if leb n 125 then (mask_bit m + n) ∷ [] else (mask_bit m + 126) ∷ n / 256 ∷ n % 256 ∷ []

-- A final text frame with this payload.
abbrev pub wire : Option Key → List ℕ → List ℕ
wire m bytes = 129 ∷ (size_field m (length bytes) ++ (key_field m ++ payload_field m bytes))

abbrev pub header_length : Option Key → ℕ → ℕ
header_length m n = 1 + length (size_field m n) + length (key_field m)

abbrev pub IsKeyed : Option Key → Type 0
IsKeyed none = Unit
IsKeyed (some k) = IsKey k

abbrev pub is_masked : Option Key → Bool
is_masked none = false
is_masked (some k) = true

abbrev KeyAt : Option Key → List ℕ → ℕ → Type 0
KeyAt none frame at = Unit
KeyAt (some k) frame at = take 4 (drop at frame) ≡ key_bytes k

pub length-payload_field :
    (m : Option Key) (bytes : List ℕ) → length (payload_field m bytes) ≡ length bytes
length-payload_field none bytes = refl
length-payload_field (some k) bytes = length-mask k 0 bytes

payload_lem :
    (m : Option Key) (bytes tail frame : List ℕ) (at header : ℕ)
    → IsKeyed m
    → IsBytes bytes
    → drop header frame ≡ payload_field m bytes ++ tail
    → KeyAt m frame at
    → payload frame (is_masked m) at header (length bytes) ≡ done bytes
unfolding payload
payload_lem none bytes tail frame at header h all rest key =
    rw rest (ap done (take-append_length (length bytes) bytes tail refl))
payload_lem (some k) bytes tail frame at header h all rest key =
    let front = take-append_length (length bytes) (mask k 0 bytes) tail (length-mask k 0 bytes) in
    rw (rest, key, front) (unmask-mask k 0 bytes h all)

whole_frame_lem :
    (m : Option Key) (bytes tail frame : List ℕ) (n n0 at header : ℕ)
    → IsKeyed m
    → IsBytes bytes
    → drop header frame ≡ payload_field m bytes ++ tail
    → KeyAt m frame at
    → payload_size frame n0 ≡ done (length bytes, at)
    → header + length bytes ≤ n
    → whole_frame text_frame frame n (is_masked m) n0 header ≡ done (message header bytes)
unfolding whole_frame by_type
whole_frame_lem m bytes tail frame n n0 at header h all rest key size enough =
    let whole : ltb n (header + length bytes) ≡ false = ground arith in
    rw (size, whole, payload_lem m bytes tail frame at header h all rest key)

-- The second byte of a frame.
pub mask_bit_lem :
    (m : Option Key) (n : ℕ)
    → n < 128
    → (((bit_and (mask_bit m + n) 0x80) == 0x80) ≡ is_masked m)
      × (bit_and (mask_bit m + n) 0x7F ≡ n)
mask_bit_lem none n h =
    let same : 0 + n ≡ n = omega arith in rw same (rw (plain_bit n h), plain_length n h)
mask_bit_lem (some k) n h = (rw (masked_bit n h), masked_length n h)

-- A round on a frame whose header is there.
pub header_lem :
    (m : Option Key) (n0 n : ℕ) (more : List ℕ)
    → n0 < 127
    → header_size n0 (is_masked m) ≤ n
    → read_frame (129 ∷ (mask_bit m + n0) ∷ more) n
      ≡ whole_frame text_frame
          (129 ∷ (mask_bit m + n0) ∷ more)
          n
          (is_masked m)
          n0
          (header_size n0 (is_masked m))
unfolding read_frame byte of_opcode header_size
header_lem m n0 n more h enough =
    let two : ltb n 2 ≡ false = ground arith in
    let (bit, size) = mask_bit_lem m n0 (omega arith) in
    let there : ltb n (header_size n0 (is_masked m)) ≡ false = ground arith in
    rw (two, bit, size, there)

-- The frame with bytes behind it.
abbrev short_frame : Option Key → List ℕ → List ℕ → List ℕ
short_frame m bytes tail =
    129 ∷ (mask_bit m + length bytes) ∷ (key_field m ++ payload_field m bytes) ++ tail

abbrev long_frame : Option Key → List ℕ → List ℕ → List ℕ
long_frame m bytes tail =
    129
      ∷ (mask_bit m + 126)
      ∷ length bytes / 256
      ∷ length bytes % 256
      ∷ (key_field m ++ payload_field m bytes)
    ++ tail

read_short :
    (m : Option Key) (bytes tail : List ℕ) (n : ℕ)
    → IsKeyed m
    → IsBytes bytes
    → length bytes ≤ 125
    → 2 + length (key_field m) + length bytes ≤ n
    → read_frame (short_frame m bytes tail) n ≡ done (message (2 + length (key_field m)) bytes)
unfolding payload_size header_size
read_short m bytes tail n h all small enough =
    let size = length bytes in
    let below : ltb size 126 ≡ true = ground arith in
    let not126 : (size == 126) ≡ false = ground arith in
    let not127 : (size == 127) ≡ false = ground arith in
    let field : payload_size (short_frame m bytes tail) size ≡ done (size, 2) = rw below in
    let header : header_size size (is_masked m) ≡ 2 + length (key_field m) =
      by_mask m size not126 not127 in
    header_lem m size n _ (omega arith) (omega (arith, header))
    ∙ rw header (whole m n h all field enough)
  where
    by_mask :
        (m : Option Key) (size : ℕ)
        → (size == 126) ≡ false
        → (size == 127) ≡ false
        → header_size size (is_masked m) ≡ 2 + length (key_field m)
    by_mask none size e e' = rw (e, e')
    by_mask (some k) size e e' = rw (e, e')

    whole :
        (m : Option Key) (n : ℕ)
        → IsKeyed m
        → IsBytes bytes
        → payload_size (short_frame m bytes tail) (length bytes) ≡ done (length bytes, 2)
        → 2 + length (key_field m) + length bytes ≤ n
        → whole_frame text_frame
            (short_frame m bytes tail)
            n
            (is_masked m)
            (length bytes)
            (2 + length (key_field m))
          ≡ done (message (2 + length (key_field m)) bytes)
    whole none n h all field enough =
        whole_frame_lem none bytes tail _ n (length bytes) 2 2 h all refl tt field enough
    whole (some k) n h all field enough =
        whole_frame_lem (some k) bytes tail _ n (length bytes) 2 6 h all refl refl field enough

read_long :
    (m : Option Key) (bytes tail : List ℕ) (n : ℕ)
    → IsKeyed m
    → IsBytes bytes
    → length bytes ≤ 0xFFFF
    → 4 + length (key_field m) + length bytes ≤ n
    → read_frame (long_frame m bytes tail) n ≡ done (message (4 + length (key_field m)) bytes)
unfolding payload_size header_size byte
read_long none bytes tail n h all small enough =
    let back : length bytes / 256 * 256 + length bytes % 256 ≡ length bytes = omega arith in
    header_lem none 126 n _ (omega arith) (omega arith)
    ∙ whole_frame_lem none bytes tail _ n 126 4 4 h all refl tt (ap (λ k. done (k, 4)) back) enough
read_long (some k) bytes tail n h all small enough =
    let back : length bytes / 256 * 256 + length bytes % 256 ≡ length bytes = omega arith in
    header_lem (some k) 126 n _ (omega arith) (omega arith)
    ∙ whole_frame_lem (some k) bytes tail _ n 126 4 8 h all refl refl (ap (λ j. done (j, 4)) back)
        enough

-- A round on a whole frame gives its payload, whatever stands behind it.
pub read_frame-wire :
    (m : Option Key) (bytes tail : List ℕ) (n : ℕ)
    → IsKeyed m
    → IsBytes bytes
    → length bytes ≤ 0xFFFF
    → length (wire m bytes) ≤ n
    → read_frame (wire m bytes ++ tail) n ≡ done (message (header_length m (length bytes)) bytes)
read_frame-wire m bytes tail n h all small enough = elim (Bool-cases (leb (length bytes) 125)) [
  | inl short ↦
      let room = rw short at enough in
      rw short (
        read_short m bytes tail n h all (ground arith) (
          omega (
            arith,
            room,
            length-append (key_field m) (payload_field m bytes),
            length-payload_field m bytes,
          )))
  | inr long ↦
      let room = rw long at enough in
      rw long (
        read_long m bytes tail n h all small (
          omega (
            arith,
            room,
            length-append (key_field m) (payload_field m bytes),
            length-payload_field m bytes,
          )))
]
