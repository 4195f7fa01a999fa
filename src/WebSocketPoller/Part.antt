-- ===== src/WebSocketPoller/Part.antt =====
-- The loop over frames waits for the rest of a frame of which only a part has arrived.
use chain_socket.Base.{
  ℕ, zero, suc, ◌+◌, ◌*◌, ◌/◌, ◌%◌, ◌<◌, ◌≡◌, refl, ap, ◌∙◌, true, List, ◌∷◌, ◌++◌, Option, none,
  some, arith, ltb, leb, length, length-append, take, Bool-cases, inl, inr,
}
use chain_socket.Base.Outcome.{done}
use chain_socket.WebSocket.{byte, of_opcode}
use chain_socket.WebSocket.RoundTrip.{Key}
use chain_socket.WebSocketPoller.{leaves, header_size, payload_size, whole_frame, read_frame}
use chain_socket.WebSocketPoller.Wire.{
  mask_bit, key_field, payload_field, wire, is_masked, mask_bit_lem, header_lem,
  length-payload_field,
}

no_header :
    (m : Option Key) (n0 n : ℕ) (more : List ℕ)
    → n0 < 127
    → n < header_size n0 (is_masked m)
    → read_frame (129 ∷ (mask_bit m + n0) ∷ more) n ≡ done leaves
unfolding read_frame byte of_opcode
no_header m n0 n more h missing = elim (Bool-cases (ltb n 2)) [
  | inl two ↦ rw two
  | inr two ↦
      let (bit, size) = mask_bit_lem m n0 (omega arith) in
      let cut : ltb n (header_size n0 (is_masked m)) ≡ true = ground arith in
      rw (two, bit, size, cut)
]

no_payload :
    (m : Option Key) (n0 n size at : ℕ) (more : List ℕ)
    → n0 < 127
    → payload_size (129 ∷ (mask_bit m + n0) ∷ more) n0 ≡ done (size, at)
    → n < header_size n0 (is_masked m) + size
    → read_frame (129 ∷ (mask_bit m + n0) ∷ more) n ≡ done leaves
unfolding whole_frame
no_payload m n0 n size at more h field missing =
    elim (Bool-cases (ltb n (header_size n0 (is_masked m)))) [
      | inl cut ↦ no_header m n0 n more h (ground arith)
      | inr there ↦
          let cut : ltb n (header_size n0 (is_masked m) + size) ≡ true = ground arith in
          header_lem m n0 n more h (ground arith) ∙ rw (field, cut)
    ]

header_size_short :
    (m : Option Key) (n0 : ℕ) → n0 < 126 → header_size n0 (is_masked m) ≡ 2 + length (key_field m)
unfolding header_size
header_size_short none n0 h = ground arith
header_size_short (some k) n0 h = ground arith

header_size_long : (m : Option Key) → header_size 126 (is_masked m) ≡ 4 + length (key_field m)
unfolding header_size
header_size_long none = refl
header_size_long (some k) = refl

short_size : (frame : List ℕ) (n : ℕ) → n < 126 → payload_size frame n ≡ done (n, 2)
unfolding payload_size
short_size frame n h = let below : ltb n 126 ≡ true = ground arith in rw below

long_size :
    (b0 b1 n : ℕ) (more : List ℕ)
    → payload_size (b0 ∷ b1 ∷ n / 256 ∷ n % 256 ∷ more) 126 ≡ done (n, 4)
unfolding payload_size byte
long_size b0 b1 n more =
    let back : n / 256 * 256 + n % 256 ≡ n = omega arith in ap (λ k. done (k, 4)) back

after_long :
    (m : Option Key) (bytes junk : List ℕ) (j : ℕ)
    → suc (suc j) < 4 + length (key_field m) + length bytes
    → read_frame
        (129
          ∷ (mask_bit m + 126)
          ∷ (take j
                (length bytes / 256 ∷ length bytes % 256 ∷ (key_field m ++ payload_field m bytes))
              ++ junk))
        (suc (suc j))
      ≡ done leaves
after_long m bytes junk zero cut =
    no_header m 126 2 _ (omega arith) (omega (arith, header_size_long m))
after_long m bytes junk (suc zero) cut =
    no_header m 126 3 _ (omega arith) (omega (arith, header_size_long m))
after_long m bytes junk (suc (suc j)) cut =
    no_payload m 126 (suc (suc (suc (suc j)))) (length bytes) 4 _ (omega arith)
      (long_size 129 (mask_bit m + 126) (length bytes) _) (omega (arith, header_size_long m))

too_short : (frame : List ℕ) (n : ℕ) → n < 2 → read_frame frame n ≡ done leaves
unfolding read_frame
too_short frame n h = let two : ltb n 2 ≡ true = ground arith in rw two

-- A round on a proper part of a frame leaves the loop, whatever stands behind it in memory.
pub read_frame_part :
    (m : Option Key) (bytes junk : List ℕ) (n : ℕ)
    → n < length (wire m bytes)
    → read_frame (take n (wire m bytes) ++ junk) n ≡ done leaves
read_frame_part m bytes junk zero cut = too_short _ 0 (omega arith)
read_frame_part m bytes junk (suc zero) cut = too_short _ 1 (omega arith)
read_frame_part m bytes junk (suc (suc j)) cut =
    let rest = length-append (key_field m) (payload_field m bytes) in
    let same = length-payload_field m bytes in
    elim (Bool-cases (leb (length bytes) 125)) [
      | inl short ↦
          let room = rw short at cut in
          rw short (
            no_payload m (length bytes) (suc (suc j)) (length bytes) 2 _ (ground arith)
              (short_size _ (length bytes) (ground arith))
              (omega (arith, room, rest, same, header_size_short m (length bytes) (ground arith))))
      | inr long ↦
          let room = rw long at cut in
          rw long (after_long m bytes junk j (omega (arith, room, rest, same)))
    ]
