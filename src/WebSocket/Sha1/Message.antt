-- ===== src/WebSocket/Sha1/Message.antt =====
-- sha1 as a whole, against the standard.
use chain_socket.Base.{
  ℕ, zero, suc, ◌+◌, ◌*◌, ◌/◌, ◌%◌, ◌^◌, ◌<◌, ◌≡◌, refl, sym, ap, ◌∙◌, ◌≢◌, List, [], ◌∷◌, ◌++◌,
  arith, length, length-set, length-drop, set, drop, Bool-cases, inl, inr, ltb, ltb→lt,
}
use chain_socket.WebSocket.RoundTrip.{IsBytes}
use chain_socket.WebSocket.Sha1.{
  Regs, u32, expand, rounds, choose, parity, majority, sha1mix, load, blocks, zero_words, or_byte,
  or_bytes, initial, digest, sha1,
}
use chain_socket.WebSocket.Sha1.Schedule.{sha1mix-fips}
use chain_socket.WebSocket.Sha1.Expansion.{words_of, words_of-IsSchedule}
use chain_socket.WebSocket.Sha1.Standard.{
  words_at, byte_of, gap, padded, compress, fips_blocks, block_sha1,
}
use chain_socket.WebSocket.Sha1.Fips.{fips_sha1, block_sha1-fips_sha1}
use chain_socket.WebSocket.Sha1.Padding.{
  words_at_shift, byte_of-drop, last_part, one_block, first_block, second_block, length-padded,
}
use chain_socket.WebSocket.Sha1.Loading.{AllBytes, words_at_cong, length-words_at, load-words_at}
use chain_socket.WebSocket.Sha1.Bytewise.{
  byte_of-left, byte_of-AllBytes, or_byte-append, or_bytes-append,
}

sha1mix-compress :
    (r : Regs) (block : List ℕ) → length block ≡ 16 → (sha1mix r block).1 ≡ compress r block
sha1mix-compress r block size =
    sha1mix-fips block (words_of block) r (words_of-IsSchedule block) size

length-rounds :
    (n : ℕ) (f : Regs → ℕ) (v i : ℕ) (s : List ℕ × Regs) → length (rounds n f v i s).0 ≡ length s.0
unfolding rounds expand
length-rounds zero f v i s = refl
length-rounds (suc n) f v i (w, r) =
    length-rounds n f v (i + 1) (expand w i, _) ∙ length-set w (i % 16) _

length-sha1mix : (r : Regs) (w : List ℕ) → length (sha1mix r w).0 ≡ length w
unfolding sha1mix
length-sha1mix r w =
    length-rounds 20 parity 0xca62c1d6 60 _
    ∙ length-rounds 20 majority 0x8f1bbcdc 40 _
    ∙ length-rounds 20 parity 0x6ed9eba1 20 _
    ∙ length-rounds 4 choose 0x5a827999 16 _

blocks_none : (p : List ℕ) (i : ℕ) (s : List ℕ × Regs) → (blocks zero p i s).1 ≡ s.1
unfolding blocks
blocks_none p i s = refl

blocks_next :
    (m i : ℕ) (p w v : List ℕ) (r : Regs)
    → load 16 p i w ≡ v
    → (blocks (suc m) p i (w, r)).1 ≡ (blocks m p (i + 64) (sha1mix r v)).1
unfolding blocks
blocks_next m i p w v r e = ap (λ x. (blocks m p (i + 64) (sha1mix r x)).1) e

-- The loop over the whole blocks.
blocks-fips_blocks :
    (m c : ℕ) (p w : List ℕ) (g : ℕ → ℕ) (r : Regs)
    → AllBytes (byte_of p)
    → length w ≡ 16
    → ((j : ℕ) → j < (c + m) * 64 → byte_of p j ≡ g j)
    → (blocks m p (c * 64) (w, r)).1 ≡ fips_blocks m (c * 64) g r
blocks-fips_blocks zero c p w g r all size same = blocks_none p (c * 64) (w, r)
blocks-fips_blocks (suc m) c p w g r all size same =
    let here = words_at 16 (c * 64) (byte_of p) in
    let size' = length-words_at 16 (c * 64) (byte_of p) in
    let after : c * 64 + 64 ≡ suc c * 64 = omega arith in
    let words : here ≡ words_at 16 (c * 64) g =
      words_at_cong 16 (c * 64) (byte_of p) g (λ j from to. same j (omega arith)) in
    blocks_next m (c * 64) p w here r (load-words_at c p w all size)
    ∙ rw after (
        blocks-fips_blocks m (suc c) p (sha1mix r here).0 g (sha1mix r here).1 all
          (length-sha1mix r here ∙ size') (λ j low. same j (omega arith))
        ∙ ap (fips_blocks m (suc c * 64) g) (sha1mix-compress r here size' ∙ ap (compress r) words))

fips_blocks-split :
    (n m i : ℕ) (g : ℕ → ℕ) (r : Regs)
    → fips_blocks (n + m) i g r ≡ fips_blocks m (i + n * 64) g (fips_blocks n i g r)
fips_blocks-split zero m i g r =
    let none_more : 0 + m ≡ m = omega arith in
    let here : i + 0 * 64 ≡ i = omega arith in rw (none_more, here) refl
fips_blocks-split (suc n) m i g r =
    let one_more : suc n + m ≡ suc (n + m) = omega arith in
    let after : i + suc n * 64 ≡ i + 64 + n * 64 = omega arith in
    rw (one_more, after) (fips_blocks-split n m (i + 64) g _)

drop-IsBytes : (m : ℕ) (p : List ℕ) → IsBytes p → IsBytes (drop m p)
drop-IsBytes zero p all = all
drop-IsBytes (suc m) [] all = tt
drop-IsBytes (suc m) (x ∷ p) (h, all) = drop-IsBytes m p all

module _ (p : List ℕ) (all : IsBytes p) (short : length p < 2 ^ 29) where
  abbrev whole : ℕ
  whole = length p / 64

  abbrev rest : List ℕ
  rest = drop (whole * 64) p

  length-rest : length rest ≡ length p % 64
  length-rest = omega (arith, length-drop (whole * 64) p)

  -- The array after the byte 0x80 has been put into it.
  ended :
      or_byte (or_bytes zero_words (whole * 64) rest) (length p) 0x80
      ≡ words_at 16 0 (byte_of (rest ++ (0x80 ∷ [])))
  ended =
      let size = length-rest in
      let bytes = drop-IsBytes (whole * 64) p all in
      let place : length p ≡ whole * 64 + length rest = omega (arith, size) in
      ap (λ w. or_byte w (length p) 0x80)
        (or_bytes-append whole (whole * 64) [] rest tt bytes (omega arith) (omega (arith, size)))
      ∙ ap (λ i. or_byte (words_at 16 0 (byte_of rest)) i 0x80) place
      ∙ or_byte-append whole 0x80 rest bytes (omega arith) (omega (arith, size))

  abbrev message : ℕ → ℕ
  message = byte_of (padded p)

  abbrev end : List ℕ
  end = last_part rest (gap (length p)) (length p) short

  message-end : (j : ℕ) → message (whole * 64 + j) ≡ byte_of end j
  message-end j = byte_of-drop (whole * 64) p _ j (omega arith)

  abbrev r0 : Regs
  r0 = (blocks whole p 0 (zero_words, initial)).1

  r0-fips : r0 ≡ fips_blocks whole 0 message initial
  r0-fips =
      blocks-fips_blocks whole 0 p zero_words message initial (byte_of-AllBytes p all) refl
        (λ j low. sym (byte_of-left p _ j (omega arith)))

  block_at : (i : ℕ) → words_at 16 i (byte_of end) ≡ words_at 16 (0 + whole * 64 + i) message
  block_at i =
      let here : 0 + whole * 64 + i ≡ whole * 64 + i = omega arith in
      rw here (sym (words_at_shift 16 (whole * 64) i message (byte_of end) message-end))

  mixed :
      (r q : Regs) (w : List ℕ) (i : ℕ)
      → r ≡ q
      → w ≡ words_at 16 i (byte_of end)
      → (sha1mix r w).1 ≡ compress q (words_at 16 (0 + whole * 64 + i) message)
  mixed r q w i e same =
      rw (e, same)
        (sha1mix-compress q (words_at 16 i (byte_of end)) refl ∙ ap (compress q) (block_at i))

  -- The registers at the end, whichever way the padding goes.
  short_end :
      length p % 64 < 56
      → (sha1mix r0
          (set (words_at 16 0 (byte_of (rest ++ (0x80 ∷ [])))) 15 (u32 (length p * 2 ^ 3)))).1
        ≡ fips_blocks (length (padded p) / 64) 0 message initial
  short_end low =
      let size = length-rest in
      let count : length (padded p) / 64 ≡ whole + 1 = omega (arith, length-padded p) in
      let now =
        mixed r0 _ _ 0 r0-fips
          (one_block rest (gap (length p)) (length p) short (omega (arith, size))) in
      let first : 0 + whole * 64 + 0 ≡ 0 + whole * 64 = omega arith in
      rw count (
        now
        ∙ ap (λ i. compress (fips_blocks whole 0 message initial) (words_at 16 i message)) first
        ∙ sym (fips_blocks-split whole 1 0 message initial))

  long_end :
      56 < length p % 64
      → (sha1mix
          (sha1mix r0 (words_at 16 0 (byte_of (rest ++ (0x80 ∷ []))))).1
          (set zero_words 15 (u32 (length p * 2 ^ 3)))).1
        ≡ fips_blocks (length (padded p) / 64) 0 message initial
  long_end high =
      let size = length-rest in
      let count : length (padded p) / 64 ≡ whole + 2 = omega (arith, length-padded p) in
      let one =
        mixed r0 _ _ 0 r0-fips
          (first_block rest (gap (length p)) (length p) short (omega (arith, size))) in
      let two = mixed _ _ _ 64 one (
        second_block rest (gap (length p)) (length p) short (omega (arith, size))
          (omega (arith, size))) in
      let first : 0 + whole * 64 + 0 ≡ 0 + whole * 64 = omega arith in
      rw count (
        two
        ∙ ap
            (λ i.
              compress (compress (fips_blocks whole 0 message initial) (words_at 16 i message))
                (words_at 16 (0 + whole * 64 + 64) message))
            first
        ∙ sym (fips_blocks-split whole 2 0 message initial))

sha1-block_sha1 :
    (p : List ℕ) → IsBytes p → length p < 2 ^ 29 → length p % 64 ≢ 56 → sha1 p ≡ block_sha1 p
unfolding sha1 block_sha1
sha1-block_sha1 p all short other = elim (Bool-cases (ltb 56 (length p % 64))) [
  | inl long ↦ rw (long, ended p all short) (ap digest (long_end p all short (ltb→lt 56 _ long)))
  | inr not ↦ rw (not, ended p all short) (ap digest (short_end p all short (ground arith)))
]

-- sha1 computes the hash of FIPS 180-4 of every message of bytes that is shorter than 2^29 bytes and
-- whose length is not 56 modulo 64.
pub sha1-fips_sha1 :
    (p : List ℕ) → IsBytes p → length p < 2 ^ 29 → length p % 64 ≢ 56 → sha1 p ≡ fips_sha1 p
sha1-fips_sha1 p all short other = sha1-block_sha1 p all short other ∙ block_sha1-fips_sha1 p
