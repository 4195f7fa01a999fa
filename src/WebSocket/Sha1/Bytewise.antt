-- ===== src/WebSocket/Sha1/Bytewise.antt =====
-- How sha1 puts the last bytes into words, one at a time.
use chain_socket.Base.{
  ℕ, zero, suc, ◌+◌, ◌-◌, ◌*◌, ◌/◌, ◌%◌, ◌^◌, ◌≤◌, ◌<◌, ◌≡◌, refl, sym, ap, ◌∙◌, ◌≢◌, List, [], ◌∷◌,
  ◌++◌, arith, length, get_or, set, bit_or, bit_xor, ℕ_discrete, append-nil, append_assoc,
  length-append, ltb, ltb→lt, Bool-cases, inl, inr,
}
use chain_socket.WebSocket.Base64.Words.{shifted, or_shifted, or_none}
use chain_socket.WebSocket.RoundTrip.{IsBytes}
use chain_socket.WebSocket.Sha1.{u32, word_at, or_byte, or_bytes}
use chain_socket.WebSocket.Sha1.Loading.{AllBytes, words_at_cong}
use chain_socket.WebSocket.Sha1.Standard.{big_endian, words_at, byte_of}

or_digit : (k a x b : ℕ) → x ≡ shifted k a → b < shifted k 1 → bit_or x b ≡ x + b
or_digit k a x b e h = rw e (or_shifted k a b h)

-- A byte put at position `n` into the word from position `i` on, in which the bytes from `n` on are
-- zeros.
module _ (i n b : ℕ) (g h : ℕ → ℕ) where
  Behind : Type 0
  Behind =
      AllBytes g
      × (b < 256)
      × (i % 4 ≡ 0)
      × ((j : ℕ) → n ≤ j → g j ≡ 0)
      × ((j : ℕ) → j ≢ n → h j ≡ g j)
      × (h n ≡ b)

  Joined : Type 0
  Joined = bit_or (big_endian g i) (u32 (b * 2 ^ (bit_xor 3 (n % 4) * 8))) ≡ big_endian h i

  or_first : Behind → n ≡ i → Joined
  unfolding Behind Joined
  or_first (all, small, even, zeros, same, last) e =
      let turn : n % 4 ≡ 0 = omega arith in
      let z1 = zeros (i + 1) (omega arith) in
      let z2 = zeros (i + 2) (omega arith) in
      let z3 = zeros (i + 3) (omega arith) in
      let none_yet : big_endian g i ≡ 0 = omega (arith, zeros i (omega arith), z1, z2, z3) in
      rw (turn, none_yet)
        (or_none (u32 (b * 2 ^ 24))
          ∙ omega (
            arith,
            ap h (sym e) ∙ last,
            same (i + 1) (omega arith) ∙ z1,
            same (i + 2) (omega arith) ∙ z2,
            same (i + 3) (omega arith) ∙ z3,
          ))

  or_second : Behind → n ≡ i + 1 → Joined
  unfolding Behind Joined
  or_second (all, small, even, zeros, same, last) e =
      let turn : n % 4 ≡ 1 = omega arith in
      let z1 = zeros (i + 1) (omega arith) in
      let z2 = zeros (i + 2) (omega arith) in
      let z3 = zeros (i + 3) (omega arith) in
      rw turn (
        or_digit 24 (g i) (big_endian g i) (u32 (b * 2 ^ 16)) (omega (arith, z1, z2, z3))
          (omega arith)
        ∙ omega (
          arith,
          z1,
          ap h (sym e) ∙ last,
          same i (omega arith),
          same (i + 2) (omega arith),
          same (i + 3) (omega arith),
        ))

  or_third : Behind → n ≡ i + 2 → Joined
  unfolding Behind Joined
  or_third (all, small, even, zeros, same, last) e =
      let turn : n % 4 ≡ 2 = omega arith in
      let z2 = zeros (i + 2) (omega arith) in
      let z3 = zeros (i + 3) (omega arith) in
      rw turn (
        or_digit 16 (g i * 256 + g (i + 1)) (big_endian g i) (u32 (b * 2 ^ 8))
          (omega (arith, z2, z3)) (omega arith)
        ∙ omega (
          arith,
          z2,
          ap h (sym e) ∙ last,
          same i (omega arith),
          same (i + 1) (omega arith),
          same (i + 3) (omega arith),
        ))

  or_fourth : Behind → n ≡ i + 3 → Joined
  unfolding Behind Joined
  or_fourth (all, small, even, zeros, same, last) e =
      let turn : n % 4 ≡ 3 = omega arith in
      let z3 = zeros (i + 3) (omega arith) in
      rw turn (
        or_digit 8 (g i * 65536 + g (i + 1) * 256 + g (i + 2)) (big_endian g i) (u32 (b * 2 ^ 0))
          (omega (arith, z3)) (omega arith)
        ∙ omega (
          arith,
          z3,
          ap h (sym e) ∙ last,
          same i (omega arith),
          same (i + 1) (omega arith),
          same (i + 2) (omega arith),
        ))

  or_head : Behind → i ≤ n → n < i + 4 → Joined
  or_head at from to = elim (ℕ_discrete n i) [
    | yes e ↦ or_first at e
    | no n0 ↦ elim (ℕ_discrete n (i + 1)) [
      | yes e ↦ or_second at e
      | no n1 ↦ elim (ℕ_discrete n (i + 2)) [
        | yes e ↦ or_third at e
        | no n2 ↦ or_fourth at (omega arith)
      ]
    ]
  ]

or_word :
    (m i n b : ℕ) (g h : ℕ → ℕ)
    → Behind i n b g h
    → i ≤ n
    → n < i + 4 * m
    → set
        (words_at m i g)
        ((n - i) / 4)
        (bit_or (get_or (words_at m i g) ((n - i) / 4) 0) (u32 (b * 2 ^ (bit_xor 3 (n % 4) * 8))))
      ≡ words_at m i h
unfolding Behind Joined
or_word zero i n b g h at from to = refl
or_word (suc m) i n b g h (all, small, even, zeros, same, last) from to =
    let at : Behind i n b g h = (all, small, even, zeros, same, last) in
    elim (Bool-cases (ltb n (i + 4))) [
      | inl before ↦
          let low : n < i + 4 = ltb→lt n (i + 4) before in
          let head : (n - i) / 4 ≡ 0 = omega arith in
          rw head (
            ap (λ x. x ∷ words_at m (i + 4) g) (or_head i n b g h at from low)
            ∙ ap (◌∷◌ (big_endian h i))
                (words_at_cong m (i + 4) g h (λ j a c. sym (same j (omega arith)))))
      | inr after ↦
          let high : i + 4 ≤ n = ground arith in
          let below : (n - i) / 4 ≡ suc ((n - (i + 4)) / 4) = omega arith in
          let kept : big_endian g i ≡ big_endian h i = omega (
            arith,
            same i (omega arith),
            same (i + 1) (omega arith),
            same (i + 2) (omega arith),
            same (i + 3) (omega arith),
          ) in
          rw (below, kept)
            (ap (◌∷◌ (big_endian h i)) (
              or_word m (i + 4) n b g h (all, small, omega arith, zeros, same, last) high
                (omega arith)))
    ]

or_byte-words_at :
    (c n b : ℕ) (g h : ℕ → ℕ)
    → Behind 0 n b g h
    → n < 64
    → or_byte (words_at 16 0 g) (c * 64 + n) b ≡ words_at 16 0 h
unfolding or_byte word_at
or_byte-words_at c n b g h at low =
    let index : (c * 64 + n) / 4 % 16 ≡ (n - 0) / 4 = omega arith in
    let turn : (c * 64 + n) % 4 ≡ n % 4 = omega arith in
    rw (index, turn) (or_word 16 0 n b g h at (omega arith) (omega arith))

pub byte_of-left : (xs ys : List ℕ) (j : ℕ) → j < length xs → byte_of (xs ++ ys) j ≡ byte_of xs j
byte_of-left [] ys j h = absurd (omega arith)
byte_of-left (x ∷ xs) ys zero h = refl
byte_of-left (x ∷ xs) ys (suc j) h = byte_of-left xs ys j (omega arith)

pub byte_of-right :
    (xs ys : List ℕ) (j : ℕ) → length xs ≤ j → byte_of (xs ++ ys) j ≡ byte_of ys (j - length xs)
byte_of-right [] ys j h = ap (byte_of ys) (omega arith)
byte_of-right (x ∷ xs) ys zero h = absurd (omega arith)
byte_of-right (x ∷ xs) ys (suc j) h =
    byte_of-right xs ys j (omega arith) ∙ ap (byte_of ys) (omega arith)

pub byte_of-end : (xs : List ℕ) (j : ℕ) → length xs ≤ j → byte_of xs j ≡ 0
byte_of-end [] j h = refl
byte_of-end (x ∷ xs) zero h = absurd (omega arith)
byte_of-end (x ∷ xs) (suc j) h = byte_of-end xs j (omega arith)

pub byte_of-AllBytes : (xs : List ℕ) → IsBytes xs → AllBytes (byte_of xs)
byte_of-AllBytes [] all i = omega arith
byte_of-AllBytes (x ∷ xs) (h, all) zero = h
byte_of-AllBytes (x ∷ xs) (h, all) (suc i) = byte_of-AllBytes xs all i

IsBytes-append : (xs ys : List ℕ) → IsBytes xs → IsBytes ys → IsBytes (xs ++ ys)
IsBytes-append [] ys all more = more
IsBytes-append (x ∷ xs) ys (h, all) more = (h, IsBytes-append xs ys all more)

one_more :
    (xs : List ℕ) (b : ℕ)
    → IsBytes xs
    → b < 256
    → Behind 0 (length xs) b (byte_of xs) (byte_of (xs ++ (b ∷ [])))
unfolding Behind
one_more xs b all small = (
  byte_of-AllBytes xs all,
  small,
  refl,
  byte_of-end xs,
  λ j ne. elim (Bool-cases (ltb j (length xs))) [
    | inl before ↦ byte_of-left xs (b ∷ []) j (ltb→lt j (length xs) before)
    | inr after ↦
        let high : length xs < j = ground arith in
        byte_of-right xs (b ∷ []) j (omega arith)
        ∙ byte_of-end (b ∷ []) (j - length xs) (omega arith)
        ∙ sym (byte_of-end xs j (omega arith))
  ],
  byte_of-right xs (b ∷ []) (length xs) (omega arith) ∙ ap (byte_of (b ∷ [])) {y = 0} (omega arith),
)

pub or_byte-append :
    (c b : ℕ) (xs : List ℕ)
    → IsBytes xs
    → b < 256
    → length xs < 64
    → or_byte (words_at 16 0 (byte_of xs)) (c * 64 + length xs) b
      ≡ words_at 16 0 (byte_of (xs ++ (b ∷ [])))
or_byte-append c b xs all small low =
    or_byte-words_at c (length xs) b _ _ (one_more xs b all small) low

-- The loop over the bytes that are left.
pub or_bytes-append :
    (c i : ℕ) (xs bs : List ℕ)
    → IsBytes xs
    → IsBytes bs
    → i ≡ c * 64 + length xs
    → length xs + length bs ≤ 64
    → or_bytes (words_at 16 0 (byte_of xs)) i bs ≡ words_at 16 0 (byte_of (xs ++ bs))
unfolding or_bytes
or_bytes-append c i xs [] all more e low = ap (λ l. words_at 16 0 (byte_of l)) (sym (append-nil xs))
or_bytes-append c i xs (b ∷ bs) all (small, more) e low =
    let now = or_byte-append c b xs all small (omega arith) in
    let size = length-append xs (b ∷ []) in
    rw (e, now)
      (or_bytes-append c (c * 64 + length xs + 1) (xs ++ (b ∷ [])) bs
          (IsBytes-append xs (b ∷ []) all (small, tt)) more (omega (arith, size))
          (omega (arith, size))
        ∙ ap (λ l. words_at 16 0 (byte_of l)) (append_assoc xs (b ∷ []) bs))
