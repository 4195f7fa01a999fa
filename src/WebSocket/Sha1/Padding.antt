-- ===== src/WebSocket/Sha1/Padding.antt =====
-- The last one or two blocks of a padded message, word by word.
use chain_socket.Base.{
  ℕ, zero, suc, ◌+◌, ◌-◌, ◌*◌, ◌^◌, ◌≤◌, ◌<◌, ◌≡◌, refl, sym, ap, ◌∙◌, List, [], ◌∷◌, ◌++◌, arith,
  length, length-append, length-replicate, set, drop, replicate, Bool-cases, inl, inr, ltb, ltb→lt,
}
use chain_socket.WebSocket.Sha1.{u32, zero_words}
use chain_socket.WebSocket.Sha1.Standard.{big_endian, words_at, byte_of, gap, length_bytes, padded}
use chain_socket.WebSocket.Sha1.Loading.{words_at_cong, set-words_at}
use chain_socket.WebSocket.Sha1.Bytewise.{byte_of-left, byte_of-right, byte_of-end}

pub words_at_shift :
    (m c i : ℕ) (g h : ℕ → ℕ) → ((j : ℕ) → g (c + j) ≡ h j) → words_at m (c + i) g ≡ words_at m i h
words_at_shift zero c i g h same = refl
words_at_shift (suc m) c i g h same =
    let p1 : c + i + 1 ≡ c + (i + 1) = omega arith in
    let p2 : c + i + 2 ≡ c + (i + 2) = omega arith in
    let p3 : c + i + 3 ≡ c + (i + 3) = omega arith in
    let p4 : c + i + 4 ≡ c + (i + 4) = omega arith in
    rw
      (
        p1,
        p2,
        p3,
        p4,
        same i,
        same (i + 1),
        same (i + 2),
        same (i + 3),
        words_at_shift m c (i + 4) g h same,
      )
      refl

pub byte_of-drop :
    (m : ℕ) (xs ys : List ℕ) (j : ℕ)
    → m ≤ length xs
    → byte_of (xs ++ ys) (m + j) ≡ byte_of (drop m xs ++ ys) j
byte_of-drop zero xs ys j h = ap (byte_of (xs ++ ys)) (omega arith)
byte_of-drop (suc m) [] ys j h = absurd (omega arith)
byte_of-drop (suc m) (x ∷ xs) ys j h =
    let shift : suc m + j ≡ suc (m + j) = omega arith in
    rw shift (byte_of-drop m xs ys j (omega arith))

byte_of-zeros : (k j : ℕ) (ys : List ℕ) → j < k → byte_of (replicate k 0 ++ ys) j ≡ 0
byte_of-zeros zero j ys h = absurd (omega arith)
byte_of-zeros (suc k) zero ys h = refl
byte_of-zeros (suc k) (suc j) ys h = byte_of-zeros k j ys (omega arith)

top_half : (n t : ℕ) → n < 2 ^ 29 → t < 4 → byte_of (length_bytes (n * 8)) t ≡ 0
top_half n zero small h = omega arith
top_half n (suc zero) small h = omega arith
top_half n (suc (suc zero)) small h = omega arith
top_half n (suc (suc (suc zero))) small h = omega arith
top_half n (suc (suc (suc (suc t)))) small h = absurd (omega arith)

behind :
    (k n d : ℕ)
    → n < 2 ^ 29
    → d < 1 + k + 4
    → byte_of (0x80 ∷ []) d ≡ byte_of (0x80 ∷ (replicate k 0 ++ length_bytes (n * 8))) d
behind k n zero small h = refl
behind k n (suc d) small h = elim (Bool-cases (ltb d k)) [
  | inl before ↦ sym (byte_of-zeros k d (length_bytes (n * 8)) (ltb→lt d k before))
  | inr after ↦
      let size = length-replicate {A = ℕ} k 0 in
      sym (
        byte_of-right (replicate k 0) (length_bytes (n * 8)) d (ground (arith, size))
        ∙ top_half n (d - length (replicate {A = ℕ} k 0)) small (ground (arith, size)))
]

-- What is behind the whole blocks: the bytes `xs` that are left, and the padding.
module _ (xs : List ℕ) (k n : ℕ) (small : n < 2 ^ 29) where
  abbrev pub last_part : List ℕ
  last_part = xs ++ (0x80 ∷ (replicate k 0 ++ length_bytes (n * 8)))

  length_field :
      (t : ℕ) → byte_of last_part (length xs + 1 + k + t) ≡ byte_of (length_bytes (n * 8)) t
  length_field t =
      byte_of-right xs (0x80 ∷ (replicate k 0 ++ length_bytes (n * 8))) (length xs + 1 + k + t)
        (omega arith)
      ∙ ap (byte_of (0x80 ∷ (replicate k 0 ++ length_bytes (n * 8)))) {y = suc (k + t)}
          (omega arith)
      ∙ byte_of-right (replicate k 0) (length_bytes (n * 8)) (k + t)
          (omega (arith, length-replicate {A = ℕ} k 0))
      ∙ ap (byte_of (length_bytes (n * 8))) (omega (arith, length-replicate {A = ℕ} k 0))

  before_length :
      (j : ℕ) → j < length xs + 1 + k + 4 → byte_of (xs ++ (0x80 ∷ [])) j ≡ byte_of last_part j
  before_length j h = elim (Bool-cases (ltb j (length xs))) [
    | inl before ↦
        let low : j < length xs = ltb→lt j (length xs) before in
        byte_of-left xs (0x80 ∷ []) j low ∙ sym (byte_of-left xs _ j low)
    | inr after ↦
        let high : length xs ≤ j = ground arith in
        byte_of-right xs (0x80 ∷ []) j high
        ∙ behind k n (j - length xs) small (omega arith)
        ∙ sym (byte_of-right xs _ j high)
  ]

  last_word :
      (i : ℕ) → i ≡ length xs + 1 + k + 4 → u32 (n * 2 ^ 3) ≡ big_endian (byte_of last_part) i
  last_word i e = omega (
    arith,
    ap (byte_of last_part) {x = i} {y = length xs + 1 + k + 4} e ∙ length_field 4,
    ap (byte_of last_part) {x = i + 1} {y = length xs + 1 + k + 5} (omega arith) ∙ length_field 5,
    ap (byte_of last_part) {x = i + 2} {y = length xs + 1 + k + 6} (omega arith) ∙ length_field 6,
    ap (byte_of last_part) {x = i + 3} {y = length xs + 1 + k + 7} (omega arith) ∙ length_field 7,
  )

  abbrev left_over : ℕ → ℕ
  left_over = byte_of (xs ++ (0x80 ∷ []))

  -- The words of the last block, when the length fits behind the bytes that are left.
  pub one_block :
      length xs + 1 + k + 4 ≡ 60
      → set (words_at 16 0 left_over) 15 (u32 (n * 2 ^ 3)) ≡ words_at 16 0 (byte_of last_part)
  one_block e =
      set-words_at 15 0 (u32 (n * 2 ^ 3)) left_over (byte_of last_part)
        (λ j from to. before_length j (omega arith)) (last_word 60 (sym e))

  -- The words of the last two blocks, when it does not.
  pub first_block :
      length xs + 1 + k + 4 ≡ 124 → words_at 16 0 left_over ≡ words_at 16 0 (byte_of last_part)
  first_block e =
      words_at_cong 16 0 left_over (byte_of last_part) (λ j from to. before_length j (omega arith))

  pub second_block :
      length xs < 64
      → length xs + 1 + k + 4 ≡ 124
      → set zero_words 15 (u32 (n * 2 ^ 3)) ≡ words_at 16 64 (byte_of last_part)
  second_block low e =
      let size = length-append xs (0x80 ∷ []) in
      let empty : words_at 16 64 left_over ≡ zero_words =
        words_at_cong 16 64 left_over (λ j. 0)
          (λ j from to. byte_of-end (xs ++ (0x80 ∷ [])) j (omega (arith, size))) in
      ap (λ w. set w 15 (u32 (n * 2 ^ 3))) (sym empty)
      ∙ set-words_at 15 64 (u32 (n * 2 ^ 3)) left_over (byte_of last_part)
          (λ j from to. before_length j (omega arith)) (last_word 124 (sym e))

pub length-padded : (p : List ℕ) → length (padded p) ≡ length p + 1 + gap (length p) + 8
length-padded p = omega (
  arith,
  length-append p (0x80 ∷ (replicate (gap (length p)) 0 ++ length_bytes (length p * 8))),
  length-append (replicate {A = ℕ} (gap (length p)) 0) (length_bytes (length p * 8)),
  length-replicate {A = ℕ} (gap (length p)) 0,
)
