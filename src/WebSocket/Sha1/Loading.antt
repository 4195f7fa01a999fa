-- ===== src/WebSocket/Sha1/Loading.antt =====
-- How sha1 puts bytes into words.
use chain_socket.Base.{
  ℕ, zero, suc, ◌+◌, ◌*◌, ◌/◌, ◌%◌, ◌^◌, ◌≤◌, ◌<◌, ◌≡◌, refl, sym, ap, ◌∙◌, List, [], ◌∷◌, ◌++◌,
  arith, length, length-set, set, take, bit_or, append-nil,
}
use chain_socket.WebSocket.Base64.Words.{shifted, or_shifted, or_comm}
use chain_socket.WebSocket.Sha1.{u32, word_of, load}
use chain_socket.WebSocket.Sha1.Standard.{big_endian, words_at, byte_of}

or_low : (k a b : ℕ) → b < shifted k 1 → bit_or b (shifted k a) ≡ b + shifted k a
or_low k a b h = or_comm b (shifted k a) ∙ omega (arith, or_shifted k a b h)

or_8 : (a b : ℕ) → b < 2 ^ 8 → bit_or b (a * 2 ^ 8) ≡ b + a * 2 ^ 8
or_8 a b h =
    let high : a * 2 ^ 8 ≡ shifted 8 a = omega arith in rw high (or_low 8 a b (omega arith))

or_16 : (a b : ℕ) → b < 2 ^ 16 → bit_or b (a * 2 ^ 16) ≡ b + a * 2 ^ 16
or_16 a b h =
    let high : a * 2 ^ 16 ≡ shifted 16 a = omega arith in rw high (or_low 16 a b (omega arith))

or_24 : (a b : ℕ) → b < 2 ^ 24 → bit_or b (a * 2 ^ 24) ≡ b + a * 2 ^ 24
or_24 a b h =
    let high : a * 2 ^ 24 ≡ shifted 24 a = omega arith in rw high (or_low 24 a b (omega arith))

-- Four bytes put together.
four_bytes_join :
    (b0 b1 b2 b3 : ℕ)
    → b0 < 256
    → b1 < 256
    → b2 < 256
    → b3 < 256
    → bit_or (bit_or (bit_or b3 (b2 * 2 ^ 8)) (b1 * 2 ^ 16)) (u32 (b0 * 2 ^ 24))
      ≡ b0 * 2 ^ 24 + b1 * 2 ^ 16 + b2 * 2 ^ 8 + b3
four_bytes_join b0 b1 b2 b3 h0 h1 h2 h3 =
    let fits : u32 (b0 * 2 ^ 24) ≡ b0 * 2 ^ 24 = omega arith in
    rw (fits, or_8 b2 b3 h3, or_16 b1 (b3 + b2 * 2 ^ 8) (omega arith))
      (or_24 b0 (b3 + b2 * 2 ^ 8 + b1 * 2 ^ 16) (omega arith) ∙ omega arith)

-- Every value of the function is a byte.
abbrev pub AllBytes : (ℕ → ℕ) → Type 0
AllBytes g = (i : ℕ) → g i < 256

pub word_of-big_endian :
    (p : List ℕ) (i : ℕ) → AllBytes (byte_of p) → word_of p i ≡ big_endian (byte_of p) i
unfolding word_of
word_of-big_endian p i all =
    four_bytes_join _ _ _ _ (all i) (all (i + 1)) (all (i + 2)) (all (i + 3))

pub words_at_cong :
    (m i : ℕ) (g h : ℕ → ℕ)
    → ((j : ℕ) → i ≤ j → j < i + 4 * m → g j ≡ h j)
    → words_at m i g ≡ words_at m i h
words_at_cong zero i g h same = refl
words_at_cong (suc m) i g h same =
    rw
      (
        same i (omega arith) (omega arith),
        same (i + 1) (omega arith) (omega arith),
        same (i + 2) (omega arith) (omega arith),
        same (i + 3) (omega arith) (omega arith),
        words_at_cong m (i + 4) g h (λ j a b. same j (omega arith) (omega arith)),
      )
      refl

pub length-words_at : (m i : ℕ) (g : ℕ → ℕ) → length (words_at m i g) ≡ m
length-words_at zero i g = refl
length-words_at (suc m) i g = ap suc (length-words_at m (i + 4) g)

-- The last word replaced.
pub set-words_at :
    (m i v : ℕ) (g h : ℕ → ℕ)
    → ((j : ℕ) → i ≤ j → j < i + 4 * m → g j ≡ h j)
    → v ≡ big_endian h (i + 4 * m)
    → set (words_at (suc m) i g) m v ≡ words_at (suc m) i h
set-words_at zero i v g h same e =
    let here : i + 4 * 0 ≡ i = omega arith in ap (λ x. x ∷ []) (e ∙ ap (big_endian h) here)
set-words_at (suc m) i v g h same e =
    let there : i + 4 * suc m ≡ i + 4 + 4 * m = omega arith in
    rw
      (
        same i (omega arith) (omega arith),
        same (i + 1) (omega arith) (omega arith),
        same (i + 2) (omega arith) (omega arith),
        same (i + 3) (omega arith) (omega arith),
      )
      (ap (◌∷◌ (big_endian h i)) (
        set-words_at m (i + 4) v g h (λ j a b. same j (omega arith) (omega arith))
          (e ∙ ap (big_endian h) there)))

take-length : (w : List ℕ) → take (length w) w ≡ w
take-length [] = refl
take-length (x ∷ w) = ap (◌∷◌ x) (take-length w)

take-set :
    (w rest : List ℕ) (k v : ℕ)
    → k < length w
    → take (suc k) (set w k v) ++ rest ≡ take k w ++ (v ∷ rest)
take-set [] rest k v h = absurd (omega arith)
take-set (x ∷ w) rest zero v h = refl
take-set (x ∷ w) rest (suc k) v h = ap (◌∷◌ x) (take-set w rest k v (omega arith))

load_from :
    (n k c i : ℕ) (p w : List ℕ)
    → AllBytes (byte_of p)
    → length w ≡ 16
    → k + n ≡ 16
    → i ≡ c * 64 + 4 * k
    → load n p i w ≡ take k w ++ words_at n i (byte_of p)
unfolding load
load_from zero k c i p w all size e h =
    let full : k ≡ length w = omega (arith, size) in
    rw full (sym (append-nil (take (length w) w) ∙ take-length w))
load_from (suc n) k c i p w all size e h =
    let here : i / 4 % 16 ≡ k = omega arith in
    let v = word_of p i in
    rw here (
      load_from n (suc k) c (i + 4) p (set w k v) all (length-set w k v ∙ size) (omega arith)
        (omega arith)
      ∙ take-set w (words_at n (i + 4) (byte_of p)) k v (omega (arith, size))
      ∙ ap (λ x. take k w ++ (x ∷ words_at n (i + 4) (byte_of p))) (word_of-big_endian p i all))

-- The inner loop fills the array with the words of a block.
pub load-words_at :
    (c : ℕ) (p w : List ℕ)
    → AllBytes (byte_of p)
    → length w ≡ 16
    → load 16 p (c * 64) w ≡ words_at 16 (c * 64) (byte_of p)
load-words_at c p w all size = load_from 16 0 c (c * 64) p w all size refl (omega arith)
