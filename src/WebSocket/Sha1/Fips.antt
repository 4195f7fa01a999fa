-- ===== src/WebSocket/Sha1/Fips.antt =====
-- FIPS 180-4, 4.1.1, 4.2.1, 5 and 6.1.2: the secure hash of a message, and that it is the one of
-- WebSocket/Sha1/Standard.antt, which is put together from the operations of websocket.h.
use chain_socket.Base.{
  ℕ, zero, suc, ◌+◌, ◌-◌, ◌*◌, ◌/◌, ◌%◌, ◌^◌, ◌≡◌, refl, ap, ◌∙◌, List, [], ◌∷◌, ◌++◌, length,
  get_or, ltb, ◌==◌, if◌then◌else◌, bit_or, bit_xor, arith, Bool-cases, inl, inr,
}
use chain_socket.WebSocket.Sha1.{Regs, rol, mix, plus, initial, digest}
use chain_socket.WebSocket.Sha1.Schedule.{fips_rounds, function, constant}
use chain_socket.WebSocket.Sha1.Expansion.{window, words_of}
use chain_socket.WebSocket.Sha1.Standard.{
  words_at, byte_of, padded, compress, fips_blocks, block_sha1,
}
use chain_socket.WebSocket.Sha1.Digits.{ch, maj, choosing-ch, most-maj}

-- ROTL^n(x), of a word of 32 bits.
abbrev rotl : ℕ → ℕ → ℕ
rotl n x = bit_or (x * 2 ^ n % 2 ^ 32) (x / 2 ^ (32 - n))

abbrev sum32 : ℕ → ℕ → ℕ
sum32 x y = (x + y) % 2 ^ 32

-- f_t and K_t.
abbrev round_function : ℕ → ℕ → ℕ → ℕ → ℕ
round_function t x y z =
    if ltb t 20
    then ch x y z
    else if ltb t 40
    then bit_xor (bit_xor x y) z
    else if ltb t 60
    then maj x y z
    else bit_xor (bit_xor x y) z

abbrev round_constant : ℕ → ℕ
round_constant t =
    if ltb t 20
    then 0x5a827999
    else if ltb t 40
    then 0x6ed9eba1
    else if ltb t 60
    then 0x8f1bbcdc
    else 0xca62c1d6

-- One of the 80 rounds, with the word `w`.
abbrev fips_round : ℕ → ℕ → Regs → Regs
fips_round t w r = record {
  a = (rotl 5 r.a + round_function t r.b r.c r.d + r.e + round_constant t + w) % 2 ^ 32;
  b = r.a;
  c = rotl 30 r.b;
  d = r.c;
  e = r.d;
}

-- The words W_n to W_{n+15} of the message schedule, as a function of the place.
scheduled : List ℕ → ℕ → ℕ → ℕ
scheduled block zero j = get_or block j 0
scheduled block (suc n) j =
    if j == 15
    then rotl 1 (
        bit_xor
          (bit_xor (bit_xor (scheduled block n 13) (scheduled block n 8)) (scheduled block n 2))
          (scheduled block n 0))
    else scheduled block n (suc j)

-- `n` rounds from round `t` on.
all_rounds : ℕ → ℕ → List ℕ → Regs → Regs
all_rounds zero t block r = r
all_rounds (suc n) t block r = all_rounds n (t + 1) block (fips_round t (scheduled block t 0) r)

-- The hash value after a block of 16 words.
abbrev after_block : Regs → List ℕ → Regs
after_block r block =
    let s = all_rounds 80 0 block r in
    record {
      a = sum32 s.a r.a;
      b = sum32 s.b r.b;
      c = sum32 s.c r.c;
      d = sum32 s.d r.d;
      e = sum32 s.e r.e;
    }

-- The hash value after the `n` blocks from position `i` on.
pub hashed : ℕ → ℕ → (ℕ → ℕ) → Regs → Regs
hashed zero i g r = r
hashed (suc n) i g r = hashed n (i + 64) g (after_block r (words_at 16 i g))

-- H^(0).
abbrev first_hash : Regs
first_hash = record {
  a = 0x67452301;
  b = 0xefcdab89;
  c = 0x98badcfe;
  d = 0x10325476;
  e = 0xc3d2e1f0;
}

abbrev bytes_of : ℕ → List ℕ
bytes_of x = x / 2 ^ 24 % 256 ∷ x / 2 ^ 16 % 256 ∷ x / 2 ^ 8 % 256 ∷ x % 256 ∷ []

abbrev pub fips_sha1 : List ℕ → List ℕ
fips_sha1 p =
    let h = hashed (length (padded p) / 64) 0 (byte_of (padded p)) first_hash in
    bytes_of h.a ++ (bytes_of h.b ++ (bytes_of h.c ++ (bytes_of h.d ++ bytes_of h.e)))

rol-rotl : (x n : ℕ) → rol x n ≡ rotl n x
unfolding rol
rol-rotl x n = refl

function-round_function : (t : ℕ) (r : Regs) → function t r ≡ round_function t r.b r.c r.d
function-round_function t r = rw (choosing-ch r.b r.c r.d, most-maj r.b r.c r.d) refl

mix-fips_round : (t w : ℕ) (r : Regs) → mix r (function t r) (constant t) w ≡ fips_round t w r
unfolding mix rol
mix-fips_round t w r =
    let f = round_function t r.b r.c r.d in
    let k = round_constant t in
    let x = rotl 5 r.a in
    let order : f + k + x + r.e + w ≡ x + f + r.e + k + w = omega arith in
    ap
      (λ q. record {
        a = (q + k + x + r.e + w) % 2 ^ 32;
        b = r.a;
        c = rotl 30 r.b;
        d = r.c;
        e = r.d;
      })
      (function-round_function t r)
    ∙ ap (λ q. record { a = q % 2 ^ 32; b = r.a; c = rotl 30 r.b; d = r.c; e = r.d }) order

window-scheduled : (block : List ℕ) (n j : ℕ) → window block n j ≡ scheduled block n j
unfolding window scheduled rol
window-scheduled block zero j = refl
window-scheduled block (suc n) j = elim (Bool-cases (j == 15)) [
  | inl last ↦
      rw
        (
          last,
          window-scheduled block n 13,
          window-scheduled block n 8,
          window-scheduled block n 2,
          window-scheduled block n 0,
        )
        refl
  | inr before ↦ rw before (window-scheduled block n (suc j))
]

fips_rounds-all_rounds :
    (n t : ℕ) (block : List ℕ) (r : Regs)
    → fips_rounds n t (words_of block) r ≡ all_rounds n t block r
unfolding fips_rounds all_rounds words_of
fips_rounds-all_rounds zero t block r = refl
fips_rounds-all_rounds (suc n) t block r =
    ap (fips_rounds n (t + 1) (words_of block)) (
      ap (mix r (function t r) (constant t)) (window-scheduled block t 0)
      ∙ mix-fips_round t (scheduled block t 0) r)
    ∙ fips_rounds-all_rounds n (t + 1) block _

compress-after_block : (r : Regs) (block : List ℕ) → compress r block ≡ after_block r block
compress-after_block r block =
    ap (plus r) (fips_rounds-all_rounds 80 0 block r) ∙ swapped r (all_rounds 80 0 block r)
  where
    swapped :
        (r s : Regs)
        → plus r s ≡ record {
          a = sum32 s.a r.a;
          b = sum32 s.b r.b;
          c = sum32 s.c r.c;
          d = sum32 s.d r.d;
          e = sum32 s.e r.e;
        }
    swapped r s =
        let order : (x y : ℕ) → x + y ≡ y + x = λ x y. omega arith in
        rw (order r.a s.a, order r.b s.b, order r.c s.c, order r.d s.d, order r.e s.e) refl

fips_blocks-hashed : (n i : ℕ) (g : ℕ → ℕ) (r : Regs) → fips_blocks n i g r ≡ hashed n i g r
unfolding hashed
fips_blocks-hashed zero i g r = refl
fips_blocks-hashed (suc n) i g r =
    ap (fips_blocks n (i + 64) g) (compress-after_block r (words_at 16 i g))
    ∙ fips_blocks-hashed n (i + 64) g _

pub block_sha1-fips_sha1 : (p : List ℕ) → block_sha1 p ≡ fips_sha1 p
unfolding block_sha1 digest
block_sha1-fips_sha1 p =
    ap digest (fips_blocks-hashed (length (padded p) / 64) 0 (byte_of (padded p)) initial)
