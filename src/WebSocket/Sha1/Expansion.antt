-- ===== src/WebSocket/Sha1/Expansion.antt =====
-- Every block has a schedule of words.
use chain_socket.Base.{
  ℕ, zero, suc, ◌+◌, ◌<◌, ◌≡◌, refl, sym, ap, ◌∙◌, false, List, arith, ◌==◌, if◌then◌else◌, get_or,
  bit_xor,
}
use chain_socket.WebSocket.Sha1.{rol}
use chain_socket.WebSocket.Sha1.Schedule.{IsSchedule}

-- The `j`th of the 16 words from word `n` on.
unfoldable pub window : List ℕ → ℕ → ℕ → ℕ
window block zero j = get_or block j 0
window block (suc n) j =
    if j == 15
    then rol
        (bit_xor (bit_xor (bit_xor (window block n 13) (window block n 8)) (window block n 2))
          (window block n 0))
        1
    else window block n (suc j)

unfoldable pub words_of : List ℕ → ℕ → ℕ
words_of block t = window block t 0

inner :
    (block : List ℕ) (n j : ℕ) → (j == 15) ≡ false → window block (suc n) j ≡ window block n (suc j)
unfolding window
inner block n j before = rw before refl

newest :
    (block : List ℕ) (n : ℕ)
    → window block (suc n) 15
      ≡ rol
          (bit_xor
            (bit_xor (bit_xor (window block n 13) (window block n 8)) (window block n 2))
            (window block n 0))
          1
unfolding window
newest block n = refl

window_slide :
    (block : List ℕ) (n k j : ℕ) → j + k < 16 → window block (n + k) j ≡ window block n (j + k)
window_slide block n zero j h =
    let none_more : n + 0 ≡ n = omega arith in
    let here : j + 0 ≡ j = omega arith in rw (none_more, here) refl
window_slide block n (suc k) j h =
    let one_more : n + suc k ≡ suc (n + k) = omega arith in
    let right : j + suc k ≡ suc j + k = omega arith in
    let inside : (j == 15) ≡ false = ground arith in
    rw (one_more, right)
      (inner block (n + k) j inside ∙ window_slide block n k (suc j) (omega arith))

pub words_of-IsSchedule : (block : List ℕ) → IsSchedule block (words_of block)
unfolding words_of window
words_of-IsSchedule block = record {
  first = λ t h.
      let all : 0 + t ≡ t = omega arith in
      ap (λ k. window block k 0) (sym all)
      ∙ window_slide block 0 t 0 (omega arith)
      ∙ ap (λ j. get_or block j 0) all;
  next = λ t.
      let after : t + 16 ≡ suc t + 15 = omega arith in
      ap (λ k. window block k 0) after
      ∙ window_slide block (suc t) 15 0 (omega arith)
      ∙ newest block t
      ∙ rw
          (
            ← window_slide block t 13 0 (omega arith),
            ← window_slide block t 8 0 (omega arith),
            ← window_slide block t 2 0 (omega arith),
          )
          refl;
}
