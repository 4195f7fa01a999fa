-- ===== src/Buffer/Samples.antt =====
-- Concrete allocators and buffers, for the tests.
use chain_socket.Base.{
  ◌∙◌, sym, ap, some-injective, ℕ, ◌≤◌, ◌≡◌, refl, List, [], ◌∷◌, ◌++◌, Option, none, some, arith,
  length, take, replicate, length-take, length-append, length-replicate, take-append, take-take_le,
}
use chain_socket.Buffer.{MessageBuffer, Allocator, buffer_max_size}
use chain_socket.Buffer.Contents.{IsValid, Grants}

-- A block moved to `n` bytes: its first bytes, then zeros.
abbrev pub moved : Option (List ℕ) → ℕ → List ℕ
moved none n = replicate n 0
moved (some old) n = take n (old ++ replicate n 0)

pub zeros : (n : ℕ) → length (replicate {A = ℕ} n 0) ≡ n
zeros n = length-replicate {A = ℕ} n 0

pub moved_size : (old : Option (List ℕ)) (n : ℕ) → length (moved old n) ≡ n
moved_size none n = zeros n
moved_size (some old) n =
    omega (arith, length-take n (old ++ replicate n 0), length-append old (replicate n 0), zeros n)

pub moved_keeps :
    (old : List ℕ) (n k : ℕ) → k ≤ length old → k ≤ n → take k (moved (some old) n) ≡ take k old
moved_keeps old n k h m =
    take-take_le k n (old ++ replicate n 0) m ∙ take-append k old (replicate n 0) h

-- An allocator that grants every request, and one that grants none.
abbrev pub generous : Allocator
generous = record {
  malloc = λ n. some (replicate n 0);
  realloc = λ old n. some (moved old n);
  malloc_size = λ n block e. sym (ap length (some-injective _ _ e)) ∙ zeros n;
  realloc_size = λ old n block e. sym (ap length (some-injective _ _ e)) ∙ moved_size old n;
  realloc_keeps =
      λ old n block k e h m. sym (ap (take k) (some-injective _ _ e)) ∙ moved_keeps old n k h m;
}

abbrev pub exhausted : Allocator
exhausted = record {
  malloc = λ n. none;
  realloc = λ old n. none;
  malloc_size = λ n block e. cc;
  realloc_size = λ old n block e. cc;
  realloc_keeps = λ old n block k e h m. cc;
}

pub generous-Grants : Grants generous
generous-Grants old n e = cc

-- Three bytes in a block of eight.
abbrev pub three : MessageBuffer
three = record {
  size = 3;
  buff = some (10 ∷ 20 ∷ 30 ∷ 0 ∷ 0 ∷ 0 ∷ 0 ∷ 0 ∷ []);
  capacity = 8;
  max_size = buffer_max_size;
}

pub three-IsValid : IsValid three
three-IsValid = (
  10 ∷ 20 ∷ 30 ∷ 0 ∷ 0 ∷ 0 ∷ 0 ∷ 0 ∷ [],
  record { owned = refl; sized = refl; fits = omega arith },
)
