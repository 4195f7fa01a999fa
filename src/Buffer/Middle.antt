-- ===== src/Buffer/Middle.antt =====
-- memcpy into the middle of a block, as a reader of the buffer in place does it.
use chain_socket.Base.{
  ℕ, ◌+◌, ◌≡◌, refl, sym, ap, ◌∙◌, List, ◌++◌, some, ltb, length, drop, arith, false, length-append,
  take-append_length, drop-append_length, append_assoc,
}
use chain_socket.Base.Outcome.{done}
use chain_socket.Buffer.{copy}

-- Writing over the middle of a block.
pub copy_middle :
    (front old new tail : List ℕ)
    → length old ≡ length new
    → copy (some (front ++ (old ++ tail))) (length front) new ≡ done (some (front ++ (new ++ tail)))
unfolding copy
copy_middle front old new tail same =
    let block = front ++ (old ++ tail) in
    let inside : ltb (length block) (length front + length new) ≡ false =
      ground (arith, length-append front (old ++ tail), length-append old tail) in
    let before = take-append_length (length front) front (old ++ tail) refl in
    let both : front ++ (old ++ tail) ≡ (front ++ old) ++ tail =
      sym (append_assoc front old tail) in
    let after : drop (length front + length new) block ≡ tail =
      ap (drop (length front + length new)) both
      ∙ drop-append_length (length front + length new) (front ++ old) tail
          (omega (arith, length-append front old)) in
    rw (inside, before, after, append_assoc front new tail)
