-- ===== src/Buffer/Queue.antt =====
-- A buffer as a queue of bytes: any sequence of the calls that a session makes of it.
use chain_socket.Base.{
  ℕ, ◌+◌, ◌*◌, ◌≤◌, ◌≡◌, refl, List, [], ◌∷◌, ◌++◌, Option, none, some, leb, if◌then◌else◌, length,
  drop, arith, Bool-cases, inl, inr, length-append, length-drop, ap, ◌∙◌, Option-cases,
  some-injective,
}
use chain_socket.Base.Outcome.{Outcome, done, ◌>>=◌, Yields, Yields-bind}
use chain_socket.Buffer.{MessageBuffer, Allocator, buffer_size, int_max, push_back, alloc, erase}
use chain_socket.Buffer.Contents.{
  IsValid, contents, Grants, push_back_appends, alloc_keeps, erase_drops, length-contents,
}

-- `pushes` is push_back, `reserves` is alloc(), `consumes` is erase.
pub data Command : Type 0 where
  pushes : List ℕ → Command
  reserves : Command
  consumes : ℕ → Command

pub exec : Allocator → MessageBuffer → Command → Outcome MessageBuffer
exec a b (pushes bytes) = push_back a b bytes
exec a b reserves = alloc a b
exec a b (consumes n) = erase b n

pub exec_all : Allocator → MessageBuffer → List Command → Outcome MessageBuffer
exec_all a b [] = done b
exec_all a b (c ∷ cs) = exec a b c >>= λ b'. exec_all a b' cs

-- The same commands on a queue of bytes; `none` if more is consumed than there is.
abbrev pub fifo_step : List ℕ → Command → Option (List ℕ)
fifo_step q (pushes bytes) = some (q ++ bytes)
fifo_step q reserves = some q
fifo_step q (consumes n) = if leb n (length q) then some (drop n q) else none

unfoldable pub fifo : List ℕ → List Command → Option (List ℕ)
fifo q [] = some q
fifo q (c ∷ cs) = elim (fifo_step q c) [ none ↦ none | some q' ↦ fifo q' cs ]

-- How many bytes the commands push.
abbrev pub pushed : List Command → ℕ
pushed [] = 0
pushed (pushes bytes ∷ cs) = length bytes + pushed cs
pushed (reserves ∷ cs) = pushed cs
pushed (consumes n ∷ cs) = pushed cs

pushed-cons : (c : Command) (cs : List Command) → pushed (c ∷ cs) ≡ pushed (c ∷ []) + pushed cs
pushed-cons (pushes bytes) cs = omega arith
pushed-cons reserves cs = omega arith
pushed-cons (consumes n) cs = omega arith

abbrev Holds : List ℕ → MessageBuffer → Type 0
Holds q b = IsValid b × (contents b ≡ q)

size-Holds : (q : List ℕ) (b : MessageBuffer) → Holds q b → b.size ≡ length q
size-Holds q b (v, same) = omega (arith, length-contents b v, ap length same)

exec-Holds :
    (a : Allocator) (q q' : List ℕ) (b : MessageBuffer) (c : Command)
    → Grants a
    → Holds q b
    → fifo_step q c ≡ some q'
    → length q + pushed (c ∷ []) + 3 * buffer_size ≤ int_max
    → Yields (Holds q') (exec a b c)
unfolding exec
exec-Holds a q q' b (pushes bytes) g (v, same) e small =
    let (b', run, (v', app, room)) =
      push_back_appends a b bytes g v (omega (arith, size-Holds q b (v, same))) in
    (b', run, (v', app ∙ ap (λ p. p ++ bytes) same ∙ some-injective _ _ e))
exec-Holds a q q' b reserves g (v, same) e small =
    let (b', run, (v', kept, size, room)) =
      alloc_keeps a b g v (omega (arith, size-Holds q b (v, same))) in
    (b', run, (v', kept ∙ same ∙ some-injective _ _ e))
exec-Holds a q q' b (consumes n) g (v, same) e small =
    let (b', run, (v', rest, size, cap)) =
      erase_drops b n v (ground (arith, size-Holds q b (v, same), e)) in
    (b', run, (v', rest ∙ ap (drop n) same ∙ ground arith))

length-fifo_step :
    (q q' : List ℕ) (c : Command) → fifo_step q c ≡ some q' → length q' ≤ length q + pushed (c ∷ [])
length-fifo_step q q' (pushes bytes) e =
    omega (arith, length-append q bytes, ap length (some-injective _ _ e))
length-fifo_step q q' reserves e = omega (arith, ap length (some-injective _ _ e))
length-fifo_step q q' (consumes n) e = elim (Bool-cases (leb n (length q))) [
  | inl enough ↦ omega (arith, length-drop n q, ap length (some-injective _ _ (rw enough at e)))
  | inr short ↦ absurd (cc (rw short at e))
]

-- A valid buffer is a queue of bytes: when the allocator grants its requests, nothing more is
-- consumed than there is, and all that is pushed fits an int, any sequence of push_back, alloc and
-- erase returns, and leaves a valid buffer of the bytes that the queue holds.
pub exec_all_refines :
    (a : Allocator) (q out : List ℕ) (b : MessageBuffer) (cs : List Command)
    → Grants a
    → IsValid b
    → contents b ≡ q
    → fifo q cs ≡ some out
    → length q + pushed cs + 3 * buffer_size ≤ int_max
    → Yields (λ b'. IsValid b' × (contents b' ≡ out)) (exec_all a b cs)
unfolding exec_all fifo
exec_all_refines a q out b [] g v same e small = (b, refl, (v, same ∙ some-injective _ _ e))
exec_all_refines a q out b (c ∷ cs) g v same e small = elim (Option-cases (fifo_step q c)) [
  | inl stuck ↦ absurd (cc (rw (stuck, fifo) at e))
  | inr (q', step) ↦
      let counted : pushed (c ∷ cs) ≡ pushed (c ∷ []) + pushed cs = pushed-cons c cs in
      Yields-bind (Holds q') _ (exec a b c) _
        (exec-Holds a q q' b c g (v, same) step (omega (arith, counted)))
        λ b' (v', same').
          exec_all_refines a q' out b' cs g v' same' (rw (step, fifo) at e)
            (omega (arith, counted, length-fifo_step q q' c step))
]
