-- ===== src/Buffer/Tests.antt =====
-- Runs of the buffer, and its theorems at concrete buffers.
use chain_socket.Base.{◌≡◌, refl, List, [], ◌∷◌, some, arith}
use chain_socket.Base.Outcome.{done, aborted, Yields}
use chain_socket.Buffer.{shift_down, copy, room_for, push_back, alloc, alloc_n, erase}
use chain_socket.Buffer.Contents.{IsValid, contents}
use chain_socket.Buffer.Samples.{generous, generous-Grants, exhausted, three, three-IsValid}
use chain_socket.Buffer.Queue.{
  Command, pushes, reserves, consumes, exec_all, exec_all_refines, fifo,
}
use chain_socket.Buffer.Refusal.{alloc_loses_bytes}

abbrev commands : List Command
commands = pushes (40 ∷ 50 ∷ []) ∷ consumes 4 ∷ reserves ∷ []

exec_all_refines_example :
    Yields (λ b'. IsValid b' × (contents b' ≡ 50 ∷ [])) (exec_all generous three commands)
unfolding fifo
exec_all_refines_example =
    exec_all_refines generous (10 ∷ 20 ∷ 30 ∷ []) (50 ∷ []) three commands generous-Grants
      three-IsValid refl refl (omega arith)

alloc_loses_bytes_example :
    Yields
      (λ b'. (¬ IsValid b') × (contents b' ≡ []) × (b'.size ≡ 3) × (b'.capacity ≡ room_for 3))
      (alloc exhausted three)
    × (push_back exhausted three (7 ∷ []) ≡ aborted)
    × (alloc_n exhausted three 1 ≡ aborted)
alloc_loses_bytes_example =
    alloc_loses_bytes exhausted three (7 ∷ []) three-IsValid (omega arith) (omega arith) (λ n. refl)

erase_run :
    erase three 1
    ≡ done (record three { size = 2; buff = some (20 ∷ 30 ∷ 30 ∷ 0 ∷ 0 ∷ 0 ∷ 0 ∷ 0 ∷ []) })
unfolding erase shift_down copy
erase_run = refl
