-- ===== src/Connect/Result/Rounds.antt =====
-- getResult returns, with the results of at most one check.
use chain_socket.Base.{
  ℕ, zero, suc, ◌+◌, ◌^◌, ◌≤◌, ◌<◌, ◌≡◌, refl, sym, ap, ◌∙◌, ◌≢◌, inl, inr, true, false, Option,
  leb, ◌==◌, if◌then◌else◌, length, arith, Bool-cases, ℕ_discrete,
}
use chain_socket.Base.Map.{lookup}
use chain_socket.Base.Outcome.{done, Yields}
use chain_socket.Timer.{npos}
use chain_socket.Timer.Heap.{key, entry-at}
use chain_socket.Timer.Schedule.{deadline, All, Sound}
use chain_socket.Timer.Fire.{first, first_set, first_time}
use chain_socket.Connect.{ConnectPoller, time_key}
use chain_socket.Connect.View.{view, checked}
use chain_socket.Connect.Check.{IsWatched}
use chain_socket.Connect.Result.{fire_check, detect_checks, cleared, get_result, IsTimed, past}
use chain_socket.Connect.Result.Fire.{
  armed, unset, detect_checks_ends, NotDue-cases, fire_check-Checked,
}

get_round :
    (f now now' : ℕ) (answer : ℕ → Option ℕ) (c c' : ConnectPoller)
    → Sound All c.tm
    → 0 < length c.tm.heap
    → leb (key c.tm.heap 0) now ≡ true
    → fire_check now now' answer c (first c.tm) ≡ done c'
    → detect_checks (suc f) now now' answer c ≡ detect_checks f now now' answer c'
unfolding detect_checks
get_round f now now' answer c c' s some_left past_due run =
    let left : (length c.tm.heap == 0) ≡ false = ground arith in
    rw (left, entry-at c.tm.heap 0 some_left, past_due, run) refl

-- The root of the heap is the timer of the checks.
first_check :
    (c : ConnectPoller) (s : Sound All c.tm)
    → IsTimed c
    → (some_left : 0 < length c.tm.heap) → first c.tm ≡ c.connect_timer
first_check c s t some_left = elim (ℕ_discrete (first c.tm) c.connect_timer) [
  | yes e ↦ e
  | no n ↦
      let when = armed c.tm (first c.tm) (first_set c.tm s some_left) in
      absurd (let never = sym (t.alone (first c.tm) n) ∙ when in cc)
]

-- When that timer is due, so is the root.
root_due :
    (now : ℕ) (c : ConnectPoller) (s : Sound All c.tm)
    → IsTimed c
    → past now (deadline c.tm c.connect_timer) ≡ true
    → (0 < length c.tm.heap) × (leb (key c.tm.heap 0) now ≡ true)
root_due now c s t is_due =
    let ct = c.connect_timer in
    let index : (c.tm.timers ct).heap_index ≢ npos =
      λ e. absurd (let both = ap (past now) (sym (unset c.tm ct e)) ∙ is_due in cc) in
    let (inside, here) = s.wired.linked ct tt index in
    let some_left : 0 < length c.tm.heap = omega (arith, inside) in
    let time : leb (c.tm.timers ct).expires now ≡ true =
      ap (past now) (sym (armed c.tm ct index)) ∙ is_due in
    let root : key c.tm.heap 0 ≡ (c.tm.timers ct).expires =
      first_time c.tm s some_left
      ∙ ap (λ u. (c.tm.timers u).expires) (first_check c s t some_left) in
    (some_left, ap (λ k. leb k now) root ∙ time)

-- getResult on a valid poller of connects, whose manager has no other timer, returns after at most
-- two rounds. When the timer of the checks is due, every connecting socket is judged once by
-- checkAllStatus and the results are those of this check; when it is not, there are no results and
-- nothing changes. The poller stays valid. The clock is not within 10 ms of its end.
pub get_result-checked :
    (fuel now now' : ℕ) (answer : ℕ → Option ℕ) (c : ConnectPoller)
    → IsWatched c
    → IsTimed c
    → now + 10 < 2 ^ 64
    → 2 ≤ fuel
    → Yields
        (λ c'.
          IsWatched c'
          × IsTimed c'
          × ((fd : ℕ)
              → view c' fd ≡ (
                  if past now (deadline c.tm c.connect_timer)
                  then checked now' answer (lookup time_key fd c.connect_time) (view (cleared c) fd)
                  else view (cleared c) fd)))
        (get_result fuel now now' answer c)
unfolding get_result
get_result-checked zero now now' answer c w t fits h = absurd (omega arith)
get_result-checked (suc zero) now now' answer c w t fits h = absurd (omega arith)
get_result-checked (suc (suc f)) now now' answer c w t fits h =
    let c0 = cleared c in
    let w0 : IsWatched c0 = record {
      sound = w.sound;
      sorted = w.sorted;
      watched = w.watched;
      idle = w.idle;
    } in
    elim (Bool-cases (past now (deadline c.tm c.connect_timer))) [
      | inr not_due ↦ (
        c0,
        detect_checks_ends (suc f) now now' answer c0 w.sound (NotDue-cases now c0 t not_due),
        (w0, t, λ fd. rw not_due refl),
      )
      | inl is_due ↦
          let (c', run, (watched, timed, later, same)) =
            fire_check-Checked now now' answer c0 w0 t fits is_due in
          let (some_left, past_due) = root_due now c0 w.sound t is_due in
          let fired =
            ap (fire_check now now' answer c0) (first_check c0 w.sound t some_left) ∙ run in
          (
            c',
            get_round (suc f) now now' answer c0 c' w.sound some_left past_due fired
                ∙ detect_checks_ends f now now' answer c' watched.sound later,
            (watched, timed, λ fd. rw is_due (same fd)),
          )
    ]
