-- ===== src/Timer/Detect.antt =====
-- DetectTimers: what it fires, what it returns, and when it ends.
use chain_socket.Base.{
  ℕ, zero, suc, ◌+◌, ◌-◌, ◌%◌, ◌^◌, ◌≤◌, ◌<◌, ◌≡◌, refl, sym, ◌≢◌, ◌∙◌, ◌⊎◌, inl, inr, ◌==◌, length,
  arith, leb, subst, Bool-cases,
}
use chain_socket.Base.Outcome.{done, Yields, done-injective}
use chain_socket.Timer.{circle, TimerManager, Callback, npos, u64, detect_timers}
use chain_socket.Timer.Heap.{key, entry-at, due}
use chain_socket.Timer.Schedule.{All, Sound}
use chain_socket.Timer.Fire.{first, first_set, first_time, first_least, Fired, round-Fired}

abbrev pub IsArmed : TimerManager → ℕ → Type 0
IsArmed m t = (m.timers t).heap_index ≢ npos

-- What DetectTimers promises: nothing that is set is due, and the result is the time to the next
-- timer, as the bits of an int, or 10 if none is set.
pub record Waits (now : ℕ) (r : ℕ × TimerManager) : Type 0 where
  pub sound : Sound All r.1
  pub nothing_due : (u : ℕ) → IsArmed r.1 u → now < (r.1.timers u).expires
  pub wait :
      (((u : ℕ) → ¬ IsArmed r.1 u) × (r.0 ≡ 10))
      ⊎ ((t : ℕ) × IsArmed r.1 t
          × ((u : ℕ) → IsArmed r.1 u → (r.1.timers t).expires ≤ (r.1.timers u).expires)
          × (r.0 ≡ ((r.1.timers t).expires - now) % 2 ^ 32))

-- The two ways in which the loop ends.
Waits-empty : (m : TimerManager) (now : ℕ) → Sound All m → length m.heap ≡ 0 → Waits now (10, m)
Waits-empty m now s e =
    let nothing : (u : ℕ) → ¬ IsArmed m u = λ u is_set. omega (arith, s.wired.linked u tt is_set) in
    record {
      sound = s;
      nothing_due = λ u is_set. absurd (nothing u is_set);
      wait = inl (nothing, refl);
    }

Waits-later :
    (m : TimerManager) (now : ℕ)
    → Sound All m
    → 0 < length m.heap
    → now < key m.heap 0
    → Waits now ((key m.heap 0 - now) % 2 ^ 32, m)
Waits-later m now s some_left later = record {
  sound = s;
  nothing_due = λ u is_set. omega (arith, first_least m s some_left u is_set);
  wait = inr (
    first m,
    first_set m s some_left,
    (λ u is_set. omega (arith, first_time m s some_left, first_least m s some_left u is_set)),
    rw (first_time m s some_left),
  );
}

-- A timer's function may do anything with the manager that its methods do.
abbrev pub KeepsSound : Callback → Type 0
KeepsSound call = (fun t : ℕ) (m : TimerManager) → Sound All m → Sound All (call fun t m)

out_of_fuel :
    (call : Callback) (m : TimerManager) (now : ℕ) (r : ℕ × TimerManager)
    → detect_timers zero call m now ≢ done r
unfolding detect_timers
out_of_fuel call m now r e = cc

-- A round of the loop ends it, or fires the first timer.
data Round (f : ℕ) (call : Callback) (m : TimerManager) (now : ℕ) : Type 0 where
  ends :
      (r : ℕ × TimerManager)
      → Waits now r
      → r.1 ≡ m
      → detect_timers (suc f) call m now ≡ done r
      → Round f call m now
  fires :
      (m2 : TimerManager)
      → 0 < length m.heap
      → key m.heap 0 ≤ now
      → Fired m (first m) now m2
      → detect_timers (suc f) call m now
        ≡ detect_timers f call (call (m.timers (first m)).timer_fun (first m) m2) now
      → Round f call m now

Round-cases :
    (f : ℕ) (call : Callback) (m : TimerManager) (now : ℕ) → Sound All m → Round f call m now
unfolding detect_timers
Round-cases f call m now s = elim (Bool-cases (length m.heap == 0)) [
  | inl empty ↦ ends (10, m) (Waits-empty m now s (ground arith)) refl (rw empty)
  | inr left ↦
      let some_left : 0 < length m.heap = ground arith in
      let top = entry-at m.heap 0 some_left in
      elim (Bool-cases (leb (key m.heap 0) now)) [
        | inr later ↦
            ends _ (Waits-later m now s some_left (ground arith)) refl (rw (left, top, later))
        | inl past ↦
            let (m1, removed, m2, fired, ran) =
              round-Fired call m (first m) now s (first_set m s some_left) in
            fires m2 some_left (ground arith) fired (rw (left, top, past, removed, ran))
      ]
]

-- Whenever DetectTimers returns, no timer is due any more, and its result is the time to the next
-- one; the functions that it calls may change the manager soundly.
pub detect_timers-Waits :
    (f : ℕ) (call : Callback) (m : TimerManager) (now : ℕ) (r : ℕ × TimerManager)
    → KeepsSound call
    → Sound All m
    → detect_timers f call m now ≡ done r
    → Waits now r
detect_timers-Waits zero call m now r keeps s e = absurd (out_of_fuel call m now r e)
detect_timers-Waits (suc f) call m now r keeps s e = elim (Round-cases f call m now s) [
  | ends r' w here run ↦ subst (Waits now) (done-injective (sym run ∙ e)) w
  | fires m2 left past fired run ↦
      detect_timers-Waits f call (call (m.timers (first m)).timer_fun (first m) m2) now r keeps
        (keeps _ _ m2 fired.sound) (sym run ∙ e)
]

-- Periodic timers come up again later than now.
abbrev pub ComesLater : ℕ → TimerManager → Type 0
ComesLater now m =
    (u : ℕ) → (m.timers u).timer_type ≡ circle → now < u64 ((m.timers u).interval + now)

-- The functions called make no timer due, and set no period of 0.
abbrev pub KeepsCalm : ℕ → Callback → Type 0
KeepsCalm now call =
    (fun t : ℕ) (m : TimerManager)
    → Sound All m
    → ComesLater now m
    → Sound All (call fun t m)
      × ComesLater now (call fun t m)
      × (due now (call fun t m).heap ≤ due now m.heap)

-- When periodic timers come up again later than now, and the functions that are called make no
-- timer due, DetectTimers returns after a round for each timer that is due; no timer is due then,
-- and its result is the time to the next one.
pub detect_timers_returns :
    (f : ℕ) (call : Callback) (m : TimerManager) (now : ℕ)
    → KeepsCalm now call
    → Sound All m
    → ComesLater now m
    → due now m.heap < f
    → Yields (Waits now) (detect_timers f call m now)
detect_timers_returns zero call m now keeps s later fuel = absurd (omega arith)
detect_timers_returns (suc f) call m now keeps s later fuel = elim (Round-cases f call m now s) [
  | ends r w here run ↦ (r, run, w)
  | fires m2 left past fired run ↦
      let fun = (m.timers (first m)).timer_fun in
      let calm : ComesLater now m2 =
        λ u c. ground (arith, fired.same.timer_type u, fired.same.interval u, later u) in
      let (s3, later3, fewer) = keeps fun (first m) m2 fired.sound calm in
      let one_less = fired.due_fewer (later (first m)) (omega (arith, first_time m s left)) in
      rw run
        (detect_timers_returns f call (call fun (first m) m2) now keeps s3 later3 (omega arith))
]
