-- ===== src/Connect/Result/Fire.antt =====
-- What becomes of the timer of the checks in one round of DetectTimers.
use chain_socket.Base.{
  ℕ, suc, ◌+◌, ◌^◌, ◌<◌, ◌≡◌, refl, sym, ap, ◌∙◌, ◌≢◌, ◌⊎◌, inl, inr, true, false, List, [], ◌∷◌,
  Option, none, some, some-injective, leb, ◌==◌, length, arith, subst, Bool-cases, ℕ_discrete,
}
use chain_socket.Base.Map.{lookup}
use chain_socket.Base.Outcome.{done, done-injective, Yields}
use chain_socket.Timer.{Timer, TimerManager, circle, npos, u64}
use chain_socket.Timer.Heap.{key, entry-at}
use chain_socket.Timer.Schedule.{deadline, All, Sound}
use chain_socket.Timer.Fire.{next_deadline, first, first_set, first_time, Fired, round-Fired}
use chain_socket.Timer.Control.{Stopped, stop-Stopped}
use chain_socket.Connect.{
  Pending, ConnectPoller, time_key, check_loop, stop_if_idle, check_all_status,
}
use chain_socket.Connect.View.{view, checked, check_loop_timer}
use chain_socket.Connect.Check.{IsWatched, check_all_status-checked}
use chain_socket.Connect.Result.{nothing, fire_check, detect_checks, Timed, IsTimed, past}

pub NotDue : ℕ → TimerManager → Type 0
NotDue now m = (u e : ℕ) → deadline m u ≡ some e → now < e

-- A timer in the heap has a deadline.
pub armed :
    (m : TimerManager) (u : ℕ)
    → (m.timers u).heap_index ≢ npos
    → deadline m u ≡ some (m.timers u).expires
armed m u n = let set_ : ((m.timers u).heap_index == npos) ≡ false = ground arith in rw set_ refl

pub unset : (m : TimerManager) (u : ℕ) → (m.timers u).heap_index ≡ npos → deadline m u ≡ none
unset m u e =
    let none_set : ((m.timers u).heap_index == npos) ≡ true = ground arith in rw none_set refl

-- When no timer is due, the loop ends at once.
pub detect_checks_ends :
    (f now now' : ℕ) (answer : ℕ → Option ℕ) (c : ConnectPoller)
    → Sound All c.tm
    → NotDue now c.tm
    → detect_checks (suc f) now now' answer c ≡ done c
unfolding detect_checks NotDue
detect_checks_ends f now now' answer c s later = elim (Bool-cases (length c.tm.heap == 0)) [
  | inl empty ↦ rw empty refl
  | inr left ↦
      let some_left : 0 < length c.tm.heap = ground arith in
      let top = entry-at c.tm.heap 0 some_left in
      let t = first c.tm in
      let when = armed c.tm t (first_set c.tm s some_left) in
      let after : leb (key c.tm.heap 0) now ≡ false =
        ground (arith, first_time c.tm s some_left, later t _ when) in
      rw (left, top, after) refl
]

-- The manager is left alone, or the timer of the checks stopped.
StoppedOrSame : ConnectPoller → ConnectPoller → Type 0
StoppedOrSame c c' =
    (c'.connect_timer ≡ c.connect_timer) × ((c'.tm ≡ c.tm) ⊎ Stopped c.tm c.connect_timer c'.tm)

stop_if_idle_timer :
    (ps : List Pending) (c d : ConnectPoller)
    → Sound All c.tm
    → d.tm ≡ c.tm
    → d.connect_timer ≡ c.connect_timer
    → Yields (StoppedOrSame c) (stop_if_idle ps d)
unfolding stop_if_idle StoppedOrSame
stop_if_idle_timer [] c d s tm timer =
    let (m, run, stopped) = stop-Stopped c.tm c.connect_timer s in
    (record d { tm = m }, rw (tm, timer, run) refl, (timer, inr stopped))
stop_if_idle_timer (p ∷ ps) c d s tm timer = (d, refl, (timer, inl tm))

check_all_status_timer :
    (now : ℕ) (answer : ℕ → Option ℕ) (c : ConnectPoller)
    → Sound All c.tm
    → Yields (StoppedOrSame c) (check_all_status now answer c)
unfolding check_all_status
check_all_status_timer now answer c s =
    let c1 = check_loop now answer c.connect_time c in
    let (tm, timer) = check_loop_timer now answer c.connect_time c in
    stop_if_idle_timer c1.connect_time c c1 s tm timer

-- A manager without a timer that is due, or with this one.
pub NotDue-cases :
    (now : ℕ) (c : ConnectPoller)
    → IsTimed c
    → past now (deadline c.tm c.connect_timer) ≡ false
    → NotDue now c.tm
unfolding NotDue
NotDue-cases now c t not_past u e is_due = elim (ℕ_discrete u c.connect_timer) [
  | yes same ↦
      let here : deadline c.tm c.connect_timer ≡ some e = rw (← same) is_due in
      let low : leb e now ≡ false = ap (past now) (sym here) ∙ not_past in ground arith
  | no other ↦ absurd (let never = sym (t.alone u other) ∙ is_due in cc)
]

-- The manager after the timer of the checks has fired at `now`.
record Again (now : ℕ) (m : TimerManager) (t : ℕ) : Type 0 where
  alone : (u : ℕ) → u ≢ t → deadline m u ≡ none
  circles : (m.timers t).timer_type ≡ circle
  tens : (m.timers t).interval ≡ 10
  next : deadline m t ≡ some (u64 (10 + now))

in_ten :
    (v : Timer) (now : ℕ)
    → v.timer_type ≡ circle
    → v.interval ≡ 10
    → next_deadline v now ≡ some (u64 (10 + now))
in_ten v now e f = rw (e, f) refl

Fired-Again :
    (now : ℕ) (m m' : TimerManager) (t : ℕ)
    → Timed m t
    → deadline m t ≢ none
    → Fired m t now m'
    → Again now m' t
Fired-Again now m m' t timed set_now fired =
    let (circles, tens) = timed.periodic set_now in
    let self : (t == t) ≡ true = ground arith in
    record {
      alone = λ u n.
          let other : (u == t) ≡ false = ground arith in
          let same = rw other at (fired.due_at u) in same ∙ timed.alone u n;
      circles = fired.same.timer_type t ∙ circles;
      tens = fired.same.interval t ∙ tens;
      next = let same = rw self at (fired.due_at t) in same ∙ in_ten (m.timers t) now circles tens;
    }

-- Whether checkAllStatus stops the timer or not, it is not due any more.
Again-Timed :
    (now : ℕ) (m m' : TimerManager) (t : ℕ)
    → now + 10 < 2 ^ 64
    → Again now m t
    → ((m' ≡ m) ⊎ Stopped m t m')
    → Timed m' t × NotDue now m'
unfolding NotDue
Again-Timed now m m' t fits again (inl same) =
    subst (λ n. Timed n t × ((u e : ℕ) → deadline n u ≡ some e → now < e)) (sym same)
      (
        record { alone = again.alone; periodic = λ n. (again.circles, again.tens) },
        λ u e is_due. elim (ℕ_discrete u t) [
          | yes here ↦
              let next = ap (deadline m) (sym here) ∙ is_due in
              let time : u64 (10 + now) ≡ e = some-injective _ _ (sym again.next ∙ next) in
              omega (arith, time)
          | no other ↦ absurd (let never = sym (again.alone u other) ∙ is_due in cc)
        ],
      )
Again-Timed now m m' t fits again (inr stopped) =
    let none_due = λ (u : ℕ). all_stopped u in
    (
      record { alone = λ u n. none_due u; periodic = λ n. absurd (n (none_due t)) },
      λ u e is_due. absurd (let never = sym (none_due u) ∙ is_due in cc),
    )
  where
    all_stopped : (u : ℕ) → deadline m' u ≡ none
    all_stopped u = elim (ℕ_discrete u t) [
      | yes here ↦ let self : (u == t) ≡ true = ground arith in rw self at (stopped.due_at u)
      | no other ↦
          let apart : (u == t) ≡ false = ground arith in
          let same = rw apart at (stopped.due_at u) in same ∙ again.alone u other
    ]

module _ (now now' : ℕ) (answer : ℕ → Option ℕ) (c : ConnectPoller) (w : IsWatched c)
    (t : IsTimed c) (fits : now + 10 < 2 ^ 64)
    (is_due : past now (deadline c.tm c.connect_timer) ≡ true) where
  pub set_now : deadline c.tm c.connect_timer ≢ none
  set_now e = let both = ap (past now) (sym e) ∙ is_due in absurd (cc)

  -- What checkAllStatus makes of the connects, and their timer.
  abbrev pub Checked : ConnectPoller → Type 0
  Checked c' =
      IsWatched c'
      × IsTimed c'
      × NotDue now c'.tm
      × ((fd : ℕ)
          → view c' fd ≡ checked now' answer (lookup time_key fd c.connect_time) (view c fd))

  pub fire_check-Checked : Yields Checked (fire_check now now' answer c c.connect_timer)
  unfolding fire_check StoppedOrSame
  fire_check-Checked =
      let ct = c.connect_timer in
      let index : (c.tm.timers ct).heap_index ≢ npos = λ e. set_now (unset c.tm ct e) in
      let (m1, removed, m2, fired, ran) = round-Fired nothing c.tm ct now w.sound index in
      let again = Fired-Again now c.tm m2 ct t set_now fired in
      let c1 : ConnectPoller = record c { tm = m2 } in
      let w1 : IsWatched c1 = record {
        sound = fired.sound;
        sorted = w.sorted;
        watched = λ n e. let both = sym e ∙ again.next in absurd (cc);
        idle = λ e. absurd (set_now (w.idle e));
      } in
      let (c2, run, (same, watched)) = check_all_status-checked now' answer c1 w1 in
      let (c2', run', (timer, tm)) = check_all_status_timer now' answer c1 fired.sound in
      let one : c2' ≡ c2 = done-injective (sym run' ∙ run) in
      let (timed, later) = Again-Timed now m2 c2'.tm ct fits again tm in
      let timed' : IsTimed c2' = rw timer timed in
      (
        c2,
        rw (removed, ran, run) refl,
        subst
            (λ d.
              IsWatched d
              × IsTimed d
              × NotDue now d.tm
              × ((fd : ℕ)
                  → view d fd
                    ≡ checked now' answer (lookup time_key fd c.connect_time) (view c fd)))
            one
            (
              subst IsWatched (sym one) watched,
              timed',
              later,
              λ fd. ap (λ d. view d fd) one ∙ same fd,
            ),
      )
