-- ===== src/Connect/Check.antt =====
-- checkAllStatus judges every connecting socket once, and keeps the timer of the checks.
use chain_socket.Base.{
  ℕ, ◌≡◌, refl, sym, ◌∙◌, ap, ◌≢◌, true, List, [], ◌∷◌, Option, none, ◌==◌, arith, subst,
}
use chain_socket.Base.Map.{lookup, IsMap}
use chain_socket.Base.Outcome.{Yields}
use chain_socket.Timer.Schedule.{Sound, All, deadline}
use chain_socket.Timer.Control.{stop-Stopped}
use chain_socket.Connect.{
  Pending, ConnectPoller, time_key, check_loop, stop_if_idle, check_all_status,
}
use chain_socket.Connect.View.{
  view, checked, view-check_loop, check_loop-IsMap, check_loop_timer, check_loop_nil,
}

-- The timer of the checks is due whenever a socket is connecting, and at no time otherwise.
pub record IsWatched (c : ConnectPoller) : Type 0 where
  pub sound : Sound All c.tm
  pub sorted : IsMap time_key c.connect_time
  pub watched : c.connect_time ≢ [] → deadline c.tm c.connect_timer ≢ none
  pub idle : c.connect_time ≡ [] → deadline c.tm c.connect_timer ≡ none

stop_if_idle-IsWatched :
    (ps : List Pending) (c : ConnectPoller)
    → c.connect_time ≡ ps
    → Sound All c.tm
    → IsMap time_key c.connect_time
    → (c.connect_time ≢ [] → deadline c.tm c.connect_timer ≢ none)
    → Yields (λ c'. ((fd : ℕ) → view c' fd ≡ view c fd) × IsWatched c') (stop_if_idle ps c)
unfolding stop_if_idle
stop_if_idle-IsWatched [] c e s m w =
    let (tm, run, stopped) = stop-Stopped c.tm c.connect_timer s in
    let self : (c.connect_timer == c.connect_timer) ≡ true = ground arith in
    (
      record c { tm = tm },
      rw run,
      (
        λ fd. refl,
        record {
          sound = stopped.sound;
          sorted = m;
          watched = λ n. absurd (n e);
          idle = λ _. rw self at (stopped.due_at c.connect_timer);
        },
      ),
    )
stop_if_idle-IsWatched (p ∷ ps) c e s m w = (
  c,
  refl,
  (
    λ fd. refl,
    record { sound = s; sorted = m; watched = w; idle = λ n. absurd (let both = sym e ∙ n in cc) },
  ),
)

-- checkAllStatus on a valid poller of connects returns. A socket that is connecting is dropped,
-- closed once and reported as failed if its time is over or its status is an error, dropped and
-- reported as connected if it is ready, and left alone otherwise; nothing changes for any other
-- socket. The timer of the checks remains set exactly while there are sockets to check.
pub check_all_status-checked :
    (now : ℕ) (answer : ℕ → Option ℕ) (c : ConnectPoller)
    → IsWatched c
    → Yields
        (λ c'.
          ((fd : ℕ)
            → view c' fd ≡ checked now answer (lookup time_key fd c.connect_time) (view c fd))
          × IsWatched c')
        (check_all_status now answer c)
unfolding check_all_status
check_all_status-checked now answer c w =
    let c1 = check_loop now answer c.connect_time c in
    let (tm, timer) = check_loop_timer now answer c.connect_time c in
    let none_before : c.connect_time ≡ [] → c1.connect_time ≡ [] =
      λ e. ap (λ d. d.connect_time) (check_loop_nil now answer c.connect_time c e) ∙ e in
    let (c', run, (same, ok)) =
      stop_if_idle-IsWatched c1.connect_time c1 refl (subst (Sound All) (sym tm) w.sound)
        (check_loop-IsMap now answer c.connect_time c w.sorted)
        (λ n. rw (tm, timer) (w.watched (λ e. n (none_before e)))) in
    (
      c',
      run,
      (λ fd. same fd ∙ view-check_loop now answer c.connect_time c fd w.sorted w.sorted, ok),
    )
