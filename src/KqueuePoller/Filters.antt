-- ===== src/KqueuePoller/Filters.antt =====
-- What the kqueue back end makes of an event's filter (code/ChainSocket/KqueuePoller.cpp).
mod Tests
use chain_socket.Base.{
  ℕ, suc, zero, ◌+◌, ◌*◌, ◌/◌, ◌%◌, ◌<◌, ◌≤◌, ◌≡◌, refl, ap, ◌∙◌, List, [], ◌∷◌, Option, none, some,
  ltb, length, ◌&&◌, not, ◌^◌, subst, arith, Bool-cases, Bool, true, false, get_elem?,
  if◌then◌else◌, ◌≢◌, inl, inr, bit_and, ◌==◌,
}
use chain_socket.Base.Outcome.{Outcome, done, fault, ◌>>=◌, Yields}
use chain_socket.WebSocket.Bits.{every, every-true}
use chain_socket.SelectPoller.{Flags}
use chain_socket.KqueuePoller.{
  Filter, evfilt_read, evfilt_write, Kevent, KqueuePoller, FilterWords, Wait, max_events, timeout,
  kevent_at, poll_get_events, get_event_triger_flag,
}

-- An event with the other filter.
abbrev pub other : Filter → Filter
other evfilt_read = evfilt_write
other evfilt_write = evfilt_read

abbrev pub exchanged : List Kevent → List Kevent
exchanged [] = []
exchanged (e ∷ es) = record e { filter = other e.filter } ∷ exchanged es

abbrev flags_at : FilterWords → List Kevent → ℕ → Outcome Flags
flags_at w es i = (elim (get_elem? es i) [ none ↦ fault | some e ↦ done e ]) >>= λ e. done (record {
  read = if bit_and e.flags w.read_word == 0 then false else true;
  write = if bit_and e.flags w.write_word == 0 then false else true;
  once = false;
})

same_flags :
    (w : FilterWords) (es : List Kevent) (i : ℕ) → flags_at w (exchanged es) i ≡ flags_at w es i
same_flags w [] i = refl
same_flags w (e ∷ es) zero = refl
same_flags w (e ∷ es) (suc i) = same_flags w es i

length-exchanged : (es : List Kevent) → length (exchanged es) ≡ length es
length-exchanged [] = refl
length-exchanged (e ∷ es) = ap suc (length-exchanged es)

-- The documented values: -1 for EVFILT_READ and -2 for EVFILT_WRITE.
abbrev pub documented : FilterWords
documented = record { read_word = 0xFFFFFFFF; write_word = 0xFFFFFFFE }

-- Whether a bit of `n` is in `w` exactly when `n` is above `k`.
abbrev agrees : ℕ → ℕ → ℕ → Bool
agrees w k n = if ltb k n then not (bit_and n w == 0) else (bit_and n w == 0)

agrees-true :
    (w k n : ℕ) → agrees w k n ≡ true → (if bit_and n w == 0 then false else true) ≡ ltb k n
agrees-true w k n h = elim (Bool-cases (ltb k n)) [
  | inl above ↦ elim (Bool-cases (bit_and n w == 0)) [
    | inl z ↦ absurd (let e = rw (above, z) at h in cc)
    | inr z ↦ rw (above, z) refl
  ]
  | inr below ↦ elim (Bool-cases (bit_and n w == 0)) [
    | inl z ↦ rw (below, z) refl
    | inr z ↦ absurd (let e = rw (below, z) at h in cc)
  ]
]

agrees_table :
    every 256
      (λ h. every 256 (λ l. agrees 0xFFFFFFFF 0 (256 * h + l) && agrees 0xFFFFFFFE 1 (256 * h + l)))
    ≡ true
unfolding every
agrees_table = refl

both : (b c : Bool) → (b && c) ≡ true → (b ≡ true) × (c ≡ true)
both true c h = (refl, h)
both false c h = absurd (cc)

agrees_word : (n : ℕ) → n < 65536 → (agrees 0xFFFFFFFF 0 n ≡ true) × (agrees 0xFFFFFFFE 1 n ≡ true)
agrees_word n h =
    let split : 256 * (n / 256) + n % 256 ≡ n = omega arith in
    let found =
      every-true 256
        (λ l.
          agrees 0xFFFFFFFF 0 (256 * (n / 256) + l) && agrees 0xFFFFFFFE 1 (256 * (n / 256) + l))
        (n % 256)
        (every-true 256
          (λ h.
            every 256 (λ l. agrees 0xFFFFFFFF 0 (256 * h + l) && agrees 0xFFFFFFFE 1 (256 * h + l)))
          (n / 256) agrees_table (omega (arith, h)))
        (omega arith) in
    subst (λ m. (agrees 0xFFFFFFFF 0 m ≡ true) × (agrees 0xFFFFFFFE 1 m ≡ true)) split
      (both _ _ found)

kevent_at-some :
    (p : KqueuePoller) (i : ℕ) (e : Kevent)
    → get_elem? p.event_list i ≡ some e
    → kevent_at p i ≡ done e
unfolding kevent_at
kevent_at-some p i e here = rw (kevent_at, here) refl

reported :
    (p : KqueuePoller) (i : ℕ) (e : Kevent)
    → kevent_at p i ≡ done e
    → e.flags < 65536
    → get_event_triger_flag documented p i
      ≡ done (record { read = ltb 0 e.flags; write = ltb 1 e.flags; once = false })
unfolding get_event_triger_flag
reported p i e here small =
    let (r, w) = agrees_word e.flags small in
    rw here (
      ap
        (λ x. done (record {
          read = x;
          write = if bit_and e.flags 0xFFFFFFFE == 0 then false else true;
          once = false;
        }))
        (agrees-true 0xFFFFFFFF 0 e.flags r)
      ∙ ap (λ x. done (record { read = ltb 0 e.flags; write = x; once = false }))
          (agrees-true 0xFFFFFFFE 1 e.flags w))

-- getEventTrigerFlag, with the documented values of the filters, reports that a socket is readable
-- when any flag of its event is set and that it is writable when one other than the first is set,
-- whichever filter the event is of: it reports the same when the filters of all events are exchanged.
-- The index is that of an event, and its flags are 16 bits.
pub get_event_triger_flag-ignores_filter :
    (p : KqueuePoller) (i : ℕ) (e : Kevent)
    → get_elem? p.event_list i ≡ some e
    → e.flags < 2 ^ 16
    → (get_event_triger_flag documented p i
        ≡ done (record { read = ltb 0 e.flags; write = ltb 1 e.flags; once = false }))
      × (get_event_triger_flag documented (record p { event_list = exchanged p.event_list }) i
          ≡ get_event_triger_flag documented p i)
unfolding get_event_triger_flag kevent_at
get_event_triger_flag-ignores_filter p i e here small =
    (reported p i e (kevent_at-some p i e here) small, same_flags documented p.event_list i)

-- The timeout of pollGetEvents in nanoseconds, and what is missing of the time in milliseconds.
timeout_short :
    (time : ℕ)
    → (timeout time).0 * 1000000000 + (timeout time).1 + time % 1000 * 999000 ≡ time * 1000000
unfolding timeout
timeout_short time = omega arith
