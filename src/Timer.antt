-- ===== src/Timer.antt =====
-- code/ChainSocket/Timer.h and Timer.cpp: timers, and the binary heap of their expiry times.
-- Timers are kept in a store under numbers that stand for their addresses, since the heap and the
-- owner of a timer share it. What a timer calls is a parameter, which may change the manager.
pub mod Heap
pub mod Wiring
pub mod Sift
pub mod Schedule
pub mod Remove
pub mod Control
pub mod Fire
pub mod Detect
pub mod New
mod Tests
use chain_socket.Base.{
  ℕ, zero, suc, ◌+◌, ◌-◌, ◌*◌, ◌/◌, ◌%◌, ◌^◌, Bool, true, false, List, [], ◌∷◌, ◌++◌, Option, none,
  some, ltb, leb, ◌==◌, ◌&&◌, not, if◌then◌else◌, length, get_elem?, set, take,
}
use chain_socket.Base.Outcome.{Outcome, done, fault, no_fuel, ◌>>=◌}

-- `size_t` and `unsigned long long` have 64 bits; `heapIndex_` is -1 for a timer that is not set.
abbrev pub u64 : ℕ → ℕ
u64 n = n % 2 ^ 64

abbrev pub npos : ℕ
npos = 2 ^ 64 - 1

pub data TimerType : Type 0 where
  once circle : TimerType

pub record HeapEntry : Type 0 where
  pub time : ℕ
  pub timer : ℕ

-- `timer_fun` is the name of the function to call.
pub record Timer : Type 0 where
  pub timer_type : TimerType
  pub timer_fun : ℕ
  pub interval : ℕ
  pub expires : ℕ
  pub heap_index : ℕ

pub record TimerManager : Type 0 where
  pub heap : List HeapEntry
  pub timers : ℕ → Timer

-- `*timer = v`
abbrev pub store : TimerManager → ℕ → Timer → TimerManager
store m t v = record m { timers = λ u. if u == t then v else m.timers u }

abbrev pub set_index : TimerManager → ℕ → ℕ → TimerManager
set_index m t i = store m t (record (m.timers t) { heap_index = i })

-- `heap_[i]`, undefined past the end.
pub entry : List HeapEntry → ℕ → Outcome HeapEntry
entry h i = elim (get_elem? h i) [ none ↦ fault | some e ↦ done e ]

abbrev pub parent : ℕ → ℕ
parent i = (i - 1) / 2

-- The constructor of a timer leaves all but the index uninitialised.
pub new_timer : Timer → Timer
new_timer garbage = record garbage { heap_index = npos }

-- The wall clock, from what gettimeofday reports.
pub get_current_millisecs : ℕ → ℕ → ℕ
get_current_millisecs sec usec = u64 (u64 (u64 sec * 1000) + usec / 1000)

pub swap_heap : TimerManager → ℕ → ℕ → Outcome TimerManager
swap_heap m i j = do
  tmp ← entry m.heap i
  other ← entry m.heap j
  let moved = record m { heap = set (set m.heap i other) j tmp }
  first ← entry moved.heap i
  let m1 = set_index moved first.timer i
  second ← entry m1.heap j
  done (set_index m1 second.timer j)

-- `heap_[i].time < heap_[j].time`
pub earlier : List HeapEntry → ℕ → ℕ → Outcome Bool
earlier h i j = do x ← entry h i; y ← entry h j; done (ltb x.time y.time)

up_loop : ℕ → TimerManager → ℕ → Outcome TimerManager
up_loop zero m i = no_fuel
up_loop (suc f) m i =
    let rise : Outcome TimerManager = swap_heap m i (parent i) >>= λ m'. up_loop f m' (parent i) in
    if ltb 0 i
    then (earlier m.heap i (parent i) >>= λ less. if less then rise else done m)
    else done m

pub up_heap : TimerManager → ℕ → Outcome TimerManager
up_heap m i = up_loop (suc i) m i

pub min_child : List HeapEntry → ℕ → Outcome ℕ
min_child h child =
    if child + 1 == length h
    then done child
    else (earlier h child (child + 1) >>= λ less. done (if less then child else child + 1))

down_loop : ℕ → TimerManager → ℕ → Outcome TimerManager
down_loop zero m i = no_fuel
down_loop (suc f) m i =
    let step : Outcome TimerManager = (do
      child ← min_child m.heap (i * 2 + 1)
      settled ← earlier m.heap i child
      let sink = swap_heap m i child >>= λ m'. down_loop f m' child
      if settled then done m else sink) in
    if ltb (i * 2 + 1) (length m.heap) then step else done m

pub down_heap : TimerManager → ℕ → Outcome TimerManager
down_heap m i = down_loop (suc (length m.heap)) m i

pub add_timer : TimerManager → ℕ → Outcome TimerManager
add_timer m t =
    let n = length m.heap in
    let m1 = set_index m t n in
    let fresh : HeapEntry = record { time = (m1.timers t).expires; timer = t } in
    up_heap (record m1 { heap = m.heap ++ fresh ∷ [] }) (length (m.heap ++ fresh ∷ []) - 1)

pop_back : TimerManager → TimerManager
pop_back m = record m { heap = take (length m.heap - 1) m.heap }

-- The last lines of RemoveTimer: the entry moved to `index` finds its place.
pub resettle : TimerManager → ℕ → Outcome TimerManager
resettle m index =
    (if ltb 0 index then earlier m.heap index (parent index) else done false) >>= λ less.
    if less then up_heap m index else down_heap m index

pub remove_timer : TimerManager → ℕ → Outcome TimerManager
remove_timer m t =
    let index = (m.timers t).heap_index in
    let last = length m.heap - 1 in
    if not (length m.heap == 0) && ltb index (length m.heap)
    then (if index == last
        then done (pop_back m)
        else (swap_heap m index last >>= λ m'. resettle (pop_back m') index))
    else done m

pub stop : TimerManager → ℕ → Outcome TimerManager
stop m t =
    if (m.timers t).heap_index == npos
    then done m
    else (do m' ← remove_timer m t; done (set_index m' t npos))

-- `now` is what GetCurrentMillisecs returns.
pub start : TimerManager → ℕ → ℕ → ℕ → TimerType → ℕ → Outcome TimerManager
start m t fun interval type now = do
  m1 ← stop m t
  add_timer
      (store m1 t (record (m1.timers t) {
        interval = interval;
        timer_fun = fun;
        timer_type = type;
        expires = u64 (interval + now);
      }))
      t

-- What a call of a timer's function does to the manager: `call fun timer`.
abbrev pub Callback : Type 0
Callback = ℕ → ℕ → TimerManager → TimerManager

rearm : TimerManager → ℕ → ℕ → TimerType → Outcome TimerManager
rearm m t now circle =
    let tm = m.timers t in add_timer (store m t (record tm { expires = u64 (tm.interval + now) })) t
rearm m t now once = done (set_index m t npos)

pub on_timer : Callback → TimerManager → ℕ → ℕ → Outcome TimerManager
on_timer call m t now = do
  m' ← rearm m t now (m.timers t).timer_type
  done (call (m'.timers t).timer_fun t m')

-- The result is converted to an `int`: these are its 32 bits. `fuel` bounds the rounds.
pub detect_timers : ℕ → Callback → TimerManager → ℕ → Outcome (ℕ × TimerManager)
detect_timers zero call m now = no_fuel
detect_timers (suc f) call m now =
    let next : Outcome (ℕ × TimerManager) = (do
      top ← entry m.heap 0
      let fire : Outcome (ℕ × TimerManager) = (do
        m1 ← remove_timer m top.timer
        m2 ← on_timer call m1 top.timer now
        detect_timers f call m2 now)
      if leb top.time now then fire else done ((top.time - now) % 2 ^ 32, m)) in
    if length m.heap == 0 then done (10, m) else next
