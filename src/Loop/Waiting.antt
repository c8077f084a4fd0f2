-- ===== src/Loop/Waiting.antt =====
-- `ku_wait` and `wait_finish` of src/loop.c. What a waiter pushes at its end is its owner's.
use kuu.Prelude.{ℕ, zero, suc, ◌-◌, Bool, true, false, not, Option, none, some, leb, if◌then◌else◌}
use kuu.Timers.{timer_arm, timer_cancel}
use kuu.Loop.{Loop, set_waiter, forget}

-- How a wait ends: raising SCHED deadlock or SCHED deadline, or with what the owner pushes, which is
-- raised or returned.
pub data Waited : Type 0 where
  deadlocked : Waited
  expired : Waited
  pushed : Bool → Waited

unfoldable pub free_waiter : Loop → ℕ → Loop
free_waiter l w = set_waiter l w (record (l.waiter w) { freed = true })

-- `wait_finish`. `raises` says whether the owner's push asks for its value to be raised.
unfoldable pub wait_finish : Bool → Loop → ℕ → Loop × Waited
wait_finish raises l w =
    let v = l.waiter w in
    let idle = record l { timers = timer_cancel l.timers w } in
    if not v.done
    then (free_waiter (forget idle w) w, deadlocked)
    else if v.deadline_hit
    then (free_waiter l w, expired)
    else (free_waiter l w, pushed raises)

-- The timeout that counts, and whether it is the enclosing deadline's, which is due at `due`.
unfoldable pub clip_timeout : ℕ → Option ℕ → Option ℕ → Option ℕ × Bool
clip_timeout now none timeout = (timeout, false)
clip_timeout now (some due) none = (some (due - now), true)
clip_timeout now (some due) (some t) =
    if leb (due - now) t then (some (due - now), true) else (some t, false)

-- What `ku_wait` does before it waits: it raises SCHED oserror, yields, or stays to wait in place.
pub data Begun : Type 0 where
  refused : Begun
  yields : Begun
  stays : Begun

-- The end of that: `here` is the driver whose coroutine runs, if it may yield.
unfoldable pub wait_park : Option ℕ → Loop → ℕ → Loop × Begun
wait_park here l w =
    let v = l.waiter w in
    if v.done then (set_waiter l w (record v { driver = none }), stays) else elim here [
      | none ↦ (set_waiter l w (record v { driver = none }), stays)
      | some d ↦ (record (set_waiter l w (record v { driver = some d })) { parked = true }, yields)
    ]

-- The timer, where there is a timeout.
unfoldable pub wait_arm : (ℕ → Bool) → ℕ → Option ℕ → Loop → ℕ → Option ℕ → Loop × Begun
wait_arm alloc now here l w none = wait_park here l w
wait_arm alloc now here l w (some t) =
    let (timers, armed) = timer_arm alloc now l.timers w t in
    let m = record l { timers = timers } in
    if armed then wait_park here m w else (free_waiter (forget m w) w, refused)

-- `ku_wait` up to the yield or the loop that waits in place.
unfoldable pub wait_begin :
    (ℕ → Bool) → ℕ → Option ℕ → Option ℕ → Loop → ℕ → Option ℕ → Loop × Begun
wait_begin alloc now due here l w timeout =
    let v = l.waiter w in
    let (clipped, deadline) = clip_timeout now due timeout in
    let m = set_waiter l w (record v { deadline = deadline }) in
    if v.done then wait_park here l w else wait_arm alloc now here m w clipped

-- The loop that waits in place, over the pump; `none` is a loop that the fuel ends.
unfoldable pub wait_loop : (Loop → Option (Loop × Bool)) → ℕ → Loop → ℕ → Option Loop
wait_loop pump zero l w = none
wait_loop pump (suc fuel) l w = elim ((l.waiter w).done) [
  | true ↦ some l
  | false ↦ elim (pump l) [
    | none ↦ none
    | some (m, false) ↦ some m
    | some (m, true) ↦ wait_loop pump fuel m w
  ]
]

-- What is left of `ku_wait` when it stays.
unfoldable pub wait_in_place :
    (Loop → Option (Loop × Bool)) → ℕ → Bool → Loop → ℕ → Option (Loop × Waited)
wait_in_place pump fuel raises l w = elim (wait_loop pump fuel l w) [
  | none ↦ none
  | some m ↦ some (wait_finish raises m w)
]
