-- ===== src/Loop/Pump.antt =====
-- `resume_driver`, `drain_ready`, `dispatch`, `pump_once` and `ku_loop_run` of src/loop.c. The coroutines, the owners'
-- callbacks, the clock and the completion port are the record `World`.
use kuu.Prelude.{
  ℕ, zero, suc, ◌+◌, ◌-◌, Bool, true, false, ◌&&◌, ◌||◌, List, [], ◌∷◌, Option, none, some, ltb,
  leb, if◌then◌else◌, min,
}
use kuu.Timers.{key, update, timer_cancel}
use kuu.Loop.{
  Status, ok, errored, Loop, io_free, loop_received, waiter_timer_fire, of_waiter, of_owner,
}

-- How lua_resume comes back: at a yield, at the end with a number of results, or with an error.
pub data Outcome : Type 0 where
  yielded : Outcome
  returned : ℕ → Outcome
  threw : Outcome

-- A packet of the port: without a source, a message of a job or of another thread to a source, or the
-- end of a request, if it has one.
pub data Packet : Type 0 where
  unsourced : Packet
  of_job : ℕ → Packet
  of_thread : ℕ → Packet
  of_request : Option ℕ → Packet

-- `resume` is lua_resume on a driver's coroutine, with all that the coroutine does until it comes back;
-- `none` waits without an end for packets. `on_timer` is `fire` of a timer that is not a waiter's, such as
-- `child_deadline` of src/proc.c and `http_deadline` of src/http.c.
pub record World : Type 0 where
  pub memory : Bool
  pub now : Loop → ℕ
  pub resume : ℕ → ℕ → Loop → Loop × Outcome
  pub on_finish : ℕ → ℕ → Loop → Loop
  pub on_job : ℕ → Loop → Loop
  pub on_posted : ℕ → Loop → Loop
  pub on_timer : ℕ → Loop → Loop
  pub on_io : ℕ → ℕ → Loop → Loop
  pub packets : Option ℕ → Loop → List Packet

unfoldable pub finish : World → Loop → ℕ → Status → ℕ → Loop
finish W l d status nresults =
    let over = record (l.driver d) { finished = true; status = status } in
    W.on_finish d nresults (record l { driver = update l.driver d over })

-- `resume_driver` behind lua_resume; `parked` is what the coroutine left.
unfoldable pub after_resume : World → Loop → ℕ → Bool → Outcome → Loop
after_resume W l d true yielded = l
after_resume W l d false yielded = finish W l d errored 1
after_resume W l d parked (returned nresults) = finish W l d ok nresults
after_resume W l d parked threw = finish W l d errored 1

unfoldable pub resume_driver : World → Loop → ℕ → ℕ → Loop
resume_driver W l d nargs =
    let (m, outcome) = W.resume d nargs (record l { current = some d; parked = false }) in
    after_resume W (record m { current = l.current; parked = l.parked }) d m.parked outcome

-- `drain_ready`; `none` is a loop that the fuel ends, for coroutines may start others without an end.
unfoldable pub drain_ready : World → ℕ → Loop → Option Loop
drain_ready W zero l = none
drain_ready W (suc fuel) l = elim (l.ready) [
  | [] ↦ some l
  | (d, nargs) ∷ rest ↦ drain_ready W fuel (resume_driver W (record l { ready = rest }) d nargs)
]

-- The earliest timer is cancelled, and fires.
unfoldable pub fire_first : World → Loop → Loop
fire_first W l =
    let t = l.timers.slot 0 in
    let m : Loop = record l { timers = timer_cancel l.timers t } in
    elim (l.fire t) [ of_waiter ↦ waiter_timer_fire W.memory m t | of_owner ↦ W.on_timer t m ]

-- The loop of `fire_due_timers`, with fuel for its rounds.
unfoldable pub fire_loop : World → ℕ → ℕ → Loop → Loop
fire_loop W zero now l = l
fire_loop W (suc fuel) now l = elim (ltb 0 l.timers.len && leb (key l.timers 0) now) [
  | false ↦ l
  | true ↦ fire_loop W fuel now (fire_first W l)
]

-- A round takes a timer from the heap.
unfoldable pub fire_due_timers : World → Loop → Loop
fire_due_timers W l = fire_loop W (l.timers.len + 1) (W.now l) l

unfoldable pub dispatch : World → Loop → Packet → Loop
dispatch W l unsourced = l
dispatch W l (of_job src) = W.on_job src l
dispatch W l (of_thread src) = W.on_posted src l
dispatch W l (of_request none) = l
dispatch W l (of_request (some i)) =
    let m = loop_received l in
    elim ((l.request i).src) [ none ↦ io_free m i | some src ↦ W.on_io src i m ]

unfoldable pub dispatch_all : World → Loop → List Packet → Loop
dispatch_all W l [] = l
dispatch_all W l (packet ∷ packets) = dispatch_all W (dispatch W l packet) packets

unfoldable pub has_ready : Loop → Bool
has_ready l = elim (l.ready) [ [] ↦ false | e ∷ rest ↦ true ]

-- The rest of `pump_once` behind the wait.
unfoldable pub take_packets : World → Option ℕ → Loop → Loop
take_packets W wait l = fire_due_timers W (dispatch_all W l (W.packets wait l))

-- `pump_once` behind the ready coroutines and the due timers; the Boolean is `false` for -1.
unfoldable pub wait_packets : World → (Loop → Bool) → Loop → Loop × Bool
wait_packets W stop l =
    if has_ready l || stop l
    then (l, true)
    else if ltb 0 l.timers.len
    then (take_packets W (some (min (key l.timers 0 - W.now l) 2147483647)) l, true)
    else if ltb 0 l.pending
    then (take_packets W none l, true)
    else (l, false)

unfoldable pub pump_once : World → ℕ → (Loop → Bool) → Loop → Option (Loop × Bool)
pump_once W fuel stop l = elim (drain_ready W fuel l) [
  | none ↦ none
  | some m ↦ some (wait_packets W stop (fire_due_timers W m))
]

abbrev pub is_finished : ℕ → Loop → Bool
is_finished main l = (l.driver main).finished

-- `ku_loop_run`; the Boolean is `false` for -1.
unfoldable pub loop_run : World → ℕ → ℕ → Loop → Option (Loop × Bool)
loop_run W zero main l = none
loop_run W (suc fuel) main l = elim (is_finished main l) [
  | true ↦ some (l, true)
  | false ↦ elim (pump_once W fuel (is_finished main) l) [
    | none ↦ none
    | some (m, true) ↦ loop_run W fuel main m
    | some (m, false) ↦ if is_finished main m then some (m, true) else some (m, false)
  ]
]
