-- ===== src/Loop.antt =====
-- src/loop.c: the ready queue, the requests, the waiters. Drivers, waiters and requests are numbers, and their
-- fields functions of those; the timer of a waiter has the waiter's number. The heap is that of Timers.
pub mod Waiting
pub mod Pump
pub mod Steps
pub mod Places
pub mod Rounds
pub mod Deadlock
pub mod Waking
pub mod Several
mod Examples
use kuu.Prelude.{
  ℕ, zero, suc, ◌+◌, ◌-◌, Bool, true, false, List, [], ◌∷◌, ◌++◌, Option, none, some, if◌then◌else◌,
  not, ◌||◌, ◌==◌,
}
use kuu.Timers.{Timers, update, timer_init, timer_cancel}

pub data Status : Type 0 where
  ok : Status
  errored : Status

-- `ku_driver`; it is started when its coroutine is set.
pub record Driver : Type 0 where
  pub started : Bool
  pub finished : Bool
  pub status : Status

-- `ku_waiter`. `driver` is the one parked on it; the hook `on_wake`, where it has one, is that of the wait
-- on several children with this number; `has_timeout` and `has_abandon` say whether the owner has those hooks. `value` is the field `data`, a snapshot of a child.
pub record Waiter : Type 0 where
  pub done : Bool
  pub timed_out : Bool
  pub raise : Bool
  pub driver : Option ℕ
  pub on_wake : Option ℕ
  pub has_timeout : Bool
  pub has_abandon : Bool
  pub deadline : Bool
  pub deadline_hit : Bool
  pub freed : Bool
  pub value : Option ℕ

-- `multi_wait` of src/proc.c: its waiters by their numbers, and the snapshots and children by theirs.
pub record Multi : Type 0 where
  pub main : ℕ
  pub need_all : Bool
  pub remaining : ℕ
  pub winner : Option ℕ
  pub subs : List ℕ
  pub children : ℕ → Option ℕ
  pub results : ℕ → Option ℕ

-- `fire` of a timer: `waiter_timer_fire`, or the function of another owner.
pub data Fire : Type 0 where
  of_waiter : Fire
  of_owner : Fire

-- `ku_io`: its owner, unless that is gone.
pub record Request : Type 0 where
  pub src : Option ℕ
  pub freed : Bool

-- The hooks by which an owner hears that it must forget a waiter.
pub data Hook : Type 0 where
  on_timeout : Hook
  on_abandon : Hook

-- `ku_loop`, with what its pointers lead to, and the hooks that it has called.
pub record Loop : Type 0 where
  pub ready : List (ℕ × ℕ)
  pub current : Option ℕ
  pub parked : Bool
  pub pending : ℕ
  pub timers : Timers
  pub driver : ℕ → Driver
  pub waiter : ℕ → Waiter
  pub request : ℕ → Request
  pub multi : ℕ → Multi
  pub fire : ℕ → Fire
  pub told : List (ℕ × Hook)

-- `memory` says whether malloc grants the entry; the Boolean is `true` for the return value 0.
unfoldable pub enqueue : Bool → Loop → ℕ → ℕ → Loop × Bool
enqueue memory l d nargs =
    if memory then (record l { ready = l.ready ++ (d, nargs) ∷ [] }, true) else (l, false)

-- `ku_driver_start`, where the stack of the coroutine has room.
unfoldable pub driver_start : Bool → Loop → ℕ → ℕ → Loop × Bool
driver_start memory l d nargs =
    let new : Driver = record { started = true; finished = false; status = ok } in
    enqueue memory (record l { driver = update l.driver d new }) d nargs

-- `ku_io_new` with memory, for a number that no request has.
unfoldable pub io_new : Loop → ℕ → ℕ → Loop
io_new l i src = record l {
  request = update l.request i (record { src = some src; freed = false });
}

unfoldable pub io_posted : Loop → Loop
io_posted l = record l { pending = l.pending + 1 }

unfoldable pub io_orphan : Loop → ℕ → Loop
io_orphan l i = record l { request = update l.request i (record (l.request i) { src = none }) }

unfoldable pub io_free : Loop → ℕ → Loop
io_free l i = record l { request = update l.request i (record (l.request i) { freed = true }) }

unfoldable pub loop_expect : Loop → Loop
loop_expect l = record l { pending = l.pending + 1 }

-- Subtraction stops at 0, as the guard has it.
unfoldable pub loop_received : Loop → Loop
loop_received l = record l { pending = l.pending - 1 }

abbrev pub new_waiter : Waiter
new_waiter = record {
  done = false;
  timed_out = false;
  raise = false;
  driver = none;
  on_wake = none;
  has_timeout = false;
  has_abandon = false;
  deadline = false;
  deadline_hit = false;
  freed = false;
  value = none;
}

-- `ku_waiter_new` with memory, for a number that no waiter has.
unfoldable pub waiter_new : Loop → ℕ → Loop
waiter_new l w = record l {
  waiter = update l.waiter w new_waiter;
  timers = timer_init l.timers w;
  fire = update l.fire w of_waiter;
}

unfoldable pub set_waiter : Loop → ℕ → Waiter → Loop
set_waiter l w v = record l { waiter = update l.waiter w v }

-- The end of `ku_wake`.
unfoldable pub resume_waiting : Bool → Loop → ℕ → Loop
resume_waiting memory l w = elim ((l.waiter w).driver) [
  | none ↦ l
  | some d ↦ (enqueue memory l d 0).0
]

-- The beginning of `ku_wake` on a waiter that is not done.
unfoldable pub mark_done : Loop → ℕ → Loop
mark_done l w = record (set_waiter l w (record (l.waiter w) { done = true })) {
  timers = timer_cancel l.timers w;
}

-- `ku_wake` on a waiter without the hook `on_wake`.
unfoldable pub wake_alone : Bool → Loop → ℕ → Loop
wake_alone memory l w = if (l.waiter w).done then l else resume_waiting memory (mark_done l w) w

-- The index of a waiter among those of a wait, from `i` on.
unfoldable pub index_from : List ℕ → ℕ → ℕ → Option ℕ
index_from [] w i = none
index_from (v ∷ subs) w i = let rest = index_from subs w (i + 1) in if v == w then some i else rest

-- What `multi_sub_woken` records of the child at index `i`, whose waiter is woken.
unfoldable pub record_child : Loop → ℕ → ℕ → ℕ → Loop
record_child l sub k i =
    let m = l.multi k in
    record (set_waiter l sub (record (l.waiter sub) { value = none })) {
      multi = update l.multi k (record m {
        results = update m.results i (l.waiter sub).value;
        children = update m.children i none;
        remaining = m.remaining - 1;
        winner = elim (m.winner) [ none ↦ some i | some first ↦ some first ];
      });
    }

-- `multi_sub_woken` of src/proc.c. The waiter that it wakes has no hook itself. A child that was the one
-- remaining leaves none; a wait with none remaining is not asked for all of them again.
unfoldable pub multi_sub_woken : Bool → Loop → ℕ → ℕ → Loop
multi_sub_woken memory l sub k =
    let m = l.multi k in
    elim (index_from m.subs sub 0) [
      | none ↦ l
      | some i ↦
          if not m.need_all || m.remaining == 1
          then wake_alone memory (record_child l sub k i) m.main
          else record_child l sub k i
    ]

-- `ku_wake`. The one hook `on_wake` that the sources have is `multi_sub_woken`.
unfoldable pub wake : Bool → Loop → ℕ → Loop
wake memory l w =
    let m = mark_done l w in
    let woken : Loop = elim ((l.waiter w).on_wake) [
      | none ↦ m
      | some k ↦ multi_sub_woken memory m w k
    ] in
    if (l.waiter w).done then l else resume_waiting memory woken w

-- The owner forgets the waiter: `on_abandon`, or `on_timeout` in its place.
unfoldable pub forget : Loop → ℕ → Loop
forget l w =
    let v = l.waiter w in
    if v.has_abandon
    then record l { told = (w, on_abandon) ∷ l.told }
    else if v.has_timeout
    then record l { told = (w, on_timeout) ∷ l.told }
    else l

-- `waiter_timer_fire`
unfoldable pub waiter_timer_fire : Bool → Loop → ℕ → Loop
waiter_timer_fire memory l w =
    let v = l.waiter w in
    let late = record v {
      timed_out = true;
      deadline_hit = if v.deadline then true else v.deadline_hit;
    } in
    let m = set_waiter l w late in
    let told =
      if late.deadline_hit
      then forget m w
      else if late.has_timeout
      then record m { told = (w, on_timeout) ∷ m.told }
      else m in
    wake memory told w
