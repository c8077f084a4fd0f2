-- ===== src/FsWatch.antt =====
-- src/fs_watch.c: the queue of a watch, its readers and its end. A reader is a number. A reader
-- that is woken stands in `resumed` until `read_push` runs for it. `freed` says that `watch_free` ran.
pub mod Batch
pub mod Drain
pub mod Live
mod Examples
use kuu.Prelude.{
  ℕ, zero, suc, ◌+◌, ◌-◌, ◌*◌, Bool, true, false, not, List, [], ◌∷◌, ◌++◌, Option, some, none, ltb,
  leb, ◌==◌, ◌&&◌, if◌then◌else◌, Bytes, length,
}

-- The actions 1 to 5.
pub data Action : Type 0 where
  added : Action
  removed : Action
  modified : Action
  renamed : Action
  overflow : Action

pub record WatchEvent : Type 0 where
  pub action : Action
  pub path : Bytes
  pub old_path : Option Bytes

pub record Watch : Type 0 where
  pub raw : Bool
  pub events : List WatchEvent
  pub capacity : ℕ
  pub dropped : ℕ
  pub closed : Bool
  pub stopped : Bool
  pub error : ℕ
  pub pending_old : Option Bytes
  pub io : Bool
  pub waiters : List ℕ
  pub resumed : List ℕ
  pub woken : ℕ
  pub freed : Bool

-- KU_WATCH_QUEUE_MAX
abbrev pub queue_max : ℕ
queue_max = 8192

unfoldable pub wake_all : Watch → Watch
wake_all w = record w {
  waiters = [];
  resumed = w.resumed ++ w.waiters;
  woken = w.woken + length w.waiters;
}

unfoldable pub wake_one : Watch → Watch
wake_one w = elim (w.waiters) [
  | [] ↦ w
  | t ∷ rest ↦
      if w.woken == 0
      then record w { waiters = rest; resumed = w.resumed ++ (t ∷ []); woken = w.woken + 1 }
      else w
]

unfoldable pub watch_maybe_free : Watch → Watch
watch_maybe_free w = if w.closed && not w.io && w.woken == 0 then record w { freed = true } else w

-- `alloc` says whether realloc grants that many events.
unfoldable pub push_event : (ℕ → Bool) → Watch → Action → Bytes → Option Bytes → Watch
push_event alloc w action path old_path =
    let next = if w.capacity == 0 then 64 else w.capacity * 2 in
    let lost = record w { dropped = w.dropped + 1 } in
    let events = w.events ++ (record { action = action; path = path; old_path = old_path } ∷ []) in
    if leb queue_max (length w.events)
    then lost
    else if length w.events == w.capacity
    then (if alloc next then record w { events = events; capacity = next } else lost)
    else record w { events = events }

-- What the start of a read comes to: posted, or the error that keeps it from that.
unfoldable pub post_read : Option ℕ → Watch → Watch
post_read none w = record w { io = true }
post_read (some error) w = record w { io = false; error = error; stopped = true }
