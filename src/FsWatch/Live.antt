-- ===== src/FsWatch/Live.antt =====
-- The steps of a watch in src/fs_watch.c: `watch_on_io`, `read_push`, `read_timeout`,
-- `l_watch_read` and `watch_release`.
pub mod Steps
use kuu.Prelude.{
  ℕ, zero, suc, ◌+◌, ◌-◌, ◌≤◌, ◌<◌, ◌≡◌, refl, ap, sym, ◌∙◌, Bool, true, false, not, List, [], ◌∷◌,
  ◌++◌, Option, some, none, ltb, leb, ◌==◌, ◌&&◌, if◌then◌else◌, Bytes, length, length-append,
  arith, Bool-cases, by_if, inl, inr, ◌⊎◌,
}
use kuu.FsWatch.{WatchEvent, Watch, wake_all, wake_one, watch_maybe_free, post_read}
use kuu.FsWatch.Batch.{parse_batch}
use kuu.FsWatch.Batch.Bounds.{Kept, parse_batch-Kept}
use kuu.FsWatch.Drain.{drain_events}

-- The completion of a read with that many bytes, or with an error other than 0. `post` is what the
-- next read's start comes to.
unfoldable pub on_io : (ℕ → Bool) → (Bytes → Option Bytes) → Bytes → ℕ → Option ℕ → Watch → Watch
on_io alloc to_utf8 buffer error post w =
    let done_io = record w { io = false } in
    let next = post_read post (parse_batch alloc to_utf8 done_io buffer) in
    if w.closed
    then watch_maybe_free (record done_io { stopped = true })
    else (if error == 0
        then (if next.stopped
            then wake_all next
            else (if ltb 0 (length next.events) then wake_one next else next))
        else wake_all (record done_io { error = error; stopped = true }))

-- What a reader is told: the events, or the code of an FS error.
pub data Read : Type 0 where
  changes : List WatchEvent → Read
  timed_out : Read
  watch_closed : Read
  failed_with : ℕ → Read
  no_events : Read

abbrev pub rest_of : List ℕ → List ℕ
rest_of [] = []
rest_of (t ∷ rest) = rest

-- The reader that `read_push` runs for is the first of those that are resumed.
abbrev pub resumed_one : Watch → Watch
resumed_one w = record w { woken = w.woken - 1; resumed = rest_of w.resumed }

unfoldable pub read_push : Watch → Watch × Read
read_push w =
    let back = resumed_one w in
    let (events, drained) = drain_events back in
    if w.closed
    then (watch_maybe_free back, watch_closed)
    else if ltb 0 (length w.events)
    then (watch_maybe_free drained, changes events)
    else if w.stopped
    then (watch_maybe_free back, failed_with w.error)
    else (watch_maybe_free back, no_events)

unfoldable pub remove : ℕ → List ℕ → List ℕ
remove t [] = []
remove t (u ∷ line) = let rest = remove t line in if u == t then line else u ∷ rest

unfoldable pub read_timeout : ℕ → Watch → Watch
read_timeout t w = record w { waiters = remove t w.waiters }

-- `none` where the reader `t` is parked at the end of the line.
unfoldable pub watch_read : ℕ → Watch → Watch × Option Read
watch_read t w =
    let (events, drained) = drain_events w in
    if ltb 0 (length w.events) && w.woken == 0
    then (drained, some (changes events))
    else if w.stopped
    then (w, some (failed_with w.error))
    else (record w { waiters = w.waiters ++ (t ∷ []) }, none)

-- ERROR_OPERATION_ABORTED is 995.
unfoldable pub watch_release : Watch → Watch
watch_release w =
    let ended = record w {
      closed = true;
      stopped = true;
      error = if w.error == 0 then 995 else w.error;
    } in
    if w.closed then w else watch_maybe_free (wake_all ended)

-- What may happen to a watch, with the states in which it may.
pub data Step (alloc : ℕ → Bool) (to_utf8 : Bytes → Option Bytes) : Watch → Watch → Type 0 where
  io_step :
      (w : Watch) (buffer : Bytes) (error : ℕ) (post : Option ℕ)
      → w.io ≡ true
      → Step alloc to_utf8 w (on_io alloc to_utf8 buffer error post w)
  push_step : (w : Watch) → 0 < length w.resumed → Step alloc to_utf8 w (read_push w).0
  timeout_step :
      (w : Watch) (t : ℕ) → 0 < length w.waiters → Step alloc to_utf8 w (read_timeout t w)
  read_step : (w : Watch) (t : ℕ) → w.closed ≡ false → Step alloc to_utf8 w (watch_read t w).0
  release_step : (w : Watch) → w.closed ≡ false → Step alloc to_utf8 w (watch_release w)

-- Readers wait only while there is nothing for them, or another reader is on its way to it; none
-- waits for a watch that has stopped; and what is freed is in nobody's hands.
pub record IsLive (w : Watch) : Type 0 where
  pub served : 0 < length w.events → 0 < length w.waiters → 0 < w.woken
  pub quiet : w.stopped ≡ true → length w.waiters ≡ 0
  pub counted : w.woken ≡ length w.resumed
  pub ended : w.closed ≡ true → w.stopped ≡ true
  pub last : w.freed ≡ true → (w.closed ≡ true) × (w.io ≡ false) × (w.woken ≡ 0)

-- What `ku_fs_watch` makes: the first read is posted.
abbrev pub new_watch : Bool → Watch
new_watch raw = record {
  raw = raw;
  events = [];
  capacity = 0;
  dropped = 0;
  closed = false;
  stopped = false;
  error = 0;
  pending_old = none;
  io = true;
  waiters = [];
  resumed = [];
  woken = 0;
  freed = false;
}

-- The states of a watch that steps reach.
pub data Run (alloc : ℕ → Bool) (to_utf8 : Bytes → Option Bytes) (raw : Bool) : Watch → Type 0 where
  start : Run alloc to_utf8 raw (new_watch raw)
  next :
      (w w' : Watch) → Run alloc to_utf8 raw w → Step alloc to_utf8 w w' → Run alloc to_utf8 raw w'
