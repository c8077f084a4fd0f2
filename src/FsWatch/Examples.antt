-- ===== src/FsWatch/Examples.antt =====
-- Tests of src/fs_watch.c, and the theorems on a watch at concrete inputs.
use Prim.Native.String.{String}
use kuu.Prelude.{
  ℕ, ◌+◌, ◌<◌, ◌≡◌, refl, Bool, true, false, [], ◌∷◌, Option, some, none, Bytes, codes, length,
  equal, arith,
}
use kuu.FsWatch.{
  Action, added, removed, modified, overflow, WatchEvent, Watch, wake_all, wake_one,
  watch_maybe_free, push_event, post_read,
}
use kuu.FsWatch.Batch.{
  byte_at, dword_at, slashes, relative_utf8, take_record, take_named, batch_step, batch_loop,
  parse_batch,
}
use kuu.FsWatch.Batch.Bounds.{Kept, parse_batch-Kept, batch_loop_fuel}
use kuu.FsWatch.Drain.{
  rank, merged, merge_into, coalesce, drain_events, top_rank, AreDistinct, drain_events-coalesced,
}
use kuu.FsWatch.Live.{
  on_io, changes, read_push, remove, read_timeout, watch_read, watch_release, Step, io_step,
  push_step, read_step, release_step, IsLive, new_watch, Run, start, next,
}
use kuu.FsWatch.Live.Steps.{Run-IsLive, Run-freed}

abbrev grants : ℕ → Bool
grants n = true

abbrev same : Bytes → Option Bytes
same name = some name

-- One record: `a\b` was added.
abbrev buffer : Bytes
buffer = 0 ∷ 0 ∷ 0 ∷ 0 ∷ 1 ∷ 0 ∷ 0 ∷ 0 ∷ 4 ∷ 0 ∷ 0 ∷ 0 ∷ 97 ∷ 92 ∷ 98 ∷ 99 ∷ []

abbrev event : Action → String → WatchEvent
event action path = record { action = action; path = codes path; old_path = none }

abbrev fresh : Watch
fresh = new_watch false

parse_batch_test :
    ((parse_batch grants same fresh buffer).events ≡ event added "a/bc" ∷ [])
    × ((parse_batch grants same fresh []).events ≡ event overflow "" ∷ [])
    × ((parse_batch grants same fresh []).dropped ≡ 1)
    × ((parse_batch grants same fresh (0 ∷ 0 ∷ 0 ∷ 0 ∷ 1 ∷ 0 ∷ 0 ∷ 0 ∷ 9 ∷ 0 ∷ 0 ∷ 0 ∷ [])).dropped
        ≡ 1)
unfolding parse_batch batch_loop batch_step take_named take_record relative_utf8 slashes dword_at
    byte_at push_event
parse_batch_test = (refl, refl, refl, refl)

-- Events on two paths.
abbrev queued : Watch
queued = record fresh {
  events = event added "a" ∷ event modified "b" ∷ event removed "a" ∷ event modified "a" ∷ [];
}

drain_events_test : (drain_events queued).0 ≡ event removed "a" ∷ event modified "b" ∷ []
unfolding drain_events coalesce merge_into merged rank equal
drain_events_test = refl

-- A reader parks, a change arrives, the reader takes it, and the handle is closed.
abbrev parked : Watch
parked = (watch_read 7 fresh).0

abbrev woken : Watch
woken = on_io grants same buffer 0 none parked

abbrev served : Watch
served = (read_push woken).0

abbrev released : Watch
released = watch_release served

abbrev freed : Watch
freed = on_io grants same [] 995 none released

run_test :
    (parked.waiters ≡ 7 ∷ [])
    × (woken.resumed ≡ 7 ∷ [])
    × ((read_push woken).1 ≡ changes (event added "a/bc" ∷ []))
    × (released.freed ≡ false)
    × (freed.freed ≡ true)
    × ((read_timeout 7 parked).waiters ≡ [])
unfolding watch_read on_io read_push watch_release read_timeout remove drain_events coalesce
    merge_into parse_batch batch_loop batch_step take_named take_record relative_utf8 slashes
    dword_at byte_at push_event post_read wake_one wake_all watch_maybe_free
run_test = (refl, refl, refl, refl, refl, refl)

parked-Run : Run grants same false parked
parked-Run = next fresh parked start (read_step fresh 7 refl)

woken-Run : Run grants same false woken
unfolding watch_read
woken-Run = next parked woken parked-Run (io_step parked buffer 0 none refl)

served-Run : Run grants same false served
served-Run = next woken served woken-Run (push_step woken some_resumed)
  where
    some_resumed : 0 < length woken.resumed
    some_resumed =
        unfold watch_read on_io drain_events parse_batch batch_loop batch_step take_named
          take_record relative_utf8 slashes dword_at byte_at push_event post_read wake_one in
        omega arith

released-Run : Run grants same false released
unfolding watch_read on_io drain_events read_push parse_batch batch_loop batch_step take_named
    take_record relative_utf8 slashes dword_at byte_at push_event post_read wake_one
    watch_maybe_free coalesce merge_into
released-Run = next served released served-Run (release_step served refl)

released_io : released.io ≡ true
unfolding watch_read on_io drain_events read_push watch_release wake_all parse_batch batch_loop
    batch_step take_named take_record relative_utf8 slashes dword_at byte_at push_event post_read
    wake_one watch_maybe_free coalesce merge_into
released_io = refl

freed-Run : Run grants same false freed
freed-Run = next released freed released-Run (io_step released [] 995 none released_io)

freed_freed : freed.freed ≡ true
freed_freed = run_test.4

Run-freed_example : ¬ (Step grants same freed freed)
Run-freed_example = Run-freed grants same false freed freed freed-Run freed_freed

Run-IsLive_example : IsLive woken
Run-IsLive_example = Run-IsLive grants same false woken woken-Run

parse_batch-Kept_example : Kept fresh (parse_batch grants same fresh buffer)
parse_batch-Kept_example = parse_batch-Kept grants same fresh buffer

batch_loop_fuel_example :
    batch_loop grants same (10 + 17) buffer 0 fresh ≡ batch_loop grants same 17 buffer 0 fresh
batch_loop_fuel_example =
    batch_loop_fuel grants same 17 10 buffer 0 fresh (omega arith) (omega arith)

drain_events-coalesced_example :
    AreDistinct (drain_events queued).0
    × ((path : Bytes) → top_rank path (drain_events queued).0 ≡ top_rank path queued.events)
drain_events-coalesced_example = drain_events-coalesced queued refl
