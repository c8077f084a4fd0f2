-- ===== src/FsWatch/Batch.antt =====
-- `parse_batch` of src/fs_watch.c, on a buffer of bytes. A record has its four-byte fields at the
-- offsets 0 (the next one's), 4 (the action) and 8 (the length of the name), and the name at 12.
pub mod Bounds
use kuu.Prelude.{
  ℕ, zero, suc, ◌+◌, ◌-◌, ◌*◌, ◌/◌, ◌%◌, ◌≤◌, ◌<◌, ◌≡◌, refl, ◌∙◌, Bool, true, false, not, List, [],
  ◌∷◌, ◌++◌, map, Option, some, none, ltb, leb, ◌==◌, ◌&&◌, ◌||◌, if◌then◌else◌, Bytes, get_elem?,
  take, drop, length, length-append, arith, Bool-cases, inl, inr,
}
use kuu.FsWatch.{
  Action, added, removed, modified, renamed, overflow, WatchEvent, Watch, queue_max, push_event,
}

unfoldable pub byte_at : Bytes → ℕ → ℕ
byte_at buffer i = elim (get_elem? buffer i) [ none ↦ 0 | some c ↦ c ]

-- A DWORD of the buffer, the low byte first.
unfoldable pub dword_at : Bytes → ℕ → ℕ
dword_at buffer i =
    byte_at buffer i
    + byte_at buffer (i + 1) * 256
    + byte_at buffer (i + 2) * 65536
    + byte_at buffer (i + 3) * 16777216

-- `relative_utf8`, after the conversion.
unfoldable pub slashes : Bytes → Bytes
slashes path = map (λ c. if c == 92 then 47 else c) path

-- The end of a round: `break`, or the next offset.
abbrev pub continue : Watch × Option ℕ → (ℕ → Watch → Watch) → Watch
continue (after, none) again = after
continue (after, some next) again = again next after

module _ (alloc : ℕ → Bool) (to_utf8 : Bytes → Option Bytes) where
  unfoldable pub relative_utf8 : Bytes → Option Bytes
  relative_utf8 name = elim (to_utf8 name) [ none ↦ none | some path ↦ some (slashes path) ]

  -- The switch on FILE_ACTION_ADDED (1) to FILE_ACTION_RENAMED_NEW_NAME (5).
  unfoldable pub take_record : Watch → ℕ → Bytes → Watch
  take_record w action path =
      if action == 1
      then push_event alloc w added path none
      else if action == 2
      then push_event alloc w removed path none
      else if action == 3
      then push_event alloc w modified path none
      else if action == 4
      then record w { pending_old = some path }
      else if action == 5
      then record (push_event alloc w renamed path w.pending_old) { pending_old = none }
      else w

  unfoldable pub take_named : Watch → ℕ → Option Bytes → Watch
  take_named w action none = record w { dropped = w.dropped + 1 }
  take_named w action (some path) = take_record w action path

  -- The record at `offset`, and where the loop goes on, if it does.
  unfoldable pub batch_step : Bytes → ℕ → Watch → Watch × Option ℕ
  batch_step buffer offset w =
      let bytes = length buffer in
      let next = dword_at buffer offset in
      let size = dword_at buffer (offset + 8) in
      let name = take size (drop (offset + 12) buffer) in
      let taken = take_named w (dword_at buffer (offset + 4)) (relative_utf8 name) in
      if ltb bytes (offset + 12)
      then (w, none)
      else if not (size % 2 == 0) || ltb bytes (offset + 12 + size)
      then (record w { dropped = w.dropped + 1 }, none)
      else if next == 0
      then (taken, none)
      else if ltb next (12 + size) || not (next % 4 == 0) || ltb (bytes - offset) next
      then (record taken { dropped = taken.dropped + 1 }, none)
      else (taken, some (offset + next))

  -- The loop, at most `fuel` rounds.
  unfoldable pub batch_loop : ℕ → Bytes → ℕ → Watch → Watch
  batch_loop zero buffer offset w = w
  batch_loop (suc fuel) buffer offset w =
      continue (batch_step buffer offset w) (λ next after. batch_loop fuel buffer next after)

  -- Every round moves the offset by twelve bytes at the least.
  unfoldable pub parse_batch : Watch → Bytes → Watch
  parse_batch w buffer =
      let lost = push_event alloc w overflow [] none in
      if length buffer == 0
      then record lost { dropped = lost.dropped + 1 }
      else batch_loop (length buffer + 1) buffer 0 w
