-- ===== src/FsWatch/Batch/Bounds.antt =====
-- The bounds of the queue in src/fs_watch.c, and the end of the loop of `parse_batch`.
use kuu.Prelude.{
  ℕ, zero, suc, ◌+◌, ◌-◌, ◌*◌, ◌%◌, ◌≤◌, ◌<◌, ◌≡◌, refl, ◌∙◌, Bool, true, false, not, List, [], ◌∷◌,
  ◌++◌, Option, some, none, ltb, leb, ◌==◌, ◌||◌, if◌then◌else◌, Bytes, take, drop, length,
  length-append, arith, Bool-cases, inl, inr,
}
use kuu.FsWatch.{
  Action, added, removed, modified, renamed, overflow, WatchEvent, Watch, queue_max, push_event,
}
use kuu.FsWatch.Batch.{
  dword_at, relative_utf8, take_record, take_named, batch_step, continue, batch_loop, parse_batch,
}

-- The queue keeps within its block, and both within what a watch may hold.
pub record IsBounded (w : Watch) : Type 0 where
  pub queued : length w.events ≤ queue_max
  pub room : length w.events ≤ w.capacity

-- What a push and a batch leave alone, and what they keep.
pub record Kept (w w' : Watch) : Type 0 where
  pub bounded : IsBounded w → IsBounded w'
  pub closed : w'.closed ≡ w.closed
  pub stopped : w'.stopped ≡ w.stopped
  pub io : w'.io ≡ w.io
  pub waiters : w'.waiters ≡ w.waiters
  pub resumed : w'.resumed ≡ w.resumed
  pub woken : w'.woken ≡ w.woken
  pub freed : w'.freed ≡ w.freed

same-Kept :
    (w : Watch) (n : ℕ) (old : Option Bytes) → Kept w (record w { dropped = n; pending_old = old })
same-Kept w n old = record {
  bounded = λ b. record { queued = b.queued; room = b.room };
  closed = refl;
  stopped = refl;
  io = refl;
  waiters = refl;
  resumed = refl;
  woken = refl;
  freed = refl;
}

Kept-trans : {a b c : Watch} → Kept a b → Kept b c → Kept a c
Kept-trans p q = record {
  bounded = λ b. q.bounded (p.bounded b);
  closed = q.closed ∙ p.closed;
  stopped = q.stopped ∙ p.stopped;
  io = q.io ∙ p.io;
  waiters = q.waiters ∙ p.waiters;
  resumed = q.resumed ∙ p.resumed;
  woken = q.woken ∙ p.woken;
  freed = q.freed ∙ p.freed;
}

either-Kept :
    {w : Watch} (b : Bool) {x y : Watch} → Kept w x → Kept w y → Kept w (if b then x else y)
either-Kept true p q = p
either-Kept false p q = q

queue-Kept :
    (w : Watch) (events : List WatchEvent) (capacity : ℕ)
    → (IsBounded w → (length events ≤ queue_max) × (length events ≤ capacity))
    → Kept w (record w { events = events; capacity = capacity })
queue-Kept w events capacity h = record {
  bounded = λ b. let (p, q) = h b in record { queued = p; room = q };
  closed = refl;
  stopped = refl;
  io = refl;
  waiters = refl;
  resumed = refl;
  woken = refl;
  freed = refl;
}

module _ (alloc : ℕ → Bool) where
  push_event-Kept :
      (w : Watch) (action : Action) (path : Bytes) (old : Option Bytes)
      → Kept w (push_event alloc w action path old)
  unfolding push_event
  push_event-Kept w action path old =
      let event : List WatchEvent = record { action = action; path = path; old_path = old } ∷ [] in
      let events = w.events ++ event in
      let next = if w.capacity == 0 then 64 else w.capacity * 2 in
      let lost = same-Kept w (w.dropped + 1) w.pending_old in
      elim (Bool-cases (leb queue_max (length w.events))) [
        | inl full ↦ rw full lost
        | inr free ↦ elim (Bool-cases (length w.events == w.capacity)) [
          | inl grow ↦
              rw (free, grow)
                (either-Kept (alloc next)
                  (queue-Kept w events next (λ b. (
                    ground (arith, length-append (w.events) event),
                    ground (arith, b.room, length-append (w.events) event),
                  )))
                  lost)
          | inr room ↦
              rw (free, room)
                (queue-Kept w events w.capacity (λ b. (
                  ground (arith, length-append (w.events) event),
                  ground (arith, b.room, length-append (w.events) event),
                )))
        ]
      ]

  -- A push that is not queued is counted: the events queued and the events dropped go up by one
  -- together.
  push_event_counted :
      (w : Watch) (action : Action) (path : Bytes) (old : Option Bytes)
      → let after = push_event alloc w action path old in
        length after.events + after.dropped ≡ length w.events + w.dropped + 1
  unfolding push_event
  push_event_counted w action path old =
      let event : List WatchEvent = record { action = action; path = path; old_path = old } ∷ [] in
      ground (arith, length-append (w.events) event)

  module _ (to_utf8 : Bytes → Option Bytes) where
    take_named-Kept :
        (w : Watch) (action : ℕ) (path : Option Bytes)
        → Kept w (take_named alloc to_utf8 w action path)
    unfolding take_named take_record
    take_named-Kept w action none = same-Kept w (w.dropped + 1) w.pending_old
    take_named-Kept w action (some path) =
        either-Kept (action == 1) (push_event-Kept w added path none) (
          either-Kept (action == 2) (push_event-Kept w removed path none) (
            either-Kept (action == 3) (push_event-Kept w modified path none) (
              either-Kept (action == 4) (same-Kept w w.dropped (some path)) (
                either-Kept (action == 5)
                  (Kept-trans (push_event-Kept w renamed path w.pending_old) (
                    same-Kept (push_event alloc w renamed path w.pending_old)
                      (push_event alloc w renamed path w.pending_old).dropped none))
                  (same-Kept w w.dropped w.pending_old)))))

    abbrev StepKept : ℕ → ℕ → Watch → Watch × Option ℕ → Type 0
    StepKept bytes offset w (after, none) = Kept w after
    StepKept bytes offset w (after, some next) =
        Kept w after × (offset + 12 ≤ next) × (next ≤ bytes)

    either-StepKept :
        (bytes offset : ℕ) (w : Watch) (b : Bool) (x y : Watch × Option ℕ)
        → StepKept bytes offset w x
        → (b ≡ false → StepKept bytes offset w y)
        → StepKept bytes offset w (if b then x else y)
    either-StepKept bytes offset w true x y p q = p
    either-StepKept bytes offset w false x y p q = q refl

    batch_step-Kept :
        (buffer : Bytes) (offset : ℕ) (w : Watch)
        → offset ≤ length buffer
        → StepKept (length buffer) offset w (batch_step alloc to_utf8 buffer offset w)
    unfolding batch_step
    batch_step-Kept buffer offset w inside =
        let next = dword_at buffer offset in
        let size = dword_at buffer (offset + 8) in
        let taken =
          take_named-Kept w (dword_at buffer (offset + 4))
            (relative_utf8 alloc to_utf8 (take size (drop (offset + 12) buffer))) in
        either-StepKept (length buffer) offset w (ltb (length buffer) (offset + 12)) _ _
          (same-Kept w w.dropped w.pending_old)
          (λ e.
            either-StepKept (length buffer) offset w
              (not (size % 2 == 0) || ltb (length buffer) (offset + 12 + size)) _ _
              (same-Kept w (w.dropped + 1) w.pending_old)
              (λ f. either-StepKept (length buffer) offset w (next == 0) _ _ taken (λ g.
                either-StepKept (length buffer) offset w
                  (ltb next (12 + size) || not (next % 4 == 0) || ltb (length buffer - offset) next)
                  _ _ (Kept-trans taken (same-Kept _ _ _))
                  (λ h. (taken, ground arith, ground arith)))))

    continue-Kept :
        (bytes offset : ℕ) (w : Watch) (r : Watch × Option ℕ) (again : ℕ → Watch → Watch)
        → ((next : ℕ) (after : Watch) → next ≤ bytes → Kept after (again next after))
        → StepKept bytes offset w r
        → Kept w (continue r again)
    continue-Kept bytes offset w (after, none) again h k = k
    continue-Kept bytes offset w (after, some next) again h (k, far, near) =
        Kept-trans k (h next after near)

    batch_loop-suc :
        (fuel : ℕ) (buffer : Bytes) (offset : ℕ) (w : Watch)
        → batch_loop alloc to_utf8 (suc fuel) buffer offset w
          ≡ continue
              (batch_step alloc to_utf8 buffer offset w)
              (batch_loop alloc to_utf8 fuel buffer)
    unfolding batch_loop
    batch_loop-suc fuel buffer offset w = refl

    batch_loop-Kept :
        (fuel : ℕ) (buffer : Bytes) (offset : ℕ) (w : Watch)
        → offset ≤ length buffer
        → Kept w (batch_loop alloc to_utf8 fuel buffer offset w)
    batch_loop-Kept zero buffer offset w p =
        unfold batch_loop in same-Kept w w.dropped w.pending_old
    batch_loop-Kept (suc fuel) buffer offset w p = rw (batch_loop-suc fuel buffer offset w) (
        continue-Kept (length buffer) offset w (batch_step alloc to_utf8 buffer offset w)
          (batch_loop alloc to_utf8 fuel buffer)
          (λ next after near. batch_loop-Kept fuel buffer next after near)
          (batch_step-Kept buffer offset w p))

    -- A batch keeps the queue within its block and at 8192 events at most, and changes nothing of the
    -- readers and of how the watch ends, whatever bytes the buffer holds.
    pub parse_batch-Kept :
        (w : Watch) (buffer : Bytes) → Kept w (parse_batch alloc to_utf8 w buffer)
    unfolding parse_batch
    parse_batch-Kept w buffer =
        let lost = push_event alloc w overflow [] none in
        either-Kept (length buffer == 0)
          (Kept-trans (push_event-Kept w overflow [] none)
            (same-Kept lost (lost.dropped + 1) lost.pending_old))
          (batch_loop-Kept (length buffer + 1) buffer 0 w (omega arith))

    continue-same :
        (bytes offset : ℕ) (w : Watch) (r : Watch × Option ℕ) (f g : ℕ → Watch → Watch)
        → ((next : ℕ) (after : Watch)
            → offset + 12 ≤ next
            → next ≤ bytes
            → f next after ≡ g next after)
        → StepKept bytes offset w r
        → continue r f ≡ continue r g
    continue-same bytes offset w (after, none) f g h k = refl
    continue-same bytes offset w (after, some next) f g h (k, far, near) = h next after far near

    -- The loop of `parse_batch` ends by itself: with more fuel than one round for each byte from the
    -- offset on, it does what it does with that much, so fuel never stops it.
    pub batch_loop_fuel :
        (fuel extra : ℕ) (buffer : Bytes) (offset : ℕ) (w : Watch)
        → offset ≤ length buffer
        → length buffer < offset + fuel
        → batch_loop alloc to_utf8 (extra + fuel) buffer offset w
          ≡ batch_loop alloc to_utf8 fuel buffer offset w
    batch_loop_fuel zero extra buffer offset w p q = absurd (omega arith)
    batch_loop_fuel (suc fuel) extra buffer offset w p q =
        let more : extra + suc fuel ≡ suc (extra + fuel) = omega arith in
        rw
          (more, batch_loop-suc (extra + fuel) buffer offset w, batch_loop-suc fuel buffer offset w)
          (continue-same (length buffer) offset w (batch_step alloc to_utf8 buffer offset w)
            (batch_loop alloc to_utf8 (extra + fuel) buffer) (batch_loop alloc to_utf8 fuel buffer)
            (λ next after far near. batch_loop_fuel fuel extra buffer next after near (omega arith))
            (batch_step-Kept buffer offset w p))
