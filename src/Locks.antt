-- ===== src/Locks.antt =====
-- src/sync.c: the locks of this process. A lock is a number; the mutexes of Windows answer each call as parameters.
pub mod Exclusive
mod Examples
use kuu.Prelude.{
  ℕ, ◌+◌, ◌≡◌, Bool, true, false, not, ◌&&◌, ◌||◌, List, [], ◌∷◌, Option, none, some, ltb, leb,
  ◌==◌, if◌then◌else◌, Bytes, equal, length,
}
use kuu.Timers.{update}

-- `ku_lock`, with its `abandoned`. It is dropped when the collector has found that nothing refers to it.
pub record Lock : Type 0 where
  pub name : Bytes
  pub held : Bool
  pub abandoned : Bool
  pub dropped : Bool

-- The locks made, up to `next`, and the table of the held ones, whose values are weak.
pub record Locks : Type 0 where
  pub lock : ℕ → Lock
  pub next : ℕ
  pub held : Bytes → Option ℕ

-- WaitForSingleObject without a wait.
pub data Wait : Type 0 where
  acquired : Wait
  acquired_abandoned : Wait
  timed_out : Wait
  wait_failed : Wait

-- What `mutex_for` gives: a handle, or why there is none.
pub data Opened : Type 0 where
  opened : Opened
  no_translation : Opened
  not_opened : Opened

pub data Tried : Type 0 where
  locked : ℕ → Tried
  busy : Tried
  bad_name : Tried
  bad_encoding : Tried
  os_error : Tried

abbrev pub name_max : ℕ
name_max = 200

unfoldable pub has_bad_byte : Bytes → Bool
has_bad_byte [] = false
has_bad_byte (c ∷ name) = c == 92 || ltb c 32 || has_bad_byte name

unfoldable pub set_held : (Bytes → Option ℕ) → Bytes → Option ℕ → Bytes → Option ℕ
set_held held name value other = if equal other name then value else held other

-- The lock that the table has for the name, if it is held.
unfoldable pub is_taken : Locks → Bytes → Bool
is_taken s name = elim (s.held name) [ none ↦ false | some holder ↦ (s.lock holder).held ]

unfoldable pub new_lock : Locks → Bytes → Bool → Locks
new_lock s name abandoned =
    let new : Lock = record { name = name; held = true; abandoned = abandoned; dropped = false } in
    record {
      lock = update s.lock s.next new;
      next = s.next + 1;
      held = set_held s.held name (some s.next);
    }

-- Without memory for the name the mutex is released, and the lock is not held.
unfoldable pub take_lock : Bool → Locks → Bytes → Bool → Locks × Tried
take_lock memory s name abandoned =
    if memory then (new_lock s name abandoned, locked s.next) else (s, os_error)

unfoldable pub after_wait : Bool → Locks → Bytes → Wait → Locks × Tried
after_wait memory s name acquired = take_lock memory s name false
after_wait memory s name acquired_abandoned = take_lock memory s name true
after_wait memory s name timed_out = (s, busy)
after_wait memory s name wait_failed = (s, os_error)

-- `l_sync_try`
unfoldable pub sync_try : Bool → Opened → Wait → Locks → Bytes → Locks × Tried
sync_try memory mutex wait s name =
    if length name == 0 || ltb name_max (length name)
    then (s, bad_name)
    else if has_bad_byte name
    then (s, bad_name)
    else if is_taken s name
    then (s, busy)
    else elim mutex [
      | no_translation ↦ (s, bad_encoding)
      | not_opened ↦ (s, os_error)
      | opened ↦ after_wait memory s name wait
    ]

-- `mine`
unfoldable pub is_mine : Locks → ℕ → Bool
is_mine s l = elim (s.held (s.lock l).name) [ none ↦ false | some holder ↦ holder == l ]

unfoldable pub forget_held : Locks → ℕ → Locks
forget_held s l =
    if is_mine s l then record s { held = set_held s.held (s.lock l).name none } else s

-- `lock_release`
unfoldable pub lock_release : Locks → ℕ → Locks
lock_release s l =
    let f = forget_held s l in
    if (s.lock l).held
    then record f { lock = update f.lock l (record (f.lock l) { held = false }) }
    else s

-- The collector finds the lock without a reference: the weak table loses it before its finalizer runs.
unfoldable pub drop_lock : Locks → ℕ → Locks
drop_lock s l =
    let f = forget_held s l in
    record f { lock = update f.lock l (record (f.lock l) { dropped = true }) }

-- What happens to the locks: calls of the program on locks that it refers to, and the collector's work.
pub data Step : Locks → Locks → Type 0 where
  try_step :
      (memory : Bool) (mutex : Opened) (wait : Wait) (s : Locks) (name : Bytes)
      → Step s (sync_try memory mutex wait s name).0
  release_step : (s : Locks) (l : ℕ) → (s.lock l).dropped ≡ false → Step s (lock_release s l)
  drop_step : (s : Locks) (l : ℕ) → Step s (drop_lock s l)
  collect_step : (s : Locks) (l : ℕ) → (s.lock l).dropped ≡ true → Step s (lock_release s l)

-- No lock is held.
abbrev pub IsFresh : Locks → Type 0
IsFresh s = (l : ℕ) → (s.lock l).held ≡ false

pub data Run (first : Locks) : Locks → Type 0 where
  begin : Run first first
  step : {s t : Locks} → Run first s → Step s t → Run first t
