-- ===== src/Locks/Examples.antt =====
-- Tests of src/sync.c, and the theorem on it at a concrete run.
use kuu.Prelude.{ℕ, ◌≡◌, refl, ◌⊎◌, true, false, [], none, Bytes, codes, equal}
use kuu.Locks.{
  Locks, acquired, acquired_abandoned, timed_out, opened, busy, bad_name, locked, set_held,
  is_taken, has_bad_byte, new_lock, take_lock, after_wait, sync_try, is_mine, forget_held,
  lock_release, drop_lock, try_step, Run, begin, step,
}
use kuu.Locks.Exclusive.{Run-exclusive}

abbrev none_held : Locks
none_held = record {
  lock = λ l. record { name = []; held = false; abandoned = false; dropped = false };
  next = 0;
  held = λ name. none;
}

abbrev job : Bytes
job = codes "job"

abbrev first_lock : ℕ
first_lock = 0

abbrev one : Locks
one = (sync_try true opened acquired none_held job).0

one_run : Run none_held one
one_run = step begin (try_step true opened acquired none_held job)

sync_try_test :
    ((sync_try true opened acquired none_held job).1 ≡ locked 0)
    × ((sync_try true opened acquired one job).1 ≡ busy)
    × ((sync_try true opened timed_out one (codes "b")).1 ≡ busy)
    × ((sync_try true opened acquired one (codes "a\\b")).1 ≡ bad_name)
    × ((sync_try true opened acquired (lock_release one 0) job).1 ≡ locked 1)
    × ((sync_try true opened acquired_abandoned (drop_lock one 0) job).1 ≡ locked 1)
unfolding sync_try has_bad_byte is_taken after_wait take_lock new_lock set_held equal lock_release
    forget_held is_mine drop_lock
sync_try_test = (refl, refl, refl, refl, refl, refl)

Run-exclusive_example :
    (first_lock ≡ first_lock)
    × ((sync_try true opened acquired one (one.lock 0).name ≡ (one, busy))
        ⊎ (sync_try true opened acquired one (one.lock 0).name ≡ (one, bad_name)))
unfolding sync_try has_bad_byte is_taken after_wait take_lock new_lock set_held equal
Run-exclusive_example =
    Run-exclusive none_held one first_lock first_lock true opened acquired (λ l. refl) one_run
      (refl, refl) (refl, refl) refl
