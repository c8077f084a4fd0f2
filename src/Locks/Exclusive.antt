-- ===== src/Locks/Exclusive.antt =====
-- A name of src/sync.c is held by one lock at most.
use kuu.Prelude.{
  ℕ, ◌≡◌, refl, sym, subst, ap, Bool, true, false, ◌||◌, Option, none, some, ltb, ◌==◌,
  if◌then◌else◌, Bytes, equal, equal_iff, length, arith, by_if, inl, inr, ◌⊎◌,
}
use kuu.Timers.{update}
use kuu.Locks.{
  Lock, Locks, Wait, acquired, acquired_abandoned, timed_out, wait_failed, Opened, opened,
  no_translation, not_opened, Tried, busy, bad_name, bad_encoding, os_error, name_max, has_bad_byte,
  set_held, is_taken, new_lock, take_lock, after_wait, sync_try, is_mine, forget_held, lock_release,
  drop_lock, Step, try_step, release_step, drop_step, collect_step, IsFresh, Run, begin, step,
}

-- A lock that the program can refer to and that is held.
abbrev pub IsHeld : Locks → ℕ → Type 0
IsHeld s l = ((s.lock l).held ≡ true) × ((s.lock l).dropped ≡ false)

-- The table has every such lock.
abbrev pub IsListed : Locks → Type 0
IsListed s = (l : ℕ) → IsHeld s l → s.held (s.lock l).name ≡ some l

same_number : (a b : ℕ) → (a == b) ≡ true → a ≡ b
same_number a b k = ground (arith, k)

new_lock-IsListed :
    (s : Locks) (name : Bytes) (abandoned : Bool)
    → is_taken s name ≡ false
    → IsListed s
    → IsListed (new_lock s name abandoned)
unfolding new_lock set_held is_taken
new_lock-IsListed s name abandoned free listed l =
    by_if
      (λ (x : Lock).
        (x.held ≡ true) × (x.dropped ≡ false)
        → (if equal x.name name then some s.next else s.held x.name) ≡ some l)
      (l == s.next) (record { name = name; held = true; abandoned = abandoned; dropped = false })
      (s.lock l)
      (λ k h.
        by_if (λ o. o ≡ some l) (equal name name) (some s.next) (s.held name)
          (λ e. ap (λ x. some x) (sym (same_number l s.next k)))
          (λ e. absurd (ground (arith, e, (equal_iff name name).1 refl))))
      (λ k h.
        by_if (λ o. o ≡ some l) (equal (s.lock l).name name) (some s.next) (s.held (s.lock l).name)
          (λ e.
            let same : (s.lock l).name ≡ name = (equal_iff (s.lock l).name name).0 e in
            let there : s.held name ≡ some l = subst (λ n. s.held n ≡ some l) same (listed l h) in
            absurd (taken (s.held name) there free h.0))
          (λ e. listed l h))
  where
    taken :
        (o : Option ℕ)
        → o ≡ some l
        → (elim o as (λ x. Bool) [ none ↦ false | some holder ↦ (s.lock holder).held ]) ≡ false
        → (s.lock l).held ≡ true
        → ⊥
    taken none e f g = absurd (ground (arith, e))
    taken (some h) e f g =
        let at : h ≡ l = ground (arith, e) in
        absurd (ground (arith, subst (λ x. (s.lock x).held ≡ false) at f, g))

-- Forgetting a lock leaves every other one that is held in the table.
forget_held-others :
    (s : Locks) (l k : ℕ)
    → (k == l) ≡ false
    → s.held (s.lock k).name ≡ some k
    → (forget_held s l).held (s.lock k).name ≡ some k
unfolding forget_held is_mine set_held
forget_held-others s l k other e =
    by_if (λ (x : Locks). x.held (s.lock k).name ≡ some k) (is_mine s l) _ _
      (λ mine.
        by_if (λ o. o ≡ some k) (equal (s.lock k).name (s.lock l).name) none
          (s.held (s.lock k).name)
          (λ same.
            let at : (s.lock k).name ≡ (s.lock l).name =
              (equal_iff (s.lock k).name (s.lock l).name).0 same in
            let there : s.held (s.lock l).name ≡ some k = subst (λ n. s.held n ≡ some k) at e in
            absurd (not_mine (s.held (s.lock l).name) there mine))
          (λ differ. e))
      (λ f. e)
  where
    not_mine :
        (o : Option ℕ)
        → o ≡ some k
        → (elim o as (λ x. Bool) [ none ↦ false | some holder ↦ holder == l ]) ≡ true
        → ⊥
    not_mine none f g = absurd (ground (arith, f))
    not_mine (some h) f g = absurd (ground (arith, f, g, other))

forget_held-lock : (s : Locks) (l : ℕ) → (forget_held s l).lock ≡ s.lock
unfolding forget_held
forget_held-lock s l =
    by_if (λ (x : Locks). x.lock ≡ s.lock) (is_mine s l) _ _ (λ e. refl) (λ e. refl)

-- A lock that is no longer held, or not referred to, after it is forgotten.
unlisted :
    (s : Locks) (l : ℕ) (new : Lock)
    → ((new.held ≡ true) × (new.dropped ≡ false) → ⊥)
    → IsListed s
    → IsListed (record (forget_held s l) { lock = update (forget_held s l).lock l new })
unlisted s l new gone listed k =
    by_if
      (λ (x : Lock). (x.held ≡ true) × (x.dropped ≡ false) → (forget_held s l).held x.name ≡ some k)
      (k == l) new ((forget_held s l).lock k) (λ e h. absurd (gone h))
      (λ other h.
        subst
          (λ (f : ℕ → Lock).
            ((f k).held ≡ true) × ((f k).dropped ≡ false)
            → (forget_held s l).held (f k).name ≡ some k)
          (sym (forget_held-lock s l)) (λ g. forget_held-others s l k other (listed k g)) h)

lock_release-IsListed : (s : Locks) (l : ℕ) → IsListed s → IsListed (lock_release s l)
unfolding lock_release
lock_release-IsListed s l listed =
    by_if IsListed (s.lock l).held _ _
      (λ e.
        unlisted s l (record ((forget_held s l).lock l) { held = false })
          (λ (a, b). absurd (ground (arith, a))) listed)
      (λ e. listed)

drop_lock-IsListed : (s : Locks) (l : ℕ) → IsListed s → IsListed (drop_lock s l)
unfolding drop_lock
drop_lock-IsListed s l listed =
    unlisted s l (record ((forget_held s l).lock l) { dropped = true })
      (λ (a, b). absurd (ground (arith, b))) listed

take_lock-IsListed :
    (memory : Bool) (s : Locks) (name : Bytes) (abandoned : Bool)
    → is_taken s name ≡ false
    → IsListed s
    → IsListed (take_lock memory s name abandoned).0
unfolding take_lock
take_lock-IsListed true s name abandoned free listed =
    new_lock-IsListed s name abandoned free listed
take_lock-IsListed false s name abandoned free listed = listed

after_wait-IsListed :
    (memory : Bool) (s : Locks) (name : Bytes) (wait : Wait)
    → is_taken s name ≡ false
    → IsListed s
    → IsListed (after_wait memory s name wait).0
unfolding after_wait
after_wait-IsListed memory s name acquired free listed =
    take_lock-IsListed memory s name false free listed
after_wait-IsListed memory s name acquired_abandoned free listed =
    take_lock-IsListed memory s name true free listed
after_wait-IsListed memory s name timed_out free listed = listed
after_wait-IsListed memory s name wait_failed free listed = listed

sync_try-IsListed :
    (memory : Bool) (mutex : Opened) (wait : Wait) (s : Locks) (name : Bytes)
    → IsListed s
    → IsListed (sync_try memory mutex wait s name).0
unfolding sync_try
sync_try-IsListed memory mutex wait s name listed =
    by_if {A = Locks × Tried} (λ r. IsListed r.0) (length name == 0 || ltb name_max (length name)) _
      _ (λ e. listed)
      (λ e.
        by_if {A = Locks × Tried} (λ r. IsListed r.0) (has_bad_byte name) _ _ (λ f. listed)
          (λ f.
            by_if {A = Locks × Tried} (λ r. IsListed r.0) (is_taken s name) _ _ (λ g. listed)
              (λ g. by_mutex mutex g)))
  where
    by_mutex :
        (m : Opened)
        → is_taken s name ≡ false
        → IsListed
            (elim m as (λ x. Locks × Tried) [
              | no_translation ↦ (s, bad_encoding)
              | not_opened ↦ (s, os_error)
              | opened ↦ after_wait memory s name wait
            ]).0
    by_mutex no_translation g = listed
    by_mutex not_opened g = listed
    by_mutex opened g = after_wait-IsListed memory s name wait g listed

Step-IsListed : {s t : Locks} → Step s t → IsListed s → IsListed t
Step-IsListed (try_step memory mutex wait s name) listed =
    sync_try-IsListed memory mutex wait s name listed
Step-IsListed (release_step s l e) listed = lock_release-IsListed s l listed
Step-IsListed (drop_step s l) listed = drop_lock-IsListed s l listed
Step-IsListed (collect_step s l e) listed = lock_release-IsListed s l listed

Run-IsListed : {first s : Locks} → IsListed first → Run first s → IsListed s
Run-IsListed listed begin = listed
Run-IsListed listed (step run next) = Step-IsListed next (Run-IsListed listed run)

-- What a try on a name gives that the table has for a held lock: a refusal, and no change.
taken_refused :
    (memory : Bool) (mutex : Opened) (wait : Wait) (s : Locks) (name : Bytes)
    → is_taken s name ≡ true
    → (sync_try memory mutex wait s name ≡ (s, busy))
      ⊎ (sync_try memory mutex wait s name ≡ (s, bad_name))
unfolding sync_try
taken_refused memory mutex wait s name e =
    by_if {A = Locks × Tried} Refused (length name == 0 || ltb name_max (length name)) _ _
      (λ f. inr refl)
      (λ f.
        by_if {A = Locks × Tried} Refused (has_bad_byte name) _ _ (λ g. inr refl)
          (λ g.
            by_if {A = Locks × Tried} Refused (is_taken s name) _ _ (λ h. inl refl)
              (λ h. absurd (ground (arith, e, h)))))
  where
    Refused : Locks × Tried → Type 0
    Refused r = (r ≡ (s, busy)) ⊎ (r ≡ (s, bad_name))

-- After any calls of sync.try and release, and any work of the collector, two locks that are held, that
-- the program can refer to and that have one name are the same lock, and sync.try on that name is
-- refused and changes nothing.
pub Run-exclusive :
    (first s : Locks) (l k : ℕ) (memory : Bool) (mutex : Opened) (wait : Wait)
    → IsFresh first
    → Run first s
    → IsHeld s l
    → IsHeld s k
    → (s.lock l).name ≡ (s.lock k).name
    → (l ≡ k)
      × ((sync_try memory mutex wait s (s.lock l).name ≡ (s, busy))
          ⊎ (sync_try memory mutex wait s (s.lock l).name ≡ (s, bad_name)))
unfolding is_taken
Run-exclusive first s l k memory mutex wait fresh run h j same =
    let listed : IsListed s = Run-IsListed (λ m (a, b). absurd (ground (arith, fresh m, a))) run in
    let here : s.held (s.lock l).name ≡ some l = listed l h in
    let there : s.held (s.lock l).name ≡ some k =
      subst (λ n. s.held n ≡ some k) (sym same) (listed k j) in
    (
      ground (arith, here, there),
      taken_refused memory mutex wait s (s.lock l).name (taken (s.held (s.lock l).name) here),
    )
  where
    taken :
        (o : Option ℕ)
        → o ≡ some l
        → (elim o as (λ x. Bool) [ none ↦ false | some holder ↦ (s.lock holder).held ]) ≡ true
    taken none e = absurd (ground (arith, e))
    taken (some m) e =
        let at : m ≡ l = ground (arith, e) in subst (λ x. (s.lock x).held ≡ true) (sym at) h.0
