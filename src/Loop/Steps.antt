-- ===== src/Loop/Steps.antt =====
-- What the operations of src/loop.c do to the places of the drivers.
use kuu.Prelude.{
  ℕ, ◌+◌, ◌≡◌, refl, sym, subst, ◌∙◌, Bool, true, false, List, ◌∷◌, Option, none, some, ◌==◌,
  if◌then◌else◌, arith, by_if, not, ◌||◌,
}
use kuu.Timers.{update, timer_arm}
use kuu.Loop.{
  ok, Driver, Waiter, Loop, enqueue, driver_start, set_waiter, resume_waiting, mark_done,
  wake_alone, wake, forget, waiter_timer_fire, record_child, index_from, multi_sub_woken,
}
use kuu.Loop.Waiting.{
  Begun, refused, yields, stays, free_waiter, clip_timeout, wait_park, wait_arm, wait_begin,
}
use kuu.Loop.Places.{IsSane, place, Sane, moved, enqueued, flagged}
use kuu.Loop.Places.Changes.{awake_alone, awake, parked, started}

-- The drivers that run, with one more if there is one.
abbrev pub with_driver : Option ℕ → List ℕ → List ℕ
with_driver none run = run
with_driver (some d) run = d ∷ run

pub mark_done-driver :
    (l : Loop) (w v : ℕ) → ((mark_done l w).waiter v).driver ≡ (l.waiter v).driver
unfolding mark_done set_waiter
mark_done-driver l w v =
    by_if (λ x. x.driver ≡ (l.waiter v).driver) (v == w) (record (l.waiter w) { done = true })
      (l.waiter v) (λ k. let at : v ≡ w = ground (arith, k) in rw at refl) (λ k. refl)

resume_waiting-driver :
    (l : Loop) (w v : ℕ) → ((resume_waiting true l w).waiter v).driver ≡ (l.waiter v).driver
unfolding resume_waiting enqueue
resume_waiting-driver l w v = by_driver ((l.waiter w).driver)
  where
    by_driver :
        (o : Option ℕ)
        → ((elim o as (λ x. Loop) [ none ↦ l | some d ↦ (enqueue true l d 0).0 ]).waiter v).driver
          ≡ (l.waiter v).driver
    by_driver none = refl
    by_driver (some d) = refl

pub wake_alone-driver :
    (l : Loop) (w v : ℕ) → ((wake_alone true l w).waiter v).driver ≡ (l.waiter v).driver
unfolding wake_alone
wake_alone-driver l w v =
    by_if (λ (x : Loop). (x.waiter v).driver ≡ (l.waiter v).driver) (l.waiter w).done _ _
      (λ e. refl) (λ e. resume_waiting-driver (mark_done l w) w v ∙ mark_done-driver l w v)

mark_done-Sane :
    (run : List ℕ) (l : Loop) (w : ℕ)
    → (l.waiter w).done ≡ false
    → Sane run l
    → Sane (with_driver ((l.waiter w).driver) run) (mark_done l w)
unfolding mark_done set_waiter
mark_done-Sane run l w e s = by_driver ((l.waiter w).driver) refl
  where
    new : Waiter
    new = record (l.waiter w) { done = true }

    by_driver :
        (o : Option ℕ)
        → (l.waiter w).driver ≡ o
        → IsSane (place (with_driver o run) l.ready) l.driver (update l.waiter w new)
    by_driver none f = awake_alone l.waiter w new refl (place run l.ready) l.driver f s
    by_driver (some d) f =
        moved (λ x. (if d == x then 1 else 0) + place run l.ready x) (place (d ∷ run) l.ready)
          l.driver (update l.waiter w new) (λ x. omega arith)
          (awake l.waiter w new refl (place run l.ready) l.driver d (e, f) s)

resume_waiting-Sane :
    (run : List ℕ) (l : Loop) (w : ℕ)
    → Sane (with_driver ((l.waiter w).driver) run) l
    → Sane run (resume_waiting true l w)
unfolding resume_waiting
resume_waiting-Sane run l w s = by_driver ((l.waiter w).driver) s
  where
    by_driver :
        (o : Option ℕ)
        → Sane (with_driver o run) l
        → Sane run (elim o as (λ x. Loop) [ none ↦ l | some d ↦ (enqueue true l d 0).0 ])
    by_driver none s = s
    by_driver (some d) s = unfold enqueue in enqueued d 0 run l.ready l.driver l.waiter s

wake_alone-Sane : (run : List ℕ) (l : Loop) (w : ℕ) → Sane run l → Sane run (wake_alone true l w)
unfolding wake_alone
wake_alone-Sane run l w s =
    by_if (Sane run) (l.waiter w).done _ _ (λ e. s)
      (λ e. resume_waiting-Sane run (mark_done l w) w (
        subst (λ o. Sane (with_driver o run) (mark_done l w)) (sym (mark_done-driver l w w))
          (mark_done-Sane run l w e s)))

record_child-Sane :
    (run : List ℕ) (l : Loop) (sub k i : ℕ) → Sane run l → Sane run (record_child l sub k i)
unfolding record_child set_waiter
record_child-Sane run l sub k i s =
    flagged (place run l.ready) l.driver l.waiter sub (record (l.waiter sub) { value = none }) refl
      refl s

record_child-driver :
    (l : Loop) (sub k i v : ℕ) → ((record_child l sub k i).waiter v).driver ≡ (l.waiter v).driver
unfolding record_child set_waiter
record_child-driver l sub k i v =
    by_if (λ x. x.driver ≡ (l.waiter v).driver) (v == sub) (record (l.waiter sub) { value = none })
      (l.waiter v) (λ h. let at : v ≡ sub = ground (arith, h) in rw at refl) (λ h. refl)

-- The hook leaves everything with a property that its two steps keep.
pub multi_sub_woken-keeps :
    (P : Loop → Type 0) (l : Loop) (sub k : ℕ)
    → P l
    → ((i : ℕ) → P (record_child l sub k i))
    → ((m : Loop) (v : ℕ) → P m → P (wake_alone true m v))
    → P (multi_sub_woken true l sub k)
unfolding multi_sub_woken
multi_sub_woken-keeps P l sub k p q r = by_index (index_from (l.multi k).subs sub 0)
  where
    by_index :
        (o : Option ℕ)
        → P (elim o as (λ x. Loop) [
          | none ↦ l
          | some i ↦
              if not (l.multi k).need_all || (l.multi k).remaining == 1
              then wake_alone true (record_child l sub k i) (l.multi k).main
              else record_child l sub k i
        ])
    by_index none = p
    by_index (some i) =
        by_if P (not (l.multi k).need_all || (l.multi k).remaining == 1) _ _
          (λ e. r (record_child l sub k i) (l.multi k).main (q i)) (λ e. q i)

pub multi_sub_woken-driver :
    (l : Loop) (sub k v : ℕ)
    → ((multi_sub_woken true l sub k).waiter v).driver ≡ (l.waiter v).driver
multi_sub_woken-driver l sub k v =
    multi_sub_woken-keeps (λ x. (x.waiter v).driver ≡ (l.waiter v).driver) l sub k refl
      (λ i. record_child-driver l sub k i v) (λ m w h. wake_alone-driver m w v ∙ h)

multi_sub_woken-Sane :
    (run : List ℕ) (l : Loop) (sub k : ℕ) → Sane run l → Sane run (multi_sub_woken true l sub k)
multi_sub_woken-Sane run l sub k s =
    multi_sub_woken-keeps (Sane run) l sub k s (λ i. record_child-Sane run l sub k i s)
      (λ m w h. wake_alone-Sane run m w h)

pub wake-Sane : (run : List ℕ) (l : Loop) (w : ℕ) → Sane run l → Sane run (wake true l w)
unfolding wake
wake-Sane run l w s =
    by_if (Sane run) (l.waiter w).done _ _ (λ e. s)
      (λ e. by_hook ((l.waiter w).on_wake) (mark_done-Sane run l w e s))
  where
    by_hook :
        (o : Option ℕ)
        → Sane (with_driver ((l.waiter w).driver) run) (mark_done l w)
        → Sane run (
            resume_waiting true
              (elim o as (λ x. Loop) [
                | none ↦ mark_done l w
                | some k ↦ multi_sub_woken true (mark_done l w) w k
              ])
              w)
    by_hook none h =
        resume_waiting-Sane run (mark_done l w) w
          (subst (λ o. Sane (with_driver o run) (mark_done l w)) (sym (mark_done-driver l w w)) h)
    by_hook (some k) h =
        let m = multi_sub_woken true (mark_done l w) w k in
        resume_waiting-Sane run m w (
          subst (λ o. Sane (with_driver o run) m)
            (sym (multi_sub_woken-driver (mark_done l w) w k w ∙ mark_done-driver l w w))
            (multi_sub_woken-Sane (with_driver ((l.waiter w).driver) run) (mark_done l w) w k h))

forget-Sane : (run : List ℕ) (l : Loop) (w : ℕ) → Sane run l → Sane run (forget l w)
unfolding forget
forget-Sane run l w s =
    by_if (Sane run) (l.waiter w).has_abandon _ _ (λ e. s)
      (λ e. by_if (Sane run) (l.waiter w).has_timeout _ _ (λ f. s) (λ f. s))

pub waiter_timer_fire-Sane :
    (run : List ℕ) (l : Loop) (w : ℕ) → Sane run l → Sane run (waiter_timer_fire true l w)
unfolding waiter_timer_fire set_waiter
waiter_timer_fire-Sane run l w s =
    let v = l.waiter w in
    let late : Waiter = record v {
      timed_out = true;
      deadline_hit = if v.deadline then true else v.deadline_hit;
    } in
    let m : Loop = record l { waiter = update l.waiter w late } in
    let kept : Sane run m = flagged (place run l.ready) l.driver l.waiter w late refl refl s in
    wake-Sane run _ w (
      by_if (Sane run) late.deadline_hit _ _ (λ e. forget-Sane run m w kept)
        (λ e. by_if (Sane run) late.has_timeout _ _ (λ f. kept) (λ f. kept)))

pub driver_start-Sane :
    (run : List ℕ) (l : Loop) (d nargs : ℕ)
    → (l.driver d).started ≡ false
    → Sane run l
    → Sane run (driver_start true l d nargs).0
unfolding driver_start enqueue
driver_start-Sane run l d nargs fresh s =
    let new : Driver = record { started = true; finished = false; status = ok } in
    enqueued d nargs run l.ready (update l.driver d new) l.waiter (
      moved (λ x. (if d == x then 1 else 0) + place run l.ready x) (place (d ∷ run) l.ready)
        (update l.driver d new) l.waiter (λ x. omega arith)
        (started (place run l.ready) l.driver l.waiter d new refl refl fresh s))

-- What runs behind the beginning of a wait: the driver does not if it yields.
abbrev pub after_wait : Begun → ℕ → List ℕ → List ℕ
after_wait yields d run = run
after_wait stays d run = d ∷ run
after_wait refused d run = d ∷ run

module _ (d : ℕ) (run : List ℕ) (w : ℕ) where
  wait_park-Sane :
      (l : Loop)
      → (l.waiter w).driver ≡ none
      → Sane (d ∷ run) l
      → Sane (after_wait (wait_park (some d) l w).1 d run) (wait_park (some d) l w).0
  unfolding wait_park set_waiter
  wait_park-Sane l free s =
      by_if {A = Loop × Begun} (λ x. Sane (after_wait x.1 d run) x.0) (l.waiter w).done _ _
        (λ e.
          flagged (place (d ∷ run) l.ready) l.driver l.waiter w
            (record (l.waiter w) { driver = none }) refl (sym free) s)
        (λ e.
          parked l.waiter w d (record (l.waiter w) { driver = some d }) e refl free
            (place run l.ready) l.driver
            (moved (place (d ∷ run) l.ready) (λ x. (if d == x then 1 else 0) + place run l.ready x)
              l.driver l.waiter (λ x. omega arith) s))

  wait_arm-Sane :
      (alloc : ℕ → Bool) (now : ℕ) (l : Loop) (timeout : Option ℕ)
      → (l.waiter w).driver ≡ none
      → Sane (d ∷ run) l
      → Sane
          (after_wait (wait_arm alloc now (some d) l w timeout).1 d run)
          (wait_arm alloc now (some d) l w timeout).0
  unfolding wait_arm
  wait_arm-Sane alloc now l none free s = wait_park-Sane l free s
  wait_arm-Sane alloc now l (some t) free s =
      let r = timer_arm alloc now l.timers w t in
      let m : Loop = record l { timers = r.0 } in
      by_if {A = Loop × Begun} (λ x. Sane (after_wait x.1 d run) x.0) r.1 _ _
        (λ e. wait_park-Sane m free s)
        (λ e.
          unfold free_waiter set_waiter in
          (let f : Loop = forget m w in
            flagged (place (d ∷ run) f.ready) f.driver f.waiter w
              (record (f.waiter w) { freed = true }) refl refl (forget-Sane (d ∷ run) m w s)))

  pub wait_begin-Sane :
      (alloc : ℕ → Bool) (now : ℕ) (due timeout : Option ℕ) (l : Loop)
      → (l.waiter w).driver ≡ none
      → Sane (d ∷ run) l
      → Sane
          (after_wait (wait_begin alloc now due (some d) l w timeout).1 d run)
          (wait_begin alloc now due (some d) l w timeout).0
  unfolding wait_begin set_waiter
  wait_begin-Sane alloc now due timeout l free s =
      let deadline = (clip_timeout now due timeout).1 in
      let new : Waiter = record (l.waiter w) { deadline = deadline } in
      let m : Loop = record l { waiter = update l.waiter w new } in
      let same : (m.waiter w).driver ≡ none =
        by_if (λ (x : Waiter). x.driver ≡ none) (w == w) new (l.waiter w) (λ k. free) (λ k. free) in
      by_if {A = Loop × Begun} (λ x. Sane (after_wait x.1 d run) x.0) (l.waiter w).done _ _
        (λ e. wait_park-Sane l free s)
        (λ e.
          wait_arm-Sane alloc now m (clip_timeout now due timeout).0 same
            (flagged (place (d ∷ run) l.ready) l.driver l.waiter w new refl refl s))
