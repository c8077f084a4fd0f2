-- ===== src/Loop/Waking.antt =====
-- What `ku_wake` of src/loop.c does to the driver that is parked on the waiter.
use kuu.Prelude.{
  ℕ, ◌≤◌, ◌≡◌, refl, sym, subst, ap, ◌∙◌, true, false, List, Option, none, some, ◌==◌, arith, by_if,
}
use kuu.Loop.{
  Waiter, Loop, enqueue, set_waiter, resume_waiting, mark_done, wake_alone, wake, record_child,
  multi_sub_woken,
}
use kuu.Loop.Places.{queued, queued-append, Sane}
use kuu.Loop.Steps.{mark_done-driver, multi_sub_woken-driver, multi_sub_woken-keeps, wake-Sane}

-- The loop when ku_wake comes to the driver.
abbrev hooked : Loop → ℕ → Option ℕ → Loop
hooked l w none = mark_done l w
hooked l w (some k) = multi_sub_woken true (mark_done l w) w k

hooked-driver :
    (l : Loop) (w : ℕ) (o : Option ℕ) → ((hooked l w o).waiter w).driver ≡ (l.waiter w).driver
hooked-driver l w none = mark_done-driver l w w
hooked-driver l w (some k) = multi_sub_woken-driver (mark_done l w) w k w ∙ mark_done-driver l w w

wake_opened :
    (l : Loop) (w : ℕ)
    → (l.waiter w).done ≡ false
    → wake true l w ≡ resume_waiting true (hooked l w (l.waiter w).on_wake) w
unfolding wake
wake_opened l w e =
    by_if (λ x. x ≡ resume_waiting true (hooked l w (l.waiter w).on_wake) w) (l.waiter w).done _ _
      (λ f. absurd (ground (arith, e, f)))
      (λ f. ap (λ x. resume_waiting true x w) (by_hook (l.waiter w).on_wake))
  where
    by_hook :
        (o : Option ℕ)
        → (elim o as (λ x. Loop) [
          | none ↦ mark_done l w
          | some k ↦ multi_sub_woken true (mark_done l w) w k
        ])
          ≡ hooked l w o
    by_hook none = refl
    by_hook (some k) = refl

-- A waiter that is done stays so.
mark_done-done :
    (l : Loop) (v w : ℕ) → (l.waiter w).done ≡ true → ((mark_done l v).waiter w).done ≡ true
unfolding mark_done set_waiter
mark_done-done l v w e =
    by_if (λ (x : Waiter). x.done ≡ true) (w == v) (record (l.waiter v) { done = true })
      (l.waiter w) (λ k. refl) (λ k. e)

mark_done-itself : (l : Loop) (w : ℕ) → ((mark_done l w).waiter w).done ≡ true
unfolding mark_done set_waiter
mark_done-itself l w =
    by_if (λ (x : Waiter). x.done ≡ true) (w == w) (record (l.waiter w) { done = true })
      (l.waiter w) (λ k. refl) (λ k. absurd (ground (arith, k)))

resume_waiting-waiter : (l : Loop) (v w : ℕ) → (resume_waiting true l v).waiter w ≡ l.waiter w
unfolding resume_waiting enqueue
resume_waiting-waiter l v w = by_driver ((l.waiter v).driver)
  where
    by_driver :
        (o : Option ℕ)
        → (elim o as (λ x. Loop) [ none ↦ l | some d ↦ (enqueue true l d 0).0 ]).waiter w
          ≡ l.waiter w
    by_driver none = refl
    by_driver (some d) = refl

record_child-done :
    (l : Loop) (sub k i w : ℕ)
    → (l.waiter w).done ≡ true
    → ((record_child l sub k i).waiter w).done ≡ true
unfolding record_child set_waiter
record_child-done l sub k i w e =
    by_if (λ (x : Waiter). x.done ≡ true) (w == sub) (record (l.waiter sub) { value = none })
      (l.waiter w) (λ h. let at : sub ≡ w = ground (arith, h) in rw at e) (λ h. e)

wake_alone-done :
    (l : Loop) (v w : ℕ) → (l.waiter w).done ≡ true → ((wake_alone true l v).waiter w).done ≡ true
unfolding wake_alone
wake_alone-done l v w e =
    by_if (λ (x : Loop). (x.waiter w).done ≡ true) (l.waiter v).done _ _ (λ h. e)
      (λ h.
        ap (λ (x : Waiter). x.done) (resume_waiting-waiter (mark_done l v) v w)
        ∙ mark_done-done l v w e)

hooked-done : (l : Loop) (w : ℕ) (o : Option ℕ) → ((hooked l w o).waiter w).done ≡ true
hooked-done l w none = mark_done-itself l w
hooked-done l w (some k) =
    multi_sub_woken-keeps (λ x. (x.waiter w).done ≡ true) (mark_done l w) w k (mark_done-itself l w)
      (λ i. record_child-done (mark_done l w) w k i w (mark_done-itself l w))
      (λ m v h. wake_alone-done m v w h)

resume_waiting-queued :
    (l : Loop) (w d : ℕ)
    → (l.waiter w).driver ≡ some d
    → 1 ≤ queued d (resume_waiting true l w).ready
unfolding resume_waiting enqueue
resume_waiting-queued l w d e = by_driver ((l.waiter w).driver) e
  where
    by_driver :
        (o : Option ℕ)
        → o ≡ some d
        → 1 ≤ queued d (elim o as (λ x. Loop) [ none ↦ l | some x ↦ (enqueue true l x 0).0 ]).ready
    by_driver none f = absurd (ground (arith, f))
    by_driver (some x) f =
        let one : (x == d) ≡ true = ground (arith, f) in
        ground (arith, one, queued-append d x 0 l.ready)

wake_again : (l : Loop) (w : ℕ) → (l.waiter w).done ≡ true → wake true l w ≡ l
unfolding wake
wake_again l w e =
    by_if (λ x. x ≡ l) (l.waiter w).done _ _ (λ f. refl) (λ f. absurd (ground (arith, e, f)))

-- With memory, and in a loop where every driver is in one place, ku_wake on a waiter that is not done puts
-- the driver parked on it into the ready queue, where it then stands once, leaves every driver in one
-- place, and makes the waiter done; a second call changes nothing.
pub wake-Woken :
    (run : List ℕ) (l : Loop) (w d : ℕ)
    → Sane run l
    → (l.waiter w).done ≡ false
    → (l.waiter w).driver ≡ some d
    → Sane run (wake true l w)
      × (queued d (wake true l w).ready ≡ 1)
      × (((wake true l w).waiter w).done ≡ true)
      × (wake true (wake true l w) w ≡ wake true l w)
wake-Woken run l w d s e f =
    let after : Sane run (wake true l w) = wake-Sane run l w s in
    let m : Loop = hooked l w (l.waiter w).on_wake in
    let there : 1 ≤ queued d (wake true l w).ready =
      subst (λ (x : Loop). 1 ≤ queued d x.ready) (sym (wake_opened l w e))
        (resume_waiting-queued m w d (hooked-driver l w (l.waiter w).on_wake ∙ f)) in
    let over : ((wake true l w).waiter w).done ≡ true =
      ap (λ (x : Loop). (x.waiter w).done) (wake_opened l w e)
      ∙ ap (λ (x : Waiter). x.done) (resume_waiting-waiter m w w)
      ∙ hooked-done l w (l.waiter w).on_wake in
    (after, omega (arith, after.once d, there), over, wake_again (wake true l w) w over)
