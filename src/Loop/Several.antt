-- ===== src/Loop/Several.antt =====
-- What `ku_wake` of src/loop.c and `multi_sub_woken` of src/proc.c make of a wait on several children.
use kuu.Prelude.{
  ℕ, ◌+◌, ◌-◌, ◌<◌, ◌≡◌, refl, sym, subst, ap, ◌∙◌, ◌⊎◌, inl, inr, true, false, Bool-cases, List,
  [], ◌∷◌, Option, none, some, ◌==◌, not, ◌||◌, if◌then◌else◌, Any, ◌↔◌, arith, by_if,
}
use kuu.Timers.{update}
use kuu.Loop.{
  Waiter, Loop, Multi, enqueue, set_waiter, resume_waiting, mark_done, wake_alone, index_from,
  record_child, multi_sub_woken, wake,
}

index_from-found :
    (subs : List ℕ) (w i : ℕ) → Any (λ v. v ≡ w) subs → (k : ℕ) × (index_from subs w i ≡ some k)
unfolding index_from
index_from-found [] w i p = elim p [ ]
index_from-found (v ∷ subs) w i p =
    by_if (λ o. (k : ℕ) × (o ≡ some k)) (v == w) _ _ (λ e. (i, refl))
      (λ e. elim p [
        | inl here ↦ absurd (ground (arith, e, here))
        | inr there ↦ index_from-found subs w (i + 1) there
      ])

resume_waiting-multi :
    (l : Loop) (v w k : ℕ)
    → ((resume_waiting true l v).waiter w ≡ l.waiter w)
      × ((resume_waiting true l v).multi k ≡ l.multi k)
unfolding resume_waiting enqueue
resume_waiting-multi l v w k = by_driver ((l.waiter v).driver)
  where
    by_driver :
        (o : Option ℕ)
        → let m : Loop = elim o as (λ x. Loop) [ none ↦ l | some d ↦ (enqueue true l d 0).0 ] in
          (m.waiter w ≡ l.waiter w) × (m.multi k ≡ l.multi k)
    by_driver none = (refl, refl)
    by_driver (some d) = (refl, refl)

-- A wait on several children: its main waiter is not done, and has no hook; a child's waiter is another one,
-- with the hook.
pub record IsWaiting (l : Loop) (k sub : ℕ) : Type 0 where
  pub open_sub : (l.waiter sub).done ≡ false
  pub open_main : (l.waiter (l.multi k).main).done ≡ false
  pub apart : (sub == (l.multi k).main) ≡ false
  pub hook : (l.waiter sub).on_wake ≡ some k
  pub listed : Any (λ v. v ≡ sub) (l.multi k).subs

-- The main waiter is woken at the first child, or, where all are waited for, at the last; one child fewer remains.
abbrev Counts : Multi → Multi → Waiter → Type 0
Counts old new main =
    (new.remaining + 1 ≡ old.remaining)
    × ((main.done ≡ true) ↔ ((old.need_all ≡ false) ⊎ (new.remaining ≡ 0)))

abbrev pub IsCounted : Loop → ℕ → Loop → Type 0
IsCounted l k m = Counts (l.multi k) (m.multi k) (m.waiter (l.multi k).main)

update_here : {A : Type 0} (f : ℕ → A) (w : ℕ) (new : A) → update f w new w ≡ new
update_here f w new =
    by_if (λ x. x ≡ new) (w == w) new (f w) (λ e. refl) (λ e. absurd (ground (arith, e)))

other_done :
    (waiter : ℕ → Waiter) (v w : ℕ) (new : Waiter)
    → (w == v) ≡ false
    → (update waiter w new v).done ≡ (waiter v).done
other_done waiter v w new e =
    by_if (λ (x : Waiter). x.done ≡ (waiter v).done) (v == w) new (waiter v)
      (λ f. absurd (ground (arith, e, f))) (λ f. refl)

mark_done-other :
    (l : Loop) (v w : ℕ) → (w == v) ≡ false → ((mark_done l w).waiter v).done ≡ (l.waiter v).done
unfolding mark_done set_waiter
mark_done-other l v w = other_done l.waiter v w (record (l.waiter w) { done = true })

record_child-other :
    (l : Loop) (v w k i : ℕ)
    → (w == v) ≡ false
    → ((record_child l w k i).waiter v).done ≡ (l.waiter v).done
unfolding record_child set_waiter
record_child-other l v w k i = other_done l.waiter v w (record (l.waiter w) { value = none })

mark_done-itself : (l : Loop) (w : ℕ) → ((mark_done l w).waiter w).done ≡ true
unfolding mark_done set_waiter
mark_done-itself l w =
    ap (λ (x : Waiter). x.done) (update_here l.waiter w (record (l.waiter w) { done = true }))

wake_alone-main :
    (m : Loop) (v k : ℕ)
    → (m.waiter v).done ≡ false
    → (((wake_alone true m v).waiter v).done ≡ true) × ((wake_alone true m v).multi k ≡ m.multi k)
unfolding wake_alone mark_done set_waiter
wake_alone-main m v k e =
    let (a, b) = resume_waiting-multi (mark_done m v) v v k in
    rw e (ap (λ (x : Waiter). x.done) a ∙ mark_done-itself m v, b)

module _ (l : Loop) (k sub : ℕ) (h : IsWaiting l k sub) where
  wake-hooked :
      wake true l sub ≡ resume_waiting true (multi_sub_woken true (mark_done l sub) sub k) sub
  unfolding wake
  wake-hooked = rw (wake, h.open_sub, h.hook) refl

  -- What `record_child` leaves of the wait and of its main waiter.
  record_child-marked :
      (i : ℕ)
      → (((record_child (mark_done l sub) sub k i).multi k).remaining ≡ (l.multi k).remaining - 1)
        × (((record_child (mark_done l sub) sub k i).waiter (l.multi k).main).done ≡ false)
  unfolding record_child mark_done set_waiter
  record_child-marked i = (
    ap (λ (x : Multi). x.remaining) (update_here l.multi k _),
    record_child-other (mark_done l sub) (l.multi k).main sub k i h.apart
        ∙ mark_done-other l (l.multi k).main sub h.apart
        ∙ h.open_main,
  )

  hook-IsCounted :
      0 < (l.multi k).remaining → IsCounted l k (multi_sub_woken true (mark_done l sub) sub k)
  unfolding multi_sub_woken mark_done set_waiter
  hook-IsCounted p =
      let (i, e) = index_from-found (l.multi k).subs sub 0 h.listed in
      by_index (index_from ((mark_done l sub).multi k).subs sub 0) i e
    where
      by_index :
          (o : Option ℕ) (i : ℕ)
          → o ≡ some i
          → let m = mark_done l sub in
            IsCounted l k (elim o as (λ x. Loop) [
              | none ↦ m
              | some i ↦
                  if not (m.multi k).need_all || (m.multi k).remaining == 1
                  then wake_alone true (record_child m sub k i) (m.multi k).main
                  else record_child m sub k i
            ])
      by_index none i e = absurd (ground (arith, e))
      by_index (some j) i e =
          let m = record_child (mark_done l sub) sub k j in
          let (a, b) = record_child-marked j in
          let (c, d) = wake_alone-main m (l.multi k).main k b in
          let new : (wake_alone true m (l.multi k).main).multi k ≡ m.multi k = d in
          let left : ((wake_alone true m (l.multi k).main).multi k).remaining
              ≡ (l.multi k).remaining - 1 =
            ap (λ (x : Multi). x.remaining) new ∙ a in
          by_if (IsCounted l k) (not (l.multi k).need_all || (l.multi k).remaining == 1)
            (wake_alone true m (l.multi k).main) m
            (λ t. (
              omega (arith, left, p),
              (
                λ f. elim (Bool-cases ((l.multi k).need_all)) [
                  | inr any ↦ inl any
                  | inl every ↦
                      let one : (l.multi k).remaining ≡ 1 = ground (arith, t, every) in
                      inr (omega (arith, left, one))
                ],
                λ f. c,
              ),
            ))
            (λ t. (
              omega (arith, a, p),
              (
                λ f. absurd (ground (arith, b, f)),
                λ f. elim f [
                  | inl any ↦ absurd (ground (arith, t, any))
                  | inr zero_left ↦
                      let one : (l.multi k).remaining ≡ 1 = omega (arith, a, p, zero_left) in
                      absurd (ground (arith, t, one))
                ],
              ),
            ))

-- With memory, ku_wake on the waiter of a child, with the hook, that a wait on several children lists
-- beside its main waiter counts the child off, and the main waiter of the wait is done then just when the wait is for any child, or when
-- no child remains. Before, one child at least remained, and neither waiter was done.
pub wake-IsCounted :
    (l : Loop) (k sub : ℕ)
    → IsWaiting l k sub
    → 0 < (l.multi k).remaining
    → IsCounted l k (wake true l sub)
wake-IsCounted l k sub h p =
    let m : Loop = multi_sub_woken true (mark_done l sub) sub k in
    let main = (l.multi k).main in
    let (a, b) = resume_waiting-multi m sub main k in
    subst (IsCounted l k) (sym (wake-hooked l k sub h)) (
      subst (λ x. Counts (l.multi k) x ((resume_waiting true m sub).waiter main)) (sym b)
        (subst (λ x. Counts (l.multi k) (m.multi k) x) (sym a) (hook-IsCounted l k sub h p)))
