-- ===== src/Timers/Arming.antt =====
-- `ku_timer_arm`.
use kuu.Prelude.{
  ℕ, ◌+◌, ◌*◌, ◌<◌, ◌≡◌, ap, ◌∙◌, Bool, true, false, some, none, ◌==◌, if◌then◌else◌, inl, inr,
  arith, Bool-cases,
}
use kuu.Timers.{Timers, parent, update, timer_cancel, push_timer, timer_arm, IsValid, is_armed}
use kuu.Timers.Up.{UpInv, heap_up-Restored}
use kuu.Timers.Heap.{Cancelled, timer_cancel-Cancelled}

-- What arming timer `t` for the instant `due` leaves: a valid heap with `t` added, due then, and
-- every other timer as it was.
pub record Armed (h : Timers) (t due : ℕ) (h' : Timers) : Type 0 where
  pub valid : IsValid h'
  pub armed : (u : ℕ) → is_armed h' u ≡ (if u == t then true else is_armed h u)
  pub due_is : h'.due ≡ update h.due t due

abbrev pushed : Timers → ℕ → ℕ → Timers
pushed h t due = record h {
  due = update h.due t due;
  index = update h.index t (some h.len);
  slot = update h.slot h.len t;
  len = h.len + 1;
}

not_armed : (h : Timers) (t : ℕ) → is_armed h t ≡ false → h.index t ≡ none
unfolding is_armed
not_armed h t e = ground arith

push_timer-Armed :
    (h : Timers) (t due : ℕ)
    → IsValid h
    → is_armed h t ≡ false
    → h.len < h.cap
    → Armed h t due (push_timer h t due)
unfolding push_timer
push_timer-Armed h t due v idle room =
    let free = not_armed h t idle in
    let p = v.places.placed in
    let up : UpInv (pushed h t due) h.len = record {
      places = record {
        placed = λ j hj. ground (arith, p j, free);
        held = λ u j e. ground (arith, v.places.held u j, free);
      };
      fits = omega arith;
      inside = omega arith;
      edges = λ c q r n. ground (arith, v.ordered c q, p c, p (parent c), free);
      bridged = λ c q r e s. omega arith;
    } in
    let r = heap_up-Restored (pushed h t due) h.len up in
    record {
      valid = r.valid;
      armed = λ u. r.moved.same_armed u ∙ unfold is_armed in ground arith;
      due_is = r.moved.same_due;
    }

-- Growing the array is unseen.
grown-Armed :
    (h : Timers) (cap t due : ℕ)
    → IsValid h
    → is_armed h t ≡ false
    → h.len < cap
    → Armed h t due (push_timer (record h { cap = cap }) t due)
grown-Armed h cap t due v idle room =
    let grown = record h { cap = cap } in
    let r =
      push_timer-Armed grown t due
        (record {
          places = record { placed = v.places.placed; held = v.places.held };
          fits = omega arith;
          ordered = v.ordered;
        })
        (unfold is_armed in idle) room in
    record { valid = r.valid; armed = λ u. unfold is_armed in r.armed u; due_is = r.due_is }

-- The two outcomes of `ku_timer_arm`: armed, or cancelled for want of memory.
abbrev pub Outcome : Timers → ℕ → ℕ → Timers × Bool → Type 0
Outcome h t due (h', true) = Armed h t due h'
Outcome h t due (h', false) = Cancelled h t h'

Cancelled-Armed :
    {h c h' : Timers} {t due : ℕ} → Cancelled h t c → Armed c t due h' → Armed h t due h'
Cancelled-Armed {t} {due} p q = record {
  valid = q.valid;
  armed = λ u. ground (arith, q.armed u, p.armed u);
  due_is = q.due_is ∙ ap (λ d. update d t due) p.same_due;
}

module _ (alloc : ℕ → Bool) (now : ℕ) (h : Timers) (t delay : ℕ) where
  -- Where `ku_timer_arm` reports success the timer is armed for `delay` from now, wherever it stood
  -- before, and the other timers keep their instants; where it reports failure the timer is left
  -- cancelled. The heap is valid on both branches.
  pub timer_arm-Outcome : IsValid h → Outcome h t (now + delay) (timer_arm alloc now h t delay)
  unfolding timer_arm
  timer_arm-Outcome v =
      let c = timer_cancel-Cancelled h t v in
      let idle = timer_cancel h t in
      let free : is_armed idle t ≡ false = ground (arith, c.armed t) in
      let cap = if idle.cap == 0 then 16 else idle.cap * 2 in
      elim (Bool-cases (idle.len == idle.cap)) [
        | inr e ↦ rw e (
            Cancelled-Armed c
              (push_timer-Armed idle t (now + delay) c.valid free (ground (arith, c.valid.fits))))
        | inl e ↦ elim (Bool-cases (alloc cap)) [
          | inr a ↦ rw (e, a) c
          | inl a ↦
              rw (e, a)
                (Cancelled-Armed c (
                  grown-Armed idle cap t (now + delay) c.valid free (ground (arith, c.valid.fits))))
        ]
      ]

  -- It reports success if the allocator grants the growth.
  timer_arm_granted : ((n : ℕ) → alloc n ≡ true) → (timer_arm alloc now h t delay).1 ≡ true
  unfolding timer_arm
  timer_arm_granted g = ground (arith, g 16, g ((timer_cancel h t).cap * 2))
