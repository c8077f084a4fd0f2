-- ===== src/Timers/Firing.antt =====
-- `fire_due_timers`, over the timers' callbacks as a parameter.
use kuu.Prelude.{
  ℕ, zero, suc, ◌+◌, ◌≤◌, ◌<◌, ◌≡◌, refl, ap, ◌∙◌, true, false, Option, some, none, leb, ltb, ◌&&◌,
  if◌then◌else◌, inl, inr, arith, Bool-cases,
}
use kuu.Timers.{Timers, key, parent, timer_cancel, IsValid, is_armed}
use kuu.Timers.Heap.{timer_cancel-Cancelled}

-- One round: the earliest timer leaves the heap, and its callback runs.
unfoldable pub fire_first : (Timers → ℕ → Timers) → Timers → Timers
fire_first fire h = let t = h.slot 0 in fire (timer_cancel h t) t

-- The loop, with fuel for its rounds.
unfoldable pub fire_due_timers : (Timers → ℕ → Timers) → ℕ → ℕ → Timers → Timers
fire_due_timers fire zero now h = h
fire_due_timers fire (suc fuel) now h =
    let rest = fire_due_timers fire fuel now (fire_first fire h) in
    if ltb 0 h.len && leb (key h 0) now then rest else h

-- What `waiter_timer_fire` does to the timers, through `ku_wake`: it may cancel some, and arms none.
pub record OnlyCancels (fire : Timers → ℕ → Timers) : Type 0 where
  pub valid : (h : Timers) (t : ℕ) → IsValid h → IsValid (fire h t)
  pub shrinks : (h : Timers) (t : ℕ) → IsValid h → (fire h t).len ≤ h.len
  pub arms_none :
      (h : Timers) (t u : ℕ) → IsValid h → is_armed (fire h t) u ≡ true → is_armed h u ≡ true
  pub same_due : (h : Timers) (t : ℕ) → IsValid h → (fire h t).due ≡ h.due

root_earliest_below :
    (k : ℕ) (h : Timers) (i : ℕ) → IsValid h → i < k → i < h.len → key h 0 ≤ key h i
root_earliest_below zero h i v f p = absurd (omega arith)
root_earliest_below (suc k) h i v f p =
    ground (arith, v.ordered i, root_earliest_below k h (parent i) v)

-- No armed timer of a valid heap is due before the one at the root.
root_earliest :
    (h : Timers) (t : ℕ) → IsValid h → is_armed h t ≡ true → (0 < h.len) × (key h 0 ≤ h.due t)
unfolding is_armed
root_earliest h t v e = by_index (h.index t) refl e
  where
    by_index :
        (o : Option ℕ)
        → h.index t ≡ o
        → (elim o [ none ↦ false | some i ↦ true ]) ≡ true
        → (0 < h.len) × (key h 0 ≤ h.due t)
    by_index none f g = absurd (cc)
    by_index (some i) f g =
        let (inside, here) = v.places.held t i f in
        (
          omega arith,
          omega (arith, ap h.due here, root_earliest_below (suc i) h i v (omega arith) inside),
        )

-- What is left after the loop: a valid heap in which no armed timer is due, and only timers that
-- were armed, at their old instants.
pub record Fired (now : ℕ) (h h' : Timers) : Type 0 where
  pub valid : IsValid h'
  pub later : (t : ℕ) → is_armed h' t ≡ true → now < h.due t
  pub still : (t : ℕ) → is_armed h' t ≡ true → is_armed h t ≡ true
  pub same_due : h'.due ≡ h.due

module _ (fire : Timers → ℕ → Timers) (law : OnlyCancels fire) where
  fire_first_shrinks :
      (h : Timers)
      → IsValid h
      → 0 < h.len
      → IsValid (fire_first fire h)
        × ((fire_first fire h).len < h.len)
        × ((t : ℕ) → is_armed (fire_first fire h) t ≡ true → is_armed h t ≡ true)
        × ((fire_first fire h).due ≡ h.due)
  unfolding fire_first
  fire_first_shrinks h v pos =
      let t = h.slot 0 in
      let c = timer_cancel-Cancelled h t v in
      let armed : is_armed h t ≡ true = unfold is_armed in ground (arith, v.places.placed 0 pos) in
      let idle = timer_cancel h t in
      (
        law.valid idle t c.valid,
        ground (arith, law.shrinks idle t c.valid, c.count, armed),
        λ u e. ground (arith, law.arms_none idle t u c.valid e, c.armed u),
        law.same_due idle t c.valid ∙ c.same_due,
      )

  fire_loop-Fired :
      (fuel now : ℕ) (h : Timers)
      → h.len < fuel
      → IsValid h
      → Fired now h (fire_due_timers fire fuel now h)
  unfolding fire_due_timers
  fire_loop-Fired zero now h f v = absurd (omega arith)
  fire_loop-Fired (suc fuel) now h f v = elim (Bool-cases (ltb 0 h.len && leb (key h 0) now)) [
    | inr stop ↦ rw stop (record {
      valid = v;
      later = λ t e. ground (arith, root_earliest h t v e);
      still = λ t e. e;
      same_due = refl;
    })
    | inl go ↦
        let (w, less, sub, due) = fire_first_shrinks h v (ground arith) in
        let r = fire_loop-Fired fuel now (fire_first fire h) (omega arith) w in
        rw go (record {
          valid = r.valid;
          later = λ t e. omega (arith, r.later t e, ap (λ d. d t) due);
          still = λ t e. sub t (r.still t e);
          same_due = r.same_due ∙ due;
        })
  ]

  -- With callbacks that only cancel timers, `fire_due_timers` ends within one round for each timer,
  -- leaves a valid heap, and leaves no armed timer that is due at `now`.
  pub fire_due_timers-Fired :
      (now : ℕ) (h : Timers) → IsValid h → Fired now h (fire_due_timers fire (h.len + 1) now h)
  fire_due_timers-Fired now h v = fire_loop-Fired (h.len + 1) now h (omega arith) v
