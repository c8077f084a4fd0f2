-- ===== src/Timers/Heap.antt =====
-- Arming and cancelling timers.
use kuu.Prelude.{
  ℕ, ◌-◌, ◌<◌, ◌≡◌, ◌≢◌, refl, ◌∙◌, ◌||◌, false, Option, some, none, leb, ◌==◌, if◌then◌else◌, inl,
  inr, arith, Bool-cases,
}
use kuu.Timers.{
  Timers, key, parent, update, heap_up, heap_down, cancel_at, timer_cancel, IsPlaced, IsValid,
  is_armed,
}
use kuu.Timers.Up.{Restored, UpInv, heap_up-Restored, heap_up_valid}
use kuu.Timers.Down.{heap_down-Restored, heap_down_settled}

-- The heap with the entry at `i` taken out and the last entry put in its place.
abbrev filled : Timers → ℕ → ℕ → Timers
filled h t i =
    let last = h.len - 1 in
    record h {
      slot = update h.slot i (h.slot last);
      len = last;
      index = update (update h.index t none) (h.slot last) (some i);
    }

module _ (h : Timers) (t i : ℕ) (v : IsValid h) (at : h.index t ≡ some i) where
  inside : i < h.len
  inside = (v.places.held t i at).0

  here : h.slot i ≡ t
  here = (v.places.held t i at).1

  module _ (ne : i ≢ h.len - 1) where
    filled-IsPlaced : IsPlaced (filled h t i)
    filled-IsPlaced =
        let p = v.places.placed in
        let hi = inside in
        let e = here in
        record {
          placed = λ j hj. ground (arith, p j, p i hi, p (h.len - 1), e, at);
          held = λ u j f. ground (arith, p j, p i hi, p (h.len - 1), v.places.held u j, e, at);
        }

    -- Either the moved entry is no earlier than its new parent, so `heap_down` does the work; or it
    -- is earlier, and then also no later than its children, so `heap_up` does.
    filled-Restored : Restored (filled h t i) (heap_up (heap_down (filled h t i) i) i)
    filled-Restored = elim (Bool-cases (leb (key h (parent i)) (key h (h.len - 1)) || i == 0)) [
      | inl late ↦
          let o = v.ordered in
          let hi = inside in
          let down = heap_down-Restored (filled h t i) i (record {
            places = filled-IsPlaced;
            fits = omega (arith, v.fits);
            inside = omega (arith, hi, ne);
            edges = λ c p q n. ground (arith, o c p, late);
            bridged = λ c p q e r. ground (arith, o c p, o i r hi);
          }) in
          rw
            (heap_up_valid (heap_down (filled h t i) i) i down.valid
              (omega (arith, down.moved.same_len, hi, ne)))
            down
      | inr early ↦
          let o = v.ordered in
          let hi = inside in
          let pos : 0 < i = ground arith in
          let up : UpInv (filled h t i) i = record {
            places = filled-IsPlaced;
            fits = omega (arith, v.fits);
            inside = omega (arith, hi, ne);
            edges = λ c p q n. ground (arith, o c p, o i pos hi, early);
            bridged = λ c p q e r. ground (arith, o c p, o i pos hi, early);
          } in
          rw
            (heap_down_settled (filled h t i) i (omega (arith, hi, ne))
              (λ c p q e. ground (arith, o c p, o i pos hi, early)))
            (heap_up-Restored (filled h t i) i up)
    ]

-- What `ku_timer_cancel` leaves: a valid heap of the other timers, all as they were.
pub record Cancelled (h : Timers) (t : ℕ) (h' : Timers) : Type 0 where
  pub valid : IsValid h'
  pub armed : (u : ℕ) → is_armed h' u ≡ (if u == t then false else is_armed h u)
  pub same_due : h'.due ≡ h.due
  pub same_cap : h'.cap ≡ h.cap
  pub count : h'.len ≡ (if is_armed h t then h.len - 1 else h.len)

module _ (h : Timers) (t i : ℕ) (v : IsValid h) (at : h.index t ≡ some i) where
  cancel_last-Cancelled :
      i ≡ h.len - 1 → Cancelled h t (record h { index = update h.index t none; len = h.len - 1 })
  cancel_last-Cancelled e =
      let hi = inside h t i v at in
      let p = v.places.placed in
      record {
        valid = record {
          places = record {
            placed = λ j hj. ground (arith, p j, at, here h t i v at);
            held = λ u j f. ground (arith, v.places.held u j, here h t i v at);
          };
          fits = omega (arith, v.fits);
          ordered = λ c q r. v.ordered c q (omega arith);
        };
        armed = λ u. unfold is_armed in ground arith;
        same_due = refl;
        same_cap = refl;
        count = unfold is_armed in ground (arith, at);
      }

  filled_armed :
      i ≢ h.len - 1 → (u : ℕ) → is_armed (filled h t i) u ≡ (if u == t then false else is_armed h u)
  unfolding is_armed
  filled_armed ne u =
      let hi = inside h t i v at in
      let last = v.places.placed (h.len - 1) (omega arith) in
      ground (arith, last, at, here h t i v at, ne)

  cancel_at-Cancelled : Cancelled h t (cancel_at h t i)
  unfolding cancel_at
  cancel_at-Cancelled = elim (Bool-cases (i == h.len - 1)) [
    | inl e ↦ rw e (cancel_last-Cancelled (ground arith))
    | inr e ↦
        let ne : i ≢ h.len - 1 = ground arith in
        let r = filled-Restored h t i v at ne in
        rw e (record {
          valid = r.valid;
          armed = λ u. r.moved.same_armed u ∙ filled_armed ne u;
          same_due = r.moved.same_due;
          same_cap = r.moved.same_cap;
          count = unfold is_armed in ground (arith, at, r.moved.same_len);
        })
  ]

-- Cancelling a timer, armed or not, leaves a valid heap of exactly the other armed timers.
pub timer_cancel-Cancelled : (h : Timers) (t : ℕ) → IsValid h → Cancelled h t (timer_cancel h t)
unfolding timer_cancel
timer_cancel-Cancelled h t v = by_index (h.index t) refl
  where
    by_index :
        (o : Option ℕ)
        → h.index t ≡ o
        → Cancelled h t (elim o [ none ↦ h | some i ↦ cancel_at h t i ])
    by_index (some i) e = cancel_at-Cancelled h t i v e
    by_index none e = record {
      valid = v;
      armed = λ u. unfold is_armed in ground (arith, e);
      same_due = refl;
      same_cap = refl;
      count = unfold is_armed in ground (arith, e);
    }
