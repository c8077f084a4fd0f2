-- ===== src/Loop/Places/Changes.antt =====
-- What a waiter that is done, one that a driver parks on, and a driver that begins or ends do to the places.
use kuu.Prelude.{
  ℕ, ◌+◌, ◌≡◌, refl, sym, subst, ap, ◌∙◌, ◌⊎◌, inl, inr, true, false, Bool-cases, none, some, ◌==◌,
  if◌then◌else◌, arith, by_if,
}
use kuu.Timers.{update}
use kuu.Loop.{Driver, Waiter}
use kuu.Loop.Places.{IsParked, IsAlive, IsSane}

same_number : (a b : ℕ) → (a == b) ≡ true → a ≡ b
same_number a b k = ground (arith, k)

same_some : (a b : ℕ) → some a ≡ some b → (a == b) ≡ true
same_some a b e = ground (arith, e)

-- A waiter that is done has no driver parked on it, and the others are as they were.
module _ (waiter : ℕ → Waiter) (w : ℕ) (new : Waiter) (over : new.done ≡ true) where
  IsParked-before : (v d : ℕ) → IsParked (update waiter w new) v d → IsParked waiter v d
  IsParked-before v d =
      by_if (λ x. (x.done ≡ false) × (x.driver ≡ some d) → IsParked waiter v d) (v == w) new
        (waiter v) (λ k (a, b). absurd (ground (arith, over, a))) (λ k h. h)

  IsParked-after :
      (v d : ℕ) → (v == w) ≡ false → IsParked waiter v d → IsParked (update waiter w new) v d
  IsParked-after v d k h =
      by_if (λ x. (x.done ≡ false) × (x.driver ≡ some d)) (v == w) new (waiter v)
        (λ j. absurd (ground (arith, j, k))) (λ j. h)

  pub awake_alone :
      (p : ℕ → ℕ) (driver : ℕ → Driver)
      → (waiter w).driver ≡ none
      → IsSane p driver waiter
      → IsSane p driver (update waiter w new)
  awake_alone p driver e s = record {
    once = s.once;
    apart = λ v d h. s.apart v d (IsParked-before v d h);
    single = λ u v d h k. s.single u v d (IsParked-before u d h) (IsParked-before v d k);
    placed_alive = s.placed_alive;
    parked_alive = λ v d h. s.parked_alive v d (IsParked-before v d h);
    kept = λ d h. elim (s.kept d h) [
      | inl here ↦ inl here
      | inr (v, k) ↦ inr (v, IsParked-after v d (elsewhere v d k) k)
    ];
  }
    where
      elsewhere : (v d : ℕ) → IsParked waiter v d → (v == w) ≡ false
      elsewhere v d (a, b) = elim (Bool-cases (v == w)) [
        | inr k ↦ k
        | inl k ↦
            let at : v ≡ w = ground (arith, k) in
            absurd (ground (arith, sym (ap (λ x. (waiter x).driver) at) ∙ b, e))
      ]

  not_here : (v d : ℕ) → IsParked (update waiter w new) v d → (v == w) ≡ false
  not_here v d =
      by_if (λ x. (x.done ≡ false) × (x.driver ≡ some d) → (v == w) ≡ false) (v == w) new (waiter v)
        (λ k (a, b). absurd (ground (arith, over, a))) (λ k h. k)

  -- Its driver runs, until it is put in the queue.
  pub awake :
      (p : ℕ → ℕ) (driver : ℕ → Driver) (e : ℕ)
      → IsParked waiter w e
      → IsSane p driver waiter
      → IsSane (λ d. (if e == d then 1 else 0) + p d) driver (update waiter w new)
  awake p driver e at s = record {
    once = λ d. elim (Bool-cases (e == d)) [
      | inl k ↦ ground (arith, k, absent d k)
      | inr k ↦ ground (arith, k, s.once d)
    ];
    apart = λ v d h. elim (Bool-cases (e == d)) [
      | inl k ↦
          let there : IsParked waiter w d =
            subst (λ x. IsParked waiter w x) (same_number e d k) at in
          let here : v ≡ w = s.single v w d (IsParked-before v d h) there in
          absurd (ground (arith, here, not_here v d h))
      | inr k ↦ ground (arith, k, s.apart v d (IsParked-before v d h))
    ];
    single = λ u v d h k. s.single u v d (IsParked-before u d h) (IsParked-before v d k);
    placed_alive = λ d h. elim (Bool-cases (e == d)) [
      | inl k ↦ subst (IsAlive driver) (same_number e d k) (s.parked_alive w e at)
      | inr k ↦ s.placed_alive d (ground (arith, k, h))
    ];
    parked_alive = λ v d h. s.parked_alive v d (IsParked-before v d h);
    kept = λ d h. elim (s.kept d h) [
      | inl here ↦ inl (omega (arith, here))
      | inr (v, k) ↦ elim (Bool-cases (v == w)) [
        | inr other ↦ inr (v, IsParked-after v d other k)
        | inl same ↦
            let there : (waiter w).driver ≡ some d =
              subst (λ x. (waiter x).driver ≡ some d) (same_number v w same) k.1 in
            inl (ground (arith, same_some e d (sym at.1 ∙ there)))
      ]
    ];
  }
    where
      absent : (d : ℕ) → (e == d) ≡ true → p d ≡ 0
      absent d k = subst (λ x. p x ≡ 0) (same_number e d k) (s.apart w e at)

-- The running driver parks on a waiter that has none.
module _ (waiter : ℕ → Waiter) (w e : ℕ) (new : Waiter) (f : new.done ≡ false)
    (g : new.driver ≡ some e) (free : (waiter w).driver ≡ none) where
  here_or_before :
      (v d : ℕ)
      → IsParked (update waiter w new) v d
      → ((v ≡ w) × ((e == d) ≡ true)) ⊎ (((v == w) ≡ false) × IsParked waiter v d)
  here_or_before v d =
      by_if
        (λ x.
          (x.done ≡ false) × (x.driver ≡ some d)
          → ((v ≡ w) × ((e == d) ≡ true)) ⊎ (((v == w) ≡ false) × IsParked waiter v d))
        (v == w) new (waiter v) (λ k (a, b). inl (same_number v w k, same_some e d (sym g ∙ b)))
        (λ k h. inr (k, h))

  now-IsParked : IsParked (update waiter w new) w e
  now-IsParked =
      by_if (λ x. (x.done ≡ false) × (x.driver ≡ some e)) (w == w) new (waiter w) (λ k. (f, g))
        (λ k. absurd (ground (arith, k)))

  still-IsParked : (v d : ℕ) → IsParked waiter v d → IsParked (update waiter w new) v d
  still-IsParked v d (a, b) =
      by_if (λ x. (x.done ≡ false) × (x.driver ≡ some d)) (v == w) new (waiter v)
        (λ k.
          let there : (waiter w).driver ≡ some d =
            subst (λ x. (waiter x).driver ≡ some d) (same_number v w k) b in
          absurd (ground (arith, sym free ∙ there)))
        (λ k. (a, b))

  pub parked :
      (p : ℕ → ℕ) (driver : ℕ → Driver)
      → IsSane (λ d. (if e == d then 1 else 0) + p d) driver waiter
      → IsSane p driver (update waiter w new)
  parked p driver s = record {
    once = λ d. ground (arith, s.once d);
    apart = λ v d h. elim (here_or_before v d h) [
      | inl (at, k) ↦ ground (arith, k, s.once d)
      | inr (other, k) ↦ ground (arith, s.apart v d k)
    ];
    single = λ u v d h k. elim (here_or_before u d h) [
      | inl (at, i) ↦ elim (here_or_before v d k) [
        | inl (there, j) ↦ at ∙ sym there
        | inr (other, j) ↦ absurd (ground (arith, i, s.apart v d j))
      ]
      | inr (other, i) ↦ elim (here_or_before v d k) [
        | inl (there, j) ↦ absurd (ground (arith, j, s.apart u d i))
        | inr (another, j) ↦ s.single u v d i j
      ]
    ];
    placed_alive = λ d h. s.placed_alive d (omega (arith, h));
    parked_alive = λ v d h. elim (here_or_before v d h) [
      | inl (at, k) ↦ s.placed_alive d (ground (arith, k))
      | inr (other, k) ↦ s.parked_alive v d k
    ];
    kept = λ d h. elim (s.kept d h) [
      | inr (v, k) ↦ inr (v, still-IsParked v d k)
      | inl here ↦ elim (Bool-cases (e == d)) [
        | inl k ↦
            inr
              (w, subst (λ x. IsParked (update waiter w new) w x) (same_number e d k) now-IsParked)
        | inr k ↦ inl (ground (arith, k, here))
      ]
    ];
  }

-- A driver begins, or ends.
module _ (p : ℕ → ℕ) (driver : ℕ → Driver) (waiter : ℕ → Waiter) (e : ℕ) (new : Driver) where
  unchanged : (d : ℕ) → (e == d) ≡ false → update driver e new d ≡ driver d
  unchanged d k =
      by_if (λ x. x ≡ driver d) (d == e) new (driver d) (λ j. absurd (ground (arith, j, k)))
        (λ j. refl)

  changed : (d : ℕ) → (e == d) ≡ true → update driver e new d ≡ new
  changed d k =
      by_if (λ x. x ≡ new) (d == e) new (driver d) (λ j. refl) (λ j. absurd (ground (arith, j, k)))

  other-IsAlive : (d : ℕ) → (e == d) ≡ false → IsAlive driver d → IsAlive (update driver e new) d
  other-IsAlive d k (a, b) =
      (ap (λ x. x.started) (unchanged d k) ∙ a, ap (λ x. x.finished) (unchanged d k) ∙ b)

  IsAlive-before : (d : ℕ) → (e == d) ≡ false → IsAlive (update driver e new) d → IsAlive driver d
  IsAlive-before d k (a, b) = (
    sym (ap (λ x. x.started) (unchanged d k)) ∙ a,
    sym (ap (λ x. x.finished) (unchanged d k)) ∙ b,
  )

  pub started :
      new.started ≡ true
      → new.finished ≡ false
      → (driver e).started ≡ false
      → IsSane p driver waiter
      → IsSane (λ d. (if e == d then 1 else 0) + p d) (update driver e new) waiter
  started f g fresh s = record {
    once = λ d. elim (Bool-cases (e == d)) [
      | inl k ↦ ground (arith, k, unborn d k, s.placed_alive d)
      | inr k ↦ ground (arith, k, s.once d)
    ];
    apart = λ w d h. elim (Bool-cases (e == d)) [
      | inl k ↦ absurd (ground (arith, unborn d k, (s.parked_alive w d h).0))
      | inr k ↦ ground (arith, k, s.apart w d h)
    ];
    single = s.single;
    placed_alive = λ d h. elim (Bool-cases (e == d)) [
      | inl k ↦ (ap (λ x. x.started) (changed d k) ∙ f, ap (λ x. x.finished) (changed d k) ∙ g)
      | inr k ↦ other-IsAlive d k (s.placed_alive d (ground (arith, k, h)))
    ];
    parked_alive = λ w d h. elim (Bool-cases (e == d)) [
      | inl k ↦ absurd (ground (arith, unborn d k, (s.parked_alive w d h).0))
      | inr k ↦ other-IsAlive d k (s.parked_alive w d h)
    ];
    kept = λ d h. elim (Bool-cases (e == d)) [
      | inl k ↦ inl (ground (arith, k))
      | inr k ↦ elim (s.kept d (IsAlive-before d k h)) [
        | inl here ↦ inl (omega (arith, here))
        | inr there ↦ inr there
      ]
    ];
  }
    where
      unborn : (d : ℕ) → (e == d) ≡ true → (driver d).started ≡ false
      unborn d k = subst (λ x. (driver x).started ≡ false) (same_number e d k) fresh

  pub finished :
      new.finished ≡ true
      → IsSane (λ d. (if e == d then 1 else 0) + p d) driver waiter
      → IsSane p (update driver e new) waiter
  finished f s = record {
    once = λ d. ground (arith, s.once d);
    apart = λ w d h. ground (arith, s.apart w d h);
    single = s.single;
    placed_alive = λ d h. elim (Bool-cases (e == d)) [
      | inl k ↦ absurd (ground (arith, k, h, s.once d))
      | inr k ↦ other-IsAlive d k (s.placed_alive d (omega (arith, h)))
    ];
    parked_alive = λ w d h. elim (Bool-cases (e == d)) [
      | inl k ↦ absurd (ground (arith, k, s.apart w d h))
      | inr k ↦ other-IsAlive d k (s.parked_alive w d h)
    ];
    kept = λ d h. elim (Bool-cases (e == d)) [
      | inl k ↦ absurd (ground (arith, sym (ap (λ x. x.finished) (changed d k) ∙ f) ∙ h.1))
      | inr k ↦ elim (s.kept d (IsAlive-before d k h)) [
        | inl here ↦ inl (ground (arith, k, here))
        | inr there ↦ inr there
      ]
    ];
  }
