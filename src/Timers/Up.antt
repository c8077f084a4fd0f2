-- ===== src/Timers/Up.antt =====
-- `heap_up` restores the order where one entry may be too early for its place.
use kuu.Prelude.{ℕ, zero, suc, ◌≤◌, ◌<◌, ◌≡◌, ◌≢◌, refl, ◌∙◌, leb, ltb, inl, inr, arith, Bool-cases}
use kuu.Timers.{Timers, key, parent, heap_swap, heap_up_loop, heap_up, IsPlaced, IsValid}
use kuu.Timers.Swap.{Moved, key-heap_swap, heap_swap-IsPlaced, heap_swap-Moved}

pub Moved-refl : (h : Timers) → Moved h h
Moved-refl h = record { same_due = refl; same_len = refl; same_cap = refl; same_armed = λ t. refl }

pub Moved-trans : {h i j : Timers} → Moved h i → Moved i j → Moved h j
Moved-trans p q = record {
  same_due = q.same_due ∙ p.same_due;
  same_len = q.same_len ∙ p.same_len;
  same_cap = q.same_cap ∙ p.same_cap;
  same_armed = λ t. q.same_armed t ∙ p.same_armed t;
}

-- Only the edge above `i` may be out of order, and the edges past `i` are in order.
pub record UpInv (h : Timers) (i : ℕ) : Type 0 where
  pub places : IsPlaced h
  pub fits : h.len ≤ h.cap
  pub inside : i < h.len
  pub edges : (c : ℕ) → 0 < c → c < h.len → c ≢ i → key h (parent c) ≤ key h c
  pub bridged : (c : ℕ) → 0 < c → c < h.len → parent c ≡ i → 0 < i → key h (parent i) ≤ key h c

-- A routine's result: a valid heap of the same timers.
pub record Restored (h h' : Timers) : Type 0 where
  pub valid : IsValid h'
  pub moved : Moved h h'

heap_swap-UpInv :
    (h : Timers) (i : ℕ)
    → UpInv h i
    → 0 < i
    → key h i < key h (parent i)
    → UpInv (heap_swap h (parent i) i) (parent i)
heap_swap-UpInv h i v pos below =
    let above : parent i < h.len = omega (arith, v.inside) in
    let at = key-heap_swap h (parent i) i v.places above v.inside in
    let size = (heap_swap-Moved h (parent i) i v.places above v.inside).same_len in
    record {
      places = heap_swap-IsPlaced h (parent i) i v.places above v.inside;
      fits =
          omega (
            arith,
            size,
            v.fits,
            (heap_swap-Moved h (parent i) i v.places above v.inside).same_cap,
          );
      inside = omega (arith, size);
      edges = λ c p q n.
          ground (arith, size, at c, at (parent c), v.edges c, v.bridged c, v.edges (parent i));
      bridged = λ c p q e r.
          ground (arith, size, at c, at (parent (parent i)), v.edges c, v.edges (parent i));
    }

pub heap_up_loop-Restored :
    (fuel : ℕ) (h : Timers) (i : ℕ) → i ≤ fuel → UpInv h i → Restored h (heap_up_loop fuel h i)
unfolding heap_up_loop
heap_up_loop-Restored zero h i f v = record {
  valid = record {
    places = v.places;
    fits = v.fits;
    ordered = λ c p q. v.edges c p q (omega arith);
  };
  moved = Moved-refl h;
}
heap_up_loop-Restored (suc fuel) h i f v = elim (Bool-cases (ltb 0 i)) [
  | inr root ↦ rw root (record {
    valid = record {
      places = v.places;
      fits = v.fits;
      ordered = λ c p q. v.edges c p q (ground arith);
    };
    moved = Moved-refl h;
  })
  | inl pos ↦ elim (Bool-cases (leb (key h (parent i)) (key h i))) [
    | inl settled ↦
        rw (pos, settled)
          (record {
            valid = record {
              places = v.places;
              fits = v.fits;
              ordered = λ c p q. ground (arith, v.edges c p q);
            };
            moved = Moved-refl h;
          })
    | inr below ↦
        let above : parent i < h.len = omega (arith, v.inside) in
        let next =
          heap_up_loop-Restored fuel (heap_swap h (parent i) i) (parent i) (ground arith)
            (heap_swap-UpInv h i v (ground arith) (ground arith)) in
        rw (pos, below)
          (record {
            valid = next.valid;
            moved = Moved-trans (heap_swap-Moved h (parent i) i v.places above v.inside) next.moved;
          })
  ]
]

pub heap_up-Restored : (h : Timers) (i : ℕ) → UpInv h i → Restored h (heap_up h i)
unfolding heap_up
heap_up-Restored h i v = heap_up_loop-Restored i h i (omega arith) v

-- On a valid heap `heap_up` stops at once.
heap_up_loop_valid :
    (fuel : ℕ) (h : Timers) (i : ℕ) → IsValid h → i < h.len → heap_up_loop fuel h i ≡ h
unfolding heap_up_loop
heap_up_loop_valid zero h i v hi = refl
heap_up_loop_valid (suc fuel) h i v hi = ground (arith, v.ordered i)

pub heap_up_valid : (h : Timers) (i : ℕ) → IsValid h → i < h.len → heap_up h i ≡ h
unfolding heap_up
heap_up_valid h i v hi = heap_up_loop_valid i h i v hi
