-- ===== src/Timers/Down.antt =====
-- `heap_down` restores the order where one entry may be too late for its place.
use kuu.Prelude.{
  ℕ, zero, suc, ◌+◌, ◌*◌, ◌≤◌, ◌<◌, ◌≡◌, ◌≢◌, ◌⊎◌, refl, ◌==◌, inl, inr, arith, Bool-cases, ==_iff,
}
use kuu.Timers.{Timers, key, parent, heap_swap, least_of, heap_down_loop, heap_down, IsPlaced}
use kuu.Timers.Swap.{key-heap_swap, heap_swap-IsPlaced, heap_swap-Moved}
use kuu.Timers.Up.{Moved-refl, Moved-trans, Restored}

-- Only the edges below `i` may be out of order, and the edges past `i` are in order.
pub record DownInv (h : Timers) (i : ℕ) : Type 0 where
  pub places : IsPlaced h
  pub fits : h.len ≤ h.cap
  pub inside : i < h.len
  pub edges : (c : ℕ) → 0 < c → c < h.len → parent c ≢ i → key h (parent c) ≤ key h c
  pub bridged : (c : ℕ) → 0 < c → c < h.len → parent c ≡ i → 0 < i → key h (parent i) ≤ key h c

-- Either `i` is no later than its children, or `m` is its earliest child, earlier than `i`.
record IsLeast (h : Timers) (i m : ℕ) : Type 0 where
  which : (m ≡ i) ⊎ ((m < h.len) × ((m ≡ 2 * i + 1) ⊎ (m ≡ 2 * i + 2)) × (key h m < key h i))
  least : (c : ℕ) → 0 < c → c < h.len → parent c ≡ i → key h m ≤ key h c

child_cases : (c i : ℕ) → 0 < c → parent c ≡ i → (c ≡ 2 * i + 1) ⊎ (c ≡ 2 * i + 2)
child_cases c i p e = omega arith

least_of-IsLeast : (h : Timers) (i : ℕ) → IsLeast h i (least_of h i)
unfolding least_of
least_of-IsLeast h i = record {
  which = ground arith;
  least = λ c p q e. ground (arith, child_cases c i p e);
}

heap_swap-DownInv :
    (h : Timers) (i m : ℕ) → DownInv h i → IsLeast h i m → m ≢ i → DownInv (heap_swap h i m) m
heap_swap-DownInv h i m v s ne =
    let hm : m < h.len = omega (arith, s.which) in
    let at = key-heap_swap h i m v.places v.inside hm in
    let size = (heap_swap-Moved h i m v.places v.inside hm).same_len in
    record {
      places = heap_swap-IsPlaced h i m v.places v.inside hm;
      fits = omega (arith, size, v.fits, (heap_swap-Moved h i m v.places v.inside hm).same_cap);
      inside = omega (arith, size);
      edges = λ c p q n.
          ground (arith, size, at c, at (parent c), v.edges c, v.bridged m, s.least c, s.which);
      bridged = λ c p q e r. ground (arith, size, at c, at (parent m), v.edges c, s.which);
    }

heap_down_loop-Restored :
    (fuel : ℕ) (h : Timers) (i : ℕ)
    → h.len ≤ fuel + i
    → DownInv h i
    → Restored h (heap_down_loop fuel h i)
unfolding heap_down_loop
heap_down_loop-Restored zero h i f v = absurd (omega (arith, v.inside))
heap_down_loop-Restored (suc fuel) h i f v =
    let s = least_of-IsLeast h i in
    elim (Bool-cases (least_of h i == i)) [
      | inl settled ↦ rw settled (record {
        valid = record {
          places = v.places;
          fits = v.fits;
          ordered = λ c p q. ground (arith, v.edges c, s.least c);
        };
        moved = Moved-refl h;
      })
      | inr below ↦
          let hm : least_of h i < h.len = ground (arith, s.which) in
          let size = (heap_swap-Moved h i (least_of h i) v.places v.inside hm).same_len in
          let next =
            heap_down_loop-Restored fuel (heap_swap h i (least_of h i)) (least_of h i)
              (ground (arith, s.which, size))
              (heap_swap-DownInv h i (least_of h i) v s (ground arith)) in
          rw below (record {
            valid = next.valid;
            moved =
                Moved-trans (heap_swap-Moved h i (least_of h i) v.places v.inside hm) next.moved;
          })
    ]

pub heap_down-Restored : (h : Timers) (i : ℕ) → DownInv h i → Restored h (heap_down h i)
unfolding heap_down
heap_down-Restored h i v = heap_down_loop-Restored h.len h i (omega arith) v

heap_down_loop_settled :
    (fuel : ℕ) (h : Timers) (i : ℕ) → least_of h i ≡ i → heap_down_loop fuel h i ≡ h
unfolding heap_down_loop
heap_down_loop_settled zero h i e = refl
heap_down_loop_settled (suc fuel) h i e = ground (arith, (==_iff (least_of h i) i).1 e)

-- Where no child is earlier than its parent `i`, `heap_down` stops at once.
pub heap_down_settled :
    (h : Timers) (i : ℕ)
    → i < h.len
    → ((c : ℕ) → 0 < c → c < h.len → parent c ≡ i → key h i ≤ key h c)
    → heap_down h i ≡ h
unfolding heap_down
heap_down_settled h i hi below =
    let s = least_of-IsLeast h i in
    heap_down_loop_settled h.len h i (ground (arith, s.which, below (least_of h i)))
