-- ===== src/Timers/Swap.antt =====
-- `heap_swap` keeps the bookkeeping.
use kuu.Prelude.{ℕ, ◌<◌, ◌≡◌, ◌==◌, if◌then◌else◌, arith}
use kuu.Timers.{Timers, key, heap_swap, IsPlaced, is_armed}

-- What a routine that only moves entries leaves alone.
pub record Moved (h h' : Timers) : Type 0 where
  pub same_due : h'.due ≡ h.due
  pub same_len : h'.len ≡ h.len
  pub same_cap : h'.cap ≡ h.cap
  pub same_armed : (t : ℕ) → is_armed h' t ≡ is_armed h t

module _ (h : Timers) (a b : ℕ) (v : IsPlaced h) (ha : a < h.len) (hb : b < h.len) where
  pub key-heap_swap :
      (c : ℕ)
      → key (heap_swap h a b) c ≡ (if c == b then key h a else if c == a then key h b else key h c)
  unfolding heap_swap
  key-heap_swap c = ground arith

  pub heap_swap-IsPlaced : IsPlaced (heap_swap h a b)
  unfolding heap_swap
  heap_swap-IsPlaced = record {
    placed = λ i hi. ground (arith, v.placed a ha, v.placed b hb, v.placed i hi);
    held = λ t i e. ground (arith, v.placed a ha, v.placed b hb, v.held t i);
  }

  pub heap_swap-Moved : Moved h (heap_swap h a b)
  unfolding heap_swap is_armed
  heap_swap-Moved = record {
    same_due = ground arith;
    same_len = ground arith;
    same_cap = ground arith;
    same_armed = λ t. ground (arith, v.placed a ha, v.placed b hb);
  }
