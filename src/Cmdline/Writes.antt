-- ===== src/Cmdline/Writes.antt =====
-- What writing to the buffer amounts to.
use native.Mathlib.Nat.{pow-suc}
use kuu.Prelude.{
  ℕ, zero, suc, ◌+◌, ◌*◌, ◌^◌, ◌<◌, ◌≤◌, Bool, true, false, ◌≡◌, refl, ap, inl, inr, [], ◌∷◌, ◌++◌,
  arith, length, length-append, Bool-cases, append-nil, append_assoc, Bytes,
}
use kuu.Cmdline.Buffer.{size_max, Sb, grow_cap, sb_ensure, sb_puts, sb_putc, put}

-- With fuel for the doublings, the loop ends at a capacity that is large enough.
le-grow_cap : (fuel cap need : ℕ) → need ≤ cap * 2 ^ fuel → need ≤ grow_cap fuel cap need
unfolding grow_cap
le-grow_cap zero cap need h = omega (arith, h)
le-grow_cap (suc fuel) cap need h =
    let h' = rw pow-suc at h in ground (arith, le-grow_cap fuel (cap * 2) need (omega arith))

-- No capacity passes SIZE_MAX, so `cap *= 2` never wraps around.
grow_cap-le :
    (fuel cap need : ℕ) → cap ≤ size_max → need ≤ size_max → grow_cap fuel cap need ≤ size_max
unfolding grow_cap
grow_cap-le zero cap need hc hn = hc
grow_cap-le (suc fuel) cap need hc hn = ground (arith, grow_cap-le fuel (cap * 2) need)

-- The text and its terminator fit the block, and the block's size is a size_t.
pub record IsSized (b : Sb) : Type 0 where
  pub started : 64 ≤ b.cap
  pub room : length b.text + 1 ≤ b.cap
  pub bounded : b.cap ≤ size_max

module _ (alloc : ℕ → Bool) where
  -- `b'` is `b` with `w` written behind its text, unless an allocation failed; and none fails if
  -- the allocator grants all and the text stays below SIZE_MAX.
  pub record Writes (w : Bytes) (b b' : Sb) : Type 0 where
    pub exact : b'.failed ≡ false → (b.failed ≡ false) × (b'.text ≡ b.text ++ w)
    pub granted :
        ((n : ℕ) → alloc n ≡ true)
        → b.failed ≡ false
        → length b.text + length w < size_max
        → b'.failed ≡ false

  pub Writes-nil : (b : Sb) → Writes [] b b
  Writes-nil b = record { exact = λ e. (e, rw append-nil); granted = λ g e h. e }

  pub Writes-append : {u v : Bytes} {b c d : Sb} → Writes u b c → Writes v c d → Writes (u ++ v) b d
  Writes-append {u} {v} {b} {c} {d} p q = record {
    exact = λ e.
        let (ec, td) = q.exact e in
        let (eb, tc) = p.exact ec in (eb, rw (td, tc) (append_assoc b.text u v));
    granted = λ g e h.
        let ec = p.granted g e (omega (arith, length-append u v)) in
        let tc = (p.exact ec).1 in
        q.granted g ec (rw tc (omega (arith, length-append u v, length-append b.text u)));
  }

  -- `sb_ensure` keeps the text, fails for good or not at all, and fails only where the allocator
  -- does or the size leaves size_t.
  record Ensured (b : Sb) (extra : ℕ) (r : Sb × Bool) : Type 0 where
    kept : r.0.text ≡ b.text
    granted : r.1 ≡ true → (b.failed ≡ false) × (r.0.failed ≡ false)
    refused : r.1 ≡ false → r.0.failed ≡ true
    only_then :
        ((n : ℕ) → alloc n ≡ true)
        → b.failed ≡ false
        → length b.text + extra < size_max
        → r.1 ≡ true

  sb_ensure-Ensured : (b : Sb) (extra : ℕ) → Ensured b extra (sb_ensure alloc b extra)
  unfolding sb_ensure
  sb_ensure-Ensured b extra = record {
    kept = ground arith;
    granted = λ e. ground arith;
    refused = λ e. ground arith;
    only_then = λ g e h. ground (arith, g (grow_cap 64 b.cap (length b.text + extra + 1)));
  }

  put-Writes : (b : Sb) (s : Bytes) (r : Sb × Bool) → Ensured b (length s) r → Writes s b (put r s)
  unfolding put
  put-Writes b s (r, true) v = record {
    exact = λ e. ground (arith, v.granted refl);
    granted = λ g e h. (v.granted refl).1;
  }
  put-Writes b s (r, false) v = record {
    exact = λ e. absurd (cc (v.refused refl));
    granted = λ g e h. absurd (cc (v.only_then g e h));
  }

  pub sb_puts-Writes : (b : Sb) (s : Bytes) → Writes s b (sb_puts alloc b s)
  unfolding sb_puts
  sb_puts-Writes b s = put-Writes b s _ (sb_ensure-Ensured b (length s))

  pub sb_putc-Writes : (b : Sb) (c : ℕ) → Writes (c ∷ []) b (sb_putc alloc b c)
  unfolding sb_putc
  sb_putc-Writes b c = put-Writes b (c ∷ []) _ (sb_ensure-Ensured b 1)

  sb_ensure-IsSized : (b : Sb) (extra : ℕ) → IsSized b → IsSized (sb_ensure alloc b extra).0
  unfolding sb_ensure
  sb_ensure-IsSized b extra v =
      let need = length b.text + extra + 1 in
      ground (arith, le-grow_cap 64 b.cap need, grow_cap-le 64 b.cap need)

  sb_ensure_room :
      (b : Sb) (extra : ℕ)
      → IsSized b
      → (sb_ensure alloc b extra).1 ≡ true
      → length b.text + extra + 1 ≤ (sb_ensure alloc b extra).0.cap
  unfolding sb_ensure
  sb_ensure_room b extra v e =
      let need = length b.text + extra + 1 in
      ground (arith, le-grow_cap 64 b.cap need, grow_cap-le 64 b.cap need)

  -- Appending keeps the text and its terminator within the block, and the block within size_t,
  -- also where an allocation fails.
  pub sb_puts-IsSized : (b : Sb) (s : Bytes) → IsSized b → IsSized (sb_puts alloc b s)
  unfolding sb_puts put
  sb_puts-IsSized b s v = elim (Bool-cases (sb_ensure alloc b (length s)).1) [
    | inl e ↦
        let room = sb_ensure_room b (length s) v e in
        let w = sb_ensure-IsSized b (length s) v in
        rw e (record {
          started = w.started;
          room = omega (
            arith,
            length-append (sb_ensure alloc b (length s)).0.text s,
            ap length (sb_ensure-Ensured b (length s)).kept,
            room,
          );
          bounded = w.bounded;
        })
    | inr e ↦ rw e (sb_ensure-IsSized b (length s) v)
  ]
