-- ===== src/Re/Scan/Progress.antt =====
-- Every match that `next_match` of src/re.c finds brings the scan forward.
use kuu.Prelude.{
  ℕ, zero, suc, ◌+◌, ◌-◌, ◌*◌, ◌≤◌, ◌<◌, ◌≡◌, refl, ap, sym, ◌∙◌, Bool, true, false, some, none,
  ltb, leb, ◌==◌, ◌&&◌, if◌then◌else◌, within, Bytes, length, arith, by_if,
}
use kuu.Prelude.Results.{failed, done}
use kuu.Re.{Match, Found, found, no_match, broken, Pattern, do_match, byte_at, IsLawful}
use kuu.Re.Scan.{
  skip_continuation, advance, Scan, is_retry, Next, ended, next, raised, after_match, Round, again,
  over, next_round, next_loop, stepped, next_match,
}

skip_continuation_lem :
    (fuel : ℕ) (s : Bytes) (i bound : ℕ)
    → i ≤ bound
    → length s ≤ bound
    → (i ≤ skip_continuation fuel s i) × (skip_continuation fuel s i ≤ bound)
unfolding skip_continuation
skip_continuation_lem zero s i bound p q = (omega arith, p)
skip_continuation_lem (suc fuel) s i bound p q =
    by_if (λ x. (i ≤ x) × (x ≤ bound)) (ltb i (length s) && within 128 191 (byte_at s i)) _ _
      (λ e.
        let (a, b) = skip_continuation_lem fuel s (i + 1) bound (ground arith) q in
        (omega arith, b))
      (λ e. (omega arith, p))

-- A step forward is one, and stops behind the last byte.
pub advance_lem :
    (s : Bytes) (i : ℕ) (utf : Bool)
    → i ≤ length s
    → (i < advance s i utf) × (advance s i utf ≤ length s + 1)
unfolding advance
advance_lem s i utf p =
    by_if (λ x. (i < x) × (x ≤ length s + 1)) (leb (length s) i) _ _
      (λ e. (omega arith, omega arith))
      (λ e.
        by_if (λ x. (i < x) × (x ≤ length s + 1))
          (byte_at s i == 13 && ltb (i + 1) (length s) && byte_at s (i + 1) == 10) _ _
          (λ f. (omega arith, ground arith))
          (λ f.
            by_if (λ x. (i < x) × (x ≤ length s + 1)) utf _ _
              (λ u.
                let (a, b) =
                  skip_continuation_lem (length s) s (i + 1) (length s) (ground arith)
                    (omega arith) in
                (omega arith, omega arith))
              (λ u. (omega arith, ground arith))))

-- What goes down with every match and every new round.
abbrev pub measure : Bytes → Scan → ℕ
measure s c = 2 * (length s + 1 - c.at) + (if is_retry c then 0 else 1)

-- What `next_match` makes of a scan.
abbrev pub Progressed : Bytes → Scan → Next → Type 0
Progressed s c (ended d) = Unit
Progressed s c (raised e) = Unit
Progressed s c (next m d) =
    (c.at ≤ m.begin)
    × (m.begin ≤ m.end)
    × (m.end ≤ length s)
    × (d.at ≡ m.end)
    × (measure s d < measure s c)

abbrev RoundProgressed : Bytes → Scan → Round → Type 0
RoundProgressed s c (over n) = Progressed s c n
RoundProgressed s c (again d) =
    (is_retry c ≡ true)
    × (is_retry d ≡ false)
    × (c.at ≤ d.at)
    × (d.at ≤ length s + 1)
    × (measure s d ≤ measure s c)

is_retry-after_match : (c : Scan) (m : Match) → is_retry (after_match c m) ≡ (m.end == m.begin)
unfolding is_retry after_match
is_retry-after_match c m = ground arith

fewer :
    (n at begin end : ℕ) (retry : Bool)
    → at ≤ begin
    → begin ≤ end
    → end ≤ n
    → (retry ≡ true → at < end)
    → 2 * (n + 1 - end) + (if end == begin then 0 else 1)
      < 2 * (n + 1 - at) + (if retry then 0 else 1)
fewer n at begin end true p q l h = let lt = h refl in ground arith
fewer n at begin end false p q l h = ground arith

module _ (r : Pattern) (law : IsLawful r) (s : Bytes) where
  after_match-Progressed :
      (c : Scan) (m : Match)
      → c.at ≤ length s
      → r.run s c.at (is_retry c) c.checked ≡ found m
      → Progressed s c (next m (after_match c m))
  unfolding is_retry after_match
  after_match-Progressed c m p e =
      let (a, b, d) = law.bounds s c.at (is_retry c) c.checked m p e in
      let moved : (after_match c m).at ≡ m.end = unfold after_match in refl in
      (
        a,
        b,
        d,
        moved,
        rw (moved, is_retry-after_match c m)
            (fewer (length s) c.at m.begin m.end (is_retry c) a b d (λ f.
              law.not_empty s c.at c.checked m p (ap (λ b. r.run s c.at b c.checked) (sym f) ∙ e))),
      )

  retried :
      (c : Scan) → c.at ≤ length s → is_retry c ≡ true → RoundProgressed s c (again (stepped r s c))
  unfolding stepped is_retry
  retried c q f =
      let (a, b) = advance_lem s c.at r.utf q in
      (f, refl, omega (arith, a), b, rw f (omega (arith, a, b)))

  next_round-Progressed : (c : Scan) → c.at ≤ length s + 1 → RoundProgressed s c (next_round r s c)
  unfolding next_round
  next_round-Progressed c p =
      by_if (RoundProgressed s c) (ltb (length s) c.at) _ _ (λ e. tt)
        (λ e. by_found (r.run s c.at (is_retry c) c.checked) refl (ground arith))
    where
      by_found :
          (o : Found)
          → r.run s c.at (is_retry c) c.checked ≡ o
          → c.at ≤ length s
          → RoundProgressed s c (elim (do_match r s c.at (is_retry c) c.checked) [
            | failed e ↦ over (raised e)
            | done none ↦
                if is_retry c
                then again (stepped r s c)
                else over (ended (record c { at = length s + 1; checked = true }))
            | done (some m) ↦ over (next m (after_match c m))
          ])
      by_found (found m) e q = unfold do_match in rw e (after_match-Progressed c m q e)
      by_found (broken rc) e q = unfold do_match in rw e tt
      by_found no_match e q =
          unfold do_match in
          rw e (by_if (RoundProgressed s c) (is_retry c) _ _ (λ f. retried c q f) (λ f. tt))

  widen :
      (c d : Scan) (n : Next)
      → c.at ≤ d.at
      → measure s d ≤ measure s c
      → Progressed s d n
      → Progressed s c n
  widen c d (ended e) p q h = tt
  widen c d (raised e) p q h = tt
  widen c d (next m e) p q (a, b, l, at, less) = (omega arith, b, l, at, omega arith)

  -- Rounds, however many there is fuel for.
  next_loop-Progressed :
      (fuel : ℕ) (c : Scan) → c.at ≤ length s + 1 → Progressed s c (next_loop fuel r s c)
  unfolding next_loop
  next_loop-Progressed zero c p = tt
  next_loop-Progressed (suc fuel) c p =
      from_round (next_round r s c) (next_round-Progressed c p) (next_loop-Progressed fuel)
    where
      from_round :
          (o : Round)
          → RoundProgressed s c o
          → ((d : Scan) → d.at ≤ length s + 1 → Progressed s d (next_loop fuel r s d))
          → Progressed s c (elim o [ over n ↦ n | again d ↦ next_loop fuel r s d ])
      from_round (over n) h rest = h
      from_round (again d) (f, g, a, b, l) rest = widen c d (next_loop fuel r s d) a l (rest d b)

  settled_once :
      (fuel : ℕ) (c : Scan)
      → c.at ≤ length s + 1
      → is_retry c ≡ false
      → next_loop (suc fuel) r s c ≡ next_loop 1 r s c
  unfolding next_loop
  settled_once fuel c p f = from_round (next_round r s c) (next_round-Progressed c p)
    where
      from_round :
          (o : Round)
          → RoundProgressed s c o
          → elim o [ over n ↦ n | again d ↦ next_loop fuel r s d ]
            ≡ elim o [ over n ↦ n | again d ↦ next_loop 0 r s d ]
      from_round (over n) h = refl
      from_round (again d) (g, _, _, _, _) = absurd (ground (arith, f, g))

  settled :
      (fuel : ℕ) (c : Scan)
      → c.at ≤ length s + 1
      → next_loop (suc (suc fuel)) r s c ≡ next_match r s c
  unfolding next_match
  settled fuel c p = unfold next_loop in from_round (next_round r s c) (next_round-Progressed c p)
    where
      from_round :
          (o : Round)
          → RoundProgressed s c o
          → elim o [ over n ↦ n | again d ↦ next_loop (suc fuel) r s d ]
            ≡ elim o [ over n ↦ n | again d ↦ next_loop 1 r s d ]
      from_round (over n) h = refl
      from_round (again d) (g, f, a, b, l) = settled_once fuel d b f

-- next_match needs no third round, and with a lawful engine its match lies behind the scan and within
-- the subject, the scan goes on at its end, and the measure goes down.
pub next_match-Progressed :
    (r : Pattern) (law : IsLawful r) (s : Bytes) (c : Scan)
    → c.at ≤ length s + 1
    → Progressed s c (next_match r s c)
      × ((fuel : ℕ) → next_loop (suc (suc fuel)) r s c ≡ next_match r s c)
next_match-Progressed r law s c p =
    let here : Progressed s c (next_match r s c) =
      unfold next_match in next_loop-Progressed r law s 2 c p in
    (here, λ fuel. settled r law s fuel c p)
