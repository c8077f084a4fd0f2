-- ===== src/Re/Scan/Origin.antt =====
-- Where the matches and the errors of `next_match` of src/re.c come from: a call of pcre2_match.
use kuu.Prelude.{
  refl, ◌≤◌, arith, ◌+◌, true, if◌then◌else◌, ℕ, zero, suc, ◌≡◌, Bool, Bytes, some, none, length,
  ltb, by_if,
}
use kuu.Prelude.Results.{failed, done}
use kuu.Re.{Found, found, no_match, broken, Pattern, do_match}
use kuu.Re.Scan.{
  Scan, is_retry, Next, ended, next, raised, after_match, Round, again, over, next_round, next_loop,
  next_match, stepped,
}

abbrev pub Answers : Pattern → Bytes → Found → Type 0
Answers r s o =
    (start : ℕ) × (retry : Bool) × (checked : Bool) × (start ≤ length s)
    × (r.run s start retry checked ≡ o)

abbrev pub Genuine : Pattern → Bytes → Next → Type 0
Genuine r s (ended d) = Unit
Genuine r s (raised e) = (rc : ℕ) × Answers r s (broken rc)
Genuine r s (next m d) = Answers r s (found m)

abbrev RoundGenuine : Pattern → Bytes → Round → Type 0
RoundGenuine r s (over n) = Genuine r s n
RoundGenuine r s (again d) = Unit

module _ (r : Pattern) (s : Bytes) where
  next_round-Genuine : (c : Scan) → RoundGenuine r s (next_round r s c)
  unfolding next_round
  next_round-Genuine c =
      by_if (RoundGenuine r s) (ltb (length s) c.at) _ _ (λ e. tt)
        (λ e. by_found (r.run s c.at (is_retry c) c.checked) refl (ground (arith, e)))
    where
      by_found :
          (o : Found)
          → r.run s c.at (is_retry c) c.checked ≡ o
          → c.at ≤ length s
          → RoundGenuine r s (elim (do_match r s c.at (is_retry c) c.checked) [
            | failed e ↦ over (raised e)
            | done none ↦
                if is_retry c
                then again (stepped r s c)
                else over (ended (record c { at = length s + 1; checked = true }))
            | done (some m) ↦ over (next m (after_match c m))
          ])
      by_found (found m) e q = unfold do_match in rw e (c.at, is_retry c, c.checked, q, e)
      by_found (broken rc) e q = unfold do_match in rw e (rc, (c.at, is_retry c, c.checked, q, e))
      by_found no_match e q =
          unfold do_match in rw e (by_if (RoundGenuine r s) (is_retry c) _ _ (λ f. tt) (λ f. tt))

  next_loop-Genuine : (fuel : ℕ) (c : Scan) → Genuine r s (next_loop fuel r s c)
  unfolding next_loop
  next_loop-Genuine zero c = tt
  next_loop-Genuine (suc fuel) c =
      from_round (next_round r s c) (next_round-Genuine c) (next_loop-Genuine fuel)
    where
      from_round :
          (o : Round)
          → RoundGenuine r s o
          → ((d : Scan) → Genuine r s (next_loop fuel r s d))
          → Genuine r s (elim o [ over n ↦ n | again d ↦ next_loop fuel r s d ])
      from_round (over n) h rest = h
      from_round (again d) h rest = rest d

  pub next_match-Genuine : (c : Scan) → Genuine r s (next_match r s c)
  unfolding next_match
  next_match-Genuine c = next_loop-Genuine 2 c
