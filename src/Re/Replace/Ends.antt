-- ===== src/Re/Replace/Ends.antt =====
-- The loop of `gsub_impl` of src/re.c ends, at the count asked for or before.
use kuu.Prelude.{
  ℕ, zero, suc, ◌+◌, ◌*◌, ◌≤◌, ◌<◌, ◌≡◌, true, Bool-cases, inl, inr, Option, some, none, Bytes,
  length, arith,
}
use kuu.Prelude.Int.{ℤ, pos, negsuc}
use kuu.Prelude.Results.{Result, failed, done}
use kuu.Re.{Pattern, ReError, IsLawful}
use kuu.Re.Scan.{Next, ended, next, raised, next_match}
use kuu.Re.Scan.Progress.{measure, Progressed, next_match-Progressed}
use kuu.Re.Replace.{
  Replacement, add_replacement, Gsub, is_open, is_usable, after_replacement, gsub_loop, finish_gsub,
  begun, gsub,
}

-- No more than `max`, where it is not negative.
abbrev pub IsWithin : ℤ → ℕ → Type 0
IsWithin (negsuc k) count = Unit
IsWithin (pos max) count = count ≤ max

abbrev pub Counted : ℤ → Option (Result ReError Gsub) → Type 0
Counted max none = ⊥
Counted max (some (failed e)) = Unit
Counted max (some (done g)) = IsWithin max g.count

abbrev pub Ended : ℤ → Option (Result ReError (Bytes × ℕ)) → Type 0
Ended max none = ⊥
Ended max (some (failed e)) = Unit
Ended max (some (done (t, count))) = IsWithin max count

one_more : (max : ℤ) (count : ℕ) → is_open max count ≡ true → IsWithin max (count + 1)
unfolding is_open
one_more (negsuc k) count e = tt
one_more (pos max) count e = ground arith

pub none_yet : (max : ℤ) → IsWithin max 0
none_yet (negsuc k) = tt
none_yet (pos max) = omega arith

module _ (r : Pattern) (law : IsLawful r) (s : Bytes) (repl : Replacement) (max : ℤ) where
  pub gsub_loop-Counted :
      (fuel : ℕ) (g : Gsub)
      → g.scan.at ≤ length s + 1
      → measure s g.scan < fuel
      → IsWithin max g.count
      → Counted max (gsub_loop fuel r s repl max g)
  unfolding gsub_loop
  gsub_loop-Counted zero g p lt w = absurd (omega (arith, lt))
  gsub_loop-Counted (suc fuel) g p lt w = elim (Bool-cases (is_open max g.count)) [
    | inr shut ↦ rw (shut, Counted) w
    | inl more ↦
        rw (more, Counted)
          (from_next (next_match r s g.scan) (next_match-Progressed r law s g.scan p).0
            (one_more max g.count more) (gsub_loop-Counted fuel))
  ]
    where
      from_next :
          (o : Next)
          → Progressed s g.scan o
          → IsWithin max (g.count + 1)
          → ((h : Gsub)
              → h.scan.at ≤ length s + 1
              → measure s h.scan < fuel
              → IsWithin max h.count
              → Counted max (gsub_loop fuel r s repl max h))
          → Counted max (elim o [
            | ended c ↦ some (done g)
            | raised e ↦ some (failed e)
            | next m c ↦ elim (add_replacement r m s g.count repl) [
              | failed e ↦ some (failed e)
              | done t ↦ gsub_loop fuel r s repl max (after_replacement s g m c t)
            ]
          ])
      from_next (ended c) h more rest = w
      from_next (raised e) h more rest = tt
      from_next (next m c) (a, b, l, at, less) more rest =
          from_text (add_replacement r m s g.count repl)
        where
          from_text :
              (t : Result ReError Bytes)
              → Counted max (elim t [
                | failed e ↦ some (failed e)
                | done t ↦ gsub_loop fuel r s repl max (after_replacement s g m c t)
              ])
          from_text (failed e) = tt
          from_text (done t) =
              rest (after_replacement s g m c t) (unfold after_replacement in omega (arith, at, l))
                (unfold after_replacement in omega (arith, less, lt))
                (unfold after_replacement in more)

-- gsub ends for every subject, replacement and bound, and has counted no more matches than asked for.
pub gsub-Ended :
    (r : Pattern) (law : IsLawful r) (s : Bytes) (repl : Replacement) (max : ℤ)
    → Ended max (gsub r s repl max)
unfolding gsub
gsub-Ended r law s repl max = elim (Bool-cases (is_usable repl)) [
  | inr bad ↦ rw (bad, Ended) tt
  | inl good ↦ rw (good, Ended) ended_loop
]
  where
    finished :
        (o : Option (Result ReError Gsub))
        → Counted max o
        → Ended max (elim o [
          | none ↦ none
          | some (failed e) ↦ some (failed e)
          | some (done g) ↦ some (done (finish_gsub s g))
        ])
    finished none h = h
    finished (some (failed e)) h = tt
    finished (some (done g)) h = unfold finish_gsub in h

    ended_loop : Ended max (elim (gsub_loop (2 * length s + 4) r s repl max begun) [
      | none ↦ none
      | some (failed e) ↦ some (failed e)
      | some (done g) ↦ some (done (finish_gsub s g))
    ])
    ended_loop = finished (gsub_loop (2 * length s + 4) r s repl max begun) (
        gsub_loop-Counted r law s repl max (2 * length s + 4) begun (omega arith) (ground arith)
          (none_yet max))
