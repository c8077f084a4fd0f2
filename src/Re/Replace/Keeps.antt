-- ===== src/Re/Replace/Keeps.antt =====
-- gsub of src/re.c with a replacement that keeps every match.
use kuu.Prelude.{
  codes, append-nil, ℕ, zero, suc, ◌+◌, ◌*◌, ◌≤◌, ◌<◌, ◌≡◌, refl, ◌∙◌, true, Bool-cases, inl, inr,
  [], ◌++◌, Option, some, none, Bytes, length, take, arith, ltb, by_if, if◌then◌else◌,
}
use kuu.Prelude.Int.{ℤ}
use kuu.Prelude.Results.{Result, failed, done}
use kuu.Re.{Match, broken, Pattern, ReError, IsLawful, slice}
use kuu.Re.Slices.{extend, complete, take_all}
use kuu.Re.Scan.{Next, ended, next, raised, next_match}
use kuu.Re.Scan.Progress.{Progressed, next_match-Progressed}
use kuu.Re.Scan.Origin.{Answers, Genuine, next_match-Genuine}
use kuu.Re.Replace.{
  Replacement, string, add_replacement, Gsub, is_open, is_usable, after_replacement, gsub_loop,
  finish_gsub, begun, gsub,
}
use kuu.Re.Expand.{expand_replacement, expand_loop, read_escape, read_number, group_text, prepend}
use kuu.Re.Replace.Ends.{IsWithin, Counted, none_yet, gsub_loop-Counted}

-- pcre2_match fails nowhere in the subject.
abbrev pub Works : Pattern → Bytes → Type 0
Works r s = (rc : ℕ) → Answers r s (broken rc) → ⊥

-- The replacement of every match is its own text.
abbrev pub Keeps : Pattern → Bytes → Replacement → Type 0
Keeps r s repl =
    (m : Match) (count : ℕ)
    → 0 < m.pairs
    → add_replacement r m s count repl ≡ done (slice s m.begin m.end)

abbrev Kept : Bytes → Option (Result ReError Gsub) → Type 0
Kept s none = Unit
Kept s (some (failed e)) = ⊥
Kept s (some (done g)) = (g.last ≤ length s) × (g.buffer ≡ take g.last s)

abbrev pub Unchanged : Bytes → ℤ → Option (Result ReError (Bytes × ℕ)) → Type 0
Unchanged s max none = ⊥
Unchanged s max (some (failed e)) = ⊥
Unchanged s max (some (done (t, count))) = (t ≡ s) × IsWithin max count

module _ (r : Pattern) (law : IsLawful r) (s : Bytes) (repl : Replacement) (max : ℤ)
    (works : Works r s) (keeps : Keeps r s repl) where
  gsub_loop-Kept :
      (fuel : ℕ) (g : Gsub)
      → g.last ≤ g.scan.at
      → g.last ≤ length s
      → g.scan.at ≤ length s + 1
      → g.buffer ≡ take g.last s
      → Kept s (gsub_loop fuel r s repl max g)
  unfolding gsub_loop
  gsub_loop-Kept zero g o l p e = tt
  gsub_loop-Kept (suc fuel) g o l p e = elim (Bool-cases (is_open max g.count)) [
    | inr shut ↦ rw (shut, Kept) (l, e)
    | inl more ↦
        rw (more, Kept)
          (from_next (next_match r s g.scan) (next_match-Progressed r law s g.scan p).0
            (next_match-Genuine r s g.scan) (gsub_loop-Kept fuel))
  ]
    where
      from_next :
          (n : Next)
          → Progressed s g.scan n
          → Genuine r s n
          → ((h : Gsub)
              → h.last ≤ h.scan.at
              → h.last ≤ length s
              → h.scan.at ≤ length s + 1
              → h.buffer ≡ take h.last s
              → Kept s (gsub_loop fuel r s repl max h))
          → Kept s (elim n [
            | ended c ↦ some (done g)
            | raised x ↦ some (failed x)
            | next m c ↦ elim (add_replacement r m s g.count repl) [
              | failed x ↦ some (failed x)
              | done t ↦ gsub_loop fuel r s repl max (after_replacement s g m c t)
            ]
          ])
      from_next (ended c) h t rest = (l, e)
      from_next (raised x) h (rc, t) rest = works rc t
      from_next (next m c) (a, b, n, at, less) (start, retry, checked, q, t) rest =
          let behind : g.buffer ++ slice s g.last m.begin ≡ take m.begin s =
            extend s g.buffer g.last m.begin (omega (arith, o, a)) e in
          rw (keeps m g.count (law.counted s start retry checked m q t)) (
            rest (after_replacement s g m c (slice s m.begin m.end))
              (unfold after_replacement in omega (arith, at)) (unfold after_replacement in n)
              (unfold after_replacement in omega (arith, at, n))
              (unfold after_replacement in
                extend s (g.buffer ++ slice s g.last m.begin) m.begin m.end b behind))

finish_gsub_whole :
    (s : Bytes) (g : Gsub) → g.last ≤ length s → g.buffer ≡ take g.last s → (finish_gsub s g).0 ≡ s
unfolding finish_gsub
finish_gsub_whole s g l e =
    by_if (λ t. t ≡ s) (ltb g.last (length s)) _ _ (λ f. complete s g.buffer g.last l e)
      (λ f. e ∙ take_all s g.last (ground arith))

-- gsub with a replacement that keeps every match gives the subject back, wherever the engine works.
pub gsub-Unchanged :
    (r : Pattern) (law : IsLawful r) (s : Bytes) (repl : Replacement) (max : ℤ)
    → Works r s
    → Keeps r s repl
    → is_usable repl ≡ true
    → Unchanged s max (gsub r s repl max)
unfolding gsub
gsub-Unchanged r law s repl max works keeps usable =
    rw (usable, Unchanged)
      (finished (gsub_loop (2 * length s + 4) r s repl max begun)
        (gsub_loop-Kept r law s repl max works keeps (2 * length s + 4) begun (omega arith)
          (omega arith) (omega arith) refl)
        (gsub_loop-Counted r law s repl max (2 * length s + 4) begun (omega arith) (ground arith)
          (none_yet max)))
  where
    finished :
        (o : Option (Result ReError Gsub))
        → Kept s o
        → Counted max o
        → Unchanged s max (elim o [
          | none ↦ none
          | some (failed e) ↦ some (failed e)
          | some (done g) ↦ some (done (finish_gsub s g))
        ])
    finished none h k = k
    finished (some (failed e)) h k = h
    finished (some (done g)) (l, e) k = (finish_gsub_whole s g l e, unfold finish_gsub in k)

-- `$0` is such a replacement.
pub dollar_zero-Keeps : (r : Pattern) (s : Bytes) → Keeps r s (string (codes "$0"))
unfolding add_replacement expand_replacement expand_loop read_escape read_number group_text prepend
dollar_zero-Keeps r s m count p =
    rw (append-nil (if ltb 0 m.pairs then slice s m.begin m.end else [])) (ground (arith, p))
