-- ===== src/Re/Split/Pieces.antt =====
-- The pieces of `split_impl` of src/re.c are what is between matches.
use kuu.Prelude.{
  ℕ, zero, suc, ◌+◌, ◌*◌, ◌≤◌, ◌<◌, ◌≡◌, refl, ◌∙◌, List, [], ◌∷◌, ◌++◌, append_assoc, Option, some,
  none, Bytes, length, arith, by_if, ◌⊎◌, inl, inr, Bool-cases, true, false, ◌==◌,
}
use kuu.Prelude.Results.{Result, failed, done}
use kuu.Re.{Match, found, Pattern, ReError, IsLawful, slice}
use kuu.Re.Scan.{Scan, Next, ended, next, raised, next_match}
use kuu.Re.Scan.Progress.{measure, Progressed, next_match-Progressed}
use kuu.Re.Scan.Origin.{Answers, Genuine, next_match-Genuine}
use kuu.Re.Split.{Split, is_boundary, after_piece, split_loop, finish_split, begun, split}

-- The matches that a scan finds, all of them and in their order, and the error that ends it, if one
-- does. Each is an answer of the engine.
abbrev pub Scanned : Pattern → Bytes → Scan → List Match → Option ReError → Type 0
Scanned r s c [] none = (d : Scan) × (next_match r s c ≡ ended d)
Scanned r s c [] (some e) = next_match r s c ≡ raised e
Scanned r s c (m ∷ ms) o =
    (d : Scan) × (next_match r s c ≡ next m d) × Answers r s (found m) × Scanned r s d ms o

-- A match that separates: it stands behind the last separator, and an empty one stands neither at its
-- end nor at the end of the subject.
abbrev pub IsSeparator : Bytes → ℕ → Match → Type 0
IsSeparator s last m =
    (last ≤ m.begin)
    × (m.begin ≤ m.end)
    × (m.begin ≡ m.end → (last < m.begin) × (m.begin < length s))

-- An empty match at the end of the last separator or of the subject.
abbrev pub IsIdle : Bytes → ℕ → Match → Type 0
IsIdle s last m = (m.begin ≡ m.end) × ((m.begin ≡ last) ⊎ (m.begin ≡ length s))

-- The pieces from `last` on: what is before, between and behind the matches that separate.
abbrev pub ArePieces : Bytes → ℕ → List Match → List Bytes → Type 0
ArePieces s last [] pieces = pieces ≡ slice s last (length s) ∷ []
ArePieces s last (m ∷ ms) pieces =
    (IsIdle s last m × ArePieces s last ms pieces)
    ⊎ (IsSeparator s last m
        × ((rest : List Bytes) × (pieces ≡ slice s last m.begin ∷ rest)
            × ArePieces s m.end ms rest))

abbrev Remaining : Pattern → Bytes → Split → Option (Result ReError Split) → Type 0
Remaining r s g none = ⊥
Remaining r s g (some (failed e)) = (ms : List Match) × Scanned r s g.scan ms (some e)
Remaining r s g (some (done h)) =
    (ms : List Match) × Scanned r s g.scan ms none
    × ((pieces : List Bytes) × ArePieces s g.last ms pieces
        × (finish_split s h ≡ g.pieces ++ pieces))

-- What split does: it raises what the scan raises, or splits at the matches of the whole scan.
abbrev pub Pieced : Pattern → Bytes → Option (Result ReError (List Bytes)) → Type 0
Pieced r s none = ⊥
Pieced r s (some (failed e)) = (ms : List Match) × Scanned r s begun.scan ms (some e)
Pieced r s (some (done pieces)) =
    (ms : List Match) × Scanned r s begun.scan ms none × ArePieces s 0 ms pieces

module _ (r : Pattern) (law : IsLawful r) (s : Bytes) where
  is_boundary-IsIdle :
      (last : ℕ) (m : Match) → m.end ≤ length s → is_boundary s last m ≡ true → IsIdle s last m
  unfolding is_boundary
  is_boundary-IsIdle last m p e = (
    ground arith,
    elim (Bool-cases (m.begin == last)) [
      | inl same ↦ inl (ground arith)
      | inr other ↦ inr (ground arith)
    ],
  )

  is_boundary-IsSeparator :
      (last : ℕ) (m : Match)
      → last ≤ m.begin
      → m.begin ≤ m.end
      → is_boundary s last m ≡ false
      → IsSeparator s last m
  unfolding is_boundary
  is_boundary-IsSeparator last m p q e = (p, q, λ same. (ground arith, ground arith))

  -- An idle match goes before those that the rest of the loop finds.
  before_idle :
      (g : Split) (m : Match) (c : Scan) (o : Option (Result ReError Split))
      → next_match r s g.scan ≡ next m c
      → Answers r s (found m)
      → IsIdle s g.last m
      → Remaining r s (record g { scan = c }) o
      → Remaining r s g o
  before_idle g m c none n a i h = h
  before_idle g m c (some (failed e)) n a i (ms, h) = (m ∷ ms, (c, n, a, h))
  before_idle g m c (some (done d)) n a i (ms, h, (pieces, are, e)) =
      (m ∷ ms, (c, n, a, h), (pieces, inl (i, are), e))

  -- And so does one that separates, with its piece.
  before :
      (g : Split) (m : Match) (c : Scan) (o : Option (Result ReError Split))
      → next_match r s g.scan ≡ next m c
      → Answers r s (found m)
      → IsSeparator s g.last m
      → Remaining r s
          (record { scan = c; last = m.end; pieces = g.pieces ++ slice s g.last m.begin ∷ [] })
          o
      → Remaining r s g o
  before g m c none n a i h = h
  before g m c (some (failed e)) n a i (ms, h) = (m ∷ ms, (c, n, a, h))
  before g m c (some (done d)) n a i (ms, h, (pieces, are, e)) = (
    m ∷ ms,
    (c, n, a, h),
    (
      slice s g.last m.begin ∷ pieces,
      inr (i, (pieces, refl, are)),
      e ∙ append_assoc g.pieces (slice s g.last m.begin ∷ []) pieces,
    ),
  )

  split_loop-Remaining :
      (fuel : ℕ) (g : Split)
      → g.last ≤ g.scan.at
      → g.last ≤ length s
      → g.scan.at ≤ length s + 1
      → measure s g.scan < fuel
      → Remaining r s g (split_loop fuel r s g)
  unfolding split_loop
  split_loop-Remaining zero g o l p lt = absurd (omega (arith, lt))
  split_loop-Remaining (suc fuel) g o l p lt =
      from_next (next_match r s g.scan) refl (next_match-Progressed r law s g.scan p).0
        (next_match-Genuine r s g.scan) (split_loop-Remaining fuel)
    where
      from_next :
          (n : Next)
          → next_match r s g.scan ≡ n
          → Progressed s g.scan n
          → Genuine r s n
          → ((h : Split)
              → h.last ≤ h.scan.at
              → h.last ≤ length s
              → h.scan.at ≤ length s + 1
              → measure s h.scan < fuel
              → Remaining r s h (split_loop fuel r s h))
          → Remaining r s g (elim n [
            | ended c ↦ some (done g)
            | raised e ↦ some (failed e)
            | next m c ↦ split_loop fuel r s (after_piece s g m c)
          ])
      from_next (ended c) n h t rest =
          ([], (c, n), (slice s g.last (length s) ∷ [], refl, unfold finish_split in refl))
      from_next (raised e) n h t rest = ([], n)
      from_next (next m c) n (a, b, e, at, less) t rest =
          unfold after_piece in
          by_if (λ h. Remaining r s g (split_loop fuel r s h)) (is_boundary s g.last m) _ _
            (λ same.
              before_idle g m c (split_loop fuel r s (record g { scan = c })) n t
                (is_boundary-IsIdle g.last m e same)
                (rest (record g { scan = c }) (omega (arith, o, a, b, at)) l (omega (arith, at, e))
                  (omega (arith, less, lt))))
            (λ piece.
              let h : Split = record {
                scan = c;
                last = m.end;
                pieces = g.pieces ++ slice s g.last m.begin ∷ [];
              } in
              before g m c (split_loop fuel r s h) n t
                (is_boundary-IsSeparator g.last m (omega (arith, o, a)) b piece)
                (rest h (omega (arith, at)) e (omega (arith, at, e)) (omega (arith, less, lt))))

-- With an engine as PCRE2 documents it, split ends. It raises just the error that ends the scan; else its pieces are what is before, between
-- and behind all the matches that the scan finds in turn, but for the empty ones at the end of the
-- last separator or of the subject, which make no piece. Each match is an answer of the engine, and
-- each separator stands behind the one before it.
pub split-Pieced : (r : Pattern) (law : IsLawful r) (s : Bytes) → Pieced r s (split r s)
unfolding split
split-Pieced r law s = finished (split_loop (2 * length s + 4) r s begun) (
    split_loop-Remaining r law s (2 * length s + 4) begun (omega arith) (omega arith) (omega arith)
      (ground arith))
  where
    finished :
        (o : Option (Result ReError Split))
        → Remaining r s begun o
        → Pieced r s (elim o [
          | none ↦ none
          | some (failed e) ↦ some (failed e)
          | some (done g) ↦ some (done (finish_split s g))
        ])
    finished none h = h
    finished (some (failed e)) h = h
    finished (some (done g)) (ms, h, (pieces, are, e)) = (ms, h, rw e are)
