-- ===== src/Re/Examples.antt =====
-- Tests of src/re.c with an engine that finds commas, and the theorems on it at concrete subjects.
use kuu.Prelude.{
  ℕ, zero, suc, ◌+◌, ◌≤◌, ◌<◌, ◌≡◌, refl, subst, Bool, true, [], ◌∷◌, some, none, ltb, ◌==◌,
  if◌then◌else◌, Bytes, codes, length, arith, by_if,
}
use kuu.Prelude.Int.{pos, negsuc}
use kuu.Prelude.Results.{failed, done}
use kuu.Re.{
  Match, Found, found, no_match, broken, Pattern, IsLawful, bad_value, byte_at, slice, find,
  start_offset, do_match,
}
use kuu.Re.Scan.{start, next_match, next_loop, next_round, advance, is_retry, after_match, stepped}
use kuu.Re.Scan.Progress.{Progressed, next_match-Progressed}
use kuu.Re.Expand.{expand_replacement, expand_loop, read_escape, read_number, group_text, prepend}
use kuu.Re.Replace.{
  string, add_replacement, gsub, gsub_loop, is_open, is_usable, after_replacement, finish_gsub,
}
use kuu.Re.Replace.Ends.{Ended, gsub-Ended}
use kuu.Re.Replace.Keeps.{Works, Unchanged, gsub-Unchanged, dollar_zero-Keeps}
use kuu.Re.Split.{split, split_loop, after_piece, is_boundary, finish_split}
use kuu.Re.Split.Pieces.{Pieced, split-Pieced}
use kuu.Re.Cache.{Compiler, cached, parse_flags, read_flags, read_flag}
use kuu.Re.Cache.Holds.{Answered, cached_lem}

abbrev mark : ℕ → Match
mark k = record { pairs = 1; begin = k; end = k + 1; group = λ i. none }

-- The first comma at `i` or in the next bytes, `fuel` of them in all.
unfoldable comma_search : ℕ → Bytes → ℕ → Found
comma_search zero s i = no_match
comma_search (suc fuel) s i =
    let rest = comma_search fuel s (i + 1) in
    if ltb i (length s) then (if byte_at s i == 44 then found (mark i) else rest) else no_match

abbrev Comma : Bytes → ℕ → Found → Type 0
Comma s i no_match = Unit
Comma s i (broken rc) = ⊥
Comma s i (found m) = (i ≤ m.begin) × (m.begin < m.end) × (m.end ≤ length s) × (0 < m.pairs)

Comma-later : (s : Bytes) (i : ℕ) (o : Found) → Comma s (i + 1) o → Comma s i o
Comma-later s i no_match h = tt
Comma-later s i (broken rc) h = elim h [ ]
Comma-later s i (found m) (a, b, c, d) = (omega (arith, a), b, c, d)

comma_search-Comma : (fuel : ℕ) (s : Bytes) (i : ℕ) → Comma s i (comma_search fuel s i)
unfolding comma_search
comma_search-Comma zero s i = tt
comma_search-Comma (suc fuel) s i =
    by_if (Comma s i) (ltb i (length s)) _ _
      (λ e.
        by_if (Comma s i) (byte_at s i == 44) _ _
          (λ f. (omega arith, omega arith, ground (arith, e), omega arith))
          (λ f. Comma-later s i (comma_search fuel s (i + 1)) (comma_search-Comma fuel s (i + 1))))
      (λ e. tt)

abbrev commas : Pattern
commas = record {
  groups = 0;
  utf = true;
  names = [];
  run = λ s start retry checked. comma_search (if retry then 1 else length s) s start;
}

answer :
    (s : Bytes) (at : ℕ) (retry checked : Bool) (o : Found)
    → commas.run s at retry checked ≡ o
    → Comma s at o
answer s at retry checked o e =
    subst (λ x. Comma s at x) e (comma_search-Comma (if retry then 1 else length s) s at)

commas-IsLawful : IsLawful commas
commas-IsLawful = record {
  counted = λ s at retry checked m p e. (answer s at retry checked (found m) e).3;
  bounds = λ s at retry checked m p e.
      let (a, b, c, d) = answer s at retry checked (found m) e in (a, omega (arith, b), c);
  not_empty = λ s at checked m p e.
      let (a, b, c, d) = answer s at true checked (found m) e in omega (arith, a, b);
}

commas-Works : (s : Bytes) → Works commas s
commas-Works s rc (at, retry, checked, p, e) = answer s at retry checked (broken rc) e

abbrev letters : Bytes
letters = codes "a,b,,c"

split-letters : split commas letters ≡ some (done (codes "a" ∷ codes "b" ∷ [] ∷ codes "c" ∷ []))
unfolding split split_loop next_match next_loop next_round is_retry do_match comma_search byte_at
    after_match after_piece is_boundary finish_split slice advance stepped
split-letters = refl

gsub-letters :
    gsub commas letters (string (codes "<$0>")) (pos 2) ≡ some (done (codes "a<,>b<,>,c", 2))
unfolding gsub gsub_loop is_usable is_open next_match next_loop next_round is_retry do_match
    comma_search byte_at after_match add_replacement after_replacement expand_replacement
    expand_loop read_escape read_number group_text prepend finish_gsub slice advance stepped
gsub-letters = refl

find-letters : find commas letters (negsuc 1) ≡ done (some (5, 5, []))
unfolding find start_offset do_match comma_search byte_at
find-letters = refl

next_match-Progressed_example :
    Progressed letters start (next_match commas letters start)
    × ((fuel : ℕ)
        → next_loop (suc (suc fuel)) commas letters start ≡ next_match commas letters start)
next_match-Progressed_example =
    next_match-Progressed commas commas-IsLawful letters start (omega arith)

gsub-Ended_example : Ended (pos 2) (gsub commas letters (string (codes "<$0>")) (pos 2))
gsub-Ended_example = gsub-Ended commas commas-IsLawful letters (string (codes "<$0>")) (pos 2)

dollar_zero-usable : is_usable (string (codes "$0")) ≡ true
unfolding is_usable
dollar_zero-usable = refl

gsub-Unchanged_example :
    Unchanged letters (negsuc 0) (gsub commas letters (string (codes "$0")) (negsuc 0))
gsub-Unchanged_example =
    gsub-Unchanged commas commas-IsLawful letters (string (codes "$0")) (negsuc 0)
      (commas-Works letters) (dollar_zero-Keeps commas letters) dollar_zero-usable

split-Pieced_example : Pieced commas letters (split commas letters)
split-Pieced_example = split-Pieced commas commas-IsLawful letters

abbrev compile : Compiler
compile pattern o = some commas

cached_lem_example :
    Answered compile (codes ",") (codes "im") (cached compile [] (codes ",") (codes "im"))
cached_lem_example =
    cached_lem compile [] (codes ",") (codes "im") (omega arith, tt) (refl, (refl, tt))

flags_exclude : parse_flags (codes "bu") ≡ failed bad_value
unfolding parse_flags read_flags read_flag
flags_exclude = refl
