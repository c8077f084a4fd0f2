-- ===== src/Re/Split.antt =====
-- `split_impl` of src/re.c.
pub mod Pieces
use kuu.Prelude.{
  ℕ, zero, suc, ◌+◌, ◌*◌, Bool, ◌&&◌, ◌||◌, List, [], ◌∷◌, ◌++◌, Option, some, none, leb, ◌==◌,
  if◌then◌else◌, Bytes, length,
}
use kuu.Prelude.Results.{Result, failed, done}
use kuu.Re.{Match, Pattern, ReError, slice}
use kuu.Re.Scan.{Scan, ended, next, raised, next_match}
use kuu.Re.Scan

-- The variables of the loop, and the table of the pieces.
pub record Split : Type 0 where
  pub scan : Scan
  pub last : ℕ
  pub pieces : List Bytes

-- An empty match that makes no piece.
unfoldable pub is_boundary : Bytes → ℕ → Match → Bool
is_boundary s last m = m.begin == m.end && (m.begin == last || leb (length s) m.begin)

unfoldable pub after_piece : Bytes → Split → Match → Scan → Split
after_piece s g m c =
    if is_boundary s g.last m
    then record g { scan = c }
    else record { scan = c; last = m.end; pieces = g.pieces ++ slice s g.last m.begin ∷ [] }

-- The loop, at most `fuel` rounds; `none` is a loop that the fuel ends.
unfoldable pub split_loop : ℕ → Pattern → Bytes → Split → Option (Result ReError Split)
split_loop zero r s g = none
split_loop (suc fuel) r s g = elim (next_match r s g.scan) [
  | ended c ↦ some (done g)
  | raised e ↦ some (failed e)
  | next m c ↦ split_loop fuel r s (after_piece s g m c)
]

abbrev pub begun : Split
begun = record { scan = Scan.start; last = 0; pieces = [] }

unfoldable pub finish_split : Bytes → Split → List Bytes
finish_split s g = g.pieces ++ slice s g.last (length s) ∷ []

-- `split_impl`, with a round for every match that a scan can find and one more.
unfoldable pub split : Pattern → Bytes → Option (Result ReError (List Bytes))
split r s = elim (split_loop (2 * length s + 4) r s begun) [
  | none ↦ none
  | some (failed e) ↦ some (failed e)
  | some (done g) ↦ some (done (finish_split s g))
]
