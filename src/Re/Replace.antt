-- ===== src/Re/Replace.antt =====
-- `add_replacement` and `gsub_impl` of src/re.c.
pub mod Ends
pub mod Keeps
use kuu.Prelude.{
  ℕ, zero, suc, ◌+◌, ◌-◌, ◌*◌, Bool, true, false, ◌||◌, List, [], ◌∷◌, ◌++◌, Option, some, none,
  ltb, leb, ◌==◌, if◌then◌else◌, Bytes, length,
}
use kuu.Prelude.Int.{ℤ, pos, negsuc}
use kuu.Prelude.Results.{Result, failed, done}
use kuu.Re.{Match, Pattern, ReError, bad_value, from_lua, slice, push_captures}
use kuu.Re.Expand.{expand_replacement}
use kuu.Re.Scan.{Scan, ended, next, raised, next_match}
use kuu.Re.Scan

-- What a Lua function or a table gives for a match: nil or false, a string or a number, something
-- else, or an error of its own.
pub data Reply : Type 0 where
  nothing : Reply
  text : Bytes → Reply
  other : Reply
  threw : Reply

-- A replacement. A function or a metamethod may keep a state of its own: it is asked with the count of
-- the matches before.
pub data Replacement : Type 0 where
  string : Bytes → Replacement
  function : (ℕ → List (Option Bytes) → Reply) → Replacement
  table : (ℕ → Bytes → Reply) → Replacement
  unusable : Replacement

-- The first capture, or the whole match.
unfoldable pub table_key : Pattern → Match → Bytes → Bytes
table_key r m s =
    let whole = slice s m.begin m.end in
    if r.groups == 0 || leb m.pairs 1
    then whole
    else elim (m.group 1) [ none ↦ whole | some (a, b) ↦ slice s a b ]

unfoldable pub from_reply : Match → Bytes → Reply → Result ReError Bytes
from_reply m s nothing = done (slice s m.begin m.end)
from_reply m s (text t) = done t
from_reply m s other = failed bad_value
from_reply m s threw = failed from_lua

unfoldable pub add_replacement : Pattern → Match → Bytes → ℕ → Replacement → Result ReError Bytes
add_replacement r m s count (string repl) = expand_replacement r m s repl
add_replacement r m s count (function call) = from_reply m s (call count (push_captures r m s))
add_replacement r m s count (table get) = from_reply m s (get count (table_key r m s))
add_replacement r m s count unusable = failed bad_value

-- The variables of the loop of `gsub_impl`.
pub record Gsub : Type 0 where
  pub scan : Scan
  pub last : ℕ
  pub buffer : Bytes
  pub count : ℕ

-- `max < 0 || count < max`
unfoldable pub is_open : ℤ → ℕ → Bool
is_open (negsuc k) count = true
is_open (pos max) count = ltb count max

unfoldable pub after_replacement : Bytes → Gsub → Match → Scan → Bytes → Gsub
after_replacement s g m c t = record {
  scan = c;
  last = m.end;
  buffer = g.buffer ++ slice s g.last m.begin ++ t;
  count = g.count + 1;
}

-- The loop, at most `fuel` rounds; `none` is a loop that the fuel ends.
unfoldable pub gsub_loop :
    ℕ → Pattern → Bytes → Replacement → ℤ → Gsub → Option (Result ReError Gsub)
gsub_loop zero r s repl max g = none
gsub_loop (suc fuel) r s repl max g = elim (is_open max g.count) [
  | false ↦ some (done g)
  | true ↦ elim (next_match r s g.scan) [
    | ended c ↦ some (done g)
    | raised e ↦ some (failed e)
    | next m c ↦ elim (add_replacement r m s g.count repl) [
      | failed e ↦ some (failed e)
      | done t ↦ gsub_loop fuel r s repl max (after_replacement s g m c t)
    ]
  ]
]

unfoldable pub finish_gsub : Bytes → Gsub → Bytes × ℕ
finish_gsub s g =
    (if ltb g.last (length s) then g.buffer ++ slice s g.last (length s) else g.buffer, g.count)

abbrev pub begun : Gsub
begun = record { scan = Scan.start; last = 0; buffer = []; count = 0 }

unfoldable pub is_usable : Replacement → Bool
is_usable unusable = false
is_usable (string repl) = true
is_usable (function call) = true
is_usable (table get) = true

-- `gsub_impl`, with a round for every match that a scan can find and one more.
unfoldable pub gsub : Pattern → Bytes → Replacement → ℤ → Option (Result ReError (Bytes × ℕ))
gsub r s repl max = elim (is_usable repl) [
  | false ↦ some (failed bad_value)
  | true ↦ elim (gsub_loop (2 * length s + 4) r s repl max begun) [
    | none ↦ none
    | some (failed e) ↦ some (failed e)
    | some (done g) ↦ some (done (finish_gsub s g))
  ]
]
