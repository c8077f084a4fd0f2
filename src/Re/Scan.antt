-- ===== src/Re/Scan.antt =====
-- `advance` and `next_match` of src/re.c.
pub mod Progress
pub mod Origin
use kuu.Prelude.{
  ℕ, zero, suc, ◌+◌, ◌-◌, ◌*◌, ◌≤◌, ◌<◌, ◌≡◌, Bool, true, false, not, List, [], ◌∷◌, Option, some,
  none, ltb, leb, ◌==◌, ◌&&◌, ◌||◌, if◌then◌else◌, within, Bytes, length,
}
use kuu.Prelude.Results.{Result, failed, done}
use kuu.Re.{Match, Pattern, ReError, byte_at, do_match, push_captures}

-- The loop past the bytes 10xxxxxx, at most `fuel` rounds.
unfoldable pub skip_continuation : ℕ → Bytes → ℕ → ℕ
skip_continuation zero s i = i
skip_continuation (suc fuel) s i =
    let rest = skip_continuation fuel s (i + 1) in
    if ltb i (length s) && within 128 191 (byte_at s i) then rest else i

unfoldable pub advance : Bytes → ℕ → Bool → ℕ
advance s i utf =
    let n = length s in
    if leb n i
    then n + 1
    else if byte_at s i == 13 && ltb (i + 1) n && byte_at s (i + 1) == 10
    then i + 2
    else if utf
    then skip_continuation n s (i + 1)
    else i + 1

-- `*pos`, `*empty_at` (`none` is KU_RE_NONE) and `*checked`.
pub record Scan : Type 0 where
  pub at : ℕ
  pub empty_at : Option ℕ
  pub checked : Bool

abbrev pub start : Scan
start = record { at = 0; empty_at = none; checked = false }

unfoldable pub is_retry : Scan → Bool
is_retry c = elim (c.empty_at) [ none ↦ false | some e ↦ e == c.at ]

-- The scan one character on, after no match is found in place of an empty one.
unfoldable pub stepped : Pattern → Bytes → Scan → Scan
stepped r s c = record { at = advance s c.at r.utf; empty_at = none; checked = true }

-- How `next_match` ends: at the end, with a match, or raising.
pub data Next : Type 0 where
  ended : Scan → Next
  next : Match → Scan → Next
  raised : ReError → Next

unfoldable pub after_match : Scan → Match → Scan
after_match c m = record c {
  at = m.end;
  empty_at = if m.end == m.begin then some m.end else none;
  checked = true;
}

-- One round of the loop of `next_match`; the Scan alone goes round again.
pub data Round : Type 0 where
  again : Scan → Round
  over : Next → Round

unfoldable pub next_round : Pattern → Bytes → Scan → Round
next_round r s c =
    let retry = is_retry c in
    if ltb (length s) c.at then over (ended c) else elim (do_match r s c.at retry c.checked) [
      | failed e ↦ over (raised e)
      | done none ↦
          if retry
          then again (stepped r s c)
          else over (ended (record c { at = length s + 1; checked = true }))
      | done (some m) ↦ over (next m (after_match c m))
    ]

-- The loop, at most `fuel` rounds.
unfoldable pub next_loop : ℕ → Pattern → Bytes → Scan → Next
next_loop zero r s c = ended c
next_loop (suc fuel) r s c = elim (next_round r s c) [ over n ↦ n | again d ↦ next_loop fuel r s d ]

-- A second round never goes round again.
unfoldable pub next_match : Pattern → Bytes → Scan → Next
next_match r s c = next_loop 2 r s c

-- `gmatch_iter`, on the state that its upvalues hold: the captures of the next match, or none.
unfoldable pub gmatch_iter :
    Pattern → Bytes → Scan → Result ReError (Option (List (Option Bytes)) × Scan)
gmatch_iter r s c = elim (next_match r s c) [
  | ended d ↦ done (none, d)
  | next m d ↦ done (some (push_captures r m s), d)
  | raised e ↦ failed e
]
