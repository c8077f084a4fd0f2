-- ===== src/Re.antt =====
-- src/re.c: what its operations share. PCRE2 is the field `run` of a pattern; a subject is its bytes,
-- and what is raised is the code of an RE error, or `from_lua`, an error of a callback.
pub mod Scan
mod Slices
pub mod Expand
pub mod Replace
pub mod Split
pub mod Cache
pub mod Functions
pub mod Escape
mod Examples
use kuu.Prelude.{
  ℕ, zero, suc, ◌+◌, ◌-◌, ◌*◌, ◌≤◌, ◌<◌, ◌≡◌, Bool, true, false, not, List, [], ◌∷◌, ◌++◌, Option,
  some, none, ltb, leb, ◌==◌, ◌&&◌, ◌||◌, if◌then◌else◌, within, Bytes, take, drop, length,
  get_elem?, map,
}
use kuu.Prelude.Int.{ℤ, pos, negsuc}
use kuu.Prelude.Results.{Result, failed, done}

-- The match block after a match: `pairs` as pcre2_match returns it, the offsets of the whole match,
-- and those of each group from 1 on, where they are set.
pub record Match : Type 0 where
  pub pairs : ℕ
  pub begin : ℕ
  pub end : ℕ
  pub group : ℕ → Option (ℕ × ℕ)

-- What pcre2_match returns: a count of pairs, PCRE2_ERROR_NOMATCH, or another error, by its magnitude.
pub data Found : Type 0 where
  found : Match → Found
  no_match : Found
  broken : ℕ → Found

-- `ku_re`, with pcre2_match on a subject, at an offset, with PCRE2_NOTEMPTY_ATSTART and PCRE2_ANCHORED
-- or without, and with PCRE2_NO_UTF_CHECK or without.
pub record Pattern : Type 0 where
  pub groups : ℕ
  pub utf : Bool
  pub names : List (Bytes × ℕ)
  pub run : Bytes → ℕ → Bool → Bool → Found

pub data ReError : Type 0 where
  limit : ReError
  invalid_subject : ReError
  invalid_init : ReError
  os_error : ReError
  bad_value : ReError
  bad_pattern : ReError
  from_lua : ReError

-- The bytes of `s` from offset `a` up to `b`.
unfoldable pub slice : Bytes → ℕ → ℕ → Bytes
slice s a b = take (b - a) (drop a s)

unfoldable pub byte_at : Bytes → ℕ → ℕ
byte_at s i = elim (get_elem? s i) [ none ↦ 0 | some c ↦ c ]

-- The errors of `do_match`, by the numbers of pcre2.h.
unfoldable pub match_error : ℕ → ReError
match_error rc =
    if rc == 47 || rc == 53 || rc == 63
    then limit
    else if within 3 23 rc
    then invalid_subject
    else if rc == 36
    then invalid_init
    else os_error

-- `do_match`: a match, or none for PCRE2_ERROR_NOMATCH.
unfoldable pub do_match : Pattern → Bytes → ℕ → Bool → Bool → Result ReError (Option Match)
do_match r s start retry checked = elim (r.run s start retry checked) [
  | found m ↦ done (some m)
  | no_match ↦ done none
  | broken rc ↦ failed (match_error rc)
]

-- The value of group `i`; `none` is nil.
unfoldable pub capture : Match → Bytes → ℕ → Option Bytes
capture m s i = elim (m.group i) [
  | none ↦ none
  | some (a, b) ↦ if leb m.pairs i then none else some (slice s a b)
]

-- The groups from `i` on, `count` of them.
unfoldable pub captures_from : Match → Bytes → ℕ → ℕ → List (Option Bytes)
captures_from m s i zero = []
captures_from m s i (suc count) = capture m s i ∷ captures_from m s (i + 1) count

unfoldable pub push_captures : Pattern → Match → Bytes → List (Option Bytes)
push_captures r m s =
    if r.groups == 0 then some (slice s m.begin m.end) ∷ [] else captures_from m s 1 r.groups

-- `start_offset`, for a subject of `n` bytes.
unfoldable pub start_offset : ℤ → ℕ → ℕ
start_offset (negsuc k) n = if ltb k n then n - k - 1 else 0
start_offset (pos zero) n = 0
start_offset (pos (suc i)) n = if ltb (n + 1) (suc i) then n + 1 else i

-- The results of `find_impl`: the one-based bounds and the captures, or nil.
unfoldable pub find : Pattern → Bytes → ℤ → Result ReError (Option (ℕ × ℕ × List (Option Bytes)))
find r s init =
    let start = start_offset init (length s) in
    if ltb (length s) start then done none else elim (do_match r s start false false) [
      | failed e ↦ failed e
      | done none ↦ done none
      | done (some m) ↦
          done (some (m.begin + 1, m.end, if r.groups == 0 then [] else push_captures r m s))
    ]

-- `match_impl`
unfoldable pub match_ : Pattern → Bytes → ℤ → Result ReError (Option (List (Option Bytes)))
match_ r s init =
    let start = start_offset init (length s) in
    if ltb (length s) start then done none else elim (do_match r s start false false) [
      | failed e ↦ failed e
      | done none ↦ done none
      | done (some m) ↦ done (some (push_captures r m s))
    ]

-- `exec_impl`: the bounds, the groups, and the named ones.
pub record Exec : Type 0 where
  pub start : ℕ
  pub stop : ℕ
  pub values : List (Option Bytes)
  pub named : List (Bytes × Option Bytes)

unfoldable pub exec : Pattern → Bytes → ℤ → Result ReError (Option Exec)
exec r s init =
    let start = start_offset init (length s) in
    if ltb (length s) start then done none else elim (do_match r s start false false) [
      | failed e ↦ failed e
      | done none ↦ done none
      | done (some m) ↦ done (
          some (record {
            start = m.begin + 1;
            stop = m.end;
            values = captures_from m s 1 r.groups;
            named = map (λ (name, number). (name, capture m s number)) r.names;
          }))
    ]

-- What PCRE2 documents of pcre2_match: a match lies within the subject, at the offset or behind it,
-- and with PCRE2_NOTEMPTY_ATSTART it is not the empty one at the offset. The pairs count the whole match.
pub record IsLawful (r : Pattern) : Type 0 where
  pub counted :
      (s : Bytes) (start : ℕ) (retry checked : Bool) (m : Match)
      → start ≤ length s
      → r.run s start retry checked ≡ found m
      → 0 < m.pairs
  pub bounds :
      (s : Bytes) (start : ℕ) (retry checked : Bool) (m : Match)
      → start ≤ length s
      → r.run s start retry checked ≡ found m
      → (start ≤ m.begin) × (m.begin ≤ m.end) × (m.end ≤ length s)
  pub not_empty :
      (s : Bytes) (start : ℕ) (checked : Bool) (m : Match)
      → start ≤ length s
      → r.run s start true checked ≡ found m
      → start < m.end
