-- ===== src/Re/Cache.antt =====
-- `parse_flags`, `compile_new` and `cached` of src/re.c. pcre2_compile is a parameter: it refuses a pattern or gives
-- it with its groups, the table of its names, and how it matches.
pub mod Holds
use kuu.Prelude.{
  ℕ, ◌≤◌, Bool, true, false, not, ◌&&◌, List, [], ◌∷◌, ◌++◌, Option, some, none, leb, ◌==◌,
  if◌then◌else◌, Bytes, equal, length,
}
use kuu.Prelude.Results.{Result, failed, done}
use kuu.Re.{Pattern, ReError, bad_value, bad_pattern}
use kuu.Re.Expand.{up_to_nul}

-- The options that depend on flags; PCRE2_NEVER_BACKSLASH_C is always on.
pub record Options : Type 0 where
  pub caseless : Bool
  pub multiline : Bool
  pub dotall : Bool
  pub extended : Bool
  pub utf : Bool
  pub ucp : Bool

-- `options`, `bytes` and `ucp` while the flags are read; `utf` stands for `!bytes`.
unfoldable pub read_flag : ℕ → Options → Option Options
read_flag f o =
    if f == 105
    then some (record o { caseless = true })
    else if f == 109
    then some (record o { multiline = true })
    else if f == 115
    then some (record o { dotall = true })
    else if f == 120
    then some (record o { extended = true })
    else if f == 98
    then some (record o { utf = false })
    else if f == 117
    then some (record o { ucp = true })
    else none

unfoldable pub read_flags : Bytes → Options → Option Options
read_flags [] o = some o
read_flags (f ∷ flags) o = elim (read_flag f o) [ none ↦ none | some p ↦ read_flags flags p ]

abbrev pub no_flags : Options
no_flags = record {
  caseless = false;
  multiline = false;
  dotall = false;
  extended = false;
  utf = true;
  ucp = false;
}

-- `parse_flags`, for the flags of a C string.
unfoldable pub parse_flags : Bytes → Result ReError Options
parse_flags flags = elim (read_flags flags no_flags) [
  | none ↦ failed bad_value
  | some o ↦ if not o.utf && o.ucp then failed bad_value else done o
]

abbrev pub Compiler : Type 0
Compiler = Bytes → Options → Option Pattern

unfoldable pub compile_new : Compiler → Bytes → Bytes → Result ReError Pattern
compile_new compile pattern flags = elim (parse_flags flags) [
  | failed e ↦ failed e
  | done o ↦ elim (compile pattern o) [
    | none ↦ failed bad_pattern
    | some r ↦ done (record r { utf = o.utf })
  ]
]

-- The table in the registry, each regex under its key.
abbrev pub Cache : Type 0
Cache = List (Bytes × Pattern)

abbrev pub cache_max : ℕ
cache_max = 128

unfoldable pub get : Cache → Bytes → Option Pattern
get [] key = none
get ((known, r) ∷ cache) key = if equal known key then some r else get cache key

-- The flags, a NUL, the pattern.
unfoldable pub key_of : Bytes → Bytes → Bytes
key_of pattern flags = flags ++ 0 ∷ pattern

-- A full table gives way to an empty one.
unfoldable pub make_room : Cache → Cache
make_room cache = if leb cache_max (length cache) then [] else cache

-- `cached` for a pattern and the flags of a C string.
unfoldable pub cached : Compiler → Cache → Bytes → Bytes → Result ReError Pattern × Cache
cached compile cache pattern flags = elim (get cache (key_of pattern flags)) [
  | some r ↦ (done r, cache)
  | none ↦ elim (compile_new compile pattern flags) [
    | failed e ↦ (failed e, make_room cache)
    | done r ↦ (done r, (key_of pattern flags, r) ∷ make_room cache)
  ]
]
