-- ===== src/Re/Expand.antt =====
-- `expand_replacement` of src/re.c. The rest of the replacement behind `i` is a list of bytes.
use kuu.Prelude.{
  ℕ, zero, suc, ◌+◌, ◌-◌, ◌*◌, Bool, true, false, ◌&&◌, ◌||◌, List, [], ◌∷◌, ◌++◌, Option, some,
  none, ltb, leb, ◌==◌, if◌then◌else◌, within, Bytes, equal, length, min,
}
use kuu.Prelude.Results.{Result, failed, done}
use kuu.Re.{Match, Pattern, ReError, bad_value, slice}

abbrev pub is_digit : ℕ → Bool
is_digit c = within 48 57 c

-- What stands behind a `$`: another one, or the number of a group; each with the rest behind it.
pub data Escape : Type 0 where
  dollar : Bytes → Escape
  group : ℕ → Bytes → Escape

-- One digit, read already, or two.
unfoldable pub read_number : ℕ → Bytes → Escape
read_number d [] = group d []
read_number d (c ∷ rest) = if is_digit c then group (d * 10 + (c - 48)) rest else group d (c ∷ rest)

-- `memchr(repl, c, rlen)`: what is before the byte and what is behind it.
unfoldable pub cut_at : ℕ → Bytes → Option (Bytes × Bytes)
cut_at c [] = none
cut_at c (b ∷ rest) =
    if b == c
    then some ([], rest)
    else elim (cut_at c rest) [ none ↦ none | some (before, behind) ↦ some (b ∷ before, behind) ]

unfoldable pub all_digits : Bytes → Bool
all_digits [] = true
all_digits (c ∷ rest) = is_digit c && all_digits rest

unfoldable pub decimal : ℕ → Bytes → ℕ
decimal n [] = n
decimal n (c ∷ rest) = decimal (n * 10 + (c - 48)) rest

-- `strtol` on digits, where a long has 32 bits.
unfoldable pub to_long : Bytes → ℕ
to_long name = min (decimal 0 name) 2147483647

-- The name as a C string.
unfoldable pub up_to_nul : Bytes → Bytes
up_to_nul [] = []
up_to_nul (c ∷ rest) = if c == 0 then [] else c ∷ up_to_nul rest

unfoldable pub group_named : List (Bytes × ℕ) → Bytes → Option ℕ
group_named [] name = none
group_named ((known, number) ∷ names) name =
    if equal known name then some number else group_named names name

unfoldable pub read_name : Pattern → Bytes → Result ReError Escape
read_name r rest = elim (cut_at 125 rest) [
  | none ↦ failed bad_value
  | some (name, behind) ↦
      if length name == 0 || leb 64 (length name)
      then failed bad_value
      else if all_digits name
      then done (group (to_long name) behind)
      else elim (group_named r.names (up_to_nul name)) [
        | none ↦ failed bad_value
        | some number ↦ done (group number behind)
      ]
]

unfoldable pub read_escape : Pattern → Bytes → Result ReError Escape
read_escape r [] = failed bad_value
read_escape r (c ∷ rest) =
    if c == 36
    then done (dollar rest)
    else if is_digit c
    then done (read_number (c - 48) rest)
    else if c == 123
    then read_name r rest
    else failed bad_value

-- The text of group `g`, 0 being the whole match; an unset group has none.
unfoldable pub group_text : Match → Bytes → ℕ → Bytes
group_text m s g =
    let bounds = if g == 0 then some (m.begin, m.end) else m.group g in
    elim bounds [ none ↦ [] | some (a, b) ↦ if ltb g m.pairs then slice s a b else [] ]

-- The text so far with the rest of it behind.
unfoldable pub prepend : Bytes → Result ReError Bytes → Result ReError Bytes
prepend before (failed e) = failed e
prepend before (done behind) = done (before ++ behind)

-- The loop, at most `fuel` rounds, each of which reads a byte at least.
unfoldable pub expand_loop : ℕ → Pattern → Match → Bytes → Bytes → Result ReError Bytes
expand_loop zero r m s rest = done []
expand_loop (suc fuel) r m s [] = done []
expand_loop (suc fuel) r m s (c ∷ rest) = elim (c == 36) [
  | false ↦ prepend (c ∷ []) (expand_loop fuel r m s rest)
  | true ↦ elim (read_escape r rest) [
    | failed e ↦ failed e
    | done (dollar behind) ↦ prepend (36 ∷ []) (expand_loop fuel r m s behind)
    | done (group g behind) ↦
        if ltb r.groups g
        then failed bad_value
        else prepend (group_text m s g) (expand_loop fuel r m s behind)
  ]
]

unfoldable pub expand_replacement : Pattern → Match → Bytes → Bytes → Result ReError Bytes
expand_replacement r m s repl = expand_loop (length repl) r m s repl
