-- ===== src/Zone.antt =====
-- The offsets of zones in src/time.c: `digits`, `parse_offset` and `offset_text`. An offset is
-- an integer of minutes.
pub mod RoundTrip
mod Examples
use kuu.Prelude.Int.{ℤ, pos, negsuc}
use kuu.Prelude.{
  ℕ, zero, suc, ◌+◌, ◌-◌, ◌*◌, ◌/◌, ◌%◌, Bool, true, false, not, List, [], ◌∷◌, ◌++◌, Option, some,
  none, ltb, ◌==◌, ◌&&◌, ◌||◌, if◌then◌else◌, within, Bytes, length, drop, get_elem?,
}

-- The loop of `digits` from the number `n`, on the first `width` bytes; NUL follows the last.
unfoldable pub digits_from : ℕ → ℕ → Bytes → Option ℕ
digits_from zero n text = some n
digits_from (suc width) n [] = none
digits_from (suc width) n (c ∷ text) =
    let rest = digits_from width (n * 10 + (c - 48)) text in if within 48 57 c then rest else none

unfoldable pub digits : Bytes → ℕ → Option ℕ
digits text width = digits_from width 0 text

unfoldable pub char_at : Bytes → ℕ → ℕ
char_at text i = elim (get_elem? text i) [ none ↦ 0 | some c ↦ c ]

-- The minutes of the text, 0 where it has none; `none` where they are refused.
unfoldable pub offset_minutes : Bytes → Option ℕ
offset_minutes text =
    let n = length text in
    if n == 6
    then (if char_at text 3 == 58 then digits (drop 4 text) 2 else none)
    else if n == 5
    then digits (drop 3 text) 2
    else some 0

unfoldable pub signed : Bool → ℕ → ℤ
signed true zero = pos 0
signed true (suc n) = negsuc n
signed false n = pos n

unfoldable pub check_offset : Bool → Option ℕ → Option ℕ → Option ℤ
check_offset minus (some hours) (some minutes) =
    if ltb 14 hours || ltb 59 minutes || (hours == 14 && not (minutes == 0))
    then none
    else some (signed minus (hours * 60 + minutes))
check_offset minus none minutes = none
check_offset minus (some hours) none = none

-- `none` is the return value 0.
unfoldable pub parse_offset : Bytes → Option ℤ
parse_offset text =
    let n = length text in
    let sign = char_at text 0 in
    if (n == 3 || n == 5 || n == 6) && (sign == 43 || sign == 45)
    then check_offset (sign == 45) (digits (drop 1 text) 2) (offset_minutes text)
    else none

-- `%02d`, for a number below 100
unfoldable pub two_digits : ℕ → Bytes
two_digits n = (48 + n / 10) ∷ (48 + n % 10) ∷ []

-- The text for `a`, the number without its sign.
unfoldable pub signed_text : Bool → ℕ → Bool → Bytes
signed_text minus a colon =
    (if minus then 45 else 43)
    ∷ (two_digits (a / 60 % 100) ++ ((if colon then 58 ∷ [] else []) ++ two_digits (a % 60)))

unfoldable pub offset_text : ℤ → Bool → Bytes
offset_text (pos n) colon = signed_text false n colon
offset_text (negsuc n) colon = signed_text true (suc n) colon
