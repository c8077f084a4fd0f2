-- ===== src/Text/Wide.antt =====
-- `swap_utf16`, `to_wide` and `from_wide` of src/text.c, and `ku_utf8_valid` of src/wintext.c.
-- Windows' conversions and the allocator are the record `Windows`.
pub mod Surrogates
pub mod RoundTrip
use kuu.Prelude.{
  ℕ, zero, suc, ◌+◌, ◌*◌, ◌/◌, ◌%◌, ◌≡◌, Bool, true, false, List, [], ◌∷◌, Option, some, none, ltb,
  ◌==◌, ◌&&◌, ◌||◌, if◌then◌else◌, within, Bytes, length, map,
}
use kuu.Prelude.Results.{Result, failed, done}

pub data Encoding : Type 0 where
  utf8 : Encoding
  utf16le : Encoding
  utf16be : Encoding
  code_page : ℕ → Encoding

-- The statuses -1, -2 and -3.
pub data Refusal : Type 0 where
  invalid : Refusal
  unsupported : Refusal
  no_memory : Refusal

-- What the conversions call. A size is that of a first call, which has no buffer, or the error
-- code; a conversion is that of the second call. The Boolean is `used_default`. A page is its
-- number, CP_UTF8 being 65001.
pub record Windows : Type 0 where
  pub alloc : ℕ → Bool
  pub ansi_page : ℕ
  pub oem_page : ℕ
  pub wide_size : ℕ → Bytes → Result ℕ ℕ
  pub wide_convert : ℕ → Bytes → ℕ → Option (List ℕ)
  pub bytes_size : ℕ → List ℕ → Result ℕ (ℕ × Bool)
  pub bytes_convert : ℕ → List ℕ → ℕ → Option (Bytes × Bool)

abbrev pub int_max : ℕ
int_max = 2147483647

unfoldable pub swap_unit : ℕ → ℕ
swap_unit u = u % 256 * 256 + u / 256

unfoldable pub swap_utf16 : List ℕ → List ℕ
swap_utf16 units = map swap_unit units

-- The bytes in memory as UTF-16 units, and back; a last odd byte is dropped, as by `length / 2`.
unfoldable pub units_of : Bytes → List ℕ
units_of [] = []
units_of (a ∷ []) = []
units_of (a ∷ b ∷ rest) = (a + b * 256) ∷ units_of rest

unfoldable pub bytes_of : List ℕ → Bytes
bytes_of [] = []
bytes_of (u ∷ rest) = u % 256 ∷ u / 256 ∷ bytes_of rest

unfoldable pub is_high : ℕ → Bool
is_high u = within 55296 56319 u

unfoldable pub is_low : ℕ → Bool
is_low u = within 56320 57343 u

unfoldable pub is_unpaired : ℕ → Bool
is_unpaired v = ltb v 56320 || ltb 57343 v

-- The loop that refuses a surrogate without its partner.
unfoldable pub surrogates_pair : List ℕ → Bool
surrogates_pair [] = true
surrogates_pair (u ∷ []) = if is_high u then false else (if is_low u then false else true)
surrogates_pair (u ∷ v ∷ rest) = elim (is_high u) [
  | true ↦ elim (is_unpaired v) [ true ↦ false | false ↦ surrogates_pair rest ]
  | false ↦ elim (is_low u) [ true ↦ false | false ↦ surrogates_pair (v ∷ rest) ]
]

-- The first branch of `to_wide`.
unfoldable pub utf16_to_wide : Windows → Bool → Bytes → Result Refusal (List ℕ)
utf16_to_wide win big bytes =
    let units = if big then swap_utf16 (units_of bytes) else units_of bytes in
    if length bytes % 2 == 0
    then (if win.alloc ((length bytes / 2 + 1) * 2)
        then (if surrogates_pair units then done units else failed invalid)
        else failed no_memory)
    else failed invalid

-- ERROR_INVALID_PARAMETER is 87, and ERROR_INVALID_FLAGS is 1004.
abbrev pub refusal_of : ℕ → Refusal
refusal_of error = if error == 87 || error == 1004 then unsupported else invalid

unfoldable pub page_to_wide : Windows → ℕ → Bytes → Result Refusal (List ℕ)
page_to_wide win page bytes =
    if length bytes == 0
    then (if win.alloc 2 then done [] else failed no_memory)
    else if ltb int_max (length bytes)
    then failed invalid
    else elim (win.wide_size page bytes) [
      | failed error ↦ failed (refusal_of error)
      | done n ↦
          if win.alloc ((n + 1) * 2)
          then elim (win.wide_convert page bytes n) [
            | none ↦ failed invalid
            | some units ↦ done units
          ]
          else failed no_memory
    ]

unfoldable pub to_wide : Windows → Encoding → Bytes → Result Refusal (List ℕ)
to_wide win utf16le bytes = utf16_to_wide win false bytes
to_wide win utf16be bytes = utf16_to_wide win true bytes
to_wide win utf8 bytes = page_to_wide win 65001 bytes
to_wide win (code_page page) bytes = page_to_wide win page bytes

-- The first branch of `from_wide`.
unfoldable pub utf16_from_wide : Windows → Bool → List ℕ → Result Refusal Bytes
utf16_from_wide win big units =
    if win.alloc (length units * 2 + 1)
    then done (bytes_of (if big then swap_utf16 units else units))
    else failed no_memory

unfoldable pub page_from_wide : Windows → ℕ → List ℕ → Result Refusal Bytes
page_from_wide win page units =
    if length units == 0
    then (if win.alloc 1 then done [] else failed no_memory)
    else if ltb int_max (length units)
    then failed invalid
    else elim (win.bytes_size page units) [
      | failed error ↦ failed (refusal_of error)
      | done (n, true) ↦ failed invalid
      | done (n, false) ↦
          if win.alloc (n + 1)
          then elim (win.bytes_convert page units n) [
            | none ↦ failed invalid
            | some (bytes, true) ↦ failed invalid
            | some (bytes, false) ↦ done bytes
          ]
          else failed no_memory
    ]

unfoldable pub from_wide : Windows → Encoding → List ℕ → Result Refusal Bytes
from_wide win utf16le units = utf16_from_wide win false units
from_wide win utf16be units = utf16_from_wide win true units
from_wide win utf8 units = page_from_wide win 65001 units
from_wide win (code_page page) units = page_from_wide win page units

-- A first call gives no size of 0 for bytes that are valid.
unfoldable pub utf8_valid : Windows → Bytes → Bool
utf8_valid win bytes =
    if length bytes == 0
    then true
    else if ltb int_max (length bytes)
    then false
    else elim (win.wide_size 65001 bytes) [ failed error ↦ false | done n ↦ true ]
