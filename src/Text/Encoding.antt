-- ===== src/Text/Encoding.antt =====
-- `lower_eq`, `resolve_encoding`, `l_text_decode`, `l_text_encode` and `l_text_valid` of src/text.c.
-- The C library's `strtol` in base 10 is a parameter: the number, and what is left after it.
pub mod RoundTrip
use kuu.Prelude.{
  ℕ, zero, suc, ◌+◌, ◌≤◌, ◌≡◌, refl, ap, ◌∙◌, ◌↔◌, Bool, true, false, List, [], ◌∷◌, map, equal,
  drop, get_elem?, Option, some, none, ltb, ◌==◌, ◌&&◌, ◌||◌, if◌then◌else◌, within, Bytes, codes,
  length, arith, not,
}
use kuu.Prelude.Int.{ℤ, pos, negsuc}
use kuu.Prelude.Results.{Result, failed, done}
use kuu.Text.Wide.{
  Windows, Encoding, utf8, utf16le, utf16be, code_page, Refusal, invalid, unsupported, no_memory,
  to_wide, from_wide, utf8_valid,
}

unfoldable pub ascii_lower : ℕ → ℕ
ascii_lower c = if within 65 90 c then c + 32 else c

unfoldable pub lower_eq : Bytes → Bytes → Bool
lower_eq [] [] = true
lower_eq [] (y ∷ b) = false
lower_eq (x ∷ a) [] = false
lower_eq (x ∷ a) (y ∷ b) =
    let rest = lower_eq a b in if ascii_lower x == ascii_lower y then rest else false

-- `name[i]`, NUL past the end
unfoldable pub char_at : Bytes → ℕ → ℕ
char_at name i = elim (get_elem? name i) [ none ↦ 0 | some c ↦ c ]

unfoldable pub page_number : ℤ × Bytes → Option Encoding
page_number (negsuc n, end) = none
page_number (pos page, end) =
    if not (length end == 0) || page == 0 || ltb 65535 page then none else some (code_page page)

-- `none` is the return value 0, for a name that is unknown.
unfoldable pub resolve_encoding : Windows → (Bytes → ℤ × Bytes) → Bytes → Option Encoding
resolve_encoding win strtol name =
    if lower_eq name (codes "utf-8") || lower_eq name (codes "utf8")
    then some utf8
    else if lower_eq name (codes "utf-16le")
        || lower_eq name (codes "utf-16")
        || lower_eq name (codes "utf16le")
    then some utf16le
    else if lower_eq name (codes "utf-16be") || lower_eq name (codes "utf16be")
    then some utf16be
    else if lower_eq name (codes "latin1") || lower_eq name (codes "iso-8859-1")
    then some (code_page 28591)
    else if lower_eq name (codes "ansi")
    then some (code_page win.ansi_page)
    else if lower_eq name (codes "oem")
    then some (code_page win.oem_page)
    else if (char_at name 0 == 99 || char_at name 0 == 67)
        && (char_at name 1 == 112 || char_at name 1 == 80)
        && not (char_at name 2 == 0)
    then page_number (strtol (drop 2 name))
    else none

-- How `text.decode` and `text.encode` fail: TEXT badvalue, invalid, unsupported, unencodable and
-- oserror.
pub data TextError : Type 0 where
  bad_encoding : TextError
  invalid_text : TextError
  unavailable : TextError
  unencodable : TextError
  out_of_memory : TextError

unfoldable pub report : Refusal → TextError
report invalid = invalid_text
report unsupported = unavailable
report no_memory = out_of_memory

-- The conversion of `l_text_decode`, past the UTF-8 branch.
unfoldable pub transcode_in : Windows → Encoding → Bytes → Result TextError Bytes
transcode_in win encoding bytes = elim (to_wide win encoding bytes) [
  | failed status ↦ failed (report status)
  | done units ↦ elim (from_wide win utf8 units) [
    | failed status ↦ failed (report status)
    | done text ↦ done text
  ]
]

-- The conversion of `l_text_encode`, past the UTF-8 branch.
unfoldable pub transcode_out : Windows → Encoding → Bytes → Result TextError Bytes
transcode_out win encoding text = elim (to_wide win utf8 text) [
  | failed status ↦ failed (report status)
  | done units ↦ elim (from_wide win encoding units) [
    | failed invalid ↦ failed unencodable
    | failed unsupported ↦ failed unavailable
    | failed no_memory ↦ failed out_of_memory
    | done bytes ↦ done bytes
  ]
]

unfoldable pub decode_as : Windows → Option Encoding → Bytes → Result TextError Bytes
decode_as win none bytes = failed bad_encoding
decode_as win (some utf8) bytes = if utf8_valid win bytes then done bytes else failed invalid_text
decode_as win (some encoding) bytes = transcode_in win encoding bytes

unfoldable pub encode_as : Windows → Option Encoding → Bytes → Result TextError Bytes
encode_as win none text = failed bad_encoding
encode_as win (some encoding) text =
    if utf8_valid win text
    then elim encoding [ utf8 ↦ done text | other ↦ transcode_out win other text ]
    else failed invalid_text

-- `l_text_decode` and `l_text_encode`
unfoldable pub decode : Windows → (Bytes → ℤ × Bytes) → Bytes → Bytes → Result TextError Bytes
decode win strtol bytes name = decode_as win (resolve_encoding win strtol name) bytes

unfoldable pub encode : Windows → (Bytes → ℤ × Bytes) → Bytes → Bytes → Result TextError Bytes
encode win strtol text name = encode_as win (resolve_encoding win strtol name) text

-- Two names match exactly when they are the same up to ASCII case.
lower_eq_iff : (a b : Bytes) → (lower_eq a b ≡ true) ↔ (map ascii_lower a ≡ map ascii_lower b)
unfolding lower_eq
lower_eq_iff (x ∷ a) (y ∷ b) = ground (arith, lower_eq_iff a b)
lower_eq_iff [] [] = ground arith
lower_eq_iff [] (y ∷ b) = ground arith
lower_eq_iff (x ∷ a) [] = ground arith
