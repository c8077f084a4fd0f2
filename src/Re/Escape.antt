-- ===== src/Re/Escape.antt =====
-- `l_re_escape` of src/re.c.
use kuu.Prelude.{
  ℕ, Bool, true, false, ◌||◌, [], ◌∷◌, Option, some, none, leb, ◌==◌, if◌then◌else◌, within, Bytes,
  ◌&&◌,
}

unfoldable pub is_plain : ℕ → Bool
is_plain c = within 48 57 c || within 65 90 c || within 97 122 c || c == 95 || leb 128 c

unfoldable pub escape : Bytes → Bytes
escape [] = []
escape (c ∷ s) = if is_plain c then c ∷ escape s else 92 ∷ c ∷ escape s

unfoldable pub with_byte : ℕ → Option Bytes → Option Bytes
with_byte c none = none
with_byte c (some s) = some (c ∷ s)

-- The metacharacters of PCRE2 outside a class, with `#` and the white space that an extended pattern skips.
unfoldable pub is_meta : ℕ → Bool
is_meta c =
    c == 92
    || c == 94
    || c == 36
    || c == 46
    || c == 91
    || c == 124
    || c == 40
    || c == 41
    || c == 42
    || c == 43
    || c == 63
    || c == 123
    || c == 35
    || c == 32
    || (leb 9 c && leb c 13)

-- The letters and digits of ASCII, which a backslash gives a meaning of their own.
unfoldable pub is_alphanumeric : ℕ → Bool
is_alphanumeric c = (leb 48 c && leb c 57) || (leb 65 c && leb c 90) || (leb 97 c && leb c 122)

-- The bytes that a pattern matches when it is nothing but literal bytes, by PCRE2's documentation: a
-- byte that is no metacharacter stands for itself, and a backslash makes a byte that is no letter and
-- no digit stand for itself. `literal true` is what is read behind a backslash.
unfoldable pub literal : Bool → Bytes → Option Bytes
literal false [] = some []
literal true [] = none
literal false (c ∷ s) =
    if c == 92 then literal true s else if is_meta c then none else with_byte c (literal false s)
literal true (c ∷ s) = if is_alphanumeric c then none else with_byte c (literal false s)
