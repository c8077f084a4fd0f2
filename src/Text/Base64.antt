-- ===== src/Text/Base64.antt =====
-- `l_text_tobase64` and `l_text_frombase64` of src/text.c.
pub mod RoundTrip
use kuu.Prelude.{
  ℕ, zero, suc, ◌+◌, ◌-◌, ◌*◌, ◌/◌, ◌%◌, ◌^◌, ◌≤◌, ◌<◌, ◌≡◌, refl, ap, sym, ◌∙◌, Bool, true, false,
  not, List, [], ◌∷◌, ◌++◌, Option, some, none, leb, ltb, ◌==◌, ◌&&◌, ◌||◌, if◌then◌else◌, within,
  Bytes, codes, get_elem?, All, arith, holds_below, holds_below-at, Bool-cases, inl, inr,
}
use kuu.Prelude.Results.{Result, failed, done}
use kuu.Text.{is_skipped}

abbrev b64_standard : Bytes
b64_standard = codes "ABCDEFGHIJKLMNOPQRSTUVWXYZabcdefghijklmnopqrstuvwxyz0123456789+/"

abbrev b64_url : Bytes
b64_url = codes "ABCDEFGHIJKLMNOPQRSTUVWXYZabcdefghijklmnopqrstuvwxyz0123456789-_"

-- `alphabet[k]`, for `k` below 64
unfoldable pub letter : Bool → ℕ → ℕ
letter url k = elim (get_elem? (if url then b64_url else b64_standard) k) [ none ↦ 0 | some c ↦ c ]

-- The bytes after the last whole group of three, then the groups of three.
unfoldable pub tobase64 : Bool → Bytes → Bytes
tobase64 url [] = []
tobase64 url (a ∷ []) =
    let v = a * 65536 in
    let quad = letter url (v / 262144) ∷ letter url (v / 4096 % 64) ∷ [] in
    if url then quad else quad ++ (61 ∷ 61 ∷ [])
tobase64 url (a ∷ b ∷ []) =
    let v = a * 65536 + b * 256 in
    let quad =
      letter url (v / 262144) ∷ letter url (v / 4096 % 64) ∷ letter url (v / 64 % 64) ∷ [] in
    if url then quad else quad ++ (61 ∷ [])
tobase64 url (a ∷ b ∷ c ∷ rest) =
    let v = a * 65536 + b * 256 + c in
    letter url (v / 262144)
    ∷ letter url (v / 4096 % 64)
    ∷ letter url (v / 64 % 64)
    ∷ letter url (v % 64)
    ∷ tobase64 url rest

-- `none` is the -1 of `b64_value`.
unfoldable pub b64_value : ℕ → Option ℕ
b64_value c =
    if within 65 90 c
    then some (c - 65)
    else (if within 97 122 c
        then some (c - 97 + 26)
        else (if within 48 57 c
            then some (c - 48 + 52)
            else (if c == 43 || c == 45
                then some 62
                else (if c == 47 || c == 95 then some 63 else none))))

-- The three messages of TEXT invalid, with the 1-based positions they name.
pub data Base64Error : Type 0 where
  after_padding : ℕ → Base64Error
  not_base64 : ℕ → ℕ → Base64Error
  lone_character : Base64Error

-- `acc`, `bits`, `padded` and the buffer of `l_text_frombase64`.
pub record Base64 : Type 0 where
  pub acc : ℕ
  pub bits : ℕ
  pub padded : Bool
  pub buffer : Bytes

-- `acc` is an unsigned of 32 bits; its low six bits are clear when the value comes in.
unfoldable pub add_value : Base64 → ℕ → Base64
add_value s v =
    let acc = (s.acc * 64 + v) % 4294967296 in
    let bits = s.bits + 6 in
    let left = bits - 8 in
    if leb 8 bits
    then record s { acc = acc; bits = left; buffer = s.buffer ++ ((acc / (2 ^ left) % 256) ∷ []) }
    else record s { acc = acc; bits = bits }

-- The loop's body at the byte `c` of index `i`.
unfoldable pub base64_step : Base64 → ℕ → ℕ → Result Base64Error Base64
base64_step s i c =
    if is_skipped c
    then done s
    else if c == 61
    then done (record s { padded = true })
    else if s.padded
    then failed (after_padding (i + 1))
    else elim (b64_value c) [ none ↦ failed (not_base64 c (i + 1)) | some v ↦ done (add_value s v) ]

unfoldable pub base64_loop : Base64 → ℕ → Bytes → Result Base64Error Base64
base64_loop s i [] = done s
base64_loop s i (c ∷ rest) = elim (base64_step s i c) [
  | failed e ↦ failed e
  | done next ↦ base64_loop next (i + 1) rest
]

-- What follows the loop.
unfoldable pub finish_base64 : Result Base64Error Base64 → Result Base64Error Bytes
finish_base64 (failed e) = failed e
finish_base64 (done s) = if leb 6 s.bits then failed lone_character else done s.buffer

unfoldable pub frombase64 : Bytes → Result Base64Error Bytes
frombase64 text =
    finish_base64 (base64_loop (record { acc = 0; bits = 0; padded = false; buffer = [] }) 0 text)
