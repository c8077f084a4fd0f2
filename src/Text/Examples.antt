-- ===== src/Text/Examples.antt =====
-- Tests of src/text.c, and the theorems on its codecs at concrete inputs.
use kuu.Prelude.{
  ℕ, ◌*◌, ◌/◌, ◌≡◌, refl, ap, sym, ◌-◌, Bool, true, false, [], ◌∷◌, some, none, leb, ◌==◌,
  if◌then◌else◌, Bytes, codes, length, arith, equal, take, drop,
}
use kuu.Prelude.Int.{ℤ, pos}
use kuu.Prelude.Results.{Result, failed, done}
use kuu.Text.{is_skipped}
use kuu.Text.Base64.{
  tobase64, frombase64, letter, b64_value, add_value, base64_step, base64_loop, finish_base64,
  after_padding, not_base64, lone_character,
}
use kuu.Text.Base64.RoundTrip.{frombase64-tobase64}
use kuu.Text.Hex.{
  tohex, fromhex, hex_digit, digit_value, hex_step, hex_loop, finish_hex, not_hex, odd_digits,
  fromhex-tohex,
}
use kuu.Text.Trim.{
  is_blank, byte_at, trim_sides, trim_left, trim_right, trim_range, trim, Trimmed, trim-Trimmed,
}
use kuu.Text.Wide.{
  Windows, utf16le, utf16be, invalid, int_max, units_of, bytes_of, swap_unit, swap_utf16, is_high,
  is_low, is_unpaired, surrogates_pair, utf16_to_wide, page_from_wide, to_wide, from_wide,
  utf8_valid,
}
use kuu.Text.Wide.Surrogates.{is_scalar, utf16_all}
use kuu.Text.Wide.RoundTrip.{
  Accepted, to_wide-Accepted, to_wide-from_wide, units_of-bytes_of, length-bytes_of,
}
use kuu.Text.Encoding.{
  ascii_lower, lower_eq, char_at, page_number, resolve_encoding, transcode_in, decode_as, decode,
  encode, bad_encoding,
}
use kuu.Text.Encoding.RoundTrip.{IsLossless, encode-decode}

tobase64_test :
    (tobase64 false (codes "Man") ≡ codes "TWFu")
    × (tobase64 false (codes "Ma") ≡ codes "TWE=")
    × (tobase64 true (251 ∷ []) ≡ codes "-w")
unfolding tobase64 letter
tobase64_test = (refl, refl, refl)

frombase64_test :
    (frombase64 (codes "TW Fu") ≡ done (codes "Man"))
    × (frombase64 (codes "TWE") ≡ done (codes "Ma"))
    × (frombase64 (codes "TW=E") ≡ failed (after_padding 4))
    × (frombase64 (codes "T!") ≡ failed (not_base64 33 2))
    × (frombase64 (codes "TWFuT") ≡ failed lone_character)
unfolding frombase64 base64_loop base64_step add_value b64_value finish_base64 is_skipped
frombase64_test = (refl, refl, refl, refl, refl)

hex_test :
    (tohex (10 ∷ 255 ∷ []) ≡ codes "0aff")
    × (fromhex (codes "0A fF") ≡ done (10 ∷ 255 ∷ []))
    × (fromhex (codes "0g") ≡ failed (not_hex 103 2))
    × (fromhex (codes "123") ≡ failed odd_digits)
unfolding tohex hex_digit fromhex hex_loop hex_step digit_value finish_hex is_skipped
hex_test = (refl, refl, refl, refl)

trim_test :
    (trim (codes " a b ") (codes "both") ≡ some (codes "a b"))
    × (trim (codes " a b ") (codes "right") ≡ some (codes " a b"))
    × (trim (codes " a") (codes "middle") ≡ none)
unfolding trim trim_sides trim_range trim_left trim_right byte_at is_blank equal
trim_test = (refl, refl, refl)

abbrev sized : ℕ → Bool → Result ℕ (ℕ × Bool)
sized n small = if small then done (n, false) else failed 122

small_size : (m n : ℕ) (small : Bool) → sized m small ≡ done (n, false) → small ≡ true
small_size m n true e = refl
small_size m n false e = absurd (cc)

-- A stand-in for Windows whose "UTF-8" writes two bytes for a unit.
abbrev windows : Windows
windows = record {
  alloc = λ n. true;
  ansi_page = 1252;
  oem_page = 437;
  wide_size = λ page bytes. done (length bytes / 2);
  wide_convert = λ page bytes n. some (units_of bytes);
  bytes_size = λ page units. sized (length units * 2) (leb (length units * 2) int_max);
  bytes_convert = λ page units n. some (bytes_of units, false);
}

windows-IsLossless : IsLossless windows
windows-IsLossless = record {
  nonempty = λ units n text p e f.
      let same : bytes_of units ≡ text = cc in
      let small = small_size (length units * 2) n (leb (length units * 2) int_max) e in
      rw (sym same)
        (ground (arith, length-bytes_of units, p), ground (arith, length-bytes_of units, small));
  size = λ text. length text / 2;
  inverse = λ units n text p e f.
      let same : bytes_of units ≡ text = cc in
      (refl, rw (sym same) (ap some (units_of-bytes_of units)));
}

abbrev strtol : Bytes → ℤ × Bytes
strtol text = if length text == 4 then (pos 1252, []) else (pos 0, text)

resolve_encoding_test :
    (resolve_encoding windows strtol (codes "UTF-16") ≡ some utf16le)
    × (resolve_encoding windows strtol (codes "cp0") ≡ none)
    × (resolve_encoding windows strtol (codes "utf") ≡ none)
unfolding resolve_encoding lower_eq ascii_lower char_at page_number
resolve_encoding_test = (refl, refl, refl)

-- The bytes of 'a' and of U+1F600, and the sequence of the two.
abbrev wide_text : Bytes
wide_text = 97 ∷ 0 ∷ 61 ∷ 216 ∷ 0 ∷ 222 ∷ []

to_wide_test :
    (to_wide windows utf16le wide_text ≡ done (97 ∷ 55357 ∷ 56832 ∷ []))
    × (to_wide windows utf16le (61 ∷ 216 ∷ []) ≡ failed invalid)
    × (to_wide windows utf16be (216 ∷ 61 ∷ 222 ∷ 0 ∷ []) ≡ done (55357 ∷ 56832 ∷ []))
    × (decode windows strtol wide_text (codes "utf-8") ≡ done wide_text)
    × (decode windows strtol wide_text (codes "utf") ≡ failed bad_encoding)
unfolding to_wide utf16_to_wide units_of swap_utf16 swap_unit surrogates_pair is_high is_low
    is_unpaired decode decode_as resolve_encoding lower_eq ascii_lower char_at utf8_valid
to_wide_test = (refl, refl, refl, refl, refl)

frombase64-tobase64_example : frombase64 (tobase64 false (77 ∷ 97 ∷ [])) ≡ done (77 ∷ 97 ∷ [])
frombase64-tobase64_example =
    frombase64-tobase64 false (77 ∷ 97 ∷ []) (omega arith, (omega arith, tt))

fromhex-tohex_example : fromhex (tohex (10 ∷ 255 ∷ [])) ≡ done (10 ∷ 255 ∷ [])
fromhex-tohex_example = fromhex-tohex (10 ∷ 255 ∷ []) (omega arith, (omega arith, tt))

trim-Trimmed_example :
    (trim (codes " a ") (codes "left")
      ≡ some (
          take
            ((trim_range (codes " a ") true false).1 - (trim_range (codes " a ") true false).0)
            (drop (trim_range (codes " a ") true false).0 (codes " a "))))
    × Trimmed
        (codes " a ")
        true
        false
        (trim_range (codes " a ") true false).0
        (trim_range (codes " a ") true false).1
trim-Trimmed_example =
    trim-Trimmed (codes " a ") (codes "left") true false (unfold trim_sides equal in refl)

to_wide-Accepted_example : Accepted windows false wide_text (97 ∷ 55357 ∷ 56832 ∷ [])
to_wide-Accepted_example =
    to_wide-Accepted windows (λ n. refl) false wide_text (97 ∷ 55357 ∷ 56832 ∷ [])
      (omega arith, (omega arith, (omega arith, (omega arith, (omega arith, (omega arith, tt))))))
      (to_wide_test.0)

to_wide-from_wide_example :
    (from_wide windows utf16be (utf16_all (128512 ∷ []))
      ≡ done (bytes_of (swap_utf16 (utf16_all (128512 ∷ [])))))
    × (to_wide windows utf16be (bytes_of (swap_utf16 (utf16_all (128512 ∷ []))))
        ≡ done (utf16_all (128512 ∷ [])))
to_wide-from_wide_example =
    to_wide-from_wide windows (λ n. refl) true (128512 ∷ []) (unfold is_scalar in (refl, tt))

encode-decode_example : encode windows strtol wide_text (codes "utf-16") ≡ done wide_text
encode-decode_example =
    encode-decode windows (λ n. refl) windows-IsLossless strtol (codes "utf-16") wide_text wide_text
      false
      (omega arith, (omega arith, (omega arith, (omega arith, (omega arith, (omega arith, tt))))))
      (unfold resolve_encoding lower_eq ascii_lower in refl)
      (unfold decode decode_as resolve_encoding lower_eq ascii_lower transcode_in to_wide
          utf16_to_wide units_of surrogates_pair is_high is_low is_unpaired from_wide page_from_wide
          bytes_of in
        refl)
