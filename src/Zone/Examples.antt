-- ===== src/Zone/Examples.antt =====
-- Tests of the offsets of src/time.c, and the round trip at one of them.
use kuu.Prelude.{◌≡◌, refl, true, some, none, codes, arith}
use kuu.Prelude.Int.{pos, negsuc}
use kuu.Zone.{
  signed, signed_text, digits_from, digits, char_at, offset_minutes, check_offset, parse_offset,
  two_digits, offset_text,
}
use kuu.Zone.RoundTrip.{parse_offset-offset_text}

parse_offset_test :
    (parse_offset (codes "-05:30") ≡ some (negsuc 329))
    × (parse_offset (codes "+0100") ≡ some (pos 60))
    × (parse_offset (codes "+02") ≡ some (pos 120))
    × (parse_offset (codes "+14:01") ≡ none)
    × (parse_offset (codes "+1:000") ≡ none)
    × (offset_text (negsuc 329) true ≡ codes "-05:30")
unfolding parse_offset check_offset offset_minutes digits digits_from char_at offset_text two_digits
    signed signed_text
parse_offset_test = (refl, refl, refl, refl, refl, refl)

parse_offset-offset_text_example : parse_offset (offset_text (negsuc 329) true) ≡ some (negsuc 329)
parse_offset-offset_text_example = parse_offset-offset_text (negsuc 329) true (omega arith)
