-- ===== src/Zone/RoundTrip.antt =====
-- `parse_offset` reads back what `offset_text` writes.
use kuu.Prelude.{
  ℕ, suc, ◌+◌, ◌-◌, ◌*◌, ◌/◌, ◌%◌, ◌≤◌, ◌<◌, ◌≡◌, refl, ◌∙◌, Bool, true, false, not, [], ◌∷◌, ◌++◌,
  some, ltb, ◌==◌, ◌&&◌, ◌||◌, if◌then◌else◌, within, Bytes, arith,
}
use kuu.Prelude.Int.{ℤ, pos, negsuc}
use kuu.Zone.{
  signed, signed_text, digits_from, digits, char_at, offset_minutes, check_offset, parse_offset,
  two_digits, offset_text,
}

digits-two_digits : (n : ℕ) (rest : Bytes) → n < 100 → digits (two_digits n ++ rest) 2 ≡ some n
unfolding digits digits_from two_digits
digits-two_digits n rest lt =
    let tens : within 48 57 (48 + n / 10) ≡ true = ground arith in
    let ones : within 48 57 (48 + n % 10) ≡ true = ground arith in
    let back : (0 * 10 + (48 + n / 10 - 48)) * 10 + (48 + n % 10 - 48) ≡ n = omega arith in
    rw (tens, ones, back) refl

check_offset_lem :
    (minus : Bool) (a : ℕ)
    → a ≤ 840
    → check_offset minus (some (a / 60 % 100)) (some (a % 60)) ≡ some (signed minus a)
unfolding check_offset
check_offset_lem minus a le =
    let inside : (ltb 14 (a / 60 % 100)
          || ltb 59 (a % 60)
          || (a / 60 % 100 == 14 && not (a % 60 == 0)))
        ≡ false =
      ground arith in
    let back : a / 60 % 100 * 60 + a % 60 ≡ a = omega arith in rw (inside, back) refl

-- `parse_offset` on a text of the right shape.
parse_shape :
    (minus : Bool) (hours minutes : ℕ) (colon : Bool)
    → parse_offset (
        (if minus then 45 else 43)
        ∷ (two_digits hours ++ ((if colon then 58 ∷ [] else []) ++ two_digits minutes)))
      ≡ check_offset minus
          (digits (two_digits hours ++ ((if colon then 58 ∷ [] else []) ++ two_digits minutes)) 2)
          (digits (two_digits minutes ++ []) 2)
unfolding parse_offset offset_minutes two_digits char_at
parse_shape true hours minutes true = refl
parse_shape true hours minutes false = refl
parse_shape false hours minutes true = refl
parse_shape false hours minutes false = refl

parse_offset-signed_text :
    (minus : Bool) (a : ℕ) (colon : Bool)
    → a ≤ 840
    → parse_offset (signed_text minus a colon) ≡ some (signed minus a)
unfolding signed_text
parse_offset-signed_text minus a colon le =
    parse_shape minus (a / 60 % 100) (a % 60) colon
    ∙ rw
        (
          digits-two_digits (a / 60 % 100) ((if colon then 58 ∷ [] else []) ++ two_digits (a % 60))
              (omega arith),
          digits-two_digits (a % 60) [] (omega arith),
        )
        (check_offset_lem minus a le)

abbrev pub magnitude : ℤ → ℕ
magnitude (pos n) = n
magnitude (negsuc n) = suc n

-- An offset of up to fourteen hours, either way, is read back from its text, with a colon or
-- without.
pub parse_offset-offset_text :
    (offset : ℤ) (colon : Bool)
    → magnitude offset ≤ 840
    → parse_offset (offset_text offset colon) ≡ some offset
unfolding offset_text
parse_offset-offset_text (pos n) colon le =
    unfold signed in parse_offset-signed_text false n colon le
parse_offset-offset_text (negsuc n) colon le =
    unfold signed in parse_offset-signed_text true (suc n) colon le
