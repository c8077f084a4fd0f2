-- ===== src/Text/Wide/RoundTrip.antt =====
-- `to_wide` and `from_wide` on the two UTF-16 encodings.
use kuu.Prelude.{
  ℕ, ◌+◌, ◌*◌, ◌/◌, ◌%◌, ◌<◌, ◌≡◌, refl, ap, sym, ◌∙◌, Bool, true, false, List, [], ◌∷◌, map, ltb,
  ◌==◌, if◌then◌else◌, All, Bytes, length, arith, Bool-cases, inl, inr,
}
use kuu.Prelude.Results.{failed, done}
use kuu.Text.Wide.{
  Windows, Encoding, utf16le, utf16be, invalid, no_memory, swap_unit, swap_utf16, units_of,
  bytes_of, surrogates_pair, utf16_to_wide, utf16_from_wide, to_wide, from_wide,
}
use kuu.Text.Wide.Surrogates.{
  is_scalar, utf16, utf16_all, scalars_of, surrogates_pair-utf16_all, surrogates_pair-IsForm,
}

abbrev pub utf16_of : Bool → Encoding
utf16_of true = utf16be
utf16_of false = utf16le

swap-swap : (units : List ℕ) → All (λ u. u < 65536) units → swap_utf16 (swap_utf16 units) ≡ units
unfolding swap_utf16 swap_unit
swap-swap [] h = refl
swap-swap (u ∷ rest) (hu, h) =
    let back : (u % 256 * 256 + u / 256) % 256 * 256 + (u % 256 * 256 + u / 256) / 256 ≡ u =
      omega arith in
    rw back (ap (λ ys. u ∷ ys) (swap-swap rest h))

swap_below : (units : List ℕ) → All (λ u. u < 65536) units → All (λ u. u < 65536) (swap_utf16 units)
unfolding swap_utf16 swap_unit
swap_below [] h = tt
swap_below (u ∷ rest) (hu, h) = (omega arith, swap_below rest h)

units_below : (bytes : Bytes) → All (λ b. b < 256) bytes → All (λ u. u < 65536) (units_of bytes)
unfolding units_of
units_below [] h = tt
units_below (a ∷ []) h = tt
units_below (a ∷ b ∷ rest) (ha, (hb, h)) = (omega arith, units_below rest h)

bytes_of-units_of :
    (bytes : Bytes)
    → All (λ b. b < 256) bytes
    → (length bytes % 2) ≡ 0
    → bytes_of (units_of bytes) ≡ bytes
unfolding bytes_of units_of
bytes_of-units_of [] h e = refl
bytes_of-units_of (a ∷ []) h e = absurd (omega arith)
bytes_of-units_of (a ∷ b ∷ rest) (ha, (hb, h)) e =
    let low : (a + b * 256) % 256 ≡ a = omega arith in
    let high : (a + b * 256) / 256 ≡ b = omega arith in
    rw (low, high) (ap (λ ys. a ∷ b ∷ ys) (bytes_of-units_of rest h (omega arith)))

pub units_of-bytes_of : (units : List ℕ) → units_of (bytes_of units) ≡ units
unfolding bytes_of units_of
units_of-bytes_of [] = refl
units_of-bytes_of (u ∷ rest) =
    let back : u % 256 + u / 256 * 256 ≡ u = omega arith in
    rw back (ap (λ ys. u ∷ ys) (units_of-bytes_of rest))

pub length-bytes_of : (units : List ℕ) → length (bytes_of units) ≡ length units * 2
unfolding bytes_of
length-bytes_of [] = refl
length-bytes_of (u ∷ rest) = omega (arith, length-bytes_of rest)

-- What acceptance of UTF-16 says: the units are the form of a sequence of scalar values, and
-- writing them back gives the bytes.
pub record Accepted (win : Windows) (big : Bool) (bytes : Bytes) (units : List ℕ) : Type 0 where
  pub form : utf16_all (scalars_of units) ≡ units
  pub scalars : All (λ s. is_scalar s ≡ true) (scalars_of units)
  pub back : from_wide win (utf16_of big) units ≡ done bytes

abbrev in_order : Bool → List ℕ → List ℕ
in_order big units = if big then swap_utf16 units else units

to_wide-utf16 :
    (win : Windows) (big : Bool) (bytes : Bytes)
    → to_wide win (utf16_of big) bytes ≡ utf16_to_wide win big bytes
unfolding to_wide
to_wide-utf16 win true bytes = refl
to_wide-utf16 win false bytes = refl

from_wide-utf16 :
    (win : Windows) (big : Bool) (units : List ℕ)
    → from_wide win (utf16_of big) units ≡ utf16_from_wide win big units
unfolding from_wide
from_wide-utf16 win true units = refl
from_wide-utf16 win false units = refl

all_tests :
    (a b c : Bool) (w u : List ℕ)
    → (if a
        then (if b then (if c then done w else failed invalid) else failed no_memory)
        else failed invalid)
      ≡ done u
    → (a ≡ true) × (c ≡ true) × (w ≡ u)
all_tests false b c w u e = absurd (cc)
all_tests true false c w u e = absurd (cc)
all_tests true true false w u e = absurd (cc)
all_tests true true true w u e = (refl, refl, cc)

accepted_units :
    (win : Windows) (big : Bool) (bytes : Bytes) (units : List ℕ)
    → to_wide win (utf16_of big) bytes ≡ done units
    → ((length bytes % 2 == 0) ≡ true)
      × (surrogates_pair (in_order big (units_of bytes)) ≡ true)
      × (in_order big (units_of bytes) ≡ units)
unfolding utf16_to_wide
accepted_units win big bytes units e =
    let seen = in_order big (units_of bytes) in
    all_tests (length bytes % 2 == 0) (win.alloc ((length bytes / 2 + 1) * 2))
      (surrogates_pair seen) seen units (sym (to_wide-utf16 win big bytes) ∙ e)

in_order_below :
    (big : Bool) (units : List ℕ)
    → All (λ u. u < 65536) units
    → All (λ u. u < 65536) (in_order big units)
in_order_below true units h = swap_below units h
in_order_below false units h = h

in_order_twice :
    (big : Bool) (units : List ℕ)
    → All (λ u. u < 65536) units
    → in_order big (in_order big units) ≡ units
in_order_twice true units h = swap-swap units h
in_order_twice false units h = refl

length-in_order : (big : Bool) (units : List ℕ) → length (in_order big units) ≡ length units
length-in_order false units = refl
length-in_order true units = unfold swap_utf16 in length-map units
  where
    length-map : (xs : List ℕ) → length (map swap_unit xs) ≡ length xs
    length-map [] = refl
    length-map (x ∷ xs) = omega (arith, length-map xs)

utf16_below :
    (scalars : List ℕ)
    → All (λ s. is_scalar s ≡ true) scalars
    → All (λ u. u < 65536) (utf16_all scalars)
unfolding utf16_all utf16 is_scalar
utf16_below [] h = tt
utf16_below (s ∷ rest) (ok, h) = elim (Bool-cases (ltb s 65536)) [
  | inl e ↦ rw e (ground arith, utf16_below rest h)
  | inr e ↦ rw e (ground arith, (ground arith, utf16_below rest h))
]

module _ (win : Windows) (grants : (n : ℕ) → win.alloc n ≡ true) where
  utf16_written :
      (big : Bool) (units : List ℕ)
      → from_wide win (utf16_of big) units ≡ done (bytes_of (in_order big units))
  unfolding utf16_from_wide
  utf16_written big units =
      from_wide-utf16 win big units ∙ rw (utf16_from_wide, grants (length units * 2 + 1)) refl

  -- Where `to_wide` accepts bytes as UTF-16, in either order, they are well-formed, and `from_wide`
  -- gives exactly those bytes back, if the allocator grants what is asked.
  pub to_wide-Accepted :
      (big : Bool) (bytes : Bytes) (units : List ℕ)
      → All (λ b. b < 256) bytes
      → to_wide win (utf16_of big) bytes ≡ done units
      → Accepted win big bytes units
  to_wide-Accepted big bytes units h e =
      let (even, paired, same) = accepted_units win big bytes units e in
      let below = in_order_below big (units_of bytes) (units_below bytes h) in
      let form = surrogates_pair-IsForm (in_order big (units_of bytes)) below paired in
      rw (sym same) (record {
        form = form.0;
        scalars = form.1;
        back =
            utf16_written big (in_order big (units_of bytes))
            ∙ ap done (
                ap bytes_of (in_order_twice big (units_of bytes) (units_below bytes h))
                ∙ bytes_of-units_of bytes h (ground arith));
      })

  -- The UTF-16 form of any sequence of scalar values is written, in either order, and read back as
  -- the same units, if the allocator grants what is asked.
  pub to_wide-from_wide :
      (big : Bool) (scalars : List ℕ)
      → All (λ s. is_scalar s ≡ true) scalars
      → let bytes = bytes_of (if big then swap_utf16 (utf16_all scalars) else utf16_all scalars) in
        (from_wide win (utf16_of big) (utf16_all scalars) ≡ done bytes)
        × (to_wide win (utf16_of big) bytes ≡ done (utf16_all scalars))
  unfolding utf16_to_wide
  to_wide-from_wide big scalars h =
      let units = utf16_all scalars in
      let bytes = bytes_of (in_order big units) in
      let back : in_order big (units_of bytes) ≡ units =
        ap (in_order big) (units_of-bytes_of (in_order big units))
        ∙ in_order_twice big units (utf16_below scalars h) in
      let even : (length bytes % 2 == 0) ≡ true =
        ground (arith, length-bytes_of (in_order big units)) in
      (
        utf16_written big units,
        to_wide-utf16 win big bytes
            ∙ rw
                (
                  utf16_to_wide,
                  even,
                  grants ((length bytes / 2 + 1) * 2),
                  back,
                  surrogates_pair-utf16_all scalars h,
                )
                refl,
      )
