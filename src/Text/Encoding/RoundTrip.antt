-- ===== src/Text/Encoding/RoundTrip.antt =====
-- `text.encode` takes back what `text.decode` made of UTF-16.
use kuu.Prelude.{
  ℕ, ◌+◌, ◌*◌, ◌≤◌, ◌<◌, ◌≡◌, refl, ap, sym, ◌∙◌, Bool, true, false, List, [], ◌∷◌, Option, some,
  none, ltb, ◌==◌, if◌then◌else◌, Bytes, length, All, arith, Bool-cases, inl, inr,
}
use kuu.Prelude.Int.{ℤ}
use kuu.Prelude.Results.{Result, failed, done}
use kuu.Text.Wide.{
  Windows, Encoding, utf8, Refusal, invalid, no_memory, int_max, refusal_of, page_to_wide,
  page_from_wide, to_wide, from_wide, utf8_valid,
}
use kuu.Text.Wide.RoundTrip.{utf16_of, to_wide-Accepted}
use kuu.Text.Encoding.{
  TextError, report, transcode_in, transcode_out, decode_as, encode_as, resolve_encoding, decode,
  encode,
}

otherwise : {A : Type 0} {b : Bool} (x : A) {y z : A} → b ≡ false → (if b then x else y) ≡ z → y ≡ z
otherwise {b = true} x p e = absurd (cc)
otherwise {b = false} x p e = e

-- What Windows documents of its two strict conversions between UTF-16 and UTF-8: bytes that one
-- makes are valid for the other, which makes the same units of them. Sizes are `int`s.
pub record IsLossless (win : Windows) : Type 0 where
  pub nonempty :
      (units : List ℕ) (n : ℕ) (text : Bytes)
      → (length units == 0) ≡ false
      → win.bytes_size 65001 units ≡ done (n, false)
      → win.bytes_convert 65001 units n ≡ some (text, false)
      → (0 < length text) × (length text ≤ int_max)
  pub size : Bytes → ℕ
  pub inverse :
      (units : List ℕ) (n : ℕ) (text : Bytes)
      → (length units == 0) ≡ false
      → win.bytes_size 65001 units ≡ done (n, false)
      → win.bytes_convert 65001 units n ≡ some (text, false)
      → (win.wide_size 65001 text ≡ done (size text))
        × (win.wide_convert 65001 text (size text) ≡ some units)

same_bytes :
    {made text : Bytes} → ◌≡◌ {A = Result TextError Bytes} (done made) (done text) → made ≡ text
same_bytes e = cc

decode_as-utf16 :
    (win : Windows) (big : Bool) (bytes : Bytes)
    → decode_as win (some (utf16_of big)) bytes ≡ transcode_in win (utf16_of big) bytes
unfolding decode_as
decode_as-utf16 win true bytes = refl
decode_as-utf16 win false bytes = refl

encode_as-utf16 :
    (win : Windows) (big : Bool) (text : Bytes)
    → utf8_valid win text ≡ true
    → encode_as win (some (utf16_of big)) text ≡ transcode_out win (utf16_of big) text
unfolding encode_as
encode_as-utf16 win true text e = rw e refl
encode_as-utf16 win false text e = rw e refl

module _ (win : Windows) (grants : (n : ℕ) → win.alloc n ≡ true) (law : IsLossless win) where
  -- What a UTF-8 text is to be for units.
  abbrev Reads : List ℕ → Bytes → Type 0
  Reads units text = (utf8_valid win text ≡ true) × (page_to_wide win 65001 text ≡ done units)

  convert-Reads :
      (units : List ℕ) (n : ℕ) (text : Bytes)
      → (length units == 0) ≡ false
      → win.bytes_size 65001 units ≡ done (n, false)
      → win.bytes_convert 65001 units n ≡ some (text, false)
      → Reads units text
  unfolding utf8_valid page_to_wide
  convert-Reads units n text some_units e f =
      let (pos, small) = law.nonempty units n text some_units e f in
      let (size, convert) = law.inverse units n text some_units e f in
      let empty : (length text == 0) ≡ false = ground arith in
      let large : ltb int_max (length text) ≡ false = ground arith in
      (
        rw (empty, large, size) refl,
        rw (empty, large, size, grants ((law.size text + 1) * 2), convert) refl,
      )

  from_convert :
      (units : List ℕ) (n : ℕ) (text : Bytes) (o : Option (Bytes × Bool))
      → (length units == 0) ≡ false
      → win.bytes_size 65001 units ≡ done (n, false)
      → win.bytes_convert 65001 units n ≡ o
      → (if win.alloc (n + 1)
          then elim o [
            | none ↦ failed invalid
            | some (bytes, true) ↦ failed invalid
            | some (bytes, false) ↦ done bytes
          ]
          else failed no_memory)
        ≡ done text
      → Reads units text
  from_convert units n text none b e f r = absurd (ground (arith, grants (n + 1)))
  from_convert units n text (some (bytes, true)) b e f r = absurd (ground (arith, grants (n + 1)))
  from_convert units n text (some (bytes, false)) b e f r =
      let same : bytes ≡ text = ground (arith, grants (n + 1)) in
      rw (sym same) (convert-Reads units n bytes b e f)

  from_size :
      (units : List ℕ) (text : Bytes) (r : Result ℕ (ℕ × Bool))
      → (length units == 0) ≡ false
      → win.bytes_size 65001 units ≡ r
      → elim r [
        | failed error ↦ failed (refusal_of error)
        | done (n, true) ↦ failed invalid
        | done (n, false) ↦
            if win.alloc (n + 1)
            then elim (win.bytes_convert 65001 units n) [
              | none ↦ failed invalid
              | some (bytes, true) ↦ failed invalid
              | some (bytes, false) ↦ done bytes
            ]
            else failed no_memory
      ]
        ≡ done text
      → Reads units text
  from_size units text (failed error) b e r = absurd (cc)
  from_size units text (done (n, true)) b e r = absurd (cc)
  from_size units text (done (n, false)) b e r =
      from_convert units n text (win.bytes_convert 65001 units n) b e refl r

  page_from_wide-Reads :
      (units : List ℕ) (text : Bytes)
      → page_from_wide win 65001 units ≡ done text
      → Reads units text
  unfolding page_from_wide
  page_from_wide-Reads [] text e =
      let same : [] ≡ text = ground (arith, grants 1) in
      rw (sym same) (unfold utf8_valid page_to_wide in (refl, rw (grants 2) refl))
  page_from_wide-Reads (u ∷ units) text e =
      let some_units : (length (u ∷ units) == 0) ≡ false = ground arith in
      let rest = otherwise _ some_units e in
      elim (Bool-cases (ltb int_max (length (u ∷ units)))) [
        | inl big ↦ absurd (ground arith)
        | inr small ↦
            from_size (u ∷ units) text (win.bytes_size 65001 (u ∷ units)) some_units refl
              (otherwise _ small rest)
      ]

  decoded :
      (encoding : Encoding) (bytes text : Bytes) (r : Result Refusal (List ℕ))
      → to_wide win encoding bytes ≡ r
      → elim r [
        | failed status ↦ failed (report status)
        | done units ↦ elim (from_wide win utf8 units) [
          | failed status ↦ failed (report status)
          | done text ↦ done text
        ]
      ]
        ≡ done text
      → (units : List ℕ) × (to_wide win encoding bytes ≡ done units)
        × (from_wide win utf8 units ≡ done text)
  decoded encoding bytes text (failed status) p e = absurd (cc)
  decoded encoding bytes text (done units) p e =
      (units, p, by_text (from_wide win utf8 units) refl e)
    where
      by_text :
          (r : Result Refusal Bytes)
          → from_wide win utf8 units ≡ r
          → elim r [ failed status ↦ failed (report status) | done text ↦ done text ] ≡ done text
          → from_wide win utf8 units ≡ done text
      by_text (failed status) q f = absurd (cc)
      by_text (done made) q f = q ∙ ap done (same_bytes f)

  -- If the allocator grants what is asked and Windows' UTF-8 conversions are inverse, then
  -- whatever text `text.decode` makes of bytes in UTF-16, in either order, `text.encode` makes those
  -- bytes of it again.
  pub encode-decode :
      (strtol : Bytes → ℤ × Bytes) (name bytes text : Bytes) (big : Bool)
      → All (λ b. b < 256) bytes
      → resolve_encoding win strtol name ≡ some (utf16_of big)
      → decode win strtol bytes name ≡ done text
      → encode win strtol text name ≡ done bytes
  unfolding decode encode transcode_in transcode_out
  encode-decode strtol name bytes text big h r e =
      let taken : transcode_in win (utf16_of big) bytes ≡ done text =
        sym (decode_as-utf16 win big bytes) ∙ ap (λ o. decode_as win o bytes) (sym r) ∙ e in
      let (units, wide, narrow) =
        decoded (utf16_of big) bytes text (to_wide win (utf16_of big) bytes) refl taken in
      let (valid, read) = page_from_wide-Reads units text (unfold from_wide in narrow) in
      let back = (to_wide-Accepted win grants big bytes units h wide).back in
      let again : to_wide win utf8 text ≡ done units = unfold to_wide in read in
      rw (encode, r) (encode_as-utf16 win big text valid ∙ rw (transcode_out, again, back) refl)
