-- ===== src/Text/Base64/RoundTrip.antt =====
-- `l_text_frombase64` reads back what `l_text_tobase64` writes.
use kuu.Prelude.{
  ℕ, ◌+◌, ◌*◌, ◌/◌, ◌%◌, ◌<◌, ◌≡◌, refl, ap, sym, ◌∙◌, Bool, true, false, not, [], ◌∷◌, ◌++◌,
  Option, some, none, ◌==◌, ◌&&◌, if◌then◌else◌, Bytes, All, append-nil, append_assoc, arith,
  holds_below, holds_below-at,
}
use kuu.Prelude.Results.{Result, done}
use kuu.Text.{is_skipped}
use kuu.Text.Base64.{
  letter, tobase64, b64_value, Base64Error, Base64, add_value, base64_step, base64_loop,
  finish_base64, frombase64,
}

abbrev holds : Option ℕ → ℕ → Bool
holds none k = false
holds (some v) k = v == k

is_letter_of : Bool → ℕ → Bool
is_letter_of url k =
    holds (b64_value (letter url k)) k
    && not (is_skipped (letter url k))
    && not (letter url k == 61)

letters : (url : Bool) → holds_below (is_letter_of url) 64 ≡ true
unfolding holds_below is_letter_of letter b64_value is_skipped
letters true = refl
letters false = refl

letter_value : (url : Bool) (k : ℕ) → k < 64 → is_letter_of url k ≡ true
letter_value url k lt = holds_below-at (is_letter_of url) 64 (letters url) k lt

abbrev unpadded : ℕ → ℕ → Bytes → Base64
unpadded acc bits out = record { acc = acc; bits = bits; padded = false; buffer = out }

base64_step-value :
    (acc bits i c v : ℕ) (out : Bytes)
    → is_skipped c ≡ false
    → (c == 61) ≡ false
    → b64_value c ≡ some v
    → base64_step (unpadded acc bits out) i c ≡ done (add_value (unpadded acc bits out) v)
unfolding base64_step
base64_step-value acc bits i c v out plain pad value = rw (plain, pad, value) refl

letter_facts :
    (c k : ℕ) (o : Option ℕ)
    → b64_value c ≡ o
    → (holds o k && not (is_skipped c) && not (c == 61)) ≡ true
    → (is_skipped c ≡ false) × ((c == 61) ≡ false) × (b64_value c ≡ some k)
letter_facts c k none e ok = absurd (cc)
letter_facts c k (some v) e ok = (ground arith, ground arith, e ∙ ground arith)

base64_step-letter :
    (acc bits i : ℕ) (out : Bytes) (url : Bool) (k : ℕ)
    → k < 64
    → base64_step (unpadded acc bits out) i (letter url k)
      ≡ done (add_value (unpadded acc bits out) k)
unfolding is_letter_of
base64_step-letter acc bits i out url k lt =
    let (plain, pad, value) =
      letter_facts (letter url k) k (b64_value (letter url k)) refl (letter_value url k lt) in
    base64_step-value acc bits i (letter url k) k out plain pad value

-- One letter of an unpadded text.
base64_loop-letter :
    (acc bits i : ℕ) (out : Bytes) (url : Bool) (k : ℕ) (rest : Bytes)
    → k < 64
    → base64_loop (unpadded acc bits out) i (letter url k ∷ rest)
      ≡ base64_loop (add_value (unpadded acc bits out) k) (i + 1) rest
unfolding base64_loop
base64_loop-letter acc bits i out url k rest lt =
    rw (base64_loop, base64_step-letter acc bits i out url k lt) refl

abbrev wrap : ℕ → ℕ
wrap n = n % 4294967296

-- Four letters carry three bytes.
quad_acc :
    (acc a b c : ℕ)
    → a < 256
    → b < 256
    → c < 256
    → let v = a * 65536 + b * 256 + c in
      let d1 = wrap (acc * 64 + v / 262144) in
      let d2 = wrap (d1 * 64 + v / 4096 % 64) in
      let d3 = wrap (d2 * 64 + v / 64 % 64) in
      let d4 = wrap (d3 * 64 + v % 64) in (d2 / 16 % 256 ≡ a) × (d3 / 4 % 256 ≡ b) × (d4 % 256 ≡ c)
quad_acc acc a b c ha hb hc = (omega arith, omega arith, omega arith)

-- The four places a letter of a group has.
module _ (acc i : ℕ) (out : Bytes) (url : Bool) (k : ℕ) (rest : Bytes) (lt : k < 64) where
  first_letter :
      base64_loop (unpadded acc 0 out) i (letter url k ∷ rest)
      ≡ base64_loop (unpadded (wrap (acc * 64 + k)) 6 out) (i + 1) rest
  unfolding add_value
  first_letter = base64_loop-letter acc 0 i out url k rest lt

  second_letter :
      base64_loop (unpadded acc 6 out) i (letter url k ∷ rest)
      ≡ base64_loop
          (unpadded (wrap (acc * 64 + k)) 4 (out ++ (wrap (acc * 64 + k) / 16 % 256 ∷ [])))
          (i + 1)
          rest
  unfolding add_value
  second_letter = base64_loop-letter acc 6 i out url k rest lt

  third_letter :
      base64_loop (unpadded acc 4 out) i (letter url k ∷ rest)
      ≡ base64_loop
          (unpadded (wrap (acc * 64 + k)) 2 (out ++ (wrap (acc * 64 + k) / 4 % 256 ∷ [])))
          (i + 1)
          rest
  unfolding add_value
  third_letter = base64_loop-letter acc 4 i out url k rest lt

  fourth_letter :
      base64_loop (unpadded acc 2 out) i (letter url k ∷ rest)
      ≡ base64_loop
          (unpadded (wrap (acc * 64 + k)) 0 (out ++ (wrap (acc * 64 + k) / 1 % 256 ∷ [])))
          (i + 1)
          rest
  unfolding add_value
  fourth_letter = base64_loop-letter acc 2 i out url k rest lt

-- The letters of a group's value `v`: two of them carry its first byte, three two, four all.
module _ (acc i : ℕ) (out : Bytes) (url : Bool) (v : ℕ) (hv : v < 16777216) where
  abbrev acc_two : ℕ
  acc_two = wrap (wrap (acc * 64 + v / 262144) * 64 + v / 4096 % 64)

  abbrev acc_three : ℕ
  acc_three = wrap (acc_two * 64 + v / 64 % 64)

  two_letters :
      (rest : Bytes)
      → base64_loop
          (unpadded acc 0 out)
          i
          (letter url (v / 262144) ∷ letter url (v / 4096 % 64) ∷ rest)
        ≡ base64_loop (unpadded acc_two 4 (out ++ (v / 65536 ∷ []))) (i + 1 + 1) rest
  two_letters rest =
      first_letter acc i out url (v / 262144) (letter url (v / 4096 % 64) ∷ rest) (omega arith)
      ∙ second_letter (wrap (acc * 64 + v / 262144)) (i + 1) out url (v / 4096 % 64) rest
          (omega arith)
      ∙ ap (λ x. base64_loop (unpadded acc_two 4 (out ++ (x ∷ []))) (i + 1 + 1) rest) (omega arith)

  three_letters :
      (rest : Bytes)
      → base64_loop
          (unpadded acc 0 out)
          i
          (letter url (v / 262144) ∷ letter url (v / 4096 % 64) ∷ letter url (v / 64 % 64) ∷ rest)
        ≡ base64_loop
            (unpadded acc_three 2 ((out ++ (v / 65536 ∷ [])) ++ (v / 256 % 256 ∷ [])))
            (i + 1 + 1 + 1)
            rest
  three_letters rest =
      two_letters (letter url (v / 64 % 64) ∷ rest)
      ∙ third_letter acc_two (i + 1 + 1) (out ++ (v / 65536 ∷ [])) url (v / 64 % 64) rest
          (omega arith)
      ∙ ap
          (λ x.
            base64_loop (unpadded acc_three 2 ((out ++ (v / 65536 ∷ [])) ++ (x ∷ [])))
              (i + 1 + 1 + 1) rest)
          (omega arith)

  four_letters :
      (rest : Bytes)
      → base64_loop (unpadded acc 0 out) i (
          letter url (v / 262144)
          ∷ letter url (v / 4096 % 64)
          ∷ letter url (v / 64 % 64)
          ∷ letter url (v % 64)
          ∷ rest)
        ≡ base64_loop
            (unpadded
              (wrap (acc_three * 64 + v % 64))
              0
              (((out ++ (v / 65536 ∷ [])) ++ (v / 256 % 256 ∷ [])) ++ (v % 256 ∷ [])))
            (i + 1 + 1 + 1 + 1)
            rest
  four_letters rest =
      three_letters (letter url (v % 64) ∷ rest)
      ∙ fourth_letter acc_three (i + 1 + 1 + 1) ((out ++ (v / 65536 ∷ [])) ++ (v / 256 % 256 ∷ []))
          url (v % 64) rest (omega arith)
      ∙ ap
          (λ x.
            base64_loop
              (unpadded (wrap (acc_three * 64 + v % 64)) 0
                (((out ++ (v / 65536 ∷ [])) ++ (v / 256 % 256 ∷ [])) ++ (x ∷ [])))
              (i + 1 + 1 + 1 + 1) rest)
          (omega arith)

abbrev after : ℕ → Bytes → ℕ → Bytes → Result Base64Error Bytes
after acc out i text = finish_base64 (base64_loop (unpadded acc 0 out) i text)

-- After a short group, with its padding or without.
module _ (acc i : ℕ) (out : Bytes) where
  after_two :
      (url : Bool)
      → finish_base64 (base64_loop (unpadded acc 4 out) i (if url then [] else 61 ∷ 61 ∷ []))
        ≡ done out
  unfolding finish_base64 base64_loop base64_step is_skipped
  after_two true = refl
  after_two false = refl

  after_three :
      (url : Bool)
      → finish_base64 (base64_loop (unpadded acc 2 out) i (if url then [] else 61 ∷ [])) ≡ done out
  unfolding finish_base64 base64_loop base64_step is_skipped
  after_three true = refl
  after_three false = refl

-- The short groups, with the padding outside.
short_one :
    (url : Bool) (a : ℕ)
    → tobase64 url (a ∷ [])
      ≡ letter url (a * 65536 / 262144)
        ∷ letter url (a * 65536 / 4096 % 64)
        ∷ (if url then [] else 61 ∷ 61 ∷ [])
unfolding tobase64
short_one true a = refl
short_one false a = refl

short_two :
    (url : Bool) (a b : ℕ)
    → tobase64 url (a ∷ b ∷ [])
      ≡ letter url ((a * 65536 + b * 256) / 262144)
        ∷ letter url ((a * 65536 + b * 256) / 4096 % 64)
        ∷ letter url ((a * 65536 + b * 256) / 64 % 64)
        ∷ (if url then [] else 61 ∷ [])
unfolding tobase64
short_two true a b = refl
short_two false a b = refl

whole_group :
    (url : Bool) (a b c : ℕ) (rest : Bytes)
    → let v = a * 65536 + b * 256 + c in
      tobase64 url (a ∷ b ∷ c ∷ rest)
      ≡ letter url (v / 262144)
        ∷ letter url (v / 4096 % 64)
        ∷ letter url (v / 64 % 64)
        ∷ letter url (v % 64)
        ∷ tobase64 url rest
unfolding tobase64
whole_group url a b c rest = refl

one_back : (a : ℕ) (out : Bytes) → out ++ (a * 65536 / 65536 ∷ []) ≡ out ++ (a ∷ [])
one_back a out = ap (λ x. out ++ (x ∷ [])) (omega arith)

two_back :
    (v a b : ℕ) (out : Bytes)
    → v / 65536 ≡ a
    → v / 256 % 256 ≡ b
    → (out ++ (v / 65536 ∷ [])) ++ (v / 256 % 256 ∷ []) ≡ out ++ (a ∷ b ∷ [])
two_back v a b out ea eb = rw (ea, eb) (append_assoc out (a ∷ []) (b ∷ []))

three_back :
    (v a b c : ℕ) (out rest : Bytes)
    → v / 65536 ≡ a
    → v / 256 % 256 ≡ b
    → v % 256 ≡ c
    → (((out ++ (v / 65536 ∷ [])) ++ (v / 256 % 256 ∷ [])) ++ (v % 256 ∷ [])) ++ rest
      ≡ out ++ (a ∷ b ∷ c ∷ rest)
three_back v a b c out rest ea eb ec =
    rw (ea, eb, ec)
      (append_assoc ((out ++ (a ∷ [])) ++ (b ∷ [])) (c ∷ []) rest
        ∙ append_assoc (out ++ (a ∷ [])) (b ∷ []) (c ∷ rest)
        ∙ append_assoc out (a ∷ []) (b ∷ c ∷ rest))

-- From the start of a group the letters and the padding of the rest add its bytes.
after-tobase64 :
    (url : Bool) (xs : Bytes)
    → All (λ x. x < 256) xs
    → (acc i : ℕ) (out : Bytes)
    → finish_base64 (base64_loop (unpadded acc 0 out) i (tobase64 url xs)) ≡ done (out ++ xs)
after-tobase64 url [] h acc i out =
    unfold tobase64 finish_base64 base64_loop in ap done (sym (append-nil out))
after-tobase64 url (a ∷ []) (ha, _) acc i out =
    rw
      (
        short_one url a,
        two_letters acc i out url (a * 65536) (omega arith) (if url then [] else 61 ∷ 61 ∷ []),
        after_two (acc_two acc i out url (a * 65536) (omega arith)) (i + 1 + 1)
            (out ++ (a * 65536 / 65536 ∷ [])) url,
      )
      (ap done (one_back a out))
after-tobase64 url (a ∷ b ∷ []) (ha, (hb, _)) acc i out =
    rw
      (
        short_two url a b,
        three_letters acc i out url (a * 65536 + b * 256) (omega arith)
            (if url then [] else 61 ∷ []),
        after_three (acc_three acc i out url (a * 65536 + b * 256) (omega arith)) (i + 1 + 1 + 1)
            ((out ++ ((a * 65536 + b * 256) / 65536 ∷ []))
              ++ ((a * 65536 + b * 256) / 256 % 256 ∷ []))
            url,
      )
      (ap done (two_back (a * 65536 + b * 256) a b out (omega arith) (omega arith)))
after-tobase64 url (a ∷ b ∷ c ∷ rest) (ha, (hb, (hc, hr))) acc i out =
    let v = a * 65536 + b * 256 + c in
    let three = (out ++ (v / 65536 ∷ [])) ++ (v / 256 % 256 ∷ []) in
    rw
      (
        whole_group url a b c rest,
        four_letters acc i out url v (omega arith) (tobase64 url rest),
        after-tobase64 url rest hr (wrap (acc_three acc i out url v (omega arith) * 64 + v % 64))
            (i + 1 + 1 + 1 + 1) (three ++ (v % 256 ∷ [])),
      )
      (ap done (three_back v a b c out rest (omega arith) (omega arith) (omega arith)))

-- Decoding what the encoder writes gives back the bytes, for every sequence of bytes, in both
-- alphabets, with the padding of the standard one and with none in the url one.
pub frombase64-tobase64 :
    (url : Bool) (xs : Bytes) → All (λ x. x < 256) xs → frombase64 (tobase64 url xs) ≡ done xs
unfolding frombase64
frombase64-tobase64 url xs h = after-tobase64 url xs h 0 0 []
