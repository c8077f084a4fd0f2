-- ===== src/Text/Hex.antt =====
-- `l_text_tohex` and `l_text_fromhex` of src/text.c.
use kuu.Prelude.{
  ℕ, ◌+◌, ◌-◌, ◌*◌, ◌/◌, ◌%◌, ◌<◌, ◌≡◌, refl, ap, sym, ◌∙◌, Bool, true, false, not, [], ◌∷◌, ◌++◌,
  Option, some, none, ◌==◌, ◌&&◌, if◌then◌else◌, within, Bytes, codes, get_elem?, All, append-nil,
  append_assoc, arith, holds_below, holds_below-at,
}
use kuu.Prelude.Results.{Result, failed, done}
use kuu.Text.{is_skipped}

-- `digits[k]`, for `k` below 16
unfoldable pub hex_digit : ℕ → ℕ
hex_digit k = elim (get_elem? (codes "0123456789abcdef") k) [ none ↦ 0 | some c ↦ c ]

unfoldable pub tohex : Bytes → Bytes
tohex [] = []
tohex (c ∷ rest) = hex_digit (c / 16) ∷ hex_digit (c % 16) ∷ tohex rest

-- `none` is the branch that refuses the byte.
unfoldable pub digit_value : ℕ → Option ℕ
digit_value c =
    if within 48 57 c
    then some (c - 48)
    else if within 97 102 c
    then some (c - 97 + 10)
    else if within 65 70 c
    then some (c - 65 + 10)
    else none

-- The two messages of TEXT invalid, the first with its byte and the 1-based position.
pub data HexError : Type 0 where
  not_hex : ℕ → ℕ → HexError
  odd_digits : HexError

-- `have`, `value` and the buffer of `l_text_fromhex`.
pub record Hex : Type 0 where
  pub digits : ℕ
  pub value : ℕ
  pub buffer : Bytes

-- The loop's body at the byte `c` of index `i`.
unfoldable pub hex_step : Hex → ℕ → ℕ → Result HexError Hex
hex_step s i c = if is_skipped c then done s else elim (digit_value c) [
  | none ↦ failed (not_hex c (i + 1))
  | some digit ↦
      let value = s.value * 16 + digit in
      if s.digits + 1 == 2
      then done (record { digits = 0; value = 0; buffer = s.buffer ++ (value % 256 ∷ []) })
      else done (record s { digits = s.digits + 1; value = value })
]

unfoldable pub hex_loop : Hex → ℕ → Bytes → Result HexError Hex
hex_loop s i [] = done s
hex_loop s i (c ∷ rest) = elim (hex_step s i c) [
  | failed e ↦ failed e
  | done next ↦ hex_loop next (i + 1) rest
]

-- What follows the loop.
unfoldable pub finish_hex : Result HexError Hex → Result HexError Bytes
finish_hex (failed e) = failed e
finish_hex (done s) = if s.digits == 0 then done s.buffer else failed odd_digits

unfoldable pub fromhex : Bytes → Result HexError Bytes
fromhex text = finish_hex (hex_loop (record { digits = 0; value = 0; buffer = [] }) 0 text)

abbrev holds : Option ℕ → ℕ → Bool
holds none k = false
holds (some v) k = v == k

is_digit_of : ℕ → Bool
is_digit_of k = holds (digit_value (hex_digit k)) k && not (is_skipped (hex_digit k))

digits_hold : holds_below is_digit_of 16 ≡ true
unfolding holds_below is_digit_of hex_digit digit_value is_skipped
digits_hold = refl

digit_facts :
    (c k : ℕ) (o : Option ℕ)
    → digit_value c ≡ o
    → (holds o k && not (is_skipped c)) ≡ true
    → (is_skipped c ≡ false) × (digit_value c ≡ some k)
digit_facts c k none e ok = absurd (cc)
digit_facts c k (some v) e ok = (ground arith, e ∙ ground arith)

hex_digit_value :
    (k : ℕ) → k < 16 → (is_skipped (hex_digit k) ≡ false) × (digit_value (hex_digit k) ≡ some k)
unfolding is_digit_of
hex_digit_value k lt =
    digit_facts (hex_digit k) k (digit_value (hex_digit k)) refl
      (holds_below-at is_digit_of 16 digits_hold k lt)

abbrev state : ℕ → ℕ → Bytes → Hex
state digits value out = record { digits = digits; value = value; buffer = out }

first_step :
    (i c k : ℕ) (out : Bytes)
    → is_skipped c ≡ false
    → digit_value c ≡ some k
    → hex_step (state 0 0 out) i c ≡ done (state 1 k out)
unfolding hex_step
first_step i c k out plain value = rw (plain, value) (ap (λ x. done (state 1 x out)) (omega arith))

second_step :
    (i c v k : ℕ) (out : Bytes)
    → is_skipped c ≡ false
    → digit_value c ≡ some k
    → hex_step (state 1 v out) i c ≡ done (state 0 0 (out ++ ((v * 16 + k) % 256 ∷ [])))
unfolding hex_step
second_step i c v k out plain value = rw (plain, value) refl

-- Two digits carry a byte.
hex_loop-byte :
    (i c : ℕ) (out rest : Bytes)
    → c < 256
    → hex_loop (state 0 0 out) i (hex_digit (c / 16) ∷ hex_digit (c % 16) ∷ rest)
      ≡ hex_loop (state 0 0 (out ++ (c ∷ []))) (i + 1 + 1) rest
unfolding hex_loop
hex_loop-byte i c out rest lt =
    let (p, v) = hex_digit_value (c / 16) (omega arith) in
    let (q, w) = hex_digit_value (c % 16) (omega arith) in
    rw
      (
        hex_loop,
        first_step i (hex_digit (c / 16)) (c / 16) out p v,
        second_step (i + 1) (hex_digit (c % 16)) (c / 16) (c % 16) out q w,
      )
      (ap (λ x. hex_loop (state 0 0 (out ++ (x ∷ []))) (i + 1 + 1) rest) (omega arith))

tohex-cons :
    (c : ℕ) (rest : Bytes) → tohex (c ∷ rest) ≡ hex_digit (c / 16) ∷ hex_digit (c % 16) ∷ tohex rest
unfolding tohex
tohex-cons c rest = refl

hex_loop-tohex :
    (xs : Bytes)
    → All (λ x. x < 256) xs
    → (i : ℕ) (out : Bytes) → finish_hex (hex_loop (state 0 0 out) i (tohex xs)) ≡ done (out ++ xs)
hex_loop-tohex [] h i out = unfold tohex finish_hex hex_loop in ap done (sym (append-nil out))
hex_loop-tohex (c ∷ rest) (hc, hr) i out =
    rw
      (
        tohex-cons c rest,
        hex_loop-byte i c out (tohex rest) hc,
        hex_loop-tohex rest hr (i + 1 + 1) (out ++ (c ∷ [])),
      )
      (ap done (append_assoc out (c ∷ []) rest))

-- Decoding the hex of any bytes gives them back.
pub fromhex-tohex : (xs : Bytes) → All (λ x. x < 256) xs → fromhex (tohex xs) ≡ done xs
unfolding fromhex
fromhex-tohex xs h = hex_loop-tohex xs h 0 []
