-- ===== src/Text/Trim.antt =====
-- `l_text_trim` of src/text.c.
use kuu.Prelude.{
  ℕ, zero, suc, ◌+◌, ◌-◌, ◌≤◌, ◌<◌, ◌≡◌, refl, ap, sym, ◌∙◌, Bool, true, false, [], ◌∷◌, Option,
  some, none, ltb, ◌==◌, ◌&&◌, ◌||◌, if◌then◌else◌, Bytes, codes, get_elem?, equal, take, drop,
  length, arith, Bool-cases, inl, inr,
}

unfoldable pub is_blank : ℕ → Bool
is_blank c = c == 32 || c == 9 || c == 10 || c == 11 || c == 12 || c == 13

-- Which ends come off, or `none` for a `where` that is refused.
unfoldable pub trim_sides : Bytes → Option (Bool × Bool)
trim_sides side =
    if equal side (codes "both")
    then some (true, true)
    else if equal side (codes "left")
    then some (true, false)
    else if equal side (codes "right")
    then some (false, true)
    else none

unfoldable pub byte_at : Bytes → ℕ → ℕ
byte_at bytes i = elim (get_elem? bytes i) [ none ↦ 0 | some c ↦ c ]

-- The loop on `from`, at most `fuel` rounds.
unfoldable pub trim_left : Bytes → ℕ → ℕ → ℕ → ℕ
trim_left bytes zero from to = from
trim_left bytes (suc fuel) from to =
    let rest = trim_left bytes fuel (from + 1) to in
    if ltb from to && is_blank (byte_at bytes from) then rest else from

-- The loop on `to`, at most `fuel` rounds.
unfoldable pub trim_right : Bytes → ℕ → ℕ → ℕ → ℕ
trim_right bytes zero from to = to
trim_right bytes (suc fuel) from to =
    let rest = trim_right bytes fuel from (to - 1) in
    if ltb from to && is_blank (byte_at bytes (to - 1)) then rest else to

-- `from` and `to` after the loops.
unfoldable pub trim_range : Bytes → Bool → Bool → ℕ × ℕ
trim_range bytes left right =
    let n = length bytes in
    let from = if left then trim_left bytes n 0 n else 0 in
    let to = if right then trim_right bytes n from n else n in (from, to)

-- `none` is TEXT badvalue.
unfoldable pub trim : Bytes → Bytes → Option Bytes
trim bytes side = elim (trim_sides side) [
  | none ↦ none
  | some (left, right) ↦
      let (from, to) = trim_range bytes left right in
      if from == 0 && to == length bytes
      then some bytes
      else some (take (to - from) (drop from bytes))
]

-- What a range must be: blank up to `from` and from `to` on, with no blank left at a trimmed end,
-- and an end that is not trimmed in its place.
pub record Trimmed (bytes : Bytes) (left right : Bool) (from to : ℕ) : Type 0 where
  pub before : (i : ℕ) → i < from → is_blank (byte_at bytes i) ≡ true
  pub after : (i : ℕ) → to ≤ i → i < length bytes → is_blank (byte_at bytes i) ≡ true
  pub inside : (from ≤ to) × (to ≤ length bytes)
  pub left_end : left ≡ true → from < to → is_blank (byte_at bytes from) ≡ false
  pub right_end : right ≡ true → from < to → is_blank (byte_at bytes (to - 1)) ≡ false
  pub left_kept : left ≡ false → from ≡ 0
  pub right_kept : right ≡ false → to ≡ length bytes

trim_left_lem :
    (bytes : Bytes) (fuel from to : ℕ)
    → from ≤ to
    → to ≤ from + fuel
    → let f = trim_left bytes fuel from to in
      (from ≤ f)
      × (f ≤ to)
      × ((i : ℕ) → from ≤ i → i < f → is_blank (byte_at bytes i) ≡ true)
      × (f < to → is_blank (byte_at bytes f) ≡ false)
unfolding trim_left
trim_left_lem bytes zero from to p q =
    (omega arith, omega arith, λ i a b. absurd (omega arith), λ a. absurd (omega arith))
trim_left_lem bytes (suc fuel) from to p q =
    elim (Bool-cases (ltb from to && is_blank (byte_at bytes from))) [
      | inr e ↦ rw e (omega arith, omega arith, λ i a b. absurd (omega arith), λ a. ground arith)
      | inl e ↦
          let (a, b, c, d) = trim_left_lem bytes fuel (from + 1) to (ground arith) (omega arith) in
          rw e (omega (arith, a), b, λ i l m. ground (arith, c i), d)
    ]

trim_right_lem :
    (bytes : Bytes) (fuel from to : ℕ)
    → from ≤ to
    → to ≤ from + fuel
    → let t = trim_right bytes fuel from to in
      (from ≤ t)
      × (t ≤ to)
      × ((i : ℕ) → t ≤ i → i < to → is_blank (byte_at bytes i) ≡ true)
      × (from < t → is_blank (byte_at bytes (t - 1)) ≡ false)
unfolding trim_right
trim_right_lem bytes zero from to p q =
    (omega arith, omega arith, λ i a b. absurd (omega arith), λ a. absurd (omega arith))
trim_right_lem bytes (suc fuel) from to p q =
    elim (Bool-cases (ltb from to && is_blank (byte_at bytes (to - 1)))) [
      | inr e ↦ rw e (omega arith, omega arith, λ i a b. absurd (omega arith), λ a. ground arith)
      | inl e ↦
          let (a, b, c, d) = trim_right_lem bytes fuel from (to - 1) (ground arith) (omega arith) in
          rw e (a, omega (arith, b), λ i l m. ground (arith, c i), d)
    ]

module _ (bytes : Bytes) where
  trim_right-Trimmed :
      (left right : Bool) (from : ℕ)
      → from ≤ length bytes
      → ((i : ℕ) → i < from → is_blank (byte_at bytes i) ≡ true)
      → (left ≡ true → from < length bytes → is_blank (byte_at bytes from) ≡ false)
      → (left ≡ false → from ≡ 0)
      → Trimmed bytes left right from
          (if right then trim_right bytes (length bytes) from (length bytes) else length bytes)
  trim_right-Trimmed left false from p before end kept = record {
    before = before;
    after = λ i a b. absurd (omega arith);
    inside = (p, omega arith);
    left_end = end;
    right_end = λ e. absurd (cc);
    left_kept = kept;
    right_kept = λ e. refl;
  }
  trim_right-Trimmed left true from p before end kept =
      let (a, b, c, d) = trim_right_lem bytes (length bytes) from (length bytes) p (omega arith) in
      record {
        before = before;
        after = c;
        inside = (a, b);
        left_end = λ e lt. end e (omega (arith, b));
        right_end = λ e. d;
        left_kept = kept;
        right_kept = λ e. absurd (cc);
      }

  trim_range-Trimmed :
      (left right : Bool)
      → Trimmed bytes left right (trim_range bytes left right).0 (trim_range bytes left right).1
  unfolding trim_range
  trim_range-Trimmed true right =
      let (a, b, c, d) =
        trim_left_lem bytes (length bytes) 0 (length bytes) (omega arith) (omega arith) in
      trim_right-Trimmed true right (trim_left bytes (length bytes) 0 (length bytes)) b
        (λ i lt. c i (omega arith) lt) (λ e. d) (λ e. absurd (cc))
  trim_range-Trimmed false right =
      trim_right-Trimmed false right 0 (omega arith) (λ i lt. absurd (omega arith))
        (λ e. absurd (cc)) (λ e. refl)

take-all : (xs : Bytes) → take (length xs) xs ≡ xs
take-all [] = refl
take-all (x ∷ xs) = ap (λ ys. x ∷ ys) (take-all xs)

take_whole :
    (bytes : Bytes) (from to : ℕ)
    → from ≡ 0
    → to ≡ length bytes
    → bytes ≡ take (to - from) (drop from bytes)
take_whole bytes from to p q =
    rw (p, q) (sym (ap (λ n. take n bytes) (omega arith) ∙ take-all bytes))

trim_slice :
    (bytes : Bytes) (from to : ℕ)
    → (if from == 0 && to == length bytes
        then some bytes
        else some (take (to - from) (drop from bytes)))
      ≡ some (take (to - from) (drop from bytes))
trim_slice bytes from to = elim (Bool-cases (from == 0 && to == length bytes)) [
  | inr e ↦ rw e refl
  | inl e ↦ rw e (ap some (take_whole bytes from to (ground arith) (ground arith)))
]

-- `trim` gives the bytes of a range that is right for the sides it was asked to trim: only blanks
-- are removed, no blank is left at a trimmed end, and nothing is removed at the other.
pub trim-Trimmed :
    (bytes side : Bytes) (left right : Bool)
    → trim_sides side ≡ some (left, right)
    → let (from, to) = trim_range bytes left right in
      (trim bytes side ≡ some (take (to - from) (drop from bytes)))
      × Trimmed bytes left right from to
unfolding trim
trim-Trimmed bytes side left right e = (
  rw (trim, e) (trim_slice bytes (trim_range bytes left right).0 (trim_range bytes left right).1),
  trim_range-Trimmed bytes left right,
)
