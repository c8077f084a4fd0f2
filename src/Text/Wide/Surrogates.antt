-- ===== src/Text/Wide/Surrogates.antt =====
-- The units that `to_wide` accepts are those that Unicode calls well-formed UTF-16.
use kuu.Prelude.{
  ℕ, ◌+◌, ◌-◌, ◌*◌, ◌/◌, ◌%◌, ◌<◌, ◌≡◌, refl, ap, sym, ◌∙◌, Bool, true, false, List, [], ◌∷◌, ◌++◌,
  ltb, ◌||◌, if◌then◌else◌, within, All, arith, Bool-cases, inl, inr,
}
use kuu.Text.Wide.{is_high, is_low, is_unpaired, surrogates_pair}

-- A Unicode scalar value: a code point that is no surrogate.
unfoldable pub is_scalar : ℕ → Bool
is_scalar s = ltb s 55296 || within 57344 1114111 s

-- The UTF-16 form of a scalar value, and of a sequence of them.
unfoldable pub utf16 : ℕ → List ℕ
utf16 s =
    if ltb s 65536 then s ∷ [] else (55296 + (s - 65536) / 1024) ∷ (56320 + (s - 65536) % 1024) ∷ []

unfoldable pub utf16_all : List ℕ → List ℕ
utf16_all [] = []
utf16_all (s ∷ rest) = utf16 s ++ utf16_all rest

-- The scalar values that well-formed units stand for.
unfoldable pub scalars_of : List ℕ → List ℕ
scalars_of [] = []
scalars_of (u ∷ []) = u ∷ []
scalars_of (u ∷ v ∷ rest) = elim (is_high u) [
  | true ↦ (65536 + (u - 55296) * 1024 + (v - 56320)) ∷ scalars_of rest
  | false ↦ u ∷ scalars_of (v ∷ rest)
]

one_unit :
    (u : ℕ)
    → surrogates_pair (u ∷ []) ≡ (if is_high u then false else (if is_low u then false else true))
unfolding surrogates_pair
one_unit u = refl

two_units :
    (u v : ℕ) (rest : List ℕ)
    → surrogates_pair (u ∷ v ∷ rest) ≡ elim (is_high u) [
      | true ↦ elim (is_unpaired v) [ true ↦ false | false ↦ surrogates_pair rest ]
      | false ↦ elim (is_low u) [ true ↦ false | false ↦ surrogates_pair (v ∷ rest) ]
    ]
unfolding surrogates_pair
two_units u v rest = refl

plain_unit :
    (u : ℕ) (rest : List ℕ)
    → is_high u ≡ false
    → is_low u ≡ false
    → surrogates_pair (u ∷ rest) ≡ surrogates_pair rest
plain_unit u [] h l = rw (one_unit u, h, l) (unfold surrogates_pair in refl)
plain_unit u (v ∷ rest) h l = rw (two_units u v rest, h, l) refl

is_unpaired-is_low : (v : ℕ) → is_low v ≡ true → is_unpaired v ≡ false
unfolding is_low is_unpaired
is_unpaired-is_low v l = ground arith

pair_units :
    (u v : ℕ) (rest : List ℕ)
    → is_high u ≡ true
    → is_low v ≡ true
    → surrogates_pair (u ∷ v ∷ rest) ≡ surrogates_pair rest
pair_units u v rest h l = rw (two_units u v rest, h, is_unpaired-is_low v l) refl

utf16_unit :
    (s : ℕ) (rest : List ℕ)
    → is_scalar s ≡ true
    → surrogates_pair (utf16 s ++ rest) ≡ surrogates_pair rest
unfolding utf16 is_scalar is_high is_low
utf16_unit s rest ok = elim (Bool-cases (ltb s 65536)) [
  | inl e ↦ rw e (plain_unit s rest (ground arith) (ground arith))
  | inr e ↦ rw e (
      pair_units (55296 + (s - 65536) / 1024) (56320 + (s - 65536) % 1024) rest (ground arith)
        (ground arith))
]

-- The UTF-16 form of every sequence of scalar values is accepted.
pub surrogates_pair-utf16_all :
    (scalars : List ℕ)
    → All (λ s. is_scalar s ≡ true) scalars
    → surrogates_pair (utf16_all scalars) ≡ true
unfolding utf16_all
surrogates_pair-utf16_all [] h = unfold surrogates_pair in refl
surrogates_pair-utf16_all (s ∷ rest) (ok, h) =
    utf16_unit s (utf16_all rest) ok ∙ surrogates_pair-utf16_all rest h

-- What well-formed units are: the form of the scalar values they stand for.
abbrev IsForm : List ℕ → List ℕ → Type 0
IsForm units scalars = (utf16_all scalars ≡ units) × All (λ s. is_scalar s ≡ true) scalars

utf16_plain : (u : ℕ) → u < 65536 → utf16 u ≡ u ∷ []
unfolding utf16
utf16_plain u lt = ground arith

utf16_pair :
    (u v : ℕ)
    → is_high u ≡ true
    → is_low v ≡ true
    → utf16 (65536 + (u - 55296) * 1024 + (v - 56320)) ≡ u ∷ v ∷ []
unfolding utf16 is_high is_low
utf16_pair u v h l =
    let big : ltb (65536 + (u - 55296) * 1024 + (v - 56320)) 65536 ≡ false = ground arith in
    let first : 55296 + (65536 + (u - 55296) * 1024 + (v - 56320) - 65536) / 1024 ≡ u =
      ground arith in
    let second : 56320 + (65536 + (u - 55296) * 1024 + (v - 56320) - 65536) % 1024 ≡ v =
      ground arith in
    rw (big, first, second) refl

plain-IsForm :
    (u : ℕ) (rest scalars : List ℕ)
    → u < 65536
    → is_high u ≡ false
    → is_low u ≡ false
    → IsForm rest scalars
    → IsForm (u ∷ rest) (u ∷ scalars)
unfolding utf16_all
plain-IsForm u rest scalars lt h l (form, ok) = (
  rw (utf16_plain u lt) (ap (λ ys. u ∷ ys) form),
  (unfold is_scalar is_high is_low in ground arith, ok),
)

pair-IsForm :
    (u v : ℕ) (rest scalars : List ℕ)
    → is_high u ≡ true
    → is_low v ≡ true
    → IsForm rest scalars
    → IsForm (u ∷ v ∷ rest) ((65536 + (u - 55296) * 1024 + (v - 56320)) ∷ scalars)
unfolding utf16_all
pair-IsForm u v rest scalars h l (form, ok) = (
  rw (utf16_pair u v h l) (ap (λ ys. u ∷ v ∷ ys) form),
  (unfold is_scalar is_high is_low in ground arith, ok),
)

guarded : (b x : Bool) → (elim b [ true ↦ false | false ↦ x ]) ≡ true → (b ≡ false) × (x ≡ true)
guarded true x e = absurd (cc)
guarded false x e = (refl, e)

high_units :
    (u v : ℕ) (rest : List ℕ)
    → is_high u ≡ true
    → surrogates_pair (u ∷ v ∷ rest)
      ≡ elim (is_unpaired v) [ true ↦ false | false ↦ surrogates_pair rest ]
high_units u v rest h = rw (two_units u v rest, h) refl

other_units :
    (u v : ℕ) (rest : List ℕ)
    → is_high u ≡ false
    → surrogates_pair (u ∷ v ∷ rest)
      ≡ elim (is_low u) [ true ↦ false | false ↦ surrogates_pair (v ∷ rest) ]
other_units u v rest h = rw (two_units u v rest, h) refl

scalars_of-two :
    (u v : ℕ) (rest : List ℕ)
    → scalars_of (u ∷ v ∷ rest) ≡ elim (is_high u) [
      | true ↦ (65536 + (u - 55296) * 1024 + (v - 56320)) ∷ scalars_of rest
      | false ↦ u ∷ scalars_of (v ∷ rest)
    ]
unfolding scalars_of
scalars_of-two u v rest = refl

scalars_of-high :
    (u v : ℕ) (rest : List ℕ)
    → is_high u ≡ true
    → scalars_of (u ∷ v ∷ rest) ≡ (65536 + (u - 55296) * 1024 + (v - 56320)) ∷ scalars_of rest
scalars_of-high u v rest h = rw (scalars_of-two u v rest, h) refl

scalars_of-other :
    (u v : ℕ) (rest : List ℕ)
    → is_high u ≡ false
    → scalars_of (u ∷ v ∷ rest) ≡ u ∷ scalars_of (v ∷ rest)
scalars_of-other u v rest h = rw (scalars_of-two u v rest, h) refl

paired-is_low : (v : ℕ) → is_unpaired v ≡ false → is_low v ≡ true
unfolding is_low is_unpaired
paired-is_low v p = ground arith

-- Units that are accepted are the UTF-16 form of a sequence of scalar values.
pub surrogates_pair-IsForm :
    (units : List ℕ)
    → All (λ u. u < 65536) units
    → surrogates_pair units ≡ true
    → IsForm units (scalars_of units)
surrogates_pair-IsForm [] h e = unfold utf16_all scalars_of in (refl, tt)
surrogates_pair-IsForm (u ∷ []) (hu, _) e = elim (Bool-cases (is_high u)) [
  | inl h ↦ absurd (ground (arith, one_unit u))
  | inr h ↦
      let l : is_low u ≡ false = ground (arith, one_unit u) in
      unfold scalars_of in plain-IsForm u [] [] hu h l (unfold utf16_all in (refl, tt))
]
surrogates_pair-IsForm (u ∷ v ∷ rest) (hu, (hv, hr)) e = elim (Bool-cases (is_high u)) [
  | inl h ↦
      let (p, q) =
        guarded (is_unpaired v) (surrogates_pair rest) (sym (high_units u v rest h) ∙ e) in
      rw (scalars_of-high u v rest h) (
        pair-IsForm u v rest (scalars_of rest) h (paired-is_low v p)
          (surrogates_pair-IsForm rest hr q))
  | inr h ↦
      let (p, q) =
        guarded (is_low u) (surrogates_pair (v ∷ rest)) (sym (other_units u v rest h) ∙ e) in
      rw (scalars_of-other u v rest h) (
        plain-IsForm u (v ∷ rest) (scalars_of (v ∷ rest)) hu h p
          (surrogates_pair-IsForm (v ∷ rest) (hv, hr) q))
]
