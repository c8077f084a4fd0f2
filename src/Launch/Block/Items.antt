-- ===== src/Launch/Block/Items.antt =====
-- The items that `ku_env_block` of src/launch.c makes of the environment and of the caller's variables.
use kuu.Prelude.{
  ℕ, ◌≡◌, refl, subst, ap, ◌⊎◌, inl, inr, Bool, Bool-cases, true, false, List, [], ◌∷◌, ◌++◌, some,
  none, ◌==◌, All, All-weaken, Any, arith, by_if,
}
use kuu.Launch.Block.{
  System, Cstr, cstr_less_than, cstr_equal, cstr_greater_than, Item, Variable, Named, up_to_equals,
  name_of, same_name, is_named, kept_entries,
}
use kuu.Launch.Block.Reading.{IsString}

-- The name of an environment string is what is before its equals sign, which may not be the first unit.
abbrev pub IsNameOf : List ℕ → List ℕ → Type 0
IsNameOf entry name =
    (first : ℕ) × (others : List ℕ) × (tail : List ℕ) × (name ≡ first ∷ others)
    × (entry ≡ first ∷ (others ++ tail))
    × All (λ c. (c == 61) ≡ false) others
    × ((tail ≡ []) ⊎ ((value : List ℕ) × (tail ≡ 61 ∷ value)))

up_to_equals_lem :
    (s : List ℕ)
    → (tail : List ℕ) × (s ≡ up_to_equals s ++ tail)
      × All (λ c. (c == 61) ≡ false) (up_to_equals s)
      × ((tail ≡ []) ⊎ ((value : List ℕ) × (tail ≡ 61 ∷ value)))
unfolding up_to_equals
up_to_equals_lem [] = ([], refl, tt, inl refl)
up_to_equals_lem (c ∷ s) =
    let (tail, whole, clean, shape) = up_to_equals_lem s in
    by_if
      (λ x.
        (tail : List ℕ) × (c ∷ s ≡ x ++ tail)
        × All (λ c. (c == 61) ≡ false) x
        × ((tail ≡ []) ⊎ ((value : List ℕ) × (tail ≡ 61 ∷ value))))
      (c == 61) [] (c ∷ up_to_equals s)
      (λ e. (c ∷ s, refl, tt, inr (s, ap (λ x. x ∷ s) (ground (arith, e)))))
      (λ e. (tail, ap (◌∷◌ c) whole, (e, clean), shape))

name_of-IsNameOf : (entry : List ℕ) → IsString entry → IsNameOf entry (name_of entry)
unfolding name_of
name_of-IsNameOf [] (p, q) = absurd (omega (arith, p))
name_of-IsNameOf (c ∷ entry) p =
    let (tail, whole, clean, shape) = up_to_equals_lem entry in
    (c, up_to_equals entry, tail, refl, ap (◌∷◌ c) whole, clean, shape)

module _ (sys : System) where
  -- The name is the variable's, in whatever case.
  abbrev pub IsNamedBy : List ℕ → Variable → Type 0
  IsNamedBy name variable =
      (wide : List ℕ) × (sys.utf8_to_wide variable.0 ≡ some wide)
      × (sys.compare name wide ≡ cstr_equal)

  -- An inherited string, with its name, which is no variable's of the caller.
  abbrev pub IsInherited : List Variable → Item → List ℕ → Type 0
  IsInherited variables item entry =
      (item.text ≡ entry) × IsNameOf entry item.name × All (λ v. ¬ IsNamedBy item.name v) variables

  -- NAME=VALUE, of a variable with a value.
  abbrev pub IsAssigned : Item → Variable → Type 0
  IsAssigned item (name, none) = ⊥
  IsAssigned item (name, some value) =
      (wide : List ℕ) × (converted : List ℕ) × (sys.utf8_to_wide name ≡ some wide)
      × (sys.utf8_to_wide value ≡ some converted)
      × (item.name ≡ wide)
      × (item.text ≡ wide ++ 61 ∷ converted)

  -- The variables with their names converted.
  abbrev pub AreConverted : List Variable → List Named → Type 0
  AreConverted [] [] = Unit
  AreConverted [] (n ∷ named) = ⊥
  AreConverted (v ∷ variables) [] = ⊥
  AreConverted (v ∷ variables) (n ∷ named) =
      (sys.utf8_to_wide v.0 ≡ some n.0) × (n.1 ≡ v.1) × AreConverted variables named

  same_name-true : (a b : List ℕ) → same_name sys a b ≡ true → sys.compare a b ≡ cstr_equal
  unfolding same_name
  same_name-true a b = by_answer (sys.compare a b)
    where
      by_answer :
          (c : Cstr)
          → (elim c as (λ x. Bool) [
            | cstr_less_than ↦ false
            | cstr_equal ↦ true
            | cstr_greater_than ↦ false
          ])
            ≡ true
          → c ≡ cstr_equal
      by_answer cstr_less_than e = absurd (ground (arith, e))
      by_answer cstr_equal e = refl
      by_answer cstr_greater_than e = absurd (ground (arith, e))

  same_name-false : (a b : List ℕ) → same_name sys a b ≡ false → ¬ (sys.compare a b ≡ cstr_equal)
  unfolding same_name
  same_name-false a b e f =
      let at : same_name sys a b ≡ true = rw (same_name, f) refl in absurd (ground (arith, at, e))

  pub is_named-true :
      (variables : List Variable) (named : List Named) (name : List ℕ)
      → AreConverted variables named
      → is_named sys named name ≡ true
      → Any (IsNamedBy name) variables
  unfolding is_named
  is_named-true [] [] name c e = absurd (ground (arith, e))
  is_named-true [] (n ∷ named) name c e = elim c [ ]
  is_named-true (v ∷ variables) [] name c e = elim c [ ]
  is_named-true (v ∷ variables) ((known, value) ∷ named) name (p, q, c) e =
      elim (Bool-cases (same_name sys name known)) [
        | inl same ↦ inl (known, p, same_name-true name known same)
        | inr other ↦ inr (is_named-true variables named name c (ground (arith, e, other)))
      ]

  pub is_named-false :
      (variables : List Variable) (named : List Named) (name : List ℕ)
      → AreConverted variables named
      → is_named sys named name ≡ false
      → All (λ v. ¬ IsNamedBy name v) variables
  unfolding is_named
  is_named-false [] [] name c e = tt
  is_named-false [] (n ∷ named) name c e = elim c [ ]
  is_named-false (v ∷ variables) [] name c e = elim c [ ]
  is_named-false (v ∷ variables) ((known, value) ∷ named) name (p, q, c) e = (
    λ (wide, f, g).
        let same : wide ≡ known = ground (arith, f, p) in
        same_name-false name known (ground (arith, e))
          (subst (λ w. sys.compare name w ≡ cstr_equal) same g),
    is_named-false variables named name c (ground (arith, e)),
  )

  -- The items of the inherited strings are those of no variable's name, and no other string is left out.
  pub kept_entries-IsInherited :
      (variables : List Variable) (named : List Named) (inherited : List (List ℕ))
      → AreConverted variables named
      → All IsString inherited
      → All
          (λ i. IsString i.text × Any (IsInherited variables i) inherited)
          (kept_entries sys named inherited)
        × All
            (λ entry.
              (name : List ℕ) × IsNameOf entry name
              × (Any (IsNamedBy name) variables
                  ⊎ Any (λ i. IsInherited variables i entry) (kept_entries sys named inherited)))
            inherited
  unfolding kept_entries
  kept_entries-IsInherited variables named [] c p = (tt, tt)
  kept_entries-IsInherited variables named (entry ∷ inherited) c (here, rest) =
      let (only, every) = kept_entries-IsInherited variables named inherited c rest in
      let kept = kept_entries sys named inherited in
      let new : Item = record { name = name_of entry; text = entry } in
      let later : All (λ i. IsString i.text × Any (IsInherited variables i) (entry ∷ inherited))
          kept =
        All-weaken (λ i. IsString i.text × Any (IsInherited variables i) inherited)
          (λ i. IsString i.text × Any (IsInherited variables i) (entry ∷ inherited)) kept
          (λ i (a, b). (a, inr b)) only in
      by_if
        (λ items.
          All (λ i. IsString i.text × Any (IsInherited variables i) (entry ∷ inherited)) items
          × All
              (λ entry.
                (name : List ℕ) × IsNameOf entry name
                × (Any (IsNamedBy name) variables ⊎ Any (λ i. IsInherited variables i entry) items))
              (entry ∷ inherited))
        (is_named sys named (name_of entry)) kept (new ∷ kept)
        (λ e. (
          later,
          (
            (
              name_of entry,
              name_of-IsNameOf entry here,
              inl (is_named-true variables named (name_of entry) c e),
            ),
            every,
          ),
        ))
        (λ e.
          let is : IsInherited variables new entry = (
            refl,
            name_of-IsNameOf entry here,
            is_named-false variables named (name_of entry) c e,
          ) in
          (
            ((here, inl is), later),
            (
              (name_of entry, name_of-IsNameOf entry here, inr (inl is)),
              All-weaken
                  (λ entry.
                    (name : List ℕ) × IsNameOf entry name
                    × (Any (IsNamedBy name) variables
                        ⊎ Any (λ i. IsInherited variables i entry) kept))
                  (λ entry.
                    (name : List ℕ) × IsNameOf entry name
                    × (Any (IsNamedBy name) variables
                        ⊎ Any (λ i. IsInherited variables i entry) (new ∷ kept)))
                  inherited
                  (λ x (name, is_name, o).
                    (name, is_name, elim o [ inl a ↦ inl a | inr b ↦ inr (inr b) ]))
                  every,
            ),
          ))
