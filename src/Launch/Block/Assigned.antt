-- ===== src/Launch/Block/Assigned.antt =====
-- The converted names and the NAME=VALUE items of `ku_env_block` of src/launch.c.
use kuu.Prelude.{
  ℕ, ◌+◌, ◌*◌, ◌≡◌, refl, sym, subst, ap, ◌∙◌, ◌⊎◌, inl, inr, false, List, [], ◌∷◌, ◌++◌,
  append-nil, append_assoc, Option, some, none, ◌==◌, ◌||◌, if◌then◌else◌, Bytes, contains, length,
  length-append, All, All-append, All-weaken, Any, arith, by_if,
}
use kuu.Prelude.Results.{Result, failed, done}
use kuu.Launch.Block.{
  System, cstr_greater_than, Item, EnvError, bad_encoding, duplicate, out_of_memory, Variable,
  Named, is_named, env_compare, convert_names, prepend_entry, own_entries,
}
use kuu.Launch.Block.Reading.{HasNoNul, IsString}
use kuu.Launch.Block.Items.{AreConverted, IsAssigned}
use mathlib.Core.List.{Permᴰ}

-- By their names, no item is behind a greater one.
abbrev pub IsSorted : System → List Item → Type 0
IsSorted sys [] = Unit
IsSorted sys (x ∷ items) =
    All (λ y. ¬ (sys.compare x.name y.name ≡ cstr_greater_than)) items × IsSorted sys items

-- Strings have no NUL, and those of this process are not empty; qsort permutes the items and sorts them,
-- where the comparison is that of their names.
pub record IsOrdinary (sys : System) : Type 0 where
  pub converted : (s : Bytes) (wide : List ℕ) → sys.utf8_to_wide s ≡ some wide → HasNoNul wide
  pub strings :
      (inherited : List (List ℕ)) → sys.inherited ≡ some inherited → All IsString inherited
  pub permuted : (items : List Item) → Permᴰ items (sys.qsort (env_compare sys) items)
  pub sorted : (items : List Item) → IsSorted sys (sys.qsort (env_compare sys) items)

abbrev IsConverted : System → List Named → List Variable → Result EnvError (List Named) → Type 0
IsConverted sys earlier variables (failed e) = Unit
IsConverted sys earlier variables (done named) =
    (later : List Named) × (named ≡ earlier ++ later) × AreConverted sys variables later

-- Each item is a variable's, and no variable with a value is without an item.
abbrev pub AreAssigned : System → List Variable → List Item → Type 0
AreAssigned sys variables items =
    All (λ i. IsString i.text × Any (IsAssigned sys i) variables) items
    × All (λ v. (v.1 ≡ none) ⊎ Any (λ i. IsAssigned sys i v) items) variables

abbrev pub Assigned : System → List Variable → Result EnvError (List Item) → Type 0
Assigned sys variables (failed e) = Unit
Assigned sys variables (done items) = AreAssigned sys variables items

module _ (sys : System) where
  convert_names-IsConverted :
      (earlier : List Named) (variables : List Variable)
      → IsConverted sys earlier variables (convert_names sys earlier variables)
  unfolding convert_names
  convert_names-IsConverted earlier [] = ([], sym (append-nil earlier), tt)
  convert_names-IsConverted earlier ((name, value) ∷ variables) =
      by_if (IsConverted sys earlier ((name, value) ∷ variables))
        (length name == 0 || contains name 61) _ _ (λ e. tt)
        (λ e.
          by_wide (sys.utf8_to_wide name) refl
            (λ wide. convert_names-IsConverted (earlier ++ (wide, value) ∷ []) variables))
    where
      one_more :
          (wide : List ℕ)
          → sys.utf8_to_wide name ≡ some wide
          → (r : Result EnvError (List Named))
          → IsConverted sys (earlier ++ (wide, value) ∷ []) variables r
          → IsConverted sys earlier ((name, value) ∷ variables) r
      one_more wide e (failed x) h = tt
      one_more wide e (done named) (later, whole, c) = (
        (wide, value) ∷ later,
        whole ∙ append_assoc earlier ((wide, value) ∷ []) later,
        (e, refl, c),
      )

      by_wide :
          (o : Option (List ℕ))
          → sys.utf8_to_wide name ≡ o
          → ((wide : List ℕ)
              → IsConverted sys
                  (earlier ++ (wide, value) ∷ [])
                  variables
                  (convert_names sys (earlier ++ (wide, value) ∷ []) variables))
          → IsConverted sys earlier ((name, value) ∷ variables) (elim o [
            | none ↦ failed bad_encoding
            | some wide ↦
                if is_named sys earlier wide
                then failed duplicate
                else convert_names sys (earlier ++ (wide, value) ∷ []) variables
          ])
      by_wide none e later = tt
      by_wide (some wide) e later =
          by_if (IsConverted sys earlier ((name, value) ∷ variables)) (is_named sys earlier wide) _
            _ (λ f. tt) (λ f. one_more wide e _ (later wide))

  -- The names that are converted are the variables', in their order.
  pub convert_names-AreConverted :
      (variables : List Variable) (named : List Named)
      → convert_names sys [] variables ≡ done named
      → AreConverted sys variables named
  convert_names-AreConverted variables named e =
      let (later, whole, c) =
        subst (IsConverted sys [] variables) e (convert_names-IsConverted [] variables) in
      subst (AreConverted sys variables) (sym whole) c

  more :
      (v : Variable) (variables : List Variable) (items : List Item)
      → All (λ i. IsString i.text × Any (IsAssigned sys i) variables) items
      → All (λ i. IsString i.text × Any (IsAssigned sys i) (v ∷ variables)) items
  more v variables items =
      All-weaken (λ i. IsString i.text × Any (IsAssigned sys i) variables)
        (λ i. IsString i.text × Any (IsAssigned sys i) (v ∷ variables)) items
        (λ i (a, b). (a, inr b))

  removed :
      (name : Bytes) (variables : List Variable) (r : Result EnvError (List Item))
      → Assigned sys variables r
      → Assigned sys ((name, none) ∷ variables) r
  removed name variables (failed e) h = tt
  removed name variables (done items) (a, b) = (more (name, none) variables items a, (inl refl, b))

  prepended :
      (v : Variable) (variables : List Variable) (item : Item) (r : Result EnvError (List Item))
      → IsString item.text
      → IsAssigned sys item v
      → Assigned sys variables r
      → Assigned sys (v ∷ variables) (prepend_entry sys item r)
  unfolding prepend_entry
  prepended v variables item (failed e) s i h = tt
  prepended v variables item (done items) s i (a, b) = (
    ((s, inl i), more v variables items a),
    (
      inr (inl i),
      All-weaken (λ v. (v.1 ≡ none) ⊎ Any (λ i. IsAssigned sys i v) items)
          (λ v. (v.1 ≡ none) ⊎ Any (λ i. IsAssigned sys i v) (item ∷ items)) variables
          (λ v o. elim o [ inl gone ↦ inl gone | inr there ↦ inr (inr there) ]) b,
    ),
  )

  assigned : (name value : List ℕ) → HasNoNul name → HasNoNul value → IsString (name ++ 61 ∷ value)
  assigned name value p q = (
    omega (arith, length-append name (61 ∷ value)),
    All-append (λ (c : ℕ). (c == 0) ≡ false) name (61 ∷ value) p (refl, q),
  )

  pub own_entries-Assigned :
      (law : IsOrdinary sys) (variables : List Variable) (named : List Named)
      → AreConverted sys variables named
      → Assigned sys variables (own_entries sys named)
  unfolding own_entries
  own_entries-Assigned law [] [] c = (tt, tt)
  own_entries-Assigned law [] (n ∷ named) c = elim c [ ]
  own_entries-Assigned law (v ∷ variables) [] c = elim c [ ]
  own_entries-Assigned law ((name, none) ∷ variables) ((wide, none) ∷ named) (p, q, c) =
      removed name variables (own_entries sys named) (own_entries-Assigned law variables named c)
  own_entries-Assigned law ((name, some v) ∷ variables) ((wide, none) ∷ named) (p, q, c) =
      absurd (ground (arith, q))
  own_entries-Assigned law ((name, none) ∷ variables) ((wide, some u) ∷ named) (p, q, c) =
      absurd (ground (arith, q))
  own_entries-Assigned law ((name, some v) ∷ variables) ((wide, some u) ∷ named) (p, q, c) =
      by_value (sys.utf8_to_wide u) refl (own_entries-Assigned law variables named c)
    where
      same : u ≡ v
      same = ground (arith, q)

      by_value :
          (o : Option (List ℕ))
          → sys.utf8_to_wide u ≡ o
          → Assigned sys variables (own_entries sys named)
          → Assigned sys ((name, some v) ∷ variables) (elim o [
            | none ↦ failed bad_encoding
            | some converted ↦
                let entry = wide ++ 61 ∷ converted in
                if sys.alloc ((length entry + 1) * 2)
                then prepend_entry sys
                    (record { name = wide; text = entry })
                    (own_entries sys named)
                else failed out_of_memory
          ])
      by_value none e later = tt
      by_value (some converted) e later =
          by_if (Assigned sys ((name, some v) ∷ variables))
            (sys.alloc ((length (wide ++ 61 ∷ converted) + 1) * 2)) _ _
            (λ f.
              prepended (name, some v) variables
                (record { name = wide; text = wide ++ 61 ∷ converted }) (own_entries sys named)
                (assigned wide converted (law.converted name wide p) (law.converted u converted e))
                (wide, converted, p, ap sys.utf8_to_wide (sym same) ∙ e, refl, refl) later)
            (λ f. tt)
