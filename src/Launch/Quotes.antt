-- ===== src/Launch/Quotes.antt =====
-- Where src/launch.c separates PATH: at the semicolons outside quotes.
use kuu.Prelude.{
  ℕ, zero, suc, ◌≡◌, refl, sym, subst, ◌⊎◌, inl, inr, Bool, true, false, not, ◌&&◌, List, [], ◌∷◌,
  ◌==◌, if◌then◌else◌, drop, arith, by_if,
}
use kuu.Launch.{split_entry}
use kuu.Launch.Entries.{entries, entries_none}

-- Whether a quote is open behind a text, and `quoted` before it.
abbrev pub open_behind : Bool → List ℕ → Bool
open_behind quoted [] = quoted
open_behind quoted (c ∷ text) = open_behind (if c == 34 then not quoted else quoted) text

-- Every semicolon is inside quotes.
abbrev pub IsUnbroken : Bool → List ℕ → Type 0
IsUnbroken quoted [] = Unit
IsUnbroken quoted (c ∷ text) =
    (c ≡ 59 → quoted ≡ true) × IsUnbroken (if c == 34 then not quoted else quoted) text

-- No entry has a semicolon outside quotes, and none but the last leaves a quote open.
abbrev pub AreSeparate : List (List ℕ) → Type 0
AreSeparate [] = Unit
AreSeparate (entry ∷ []) = IsUnbroken false entry
AreSeparate (entry ∷ next ∷ rest) =
    IsUnbroken false entry × (open_behind false entry ≡ false) × AreSeparate (next ∷ rest)

abbrev Ended : Bool → List ℕ × List ℕ → Type 0
Ended quoted (entry, behind) =
    IsUnbroken quoted entry × ((behind ≡ []) ⊎ (open_behind quoted entry ≡ false))

split_entry-Ended : (quoted : Bool) (path : List ℕ) → Ended quoted (split_entry quoted path)
unfolding split_entry
split_entry-Ended quoted [] = (tt, inl refl)
split_entry-Ended quoted (c ∷ path) =
    let inside = if c == 34 then not quoted else quoted in
    let (unbroken, ends) = split_entry-Ended inside path in
    by_if {A = List ℕ × List ℕ} (Ended quoted) (c == 59 && not inside) _ _
      (λ e. (tt, inr (ground (arith, e)))) (λ e. ((λ f. ground (arith, e, f), unbroken), ends))

AreSeparate-next :
    (entry : List ℕ) (list : List (List ℕ))
    → IsUnbroken false entry
    → open_behind false entry ≡ false
    → AreSeparate list
    → AreSeparate (entry ∷ list)
AreSeparate-next entry [] p q h = p
AreSeparate-next entry (next ∷ rest) p q h = (p, q, h)

-- The entries are separated where they are.
pub entries-AreSeparate : (fuel : ℕ) (path : List ℕ) → AreSeparate (entries fuel path)
unfolding entries
entries-AreSeparate zero path = tt
entries-AreSeparate (suc fuel) [] = tt
entries-AreSeparate (suc fuel) (c ∷ path) =
    let (unbroken, ends) = split_entry-Ended false (c ∷ path) in
    let (entry, behind) = split_entry false (c ∷ path) in
    elim ends [
      | inr shut ↦
          AreSeparate-next (split_entry false (c ∷ path)).0
            (entries fuel (drop 1 (split_entry false (c ∷ path)).1)) unbroken shut
            (entries-AreSeparate fuel (drop 1 (split_entry false (c ∷ path)).1))
      | inl over ↦
          subst (λ b. AreSeparate ((split_entry false (c ∷ path)).0 ∷ entries fuel (drop 1 b)))
            (sym over)
            (subst (λ list. AreSeparate ((split_entry false (c ∷ path)).0 ∷ list))
              (sym (entries_none fuel)) unbroken)
    ]
