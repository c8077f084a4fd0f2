-- ===== src/Launch/Entries.antt =====
-- PATH and its entries, as src/launch.c reads them.
use kuu.Prelude.{
  ℕ, zero, suc, ◌≤◌, ◌<◌, ◌≡◌, refl, sym, subst, ap, ◌∙◌, ◌⊎◌, inl, inr, Bool, false, not, ◌&&◌,
  List, [], ◌∷◌, ◌++◌, ◌==◌, if◌then◌else◌, length, length-append, append-nil, append_assoc, drop,
  arith, by_if,
}
use kuu.Launch.{split_entry}

-- The entries of PATH, one after the other.
unfoldable pub entries : ℕ → List ℕ → List (List ℕ)
entries zero path = []
entries (suc fuel) [] = []
entries (suc fuel) (c ∷ path) =
    let (entry, behind) = split_entry false (c ∷ path) in entry ∷ entries fuel (drop 1 behind)

-- How the entries of PATH make it up: with the semicolons between them, and perhaps one behind the last.
unfoldable pub rejoin : List (List ℕ) → List ℕ
rejoin [] = []
rejoin (entry ∷ []) = entry
rejoin (entry ∷ next ∷ rest) = entry ++ 59 ∷ rejoin (next ∷ rest)

-- Where an entry ends: at the end, or before a semicolon.
abbrev Cut : List ℕ → List ℕ × List ℕ → Type 0
Cut path (entry, behind) =
    (entry ++ behind ≡ path) × ((behind ≡ []) ⊎ ((tail : List ℕ) × (behind ≡ 59 ∷ tail)))

split_entry-Cut : (quoted : Bool) (path : List ℕ) → Cut path (split_entry quoted path)
unfolding split_entry
split_entry-Cut quoted [] = (refl, inl refl)
split_entry-Cut quoted (c ∷ path) =
    let inside = if c == 34 then not quoted else quoted in
    let (same, ends) = split_entry-Cut inside path in
    by_if {A = List ℕ × List ℕ} (Cut (c ∷ path)) (c == 59 && not inside) _ _
      (λ e. (refl, inr (path, semicolon (ground (arith, e)))))
      (λ e. (ap (λ rest. c ∷ rest) same, ends))
  where
    semicolon : c ≡ 59 → c ∷ path ≡ 59 ∷ path
    semicolon e = ap (λ x. x ∷ path) e

-- Rejoined, up to a semicolon at the end.
abbrev pub Rejoined : List ℕ → List ℕ → Type 0
Rejoined path text = (text ≡ path) ⊎ (text ++ 59 ∷ [] ≡ path)

pub entries_none : (fuel : ℕ) → entries fuel [] ≡ []
unfolding entries
entries_none zero = refl
entries_none (suc fuel) = refl

entries_some :
    (fuel : ℕ) (path : List ℕ)
    → length path ≤ fuel
    → 0 < length path
    → 0 < length (entries fuel path)
unfolding entries
entries_some fuel [] p q = absurd (omega (arith, q))
entries_some zero (c ∷ path) p q = absurd (omega (arith, p))
entries_some (suc fuel) (c ∷ path) p q = omega arith

Rejoined-next :
    (whole entry tail : List ℕ) (list : List (List ℕ))
    → entry ++ 59 ∷ tail ≡ whole
    → (0 < length tail → 0 < length list)
    → Rejoined tail (rejoin list)
    → Rejoined whole (rejoin (entry ∷ list))
unfolding rejoin
Rejoined-next whole entry [] [] e more h = inr e
Rejoined-next whole entry (c ∷ tail) [] e more h = absurd (omega (arith, more (omega arith)))
Rejoined-next whole entry tail (next ∷ list) e more (inl g) = inl (ap (λ t. entry ++ 59 ∷ t) g ∙ e)
Rejoined-next whole entry tail (next ∷ list) e more (inr g) =
    inr (append_assoc entry (59 ∷ rejoin (next ∷ list)) (59 ∷ []) ∙ ap (λ t. entry ++ 59 ∷ t) g ∙ e)

tail_shorter :
    (entry tail path : List ℕ) (c : ℕ) → entry ++ 59 ∷ tail ≡ c ∷ path → length tail ≤ length path
tail_shorter entry tail path c e =
    omega (arith, length-append entry (59 ∷ tail), ap (λ (x : List ℕ). length x) e)

-- The entries make up the whole of PATH.
pub rejoin-entries :
    (fuel : ℕ) (path : List ℕ) → length path ≤ fuel → Rejoined path (rejoin (entries fuel path))
unfolding entries rejoin
rejoin-entries zero [] p = inl refl
rejoin-entries zero (c ∷ path) p = absurd (omega (arith, p))
rejoin-entries (suc fuel) [] p = inl refl
rejoin-entries (suc fuel) (c ∷ path) p =
    let (same, ends) = split_entry-Cut false (c ∷ path) in
    by_end (split_entry false (c ∷ path)).0 (split_entry false (c ∷ path)).1 same ends
      (rejoin-entries fuel)
  where
    by_end :
        (entry behind : List ℕ)
        → entry ++ behind ≡ c ∷ path
        → (behind ≡ []) ⊎ ((tail : List ℕ) × (behind ≡ 59 ∷ tail))
        → ((rest : List ℕ) → length rest ≤ fuel → Rejoined rest (rejoin (entries fuel rest)))
        → Rejoined (c ∷ path) (rejoin (entry ∷ entries fuel (drop 1 behind)))
    by_end entry behind e (inl over) later =
        let whole : entry ≡ c ∷ path =
          sym (append-nil entry) ∙ subst (λ b. entry ++ b ≡ c ∷ path) over e in
        subst (λ b. Rejoined (c ∷ path) (rejoin (entry ∷ entries fuel (drop 1 b)))) (sym over)
          (subst (λ list. Rejoined (c ∷ path) (rejoin (entry ∷ list))) (sym (entries_none fuel))
            (inl whole))
    by_end entry behind e (inr (tail, f)) later =
        let there : entry ++ 59 ∷ tail ≡ c ∷ path = subst (λ b. entry ++ b ≡ c ∷ path) f e in
        let short : length tail ≤ fuel = omega (arith, tail_shorter entry tail path c there, p) in
        subst (λ b. Rejoined (c ∷ path) (rejoin (entry ∷ entries fuel (drop 1 b)))) (sym f)
          (Rejoined-next (c ∷ path) entry tail (entries fuel tail) there
            (entries_some fuel tail short) (later tail short))
