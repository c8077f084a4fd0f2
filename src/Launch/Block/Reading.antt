-- ===== src/Launch/Block/Reading.antt =====
-- The block of `ku_env_block` of src/launch.c as the child reads it.
use kuu.Prelude.{
  ℕ, zero, suc, ◌<◌, ◌≡◌, refl, ap, ◌∙◌, false, List, [], ◌∷◌, ◌++◌, ◌==◌, if◌then◌else◌, length,
  length-append, All, arith, by_if,
}
use kuu.Launch.Block.{System, write_block}

-- An environment string up to its NUL, and what is behind.
unfoldable pub read_entry : List ℕ → List ℕ × List ℕ
read_entry [] = ([], [])
read_entry (c ∷ block) =
    let (entry, behind) = read_entry block in if c == 0 then ([], block) else (c ∷ entry, behind)

-- The strings of a block, up to an empty one.
unfoldable pub read_block : ℕ → List ℕ → List (List ℕ)
read_block zero block = []
read_block (suc fuel) block =
    let (entry, behind) = read_entry block in
    let rest = read_block fuel behind in if length entry == 0 then [] else entry ∷ rest

abbrev pub HasNoNul : List ℕ → Type 0
HasNoNul text = All (λ c. (c == 0) ≡ false) text

abbrev pub IsString : List ℕ → Type 0
IsString entry = (0 < length entry) × HasNoNul entry

read_entry-append :
    (entry block : List ℕ) → HasNoNul entry → read_entry (entry ++ 0 ∷ block) ≡ (entry, block)
unfolding read_entry
read_entry-append [] block p = refl
read_entry-append (c ∷ entry) block (here, rest) =
    rw (here, read_entry-append entry block rest) refl

module _ (sys : System) where
  pub read_block-write_block :
      (fuel : ℕ) (entries : List (List ℕ))
      → All IsString entries
      → length entries < fuel
      → read_block fuel (write_block sys entries) ≡ entries
  unfolding read_block write_block
  read_block-write_block zero entries p lt = absurd (omega (arith, lt))
  read_block-write_block (suc fuel) [] p lt = unfold read_entry in refl
  read_block-write_block (suc fuel) (entry ∷ entries) ((some_unit, clean), rest) lt =
      let later : read_block fuel (write_block sys entries) ≡ entries =
        read_block-write_block fuel entries rest (omega (arith, lt)) in
      ap (λ (r : List ℕ × List ℕ). if length r.0 == 0 then [] else r.0 ∷ read_block fuel r.1)
        (read_entry-append entry (write_block sys entries) clean)
      ∙ by_if (λ x. x ≡ entry ∷ entries) (length entry == 0) []
          (entry ∷ read_block fuel (write_block sys entries))
          (λ e. absurd (ground (arith, e, some_unit))) (λ e. ap (λ x. entry ∷ x) later)

  pub write_block_longer :
      (entries : List (List ℕ)) → length entries < length (write_block sys entries)
  unfolding write_block
  write_block_longer [] = omega arith
  write_block_longer (entry ∷ entries) =
      omega (arith, write_block_longer entries, length-append entry (0 ∷ write_block sys entries))
