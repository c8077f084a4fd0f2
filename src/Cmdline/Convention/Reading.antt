-- ===== src/Cmdline/Convention/Reading.antt =====
-- The reader on one escaped argument.
use native.Mathlib.Nat.{add-zero, suc-add}
use kuu.Prelude.{
  ℕ, zero, suc, ◌+◌, ◌/◌, false, ◌||◌, some, List, [], ◌∷◌, ◌++◌, ◌==◌, ◌≡◌, refl, ◌∙◌, ap, ◌⊎◌,
  inl, inr, arith, append-nil, append_assoc, Bytes, Bool-cases, ==_iff,
}
use kuu.Cmdline.Convention.{
  Mode, outside, inside, closing, Reader, backslashes, finish, between, step, read, piece,
  next_slashes, escaped_from, trailing, has_blank, escaped,
}

pub read-append : (r : Reader) (a b : Bytes) → read r (a ++ b) ≡ read (read r a) b
unfolding read
read-append r [] b = refl
read-append r (c ∷ a) b = read-append (step r c) a b

-- The reader within an argument.
abbrev at_word : Mode → ℕ → Bytes → List Bytes → Reader
at_word m n w done = record { mode = m; slashes = n; word = some w; done = done }

abbrev IsOpen : Mode → Type 0
IsOpen m = (m ≡ outside) ⊎ (m ≡ inside)

-- Consecutive runs of backslashes join.
backslashes-append : (n : ℕ) (s : Bytes) → backslashes (n + 1) ++ s ≡ backslashes n ++ b'\\' ∷ s
backslashes-append zero s = refl
backslashes-append (suc n) s = rw suc-add (ap (◌∷◌ b'\\') (backslashes-append n s))

half : (n : ℕ) → (n + n) / 2 ≡ n
half n = omega arith

half_suc : (n : ℕ) → (n + n + 1) / 2 ≡ n
half_suc n = omega arith

module _ (m : Mode) (open_mode : IsOpen m) (done : List Bytes) where
  step_backslash : (n : ℕ) (w : Bytes) → step (at_word m n w done) b'\\' ≡ at_word m (n + 1) w done
  unfolding step
  step_backslash n w = ground arith

  -- A quote behind an odd run of backslashes is a byte of the argument.
  step_quote :
      (n : ℕ) (w : Bytes)
      → step (at_word m (n + n + 1) w done) b'"'
        ≡ at_word m 0 (w ++ backslashes n ++ b'"' ∷ []) done
  unfolding step
  step_quote n w = ground (arith, half_suc n)

  -- Any other byte ends the run, which then stands for itself.
  step_plain :
      (n c : ℕ) (w : Bytes)
      → (c == b'"' || c == b'\\') ≡ false
      → ((c == b' ' || c == b'\t') ≡ false) ⊎ (m ≡ inside)
      → step (at_word m n w done) c ≡ at_word m 0 (w ++ backslashes n ++ c ∷ []) done
  unfolding step
  step_plain n c w plain blank = ground arith

  read-backslashes :
      (k n : ℕ) (w : Bytes) → read (at_word m n w done) (backslashes k) ≡ at_word m (n + k) w done
  unfolding read
  read-backslashes zero n w = rw add-zero
  read-backslashes (suc k) n w =
      ap (λ r. read r (backslashes k)) (step_backslash n w)
      ∙ read-backslashes k (n + 1) w
      ∙ ap (λ j. at_word m j w done) (omega arith)

  read-piece_quote :
      (n : ℕ) (w : Bytes)
      → read (at_word m n w done) (backslashes n ++ b'\\' ∷ b'"' ∷ [])
        ≡ at_word m 0 (w ++ backslashes n ++ b'"' ∷ []) done
  read-piece_quote n w =
      read-append _ (backslashes n) _
      ∙ rw read-backslashes (unfold read in rw (step_backslash, step_quote))

  -- What `piece` writes for a byte is read as that byte.
  read-piece :
      (n c : ℕ) (w : Bytes)
      → ((c == b' ' || c == b'\t') ≡ false) ⊎ (m ≡ inside)
      → (v : Bytes) × (read (at_word m n w done) (piece n c) ≡ at_word m (next_slashes n c) v done)
        × ((s : Bytes) → v ++ (backslashes (next_slashes n c) ++ s) ≡ w ++ (backslashes n ++ c ∷ s))
  unfolding read piece next_slashes
  read-piece n c w blank = elim (Bool-cases (c == b'\\')) [
    | inl e ↦
        let is : c ≡ b'\\' = (==_iff c b'\\').0 e in
        rw is (w, step_backslash n w, λ s. ap (λ t. w ++ t) (backslashes-append n s))
    | inr e ↦ elim (Bool-cases (c == b'"')) [
      | inl q ↦
          let is : c ≡ b'"' = (==_iff c b'"').0 q in
          rw is (w ++ backslashes n ++ b'"' ∷ [], read-piece_quote n w, λ s. simp append_assoc)
      | inr q ↦
          rw (e, q)
            (
              w ++ backslashes n ++ c ∷ [],
              step_plain n c w (ground arith) blank,
              λ s. simp append_assoc,
            )
    ]
  ]

  -- The escaped bytes are read as the bytes.
  read-escaped_from :
      (s : Bytes) (n : ℕ) (w : Bytes)
      → (has_blank s ≡ false) ⊎ (m ≡ inside)
      → (v : Bytes) × (read (at_word m n w done) (escaped_from n s)
          ≡ at_word m (trailing n s) v done)
        × (v ++ backslashes (trailing n s) ≡ w ++ (backslashes n ++ s))
  unfolding escaped_from trailing has_blank
  read-escaped_from [] n w h = (w, unfold read in refl, rw append-nil)
  read-escaped_from (c ∷ s) n w h =
      let (v, first, joined) = read-piece n c w (ground arith) in
      let (u, rest, whole) = read-escaped_from s (next_slashes n c) v (ground arith) in
      (u, read-append _ (piece n c) _ ∙ rw first rest, whole ∙ joined s)

  read_closing :
      (n : ℕ) (w : Bytes)
      → m ≡ inside
      → read (at_word m n w done) (backslashes n ++ b'"' ∷ [])
        ≡ at_word closing 0 (w ++ backslashes n) done
  read_closing n w e =
      read-append _ (backslashes n) _
      ∙ rw read-backslashes (unfold read step in ground (arith, half n))

-- The reader stands behind the argument `s`, which the next blank or the end of the line ends.
pub record IsBehind (done : List Bytes) (s : Bytes) (r : Reader) : Type 0 where
  pub ended : finish r ≡ done ++ s ∷ []
  pub next : step r b' ' ≡ between (done ++ s ∷ [])

at_word-IsBehind :
    (m : Mode) (n : ℕ) (w s : Bytes) (done : List Bytes)
    → (m ≡ outside) ⊎ (m ≡ closing)
    → w ++ backslashes n ≡ s
    → IsBehind done s (at_word m n w done)
unfolding step
at_word-IsBehind m n w s done h e = record {
  ended = rw e;
  next = ground (arith, ap (λ t. done ++ t ∷ []) e);
}

-- A byte that is not blank begins an argument.
read-piece_first :
    (c : ℕ) (rest : Bytes) (done : List Bytes)
    → (c == b' ' || c == b'\t') ≡ false
    → read (between done) (piece 0 c ++ rest) ≡ read (at_word outside 0 [] done) (piece 0 c ++ rest)
unfolding read step piece
read-piece_first c rest done h = ground arith

read-escaped_plain :
    (c : ℕ) (s : Bytes) (done : List Bytes)
    → has_blank (c ∷ s) ≡ false
    → IsBehind done (c ∷ s) (read (between done) (escaped_from 0 (c ∷ s)))
read-escaped_plain c s done h =
    let (v, ended, whole) = read-escaped_from outside (inl refl) done (c ∷ s) 0 [] (inl h) in
    let begins : read (between done) (escaped_from 0 (c ∷ s))
        ≡ read (at_word outside 0 [] done) (escaped_from 0 (c ∷ s)) =
      unfold escaped_from has_blank in read-piece_first c _ done (ground arith) in
    rw (begins, ended) (at_word-IsBehind outside _ v (c ∷ s) done (inl refl) whole)

read-escaped_quoted :
    (s : Bytes) (done : List Bytes)
    → IsBehind done s (
        read
          (at_word inside 0 [] done)
          (escaped_from 0 s ++ (backslashes (trailing 0 s) ++ b'"' ∷ [])))
read-escaped_quoted s done =
    let (v, ended, whole) = read-escaped_from inside (inr refl) done s 0 [] (inr refl) in
    rw (read-append, ended, read_closing inside (inr refl) done)
      (at_word-IsBehind closing 0 _ s done (inr refl) (append-nil _ ∙ whole))

-- An escaped argument is read as that argument, whatever its bytes.
pub read-escaped :
    (s : Bytes) (done : List Bytes) → IsBehind done s (read (between done) (escaped s))
unfolding escaped
read-escaped [] done = unfold read step in record { ended = refl; next = refl }
read-escaped (c ∷ s) done = elim (Bool-cases (has_blank (c ∷ s))) [
  | inl e ↦ rw e (unfold read step in read-escaped_quoted (c ∷ s) done)
  | inr e ↦ rw e (read-escaped_plain c s done e)
]
