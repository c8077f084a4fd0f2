-- ===== src/Launch/Candidates.antt =====
-- The names that `ku_resolve_exe` of src/launch.c tries, and the files that they stand for.
use kuu.Prelude.{
  Any, ℕ, zero, suc, ◌+◌, ◌<◌, ◌≡◌, refl, ◌⊎◌, inl, inr, true, false, List, [], ◌∷◌, Option, some,
  none, ◌==◌, if◌then◌else◌, Bytes, length, drop, arith, by_if, ap, ◌++◌, ◌-◌, codes, map, take,
  leb, ltb, ◌&&◌, Bool, sym, length-append, ◌≤◌, not, Bool-cases, ◌∙◌,
}
use kuu.Prelude.Results.{Result, failed, done}
use kuu.FsPath.{Wpath, PathError, unit_at, wpath_make, wpath_show}
use kuu.Launch.{
  is_separator, native, Host, Resolved, found, not_found, bad_encoding, unquoted, in_directory,
  resolve_explicit,
}

-- An entry of PATH names what it encloses in quotes, or else itself.
abbrev pub IsNamed : List ℕ → List ℕ → Type 0
IsNamed entry inner =
    (entry ≡ 34 ∷ inner ++ 34 ∷ [])
    ⊎ ((entry ≡ inner) × ((middle : List ℕ) → ¬ (entry ≡ 34 ∷ middle ++ 34 ∷ [])))

abbrev pub EndsIn : ℕ → Bytes → Type 0
EndsIn c directory = (start : Bytes) × (directory ≡ start ++ c ∷ [])

-- The name in the directory: with a backslash between, or none where the directory ends in a separator.
abbrev pub IsJoined : Bytes → Bytes → Bytes → Type 0
IsJoined directory program candidate =
    (candidate ≡ directory ++ 92 ∷ program)
    ⊎ ((EndsIn 92 directory ⊎ EndsIn 47 directory) × (candidate ≡ directory ++ program))

abbrev pub IsSuffix : Bytes → Type 0
IsSuffix suffix =
    (suffix ≡ [])
    ⊎ Any (λ e. suffix ≡ e) (codes ".exe" ∷ codes ".com" ∷ codes ".bat" ∷ codes ".cmd" ∷ [])

-- `exe` is the path: as Windows has it where that is long, and as shown, with backslashes, else.
abbrev pub IsSpelled : Host → Wpath → Bytes → Type 0
IsSpelled host path exe =
    ((260 ≤ path.size) × (host.win.wide_to_utf8 path.text ≡ some exe))
    ⊎ ((path.size < 260)
        × ((shown : Bytes) × (wpath_show host.win path.text path.unc ≡ some shown)
            × (map (λ c. if c == 47 then 92 else c) shown ≡ exe)))

-- The name is that of a file that is there and is no directory, and `exe` is its path.
abbrev pub IsFile : Host → Bytes → Bytes → Type 0
IsFile host name exe =
    (path : Wpath) × (wpath_make host.win name ≡ done path)
    × (host.attributes path.text ≡ some false)
    × IsSpelled host path exe

last_lem : (s : List ℕ) (k c : ℕ) → length s ≡ suc k → unit_at s k ≡ c → s ≡ take k s ++ c ∷ []
unfolding unit_at
last_lem [] k c p e = absurd (omega (arith, p))
last_lem (x ∷ []) zero c p e = ap (λ y. y ∷ []) e
last_lem (x ∷ y ∷ s) zero c p e = absurd (omega (arith, p))
last_lem (x ∷ s) (suc k) c p e = ap (◌∷◌ x) (last_lem s k c (omega (arith, p)) e)

append-last : (s : List ℕ) (c : ℕ) → unit_at (s ++ c ∷ []) (length s) ≡ c
unfolding unit_at
append-last [] c = refl
append-last (x ∷ s) c = append-last s c

abbrev is_quoted : List ℕ → Bool
is_quoted entry =
    leb 2 (length entry) && unit_at entry 0 == 34 && unit_at entry (length entry - 1) == 34

in_quotes : (middle : List ℕ) → is_quoted (34 ∷ middle ++ 34 ∷ []) ≡ true
unfolding unit_at
in_quotes middle =
    let rest = middle ++ 34 ∷ [] in
    let size : length rest ≡ suc (length middle) = omega (arith, length-append middle (34 ∷ [])) in
    let at : length (34 ∷ rest) - 1 ≡ suc (length middle) = omega (arith, size) in
    let last : unit_at (34 ∷ rest) (length (34 ∷ rest) - 1) ≡ 34 =
      ap (λ i. unit_at (34 ∷ rest) i) at ∙ append-last middle 34 in
    ground (arith, last, size)

pub unquoted-IsNamed : (entry : List ℕ) → IsNamed entry (unquoted entry)
unfolding unquoted unit_at
unquoted-IsNamed entry =
    by_if (λ x. IsNamed entry x) (is_quoted entry) _ _ (λ e. inl (enclosed entry e))
      (λ e. inr (refl, λ middle f. absurd (ground (arith, e, in_quotes middle, ap is_quoted f))))
  where
    enclosed :
        (s : List ℕ) → is_quoted s ≡ true → s ≡ 34 ∷ drop 1 (take (length s - 1) s) ++ 34 ∷ []
    enclosed [] e = absurd (ground (arith, e))
    enclosed (x ∷ []) e = absurd (ground (arith, e))
    enclosed (x ∷ y ∷ s) e =
        let at : length (x ∷ y ∷ s) - 1 ≡ suc (length s) = omega arith in
        let first : x ≡ 34 = ground (arith, e) in
        let whole : y ∷ s ≡ take (length s) (y ∷ s) ++ 34 ∷ [] =
          last_lem (y ∷ s) (length s) 34 refl
            (sym (ap (λ i. unit_at (x ∷ y ∷ s) i) at) ∙ ground (arith, e)) in
        rw at (rw first (ap (◌∷◌ 34) whole))

pub in_directory-IsJoined :
    (directory program : Bytes)
    → 0 < length directory
    → IsJoined directory program (in_directory directory program)
unfolding in_directory
in_directory-IsJoined directory program p =
    by_if (IsJoined directory program)
      (ltb 0 (length directory) && not (is_separator (unit_at directory (length directory - 1)))) _
      _ (λ e. inl refl)
      (λ e. elim (Bool-cases (unit_at directory (length directory - 1) == 92)) [
        | inl back ↦ inr (inl (ends 92 (ground arith)), refl)
        | inr other ↦ inr (inr (ends 47 (ground arith)), refl)
      ])
  where
    ends : (c : ℕ) → unit_at directory (length directory - 1) ≡ c → EndsIn c directory
    ends c e = (
      take (length directory - 1) directory,
      last_lem directory (length directory - 1) c (omega (arith, p)) e,
    )

abbrev pub suffix_of : Option Bytes → Bytes
suffix_of none = []
suffix_of (some e) = e

-- The text of the path that is found.
abbrev exe_of : Host → Wpath → Option Bytes
exe_of host path =
    if leb 260 path.size
    then host.win.wide_to_utf8 path.text
    else elim (wpath_show host.win path.text path.unc) [
      | none ↦ none
      | some shown ↦ some (native shown)
    ]

exe_of-IsSpelled :
    (host : Host) (path : Wpath) (exe : Bytes)
    → exe_of host path ≡ some exe
    → IsSpelled host path exe
unfolding native
exe_of-IsSpelled host path exe =
    by_if (λ o. o ≡ some exe → IsSpelled host path exe) (leb 260 path.size) _ _
      (λ f e. inl (ground (arith, f), e))
      (λ f. by_shown (ground (arith, f)) (wpath_show host.win path.text path.unc) refl)
  where
    by_shown :
        path.size < 260
        → (o : Option Bytes) → wpath_show host.win path.text path.unc ≡ o
        → (elim o as (λ x. Option Bytes) [ none ↦ none | some shown ↦ some (native shown) ])
          ≡ some exe
        → IsSpelled host path exe
    by_shown p none f e = absurd (ground (arith, e))
    by_shown p (some shown) f e = inr (p, (shown, f, ground (arith, e)))

-- `resolve_explicit` with its suffix put on.
abbrev resolve_name : Host → Bytes → Resolved
resolve_name host name =
    if not (host.win.alloc (length name + 1)) then not_found else elim (wpath_make host.win name) [
      | failed e ↦ not_found
      | done path ↦ elim (host.attributes path.text) [
        | none ↦ not_found
        | some true ↦ not_found
        | some false ↦ elim (exe_of host path) [ none ↦ bad_encoding | some text ↦ found text ]
      ]
    ]

resolve_name-IsFile :
    (host : Host) (name exe : Bytes) → resolve_name host name ≡ found exe → IsFile host name exe
resolve_name-IsFile host name exe =
    by_if (λ r. r ≡ found exe → IsFile host name exe) (not (host.win.alloc (length name + 1))) _ _
      (λ f e. absurd (ground (arith, e))) (λ f. by_path (wpath_make host.win name) refl)
  where
    by_exe :
        (path : Wpath)
        → wpath_make host.win name ≡ done path
        → host.attributes path.text ≡ some false
        → (o : Option Bytes) → exe_of host path ≡ o
        → (elim o as (λ x. Resolved) [ none ↦ bad_encoding | some text ↦ found text ]) ≡ found exe
        → IsFile host name exe
    by_exe path f g none h e = absurd (ground (arith, e))
    by_exe path f g (some text) h e =
        (path, f, g, exe_of-IsSpelled host path exe (h ∙ ground (arith, e)))

    by_kind :
        (path : Wpath)
        → wpath_make host.win name ≡ done path
        → (o : Option Bool) → host.attributes path.text ≡ o
        → (elim o as (λ x. Resolved) [
          | none ↦ not_found
          | some true ↦ not_found
          | some false ↦ elim (exe_of host path) [ none ↦ bad_encoding | some text ↦ found text ]
        ])
          ≡ found exe
        → IsFile host name exe
    by_kind path f none g e = absurd (ground (arith, e))
    by_kind path f (some true) g e = absurd (ground (arith, e))
    by_kind path f (some false) g e = by_exe path f g (exe_of host path) refl e

    by_path :
        (r : Result PathError Wpath)
        → wpath_make host.win name ≡ r
        → (elim r as (λ x. Resolved) [
          | failed e ↦ not_found
          | done path ↦ elim (host.attributes path.text) [
            | none ↦ not_found
            | some true ↦ not_found
            | some false ↦ elim (exe_of host path) [ none ↦ bad_encoding | some text ↦ found text ]
          ]
        ])
          ≡ found exe
        → IsFile host name exe
    by_path (failed x) f e = absurd (ground (arith, e))
    by_path (done path) f e = by_kind path f (host.attributes path.text) refl e

pub resolve_explicit-IsFile :
    (host : Host) (candidate : Bytes) (extension : Option Bytes) (exe : Bytes)
    → resolve_explicit host candidate extension ≡ found exe
    → IsFile host (candidate ++ suffix_of extension) exe
unfolding resolve_explicit
resolve_explicit-IsFile host candidate none exe e = resolve_name-IsFile host (candidate ++ []) exe e
resolve_explicit-IsFile host candidate (some x) exe e =
    resolve_name-IsFile host (candidate ++ x) exe e
