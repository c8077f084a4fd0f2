-- ===== src/FsPath/Extended.antt =====
-- What `ku_wpath_make` makes is extended and stripped, and `ku_wpath_show` undoes the prefix.
use kuu.Prelude.{
  ℕ, zero, suc, ◌+◌, ◌*◌, ◌≤◌, ◌<◌, ◌≡◌, ◌⊎◌, refl, ap, ◌∙◌, Bool, true, false, List, [], ◌∷◌, ◌++◌,
  map, Option, some, none, ◌==◌, ◌&&◌, ◌||◌, if◌then◌else◌, Bytes, take, drop, length, equal, inl,
  inr, arith, subst,
}
use kuu.Prelude.Results.{Result, failed, done}
use kuu.FsPath.{
  Win32, PathError, Wpath, unit_at, extended, extended_unc, unc_start, is_extended, strip_trailing,
  add_prefix, finish_path, normalise, make_wide, wpath_make, is_drive_relative, is_device, forward,
  show_skip, show_tail, wpath_show, ends_badly, bad_encoding,
}
use kuu.FsPath.Stripping.{Stripped, strip_trailing_lem}

-- The prefix with nothing but separators behind it.
abbrev pub IsBare : List ℕ → Type 0
IsBare full = (take 4 full ≡ extended) × ((i : ℕ) → 3 ≤ i → i < length full → unit_at full i ≡ 92)

-- Extended; or, under the condition `P`, cut to `\\?`.
abbrev pub IsExtended : Type 0 → List ℕ → Type 0
IsExtended P text = (take 4 text ≡ extended) ⊎ ((text ≡ 92 ∷ 92 ∷ 63 ∷ []) × P)

take-IsExtended :
    (full : List ℕ) (n : ℕ)
    → is_extended full ≡ true
    → Stripped true full n
    → IsExtended (IsBare full) (take n full)
unfolding is_extended unit_at
take-IsExtended [] n e s = absurd (cc)
take-IsExtended (a ∷ []) n e s = absurd (cc)
take-IsExtended (a ∷ b ∷ []) n e s = absurd (cc)
take-IsExtended (a ∷ b ∷ c ∷ []) n e s = absurd (cc)
take-IsExtended (a ∷ b ∷ c ∷ d ∷ rest) zero e s = absurd (ground (arith, s.gone 2))
take-IsExtended (a ∷ b ∷ c ∷ d ∷ rest) (suc zero) e s = absurd (ground (arith, s.gone 2))
take-IsExtended (a ∷ b ∷ c ∷ d ∷ rest) (suc (suc zero)) e s = absurd (ground (arith, s.gone 2))
take-IsExtended (a ∷ b ∷ c ∷ d ∷ rest) (suc (suc (suc zero))) e s =
    inr (ground arith, (ground arith, s.gone))
take-IsExtended (a ∷ b ∷ c ∷ d ∷ rest) (suc (suc (suc (suc n)))) e s = inl (ground arith)

-- What a path that is returned is like: extended, with its length.
abbrev pub MadeIf : Type 0 → Result PathError Wpath → Type 0
MadeIf P (failed e) = Unit
MadeIf P (done w) = IsExtended P w.text × (w.size ≡ length w.text)

-- The path itself in UTF-16, or what Windows makes of it.
abbrev pub IsFull : Win32 → Bytes → List ℕ → Type 0
IsFull win utf8 full =
    (raw : List ℕ) × (win.utf8_to_wide utf8 ≡ some raw)
    × ((full ≡ raw) ⊎ (full ≡ (win.full_path raw (win.full_size raw)).1))

abbrev pub Made : Win32 → Bytes → Result PathError Wpath → Type 0
Made win utf8 = MadeIf ((full : List ℕ) × IsFull win utf8 full × IsBare full)

-- A path is normalised to what Windows makes of it.
normalise-done :
    (win : Win32) (raw full : List ℕ)
    → normalise win raw ≡ done full
    → (win.full_path raw (win.full_size raw)).1 ≡ full
unfolding normalise
normalise-done win raw full e = ground arith

module _ (win : Win32) (P : Type 0) where
  choose :
      (b : Bool) (x y : Result PathError Wpath)
      → (b ≡ true → MadeIf P x)
      → (b ≡ false → MadeIf P y)
      → MadeIf P (if b then x else y)
  choose true x y f g = f refl
  choose false x y f g = g refl

  add_prefix-MadeIf :
      (already : Bool) (full : List ℕ)
      → (already ≡ true → IsExtended P full)
      → MadeIf P (add_prefix win already full)
  unfolding add_prefix
  add_prefix-MadeIf already full h =
      choose already _ _ (λ e. (h e, refl))
        (λ e.
          choose (unit_at full 0 == 92 && unit_at full 1 == 92) _ _
            (λ f. choose (win.alloc ((length full + 8) * 2)) _ _ (λ a. (inl refl, refl)) (λ a. tt))
            (λ f. choose (win.alloc ((length full + 5) * 2)) _ _ (λ a. (inl refl, refl)) (λ a. tt)))

  weaken : {Q : Type 0} {text : List ℕ} → (Q → P) → IsExtended Q text → IsExtended P text
  weaken f (inl e) = inl e
  weaken f (inr (e, q)) = inr (e, f q)

  finish_path-MadeIf :
      (full : List ℕ) (already : Bool)
      → (already ≡ true → is_extended full ≡ true)
      → (IsBare full → P)
      → MadeIf P (finish_path win already full)
  unfolding finish_path
  finish_path-MadeIf full true h f =
      add_prefix-MadeIf true (take (strip_trailing true full (length full) (length full)) full)
        (λ e. weaken f (
          take-IsExtended full (strip_trailing true full (length full) (length full)) (h refl)
            (strip_trailing_lem true full)))
  finish_path-MadeIf full false h f =
      add_prefix-MadeIf false (take (strip_trailing false full (length full) (length full)) full)
        (λ e. absurd (cc))

  make_wide-MadeIf :
      (raw : List ℕ)
      → (IsBare raw → P)
      → (IsBare (win.full_path raw (win.full_size raw)).1 → P)
      → MadeIf P (make_wide win raw)
  unfolding make_wide
  make_wide-MadeIf raw f g = by_start (is_extended raw) refl
    where
      by_full :
          (r : Result PathError (List ℕ))
          → normalise win raw ≡ r
          → MadeIf P
              (elim r [ failed e ↦ failed e | done full ↦ finish_path win (is_extended full) full ])
      by_full (failed e) n = tt
      by_full (done full) n =
          finish_path-MadeIf full (is_extended full) (λ e. e)
            (subst (λ x. IsBare x → P) (normalise-done win raw full n) g)

      by_start :
          (b : Bool)
          → is_extended raw ≡ b
          → MadeIf P (elim b [
            | true ↦ finish_path win true raw
            | false ↦ elim (normalise win raw) [
              | failed e ↦ failed e
              | done full ↦ finish_path win (is_extended full) full
            ]
          ])
      by_start true e = finish_path-MadeIf raw true (λ h. e) f
      by_start false e = by_full (normalise win raw) refl

module _ (win : Win32) where
  -- Whatever Windows answers, a path that `ku_wpath_make` returns begins with `\\?\` and has its
  -- length beside it, with one exception: where the path, or what Windows makes of it, is the prefix
  -- with nothing but separators behind it, it may come back as `\\?`.
  pub wpath_make-Made : (utf8 : Bytes) → Made win utf8 (wpath_make win utf8)
  unfolding wpath_make
  wpath_make-Made utf8 =
      choose win _ (length utf8 == 0) _ _ (λ e. tt)
        (λ e.
          choose win _ (is_drive_relative utf8) _ _ (λ f. tt)
            (λ f.
              choose win _ (is_device utf8) _ _ (λ g. tt)
                (λ g. by_raw (win.utf8_to_wide utf8) refl)))
    where
      by_raw :
          (o : Option (List ℕ))
          → win.utf8_to_wide utf8 ≡ o
          → Made win utf8 (elim o [ none ↦ failed bad_encoding | some raw ↦ make_wide win raw ])
      by_raw none e = tt
      by_raw (some raw) e =
          make_wide-MadeIf win _ raw (λ bare. (raw, (raw, e, inl refl), bare))
            (λ bare. ((win.full_path raw (win.full_size raw)).1, (raw, e, inr refl), bare))

  show_skip-plain :
      (full : List ℕ)
      → win.same_start (extended ++ full) unc_start 8 ≡ false
      → show_skip win (extended ++ full) false ≡ (4, false)
  unfolding show_skip equal
  show_skip-plain full s = rw s refl

  show_skip-unc : (rest : List ℕ) → show_skip win (extended_unc ++ (92 ∷ rest)) true ≡ (8, true)
  unfolding show_skip equal
  show_skip-unc rest = refl

  abbrev shown : List ℕ → ℕ × Bool → Option Bytes
  shown prefixed (skip, is_unc) = elim (win.wide_to_utf8 (drop skip prefixed)) [
    | none ↦ none
    | some tail ↦ show_tail win is_unc tail
  ]

  wpath_show-shown :
      (prefixed : List ℕ) (unc : Bool) (skip : ℕ × Bool)
      → show_skip win prefixed unc ≡ skip
      → wpath_show win prefixed unc ≡ shown prefixed skip
  unfolding wpath_show
  wpath_show-shown prefixed unc skip e = ap (shown prefixed) e

  -- A path that is neither extended nor UNC is given the prefix, and `ku_wpath_show` takes it off
  -- again: it shows the path itself in UTF-8, with `/` for `\`. The allocator grants the block, and
  -- the extended path does not begin with `\\?\UNC\`.
  pub wpath_show-add_prefix :
      (full : List ℕ) (text : Bytes)
      → win.alloc ((length full + 5) * 2) ≡ true
      → (unit_at full 0 == 92 && unit_at full 1 == 92) ≡ false
      → win.same_start (extended ++ full) unc_start 8 ≡ false
      → win.wide_to_utf8 full ≡ some text
      → (add_prefix win false full
          ≡ done
              (record { text = extended ++ full; size = length (extended ++ full); unc = false }))
        × (wpath_show win (extended ++ full) false ≡ some (map forward text))
  unfolding add_prefix
  wpath_show-add_prefix full text a p s e = (
    rw (p, a) refl,
    wpath_show-shown (extended ++ full) false (4, false) (show_skip-plain full s)
        ∙ rw (shown, e) (unfold show_tail in refl),
  )

  -- A UNC path is given the prefix `\\?\UNC`, and `ku_wpath_show` shows it with `//` before the
  -- server. The allocator grants both blocks.
  pub wpath_show-unc :
      (rest : List ℕ) (text : Bytes)
      → ((n : ℕ) → win.alloc n ≡ true)
      → win.wide_to_utf8 rest ≡ some text
      → let prefixed = extended_unc ++ (92 ∷ rest) in
        (add_prefix win false (92 ∷ 92 ∷ rest)
          ≡ done (record { text = prefixed; size = length prefixed; unc = true }))
        × (wpath_show win prefixed true ≡ some (47 ∷ 47 ∷ map forward text))
  unfolding add_prefix unit_at
  wpath_show-unc rest text grants e = (
    rw (grants ((length (92 ∷ 92 ∷ rest) + 8) * 2)) refl,
    wpath_show-shown (extended_unc ++ (92 ∷ rest)) true (8, true) (show_skip-unc rest)
        ∙ rw (shown, e) (unfold show_tail in rw (grants (length text + 3)) refl),
  )

-- The components of a path, and whether one of them is refused.
unfoldable pub components : List ℕ → List ℕ → List (List ℕ)
components segment [] = segment ∷ []
components segment (c ∷ s) =
    let ends = c == 92 || c == 47 in
    let rest = components (if ends then [] else segment ++ (c ∷ [])) s in
    if ends then segment ∷ rest else rest

unfoldable pub any_bad : List (List ℕ) → Bool
any_bad [] = false
any_bad (segment ∷ rest) = if ends_badly segment then true else any_bad rest
