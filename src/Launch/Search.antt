-- ===== src/Launch/Search.antt =====
-- Where `ku_resolve_exe` of src/launch.c finds a program.
use kuu.Prelude.{
  Any, ℕ, zero, suc, ◌+◌, ◌*◌, ◌<◌, ◌≡◌, refl, ◌⊎◌, inl, inr, true, false, List, [], ◌∷◌, Option,
  some, none, ◌==◌, if◌then◌else◌, Bytes, length, drop, arith, by_if, ◌++◌, ◌∙◌, All,
}
use kuu.Launch.{
  has_extension, Host, Resolved, found, not_found, bad_encoding, split_entry, unquoted,
  in_directory, resolve_explicit, try_entry, path_loop, resolve_on_path, extensions, first_resolved,
  is_bare, resolve_exe,
}
use kuu.Launch.Entries.{entries, rejoin, Rejoined, rejoin-entries}
use kuu.Launch.Quotes.{AreSeparate, entries-AreSeparate}
use kuu.Launch.Candidates.{
  IsNamed, IsJoined, IsSuffix, IsFile, suffix_of, unquoted-IsNamed, in_directory-IsJoined,
  resolve_explicit-IsFile,
}

-- The program is a file in the directory that the entry names, which is not empty.
abbrev pub FoundIn : Host → Bytes → Bytes → List ℕ → Type 0
FoundIn host program exe entry =
    (inner : List ℕ) × (directory : Bytes) × (candidate : Bytes) × (suffix : Bytes) × IsNamed entry
      inner
    × (0 < length inner)
    × (host.win.wide_to_utf8 inner ≡ some directory)
    × IsJoined directory program candidate
    × IsSuffix suffix
    × IsFile host (candidate ++ suffix) exe

-- WideCharToMultiByte makes something of anything.
abbrev pub IsConverting : Host → Type 0
IsConverting host =
    (units : List ℕ) (text : Bytes)
    → host.win.wide_to_utf8 units ≡ some text
    → 0 < length units
    → 0 < length text

module _ (host : Host) (law : IsConverting host) (program exe : Bytes) where
  try_entry-FoundIn :
      (extension : Option Bytes) (entry : List ℕ)
      → IsSuffix (suffix_of extension)
      → try_entry host program extension entry ≡ found exe
      → FoundIn host program exe entry
  unfolding try_entry
  try_entry-FoundIn extension entry i =
      by_if (λ r. r ≡ found exe → FoundIn host program exe entry) (length (unquoted entry) == 0) _ _
        (λ f e. absurd (ground (arith, e)))
        (λ f. by_directory (host.win.wide_to_utf8 (unquoted entry)) refl (ground (arith, f)))
    where
      by_directory :
          (o : Option Bytes)
          → host.win.wide_to_utf8 (unquoted entry) ≡ o
          → 0 < length (unquoted entry)
          → (elim o as (λ x. Resolved) [
            | none ↦ not_found
            | some directory ↦
                if host.win.alloc (length directory + length program + 2)
                then resolve_explicit host (in_directory directory program) extension
                else not_found
          ])
            ≡ found exe
          → FoundIn host program exe entry
      by_directory none f p = λ e. absurd (ground (arith, e))
      by_directory (some directory) f p =
          by_if (λ r. r ≡ found exe → FoundIn host program exe entry)
            (host.win.alloc (length directory + length program + 2)) _ _
            (λ g e. (
              unquoted entry,
              directory,
              in_directory directory program,
              suffix_of extension,
              unquoted-IsNamed entry,
              p,
              f,
              in_directory-IsJoined directory program (law (unquoted entry) directory f p),
              i,
              resolve_explicit-IsFile host (in_directory directory program) extension exe e,
            ))
            (λ g e. absurd (ground (arith, e)))

  path_loop-FoundIn :
      (fuel : ℕ) (extension : Option Bytes) (path : List ℕ)
      → IsSuffix (suffix_of extension)
      → path_loop fuel host program extension path ≡ found exe
      → Any (FoundIn host program exe) (entries fuel path)
  unfolding path_loop entries
  path_loop-FoundIn zero extension path i e = absurd (ground (arith, e))
  path_loop-FoundIn (suc fuel) extension [] i e = absurd (ground (arith, e))
  path_loop-FoundIn (suc fuel) extension (c ∷ path) i e =
      by_entry (try_entry host program extension (split_entry false (c ∷ path)).0) refl
        (path_loop-FoundIn fuel extension (drop 1 (split_entry false (c ∷ path)).1) i) e
    where
      by_entry :
          (r : Resolved)
          → try_entry host program extension (split_entry false (c ∷ path)).0 ≡ r
          → (path_loop fuel host program extension (drop 1 (split_entry false (c ∷ path)).1)
                ≡ found exe
              → Any
                  (FoundIn host program exe)
                  (entries fuel (drop 1 (split_entry false (c ∷ path)).1)))
          → (elim r as (λ x. Resolved) [
            | not_found ↦
                path_loop fuel host program extension (drop 1 (split_entry false (c ∷ path)).1)
            | found x ↦ found x
            | bad_encoding ↦ bad_encoding
          ])
            ≡ found exe
          → FoundIn host program exe (split_entry false (c ∷ path)).0
            ⊎ Any
                (FoundIn host program exe)
                (entries fuel (drop 1 (split_entry false (c ∷ path)).1))
      by_entry not_found f later g = inr (later g)
      by_entry (found x) f later g =
          inl (try_entry-FoundIn extension (split_entry false (c ∷ path)).0 i (f ∙ g))
      by_entry bad_encoding f later g = absurd (ground (arith, g))

  first_resolved-FoundIn :
      (path : List ℕ) (list : List (Option Bytes))
      → All (λ e. IsSuffix (suffix_of e)) list
      → first_resolved (resolve_on_path host path program) list ≡ found exe
      → Any (FoundIn host program exe) (entries (length path) path)
  unfolding first_resolved
  first_resolved-FoundIn path [] i e = absurd (ground (arith, e))
  first_resolved-FoundIn path (extension ∷ list) (i, is) e =
      by_result (resolve_on_path host path program extension) refl
        (first_resolved-FoundIn path list is) e
    where
      by_result :
          (r : Resolved)
          → resolve_on_path host path program extension ≡ r
          → (first_resolved (resolve_on_path host path program) list ≡ found exe
              → Any (FoundIn host program exe) (entries (length path) path))
          → (elim r as (λ x. Resolved) [
            | not_found ↦ first_resolved (resolve_on_path host path program) list
            | found x ↦ found x
            | bad_encoding ↦ bad_encoding
          ])
            ≡ found exe
          → Any (FoundIn host program exe) (entries (length path) path)
      by_result not_found f later g = later g
      by_result (found x) f later g =
          path_loop-FoundIn (length path) extension path i (unfold resolve_on_path in f ∙ g)
      by_result bad_encoding f later g = absurd (ground (arith, g))

extensions-IsSuffix : (program : Bytes) → All (λ e. IsSuffix (suffix_of e)) (extensions program)
extensions-IsSuffix program =
    by_if (All (λ e. IsSuffix (suffix_of e))) (has_extension program) _ _ (λ e. (inl refl, tt))
      (λ e. (
        inr (inl refl),
        (
          inr (inr (inl refl)),
          (inr (inr (inr (inl refl))), (inr (inr (inr (inr (inl refl)))), tt)),
        ),
      ))

bare_found :
    (host : Host) (law : IsConverting host) (program exe : Bytes) (wide path : List ℕ)
    → host.win.utf8_to_wide program ≡ some wide
    → is_bare wide ≡ true
    → host.path ≡ some path
    → resolve_exe host program ≡ found exe
    → Any (FoundIn host program exe) (entries (length path) path)
unfolding resolve_exe resolve_explicit
bare_found host law program exe wide path e bare f =
    rw (resolve_exe, e, bare, f)
      (by_if (λ r. r ≡ found exe → Any (FoundIn host program exe) (entries (length path) path))
        (host.win.alloc ((length path + 1) * 2)) _ _
        (λ g h.
          first_resolved-FoundIn host law program exe path (extensions program)
            (extensions-IsSuffix program) h)
        (λ g h. absurd (ground (arith, h))))

-- A program found by its bare name is a file, with one of the extensions or as it is called, in a
-- directory that an entry of PATH names, in quotes or without; the entry is not empty, and the entries
-- put together with semicolons are PATH, up to a semicolon at the end, and are separated at just the
-- semicolons outside quotes. The current directory has no
-- part in it unless such an entry names it. The hypothesis on Windows is that the conversion to UTF-8
-- makes nothing empty of what is not.
pub resolve_exe-FoundIn :
    (host : Host) (law : IsConverting host) (program exe : Bytes) (wide path : List ℕ)
    → host.win.utf8_to_wide program ≡ some wide
    → is_bare wide ≡ true
    → host.path ≡ some path
    → resolve_exe host program ≡ found exe
    → Any (FoundIn host program exe) (entries (length path) path)
      × Rejoined path (rejoin (entries (length path) path))
      × AreSeparate (entries (length path) path)
resolve_exe-FoundIn host law program exe wide path e bare f h = (
  bare_found host law program exe wide path e bare f h,
  rejoin-entries (length path) path (omega arith),
  entries-AreSeparate (length path) path,
)
