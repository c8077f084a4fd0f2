-- ===== src/Launch.antt =====
-- src/launch.c: how a program is found, and which handles a child inherits. What Windows answers is the record `Host`.
pub mod Entries
pub mod Quotes
pub mod Candidates
pub mod Search
pub mod Block
pub mod Handles
mod Examples
use kuu.Prelude.{
  ℕ, zero, suc, ◌+◌, ◌-◌, ◌*◌, Bool, true, false, not, ◌&&◌, ◌||◌, List, [], ◌∷◌, ◌++◌, map, Option,
  some, none, ltb, leb, ◌==◌, if◌then◌else◌, Bytes, codes, contains, length, take, drop,
}
use kuu.Prelude.Results.{Result, failed, done}
use kuu.FsPath.{Win32, unit_at, is_alpha, wpath_make, wpath_show}

-- `attributes` is GetFileAttributesW: none, or whether it is a directory. `path` is PATH, unless it is
-- unset or empty.
pub record Host : Type 0 where
  pub win : Win32
  pub attributes : List ℕ → Option Bool
  pub path : Option (List ℕ)

-- The status 0 with the executable, and 1, and 2.
pub data Resolved : Type 0 where
  found : Bytes → Resolved
  not_found : Resolved
  bad_encoding : Resolved

abbrev pub is_separator : ℕ → Bool
is_separator c = c == 92 || c == 47

unfoldable pub path_is_absolute : Bytes → Bool
path_is_absolute p =
    is_separator (unit_at p 0) && is_separator (unit_at p 1)
    || is_alpha (unit_at p 0) && unit_at p 1 == 58 && is_separator (unit_at p 2)

-- `base`: what is behind the last separator.
unfoldable pub base_of : Bytes → Bytes → Bytes
base_of base [] = base
base_of base (c ∷ rest) = base_of (if is_separator c then rest else base) rest

unfoldable pub has_extension : Bytes → Bool
has_extension program = contains (base_of program program) 46

-- The native spelling of a shown path.
unfoldable pub native : Bytes → Bytes
native exe = map (λ c. if c == 47 then 92 else c) exe

unfoldable pub resolve_explicit : Host → Bytes → Option Bytes → Resolved
resolve_explicit host program extension =
    let suffix : Bytes = elim extension [ none ↦ [] | some e ↦ e ] in
    let candidate = program ++ suffix in
    if not (host.win.alloc (length candidate + 1))
    then not_found
    else elim (wpath_make host.win candidate) [
      | failed e ↦ not_found
      | done path ↦ elim (host.attributes path.text) [
        | none ↦ not_found
        | some true ↦ not_found
        | some false ↦
            let exe : Option Bytes =
              if leb 260 path.size
              then host.win.wide_to_utf8 path.text
              else elim (wpath_show host.win path.text path.unc) [
                | none ↦ none
                | some shown ↦ some (native shown)
              ] in
            elim exe [ none ↦ bad_encoding | some text ↦ found text ]
      ]
    ]

-- An entry of PATH up to a semicolon outside quotes, and what is left, the semicolon first.
unfoldable pub split_entry : Bool → List ℕ → List ℕ × List ℕ
split_entry quoted [] = ([], [])
split_entry quoted (c ∷ rest) =
    let inside = if c == 34 then not quoted else quoted in
    let (entry, behind) = split_entry inside rest in
    if c == 59 && not inside then ([], c ∷ rest) else (c ∷ entry, behind)

-- `first` up to `last`: an entry that quotes enclose loses them.
unfoldable pub unquoted : List ℕ → List ℕ
unquoted entry =
    let n = length entry in
    if leb 2 n && unit_at entry 0 == 34 && unit_at entry (n - 1) == 34
    then drop 1 (take (n - 1) entry)
    else entry

unfoldable pub in_directory : Bytes → Bytes → Bytes
in_directory directory program =
    let last = unit_at directory (length directory - 1) in
    if ltb 0 (length directory) && not (is_separator last)
    then directory ++ 92 ∷ program
    else directory ++ program

-- A round of `resolve_on_path`.
unfoldable pub try_entry : Host → Bytes → Option Bytes → List ℕ → Resolved
try_entry host program extension entry =
    let inner = unquoted entry in
    if length inner == 0 then not_found else elim (host.win.wide_to_utf8 inner) [
      | none ↦ not_found
      | some directory ↦
          if host.win.alloc (length directory + length program + 2)
          then resolve_explicit host (in_directory directory program) extension
          else not_found
    ]

-- The loop, at most `fuel` rounds, each of which takes a unit at least.
unfoldable pub path_loop : ℕ → Host → Bytes → Option Bytes → List ℕ → Resolved
path_loop zero host program extension path = not_found
path_loop (suc fuel) host program extension [] = not_found
path_loop (suc fuel) host program extension (c ∷ path) =
    let (entry, behind) = split_entry false (c ∷ path) in
    elim (try_entry host program extension entry) [
      | not_found ↦ path_loop fuel host program extension (drop 1 behind)
      | found exe ↦ found exe
      | bad_encoding ↦ bad_encoding
    ]

unfoldable pub resolve_on_path : Host → List ℕ → Bytes → Option Bytes → Resolved
resolve_on_path host path program extension = path_loop (length path) host program extension path

abbrev pub extensions : Bytes → List (Option Bytes)
extensions program =
    if has_extension program
    then none ∷ []
    else some (codes ".exe") ∷ some (codes ".com") ∷ some (codes ".bat") ∷ some (codes ".cmd") ∷ []

-- The loop on the extensions.
unfoldable pub first_resolved : (Option Bytes → Resolved) → List (Option Bytes) → Resolved
first_resolved resolve [] = not_found
first_resolved resolve (extension ∷ rest) = elim (resolve extension) [
  | not_found ↦ first_resolved resolve rest
  | found exe ↦ found exe
  | bad_encoding ↦ bad_encoding
]

unfoldable pub is_bare : List ℕ → Bool
is_bare wide = not (contains wide 92) && not (contains wide 47)

-- `ku_resolve_exe`
unfoldable pub resolve_exe : Host → Bytes → Resolved
resolve_exe host program = elim (host.win.utf8_to_wide program) [
  | none ↦ bad_encoding
  | some wide ↦
      if is_bare wide
      then elim (host.path) [
        | none ↦ not_found
        | some path ↦
            if host.win.alloc ((length path + 1) * 2)
            then first_resolved (resolve_on_path host path program) (extensions program)
            else not_found
      ]
      else first_resolved (resolve_explicit host program) (extensions program)
]
