-- ===== src/FsPath.antt =====
-- src/fspath.c: paths across the Win32 boundary. A wide string is its units without the NUL. What
-- Windows and the C library do is the record `Win32`.
pub mod Stripping
pub mod Extended
mod Examples
use kuu.Prelude.{
  ℕ, zero, suc, ◌+◌, ◌-◌, ◌*◌, Bool, true, false, not, List, [], ◌∷◌, ◌++◌, map, Option, some, none,
  ltb, ◌==◌, ◌&&◌, ◌||◌, if◌then◌else◌, within, Bytes, codes, get_elem?, take, drop, length, equal,
}
use kuu.Prelude.Results.{Result, failed, done}

-- `full_size` is the first call of GetFullPathNameW, and `full_path` the second, into that many
-- units. `same_start a b n` is `_wcsnicmp(a, b, n) == 0`.
pub record Win32 : Type 0 where
  pub alloc : ℕ → Bool
  pub utf8_to_wide : Bytes → Option (List ℕ)
  pub wide_to_utf8 : List ℕ → Option Bytes
  pub full_size : List ℕ → ℕ
  pub full_path : List ℕ → ℕ → ℕ × List ℕ
  pub same_start : List ℕ → List ℕ → ℕ → Bool

-- The refusals of `ku_wpath_make`: FS badvalue in five ways, FS encoding and FS oserror.
pub data PathError : Type 0 where
  empty_path : PathError
  drive_relative : PathError
  device_path : PathError
  rewritten_component : PathError
  unusable : PathError
  bad_encoding : PathError
  out_of_memory : PathError

-- `ku_wpath`
pub record Wpath : Type 0 where
  pub text : List ℕ
  pub size : ℕ
  pub unc : Bool

abbrev pub backslash : ℕ
backslash = 92

unfoldable pub is_alpha : ℕ → Bool
is_alpha c = within 65 90 c || within 97 122 c

-- `s[i]`, NUL past the end
unfoldable pub unit_at : List ℕ → ℕ → ℕ
unit_at s i = elim (get_elem? s i) [ none ↦ 0 | some c ↦ c ]

unfoldable pub is_drive_relative : Bytes → Bool
is_drive_relative s =
    is_alpha (unit_at s 0)
    && unit_at s 1 == 58
    && not (unit_at s 2 == 92)
    && not (unit_at s 2 == 47)

unfoldable pub is_device : Bytes → Bool
is_device s =
    (unit_at s 0 == 92 && unit_at s 1 == 92 && unit_at s 2 == 46 && unit_at s 3 == 92)
    || (unit_at s 0 == 47 && unit_at s 1 == 47 && unit_at s 2 == 46 && unit_at s 3 == 47)

-- `\\?\`, and the same with `UNC` or `UNC\`
abbrev pub extended : List ℕ
extended = 92 ∷ 92 ∷ 63 ∷ 92 ∷ []

abbrev pub extended_unc : List ℕ
extended_unc = extended ++ codes "UNC"

abbrev pub unc_start : List ℕ
unc_start = extended_unc ++ (92 ∷ [])

-- `already`
unfoldable pub is_extended : List ℕ → Bool
is_extended (a ∷ b ∷ c ∷ d ∷ rest) = a == 92 && b == 92 && c == 63 && d == 92
is_extended other = false

-- The test on a component, from `segment` to `c`.
unfoldable pub last_unit : List ℕ → ℕ
last_unit [] = 0
last_unit (c ∷ []) = c
last_unit (c ∷ d ∷ s) = last_unit (d ∷ s)

unfoldable pub ends_badly : List ℕ → Bool
ends_badly segment =
    let dotted = equal segment (46 ∷ []) || equal segment (46 ∷ 46 ∷ []) in
    ltb 0 (length segment) && not dotted && (last_unit segment == 46 || last_unit segment == 32)

-- The loop on the components, with what was read of the one at hand.
unfoldable pub has_bad_component : List ℕ → List ℕ → Bool
has_bad_component segment [] = ends_badly segment
has_bad_component segment (c ∷ s) =
    let ends = c == 92 || c == 47 in
    let rest = has_bad_component (if ends then [] else segment ++ (c ∷ [])) s in
    if ends && ends_badly segment then true else rest

unfoldable pub is_drive_root : Bool → List ℕ → ℕ → Bool
is_drive_root already full n =
    (n == 3 && unit_at full 1 == 58) || (already && n == 7 && unit_at full 5 == 58)

-- The loop that takes trailing separators off, at most `fuel` rounds, to the new length.
unfoldable pub strip_trailing : Bool → List ℕ → ℕ → ℕ → ℕ
strip_trailing already full zero n = n
strip_trailing already full (suc fuel) n =
    let rest = strip_trailing already full fuel (n - 1) in
    if ltb 1 n && unit_at full (n - 1) == 92
    then (if is_drive_root already full n then n else rest)
    else n

abbrev pub forward : ℕ → ℕ
forward c = if c == 92 then 47 else c

module _ (win : Win32) where
  -- The branches on the stripped path that make `prefixed`.
  unfoldable pub add_prefix : Bool → List ℕ → Result PathError Wpath
  add_prefix already full =
      let unc_text = extended_unc ++ drop 1 full in
      let text = extended ++ full in
      if already
      then done (record { text = full; size = length full; unc = win.same_start full unc_start 8 })
      else if unit_at full 0 == 92 && unit_at full 1 == 92
      then (if win.alloc ((length full + 8) * 2)
          then done (record { text = unc_text; size = length unc_text; unc = true })
          else failed out_of_memory)
      else (if win.alloc ((length full + 5) * 2)
          then done (record { text = text; size = length text; unc = false })
          else failed out_of_memory)

  unfoldable pub finish_path : Bool → List ℕ → Result PathError Wpath
  finish_path already full =
      add_prefix already (take (strip_trailing already full (length full) (length full)) full)

  -- The branch for a path that is not extended.
  unfoldable pub normalise : List ℕ → Result PathError (List ℕ)
  normalise raw =
      let need = win.full_size raw in
      let (got, full) = win.full_path raw need in
      if has_bad_component [] raw
      then failed rewritten_component
      else if need == 0
      then failed unusable
      else if not (win.alloc (need * 2))
      then failed out_of_memory
      else if got == 0 || not (ltb got need)
      then failed unusable
      else done full

  unfoldable pub make_wide : List ℕ → Result PathError Wpath
  make_wide raw = elim (is_extended raw) [
    | true ↦ finish_path true raw
    | false ↦ elim (normalise raw) [
      | failed e ↦ failed e
      | done full ↦ finish_path (is_extended full) full
    ]
  ]

  unfoldable pub wpath_make : Bytes → Result PathError Wpath
  wpath_make utf8 =
      if length utf8 == 0
      then failed empty_path
      else if is_drive_relative utf8
      then failed drive_relative
      else if is_device utf8
      then failed device_path
      else elim (win.utf8_to_wide utf8) [ none ↦ failed bad_encoding | some raw ↦ make_wide raw ]

  -- `ku_wpath_join`
  unfoldable pub wpath_join : List ℕ → List ℕ → Option (List ℕ)
  wpath_join parent name =
      let separator = ltb 0 (length parent) && not (unit_at parent (length parent - 1) == 92) in
      let units = length parent + (if separator then 1 else 0) + length name + 1 in
      if win.alloc (units * 2)
      then some (parent ++ (if separator then 92 ∷ [] else []) ++ name)
      else none

  -- `ku_wpath_show`: how many units are skipped, and whether the path is a UNC one.
  unfoldable pub show_skip : List ℕ → Bool → ℕ × Bool
  show_skip prefixed unc =
      let skip = if unc || win.same_start prefixed unc_start 8 then 8 else 4 in
      if equal (take 4 prefixed) extended then (skip, skip == 8) else (0, unc)

  unfoldable pub show_tail : Bool → Bytes → Option Bytes
  show_tail true tail =
      if win.alloc (length tail + 3) then some (map forward (47 ∷ 47 ∷ tail)) else none
  show_tail false tail = some (map forward tail)

  unfoldable pub wpath_show : List ℕ → Bool → Option Bytes
  wpath_show prefixed unc =
      let (skip, is_unc) = show_skip prefixed unc in
      elim (win.wide_to_utf8 (drop skip prefixed)) [
        | none ↦ none
        | some tail ↦ show_tail is_unc tail
      ]

-- The codes of an FS error.
pub data FsCode : Type 0 where
  not_found : FsCode
  access : FsCode
  exists : FsCode
  not_empty : FsCode
  bad_value : FsCode
  os_error : FsCode

-- `ku_fs_code`, by the numbers of winerror.h.
unfoldable pub fs_code : ℕ → FsCode
fs_code error =
    if error == 2 || error == 3 || error == 15 || error == 53 || error == 67
    then not_found
    else if error == 5 || error == 32 || error == 33 || error == 19
    then access
    else if error == 80 || error == 183
    then exists
    else if error == 145
    then not_empty
    else if error == 123 || error == 161 || error == 206 || error == 267 || error == 87
    then bad_value
    else os_error
