-- ===== src/Launch/Examples.antt =====
-- Tests of src/launch.c, and the theorems on it at concrete inputs.
use kuu.Prelude.{
  Any, ℕ, ◌<◌, ◌+◌, ◌≡◌, refl, true, false, List, [], ◌∷◌, some, none, if◌then◌else◌, codes,
  contains, length, take, equal, arith, subst,
}
use kuu.FsPath.{
  Win32, wpath_make, is_drive_relative, is_device, is_alpha, unit_at, make_wide, is_extended,
  normalise, has_bad_component, ends_badly, last_unit, finish_path, strip_trailing, is_drive_root,
  add_prefix, wpath_show, show_skip, show_tail,
}
use kuu.Launch.{
  Host, found, path_is_absolute, base_of, has_extension, native, resolve_explicit, split_entry,
  unquoted, in_directory, try_entry, path_loop, resolve_on_path, first_resolved, is_bare,
  resolve_exe,
}
use kuu.Launch.Entries.{entries, rejoin, Rejoined}
use kuu.Launch.Quotes.{AreSeparate}
use kuu.Launch.Search.{IsConverting, FoundIn, resolve_exe-FoundIn}
use kuu.Launch.Block.{System, cstr_less_than, cstr_equal}
use mathlib.Core.List.Permᴰ
use kuu.Launch.Handles.{prior_duplicate, add_handle, duplicate_all}

abbrev win : Win32
win = record {
  alloc = λ n. true;
  utf8_to_wide = λ s. some s;
  wide_to_utf8 = λ s. some s;
  full_size = λ s. length s + 1;
  full_path = λ s n. (length s, s);
  same_start = λ a b n. equal (take n a) (take n b);
}

-- One file, and two directories in PATH, the first in quotes.
abbrev host : Host
host = record {
  win = win;
  attributes = λ text. if equal text (codes "\\\\?\\D:\\t\\x.com") then some false else none;
  path = some (codes "\"C:\\a;b\";D:\\t");
}

resolve_exe_test : resolve_exe host (codes "x") ≡ found (codes "D:\\t\\x.com")
unfolding resolve_exe resolve_explicit resolve_on_path path_loop try_entry in_directory unquoted
    split_entry first_resolved is_bare has_extension base_of native contains equal wpath_make
    is_drive_relative is_device is_alpha unit_at make_wide is_extended normalise has_bad_component
    ends_badly last_unit finish_path strip_trailing is_drive_root add_prefix wpath_show show_skip
    show_tail
resolve_exe_test = refl

converting : IsConverting host
converting units text e p =
    let same : units ≡ text = ground (arith, e) in subst (λ s. 0 < length s) same p

resolve_exe-FoundIn_example :
    Any (FoundIn host (codes "x") (codes "D:\\t\\x.com")) (entries 13 (codes "\"C:\\a;b\";D:\\t"))
    × Rejoined (codes "\"C:\\a;b\";D:\\t") (rejoin (entries 13 (codes "\"C:\\a;b\";D:\\t")))
    × AreSeparate (entries 13 (codes "\"C:\\a;b\";D:\\t"))
unfolding is_bare contains
resolve_exe-FoundIn_example =
    resolve_exe-FoundIn host converting (codes "x") (codes "D:\\t\\x.com") (codes "x")
      (codes "\"C:\\a;b\";D:\\t") refl refl refl resolve_exe_test

path_is_absolute_test :
    (path_is_absolute (codes "C:\\a") ≡ true)
    × (path_is_absolute (codes "//s/x") ≡ true)
    × (path_is_absolute (codes "a\\b") ≡ false)
unfolding path_is_absolute unit_at is_alpha
path_is_absolute_test = (refl, refl, refl)

abbrev two_strings : List (List ℕ)
two_strings = codes "A=1" ∷ codes "B=2" ∷ []

-- Two variables of this process; every name is before each other one, so that any order is sorted.
abbrev sys : System
sys = record {
  alloc = λ n. true;
  utf8_to_wide = λ s. if contains s 0 then none else some s;
  inherited = some two_strings;
  compare = λ a b. if equal a b then cstr_equal else cstr_less_than;
  qsort = λ f items. items;
}

-- Two handles that are one are duplicated once.
duplicate_all_test :
    duplicate_all (λ h. some (h + 100)) (record { pairs = []; inherit = [] }) (1 ∷ 2 ∷ 2 ∷ [])
    ≡ some (record { pairs = (1, 101) ∷ (2, 102) ∷ (2, 102) ∷ []; inherit = 101 ∷ 102 ∷ [] })
unfolding duplicate_all add_handle prior_duplicate
duplicate_all_test = refl
