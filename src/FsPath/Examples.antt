-- ===== src/FsPath/Examples.antt =====
-- Tests of src/fspath.c, and the theorems on its paths at concrete inputs.
use kuu.Prelude.{◌+◌, ◌≡◌, refl, true, false, ◌∷◌, map, some, codes, length, equal, take}
use kuu.Prelude.Results.{failed, done}
use kuu.FsPath.{
  Win32, is_alpha, unit_at, is_drive_relative, is_device, is_extended, last_unit, ends_badly,
  has_bad_component, is_drive_root, strip_trailing, add_prefix, finish_path, normalise, make_wide,
  wpath_make, wpath_join, forward, wpath_show, fs_code, access, os_error, drive_relative,
  device_path, rewritten_component,
}
use kuu.FsPath.Stripping.{Stripped, strip_trailing_lem}
use kuu.FsPath.Extended.{Made, wpath_make-Made, wpath_show-add_prefix, wpath_show-unc}

-- ASCII paths that are full already.
abbrev win : Win32
win = record {
  alloc = λ n. true;
  utf8_to_wide = λ s. some s;
  wide_to_utf8 = λ s. some s;
  full_size = λ s. length s + 1;
  full_path = λ s n. (length s, s);
  same_start = λ a b n. equal (take n a) (take n b);
}

wpath_make_test :
    (wpath_make win (codes "C:\\a\\")
      ≡ done (record { text = codes "\\\\?\\C:\\a"; size = 8; unc = false }))
    × (wpath_make win (codes "C:\\")
        ≡ done (record { text = codes "\\\\?\\C:\\"; size = 7; unc = false }))
    × (wpath_make win (codes "\\\\s\\x")
        ≡ done (record { text = codes "\\\\?\\UNC\\s\\x"; size = 11; unc = true }))
    × (wpath_make win (codes "C:a") ≡ failed drive_relative)
    × (wpath_make win (codes "//./pipe") ≡ failed device_path)
    × (wpath_make win (codes "C:\\a.\\b") ≡ failed rewritten_component)
unfolding wpath_make is_drive_relative is_device is_alpha unit_at make_wide is_extended normalise
    has_bad_component ends_badly last_unit equal finish_path strip_trailing is_drive_root add_prefix
wpath_make_test = (refl, refl, refl, refl, refl, refl)

-- The bare prefix loses its last separator.
wpath_make_bare_test :
    wpath_make win (codes "\\\\?\\") ≡ done (record { text = codes "\\\\?"; size = 3; unc = false })
unfolding wpath_make is_drive_relative is_device is_alpha unit_at make_wide is_extended finish_path
    strip_trailing is_drive_root add_prefix equal
wpath_make_bare_test = refl

wpath_join_test :
    (wpath_join win (codes "C:\\") (codes "a") ≡ some (codes "C:\\a"))
    × (wpath_join win (codes "C:\\a") (codes "b") ≡ some (codes "C:\\a\\b"))
    × (fs_code 32 ≡ access)
    × (fs_code 6 ≡ os_error)
unfolding wpath_join unit_at fs_code
wpath_join_test = (refl, refl, refl, refl)

strip_trailing_lem_example :
    Stripped false (codes "C:\\a\\") (strip_trailing false (codes "C:\\a\\") 5 5)
strip_trailing_lem_example = strip_trailing_lem false (codes "C:\\a\\")

wpath_make-Made_example : Made win (codes "C:\\a\\") (wpath_make win (codes "C:\\a\\"))
wpath_make-Made_example = wpath_make-Made win (codes "C:\\a\\")

wpath_show-add_prefix_example :
    (add_prefix win false (codes "C:\\a")
      ≡ done (record { text = codes "\\\\?\\C:\\a"; size = 8; unc = false }))
    × (wpath_show win (codes "\\\\?\\C:\\a") false ≡ some (map forward (codes "C:\\a")))
wpath_show-add_prefix_example =
    wpath_show-add_prefix win (codes "C:\\a") (codes "C:\\a") refl (unfold unit_at in refl)
      (unfold equal in refl) refl

wpath_show-unc_example :
    (add_prefix win false (codes "\\\\s\\x")
      ≡ done (record { text = codes "\\\\?\\UNC\\s\\x"; size = 11; unc = true }))
    × (wpath_show win (codes "\\\\?\\UNC\\s\\x") true ≡ some (47 ∷ 47 ∷ map forward (codes "s\\x")))
wpath_show-unc_example = wpath_show-unc win (codes "s\\x") (codes "s\\x") (λ n. refl) refl
