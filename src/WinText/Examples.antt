-- ===== src/WinText/Examples.antt =====
-- Tests of src/wintext.c, and the cut of a message at one of them.
use kuu.Prelude.{◌≡◌, refl, true, false, [], ◌∷◌, some, none, codes, length}
use kuu.Prelude.Results.{done}
use kuu.Text.Wide.{Windows}
use kuu.WinText.{utf8_to_wide, wide_to_utf8, unit_at, ends_message, cut_message, error_message}

-- ASCII alone.
abbrev win : Windows
win = record {
  alloc = λ n. true;
  ansi_page = 1252;
  oem_page = 437;
  wide_size = λ page bytes. done (length bytes);
  wide_convert = λ page bytes n. some bytes;
  bytes_size = λ page units. done (length units, false);
  bytes_convert = λ page units n. some (units, false);
}

error_message_test :
    (error_message win (λ e. some (codes "Denied.\r\n")) (λ n. []) 5 ≡ some (codes "Denied"))
    × (error_message win (λ e. none) (λ n. codes "5") 5 ≡ some (codes "Windows error 5"))
    × (utf8_to_wide win (codes "a") ≡ some (97 ∷ 0 ∷ []))
unfolding error_message cut_message ends_message unit_at wide_to_utf8 utf8_to_wide
error_message_test = (refl, refl, refl)
