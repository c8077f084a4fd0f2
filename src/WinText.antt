-- ===== src/WinText.antt =====
-- The conversions of C strings in src/wintext.c, and `ku_win_error_message`. The terminating NUL of
-- what is converted is written out, as the length -1 counts it.
mod Examples
use kuu.Prelude.{
  ℕ, zero, suc, ◌+◌, ◌*◌, ◌≤◌, ◌<◌, ◌≡◌, Bool, true, false, List, [], ◌∷◌, ◌++◌, Option, some, none,
  ◌==◌, ◌||◌, if◌then◌else◌, Bytes, codes, get_elem?, take, length,
}
use kuu.Prelude.Results.{Result, failed, done}
use kuu.Text.Wide.{Windows}

-- `ku_utf8_to_wide`: the block with its NUL.
unfoldable pub utf8_to_wide : Windows → Bytes → Option (List ℕ)
utf8_to_wide win utf8 = elim (win.wide_size 65001 (utf8 ++ (0 ∷ []))) [
  | failed error ↦ none
  | done n ↦ if win.alloc (n * 2) then win.wide_convert 65001 (utf8 ++ (0 ∷ [])) n else none
]

-- `ku_wide_to_utf8` on the units that it is given.
unfoldable pub wide_to_utf8 : Windows → List ℕ → Option Bytes
wide_to_utf8 win units = elim (win.bytes_size 65001 units) [
  | failed error ↦ none
  | done (n, used) ↦
      if win.alloc (n + 1)
      then elim (win.bytes_convert 65001 units n) [ none ↦ none | some (bytes, lost) ↦ some bytes ]
      else none
]

unfoldable pub unit_at : List ℕ → ℕ → ℕ
unit_at units i = elim (get_elem? units i) [ none ↦ 0 | some c ↦ c ]

-- \r, \n, ' ' and '.', which end a system message.
unfoldable pub ends_message : ℕ → Bool
ends_message c = c == 13 || c == 10 || c == 32 || c == 46

-- The loop on `n`.
unfoldable pub cut_message : List ℕ → ℕ → ℕ
cut_message units zero = zero
cut_message units (suc n) =
    let rest = cut_message units n in if ends_message (unit_at units n) then rest else suc n

-- `system` is what FormatMessageW gives, and `decimal` how snprintf writes a number.
unfoldable pub error_message : Windows → (ℕ → Option (List ℕ)) → (ℕ → Bytes) → ℕ → Option Bytes
error_message win system decimal error =
    let fallback = if win.alloc 48 then some (codes "Windows error " ++ decimal error) else none in
    let text : Option Bytes = elim (system error) [
      | none ↦ none
      | some wide ↦
          let n = cut_message wide (length wide) in
          if n == 0 then none else wide_to_utf8 win (take n wide)
    ] in
    elim text [ none ↦ fallback | some utf8 ↦ some utf8 ]

-- What the cut of a message to `n` units must be.
pub record Cut (units : List ℕ) (from n : ℕ) : Type 0 where
  pub inside : n ≤ from
  pub gone : (i : ℕ) → n ≤ i → i < from → ends_message (unit_at units i) ≡ true
  pub kept : (i : ℕ) → suc i ≡ n → ends_message (unit_at units i) ≡ false
