-- ===== src/Cmdline/Shell.antt =====
-- How cmd.exe scans the command line that src/cmdline.c makes for a batch file: the specification of
-- `ku_make_batch_cmdline`. Quotes toggle; outside them only some bytes are inert.
mod Text
mod Safety
pub mod Result
use kuu.Prelude.{
  ℕ, zero, suc, Bool, true, false, not, ◌&&◌, ◌||◌, Option, none, some, List, [], ◌∷◌, ◌++◌, ◌==◌,
  leb, ltb, if◌then◌else◌, Bytes, contains, codes,
}
use kuu.Cmdline.Batch.{
  has_cr_or_lf, batch_unquoted, is_ascii_alnum, needs_quote, percent_guard, batch_prefix,
  batch_line,
}
use kuu.Cmdline.Convention.{backslashes, next_slashes, trailing}

-- Bytes that cmd.exe takes as they are: letters, digits, the symbols of BATCH_UNQUOTED, the space
-- between arguments, and all that is not ASCII.
unfoldable pub is_inert : ℕ → Bool
unfolding is_ascii_alnum contains
is_inert c = is_ascii_alnum c || (contains batch_unquoted c || (c == b' ' || leb 0x80 c))

-- Whether the scan stands in quotes at the end; `none` if a live byte stood outside them.
unfoldable pub scan_quotes : Bool → Bytes → Option Bool
scan_quotes q [] = some q
scan_quotes q (c ∷ s) = elim (c == b'"') [
  | true ↦ scan_quotes (not q) s
  | false ↦ elim (q || is_inert c) [ true ↦ scan_quotes q s | false ↦ none ]
]

-- What `append_batch_arg` writes.
unfoldable pub batch_piece : ℕ → ℕ → Bytes
batch_piece n c =
    if c == b'\\'
    then c ∷ []
    else if c == b'"'
    then backslashes n ++ b'"' ∷ c ∷ []
    else if c == b'%' || c == b'\r'
    then percent_guard ++ c ∷ []
    else c ∷ []

unfoldable pub batch_from : ℕ → Bytes → Bytes
batch_from n [] = []
batch_from n (c ∷ s) = batch_piece n c ++ batch_from (next_slashes n c) s

unfoldable pub batch_arg : Bytes → Bytes
batch_arg s =
    if needs_quote s
    then b'"' ∷ (batch_from 0 s ++ (backslashes (trailing 0 s) ++ b'"' ∷ []))
    else batch_from 0 s

unfoldable pub neutralized : Bytes → Bytes
neutralized [] = []
neutralized (c ∷ s) = (if c == b'%' then percent_guard else []) ++ c ∷ neutralized s

unfoldable pub batch_args_text : List Bytes → Bytes
batch_args_text [] = []
batch_args_text (s ∷ args) = b' ' ∷ (batch_arg s ++ batch_args_text args)

-- What stands between the outer quotes, which cmd.exe strips.
unfoldable pub payload : Bytes → List Bytes → Bytes
payload script args = b'"' ∷ (neutralized script ++ b'"' ∷ batch_args_text args)

abbrev pub batch_text : Bytes → List Bytes → Bytes
batch_text script args = batch_prefix ++ (payload script args ++ b'"' ∷ [])

-- Some argument has a line break.
unfoldable pub any_newline : List Bytes → Bool
any_newline [] = false
any_newline (s ∷ args) = has_cr_or_lf s || any_newline args
