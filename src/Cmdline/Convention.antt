-- ===== src/Cmdline/Convention.antt =====
-- The convention that src/cmdline.c names, by which a Windows program splits its command line:
-- the specification of `ku_escape_arg` and `ku_make_cmdline`. Every argument is read by the same
-- rule here, the program's name too.
mod Reading
pub mod Refinement
pub mod RoundTrip
use kuu.Prelude.{
  ℕ, zero, suc, ◌+◌, ◌/◌, ◌%◌, Bool, true, false, ◌||◌, Option, none, some, List, [], ◌∷◌, ◌++◌,
  ◌==◌, if◌then◌else◌, replicate, Bytes,
}

-- `closing`: right behind a quote that ends a quoted part, if no second quote follows.
pub data Mode : Type 0 where
  outside inside closing : Mode

-- `word` is the argument begun, without its last `slashes` backslashes.
pub record Reader : Type 0 where
  pub mode : Mode
  pub slashes : ℕ
  pub word : Option Bytes
  pub done : List Bytes

abbrev pub backslashes : ℕ → Bytes
backslashes n = replicate n b'\\'

abbrev pub begun : Option Bytes → Bytes
begun none = []
begun (some w) = w

-- The arguments read when the line ends.
abbrev pub finish : Reader → List Bytes
finish r = elim r.word [ none ↦ r.done | some w ↦ r.done ++ (w ++ backslashes r.slashes) ∷ [] ]

abbrev pub between : List Bytes → Reader
between done = record { mode = outside; slashes = 0; word = none; done = done }

-- A quote behind 2n backslashes stands for n of them and delimits; behind 2n + 1, it is a quote.
abbrev quote : Reader → Mode → Reader
quote r other =
    let w = begun r.word ++ backslashes (r.slashes / 2) in
    if r.slashes % 2 == 1
    then record r { slashes = 0; word = some (w ++ b'"' ∷ []) }
    else record r { slashes = 0; word = some w; mode = other }

abbrev other_byte : Reader → ℕ → Reader
other_byte r c =
    if c == b'\\'
    then record r { slashes = r.slashes + 1; word = some (begun r.word) }
    else record r { slashes = 0; word = some (begun r.word ++ backslashes r.slashes ++ c ∷ []) }

abbrev unquoted : Reader → ℕ → Reader
unquoted r c =
    if c == b' ' || c == b'\t'
    then between (finish r)
    else if c == b'"'
    then quote r inside
    else other_byte r c

step_in : Mode → Reader → ℕ → Reader
step_in outside r c = unquoted r c
step_in inside r c = if c == b'"' then quote r closing else other_byte r c
step_in closing r c =
    if c == b'"'
    then record r { word = some (begun r.word ++ c ∷ []); mode = inside }
    else unquoted (record r { mode = outside }) c

unfoldable pub step : Reader → ℕ → Reader
unfolding step_in
step r c = step_in r.mode r c

unfoldable pub read : Reader → Bytes → Reader
read r [] = r
read r (c ∷ s) = read (step r c) s

-- The arguments of a command line.
unfoldable pub split_cmdline : Bytes → List Bytes
split_cmdline line = finish (read (between []) line)

-- What `ku_escape_arg` writes for a byte behind `n` backslashes, and how many stand before the next.
unfoldable pub piece : ℕ → ℕ → Bytes
piece n c =
    if c == b'\\' then c ∷ [] else if c == b'"' then backslashes n ++ b'\\' ∷ b'"' ∷ [] else c ∷ []

unfoldable pub next_slashes : ℕ → ℕ → ℕ
next_slashes n c = if c == b'\\' then n + 1 else 0

unfoldable pub escaped_from : ℕ → Bytes → Bytes
escaped_from n [] = []
escaped_from n (c ∷ s) = piece n c ++ escaped_from (next_slashes n c) s

unfoldable pub trailing : ℕ → Bytes → ℕ
trailing n [] = n
trailing n (c ∷ s) = trailing (next_slashes n c) s

unfoldable pub has_blank : Bytes → Bool
has_blank [] = false
has_blank (c ∷ s) = (c == b' ' || c == b'\t') || has_blank s

-- The text of one escaped argument, and of a command line.
unfoldable pub escaped : Bytes → Bytes
escaped [] = b'"' ∷ b'"' ∷ []
escaped (c ∷ s) =
    let body = escaped_from 0 (c ∷ s) in
    if has_blank (c ∷ s)
    then b'"' ∷ (body ++ (backslashes (trailing 0 (c ∷ s)) ++ b'"' ∷ []))
    else body

unfoldable pub cmdline_text : Bool → List Bytes → Bytes
cmdline_text later [] = []
cmdline_text later (s ∷ args) =
    (if later then b' ' ∷ [] else []) ++ (escaped s ++ cmdline_text true args)
