-- ===== src/Cmdline/Batch.antt =====
-- src/cmdline.c: batch detection, and the command line by which cmd.exe runs a batch file. The
-- NULL checks of `ku_make_batch_cmdline` have no counterpart: a list is always there.
use kuu.Prelude.{
  ℕ, ◌+◌, Bool, true, false, not, ◌&&◌, ◌||◌, Option, none, some, List, [], ◌∷◌, ◌==◌, ltb, within,
  if◌then◌else◌, Bytes, codes, contains,
}
use kuu.Cmdline.Buffer.{Sb, sb_init, sb_putc, sb_puts}
use kuu.Cmdline.Escape.{put_slashes}

unfoldable pub lower : ℕ → ℕ
lower c = if within b'A' b'Z' c then c + 32 else c

unfoldable pub ci_eq : Bytes → Bytes → Bool
unfolding lower
ci_eq [] [] = true
ci_eq (a ∷ s) (b ∷ t) = lower a == lower b && ci_eq s t
ci_eq _ _ = false

-- The loop that keeps the last dot of the last path element, with what follows it.
unfoldable pub last_dot : Option Bytes → Bytes → Option Bytes
last_dot dot [] = dot
last_dot dot (c ∷ s) =
    last_dot (if c == b'/' || c == b'\\' then none else if c == b'.' then some (c ∷ s) else dot) s

unfoldable pub is_batch_target : Bytes → Bool
unfolding ci_eq last_dot
is_batch_target exe = elim (last_dot none exe) [
  | none ↦ false
  | some dot ↦ ci_eq dot (codes ".bat") || ci_eq dot (codes ".cmd")
]

abbrev pub batch_unquoted : Bytes
batch_unquoted = codes "#$*+-./:?@\\_"

unfoldable pub is_ascii_alnum : ℕ → Bool
is_ascii_alnum c = within b'0' b'9' c || within b'a' b'z' c || within b'A' b'Z' c

-- The test on one byte in the loop that sets `quote`.
unfoldable pub forces_quote : ℕ → Bool
unfolding is_ascii_alnum contains
forces_quote c =
    let calm = is_ascii_alnum c || (not (c == 0) && contains batch_unquoted c) in
    (ltb c 0x80 && not calm) || (ltb c 0x20 || c == 0x7f)

-- `arg[len - 1] == '\\'`, false for the empty argument
unfoldable pub ends_in_backslash : Bytes → Bool
ends_in_backslash [] = false
ends_in_backslash (c ∷ []) = c == b'\\'
ends_in_backslash (c ∷ d ∷ s) = ends_in_backslash (d ∷ s)

unfoldable pub any_forces_quote : Bytes → Bool
any_forces_quote [] = false
any_forces_quote (c ∷ s) = forces_quote c || any_forces_quote s

unfoldable pub needs_quote : Bytes → Bool
needs_quote [] = true
needs_quote (c ∷ s) = ends_in_backslash (c ∷ s) || any_forces_quote (c ∷ s)

unfoldable pub has_cr_or_lf : Bytes → Bool
unfolding contains
has_cr_or_lf s = contains s b'\r' || contains s b'\n'

pub data BatchError : Type 0 where
  bad_script script_newline argument_newline out_of_memory : BatchError

pub data BatchLine : Type 0 where
  ok : Bytes → BatchLine
  err : BatchError → BatchLine

abbrev pub percent_guard : Bytes
percent_guard = codes "%%cd:~,"

abbrev pub batch_prefix : Bytes
batch_prefix = codes "cmd.exe /e:ON /v:OFF /d /c \""

module _ (alloc : ℕ → Bool) where
  unfoldable pub append_neutralized : Sb → Bytes → Sb
  append_neutralized b [] = b
  append_neutralized b (c ∷ s) =
      append_neutralized (sb_putc alloc (if c == b'%' then sb_puts alloc b percent_guard else b) c)
        s

  -- One round of the loop of `append_batch_arg`, on the buffer and `backslashes`.
  unfoldable pub batch_byte : Sb → ℕ → ℕ → Sb × ℕ
  batch_byte b n c =
      if c == b'\\'
      then (sb_putc alloc b c, n + 1)
      else if c == b'"'
      then (sb_putc alloc (sb_putc alloc (put_slashes alloc n b) b'"') c, 0)
      else if c == b'%' || c == b'\r'
      then (sb_putc alloc (sb_puts alloc b percent_guard) c, 0)
      else (sb_putc alloc b c, 0)

  unfoldable pub batch_loop : Sb × ℕ → Bytes → Sb × ℕ
  batch_loop st [] = st
  batch_loop (b, n) (c ∷ s) = batch_loop (batch_byte b n c) s

  unfoldable pub close_batch_arg : Sb × ℕ → Sb
  close_batch_arg (b, n) = sb_putc alloc (put_slashes alloc n b) b'"'

  unfoldable pub append_batch_arg : Sb → Bytes → Sb
  append_batch_arg b s =
      if needs_quote s
      then close_batch_arg (batch_loop (sb_putc alloc b b'"', 0) s)
      else (batch_loop (b, 0) s).0

  -- The end of `ku_make_batch_cmdline`, from the quote that closes the payload.
  unfoldable pub finish_batch : Sb → BatchLine
  finish_batch b =
      let closed = sb_putc alloc b b'"' in
      if closed.failed then err out_of_memory else ok closed.text

  unfoldable pub batch_args : Sb → List Bytes → BatchLine
  batch_args b [] = finish_batch b
  batch_args b (s ∷ args) =
      if has_cr_or_lf s
      then err argument_newline
      else batch_args (append_batch_arg (sb_putc alloc b b' ') s) args

  -- The outer quote and the script in its own quotes.
  unfoldable pub put_script : Bytes → Sb → Sb
  put_script script b =
      let opened = sb_putc alloc (sb_puts alloc b batch_prefix) b'"' in
      sb_putc alloc (append_neutralized opened script) b'"'

  -- The part behind `sb_init`.
  unfoldable pub batch_line : Bytes → List Bytes → Option Sb → BatchLine
  batch_line script args none = err out_of_memory
  batch_line script args (some b) = batch_args (put_script script b) args

  unfoldable pub make_batch_cmdline : Bytes → List Bytes → BatchLine
  make_batch_cmdline script args =
      if contains script b'"' || ends_in_backslash script
      then err bad_script
      else if has_cr_or_lf script
      then err script_newline
      else batch_line script args (sb_init alloc)
