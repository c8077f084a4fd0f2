-- ===== src/Cmdline/Escape.antt =====
-- src/cmdline.c: `ku_escape_arg` and `ku_make_cmdline`. A NULL argument is `none`; a failed
-- allocation makes the result `none`, which is the NULL that the functions return.
use kuu.Prelude.{
  ℕ, zero, suc, ◌+◌, Bool, true, false, not, ◌&&◌, ◌||◌, Option, none, some, List, [], ◌∷◌, ◌==◌,
  if◌then◌else◌, length, Bytes,
}
use kuu.Cmdline.Buffer.{Sb, sb_init, sb_putc, sb_puts, xstrdup}

-- The first loop: whether there is a space or tab, and how many quotes and backslashes.
unfoldable pub scan_arg : Bool → ℕ → Bytes → Bool × ℕ
scan_arg has_space growth [] = (has_space, growth)
scan_arg has_space growth (c ∷ s) =
    let special = c == b'"' || c == b'\\' in
    let blank = c == b' ' || c == b'\t' in
    scan_arg (if special then has_space else has_space || blank)
      (if special then growth + 1 else growth) s

-- `if (b.failed) { free(b.p); return NULL; } return b.p;`
unfoldable pub take_text : Sb → Option Bytes
take_text b = if b.failed then none else some b.text

module _ (alloc : ℕ → Bool) where
  -- `for (; slashes > 0; slashes--) sb_putc(&b, '\\')`
  unfoldable pub put_slashes : ℕ → Sb → Sb
  put_slashes zero b = b
  put_slashes (suc n) b = put_slashes n (sb_putc alloc b b'\\')

  -- One round of the second loop, on the buffer and `slashes`.
  unfoldable pub escape_byte : Sb → ℕ → ℕ → Sb × ℕ
  escape_byte b slashes c =
      if c == b'\\'
      then (sb_putc alloc b b'\\', slashes + 1)
      else if c == b'"'
      then (sb_putc alloc (sb_putc alloc (put_slashes slashes b) b'\\') b'"', 0)
      else (sb_putc alloc b c, 0)

  -- The count of backslashes is an int in C, and is not bounded here.
  unfoldable pub escape_loop : Sb × ℕ → Bytes → Sb × ℕ
  escape_loop st [] = st
  escape_loop (b, slashes) (c ∷ s) = escape_loop (escape_byte b slashes c) s

  unfoldable pub close_arg : Bool → Sb × ℕ → Sb
  close_arg true (b, slashes) = sb_putc alloc (put_slashes slashes b) b'"'
  close_arg false (b, slashes) = b

  -- The part of `ku_escape_arg` behind `sb_init`.
  unfoldable pub escape_into : Bool → Bytes → Option Sb → Option Bytes
  escape_into has_space s none = none
  escape_into has_space s (some b) =
      let opened = if has_space then sb_putc alloc b b'"' else b in
      take_text (close_arg has_space (escape_loop (opened, 0) s))

  unfoldable pub escape_arg : Option Bytes → Option Bytes
  escape_arg none = none
  escape_arg (some s) =
      let (has_space, growth) = scan_arg false 0 s in
      if length s == 0
      then xstrdup alloc (b'"' ∷ b'"' ∷ [])
      else if growth == 0 && not has_space
      then xstrdup alloc s
      else escape_into has_space s (sb_init alloc)

  -- The loop of `ku_make_cmdline`; the flag is `i > 0`.
  unfoldable pub join_args : Bool → Sb → List (Option Bytes) → Option Bytes
  join_args later b [] = take_text b
  join_args later b (arg ∷ args) =
      let spaced = if later then sb_putc alloc b b' ' else b in
      elim (escape_arg arg) [ none ↦ none | some e ↦ join_args true (sb_puts alloc spaced e) args ]

  unfoldable pub make_cmdline : List (Option Bytes) → Option Bytes
  make_cmdline args = elim (sb_init alloc) [ none ↦ none | some b ↦ join_args false b args ]
