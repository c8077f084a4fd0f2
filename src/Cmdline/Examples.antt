-- ===== src/Cmdline/Examples.antt =====
-- Tests of src/cmdline.c, and the theorems on its command lines at concrete inputs.
use kuu.Prelude.{
  ℕ, ◌≡◌, refl, Bool, true, false, none, some, List, [], ◌∷◌, map, arith, Bytes, codes,
}
use kuu.Cmdline.Buffer.{Sb, grow_cap, sb_init, sb_ensure, sb_puts, sb_putc, xstrdup, put}
use kuu.Cmdline.Writes.{IsSized, sb_puts-IsSized}
use kuu.Cmdline.Escape.{
  scan_arg, put_slashes, escape_byte, escape_loop, close_arg, take_text, escape_into, escape_arg,
  join_args, make_cmdline,
}
use kuu.Cmdline.Batch.{
  is_batch_target, forces_quote, ends_in_backslash, any_forces_quote, needs_quote, has_cr_or_lf,
  append_neutralized, batch_byte, batch_loop, close_batch_arg, append_batch_arg, ok, finish_batch,
  batch_args, batch_line, put_script, make_batch_cmdline,
}
use kuu.Cmdline.Convention.{
  step, read, split_cmdline, piece, next_slashes, escaped_from, trailing, has_blank, escaped,
  cmdline_text,
}
use kuu.Cmdline.Convention.RoundTrip.{split_cmdline-make_cmdline, make_cmdline_granted}
use kuu.Cmdline.Shell.{
  any_newline, scan_quotes, is_inert, batch_piece, batch_from, batch_arg, neutralized,
  batch_args_text, payload, batch_text,
}
use kuu.Cmdline.Shell.Result.{make_batch_cmdline_granted}

-- An allocator that grants all, and one that grants only the first block.
abbrev grants : ℕ → Bool
grants n = true

abbrev two_args : List Bytes
two_args = codes "a b" ∷ codes "c\"d\\" ∷ []

buffer_code : Unit {0}
unfolding grow_cap sb_init sb_ensure sb_puts sb_putc xstrdup put scan_arg put_slashes escape_byte
    escape_loop close_arg take_text escape_into escape_arg join_args make_cmdline
buffer_code = tt

spec_code : Unit {0}
unfolding step read split_cmdline piece next_slashes escaped_from trailing has_blank escaped
    cmdline_text scan_quotes is_inert batch_piece batch_from batch_arg neutralized batch_args_text
    payload forces_quote ends_in_backslash any_forces_quote needs_quote has_cr_or_lf any_newline
spec_code = tt

batch_code : Unit {0}
unfolding buffer_code spec_code append_neutralized batch_byte batch_loop close_batch_arg
    append_batch_arg finish_batch batch_args batch_line put_script make_batch_cmdline
batch_code = tt

escapes :
    (make_cmdline grants (map some two_args) ≡ some (codes "\"a b\" c\\\"d\\"))
    × (make_cmdline grants (some (codes "x\\ \\") ∷ []) ≡ some (codes "\"x\\ \\\\\""))
    × (make_cmdline grants (some [] ∷ none ∷ []) ≡ none)
unfolding buffer_code
escapes = (refl, refl, refl)

targets :
    (is_batch_target (codes "c:/x.d/run.Bat") ≡ true)
    × (is_batch_target (codes "c:/x.cmd/run") ≡ false)
unfolding is_batch_target
targets = (refl, refl)

split_cmdline-make_cmdline_example : split_cmdline (codes "\"a b\" c\\\"d\\") ≡ two_args
split_cmdline-make_cmdline_example =
    split_cmdline-make_cmdline grants two_args (codes "\"a b\" c\\\"d\\") (escapes.0)

make_cmdline_granted_example :
    make_cmdline grants (map some two_args) ≡ some (cmdline_text false two_args)
unfolding spec_code
make_cmdline_granted_example = make_cmdline_granted grants two_args (λ n. refl) (omega arith)

make_batch_cmdline_granted_example :
    make_batch_cmdline grants (codes "a.cmd") (codes "b&c" ∷ [])
    ≡ ok (batch_text (codes "a.cmd") (codes "b&c" ∷ []))
unfolding spec_code
make_batch_cmdline_granted_example =
    make_batch_cmdline_granted grants (codes "a.cmd") (codes "b&c" ∷ []) (λ n. refl) refl refl refl
      (omega arith)

abbrev fresh : Sb
fresh = record { text = []; cap = 64; failed = false }

sb_puts-IsSized_example : IsSized (sb_puts grants fresh (codes "cmd"))
sb_puts-IsSized_example =
    sb_puts-IsSized grants fresh (codes "cmd")
      (record { started = omega arith; room = omega arith; bounded = omega arith })
