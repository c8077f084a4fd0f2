-- ===== src/Cmdline/Shell/Result.antt =====
-- What `ku_make_batch_cmdline` returns.
use kuu.Prelude.{
  ℕ, ◌<◌, Bool, true, false, ◌||◌, some, List, [], ◌∷◌, ◌++◌, ◌≡◌, ◌≢◌, refl, ◌⊎◌, inl, inr, arith,
  length, length-append, append_assoc, Bytes, contains,
}
use kuu.Cmdline.Buffer.{size_max, Sb, sb_init, sb_puts, sb_putc}
use kuu.Cmdline.Writes.{Writes, Writes-append, sb_putc-Writes, sb_puts-Writes}
use kuu.Cmdline.Batch.{
  ok, batch_prefix, put_script, batch_line, make_batch_cmdline, has_cr_or_lf, ends_in_backslash,
}
use kuu.Cmdline.Shell.{any_newline, neutralized, payload, batch_text}
use kuu.Cmdline.Shell.Text.{Prints, Prints-Writes, append_neutralized-Writes, batch_args-Prints}

module _ (alloc : ℕ → Bool) where
  put_script-Writes :
      (script : Bytes) (b : Sb)
      → Writes alloc
          (batch_prefix ++ b'"' ∷ (neutralized script ++ b'"' ∷ []))
          b
          (put_script alloc script b)
  unfolding put_script
  put_script-Writes script b =
      let prefix = sb_puts alloc b batch_prefix in
      let opened = sb_putc alloc prefix b'"' in
      Writes-append alloc (sb_puts-Writes alloc b batch_prefix) (
        Writes-append alloc (sb_putc-Writes alloc prefix b'"') (
          Writes-append alloc (append_neutralized-Writes alloc script opened)
            (sb_putc-Writes alloc _ b'"')))

  -- From an empty buffer: the line if no argument has a line break, and no line otherwise.
  batch_line-cases :
      (script : Bytes) (args : List Bytes) (b : Sb)
      → (any_newline args ≡ false)
          × Prints alloc
              (batch_prefix ++ payload script args)
              b
              (batch_line alloc script args (some b))
        ⊎ (any_newline args ≡ true) × ((t : Bytes) → batch_line alloc script args (some b) ≢ ok t)
  unfolding batch_line payload
  batch_line-cases script args b = elim (batch_args-Prints alloc args (put_script alloc script b)) [
    | inl (clear, p) ↦ inl (
      clear,
      rw (append_assoc (neutralized script)) at
          (Prints-Writes alloc (put_script-Writes script b) p),
    )
    | inr broken ↦ inr broken
  ]

  -- A script path without quotes, line breaks and last backslash, and arguments without line breaks,
  -- give a line if the allocator grants all and the line is shorter than SIZE_MAX bytes.
  pub make_batch_cmdline_granted :
      (script : Bytes) (args : List Bytes)
      → ((n : ℕ) → alloc n ≡ true)
      → (contains script b'"' || ends_in_backslash script) ≡ false
      → has_cr_or_lf script ≡ false
      → any_newline args ≡ false
      → length (batch_text script args) < size_max
      → make_batch_cmdline alloc script args ≡ ok (batch_text script args)
  unfolding make_batch_cmdline sb_init
  make_batch_cmdline_granted script args g q n h len =
      let b : Sb = record { text = []; cap = 64; failed = false } in
      elim (batch_line-cases script args b) [
        | inl (_, p) ↦
            rw (q, n, g 64)
              (p.granted g refl (omega (arith, length-append (payload script args) (b'"' ∷ []))))
        | inr (broken, _) ↦ absurd (cc)
      ]
