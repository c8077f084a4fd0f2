-- ===== src/Cmdline/Shell/Text.antt =====
-- The buffer code for batch files writes the text of the specification.
use kuu.Prelude.{
  ℕ, ◌+◌, ◌<◌, Bool, true, false, ◌||◌, List, [], ◌∷◌, ◌++◌, ◌==◌, ◌≡◌, ◌≢◌, refl, ap, ◌∙◌, ◌⊎◌,
  inl, inr, arith, length, length-append, append_assoc, Bytes, Bool-cases, if◌then◌else◌,
}
use kuu.Cmdline.Buffer.{size_max, Sb, sb_puts, sb_putc}
use kuu.Cmdline.Writes.{Writes, Writes-nil, Writes-append, sb_putc-Writes, sb_puts-Writes}
use kuu.Cmdline.Escape.{put_slashes}
use kuu.Cmdline.Batch.{
  BatchLine, ok, percent_guard, append_neutralized, batch_byte, batch_loop, close_batch_arg,
  append_batch_arg, finish_batch, batch_args, needs_quote, has_cr_or_lf,
}
use kuu.Cmdline.Convention.{backslashes, next_slashes, trailing}
use kuu.Cmdline.Convention.Refinement.{put_slashes-Writes}
use kuu.Cmdline.Shell.{
  any_newline, batch_piece, batch_from, batch_arg, neutralized, batch_args_text,
}

module _ (alloc : ℕ → Bool) where
  batch_byte-Writes :
      (b : Sb) (n c : ℕ)
      → Writes alloc (batch_piece n c) b (batch_byte alloc b n c).0
        × ((batch_byte alloc b n c).1 ≡ next_slashes n c)
  unfolding batch_byte batch_piece next_slashes
  batch_byte-Writes b n c = elim (Bool-cases (c == b'\\')) [
    | inl e ↦ rw e (sb_putc-Writes alloc b c, refl)
    | inr e ↦ elim (Bool-cases (c == b'"')) [
      | inl q ↦
          let run = put_slashes-Writes alloc n b in
          let extra = Writes-append alloc run (sb_putc-Writes alloc (put_slashes alloc n b) b'"') in
          let both = Writes-append alloc extra (sb_putc-Writes alloc _ c) in
          rw (e, q) (rw (append_assoc (backslashes n)) at both, refl)
      | inr q ↦ elim (Bool-cases (c == b'%' || c == b'\r')) [
        | inl p ↦
            rw (e, q, p)
              (
                Writes-append alloc (sb_puts-Writes alloc b percent_guard)
                    (sb_putc-Writes alloc _ c),
                refl,
              )
        | inr p ↦ rw (e, q, p) (sb_putc-Writes alloc b c, refl)
      ]
    ]
  ]

  batch_loop-Writes :
      (s : Bytes) (b : Sb) (n : ℕ)
      → Writes alloc (batch_from n s) b (batch_loop alloc (b, n) s).0
        × ((batch_loop alloc (b, n) s).1 ≡ trailing n s)
  unfolding batch_loop batch_from trailing
  batch_loop-Writes [] b n = (Writes-nil alloc b, refl)
  batch_loop-Writes (c ∷ s) b n =
      let (head, count) = batch_byte-Writes b n c in
      let (tail, last) =
        batch_loop-Writes s (batch_byte alloc b n c).0 (batch_byte alloc b n c).1 in
      rw (← count) (Writes-append alloc head tail, last)

  append_batch_arg-Writes :
      (b : Sb) (s : Bytes) → Writes alloc (batch_arg s) b (append_batch_arg alloc b s)
  unfolding append_batch_arg batch_arg close_batch_arg
  append_batch_arg-Writes b s = elim (Bool-cases (needs_quote s)) [
    | inl e ↦
        let opened = sb_putc alloc b b'"' in
        let (body, count) = batch_loop-Writes s opened 0 in
        let last = batch_loop alloc (opened, 0) s in
        let closed =
          Writes-append alloc (put_slashes-Writes alloc last.1 last.0)
            (sb_putc-Writes alloc _ b'"') in
        rw (e, ← count)
          (Writes-append alloc (sb_putc-Writes alloc b b'"') (Writes-append alloc body closed))
    | inr e ↦ rw e (batch_loop-Writes s b 0).0
  ]

  pub append_neutralized-Writes :
      (s : Bytes) (b : Sb) → Writes alloc (neutralized s) b (append_neutralized alloc b s)
  unfolding append_neutralized neutralized
  append_neutralized-Writes [] b = Writes-nil alloc b
  append_neutralized-Writes (c ∷ s) b = Writes-append alloc (guarded (c == b'%')) (
      Writes-append alloc (sb_putc-Writes alloc _ c) (
        append_neutralized-Writes s
          (sb_putc alloc (if c == b'%' then sb_puts alloc b percent_guard else b) c)))
    where
      guarded :
          (q : Bool)
          → Writes alloc
              (if q then percent_guard else [])
              b
              (if q then sb_puts alloc b percent_guard else b)
      guarded true = sb_puts-Writes alloc b percent_guard
      guarded false = Writes-nil alloc b

  -- A result that starts from the buffer `b` is its text with `w` and the last quote behind it, and
  -- is there if the allocator grants all.
  pub record Prints (w : Bytes) (b : Sb) (r : BatchLine) : Type 0 where
    pub exact : (t : Bytes) → r ≡ ok t → (b.failed ≡ false) × (t ≡ b.text ++ (w ++ b'"' ∷ []))
    pub granted :
        ((n : ℕ) → alloc n ≡ true)
        → b.failed ≡ false
        → length b.text + length w + 1 < size_max
        → r ≡ ok (b.text ++ (w ++ b'"' ∷ []))

  finish_batch-Prints : (b : Sb) → Prints [] b (finish_batch alloc b)
  unfolding finish_batch
  finish_batch-Prints b =
      let v = sb_putc-Writes alloc b b'"' in
      record {
        exact = λ t e. ground (arith, v.exact);
        granted = λ g e h.
            let ok_closed = v.granted g e (omega arith) in
            rw ok_closed (ap ok (v.exact ok_closed).1);
      }

  pub Prints-Writes :
      {u v : Bytes} {b c : Sb} {r : BatchLine}
      → Writes alloc u b c
      → Prints v c r
      → Prints (u ++ v) b r
  Prints-Writes {u} {v} {b} {c} {r} p q = record {
    exact = λ t e.
        let (fine, is) = q.exact t e in
        let (before, text) = p.exact fine in (before, is ∙ rw text (simp append_assoc));
    granted = λ g e h.
        let fine = p.granted g e (omega (arith, length-append u v)) in
        let text = (p.exact fine).1 in
        q.granted g fine (rw text (omega (arith, length-append u v, length-append b.text u)))
        ∙ ap ok (rw text (simp append_assoc));
  }

  -- The loop over the arguments stops at one with a line break.
  pub batch_args-Prints :
      (args : List Bytes) (b : Sb)
      → (any_newline args ≡ false) × Prints (batch_args_text args) b (batch_args alloc b args)
        ⊎ (any_newline args ≡ true) × ((t : Bytes) → batch_args alloc b args ≢ ok t)
  unfolding batch_args batch_args_text any_newline
  batch_args-Prints [] b = inl (refl, finish_batch-Prints b)
  batch_args-Prints (s ∷ args) b = elim (Bool-cases (has_cr_or_lf s)) [
    | inl e ↦ rw e (inr (refl, λ t. cc))
    | inr e ↦
        let spaced = sb_putc alloc b b' ' in
        let arg = append_batch_arg-Writes spaced s in
        elim (batch_args-Prints args (append_batch_arg alloc spaced s)) [
          | inl (clear, rest) ↦
              rw e
                (inl (clear, Prints-Writes (sb_putc-Writes alloc b b' ') (Prints-Writes arg rest)))
          | inr (broken, stops) ↦ rw e (inr (broken, stops))
        ]
  ]
