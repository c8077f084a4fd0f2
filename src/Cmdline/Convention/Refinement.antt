-- ===== src/Cmdline/Convention/Refinement.antt =====
-- The buffer code of src/cmdline.c writes the text that the convention's specification gives.
use kuu.Prelude.{
  ℕ, zero, suc, ◌+◌, ◌<◌, ◌≤◌, Bool, true, false, not, ◌&&◌, ◌||◌, Option, none, some, List, [],
  ◌∷◌, ◌++◌, ◌==◌, ◌≡◌, refl, ap, ◌∙◌, inl, inr, arith, length, length-append, append-nil,
  append_assoc, Bytes, Bool-cases, ==_iff, map,
}
use kuu.Cmdline.Buffer.{size_max, Sb, sb_init, sb_puts, sb_putc, xstrdup}
use kuu.Cmdline.Writes.{Writes, Writes-nil, Writes-append, sb_putc-Writes, sb_puts-Writes}
use kuu.Cmdline.Escape.{
  scan_arg, put_slashes, escape_byte, escape_loop, close_arg, take_text, escape_into, escape_arg,
  join_args, make_cmdline,
}
use kuu.Cmdline.Convention.{
  backslashes, piece, next_slashes, escaped_from, trailing, has_blank, escaped, cmdline_text,
}

-- The first loop of `ku_escape_arg` finds the blanks, and counts up from `growth`.
scan_arg-has_blank :
    (h : Bool) (g : ℕ) (s : Bytes)
    → ((scan_arg h g s).0 ≡ (h || has_blank s)) × (g ≤ (scan_arg h g s).1)
unfolding scan_arg has_blank
scan_arg-has_blank true g [] = (refl, omega arith)
scan_arg-has_blank false g [] = (refl, omega arith)
scan_arg-has_blank h g (c ∷ s) = ground (
  arith,
  scan_arg-has_blank h g s,
  scan_arg-has_blank h (g + 1) s,
  scan_arg-has_blank (h || (c == b' ' || c == b'\t')) g s,
)

-- With no growth there is nothing to escape.
escaped_from_plain : (h : Bool) (s : Bytes) → (scan_arg h 0 s).1 ≡ 0 → escaped_from 0 s ≡ s
unfolding scan_arg escaped_from piece next_slashes
escaped_from_plain h [] e = refl
escaped_from_plain h (c ∷ s) e =
    ground (arith, scan_arg-has_blank h 1 s, escaped_from_plain (h || (c == b' ' || c == b'\t')) s)

-- Without blanks and without growth, the argument stands for itself.
escaped_same :
    (c : ℕ) (s : Bytes)
    → ((scan_arg false 0 (c ∷ s)).1 == 0 && not (scan_arg false 0 (c ∷ s)).0) ≡ true
    → escaped (c ∷ s) ≡ c ∷ s
unfolding escaped
escaped_same c s e =
    ground (arith, scan_arg-has_blank false 0 (c ∷ s), escaped_from_plain false (c ∷ s))

module _ (alloc : ℕ → Bool) where
  pub put_slashes-Writes : (n : ℕ) (b : Sb) → Writes alloc (backslashes n) b (put_slashes alloc n b)
  unfolding put_slashes
  put_slashes-Writes zero b = Writes-nil alloc b
  put_slashes-Writes (suc n) b =
      Writes-append alloc (sb_putc-Writes alloc b b'\\')
        (put_slashes-Writes n (sb_putc alloc b b'\\'))

  escape_byte-Writes :
      (b : Sb) (n c : ℕ)
      → Writes alloc (piece n c) b (escape_byte alloc b n c).0
        × ((escape_byte alloc b n c).1 ≡ next_slashes n c)
  unfolding escape_byte piece next_slashes
  escape_byte-Writes b n c = elim (Bool-cases (c == b'\\')) [
    | inl e ↦ rw e (rw ((==_iff c b'\\').0 e) (sb_putc-Writes alloc b b'\\'), refl)
    | inr e ↦ elim (Bool-cases (c == b'"')) [
      | inl q ↦
          let run = put_slashes-Writes n b in
          let escape = sb_putc-Writes alloc (put_slashes alloc n b) b'\\' in
          let both =
            Writes-append alloc (Writes-append alloc run escape) (sb_putc-Writes alloc _ b'"') in
          rw (e, q) (rw (append_assoc (backslashes n)) at both, refl)
      | inr q ↦ rw (e, q) (sb_putc-Writes alloc b c, refl)
    ]
  ]

  escape_loop-Writes :
      (s : Bytes) (b : Sb) (n : ℕ)
      → Writes alloc (escaped_from n s) b (escape_loop alloc (b, n) s).0
        × ((escape_loop alloc (b, n) s).1 ≡ trailing n s)
  unfolding escape_loop escaped_from trailing
  escape_loop-Writes [] b n = (Writes-nil alloc b, refl)
  escape_loop-Writes (c ∷ s) b n =
      let (head, count) = escape_byte-Writes b n c in
      let (tail, last) =
        escape_loop-Writes s (escape_byte alloc b n c).0 (escape_byte alloc b n c).1 in
      rw (← count) (Writes-append alloc head tail, last)

  close_arg-Writes :
      (b : Sb) (n : ℕ) → Writes alloc (backslashes n ++ b'"' ∷ []) b (close_arg alloc true (b, n))
  unfolding close_arg
  close_arg-Writes b n = Writes-append alloc (put_slashes-Writes n b) (sb_putc-Writes alloc _ b'"')

  -- An allocation may fail, which gives `none`; otherwise the text is `w`, and it is so if the
  -- allocator grants all.
  pub record Yields (w : Bytes) (o : Option Bytes) : Type 0 where
    pub exact : (t : Bytes) → o ≡ some t → t ≡ w
    pub granted : ((n : ℕ) → alloc n ≡ true) → length w < size_max → o ≡ some w

  take_text-Yields :
      (w : Bytes) (b b' : Sb)
      → b.text ≡ []
      → b.failed ≡ false
      → Writes alloc w b b'
      → Yields w (take_text b')
  unfolding take_text
  take_text-Yields w b b' empty ok v = record {
    exact = λ t e. ground (arith, ap (λ s. s ++ w) empty);
    granted = λ g h.
        let f = v.granted g ok (rw empty (omega arith)) in
        rw f (ap some ((v.exact f).1 ∙ ap (λ s. s ++ w) empty));
  }

  xstrdup-Yields : (s : Bytes) → Yields s (xstrdup alloc s)
  unfolding xstrdup
  xstrdup-Yields s = record { exact = λ t e. ground arith; granted = λ g h. rw (g (length s + 1)) }

  -- The second loop between its quotes.
  quoted-Writes :
      (s : Bytes) (b : Sb)
      → Writes alloc
          (b'"' ∷ (escaped_from 0 s ++ (backslashes (trailing 0 s) ++ b'"' ∷ [])))
          b
          (close_arg alloc true (escape_loop alloc (sb_putc alloc b b'"', 0) s))
  quoted-Writes s b =
      let opened = sb_putc alloc b b'"' in
      let (body, count) = escape_loop-Writes s opened 0 in
      let closed =
        close_arg-Writes (escape_loop alloc (opened, 0) s).0 (escape_loop alloc (opened, 0) s).1 in
      rw (← count)
        (Writes-append alloc (sb_putc-Writes alloc b b'"') (Writes-append alloc body closed))

  escape_into-Yields :
      (c : ℕ) (s : Bytes) (b : Sb)
      → b.text ≡ []
      → b.failed ≡ false
      → Yields (escaped (c ∷ s)) (escape_into alloc (has_blank (c ∷ s)) (c ∷ s) (some b))
  unfolding escape_into escaped
  escape_into-Yields c s b empty ok = elim (Bool-cases (has_blank (c ∷ s))) [
    | inl e ↦ rw e (take_text-Yields _ b _ empty ok (quoted-Writes (c ∷ s) b))
    | inr e ↦
        rw e
          (take_text-Yields _ b _ empty ok (unfold close_arg in (escape_loop-Writes (c ∷ s) b 0).0))
  ]

  -- Whatever starts from `sb_init` inherits what it yields from an empty buffer.
  sb_init-Yields :
      (w : Bytes) (k : Option Sb → Option Bytes)
      → k none ≡ none
      → ((b : Sb) → b.text ≡ [] → b.failed ≡ false → Yields w (k (some b)))
      → Yields w (k (sb_init alloc))
  unfolding sb_init
  sb_init-Yields w k fails run = elim (Bool-cases (alloc 64)) [
    | inl e ↦ rw e (run _ refl refl)
    | inr e ↦ rw (e, fails) (record { exact = λ t h. cc; granted = λ g h. absurd (cc (g 64)) })
  ]

  -- `ku_escape_arg` yields the escaped argument.
  pub escape_arg-Yields : (s : Bytes) → Yields (escaped s) (escape_arg alloc (some s))
  unfolding escape_arg
  escape_arg-Yields [] = unfold escaped in xstrdup-Yields (b'"' ∷ b'"' ∷ [])
  escape_arg-Yields (c ∷ s) =
      let some_byte : (length (c ∷ s) == 0) ≡ false = ground arith in
      let blank = (scan_arg-has_blank false 0 (c ∷ s)).0 in
      let full =
        sb_init-Yields _ (escape_into alloc (has_blank (c ∷ s)) (c ∷ s))
          (unfold escape_into in refl) (escape_into-Yields c s) in
      elim (Bool-cases ((scan_arg false 0 (c ∷ s)).1 == 0 && not (scan_arg false 0 (c ∷ s)).0)) [
        | inl e ↦ rw (some_byte, e, escaped_same c s e) (xstrdup-Yields (c ∷ s))
        | inr e ↦ rw (some_byte, e, blank) full
      ]

  -- The same for a result that starts from the buffer `b`.
  record Continues (w : Bytes) (b : Sb) (o : Option Bytes) : Type 0 where
    exact : (t : Bytes) → o ≡ some t → (b.failed ≡ false) × (t ≡ b.text ++ w)
    granted :
        ((n : ℕ) → alloc n ≡ true)
        → b.failed ≡ false
        → length b.text + length w < size_max
        → o ≡ some (b.text ++ w)

  take_text-Continues : (b : Sb) → Continues [] b (take_text b)
  unfolding take_text
  take_text-Continues b = record {
    exact = λ t e. rw append-nil (ground arith);
    granted = λ g e h. rw (e, append-nil);
  }

  Continues-Writes :
      {u v : Bytes} {b c : Sb} {o : Option Bytes}
      → Writes alloc u b c
      → Continues v c o
      → Continues (u ++ v) b o
  Continues-Writes {u} {v} {b} {c} {o} p q = record {
    exact = λ t e.
        let (ok, is) = q.exact t e in
        let (before, text) = p.exact ok in (before, is ∙ rw text (append_assoc b.text u v));
    granted = λ g e h.
        let ok = p.granted g e (omega (arith, length-append u v)) in
        let text = (p.exact ok).1 in
        q.granted g ok (rw text (omega (arith, length-append u v, length-append b.text u)))
        ∙ ap some (rw text (append_assoc b.text u v));
  }

  -- An argument that cannot be escaped ends the command line.
  Continues-Yields :
      {u w : Bytes} {b : Sb} {o : Option Bytes} (k : Bytes → Option Bytes)
      → Yields u o
      → length u ≤ length w
      → Continues w b (k u)
      → Continues w b (elim o [ none ↦ none | some e ↦ k e ])
  Continues-Yields {o = none} k y le c = record {
    exact = λ t e. cc;
    granted = λ g e h. absurd (cc (y.granted g (omega arith)));
  }
  Continues-Yields {w} {b} {o = some e} k y le c = rw (y.exact e refl) c

  -- The loop of `ku_make_cmdline` writes the other arguments.
  join_args-Continues :
      (args : List Bytes) (later : Bool) (b : Sb)
      → Continues (cmdline_text later args) b (join_args alloc later b (map some args))
  unfolding join_args cmdline_text
  join_args-Continues [] later b = take_text-Continues b
  join_args-Continues (s ∷ args) true b =
      let spaced = sb_putc alloc b b' ' in
      let rest = join_args-Continues args true (sb_puts alloc spaced (escaped s)) in
      let arg = Continues-Writes (sb_puts-Writes alloc spaced (escaped s)) rest in
      Continues-Yields (λ e. join_args alloc true (sb_puts alloc spaced e) (map some args))
        (escape_arg-Yields s) (omega (arith, length-append (escaped s) (cmdline_text true args)))
        (Continues-Writes (sb_putc-Writes alloc b b' ') arg)
  join_args-Continues (s ∷ args) false b =
      let rest = join_args-Continues args true (sb_puts alloc b (escaped s)) in
      Continues-Yields (λ e. join_args alloc true (sb_puts alloc b e) (map some args))
        (escape_arg-Yields s) (omega (arith, length-append (escaped s) (cmdline_text true args)))
        (Continues-Writes (sb_puts-Writes alloc b (escaped s)) rest)

  -- `ku_make_cmdline` yields the text of the command line.
  pub make_cmdline-Yields :
      (args : List Bytes) → Yields (cmdline_text false args) (make_cmdline alloc (map some args))
  unfolding make_cmdline
  make_cmdline-Yields args =
      sb_init-Yields (cmdline_text false args)
        (λ o. elim o [ none ↦ none | some b ↦ join_args alloc false b (map some args) ]) refl
        (λ b empty ok.
          let run = join_args-Continues args false b in
          record {
            exact = λ t e. (run.exact t e).1 ∙ rw empty;
            granted = λ g h. run.granted g ok (rw empty (omega arith)) ∙ rw empty;
          })
