-- ===== src/Cmdline/Convention/RoundTrip.antt =====
-- Command lines read by the convention.
use kuu.Prelude.{
  ◌<◌, map, length, ℕ, Bool, true, false, some, List, [], ◌∷◌, ◌++◌, ◌≡◌, refl, ap, ◌∙◌,
  append_assoc, Bytes,
}
use kuu.Cmdline.Convention.{Reader, finish, read, split_cmdline, escaped, cmdline_text}
use kuu.Cmdline.Buffer.{size_max}
use kuu.Cmdline.Escape.{make_cmdline}
use kuu.Cmdline.Convention.Refinement.{make_cmdline-Yields}
use kuu.Cmdline.Convention.Reading.{read-append, IsBehind, read-escaped}

-- Behind an argument, the rest of the line gives the other arguments.
read_rest :
    (args : List Bytes) (done : List Bytes) (s : Bytes) (r : Reader)
    → IsBehind done s r
    → finish (read r (cmdline_text true args)) ≡ done ++ s ∷ args
unfolding cmdline_text read
read_rest [] done s r h = unfold read in h.ended
read_rest (t ∷ args) done s r h =
    ap (λ q. finish (read q (escaped t ++ cmdline_text true args))) h.next
    ∙ ap finish (read-append _ (escaped t) _)
    ∙ read_rest args (done ++ s ∷ []) t _ (read-escaped t _)
    ∙ append_assoc done (s ∷ []) (t ∷ args)

pub split_cmdline-cmdline_text :
    (args : List Bytes) → split_cmdline (cmdline_text false args) ≡ args
unfolding split_cmdline cmdline_text
split_cmdline-cmdline_text [] = unfold read in refl
split_cmdline-cmdline_text (s ∷ args) =
    ap finish (read-append _ (escaped s) _) ∙ read_rest args [] s _ (read-escaped s [])

-- A command line that `ku_make_cmdline` returns is split into exactly the given arguments, whatever
-- bytes they hold.
pub split_cmdline-make_cmdline :
    (alloc : ℕ → Bool) (args : List Bytes) (line : Bytes)
    → make_cmdline alloc (map some args) ≡ some line
    → split_cmdline line ≡ args
split_cmdline-make_cmdline alloc args line e =
    ap split_cmdline ((make_cmdline-Yields alloc args).exact line e)
    ∙ split_cmdline-cmdline_text args

-- If the allocator grants every request and the escaped line is shorter than SIZE_MAX bytes,
-- `ku_make_cmdline` returns that line.
pub make_cmdline_granted :
    (alloc : ℕ → Bool) (args : List Bytes)
    → ((n : ℕ) → alloc n ≡ true)
    → length (cmdline_text false args) < size_max
    → make_cmdline alloc (map some args) ≡ some (cmdline_text false args)
make_cmdline_granted alloc args = (make_cmdline-Yields alloc args).granted
