-- ===== src/Cmdline/Shell/Safety.antt =====
-- Nothing in the payload that cmd.exe would act on stands outside quotes.
use kuu.Prelude.{
  ℕ, zero, suc, Bool, true, false, not, ◌&&◌, ◌||◌, some, List, [], ◌∷◌, ◌++◌, ◌==◌, leb, ◌≡◌, refl,
  ◌∙◌, inl, inr, arith, Bytes, contains, Bool-cases, holds_below, holds_below-at,
}
use kuu.Cmdline.Batch.{forces_quote, any_forces_quote, needs_quote}
use kuu.Cmdline.Convention.{backslashes, next_slashes, trailing}
use kuu.Cmdline.Shell.{
  is_inert, scan_quotes, batch_piece, batch_from, batch_arg, neutralized, batch_args_text, payload,
}

scan_quotes-append :
    (q r : Bool) (a b : Bytes) → scan_quotes q a ≡ some r → scan_quotes q (a ++ b) ≡ scan_quotes r b
unfolding scan_quotes
scan_quotes-append q r [] b h = ground arith
scan_quotes-append q r (c ∷ a) b h =
    ground (arith, scan_quotes-append q r a b, scan_quotes-append (not q) r a b)

-- In quotes, a run of backslashes, and any byte but a quote, changes nothing.
scan-backslashes : (n : ℕ) → scan_quotes true (backslashes n) ≡ some true
unfolding scan_quotes
scan-backslashes zero = refl
scan-backslashes (suc n) = scan-backslashes n

scan-batch_piece : (n c : ℕ) → scan_quotes true (batch_piece n c) ≡ some true
unfolding batch_piece
scan-batch_piece n c =
    unfold scan_quotes in
    ground (arith, scan_quotes-append true true (backslashes n) (b'"' ∷ c ∷ []), scan-backslashes n)

scan-batch_from : (s : Bytes) (n : ℕ) → scan_quotes true (batch_from n s) ≡ some true
unfolding batch_from
scan-batch_from [] n = unfold scan_quotes in refl
scan-batch_from (c ∷ s) n =
    scan_quotes-append true true (batch_piece n c) _ (scan-batch_piece n c)
    ∙ scan-batch_from s (next_slashes n c)

-- Checked for each ASCII byte.
abbrev is_plain : ℕ → Bool
is_plain c =
    forces_quote c || (is_inert c && (not (c == b'"') && (not (c == b'%') && not (c == b'\r'))))

plain_table : holds_below is_plain 128 ≡ true
unfolding holds_below forces_quote is_inert
plain_table = refl

plain_high : (c : ℕ) → leb 128 c ≡ true → is_plain c ≡ true
unfolding is_inert
plain_high c h = ground arith

-- A byte that does not force quotes is inert and is written as it stands.
plain_byte :
    (n c : ℕ)
    → forces_quote c ≡ false
    → (batch_piece n c ≡ c ∷ []) × (is_inert c ≡ true) × ((c == b'"') ≡ false)
unfolding batch_piece
plain_byte n c h = elim (Bool-cases (leb 128 c)) [
  | inl high ↦ ground (arith, plain_high c high)
  | inr low ↦ ground (arith, holds_below-at is_plain 128 plain_table c)
]

scan-inert :
    (c : ℕ) (s : Bytes)
    → (c == b'"') ≡ false
    → is_inert c ≡ true
    → scan_quotes false (c ∷ s) ≡ scan_quotes false s
unfolding scan_quotes
scan-inert c s plain inert = ground arith

scan-batch_from_plain :
    (s : Bytes) (n : ℕ)
    → any_forces_quote s ≡ false
    → scan_quotes false (batch_from n s) ≡ some false
unfolding any_forces_quote batch_from
scan-batch_from_plain [] n h = unfold scan_quotes in refl
scan-batch_from_plain (c ∷ s) n h =
    let (piece, inert, plain) = plain_byte n c (ground arith) in
    let rest = scan-batch_from_plain s (next_slashes n c) (ground arith) in
    rw piece (scan-inert c _ plain inert ∙ rest)

unquoted_arg : (s : Bytes) → needs_quote s ≡ false → any_forces_quote s ≡ false
unfolding needs_quote
unquoted_arg [] e = cc
unquoted_arg (c ∷ s) e = ground arith

-- An argument of the payload begins and ends outside quotes.
scan-batch_arg : (s : Bytes) → scan_quotes false (batch_arg s) ≡ some false
unfolding batch_arg
scan-batch_arg s = elim (Bool-cases (needs_quote s)) [
  | inl e ↦ rw e (
      unfold scan_quotes in
      scan_quotes-append true true (batch_from 0 s) _ (scan-batch_from s 0)
      ∙ scan_quotes-append true true (backslashes (trailing 0 s)) _
          (scan-backslashes (trailing 0 s)))
  | inr e ↦ rw e (scan-batch_from_plain s 0 (unquoted_arg s e))
]

scan-batch_args_text : (args : List Bytes) → scan_quotes false (batch_args_text args) ≡ some false
unfolding batch_args_text
scan-batch_args_text [] = unfold scan_quotes in refl
scan-batch_args_text (s ∷ args) =
    scan-inert b' ' _ refl (unfold is_inert in refl)
    ∙ scan_quotes-append false false (batch_arg s) _ (scan-batch_arg s)
    ∙ scan-batch_args_text args

scan-neutralized :
    (s : Bytes) → contains s b'"' ≡ false → scan_quotes true (neutralized s) ≡ some true
unfolding neutralized contains scan_quotes
scan-neutralized [] h = refl
scan-neutralized (c ∷ s) h = ground (arith, scan-neutralized s)

-- A payload whose script path has no quote begins and ends outside quotes, and exposes nothing.
pub scan-payload :
    (script : Bytes) (args : List Bytes)
    → contains script b'"' ≡ false
    → scan_quotes false (payload script args) ≡ some false
unfolding payload scan_quotes
scan-payload script args h =
    scan_quotes-append true true (neutralized script) _ (scan-neutralized script h)
    ∙ scan-batch_args_text args
