-- ===== src/Re/Functions.antt =====
-- The functions of the module `re` of src/re.c that take a pattern: each gets the regex from the table
-- of compiled ones. The methods of a regex are the operations themselves.
use kuu.Prelude.{ℕ, List, Option, some, Bytes}
use kuu.Prelude.Int.{ℤ}
use kuu.Prelude.Results.{Result, failed, done}
use kuu.Re.{Pattern, ReError, Exec, find, match_, exec}
use kuu.Re.Cache.{Compiler, Cache, cached}
use kuu.Re.Scan.{Scan, start}
use kuu.Re.Replace.{Replacement, gsub}
use kuu.Re.Split.{split}

-- An operation on the regex, or the error of compiling it, and the table behind it.
unfoldable pub with_pattern {ℓ} :
    {A : Type ℓ} → (ReError → A) → (Pattern → A) → Result ReError Pattern × Cache → A × Cache
with_pattern raise use_ (failed e, cache) = (raise e, cache)
with_pattern raise use_ (done r, cache) = (use_ r, cache)

unfoldable pub re_find :
    Compiler
    → Cache
    → Bytes
    → Bytes
    → ℤ
    → Bytes
    → Result ReError (Option (ℕ × ℕ × List (Option Bytes))) × Cache
re_find compile cache s pattern init flags =
    with_pattern (λ e. failed e) (λ r. find r s init) (cached compile cache pattern flags)

unfoldable pub re_match :
    Compiler
    → Cache
    → Bytes
    → Bytes
    → ℤ
    → Bytes
    → Result ReError (Option (List (Option Bytes))) × Cache
re_match compile cache s pattern init flags =
    with_pattern (λ e. failed e) (λ r. match_ r s init) (cached compile cache pattern flags)

unfoldable pub re_exec :
    Compiler → Cache → Bytes → Bytes → ℤ → Bytes → Result ReError (Option Exec) × Cache
re_exec compile cache s pattern init flags =
    with_pattern (λ e. failed e) (λ r. exec r s init) (cached compile cache pattern flags)

-- The closure of `gmatch_impl`: the subject and the regex, with the scan that it begins with.
unfoldable pub re_gmatch :
    Compiler → Cache → Bytes → Bytes → Bytes → Result ReError (Bytes × Pattern × Scan) × Cache
re_gmatch compile cache s pattern flags =
    with_pattern (λ e. failed e) (λ r. done (s, r, start)) (cached compile cache pattern flags)

unfoldable pub re_gsub :
    Compiler
    → Cache
    → Bytes
    → Bytes
    → Replacement
    → ℤ
    → Bytes
    → Option (Result ReError (Bytes × ℕ)) × Cache
re_gsub compile cache s pattern repl max flags =
    with_pattern (λ e. some (failed e)) (λ r. gsub r s repl max)
      (cached compile cache pattern flags)

unfoldable pub re_split :
    Compiler → Cache → Bytes → Bytes → Bytes → Option (Result ReError (List Bytes)) × Cache
re_split compile cache s pattern flags =
    with_pattern (λ e. some (failed e)) (λ r. split r s) (cached compile cache pattern flags)
