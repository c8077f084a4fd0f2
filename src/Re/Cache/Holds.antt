-- ===== src/Re/Cache/Holds.antt =====
-- What the table of compiled patterns of src/re.c holds.
use kuu.Prelude.{
  ◌≤◌, ◌<◌, ◌≡◌, refl, sym, ap, ◌∙◌, false, [], ◌∷◌, ◌++◌, Option, some, none, leb, ◌==◌, Bytes,
  equal, equal_iff, length, arith, All, by_if,
}
use kuu.Prelude.Results.{Result, failed, done}
use kuu.Re.{Pattern, ReError}
use kuu.Re.Cache.{Compiler, Cache, cache_max, compile_new, get, key_of, make_room, cached}

-- Flags as a C string has them.
abbrev pub HasNoNul : Bytes → Type 0
HasNoNul flags = All (λ c. (c == 0) ≡ false) flags

-- The regex is what the compiler makes of every pattern and flags that have the key.
abbrev pub IsCompiled : Compiler → Bytes × Pattern → Type 0
IsCompiled compile (key, r) =
    (pattern flags : Bytes)
    → HasNoNul flags
    → key_of pattern flags ≡ key
    → compile_new compile pattern flags ≡ done r

-- A table that holds no more than it may, and only what the compiler makes.
abbrev pub IsSound : Compiler → Cache → Type 0
IsSound compile cache = (length cache ≤ cache_max) × All (IsCompiled compile) cache

keys_differ :
    (flags others pattern other : Bytes)
    → HasNoNul flags
    → HasNoNul others
    → flags ++ 0 ∷ pattern ≡ others ++ 0 ∷ other
    → (flags ≡ others) × (pattern ≡ other)
keys_differ [] [] pattern other p q e = ground (arith, e)
keys_differ [] (c ∷ others) pattern other p q e = absurd (ground (arith, q.0, e))
keys_differ (c ∷ flags) [] pattern other p q e = absurd (ground (arith, p.0, e))
keys_differ (c ∷ flags) (d ∷ others) pattern other p q e =
    let (a, b) = keys_differ flags others pattern other p.1 q.1 (ground (arith, e)) in
    (ground (arith, a, e), b)

module _ (compile : Compiler) where
  get-IsCompiled :
      (cache : Cache) (pattern flags : Bytes) (r : Pattern)
      → All (IsCompiled compile) cache
      → HasNoNul flags
      → get cache (key_of pattern flags) ≡ some r
      → compile_new compile pattern flags ≡ done r
  unfolding get
  get-IsCompiled [] pattern flags r all p e = absurd (ground (arith, e))
  get-IsCompiled ((known, q) ∷ cache) pattern flags r (here, rest) p e =
      by_if (λ o. o ≡ some r → compile_new compile pattern flags ≡ done r)
        (equal known (key_of pattern flags)) _ _
        (λ same f.
          let found : q ≡ r = ground (arith, f) in
          here pattern flags p (sym ((equal_iff known (key_of pattern flags)).0 same))
          ∙ ap (λ x. done x) found)
        (λ other f. get-IsCompiled cache pattern flags r rest p f) e

  make_room-IsSound :
      (cache : Cache)
      → IsSound compile cache
      → (length (make_room cache) < cache_max) × All (IsCompiled compile) (make_room cache)
  unfolding make_room
  make_room-IsSound cache (fits, all) =
      by_if (λ c. (length c < cache_max) × All (IsCompiled compile) c)
        (leb cache_max (length cache)) _ _ (λ full. (omega arith, tt)) (λ room. (ground arith, all))

  new-IsCompiled :
      (pattern flags : Bytes) (r : Pattern)
      → HasNoNul flags
      → compile_new compile pattern flags ≡ done r
      → IsCompiled compile (key_of pattern flags, r)
  unfolding key_of
  new-IsCompiled pattern flags r p e other others q same =
      let (a, b) = keys_differ others flags other pattern q p same in rw (a, b) e

  -- What a call gives and leaves.
  abbrev pub Answered : Bytes → Bytes → Result ReError Pattern × Cache → Type 0
  Answered pattern flags (o, after) =
      (o ≡ compile_new compile pattern flags) × IsSound compile after

  new-Answered :
      (cache : Cache) (pattern flags : Bytes) (o : Result ReError Pattern)
      → IsSound compile cache
      → HasNoNul flags
      → compile_new compile pattern flags ≡ o
      → Answered pattern flags (elim o [
        | failed e ↦ (failed e, make_room cache)
        | done r ↦ (done r, (key_of pattern flags, r) ∷ make_room cache)
      ])
  new-Answered cache pattern flags (failed x) sound p e =
      let (room, all) = make_room-IsSound cache sound in (sym e, (omega (arith, room), all))
  new-Answered cache pattern flags (done r) sound p e =
      let (room, all) = make_room-IsSound cache sound in
      (sym e, (omega (arith, room), (new-IsCompiled pattern flags r p e, all)))

  get-Answered :
      (cache : Cache) (pattern flags : Bytes) (found : Option Pattern)
      → IsSound compile cache
      → HasNoNul flags
      → get cache (key_of pattern flags) ≡ found
      → Answered pattern flags (elim found [
        | some r ↦ (done r, cache)
        | none ↦ elim (compile_new compile pattern flags) [
          | failed e ↦ (failed e, make_room cache)
          | done r ↦ (done r, (key_of pattern flags, r) ∷ make_room cache)
        ]
      ])
  get-Answered cache pattern flags (some r) sound p e =
      (sym (get-IsCompiled cache pattern flags r sound.1 p e), sound)
  get-Answered cache pattern flags none sound p e =
      new-Answered cache pattern flags (compile_new compile pattern flags) sound p refl

-- cached gives what compiling the pattern with the flags gives, whatever a sound table holds, and
-- leaves a sound table: no more than 128 entries, each what its pattern and flags compile to.
pub cached_lem :
    (compile : Compiler) (cache : Cache) (pattern flags : Bytes)
    → IsSound compile cache
    → HasNoNul flags
    → Answered compile pattern flags (cached compile cache pattern flags)
unfolding cached
cached_lem compile cache pattern flags sound p =
    get-Answered compile cache pattern flags (get cache (key_of pattern flags)) sound p refl
