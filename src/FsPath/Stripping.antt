-- ===== src/FsPath/Stripping.antt =====
-- How `ku_wpath_make` of src/fspath.c takes trailing separators off.
use kuu.Prelude.{
  ℕ, zero, suc, ◌-◌, ◌≤◌, ◌<◌, ◌≡◌, ◌⊎◌, Bool, true, false, List, ltb, ◌==◌, ◌&&◌, length, inl, inr,
  arith, Bool-cases,
}
use kuu.FsPath.{unit_at, is_drive_root, strip_trailing}

-- The root of a drive, `C:\` by itself or behind the prefix, is the first `n` units.
abbrev pub IsRoot : Bool → List ℕ → ℕ → Type 0
IsRoot already full n =
    ((n ≡ 3) × (unit_at full 1 ≡ 58)) ⊎ ((already ≡ true) × (n ≡ 7) × (unit_at full 5 ≡ 58))

-- What stripping leaves: only separators are gone, the last unit is none unless what is left is a
-- drive's root or a single unit, and no drive's root was gone into.
pub record Stripped (already : Bool) (full : List ℕ) (n : ℕ) : Type 0 where
  pub bound : n ≤ length full
  pub gone : (i : ℕ) → n ≤ i → i < length full → unit_at full i ≡ 92
  pub last : 1 < n → unit_at full (n - 1) ≡ 92 → IsRoot already full n
  pub root : (i : ℕ) → n < i → i ≤ length full → ¬ IsRoot already full i

is_drive_root-IsRoot :
    (already : Bool) (full : List ℕ) (n : ℕ)
    → is_drive_root already full n ≡ true
    → IsRoot already full n
unfolding is_drive_root
is_drive_root-IsRoot already full n e = elim (Bool-cases (n == 3 && unit_at full 1 == 58)) [
  | inl here ↦ inl (ground arith, ground arith)
  | inr other ↦ inr (ground arith, ground arith, ground arith)
]

IsRoot-is_drive_root :
    (already : Bool) (full : List ℕ) (n : ℕ)
    → is_drive_root already full n ≡ false
    → ¬ IsRoot already full n
unfolding is_drive_root
IsRoot-is_drive_root already full n e (inl (p, q)) = absurd (ground (arith, p, q, e))
IsRoot-is_drive_root already full n e (inr (t, p, q)) = absurd (ground (arith, t, p, q, e))

strip_trailing-Stripped :
    (already : Bool) (full : List ℕ) (fuel n : ℕ)
    → n ≤ fuel
    → n ≤ length full
    → ((i : ℕ) → n ≤ i → i < length full → unit_at full i ≡ 92)
    → ((i : ℕ) → n < i → i ≤ length full → ¬ IsRoot already full i)
    → Stripped already full (strip_trailing already full fuel n)
unfolding strip_trailing
strip_trailing-Stripped already full zero n p q g h = record {
  bound = q;
  gone = g;
  last = λ lt e. absurd (omega arith);
  root = h;
}
strip_trailing-Stripped already full (suc fuel) n p q g h =
    elim (Bool-cases (ltb 1 n && unit_at full (n - 1) == 92)) [
      | inr stop ↦
          rw stop (record { bound = q; gone = g; last = λ lt e. absurd (ground arith); root = h })
      | inl go ↦ elim (Bool-cases (is_drive_root already full n)) [
        | inl root ↦
            rw (go, root)
              (record {
                bound = q;
                gone = g;
                last = λ lt e. is_drive_root-IsRoot already full n root;
                root = h;
              })
        | inr other ↦
            rw (go, other)
              (strip_trailing-Stripped already full fuel (n - 1) (ground arith) (omega arith)
                (λ i a b. elim (Bool-cases (i == n - 1)) [
                  | inl same ↦ let here : i ≡ n - 1 = ground arith in rw here (ground arith)
                  | inr next ↦ g i (ground arith) b
                ])
                (λ i a b. elim (Bool-cases (i == n)) [
                  | inl same ↦
                      let here : i ≡ n = ground arith in
                      rw here (IsRoot-is_drive_root already full n other)
                  | inr next ↦ h i (ground arith) b
                ]))
      ]
    ]

-- Stripping takes only separators off, leaves none at the end unless a drive's root or a single unit
-- is left, and never takes anything off a drive's root.
pub strip_trailing_lem :
    (already : Bool) (full : List ℕ)
    → Stripped already full (strip_trailing already full (length full) (length full))
strip_trailing_lem already full =
    strip_trailing-Stripped already full (length full) (length full) (omega arith) (omega arith)
      (λ i a b. absurd (omega arith)) (λ i a b. absurd (omega arith))
