-- ===== src/Re/Slices.antt =====
-- Slices of a subject, put together.
use kuu.Prelude.{ℕ, zero, suc, ◌-◌, ◌≤◌, ◌≡◌, refl, ap, [], ◌∷◌, ◌++◌, Bytes, take, length, arith}
use kuu.Re.{slice}

abbrev no_bytes : Bytes
no_bytes = []

minus_zero : (b : ℕ) → b - 0 ≡ b
minus_zero b = omega arith

minus_suc : (a b : ℕ) → suc b - suc a ≡ b - a
minus_suc a b = omega arith

take_none : (n : ℕ) → take n no_bytes ≡ []
take_none zero = refl
take_none (suc n) = refl

pub take_all : (s : Bytes) (n : ℕ) → length s ≤ n → take n s ≡ s
take_all [] n p = take_none n
take_all (x ∷ s) zero p = absurd (omega (arith, p))
take_all (x ∷ s) (suc n) p = ap (λ rest. x ∷ rest) (take_all s n (omega (arith, p)))

take-slice : (s : Bytes) (a b : ℕ) → a ≤ b → take a s ++ slice s a b ≡ take b s
unfolding slice
take-slice s zero b p = rw (minus_zero b) refl
take-slice [] (suc a) b p = rw (take_none (b - suc a), take_none b) refl
take-slice (x ∷ s) (suc a) zero p = absurd (omega (arith, p))
take-slice (x ∷ s) (suc a) (suc b) p =
    rw (minus_suc a b) (ap (λ rest. x ∷ rest) (take-slice s a b (omega (arith, p))))

-- A subject up to `a`, then from there to `b`.
pub extend : (s t : Bytes) (a b : ℕ) → a ≤ b → t ≡ take a s → t ++ slice s a b ≡ take b s
extend s t a b p e = rw e (take-slice s a b p)

-- A subject up to `a`, then all that is left.
pub complete : (s t : Bytes) (a : ℕ) → a ≤ length s → t ≡ take a s → t ++ slice s a (length s) ≡ s
complete s t a p e = rw (extend s t a (length s) p e, take_all s (length s) (omega arith)) refl
