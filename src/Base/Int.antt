-- ===== src/Base/Int.antt =====
-- Signed integers: a Go `int` that a request may make negative.
use Prim.Native.Nat.{ℕ}
use mathlib.Core.Path.{◌≡◌, refl}
use mathlib.Core.Logic.{◌⊎◌, inl, inr}

-- `negsuc n` is -(n + 1)
pub data ℤ : Type 0 where
  pos negsuc : ℕ → ℤ

pub ℤ-cases : (z : ℤ) → ((m : ℕ) × (z ≡ pos m)) ⊎ ((m : ℕ) × (z ≡ negsuc m))
ℤ-cases (pos m) = inl (m, refl)
ℤ-cases (negsuc m) = inr (m, refl)
