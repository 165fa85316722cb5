-- ===== src/Base/Ceil.antt =====
-- Rounding a quotient up, as the price conversions do with integer division.
use Prim.Native.Nat.{ℕ, ◌+◌, ◌-◌, ◌*◌, ◌/◌, ◌≤◌, ◌<◌}
use mathlib.Core.Path.{◌≡◌}
use native.Mathlib.Omega.{arith}
use native.Mathlib.Nat.{mul-le-mul_right}

abbrev pub ceil_div : ℕ → ℕ → ℕ
ceil_div a b = (a + b - 1) / b

-- `q` is the quotient of `a` by `b`, rounded up.
pub record IsCeiling (q a b : ℕ) : Type 0 where
  pub covers : a ≤ q * b
  pub tight : q * b < a + b

pub ceil_div-IsCeiling : (a b : ℕ) → 0 < b → IsCeiling (ceil_div a b) a b
ceil_div-IsCeiling a b h = grind arith

pub IsCeiling-unique : (q r a b : ℕ) → IsCeiling q a b → IsCeiling r a b → q ≡ r
IsCeiling-unique q r a b h k = grind arith

pub IsCeiling-nested : (q r a b d : ℕ) → IsCeiling r a b → IsCeiling q r d → IsCeiling q a (b * d)
IsCeiling-nested q r a b d h k = record {
  covers = omega (arith, mul-le-mul_right b k.covers, h.covers);
  tight = omega (arith, mul-le-mul_right b k.tight, h.tight);
}

-- Rounding up twice is rounding up once by the product.
pub ceil_div-ceil_div : (a b d : ℕ) → 0 < b → 0 < d → ceil_div (ceil_div a b) d ≡ ceil_div a (b * d)
ceil_div-ceil_div a b d hb hd =
    IsCeiling-unique _ _ a (b * d)
      (IsCeiling-nested _ (ceil_div a b) a b d (ceil_div-IsCeiling a b hb)
        (ceil_div-IsCeiling _ d hd))
      (ceil_div-IsCeiling a (b * d) (grind arith))
