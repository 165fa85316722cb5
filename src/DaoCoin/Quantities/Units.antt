-- ===== src/DaoCoin/Quantities/Units.antt =====
-- The units in which quantities are read and printed, and the decimal text of the float fields
-- (routes/dao_coin_exchange.go).
use native.Mathlib.Nat.{one-le-pow, mod-lt}
use deso_backend.Base.{
  ℕ, ◌+◌, ◌-◌, ◌/◌, ◌%◌, ◌^◌, ◌≤◌, ◌<◌, ◌≡◌, Bytes, ◌∷◌, ◌++◌, ok, arith, if◌then◌else◌, length,
  replicate, length-append, length-replicate,
}
use deso_backend.Core.{Core}
use deso_backend.DaoCoin.Quantities.{
  is_coin_to_fill_deso, scaled_decimal_text, calculate_string_quantity_from_base_units,
  calculate_quantity_to_fill_as_dao_coin_base_units, calculate_quantity_to_fill_as_deso_nanos,
  calculate_quantity_to_fill_as_base_units,
}

module _ (c : Core) where
  -- A quantity that is accepted is positive and is its text scaled by 10^9 where the coin to fill
  -- is DESO and by 10^18 where it is a DAO coin; it is printed with the same scale.
  pub quantity_units :
      (buying selling op text : Bytes) {q : ℕ}
      → calculate_quantity_to_fill_as_base_units c buying selling op text ≡ ok q
      → let scale = (if is_coin_to_fill_deso buying selling op then 10 ^ 9 else 10 ^ 18) in
        (0 < q)
        × (c.scale_float_format_string_to_uint256 text scale ≡ ok q)
        × (calculate_string_quantity_from_base_units c buying selling op q
            ≡ ok (c.format_scaled_uint256_as_decimal_string q scale))
  unfolding calculate_quantity_to_fill_as_base_units
      calculate_quantity_to_fill_as_dao_coin_base_units calculate_quantity_to_fill_as_deso_nanos
      calculate_string_quantity_from_base_units
  quantity_units buying selling op text h =
      ground (arith, c.nanos_per_unit_lem, c.base_units_per_coin_lem)

  -- For a value that is not a whole number at the scale 10^k, the text that a float field is parsed
  -- from is the whole part, a point, and exactly k digits; the padding does not panic. The
  -- conditions say how many digits the core counts and prints.
  pub scaled_decimal_text_lem :
      (digits_below : (n k : ℕ) → 0 < k → n < 10 ^ k → c.get_num_digits n ≤ k)
      → (digits_pow : (k : ℕ) → c.get_num_digits (10 ^ k) ≡ k + 1)
      → (printed : (n : ℕ) → 0 < n → length (c.print_big n) ≡ c.get_num_digits n) → (v k : ℕ)
      → 0 < k
      → 0 < v % 10 ^ k
      → (fraction : Bytes) × (scaled_decimal_text c v (10 ^ k)
          ≡ ok (c.print_big (v / 10 ^ k) ++ (b'.' ∷ fraction)))
        × (length fraction ≡ k)
  unfolding scaled_decimal_text
  scaled_decimal_text_lem digits_below digits_pow printed v k pos part =
      let r = v % 10 ^ k in
      let used = c.get_num_digits r + 1 in
      let scale_pos : 0 < 10 ^ k = one-le-pow k 10 (omega arith) in
      let fits = digits_below r k pos (mod-lt v scale_pos) in
      (
        replicate (k + 1 - used) b'0' ++ c.print_big r,
        ground (arith, digits_pow k),
        omega (
          arith,
          length-append (replicate (k + 1 - used) b'0') (c.print_big r),
          length-replicate {A = ℕ} (k + 1 - used) b'0',
          printed r part,
        ),
      )
