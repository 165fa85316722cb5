-- ===== src/DaoCoin/Quantities.antt =====
-- Order quantities between decimal strings and base units, and the deprecated float fields
-- (routes/dao_coin_exchange.go).
pub mod Units
use deso_backend.Base.{
  ℕ, ◌+◌, ◌-◌, ◌/◌, ◌%◌, Bool, ◌&&◌, ◌||◌, Bytes, codes, bytes_eq, ◌∷◌, [], ◌++◌, Result, ok, err,
  panic, ◌>>=◌, ◌>>◌, fail_if, or_fail, ltb, ◌==◌, if◌then◌else◌, replicate,
}
use deso_backend.Core.{Core}
use deso_backend.DaoCoin.Types.{
  Error, external, zero_quantity, quantity_too_small, is_deso, big_div, operation_type_string_ask,
  operation_type_string_bid,
}
use deso_backend.DaoCoin.Rates.{unscale_exchange_rate, validate_non_negative_decimal_string}

unfoldable pub is_coin_to_fill_deso : Bytes → Bytes → Bytes → Bool
is_coin_to_fill_deso buying_coin selling_coin operation_type =
    (is_deso buying_coin && bytes_eq operation_type operation_type_string_bid)
    || (is_deso selling_coin && bytes_eq operation_type operation_type_string_ask)

module _ (c : Core) where
  open c use {
    Float, parse_float, get_num_digits, print_big, nanos_per_unit, base_units_per_coin, one_e38,
    format_scaled_uint256_as_decimal_string, scale_float_format_string_to_uint256,
  }

  unfoldable pub get_scaling_factor_for_coin : Bytes → ℕ
  get_scaling_factor_for_coin coin = if is_deso coin then nanos_per_unit else base_units_per_coin

  -- the decimal text that is parsed; `strings.Repeat` panics on a negative count
  unfoldable pub scaled_decimal_text : ℕ → ℕ → Result Error Bytes
  scaled_decimal_text v scaling_factor = do
    whole_number ← big_div v scaling_factor
    let decimal_part = v % scaling_factor
    let digits = get_num_digits scaling_factor
    let used = get_num_digits decimal_part + 1
    if ltb digits used
        then panic
        else ok (
            print_big whole_number
            ++ (b'.' ∷ (replicate (digits - used) b'0' ++ print_big decimal_part)))

  unfoldable pub calculate_scaled_uint256_as_float : ℕ → ℕ → Result Error Float
  calculate_scaled_uint256_as_float v scaling_factor = do
    str ← scaled_decimal_text v scaling_factor
    or_fail (parse_float str) external

  unfoldable pub calculate_float_from_scaled_exchange_rate : Bytes → Bytes → ℕ → Result Error Float
  calculate_float_from_scaled_exchange_rate buying_coin selling_coin scaled_value = do
    value ← unscale_exchange_rate c buying_coin selling_coin scaled_value
    calculate_scaled_uint256_as_float value one_e38

  unfoldable pub calculate_string_quantity_from_base_units :
      Bytes → Bytes → Bytes → ℕ → Result Error Bytes
  calculate_string_quantity_from_base_units buying_coin selling_coin operation_type quantity = do
    fail_if (quantity == 0) zero_quantity
    if is_coin_to_fill_deso buying_coin selling_coin operation_type
        then ok (format_scaled_uint256_as_decimal_string quantity nanos_per_unit)
        else ok (format_scaled_uint256_as_decimal_string quantity base_units_per_coin)

  unfoldable pub calculate_float_quantity_from_base_units :
      Bytes → Bytes → Bytes → ℕ → Result Error Float
  calculate_float_quantity_from_base_units buying_coin selling_coin operation_type quantity = do
    fail_if (quantity == 0) zero_quantity
    if is_coin_to_fill_deso buying_coin selling_coin operation_type
        then calculate_scaled_uint256_as_float quantity nanos_per_unit
        else calculate_scaled_uint256_as_float quantity base_units_per_coin

  unfoldable pub calculate_quantity_to_fill_as_dao_coin_base_units : Bytes → Result Error ℕ
  calculate_quantity_to_fill_as_dao_coin_base_units quantity_to_fill = do
    scaled ←
        or_fail (scale_float_format_string_to_uint256 quantity_to_fill base_units_per_coin) external
    fail_if (scaled == 0) quantity_too_small
    ok scaled

  unfoldable pub calculate_quantity_to_fill_as_deso_nanos : Bytes → Result Error ℕ
  calculate_quantity_to_fill_as_deso_nanos quantity_to_fill = do
    scaled ← or_fail (scale_float_format_string_to_uint256 quantity_to_fill nanos_per_unit) external
    fail_if (scaled == 0) quantity_too_small
    ok scaled

  unfoldable pub calculate_quantity_to_fill_as_base_units :
      Bytes → Bytes → Bytes → Bytes → Result Error ℕ
  calculate_quantity_to_fill_as_base_units buying_coin selling_coin operation_type
        quantity_to_fill =
      do
        validate_non_negative_decimal_string c quantity_to_fill
        if is_coin_to_fill_deso buying_coin selling_coin operation_type
            then calculate_quantity_to_fill_as_deso_nanos quantity_to_fill
            else calculate_quantity_to_fill_as_dao_coin_base_units quantity_to_fill
