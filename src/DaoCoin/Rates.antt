-- ===== src/DaoCoin/Rates.antt =====
-- Prices and scaled exchange rates: `CalculateScaledExchangeRateFromPriceString` and
-- `CalculatePriceStringFromScaledExchangeRate` of routes/dao_coin_exchange.go.
pub mod Ask
pub mod Bid
pub mod Crossing
pub mod Printing
use deso_backend.Base.{
  ℕ, ◌+◌, ◌-◌, ◌*◌, Bool, Bytes, bytes_eq, Result, ok, err, ◌>>=◌, ◌>>◌, fail_if, or_fail, ◌==◌,
  if◌then◌else◌,
}
use deso_backend.Core.{Core}
use deso_backend.DaoCoin.Types.{
  Error, external, not_a_decimal, negative_decimal, price_too_small, overflow, rate_too_small,
  operation_type_string_ask, is_deso, big_div, get_deso_to_dao_coin_base_units_scaling_factor,
}

module _ (c : Core) where
  open c use {
    mul_overflow, from_big, div, one_e38, operation_type_ask, parse_float, is_negative,
    calculate_scaled_exchange_rate_from_string, format_scaled_uint256_as_decimal_string,
  }

  unfoldable pub validate_non_negative_decimal_string : Bytes → Result Error (Unit {0})
  validate_non_negative_decimal_string str = do
    float_value ← or_fail (parse_float str) (λ e. not_a_decimal)
    fail_if (is_negative float_value) negative_decimal

  -- `uint256.FromBig` and the test of its second result
  unfoldable pub to_uint256 : ℕ → Result Error ℕ
  to_uint256 rate =
      let (converted, overflows) = from_big rate in if overflows then err overflow else ok converted

  -- the branch of an ASK order: the inverse of the price, every quotient rounded up
  unfoldable pub ask_scaled_exchange_rate : Bytes → Bytes → ℕ → Result Error ℕ
  ask_scaled_exchange_rate buying_coin selling_coin raw_scaled_price = do
    let factor = get_deso_to_dao_coin_base_units_scaling_factor c
    inverse ← big_div (one_e38 * one_e38 + raw_scaled_price - 1) raw_scaled_price
    rate ←
        (if is_deso buying_coin
          then ok (inverse * factor)
          else if is_deso selling_coin
          then big_div (inverse + factor - 1) factor
          else ok inverse)
    to_uint256 rate

  -- the branch of a BID order
  unfoldable pub bid_scaled_exchange_rate : Bytes → Bytes → ℕ → Result Error ℕ
  bid_scaled_exchange_rate buying_coin selling_coin raw_scaled_price =
      let factor = get_deso_to_dao_coin_base_units_scaling_factor c in
      let (product, overflows) = mul_overflow raw_scaled_price factor in
      let quotient = div raw_scaled_price factor in
      if is_deso buying_coin
      then (if overflows then err overflow else ok product)
      else if is_deso selling_coin
      then (if quotient == 0 then err rate_too_small else ok quotient)
      else ok raw_scaled_price

  unfoldable pub calculate_scaled_exchange_rate_from_price_string :
      Bytes → Bytes → Bytes → ℕ → Result Error ℕ
  calculate_scaled_exchange_rate_from_price_string buying_coin selling_coin price operation_type =
      do
        validate_non_negative_decimal_string price
        raw_scaled_price ← or_fail (calculate_scaled_exchange_rate_from_string price) external
        fail_if (raw_scaled_price == 0) price_too_small
        if operation_type == operation_type_ask
            then ask_scaled_exchange_rate buying_coin selling_coin raw_scaled_price
            else bid_scaled_exchange_rate buying_coin selling_coin raw_scaled_price

  -- from a base unit rate to a rate between whole coins
  unfoldable pub unscale_exchange_rate : Bytes → Bytes → ℕ → Result Error ℕ
  unscale_exchange_rate buying_coin selling_coin rate =
      let factor = get_deso_to_dao_coin_base_units_scaling_factor c in
      if is_deso buying_coin
      then big_div rate factor
      else if is_deso selling_coin
      then ok (rate * factor)
      else ok rate

  -- the scaled number that `CalculatePriceStringFromScaledExchangeRate` prints
  unfoldable pub scaled_price : Bytes → Bytes → ℕ → Bytes → Result Error ℕ
  scaled_price buying_coin selling_coin rate operation_type = do
    coin_rate ← unscale_exchange_rate buying_coin selling_coin rate
    if bytes_eq operation_type operation_type_string_ask
        then big_div (one_e38 * one_e38) coin_rate
        else ok coin_rate

  unfoldable pub calculate_price_string_from_scaled_exchange_rate :
      Bytes → Bytes → ℕ → Bytes → Result Error Bytes
  calculate_price_string_from_scaled_exchange_rate buying_coin selling_coin rate operation_type = do
    price ← scaled_price buying_coin selling_coin rate operation_type
    ok (format_scaled_uint256_as_decimal_string price one_e38)
