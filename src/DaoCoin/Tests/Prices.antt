-- ===== src/DaoCoin/Tests/Prices.antt =====
-- Prices: an order for DESO paid with a coin, at 2 and at a third.
use deso_backend.Base.{
  ℕ, ◌+◌, ◌*◌, ◌^◌, ◌≤◌, ◌<◌, ◌≡◌, refl, ◌⊎◌, Bytes, codes, bytes_eq, ok, err, arith, replicate,
}
use deso_backend.DaoCoin.Types.{
  rate_too_small, is_deso, operation_type_string_ask, operation_type_string_bid,
  get_deso_to_dao_coin_base_units_scaling_factor,
}
use deso_backend.DaoCoin.Rates.{
  ask_scaled_exchange_rate, bid_scaled_exchange_rate,
  calculate_scaled_exchange_rate_from_price_string,
  calculate_price_string_from_scaled_exchange_rate, validate_non_negative_decimal_string,
  to_uint256,
}
use deso_backend.DaoCoin.Rates.Ask.{ask_scaled_exchange_rate_lem}
use deso_backend.DaoCoin.Rates.Bid.{bid_scaled_exchange_rate_lem}
use deso_backend.DaoCoin.Rates.Crossing.{same_price_crosses, same_price_misses}
use deso_backend.DaoCoin.Rates.Printing.{ask_round_trip, bid_round_trip}
use deso_backend.DaoCoin.Tests.Model.{core}

abbrev deso : Bytes
deso = codes "DESO"

abbrev coin : Bytes
coin = replicate 33 1

abbrev third : Bytes
third = codes "0.33333333333333333333333333333333333333"

ask_scaled_exchange_rate_lem_example :
    ask_scaled_exchange_rate core deso coin (2 * 10 ^ 38) ≡ ok (5 * 10 ^ 46)
unfolding is_deso bytes_eq
ask_scaled_exchange_rate_lem_example =
    ask_scaled_exchange_rate_lem core deso coin (2 * 10 ^ 38) (omega arith)

bid_scaled_exchange_rate_lem_example :
    bid_scaled_exchange_rate core coin deso 999999999 ≡ err rate_too_small
unfolding is_deso bytes_eq
bid_scaled_exchange_rate_lem_example = bid_scaled_exchange_rate_lem core coin deso 999999999

two_ask :
    calculate_scaled_exchange_rate_from_price_string core deso coin (codes "2") 1 ≡ ok (5 * 10 ^ 46)
unfolding calculate_scaled_exchange_rate_from_price_string validate_non_negative_decimal_string
    ask_scaled_exchange_rate is_deso bytes_eq to_uint256
    get_deso_to_dao_coin_base_units_scaling_factor
two_ask = refl

two_bid :
    calculate_scaled_exchange_rate_from_price_string core coin deso (codes "2") 2 ≡ ok (2 * 10 ^ 29)
unfolding calculate_scaled_exchange_rate_from_price_string validate_non_negative_decimal_string
    bid_scaled_exchange_rate is_deso bytes_eq to_uint256
    get_deso_to_dao_coin_base_units_scaling_factor
two_bid = refl

third_ask :
    calculate_scaled_exchange_rate_from_price_string core deso coin third 1
    ≡ ok (300000000000000000000000000000000000004 * 10 ^ 9)
unfolding calculate_scaled_exchange_rate_from_price_string validate_non_negative_decimal_string
    ask_scaled_exchange_rate is_deso bytes_eq to_uint256
    get_deso_to_dao_coin_base_units_scaling_factor
third_ask = refl

third_bid :
    calculate_scaled_exchange_rate_from_price_string core coin deso third 2
    ≡ ok 33333333333333333333333333333
unfolding calculate_scaled_exchange_rate_from_price_string validate_non_negative_decimal_string
    bid_scaled_exchange_rate is_deso bytes_eq to_uint256
    get_deso_to_dao_coin_base_units_scaling_factor
third_bid = refl

same_price_crosses_example : 10 ^ 76 ≤ 5 * 10 ^ 46 * (2 * 10 ^ 29)
same_price_crosses_example =
    same_price_crosses core deso coin (codes "2") {raw = 2 * 10 ^ 38} refl two_ask two_bid
      (λ h k. refl)

same_price_misses_example :
    300000000000000000000000000000000000004 * 10 ^ 9 * 33333333333333333333333333333 < 10 ^ 76
unfolding is_deso bytes_eq
same_price_misses_example =
    same_price_misses core deso coin third {raw = 33333333333333333333333333333333333333} refl
      third_ask third_bid refl refl (omega arith) (omega arith)

abbrev low_rate : ℕ
low_rate = 5

bid_round_trip_example :
    calculate_price_string_from_scaled_exchange_rate core coin deso 33333333333333333333333333333
      operation_type_string_bid
    ≡ ok (
        core.format_scaled_uint256_as_decimal_string
          (33333333333333333333333333333 * 10 ^ 9)
          (10 ^ 38))
unfolding is_deso bytes_eq
bid_round_trip_example =
    bid_round_trip core coin deso third {raw = 33333333333333333333333333333333333333} refl
      third_bid

ask_round_trip_example :
    (printed : ℕ) × (calculate_price_string_from_scaled_exchange_rate core deso coin
        (300000000000000000000000000000000000004 * 10 ^ 9)
        operation_type_string_ask
      ≡ ok (core.format_scaled_uint256_as_decimal_string printed core.one_e38))
    × (printed ≤ 33333333333333333333333333333333333333)
    × ((33333333333333333333333333333333333333 ≤ printed + 10 ^ 9)
        ⊎ (10 ^ 38 < 33333333333333333333333333333333333333))
ask_round_trip_example =
    ask_round_trip core deso coin third {raw = 33333333333333333333333333333333333333} refl
      third_ask
