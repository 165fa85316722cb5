-- ===== src/DaoCoin/Tests/Orders.antt =====
-- The order book: an order that prints, one that is dropped, and one that makes the request panic.
use deso_backend.Base.{
  ℕ, ◌^◌, ◌≡◌, refl, List, [], ◌∷◌, ◌++◌, map, Bytes, codes, bytes_eq, ok, panic, arith,
  if◌then◌else◌, replicate, All,
}
use deso_backend.Core.{OrderEntry}
use deso_backend.DaoCoin.Types.{
  is_deso, order_operation_type_to_string, get_deso_to_dao_coin_base_units_scaling_factor,
}
use deso_backend.DaoCoin.Rates.{
  calculate_price_string_from_scaled_exchange_rate, scaled_price, unscale_exchange_rate,
}
use deso_backend.DaoCoin.Quantities.{
  calculate_string_quantity_from_base_units, calculate_float_from_scaled_exchange_rate,
  calculate_float_quantity_from_base_units, calculate_scaled_uint256_as_float, scaled_decimal_text,
  is_coin_to_fill_deso,
}
use deso_backend.DaoCoin.Book.{
  build_order_response, append_response, OrderResponse, GetDaoCoinLimitOrdersRequest,
  build_responses_for_coin_pair, get_dao_coin_limit_orders, requested_coin_pkid,
  get_pkid_from_public_key_base58_check, get_pub_key_bytes_from_base58_check,
}
use deso_backend.DaoCoin.Book.Responses.{
  successes, has_panic, response_of, build_responses-eq-successes, low_ask_panics,
}
use deso_backend.DaoCoin.Book.Whole.{IsWholeBook}
use deso_backend.DaoCoin.Book.Pairs.{IsFromBook, get_dao_coin_limit_orders-IsFromBook}
use deso_backend.DaoCoin.Tests.Model.{core, print_number, print_fuel}

abbrev deso : Bytes
deso = codes "DESO"

abbrev coin : Bytes
coin = replicate 33 1

abbrev order_at : ℕ → ℕ → ℕ → OrderEntry
order_at operation_type rate quantity = record {
  order_id = codes "order";
  transactor_pkid = coin;
  buying_dao_coin_creator_pkid = replicate 33 0;
  selling_dao_coin_creator_pkid = coin;
  scaled_exchange_rate = rate;
  quantity_to_fill_in_base_units = quantity;
  operation_type = operation_type;
}

-- a BID that prints, a BID with nothing to fill, and an ASK at a low rate
abbrev orders : List OrderEntry
orders = order_at 2 (10 ^ 47) 5 ∷ (order_at 2 (10 ^ 47) 0 ∷ [])

abbrev low_ask : OrderEntry
low_ask = order_at 1 5 7

build_responses-eq-successes_example : build_responses_for_coin_pair core [] deso coin orders ≡ (
    if has_panic (map (response_of core [] deso coin) orders)
    then panic
    else ok (successes (map (response_of core [] deso coin) orders)))
build_responses-eq-successes_example = build_responses-eq-successes core [] deso coin orders

low_ask_panics_example :
    build_responses_for_coin_pair core [] deso coin (orders ++ low_ask ∷ []) ≡ panic
unfolding is_deso bytes_eq
low_ask_panics_example = low_ask_panics core [] deso coin orders [] low_ask refl refl (omega arith)

abbrev request : GetDaoCoinLimitOrdersRequest
request = record { dao_coin1_creator_public_key = deso; dao_coin2_creator_public_key = coin }

-- what the API returns for a BID that buys 5 nanos at a price of 1
abbrev answer : OrderResponse Bytes
answer = record {
  transactor_public_key = coin;
  buying_coin_public_key = deso;
  selling_coin_public_key = coin;
  price = codes "1.0";
  quantity = codes "0.5";
  exchange_rate_coins_to_sell_per_coin_to_buy = codes "1." ++ replicate 38 48;
  quantity_to_fill = codes "0.000000005";
  operation_type = codes "BID";
  order_id = codes "order";
}

one_answer : get_dao_coin_limit_orders core (ok request) (ok orders) ≡ ok (answer ∷ [])
unfolding get_dao_coin_limit_orders is_deso bytes_eq requested_coin_pkid
    build_responses_for_coin_pair get_pkid_from_public_key_base58_check
    get_pub_key_bytes_from_base58_check build_order_response append_response
    order_operation_type_to_string calculate_price_string_from_scaled_exchange_rate scaled_price
    unscale_exchange_rate calculate_string_quantity_from_base_units
    calculate_float_from_scaled_exchange_rate calculate_float_quantity_from_base_units
    calculate_scaled_uint256_as_float scaled_decimal_text is_coin_to_fill_deso
    get_deso_to_dao_coin_base_units_scaling_factor print_number print_fuel
one_answer = refl

get_dao_coin_limit_orders-IsFromBook_example :
    All (IsFromBook core request orders) (answer ∷ [])
    × IsWholeBook core orders request (answer ∷ [])
get_dao_coin_limit_orders-IsFromBook_example =
    get_dao_coin_limit_orders-IsFromBook core request orders one_answer
