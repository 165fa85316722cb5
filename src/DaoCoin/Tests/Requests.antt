-- ===== src/DaoCoin/Tests/Requests.antt =====
-- Requests for a limit order and a market order.
use deso_backend.Base.{
  ℕ, ◌==◌, ◌*◌, ◌^◌, ◌≡◌, refl, true, false, [], ◌++◌, Bytes, codes, bytes_eq, none, some, ok,
  replicate, length,
}
use deso_backend.Fees.{FeeMaps, get_transaction_fee, transform_transaction_fees_to_outputs}
use deso_backend.Fees.Tests.{fee_lib}
use deso_backend.DaoCoin.Types.{
  is_deso, operation_type_string_ask, fill_type_string_immediate_or_cancel,
  get_deso_to_dao_coin_base_units_scaling_factor, order_operation_type_to_uint64,
  order_fill_type_to_uint64,
}
use deso_backend.DaoCoin.Rates.{
  validate_non_negative_decimal_string, to_uint256, ask_scaled_exchange_rate,
  calculate_scaled_exchange_rate_from_price_string,
}
use deso_backend.DaoCoin.Quantities.{
  is_coin_to_fill_deso, calculate_quantity_to_fill_as_base_units,
  calculate_quantity_to_fill_as_dao_coin_base_units,
}
use deso_backend.DaoCoin.Book.{
  get_pkid_from_public_key_base58_check, get_pub_key_bytes_from_base58_check,
}
use deso_backend.DaoCoin.Checks.{
  add_open_orders, new_order_selling, buying_coin_pkid, selling_balance,
  validate_transactor_selling_coin_balance, validate_dao_coin_order_transfer_restriction,
}
use deso_backend.DaoCoin.Placing.{
  OrderMetadata, OrderLib, OrderRequest, TxnResponse, scaled_rate_of_request, quantity_of_request,
  fill_type_of_request, coin_public_key, get_buying_and_selling_dao_coin_public_keys,
  get_public_key_prefix, get_pub_key_for_username_or_public_key, response_of,
}
use deso_backend.DaoCoin.Placing.Handlers.{
  create_dao_coin_limit_order_response, limit_order_metadata, create_dao_coin_limit_order,
  market_order_metadata, create_dao_coin_market_order,
}
use deso_backend.DaoCoin.Placing.Cover.{IsMadeOf}
use deso_backend.DaoCoin.Placing.Limit.{IsLimitOrder, create_limit_order_lem}
use deso_backend.DaoCoin.Placing.Market.{IsMarketOrder, create_market_order_lem}
use deso_backend.DaoCoin.Tests.Model.{core, zero_key}

abbrev coin : Bytes
coin = replicate 33 1

abbrev transactor_key : Bytes
transactor_key = codes "BC" ++ replicate 31 7

-- a transaction is its metadata
abbrev order_lib : OrderLib core
order_lib = record {
  Txn = OrderMetadata;
  is_mainnet = true;
  is_zero = λ f. length f == 0;
  is_positive = λ f. true;
  whole_part = λ f. 0;
  print_float = λ digits f. f;
  profile_key_for_username = λ view name. none;
  zero_public_key = zero_key;
  txn_type_dao_coin_limit_order = 2;
  create_limit_order_txn = λ key metadata rate outputs.
      ok (record { txn = metadata; total_input = 100; change_amount = 60; fees = 10 });
  txn_to_bytes = λ txn. ok (codes "txn");
  txn_hash_text = λ txn. codes "hash";
  hex_encode = λ bytes. bytes;
  hex_decode = ok;
  hash_size_bytes = 32;
}

abbrev no_maps : FeeMaps
no_maps = record { transaction_fee_map = λ t. none; exempt_public_key_map = λ name. false }

-- 50 base units of the coin, at 2 DESO each
abbrev ask : OrderRequest core.Float
ask = record {
  transactor = transactor_key;
  buying_coin = codes "DESO";
  selling_coin = coin;
  price = codes "2";
  quantity = codes "0.00000000000000005";
  operation_type = operation_type_string_ask;
  fill_type = fill_type_string_immediate_or_cancel;
  exchange_rate = [];
  quantity_to_fill = [];
  min_fee_rate_nanos_per_kb = 1000;
  transaction_fees = [];
}

abbrev metadata_with : ℕ → OrderMetadata
metadata_with rate = record {
  buying_coin_public_key = some zero_key;
  selling_coin_public_key = some coin;
  scaled_exchange_rate = some rate;
  quantity_to_fill_in_base_units = some 50;
  operation_type = 1;
  fill_type = 3;
  cancel_order_id = none;
}

abbrev response_with : OrderMetadata → TxnResponse OrderMetadata
response_with metadata = record {
  spend_amount_nanos = 30;
  total_input_nanos = 100;
  change_amount_nanos = 60;
  fee_nanos = 10;
  transaction = metadata;
  transaction_hex = codes "txn";
  txn_hash_hex = codes "hash";
}

limit_order_made :
    create_dao_coin_limit_order core order_lib fee_lib no_maps (ok []) (ok ask)
    ≡ ok (response_with (metadata_with (5 * 10 ^ 46)))
unfolding create_dao_coin_limit_order limit_order_metadata create_dao_coin_limit_order_response
    response_of get_pub_key_for_username_or_public_key get_public_key_prefix coin_public_key
    get_buying_and_selling_dao_coin_public_keys fill_type_of_request quantity_of_request
    scaled_rate_of_request is_deso bytes_eq order_operation_type_to_uint64 order_fill_type_to_uint64
    calculate_scaled_exchange_rate_from_price_string ask_scaled_exchange_rate to_uint256
    validate_non_negative_decimal_string get_deso_to_dao_coin_base_units_scaling_factor
    calculate_quantity_to_fill_as_base_units calculate_quantity_to_fill_as_dao_coin_base_units
    is_coin_to_fill_deso get_pkid_from_public_key_base58_check get_pub_key_bytes_from_base58_check
    add_open_orders new_order_selling buying_coin_pkid selling_balance
    validate_transactor_selling_coin_balance validate_dao_coin_order_transfer_restriction
    get_transaction_fee transform_transaction_fees_to_outputs
limit_order_made = refl

market_order_made :
    create_dao_coin_market_order core order_lib fee_lib no_maps (ok []) (ok ask)
    ≡ ok (response_with (metadata_with 0))
unfolding create_dao_coin_market_order market_order_metadata create_dao_coin_limit_order_response
    response_of get_pub_key_for_username_or_public_key get_public_key_prefix coin_public_key
    get_buying_and_selling_dao_coin_public_keys quantity_of_request is_deso bytes_eq
    order_operation_type_to_uint64 order_fill_type_to_uint64 validate_non_negative_decimal_string
    calculate_quantity_to_fill_as_base_units calculate_quantity_to_fill_as_dao_coin_base_units
    is_coin_to_fill_deso get_pub_key_bytes_from_base58_check
    validate_dao_coin_order_transfer_restriction get_transaction_fee
    transform_transaction_fees_to_outputs
market_order_made = refl

create_limit_order_lem_example :
    (metadata : OrderMetadata) × IsLimitOrder core order_lib fee_lib no_maps [] ask metadata
    × IsMadeOf core order_lib fee_lib no_maps [] ask metadata
        (response_with (metadata_with (5 * 10 ^ 46)))
create_limit_order_lem_example =
    create_limit_order_lem core order_lib fee_lib no_maps [] ask limit_order_made

create_market_order_lem_example :
    (metadata : OrderMetadata) × IsMarketOrder core order_lib fee_lib no_maps [] ask metadata
    × IsMadeOf core order_lib fee_lib no_maps [] ask metadata (response_with (metadata_with 0))
create_market_order_lem_example =
    create_market_order_lem core order_lib fee_lib no_maps [] ask market_order_made
