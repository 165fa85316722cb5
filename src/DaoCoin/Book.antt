-- ===== src/DaoCoin/Book.antt =====
-- The order book's read endpoints (routes/dao_coin_exchange.go): `GetDAOCoinLimitOrders`,
-- `GetTransactorDAOCoinLimitOrders`, the responses they build and the best exchange rate.
pub mod Best
pub mod Coins
pub mod Whole
pub mod Responses
pub mod Pairs
use deso_backend.Base.{
  ℕ, Bool, true, false, ◌&&◌, List, [], ◌∷◌, ◌++◌, Bytes, codes, bytes_eq, Result, ok, err, panic,
  ◌>>=◌, ◌>>◌, fail_if, or_fail, ltb, ◌==◌, if◌then◌else◌, length, not, ◌||◌,
}
use deso_backend.Core.{Core, OrderEntry}
use deso_backend.DaoCoin.Types.{
  Error, external, bad_public_key, both_coins_deso, is_deso, deso_coin_identifier_string,
  order_operation_type_to_string, operation_type_string_ask,
}
use deso_backend.DaoCoin.Rates.{calculate_price_string_from_scaled_exchange_rate}
use deso_backend.DaoCoin.Quantities.{
  calculate_float_from_scaled_exchange_rate, calculate_string_quantity_from_base_units,
  calculate_float_quantity_from_base_units,
}

-- The status codes that the handlers of this file send, with the error that is reported.
pub data HttpError : Type 0 where
  bad_request internal_server_error : Error → HttpError

-- DAOCoinLimitOrderEntryResponse
pub record OrderResponse (Float : Type 0) : Type 0 where
  pub transactor_public_key : Bytes
  pub buying_coin_public_key : Bytes
  pub selling_coin_public_key : Bytes
  pub price : Bytes
  pub quantity : Bytes
  pub exchange_rate_coins_to_sell_per_coin_to_buy : Float
  pub quantity_to_fill : Float
  pub operation_type : Bytes
  pub order_id : Bytes

pub record GetDaoCoinLimitOrdersRequest : Type 0 where
  pub dao_coin1_creator_public_key : Bytes
  pub dao_coin2_creator_public_key : Bytes

-- the loop of `GetBestAvailableExchangeRateCoinsToBuyPerCoinToSell`
unfoldable pub best_exchange_rate : ℕ → List OrderEntry → ℕ
best_exchange_rate best [] = best
best_exchange_rate best (order ∷ orders) =
    best_exchange_rate
      (if ltb best order.scaled_exchange_rate then order.scaled_exchange_rate else best) orders

module _ (c : Core) where
  open c use {
    Float, View, base58_check_decode, base58_check_encode, pub_key_bytes_len_compressed, zero_pkid,
    get_pkid_for_public_key, get_public_key_for_pkid, get_orders_for_pair,
    get_orders_for_transactor,
  }

  -- routes/user.go; the length test runs only where decoding gave bytes
  unfoldable pub get_pub_key_bytes_from_base58_check : Bytes → Result Error Bytes
  get_pub_key_bytes_from_base58_check pub_key = do
    bytes ← or_fail (base58_check_decode pub_key) (λ e. bad_public_key)
    fail_if (not (length bytes == pub_key_bytes_len_compressed)) bad_public_key
    ok bytes

  unfoldable pub get_pkid_from_public_key_base58_check : View → Bytes → Result Error Bytes
  get_pkid_from_public_key_base58_check view public_key = do
    bytes ← get_pub_key_bytes_from_base58_check public_key
    ok (get_pkid_for_public_key view bytes)

  unfoldable pub get_public_key_or_coin_identifier_for_pkid : View → Bytes → Bytes
  get_public_key_or_coin_identifier_for_pkid view pkid =
      if bytes_eq pkid zero_pkid
      then deso_coin_identifier_string
      else base58_check_encode (get_public_key_for_pkid view pkid)

  unfoldable pub build_order_response :
      Bytes → Bytes → Bytes → OrderEntry → Result Error (OrderResponse Float)
  build_order_response transactor buying selling order = do
    operation_type ← order_operation_type_to_string c order.operation_type
    price ←
        calculate_price_string_from_scaled_exchange_rate c buying selling order.scaled_exchange_rate
          operation_type
    quantity ←
        calculate_string_quantity_from_base_units c buying selling operation_type
          order.quantity_to_fill_in_base_units
    exchange_rate ←
        calculate_float_from_scaled_exchange_rate c buying selling order.scaled_exchange_rate
    quantity_to_fill ←
        calculate_float_quantity_from_base_units c buying selling operation_type
          order.quantity_to_fill_in_base_units
    ok (record {
      transactor_public_key = transactor;
      buying_coin_public_key = buying;
      selling_coin_public_key = selling;
      price = price;
      quantity = quantity;
      exchange_rate_coins_to_sell_per_coin_to_buy = exchange_rate;
      quantity_to_fill = quantity_to_fill;
      operation_type = operation_type;
      order_id = order.order_id;
    })

  -- `if err != nil { continue }`, else the response is appended; a panic is not an error
  unfoldable pub append_response :
      Result Error (OrderResponse Float)
      → Result Error (List (OrderResponse Float))
      → Result Error (List (OrderResponse Float))
  append_response (ok r) rest = do rs ← rest; ok (r ∷ rs)
  append_response (err e) rest = rest
  append_response panic rest = panic

  unfoldable pub build_responses_for_coin_pair :
      View → Bytes → Bytes → List OrderEntry → Result Error (List (OrderResponse Float))
  build_responses_for_coin_pair view buying selling [] = ok []
  build_responses_for_coin_pair view buying selling (order ∷ orders) =
      append_response
        (build_order_response
          (base58_check_encode (get_public_key_for_pkid view order.transactor_pkid)) buying selling
          order)
        (build_responses_for_coin_pair view buying selling orders)

  unfoldable pub build_responses_for_transactor :
      View → Bytes → List OrderEntry → Result Error (List (OrderResponse Float))
  build_responses_for_transactor view transactor [] = ok []
  build_responses_for_transactor view transactor (order ∷ orders) =
      append_response
        (build_order_response transactor
          (get_public_key_or_coin_identifier_for_pkid view order.buying_dao_coin_creator_pkid)
          (get_public_key_or_coin_identifier_for_pkid view order.selling_dao_coin_creator_pkid)
          order)
        (build_responses_for_transactor view transactor orders)

  -- `&lib.ZeroPKID` for DESO, else the PKID of the key
  unfoldable pub requested_coin_pkid : View → Bytes → Result HttpError Bytes
  requested_coin_pkid view coin =
      if is_deso coin
      then ok zero_pkid
      else or_fail (get_pkid_from_public_key_base58_check view coin) bad_request

  -- The handler up to the encoding of its response: the parsed request and the view come from
  -- the server.
  unfoldable pub get_dao_coin_limit_orders :
      Result Bytes GetDaoCoinLimitOrdersRequest
      → Result Bytes View
      → Result HttpError (List (OrderResponse Float))
  get_dao_coin_limit_orders request augmented_view = do
    r ← or_fail request (λ e. bad_request (external e))
    let coin1 = r.dao_coin1_creator_public_key
    let coin2 = r.dao_coin2_creator_public_key
    fail_if (is_deso coin1 && is_deso coin2) (bad_request both_coins_deso)
    view ← or_fail augmented_view (λ e. internal_server_error (external e))
    coin1_pkid ← requested_coin_pkid view coin1
    coin2_pkid ← requested_coin_pkid view coin2
    buying1 ←
        or_fail (get_orders_for_pair view coin1_pkid coin2_pkid)
          (λ e. internal_server_error (external e))
    buying2 ←
        or_fail (get_orders_for_pair view coin2_pkid coin1_pkid)
          (λ e. internal_server_error (external e))
    rs1 ← or_fail (build_responses_for_coin_pair view coin1 coin2 buying1) bad_request
    rs2 ← or_fail (build_responses_for_coin_pair view coin2 coin1 buying2) bad_request
    ok (rs1 ++ rs2)

  unfoldable pub get_transactor_dao_coin_limit_orders :
      Result Bytes Bytes → Result Bytes View → Result HttpError (List (OrderResponse Float))
  get_transactor_dao_coin_limit_orders request augmented_view = do
    transactor ← or_fail request (λ e. bad_request (external e))
    view ← or_fail augmented_view (λ e. internal_server_error (external e))
    pkid ← or_fail (get_pkid_from_public_key_base58_check view transactor) bad_request
    orders ← or_fail (get_orders_for_transactor view pkid) (λ e. internal_server_error (external e))
    or_fail (build_responses_for_transactor view transactor orders) bad_request

  unfoldable pub get_best_available_exchange_rate : View → Bytes → Bytes → Result Error Bytes
  get_best_available_exchange_rate view buying_pkid selling_pkid = do
    orders ← or_fail (get_orders_for_pair view buying_pkid selling_pkid) external
    if length orders == 0
        then ok (codes "0")
        else calculate_price_string_from_scaled_exchange_rate c
            (get_public_key_or_coin_identifier_for_pkid view buying_pkid)
            (get_public_key_or_coin_identifier_for_pkid view selling_pkid)
            (best_exchange_rate 0 orders) operation_type_string_ask
