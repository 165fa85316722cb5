-- ===== src/DaoCoin/Placing/Handlers.antt =====
-- The handlers that make and cancel orders (routes/transaction.go), up to the transaction.
use deso_backend.Base.{
  ℕ, ◌==◌, not, List, Bytes, none, some, Result, ok, ◌>>=◌, ◌>>◌, fail_if, or_fail, length,
}
use deso_backend.Core.{Core}
use deso_backend.Fees.{TransactionFee, FeeLib, FeeMaps, get_transaction_fee}
use deso_backend.DaoCoin.Types.{order_operation_type_to_uint64, order_fill_type_to_uint64}
use deso_backend.DaoCoin.Checks.{
  validate_transactor_selling_coin_balance, validate_dao_coin_order_transfer_restriction,
}
use deso_backend.DaoCoin.Placing.{
  PlacingError, bad_body, no_transactor, no_view, fill_type_not_supported, bad_order_id,
  txn_not_made, order_error, fee_error, OrderMetadata, OrderLib, OrderRequest, TxnResponse,
  scaled_rate_of_request, quantity_of_request, fill_type_of_request,
  get_buying_and_selling_dao_coin_public_keys, get_pub_key_for_username_or_public_key, response_of,
}

-- DAOCoinLimitOrderWithCancelOrderIDRequest
pub record CancelRequest : Type 0 where
  pub transactor : Bytes
  pub cancel_order_id : Bytes
  pub min_fee_rate_nanos_per_kb : ℕ
  pub transaction_fees : List TransactionFee

module _ (c : Core) (ol : OrderLib c) where
  -- the metadata of a limit order, below the checks of the request
  unfoldable pub limit_order_metadata :
      Result Bytes c.View → OrderRequest c.Float → Result PlacingError OrderMetadata
  limit_order_metadata augmented_view r = do
    operation_type ← or_fail (order_operation_type_to_uint64 c r.operation_type) order_error
    fill_type ← or_fail (fill_type_of_request c ol r) order_error
    rate ← scaled_rate_of_request c ol r operation_type
    quantity ← quantity_of_request c ol r
    view ← or_fail augmented_view (λ e. no_view)
    (buying, selling) ←
        or_fail (get_buying_and_selling_dao_coin_public_keys c ol r.buying_coin r.selling_coin)
          order_error
    or_fail
        (validate_transactor_selling_coin_balance c augmented_view r.transactor r.buying_coin
          r.selling_coin r.operation_type rate quantity)
        order_error
    or_fail
        (validate_dao_coin_order_transfer_restriction c augmented_view r.transactor r.buying_coin)
        order_error
    ok (record {
      buying_coin_public_key = some buying;
      selling_coin_public_key = some selling;
      scaled_exchange_rate = some rate;
      quantity_to_fill_in_base_units = some quantity;
      operation_type = operation_type;
      fill_type = fill_type;
      cancel_order_id = none;
    })

  -- a market order has a rate of 0
  unfoldable pub market_order_metadata :
      Result Bytes c.View → OrderRequest c.Float → Result PlacingError OrderMetadata
  market_order_metadata augmented_view r = do
    operation_type ← or_fail (order_operation_type_to_uint64 c r.operation_type) order_error
    quantity ← quantity_of_request c ol r
    fill_type ← or_fail (order_fill_type_to_uint64 c r.fill_type) order_error
    fail_if (fill_type == c.fill_type_good_till_cancelled) fill_type_not_supported
    or_fail
        (validate_dao_coin_order_transfer_restriction c augmented_view r.transactor r.buying_coin)
        order_error
    view ← or_fail augmented_view (λ e. no_view)
    (buying, selling) ←
        or_fail (get_buying_and_selling_dao_coin_public_keys c ol r.buying_coin r.selling_coin)
          order_error
    ok (record {
      buying_coin_public_key = some buying;
      selling_coin_public_key = some selling;
      scaled_exchange_rate = some 0;
      quantity_to_fill_in_base_units = some quantity;
      operation_type = operation_type;
      fill_type = fill_type;
      cancel_order_id = none;
    })

  -- routes/utils.go
  unfoldable pub decode_block_hash_from_hex : Bytes → Result PlacingError Bytes
  decode_block_hash_from_hex text = do
    fail_if (length text == 0) bad_order_id
    bytes ← or_fail (ol.hex_decode text) (λ e. bad_order_id)
    fail_if (not (length bytes == ol.hash_size_bytes)) bad_order_id
    ok bytes

  module _ (fl : FeeLib) (maps : FeeMaps) where
    unfoldable pub create_dao_coin_limit_order_response :
        c.View
        → Bytes
        → OrderMetadata
        → ℕ
        → List TransactionFee
        → Result PlacingError (TxnResponse ol.Txn)
    create_dao_coin_limit_order_response view transactor metadata min_fee_rate fees = do
      transactor_key ← get_pub_key_for_username_or_public_key c ol view transactor
      outputs ←
          or_fail (get_transaction_fee fl maps ol.txn_type_dao_coin_limit_order transactor_key fees)
            fee_error
      made ←
          or_fail (ol.create_limit_order_txn transactor_key metadata min_fee_rate outputs)
            (λ e. txn_not_made)
      response_of c ol made

    unfoldable pub create_dao_coin_limit_order :
        Result Bytes c.View
        → Result Bytes (OrderRequest c.Float)
        → Result PlacingError (TxnResponse ol.Txn)
    create_dao_coin_limit_order augmented_view request = do
      r ← or_fail request (λ e. bad_body)
      fail_if (length r.transactor == 0) no_transactor
      metadata ← limit_order_metadata augmented_view r
      view ← or_fail augmented_view (λ e. no_view)
      create_dao_coin_limit_order_response view r.transactor metadata r.min_fee_rate_nanos_per_kb
          r.transaction_fees

    unfoldable pub create_dao_coin_market_order :
        Result Bytes c.View
        → Result Bytes (OrderRequest c.Float)
        → Result PlacingError (TxnResponse ol.Txn)
    create_dao_coin_market_order augmented_view request = do
      r ← or_fail request (λ e. bad_body)
      fail_if (length r.transactor == 0) no_transactor
      metadata ← market_order_metadata augmented_view r
      view ← or_fail augmented_view (λ e. no_view)
      create_dao_coin_limit_order_response view r.transactor metadata r.min_fee_rate_nanos_per_kb
          r.transaction_fees

    unfoldable pub cancel_dao_coin_limit_order :
        Result Bytes c.View → Result Bytes CancelRequest → Result PlacingError (TxnResponse ol.Txn)
    cancel_dao_coin_limit_order augmented_view request = do
      r ← or_fail request (λ e. bad_body)
      fail_if (length r.transactor == 0) no_transactor
      view ← or_fail augmented_view (λ e. no_view)
      order_id ← decode_block_hash_from_hex r.cancel_order_id
      create_dao_coin_limit_order_response view r.transactor
          (record {
            buying_coin_public_key = none;
            selling_coin_public_key = none;
            scaled_exchange_rate = none;
            quantity_to_fill_in_base_units = none;
            operation_type = 0;
            fill_type = 0;
            cancel_order_id = some order_id;
          })
          r.min_fee_rate_nanos_per_kb r.transaction_fees
