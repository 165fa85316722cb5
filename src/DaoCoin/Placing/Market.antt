-- ===== src/DaoCoin/Placing/Market.antt =====
-- The market orders that are placed (routes/transaction.go).
use deso_backend.Base.{
  ℕ, ◌<◌, ◌≡◌, ◌≢◌, some, none, ok, arith, length, ◌==◌, after_step, value_of_or_fail, passed,
  or_fail, fail_if, ==-ne,
}
use deso_backend.Core.{Core}
use deso_backend.Fees.{FeeLib, FeeMaps}
use deso_backend.DaoCoin.Types.{order_operation_type_to_uint64, order_fill_type_to_uint64}
use deso_backend.DaoCoin.Checks.{validate_dao_coin_order_transfer_restriction}
use deso_backend.DaoCoin.Placing.{
  order_error, no_transactor, fill_type_not_supported, OrderMetadata, OrderLib, OrderRequest,
  TxnResponse, quantity_of_request, get_buying_and_selling_dao_coin_public_keys,
}
use deso_backend.DaoCoin.Placing.Handlers.{market_order_metadata, create_dao_coin_market_order}
use deso_backend.DaoCoin.Placing.Cover.{
  IsForCoins, keys-IsForCoins, MayPlace, validated-MayPlace, quantity_positive, IsMadeOf,
  response-IsMadeOf,
}

module _ (c : Core) (ol : OrderLib c) (fl : FeeLib) (maps : FeeMaps) (view : c.View)
    (r : OrderRequest c.Float) where
  -- a market order has no rate, and is not left open
  pub record IsMarketOrder (metadata : OrderMetadata) : Type 0 where
    pub quantity : ℕ
    pub has_no_rate : metadata.scaled_exchange_rate ≡ some 0
    pub has_quantity : metadata.quantity_to_fill_in_base_units ≡ some quantity
    pub is_type : order_operation_type_to_uint64 c r.operation_type ≡ ok metadata.operation_type
    pub is_quantity : quantity_of_request c ol r ≡ ok quantity
    pub positive : 0 < quantity
    pub not_left_open : metadata.fill_type ≢ c.fill_type_good_till_cancelled
    pub may_buy : MayPlace c view r.transactor r.buying_coin
    pub is_fill_type : order_fill_type_to_uint64 c r.fill_type ≡ ok metadata.fill_type
    pub new_order : metadata.cancel_order_id ≡ none
    pub for_coins : IsForCoins c ol r.buying_coin r.selling_coin metadata

  metadata-IsMarketOrder :
      {metadata : OrderMetadata}
      → market_order_metadata c ol (ok view) r ≡ ok metadata
      → IsMarketOrder metadata
  unfolding market_order_metadata get_buying_and_selling_dao_coin_public_keys
  metadata-IsMarketOrder h =
      after_step (or_fail (order_operation_type_to_uint64 c r.operation_type) order_error) h
        λ op e1 h1. after_step (quantity_of_request c ol r) h1 λ quantity e2 h2.
          after_step (or_fail (order_fill_type_to_uint64 c r.fill_type) order_error) h2
            λ fill e3 h3.
              after_step (fail_if (fill == c.fill_type_good_till_cancelled) fill_type_not_supported)
                h3
                λ u e4 h4.
                  after_step
                    (or_fail
                      (validate_dao_coin_order_transfer_restriction c (ok view) r.transactor
                        r.buying_coin)
                      order_error)
                    h4
                    λ v e5 h5.
                      after_step
                        (or_fail
                          (get_buying_and_selling_dao_coin_public_keys c ol r.buying_coin
                            r.selling_coin)
                          order_error)
                        h5
                        λ keys e6 h6.
                          let typed =
                            value_of_or_fail (order_operation_type_to_uint64 c r.operation_type)
                              order_error e1 in
                          let other =
                            passed (fill == c.fill_type_good_till_cancelled) fill_type_not_supported
                              e4 in
                          record {
                            quantity = quantity;
                            has_no_rate = ground (arith, h6);
                            has_quantity = ground (arith, h6);
                            is_type = ground (arith, typed, h6);
                            is_quantity = e2;
                            positive = quantity_positive c ol r e2;
                            not_left_open = λ same.
                                ==-ne fill c.fill_type_good_till_cancelled other
                                  (ground (arith, same, h6));
                            may_buy = validated-MayPlace c view r.transactor r.buying_coin (
                                value_of_or_fail
                                  (validate_dao_coin_order_transfer_restriction c (ok view)
                                    r.transactor r.buying_coin)
                                  order_error e5);
                            is_fill_type = ground (
                              arith,
                              value_of_or_fail (order_fill_type_to_uint64 c r.fill_type) order_error
                                  e3,
                              h6,
                            );
                            new_order = ground (arith, h6);
                            for_coins =
                                keys-IsForCoins c ol r.buying_coin r.selling_coin keys _
                                  (value_of_or_fail
                                    (get_buying_and_selling_dao_coin_public_keys c ol r.buying_coin
                                      r.selling_coin)
                                    order_error e6)
                                  (ground (arith, h6)) (ground (arith, h6));
                          }

  -- When CreateDAOCoinMarketOrder, up to the simulated execution, answers a request with a
  -- response, the response carries the transaction that deso-core makes of an order for the
  -- transactor: the order has a rate of 0, the fill type of the request, which is not
  -- GoodTillCancelled, the operation type of the request and its quantity, which is positive, and
  -- buys and sells the two coins of the request by their keys, DESO by the key of zeros and another
  -- coin by the public key that it names; not both coins are DESO, and the coin that is bought is
  -- DESO or one that the transactor may buy.
  pub create_market_order_lem :
      {response : TxnResponse ol.Txn}
      → create_dao_coin_market_order c ol fl maps (ok view) (ok r) ≡ ok response
      → (metadata : OrderMetadata) × IsMarketOrder metadata
        × IsMadeOf c ol fl maps view r metadata response
  unfolding create_dao_coin_market_order
  create_market_order_lem h =
      after_step (fail_if (length r.transactor == 0) no_transactor) h λ u e1 h1.
        after_step (market_order_metadata c ol (ok view) r) h1 λ metadata e2 h2.
          (metadata, metadata-IsMarketOrder e2, response-IsMadeOf c ol fl maps view r metadata h2)
