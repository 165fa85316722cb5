-- ===== src/DaoCoin/Placing/Limit.antt =====
-- The limit orders that are placed (routes/transaction.go).
use deso_backend.Base.{
  ℕ, ◌<◌, ◌≡◌, some, none, ok, arith, length, ◌==◌, after_step, value_of_or_fail, or_fail, fail_if,
}
use deso_backend.Core.{Core}
use deso_backend.Fees.{FeeLib, FeeMaps}
use deso_backend.DaoCoin.Types.{order_operation_type_to_uint64}
use deso_backend.DaoCoin.Checks.{
  validate_transactor_selling_coin_balance, validate_dao_coin_order_transfer_restriction,
}
use deso_backend.DaoCoin.Placing.{
  order_error, no_transactor, OrderMetadata, OrderLib, OrderRequest, TxnResponse,
  scaled_rate_of_request, quantity_of_request, fill_type_of_request,
  get_buying_and_selling_dao_coin_public_keys,
}
use deso_backend.DaoCoin.Placing.Handlers.{limit_order_metadata, create_dao_coin_limit_order}
use deso_backend.DaoCoin.Checks.Balance.{IsCovered, validated-IsCovered}
use deso_backend.DaoCoin.Placing.Cover.{
  IsForCoins, keys-IsForCoins, MayPlace, validated-MayPlace, quantity_positive, IsMadeOf,
  response-IsMadeOf,
}

module _ (c : Core) (ol : OrderLib c) (fl : FeeLib) (maps : FeeMaps) (view : c.View)
    (r : OrderRequest c.Float) where
  -- a limit order that may be placed, with its rate and its quantity
  pub record IsLimitOrder (metadata : OrderMetadata) : Type 0 where
    pub rate : ℕ
    pub quantity : ℕ
    pub has_rate : metadata.scaled_exchange_rate ≡ some rate
    pub has_quantity : metadata.quantity_to_fill_in_base_units ≡ some quantity
    pub is_type : order_operation_type_to_uint64 c r.operation_type ≡ ok metadata.operation_type
    pub is_rate : scaled_rate_of_request c ol r metadata.operation_type ≡ ok rate
    pub is_quantity : quantity_of_request c ol r ≡ ok quantity
    pub positive : 0 < quantity
    pub covered :
        IsCovered c view r.transactor r.buying_coin r.selling_coin r.operation_type rate quantity
    pub may_buy : MayPlace c view r.transactor r.buying_coin
    pub is_fill_type : fill_type_of_request c ol r ≡ ok metadata.fill_type
    pub new_order : metadata.cancel_order_id ≡ none
    pub for_coins : IsForCoins c ol r.buying_coin r.selling_coin metadata

  metadata-IsLimitOrder :
      {metadata : OrderMetadata}
      → limit_order_metadata c ol (ok view) r ≡ ok metadata
      → IsLimitOrder metadata
  unfolding limit_order_metadata get_buying_and_selling_dao_coin_public_keys
  metadata-IsLimitOrder h =
      after_step (or_fail (order_operation_type_to_uint64 c r.operation_type) order_error) h
        λ op e1 h1. after_step (or_fail (fill_type_of_request c ol r) order_error) h1 λ fill e2 h2.
          after_step (scaled_rate_of_request c ol r op) h2 λ rate e3 h3.
            after_step (quantity_of_request c ol r) h3 λ quantity e4 h4.
              after_step
                (or_fail
                  (get_buying_and_selling_dao_coin_public_keys c ol r.buying_coin r.selling_coin)
                  order_error)
                h4
                λ keys e5 h5.
                  after_step
                    (or_fail
                      (validate_transactor_selling_coin_balance c (ok view) r.transactor
                        r.buying_coin r.selling_coin r.operation_type rate quantity)
                      order_error)
                    h5
                    λ u e6 h6.
                      after_step
                        (or_fail
                          (validate_dao_coin_order_transfer_restriction c (ok view) r.transactor
                            r.buying_coin)
                          order_error)
                        h6
                        λ v e7 h7.
                          let typed =
                            value_of_or_fail (order_operation_type_to_uint64 c r.operation_type)
                              order_error e1 in
                          record {
                            rate = rate;
                            quantity = quantity;
                            has_rate = ground (arith, h7);
                            has_quantity = ground (arith, h7);
                            is_type = ground (arith, typed, h7);
                            is_rate = ground (arith, e3, h7);
                            is_quantity = e4;
                            positive = quantity_positive c ol r e4;
                            covered =
                                validated-IsCovered c view r.transactor r.buying_coin r.selling_coin
                                  r.operation_type rate quantity
                                  (value_of_or_fail
                                    (validate_transactor_selling_coin_balance c (ok view)
                                      r.transactor r.buying_coin r.selling_coin r.operation_type
                                      rate quantity)
                                    order_error e6);
                            may_buy = validated-MayPlace c view r.transactor r.buying_coin (
                                value_of_or_fail
                                  (validate_dao_coin_order_transfer_restriction c (ok view)
                                    r.transactor r.buying_coin)
                                  order_error e7);
                            is_fill_type = ground (
                              arith,
                              value_of_or_fail (fill_type_of_request c ol r) order_error e2,
                              h7,
                            );
                            new_order = ground (arith, h7);
                            for_coins =
                                keys-IsForCoins c ol r.buying_coin r.selling_coin keys _
                                  (value_of_or_fail
                                    (get_buying_and_selling_dao_coin_public_keys c ol r.buying_coin
                                      r.selling_coin)
                                    order_error e5)
                                  (ground (arith, h7)) (ground (arith, h7));
                          }

  -- When CreateDAOCoinLimitOrder, up to the simulated execution, answers a request with a response,
  -- the response carries the transaction that deso-core makes of an order for the transactor, with
  -- the outputs of the request and of the node's fees: the order has the operation type, fill type,
  -- rate and quantity of the request, and buys and sells the two coins of the request by their
  -- keys, DESO by the key of zeros and another coin by the public key that it names; the quantity
  -- is positive, not both coins are DESO, the transactor's balance of the coin that is sold covers
  -- what the order and all the transactor's open orders of the same two coins sell together, and
  -- the coin that is bought is DESO or one that the transactor may buy.
  pub create_limit_order_lem :
      {response : TxnResponse ol.Txn}
      → create_dao_coin_limit_order c ol fl maps (ok view) (ok r) ≡ ok response
      → (metadata : OrderMetadata) × IsLimitOrder metadata
        × IsMadeOf c ol fl maps view r metadata response
  unfolding create_dao_coin_limit_order
  create_limit_order_lem h =
      after_step (fail_if (length r.transactor == 0) no_transactor) h λ u e1 h1.
        after_step (limit_order_metadata c ol (ok view) r) h1 λ metadata e2 h2.
          (metadata, metadata-IsLimitOrder e2, response-IsMadeOf c ol fl maps view r metadata h2)
