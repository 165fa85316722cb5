-- ===== src/DaoCoin/Placing/Cover.antt =====
-- What an order that is placed has been checked for (routes/transaction.go): the permission to buy,
-- its quantity, its coins, and the transaction made of it.
use deso_backend.Base.{
  ℕ, ◌<◌, ◌≡◌, ◌⊎◌, inl, inr, List, Bytes, some, Result-cases, Bool-cases, ok, ◌≢◌, ◌&&◌, fail_if,
  true, arith, after_step, value_of_or_fail, passed, or_fail,
}
use deso_backend.Core.{Core, ProfileEntry}
use deso_backend.Fees.{Output, FeeLib, FeeMaps, get_transaction_fee}
use deso_backend.DaoCoin.Types.{is_deso, both_coins_deso, deso_coin_identifier_string}
use deso_backend.DaoCoin.Quantities.{
  calculate_quantity_to_fill_as_base_units, calculate_quantity_to_fill_as_deso_nanos,
  calculate_quantity_to_fill_as_dao_coin_base_units,
}
use deso_backend.DaoCoin.Checks.{validate_dao_coin_order_transfer_restriction}
use deso_backend.DaoCoin.Book.Coins.{is_deso-eq, is_deso-ne, deso_is_deso, IsKeyOf, key-IsKeyOf}
use deso_backend.DaoCoin.Checks.Restriction.{MayBuy, transfer_restriction_lem}
use deso_backend.DaoCoin.Placing.{
  fee_error, txn_not_made, OrderMetadata, MadeTxn, OrderLib, OrderRequest, TxnResponse,
  coin_public_key, get_buying_and_selling_dao_coin_public_keys, quantity_of_request,
  get_pub_key_for_username_or_public_key, response_of,
}
use deso_backend.DaoCoin.Placing.Handlers.{create_dao_coin_limit_order_response}

module _ (c : Core) (view : c.View) where
  -- The transactor may buy the coin.
  abbrev pub MayPlace : Bytes → Bytes → Type 0
  MayPlace transactor buying =
      (is_deso buying ≡ true)
      ⊎ (key : Bytes) × (coin_key : Bytes) × (p : ProfileEntry) × (c.base58_check_decode transactor
          ≡ ok key)
        × (c.base58_check_decode buying ≡ ok coin_key)
        × (c.get_profile_entry view coin_key ≡ some p)
        × MayBuy c view key coin_key p

  pub validated-MayPlace :
      (transactor buying : Bytes)
      → validate_dao_coin_order_transfer_restriction c (ok view) transactor buying ≡ ok tt
      → MayPlace transactor buying
  unfolding validate_dao_coin_order_transfer_restriction
  validated-MayPlace transactor buying h = elim (Bool-cases (is_deso buying)) [
    | inl deso ↦ inl deso
    | inr other ↦ elim (Result-cases (c.base58_check_decode transactor)) [
      | inr (inl (x, e)) ↦ ground (arith, h, e, other)
      | inr (inr e) ↦ ground (arith, h, e, other)
      | inl (key, e) ↦ elim (Result-cases (c.base58_check_decode buying)) [
        | inr (inl (x, f)) ↦ ground (arith, h, e, f, other)
        | inr (inr f) ↦ ground (arith, h, e, f, other)
        | inl (coin_key, f) ↦
            elim ((transfer_restriction_lem c view key coin_key transactor buying e f).0 h) [
              | inl deso ↦ inl deso
              | inr (p, found, allowed) ↦ inr (key, coin_key, p, e, f, found, allowed)
            ]
      ]
    ]
  ]

-- What an order calls a coin: DESO by the key of zeros, and a coin by its creator's key.
abbrev pub IsCoinKey : (c : Core) → OrderLib c → Bytes → Bytes → Type 0
IsCoinKey c ol coin key =
    ((coin ≡ deso_coin_identifier_string) × (key ≡ ol.zero_public_key))
    ⊎ ((coin ≢ deso_coin_identifier_string) × IsKeyOf c coin key)

coin-IsCoinKey :
    (c : Core) (ol : OrderLib c) (coin key : Bytes)
    → coin_public_key c ol coin ≡ ok key
    → IsCoinKey c ol coin key
unfolding coin_public_key
coin-IsCoinKey c ol coin key h = elim (Bool-cases (is_deso coin)) [
  | inl e ↦ inl (is_deso-eq coin e, ground (arith, e, h))
  | inr e ↦ inr (is_deso-ne coin e, key-IsKeyOf c coin key (rw e at h))
]

-- The order is for the two coins of the request, of which one at most is DESO.
pub record IsForCoins (c : Core) (ol : OrderLib c) (buying_coin selling_coin : Bytes)
    (metadata : OrderMetadata) : Type 0 where
  pub buying_key : Bytes
  pub selling_key : Bytes
  pub has_buying : metadata.buying_coin_public_key ≡ some buying_key
  pub has_selling : metadata.selling_coin_public_key ≡ some selling_key
  pub is_buying : IsCoinKey c ol buying_coin buying_key
  pub is_selling : IsCoinKey c ol selling_coin selling_key
  pub not_both_deso :
      ¬ ((buying_coin ≡ deso_coin_identifier_string) × (selling_coin ≡ deso_coin_identifier_string))

pub keys-IsForCoins :
    (c : Core) (ol : OrderLib c) (buying_coin selling_coin : Bytes) (keys : Bytes × Bytes)
    (metadata : OrderMetadata)
    → get_buying_and_selling_dao_coin_public_keys c ol buying_coin selling_coin ≡ ok keys
    → metadata.buying_coin_public_key ≡ some keys.0
    → metadata.selling_coin_public_key ≡ some keys.1
    → IsForCoins c ol buying_coin selling_coin metadata
unfolding get_buying_and_selling_dao_coin_public_keys
keys-IsForCoins c ol buying_coin selling_coin keys metadata h has_buying has_selling =
    after_step (fail_if (is_deso selling_coin && is_deso buying_coin) both_coins_deso) h λ u e1 h1.
      after_step (coin_public_key c ol buying_coin) h1 λ buying e2 h2.
        after_step (coin_public_key c ol selling_coin) h2 λ selling e3 h3.
          let same_buying : buying ≡ keys.0 = cc h3 in
          let same_selling : selling ≡ keys.1 = cc h3 in
          record {
            buying_key = buying;
            selling_key = selling;
            has_buying = rw same_buying has_buying;
            has_selling = rw same_selling has_selling;
            is_buying = coin-IsCoinKey c ol buying_coin buying e2;
            is_selling = coin-IsCoinKey c ol selling_coin selling e3;
            not_both_deso = λ (b, s).
                let apart =
                  passed (is_deso selling_coin && is_deso buying_coin) both_coins_deso e1 in
                cc (rw (deso_is_deso selling_coin s, deso_is_deso buying_coin b) at apart);
          }

pub quantity_positive :
    (c : Core) (ol : OrderLib c) (r : OrderRequest c.Float) {q : ℕ}
    → quantity_of_request c ol r ≡ ok q
    → 0 < q
unfolding quantity_of_request calculate_quantity_to_fill_as_base_units
    calculate_quantity_to_fill_as_deso_nanos calculate_quantity_to_fill_as_dao_coin_base_units
quantity_positive c ol r h = ground (arith, h)

module _ (c : Core) (ol : OrderLib c) (fl : FeeLib) (maps : FeeMaps) (view : c.View)
    (r : OrderRequest c.Float) where
  -- the response carries the transaction that deso-core made of the metadata
  pub record IsMadeOf (metadata : OrderMetadata) (response : TxnResponse ol.Txn) : Type 0 where
    pub key : Bytes
    pub outputs : List Output
    pub made : MadeTxn ol.Txn
    pub is_key : get_pub_key_for_username_or_public_key c ol view r.transactor ≡ ok key
    pub are_outputs :
        get_transaction_fee fl maps ol.txn_type_dao_coin_limit_order key r.transaction_fees
        ≡ ok outputs
    pub is_made :
        ol.create_limit_order_txn key metadata r.min_fee_rate_nanos_per_kb outputs ≡ ok made
    pub is_sent : response.transaction ≡ made.txn

  pub response-IsMadeOf :
      (metadata : OrderMetadata) {response : TxnResponse ol.Txn}
      → create_dao_coin_limit_order_response c ol fl maps view r.transactor metadata
          r.min_fee_rate_nanos_per_kb r.transaction_fees
        ≡ ok response
      → IsMadeOf metadata response
  unfolding create_dao_coin_limit_order_response response_of
  response-IsMadeOf metadata h =
      after_step (get_pub_key_for_username_or_public_key c ol view r.transactor) h λ key e1 h1.
        after_step
          (or_fail
            (get_transaction_fee fl maps ol.txn_type_dao_coin_limit_order key r.transaction_fees)
            fee_error)
          h1
          λ outputs e2 h2.
            after_step
              (or_fail (ol.create_limit_order_txn key metadata r.min_fee_rate_nanos_per_kb outputs)
                (λ e. txn_not_made))
              h2
              λ made e3 h3. record {
                key = key;
                outputs = outputs;
                made = made;
                is_key = e1;
                are_outputs =
                    value_of_or_fail
                      (get_transaction_fee fl maps ol.txn_type_dao_coin_limit_order key
                        r.transaction_fees)
                      _ e2;
                is_made =
                    value_of_or_fail
                      (ol.create_limit_order_txn key metadata r.min_fee_rate_nanos_per_kb outputs) _
                      e3;
                is_sent = ground (arith, h3);
              }
