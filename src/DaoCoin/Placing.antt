-- ===== src/DaoCoin/Placing.antt =====
-- Orders that are placed (routes/transaction.go): the requests to make a limit order or a market
-- order, up to the transaction of the response, and to cancel one.
pub mod Handlers
pub mod Cover
pub mod Limit
pub mod Market
use deso_backend.Base.{
  ℕ, ◌+◌, ◌-◌, ◌*◌, ◌/◌, ◌%◌, ◌^◌, Bool, true, false, not, ◌&&◌, List, [], ◌++◌, Bytes, codes,
  bytes_eq, Option, none, some, Result, ok, err, panic, ◌>>=◌, ◌>>◌, fail_if, or_fail, ◌==◌, leb,
  if◌then◌else◌, length, take,
}
use deso_backend.Core.{Core}
use deso_backend.Fees.{TransactionFee, Output, FeeError, FeeLib, FeeMaps, get_transaction_fee}
use deso_backend.DaoCoin.Types.{
  Error, external, price_too_small, both_coins_deso, is_deso, order_operation_type_to_uint64,
  order_fill_type_to_uint64,
}
use deso_backend.DaoCoin.Rates.{
  bid_scaled_exchange_rate, calculate_scaled_exchange_rate_from_price_string,
}
use deso_backend.DaoCoin.Quantities.{calculate_quantity_to_fill_as_base_units}
use deso_backend.DaoCoin.Book.{get_pub_key_bytes_from_base58_check}
use deso_backend.DaoCoin.Checks.{
  validate_transactor_selling_coin_balance, validate_dao_coin_order_transfer_restriction, or_error,
}

pub data PlacingError : Type 0 where
  bad_body no_transactor price_missing rate_not_positive quantity_missing : PlacingError
  quantity_not_positive no_view fill_type_not_supported : PlacingError
  no_username bad_transactor_key bad_order_id txn_not_made txn_not_encoded : PlacingError
  order_error : Error → PlacingError
  fee_error : FeeError → PlacingError

-- lib.DAOCoinLimitOrderMetadata; a field that a cancellation leaves nil is `none`
pub record OrderMetadata : Type 0 where
  pub buying_coin_public_key : Option Bytes
  pub selling_coin_public_key : Option Bytes
  pub scaled_exchange_rate : Option ℕ
  pub quantity_to_fill_in_base_units : Option ℕ
  pub operation_type : ℕ
  pub fill_type : ℕ
  pub cancel_order_id : Option Bytes

-- what `CreateDAOCoinLimitOrderTxn` returns
pub record MadeTxn (Txn : Type 0) : Type 0 where
  pub txn : Txn
  pub total_input : ℕ
  pub change_amount : ℕ
  pub fees : ℕ

-- What placing an order uses of deso-core, hex and fmt. `profile_key_for_username` is the public key
-- of the profile with a name; `whole_part` that of a positive float.
pub record OrderLib (c : Core) : Type 1 where
  pub Txn : Type 0
  pub is_mainnet : Bool
  pub is_zero : c.Float → Bool
  pub is_positive : c.Float → Bool
  pub whole_part : c.Float → ℕ
  pub print_float : ℕ → c.Float → Bytes
  pub profile_key_for_username : c.View → Bytes → Option Bytes
  pub zero_public_key : Bytes
  pub txn_type_dao_coin_limit_order : ℕ
  pub create_limit_order_txn : Bytes → OrderMetadata → ℕ → List Output → Result Bytes (MadeTxn Txn)
  pub txn_to_bytes : Txn → Result Bytes Bytes
  pub txn_hash_text : Txn → Bytes
  pub hex_encode : Bytes → Bytes
  pub hex_decode : Bytes → Result Bytes Bytes
  pub hash_size_bytes : ℕ

-- DAOCoinLimitOrderCreationRequest; a market order has no price and no rate
pub record OrderRequest (Float : Type 0) : Type 0 where
  pub transactor : Bytes
  pub buying_coin : Bytes
  pub selling_coin : Bytes
  pub price : Bytes
  pub quantity : Bytes
  pub operation_type : Bytes
  pub fill_type : Bytes
  pub exchange_rate : Float
  pub quantity_to_fill : Float
  pub min_fee_rate_nanos_per_kb : ℕ
  pub transaction_fees : List TransactionFee

-- DAOCoinLimitOrderResponse before the simulated execution
pub record TxnResponse (Txn : Type 0) : Type 0 where
  pub spend_amount_nanos : ℕ
  pub total_input_nanos : ℕ
  pub change_amount_nanos : ℕ
  pub fee_nanos : ℕ
  pub transaction : Txn
  pub transaction_hex : Bytes
  pub txn_hash_hex : Bytes

module _ (c : Core) (ol : OrderLib c) where
  -- `%.nf` for up to 15 digits, else the whole part with all but its first 15 digits dropped
  unfoldable pub format_float_as_string : c.Float → Bytes
  format_float_as_string f =
      let whole = ol.whole_part f in
      let digits = c.get_num_digits whole in
      let divisor = 10 ^ (digits - 15) in
      if leb digits 15
      then ol.print_float (15 - digits) f
      else c.print_big (whole / divisor * divisor) ++ codes ".0"

  -- below the text, the branches are those of a BID order
  unfoldable pub calculate_scaled_exchange_rate_from_float :
      Bytes → Bytes → c.Float → Result Error ℕ
  calculate_scaled_exchange_rate_from_float buying_coin selling_coin rate = do
    raw ←
        or_fail (c.calculate_scaled_exchange_rate_from_string (format_float_as_string rate))
          external
    fail_if (raw == 0) price_too_small
    bid_scaled_exchange_rate c buying_coin selling_coin raw

  -- from the price, or from the deprecated rate
  unfoldable pub scaled_rate_of_request : OrderRequest c.Float → ℕ → Result PlacingError ℕ
  scaled_rate_of_request r operation_type =
      if (length r.price == 0) && ol.is_zero r.exchange_rate
      then err price_missing
      else if not (length r.price == 0)
      then or_fail
          (calculate_scaled_exchange_rate_from_price_string c r.buying_coin r.selling_coin r.price
            operation_type)
          order_error
      else if not (ol.is_positive r.exchange_rate)
      then err rate_not_positive
      else or_fail
          (calculate_scaled_exchange_rate_from_float r.buying_coin r.selling_coin r.exchange_rate)
          order_error

  -- from the quantity, or from the deprecated float
  unfoldable pub quantity_of_request : OrderRequest c.Float → Result PlacingError ℕ
  quantity_of_request r =
      if (length r.quantity == 0) && ol.is_zero r.quantity_to_fill
      then err quantity_missing
      else if not (length r.quantity == 0)
      then or_fail
          (calculate_quantity_to_fill_as_base_units c r.buying_coin r.selling_coin r.operation_type
            r.quantity)
          order_error
      else if not (ol.is_positive r.quantity_to_fill)
      then err quantity_not_positive
      else or_fail
          (calculate_quantity_to_fill_as_base_units c r.buying_coin r.selling_coin r.operation_type
            (format_float_as_string r.quantity_to_fill))
          order_error

  -- the empty string is GoodTillCancelled
  unfoldable pub fill_type_of_request : OrderRequest c.Float → Result Error ℕ
  fill_type_of_request r =
      if length r.fill_type == 0
      then ok c.fill_type_good_till_cancelled
      else order_fill_type_to_uint64 c r.fill_type

  unfoldable pub coin_public_key : Bytes → Result Error Bytes
  coin_public_key coin =
      if is_deso coin then ok ol.zero_public_key else get_pub_key_bytes_from_base58_check c coin

  unfoldable pub get_buying_and_selling_dao_coin_public_keys :
      Bytes → Bytes → Result Error (Bytes × Bytes)
  get_buying_and_selling_dao_coin_public_keys buying_coin selling_coin = do
    fail_if (is_deso selling_coin && is_deso buying_coin) both_coins_deso
    buying ← coin_public_key buying_coin
    selling ← coin_public_key selling_coin
    ok (buying, selling)

  -- routes/user.go
  unfoldable pub get_public_key_prefix : Bytes
  get_public_key_prefix = if ol.is_mainnet then codes "BC" else codes "tBC"

  -- routes/user.go; the profile that is returned too is not used here
  unfoldable pub get_pub_key_for_username_or_public_key : c.View → Bytes → Result PlacingError Bytes
  get_pub_key_for_username_or_public_key view text =
      if not (bytes_eq (take (length get_public_key_prefix) text) get_public_key_prefix)
      then or_error (ol.profile_key_for_username view text) no_username
      else or_fail (get_pub_key_bytes_from_base58_check c text) (λ e. bad_transactor_key)

  -- `totalInput - changeAmount - fees` wraps
  unfoldable pub response_of : MadeTxn ol.Txn → Result PlacingError (TxnResponse ol.Txn)
  response_of made = do
    txn_bytes ← or_fail (ol.txn_to_bytes made.txn) (λ e. txn_not_encoded)
    ok (record {
      spend_amount_nanos = (made.total_input + 2 ^ 65 - made.change_amount - made.fees) % 2 ^ 64;
      total_input_nanos = made.total_input;
      change_amount_nanos = made.change_amount;
      fee_nanos = made.fees;
      transaction = made.txn;
      transaction_hex = ol.hex_encode txn_bytes;
      txn_hash_hex = ol.txn_hash_text made.txn;
    })
