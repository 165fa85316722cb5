-- ===== src/DaoCoin/Checks.antt =====
-- What is checked before an order is placed (routes/dao_coin_exchange.go):
-- `validateTransactorSellingCoinBalance` and `validateDAOCoinOrderTransferRestriction`.
pub mod Balance
pub mod Restriction
use deso_backend.Base.{
  ℕ, Bool, true, false, ◌&&◌, not, List, [], ◌∷◌, Bytes, bytes_eq, Option, none, some, Result, ok,
  err, ◌>>=◌, ◌>>◌, fail_if, or_fail, ltb, ◌==◌, if◌then◌else◌,
}
use deso_backend.Core.{Core, OrderEntry, ProfileEntry}
use deso_backend.DaoCoin.Types.{
  Error, external, bad_public_key, balance_not_found, insufficient_balance, invalid_operation_type,
  profile_not_found, owner_only, members_only, is_deso, operation_type_string_ask,
  operation_type_string_bid,
}
use deso_backend.DaoCoin.Book.{get_pkid_from_public_key_base58_check}

abbrev pub or_error {ℓ} : {E : Type ℓ} {A : Type 0} → Option A → E → Result E A
or_error none e = err e
or_error (some a) e = ok a

module _ (c : Core) where
  open c use {
    View, base58_check_decode, zero_pkid, get_orders_for_transactor, get_deso_balance_nanos,
    get_balance_entry, get_profile_entry, compute_base_units_to_sell, order_base_units_to_sell,
    safe_add, transfer_restriction_profile_owner_only, transfer_restriction_dao_members_only,
  }

  -- `buyingCoinPKID.Eq(order.…) && sellingCoinPKID.Eq(order.…)`
  unfoldable pub is_same_pair : Bytes → Bytes → OrderEntry → Bool
  is_same_pair buying_pkid selling_pkid order =
      bytes_eq buying_pkid order.buying_dao_coin_creator_pkid
      && bytes_eq selling_pkid order.selling_dao_coin_creator_pkid

  -- the loop over the open orders
  unfoldable pub add_open_orders : Bytes → Bytes → ℕ → List OrderEntry → Result Error ℕ
  add_open_orders buying_pkid selling_pkid total [] = ok total
  add_open_orders buying_pkid selling_pkid total (order ∷ orders) =
      elim (is_same_pair buying_pkid selling_pkid order) [
        | true ↦ do
          order_selling ← or_fail (order_base_units_to_sell order) external
          sum ← or_fail (safe_add total order_selling) external
          add_open_orders buying_pkid selling_pkid sum orders
        | false ↦ add_open_orders buying_pkid selling_pkid total orders
      ]

  -- what the new order sells
  unfoldable pub new_order_selling : Bytes → ℕ → ℕ → Result Error ℕ
  new_order_selling operation_type scaled_exchange_rate quantity =
      if bytes_eq operation_type operation_type_string_ask
      then ok quantity
      else if bytes_eq operation_type operation_type_string_bid
      then or_fail (compute_base_units_to_sell scaled_exchange_rate quantity) external
      else err invalid_operation_type

  unfoldable pub buying_coin_pkid : View → Bytes → Result Error Bytes
  buying_coin_pkid view buying =
      if is_deso buying then ok zero_pkid else get_pkid_from_public_key_base58_check c view buying

  -- the PKID of the coin that is sold and the transactor's balance of it
  unfoldable pub selling_balance : View → Bytes → Bytes → Result Error (Bytes × ℕ)
  selling_balance view transactor_public_key selling =
      if is_deso selling
      then (do
        balance ← or_fail (get_deso_balance_nanos view transactor_public_key) external
        ok (zero_pkid, balance))
      else do
        pkid ← get_pkid_from_public_key_base58_check c view selling
        selling_public_key ← or_fail (base58_check_decode selling) (λ e. bad_public_key)
        balance ←
            or_error (get_balance_entry view transactor_public_key selling_public_key)
              balance_not_found
        ok (pkid, balance)

  unfoldable pub validate_transactor_selling_coin_balance :
      Result Bytes View → Bytes → Bytes → Bytes → Bytes → ℕ → ℕ → Result Error (Unit {0})
  validate_transactor_selling_coin_balance augmented_view transactor buying selling operation_type
        scaled_exchange_rate quantity =
      do
        view ← or_fail augmented_view external
        transactor_pkid ← get_pkid_from_public_key_base58_check c view transactor
        transactor_public_key ← or_fail (base58_check_decode transactor) (λ e. bad_public_key)
        buying_pkid ← buying_coin_pkid view buying
        (selling_pkid, balance) ← selling_balance view transactor_public_key selling
        orders ← or_fail (get_orders_for_transactor view transactor_pkid) external
        new_selling ← new_order_selling operation_type scaled_exchange_rate quantity
        total ← add_open_orders buying_pkid selling_pkid new_selling orders
        fail_if (ltb balance total) insufficient_balance

  -- the two tests on the status of the coin's profile
  unfoldable pub check_transfer_restriction :
      View → Bytes → Bytes → ProfileEntry → Result Error (Unit {0})
  check_transfer_restriction view transactor_public_key coin_public_key profile = do
    let status = profile.transfer_restriction_status
    fail_if profile.is_deleted profile_not_found
    fail_if
        ((status == transfer_restriction_profile_owner_only)
          && not (bytes_eq transactor_public_key coin_public_key))
        owner_only
    if status == transfer_restriction_dao_members_only
        then (do
          balance ←
              or_error (get_balance_entry view transactor_public_key coin_public_key) members_only
          fail_if (balance == 0) members_only)
        else ok tt

  unfoldable pub validate_dao_coin_order_transfer_restriction :
      Result Bytes View → Bytes → Bytes → Result Error (Unit {0})
  validate_dao_coin_order_transfer_restriction augmented_view transactor buying =
      if is_deso buying then ok tt else do
        view ← or_fail augmented_view external
        transactor_public_key ← or_fail (base58_check_decode transactor) (λ e. bad_public_key)
        coin_public_key ← or_fail (base58_check_decode buying) (λ e. bad_public_key)
        profile ← or_error (get_profile_entry view coin_public_key) profile_not_found
        check_transfer_restriction view transactor_public_key coin_public_key profile
