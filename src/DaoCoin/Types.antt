-- ===== src/DaoCoin/Types.antt =====
-- The strings, errors and responses of routes/dao_coin_exchange.go, and the two operation types.
use deso_backend.Base.{
  ℕ, ◌/◌, Bool, Bytes, codes, bytes_eq, Result, ok, err, panic, ◌==◌, if◌then◌else◌,
}
use deso_backend.Core.{Core}

-- `external` is an error of a library, passed on or wrapped.
pub data Error : Type 0 where
  external : Bytes → Error
  not_a_decimal negative_decimal price_too_small overflow rate_too_small : Error
  zero_quantity quantity_too_small unknown_operation_type unknown_fill_type : Error
  bad_public_key balance_not_found insufficient_balance invalid_operation_type : Error
  profile_not_found owner_only members_only : Error
  both_coins_deso : Error

abbrev pub deso_coin_identifier_string : Bytes
deso_coin_identifier_string = codes "DESO"

abbrev pub operation_type_string_ask : Bytes
operation_type_string_ask = codes "ASK"

abbrev pub operation_type_string_bid : Bytes
operation_type_string_bid = codes "BID"

-- the DAOCoinLimitOrderFillTypeString constants
abbrev pub fill_type_string_good_till_cancelled : Bytes
fill_type_string_good_till_cancelled = codes "GOOD_TILL_CANCELLED"

abbrev pub fill_type_string_fill_or_kill : Bytes
fill_type_string_fill_or_kill = codes "FILL_OR_KILL"

abbrev pub fill_type_string_immediate_or_cancel : Bytes
fill_type_string_immediate_or_cancel = codes "IMMEDIATE_OR_CANCEL"

-- `x == DESOCoinIdentifierString`
unfoldable pub is_deso : Bytes → Bool
is_deso coin = bytes_eq coin deso_coin_identifier_string

-- `(*big.Int).Div` panics on a zero divisor; the operands here are never negative.
abbrev pub big_div {ℓ} : {E : Type ℓ} → ℕ → ℕ → Result E ℕ
big_div a b = if b == 0 then panic else ok (a / b)

module _ (c : Core) where
  open c use {
    div, base_units_per_coin, nanos_per_unit, operation_type_ask, operation_type_bid,
    fill_type_good_till_cancelled, fill_type_fill_or_kill, fill_type_immediate_or_cancel,
  }

  unfoldable pub get_deso_to_dao_coin_base_units_scaling_factor : ℕ
  get_deso_to_dao_coin_base_units_scaling_factor = div base_units_per_coin nanos_per_unit

  unfoldable pub order_operation_type_to_string : ℕ → Result Error Bytes
  order_operation_type_to_string operation_type =
      if operation_type == operation_type_ask
      then ok operation_type_string_ask
      else if operation_type == operation_type_bid
      then ok operation_type_string_bid
      else err unknown_operation_type

  unfoldable pub order_operation_type_to_uint64 : Bytes → Result Error ℕ
  order_operation_type_to_uint64 operation_type =
      if bytes_eq operation_type operation_type_string_ask
      then ok operation_type_ask
      else if bytes_eq operation_type operation_type_string_bid
      then ok operation_type_bid
      else err unknown_operation_type

  unfoldable pub order_fill_type_to_uint64 : Bytes → Result Error ℕ
  order_fill_type_to_uint64 fill_type =
      if bytes_eq fill_type fill_type_string_good_till_cancelled
      then ok fill_type_good_till_cancelled
      else if bytes_eq fill_type fill_type_string_fill_or_kill
      then ok fill_type_fill_or_kill
      else if bytes_eq fill_type fill_type_string_immediate_or_cancel
      then ok fill_type_immediate_or_cancel
      else err unknown_fill_type
