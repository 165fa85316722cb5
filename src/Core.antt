-- ===== src/Core.antt =====
-- What the DAO coin exchange (routes/dao_coin_exchange.go) uses of code outside the repository:
-- deso-core (`lib`), holiman/uint256, and Go's float64. A uint256.Int and a big.Int that is never
-- negative are the numbers that they hold; an error of a library is its text.
use deso_backend.Base.{
  ℕ, ◌+◌, ◌*◌, ◌/◌, ◌^◌, ◌≤◌, ◌<◌, ◌≡◌, ◌≢◌, Bool, true, false, Option, List, Bytes, Result, ok,
}

-- the fields of lib.DAOCoinLimitOrderEntry that the API reads
pub record OrderEntry : Type 0 where
  pub order_id : Bytes
  pub transactor_pkid : Bytes
  pub buying_dao_coin_creator_pkid : Bytes
  pub selling_dao_coin_creator_pkid : Bytes
  pub scaled_exchange_rate : ℕ
  pub quantity_to_fill_in_base_units : ℕ
  pub operation_type : ℕ

-- the fields of lib.ProfileEntry that the API reads
pub record ProfileEntry : Type 0 where
  pub is_deleted : Bool
  pub transfer_restriction_status : ℕ

pub record Core : Type 1 where
  -- uint256
  pub mul_overflow : ℕ → ℕ → ℕ × Bool
  pub from_big : ℕ → ℕ × Bool
  pub div : ℕ → ℕ → ℕ
  pub mul_overflow_fits : (a b : ℕ) → a * b < 2 ^ 256 → mul_overflow a b ≡ (a * b, false)
  pub mul_overflow_wraps : (a b : ℕ) → 2 ^ 256 ≤ a * b → (mul_overflow a b).1 ≡ true
  pub from_big_fits : (a : ℕ) → a < 2 ^ 256 → from_big a ≡ (a, false)
  pub from_big_wraps : (a : ℕ) → 2 ^ 256 ≤ a → (from_big a).1 ≡ true
  pub div_lem : (a b : ℕ) → b ≢ 0 → div a b ≡ a / b
  -- constants of deso-core
  pub nanos_per_unit : ℕ
  pub base_units_per_coin : ℕ
  pub one_e38 : ℕ
  pub nanos_per_unit_lem : nanos_per_unit ≡ 10 ^ 9
  pub base_units_per_coin_lem : base_units_per_coin ≡ 10 ^ 18
  pub one_e38_lem : one_e38 ≡ 10 ^ 38
  pub operation_type_ask : ℕ
  pub operation_type_bid : ℕ
  pub operation_types_differ : operation_type_ask ≢ operation_type_bid
  pub fill_type_good_till_cancelled : ℕ
  pub fill_type_fill_or_kill : ℕ
  pub fill_type_immediate_or_cancel : ℕ
  -- decimal strings
  pub calculate_scaled_exchange_rate_from_string : Bytes → Result Bytes ℕ
  pub format_scaled_uint256_as_decimal_string : ℕ → ℕ → Bytes
  pub scale_float_format_string_to_uint256 : Bytes → ℕ → Result Bytes ℕ
  pub get_num_digits : ℕ → ℕ
  pub print_big : ℕ → Bytes
  -- float64
  pub Float : Type 0
  pub parse_float : Bytes → Result Bytes Float
  pub is_negative : Float → Bool
  -- keys
  pub zero_pkid : Bytes
  pub base58_check_decode : Bytes → Result Bytes Bytes
  pub base58_check_encode : Bytes → Bytes
  pub pub_key_bytes_len_compressed : ℕ
  -- the UTXO view
  pub View : Type 0
  pub get_pkid_for_public_key : View → Bytes → Bytes
  pub get_public_key_for_pkid : View → Bytes → Bytes
  pub get_orders_for_pair : View → Bytes → Bytes → Result Bytes (List OrderEntry)
  pub get_orders_for_transactor : View → Bytes → Result Bytes (List OrderEntry)
  pub get_deso_balance_nanos : View → Bytes → Result Bytes ℕ
  pub get_balance_entry : View → Bytes → Bytes → Option ℕ
  pub get_profile_entry : View → Bytes → Option ProfileEntry
  -- sums of selling quantities
  pub compute_base_units_to_sell : ℕ → ℕ → Result Bytes ℕ
  pub order_base_units_to_sell : OrderEntry → Result Bytes ℕ
  pub safe_add : ℕ → ℕ → Result Bytes ℕ
  pub safe_add_lem : (a b : ℕ) {s : ℕ} → safe_add a b ≡ ok s → s ≡ a + b
  pub safe_add_fits : (a b : ℕ) → a + b < 2 ^ 256 → safe_add a b ≡ ok (a + b)
  pub transfer_restriction_profile_owner_only : ℕ
  pub transfer_restriction_dao_members_only : ℕ
