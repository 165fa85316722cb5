-- ===== src/SpendingLimits/Convert.antt =====
-- `TransactionSpendingLimitToResponse` and `TransactionSpendingLimitFromResponse`
-- (routes/transaction.go).
use deso_backend.Base.{
  ℕ, Bool, [], Bytes, codes, bytes_eq, Option, none, some, Result, ok, err, ◌>>=◌, or_fail, ◌==◌,
  if◌then◌else◌, length,
}
use deso_backend.NftDrop.{DropCodec, get_post_hash_from_post_hash_hex}
use deso_backend.SpendingLimits.{
  GoMap, to_nested, to_twice_nested, from_nested, from_twice_nested, to_counts, from_counts,
  bytes_test, number_test, pair_test,
}

-- what the limits use of deso-core: keys, the names of types and operations, and a view
pub record LimitLib : Type 1 where
  pub View : Type 0
  pub zero_pkid : Bytes
  pub pk_to_string : Bytes → Bytes
  pub base58_check_decode : Bytes → Result Bytes Bytes
  pub get_public_key_for_pkid : View → Bytes → Bytes
  pub get_pkid_for_public_key : View → Bytes → Option Bytes
  pub txn_string : ℕ → Bytes
  pub get_txn_type_from_string : Bytes → ℕ
  pub creator_coin_operation_text : ℕ → Bytes
  pub creator_coin_operation : Bytes → ℕ
  pub dao_coin_operation_text : ℕ → Bytes
  pub dao_coin_operation : Bytes → ℕ
  pub nft_operation_text : ℕ → Bytes
  pub nft_operation : Bytes → ℕ
  pub zero_block_hash : Bytes
  pub hex_encode : Bytes → Bytes
  pub drop_codec : DropCodec

pub data LimitError : Type 0 where
  no_view bad_public_key no_pkid bad_post_hash : LimitError

-- lib.TransactionSpendingLimit; a nil map is an empty one, and the key of an NFT limit is its hash and
-- serial number and its operation
pub record SpendingLimit : Type 0 where
  pub global_deso_limit : ℕ
  pub is_unlimited : Bool
  pub transaction_count_limit_map : GoMap ℕ ℕ
  pub creator_coin_operation_limit_map : GoMap (Bytes × ℕ) ℕ
  pub dao_coin_operation_limit_map : GoMap (Bytes × ℕ) ℕ
  pub nft_operation_limit_map : GoMap ((Bytes × ℕ) × ℕ) ℕ
  pub dao_coin_limit_order_limit_map : GoMap (Bytes × Bytes) ℕ

pub record SpendingLimitResponse : Type 0 where
  pub global_deso_limit : ℕ
  pub is_unlimited : Bool
  pub transaction_count_limit_map : GoMap Bytes ℕ
  pub creator_coin_operation_limit_map : GoMap Bytes (GoMap Bytes ℕ)
  pub dao_coin_operation_limit_map : GoMap Bytes (GoMap Bytes ℕ)
  pub nft_operation_limit_map : GoMap Bytes (GoMap ℕ (GoMap Bytes ℕ))
  pub dao_coin_limit_order_limit_map : GoMap Bytes (GoMap Bytes ℕ)

abbrev pub dao_coin_limit_order_deso_public_key : Bytes
dao_coin_limit_order_deso_public_key = codes "DESO"

module _ (ll : LimitLib) where
  -- the zero PKID has no name
  unfoldable pub creator_name : ll.View → Bytes → Bytes
  creator_name view pkid =
      if bytes_eq pkid ll.zero_pkid
      then []
      else ll.pk_to_string (ll.get_public_key_for_pkid view pkid)

  -- the zero PKID is DESO
  unfoldable pub coin_name : ll.View → Bytes → Bytes
  coin_name view pkid =
      if bytes_eq pkid ll.zero_pkid
      then dao_coin_limit_order_deso_public_key
      else ll.pk_to_string (ll.get_public_key_for_pkid view pkid)

  unfoldable pub get_creator_pkid_for_base58_check : ll.View → Bytes → Result LimitError Bytes
  get_creator_pkid_for_base58_check view text =
      if length text == 0
      then ok ll.zero_pkid
      else or_fail (ll.base58_check_decode text) (λ e. bad_public_key) >>= λ key.
          elim (ll.get_pkid_for_public_key view key) [ none ↦ err no_pkid | some pkid ↦ ok pkid ]

  unfoldable pub coin_pkid : ll.View → Bytes → Result LimitError Bytes
  coin_pkid view text =
      if bytes_eq text dao_coin_limit_order_deso_public_key
      then ok ll.zero_pkid
      else get_creator_pkid_for_base58_check view text

  -- the zero hash has no name
  unfoldable pub post_name : Bytes → Bytes
  post_name hash = if bytes_eq hash ll.zero_block_hash then [] else ll.hex_encode hash

  unfoldable pub post_hash : Bytes → Result LimitError Bytes
  post_hash text =
      if length text == 0
      then ok ll.zero_block_hash
      else or_fail (get_post_hash_from_post_hash_hex ll.drop_codec text) (λ e. bad_post_hash)

  unfoldable pub response_of_limit : ll.View → SpendingLimit → SpendingLimitResponse
  response_of_limit view limit = record {
    global_deso_limit = limit.global_deso_limit;
    is_unlimited = limit.is_unlimited;
    transaction_count_limit_map =
        to_counts bytes_test number_test ll.txn_string limit.transaction_count_limit_map;
    creator_coin_operation_limit_map =
        to_nested bytes_test bytes_test (creator_name view) ll.creator_coin_operation_text
          limit.creator_coin_operation_limit_map;
    dao_coin_operation_limit_map =
        to_nested bytes_test bytes_test (creator_name view) ll.dao_coin_operation_text
          limit.dao_coin_operation_limit_map;
    nft_operation_limit_map =
        to_twice_nested bytes_test bytes_test number_test post_name ll.nft_operation_text
          limit.nft_operation_limit_map;
    dao_coin_limit_order_limit_map =
        to_nested bytes_test bytes_test (coin_name view) (coin_name view)
          limit.dao_coin_limit_order_limit_map;
  }

  -- a nil limit has a nil response
  unfoldable pub transaction_spending_limit_to_response :
      ll.View → Option SpendingLimit → Option SpendingLimitResponse
  transaction_spending_limit_to_response view none = none
  transaction_spending_limit_to_response view (some limit) = some (response_of_limit view limit)

  unfoldable pub transaction_spending_limit_from_response :
      Result Bytes ll.View → SpendingLimitResponse → Result LimitError SpendingLimit
  transaction_spending_limit_from_response augmented_view response = do
    view ← or_fail augmented_view (λ e. no_view)
    creator_coin ←
        from_nested (pair_test bytes_test number_test) (λ text. ok (ll.creator_coin_operation text))
          (get_creator_pkid_for_base58_check view) [] response.creator_coin_operation_limit_map
    dao_coin ←
        from_nested (pair_test bytes_test number_test) (λ text. ok (ll.dao_coin_operation text))
          (get_creator_pkid_for_base58_check view) [] response.dao_coin_operation_limit_map
    nft ←
        from_twice_nested (pair_test (pair_test bytes_test number_test) number_test) post_hash
          (λ text. ok (ll.nft_operation text)) response.nft_operation_limit_map
    limit_order ←
        from_nested (pair_test bytes_test bytes_test) (coin_pkid view) (coin_pkid view) []
          response.dao_coin_limit_order_limit_map
    ok (record {
      global_deso_limit = response.global_deso_limit;
      is_unlimited = response.is_unlimited;
      transaction_count_limit_map =
          from_counts bytes_test number_test ll.get_txn_type_from_string
            response.transaction_count_limit_map;
      creator_coin_operation_limit_map = creator_coin;
      dao_coin_operation_limit_map = dao_coin;
      nft_operation_limit_map = nft;
      dao_coin_limit_order_limit_map = limit_order;
    })
