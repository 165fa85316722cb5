-- ===== src/SpendingLimits/Tests.antt =====
-- A spending limit with small keys (routes/transaction.go).
use deso_backend.Base.{
  ℕ, ◌≡◌, refl, false, [], ◌∷◌, Bytes, bytes_eq, some, Result, ok, err, replicate,
}
use deso_backend.NftDrop.{get_post_hash_from_post_hash_hex}
use deso_backend.NftDrop.Tests.{codec}
use deso_backend.SpendingLimits.Convert.{
  LimitLib, SpendingLimit, SpendingLimitResponse, creator_name, coin_name, post_name, post_hash,
  get_creator_pkid_for_base58_check, coin_pkid, transaction_spending_limit_to_response,
  transaction_spending_limit_from_response,
}
use deso_backend.SpendingLimits.RoundTrip.{HasNames, IsSameLimit, limit_from_response_to_response}

unfoldable first_of : Bytes → ℕ
first_of [] = 0
first_of (x ∷ text) = x

unfoldable decode_key : Bytes → Result Bytes Bytes
decode_key [] = err []
decode_key (x ∷ key) = ok key

-- a key is written behind a 1, a type or an operation as one byte
abbrev limit_lib : LimitLib
limit_lib = record {
  View = Unit {0};
  zero_pkid = 0 ∷ [];
  pk_to_string = λ key. 1 ∷ key;
  base58_check_decode = decode_key;
  get_public_key_for_pkid = λ view pkid. pkid;
  get_pkid_for_public_key = λ view key. some key;
  txn_string = λ t. t ∷ [];
  get_txn_type_from_string = first_of;
  creator_coin_operation_text = λ o. o ∷ [];
  creator_coin_operation = first_of;
  dao_coin_operation_text = λ o. o ∷ [];
  dao_coin_operation = first_of;
  nft_operation_text = λ o. o ∷ [];
  nft_operation = first_of;
  zero_block_hash = replicate 32 0;
  hex_encode = λ hash. hash;
  drop_codec = codec;
}

abbrev small_limit : SpendingLimit
small_limit = record {
  global_deso_limit = 1000;
  is_unlimited = false;
  transaction_count_limit_map = (2, 5) ∷ (3, 6) ∷ [];
  creator_coin_operation_limit_map = ((9 ∷ [], 1), 3) ∷ ((9 ∷ [], 2), 4) ∷ ((0 ∷ [], 1), 8) ∷ [];
  dao_coin_operation_limit_map = ((9 ∷ [], 1), 3) ∷ [];
  nft_operation_limit_map =
      (((replicate 32 5, 1), 2), 3)
      ∷ (((replicate 32 5, 2), 2), 4)
      ∷ (((replicate 32 0, 1), 1), 5)
      ∷ [];
  dao_coin_limit_order_limit_map = ((0 ∷ [], 9 ∷ []), 7) ∷ [];
}

small-HasNames : HasNames limit_lib tt small_limit
unfolding first_of decode_key creator_name coin_name get_creator_pkid_for_base58_check coin_pkid
    bytes_eq post_name post_hash get_post_hash_from_post_hash_hex
small-HasNames = record {
  types = (refl, (refl, tt));
  creators = ((refl, refl), ((refl, refl), ((refl, refl), tt)));
  coins = ((refl, refl), tt);
  nfts = ((refl, refl), ((refl, refl), ((refl, refl), tt)));
  pairs = ((refl, refl), tt);
}

limit_from_response_to_response_example :
    (response : SpendingLimitResponse) × (other : SpendingLimit)
    × (transaction_spending_limit_to_response limit_lib tt (some small_limit) ≡ some response)
    × (transaction_spending_limit_from_response limit_lib (ok tt) response ≡ ok other)
    × IsSameLimit limit_lib tt small_limit other
limit_from_response_to_response_example =
    limit_from_response_to_response limit_lib tt small_limit small-HasNames
