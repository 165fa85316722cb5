-- ===== src/ExtraData/Tests.antt =====
-- A map of extra data with fields of several encodings.
use deso_backend.Base.{
  ℕ, zero, suc, ◌^◌, ◌<◌, ◌≡◌, ◌≢◌, inl, inr, refl, ap, List, [], ◌∷◌, ◌++◌, Bytes, codes, bytes_eq,
  some, ok, get_elem?, ℤ, pos, negsuc,
}
use deso_backend.ExtraData.Numerals.{
  parse_uint, parse_int, parse_digits, negative, format_uint, format_int, format_digits, IsInt64,
}
use deso_backend.ExtraData.Hex.{hex_decode, hex_encode, hex_value}
use deso_backend.ExtraData.{
  SpecialKey, is_quoted_repost_key, usd_cents_per_bitcoin_key, diamond_level_key,
  diamond_post_hash_key, coin_royalties_map_key, ExtraLib, all_special_keys, buffer_with,
  encode_64_bit_int_string, encode_64_bit_uint_string, encode_bool_string, special_encoding,
  find_encoding, get_extra_data_field_encoding, encode_extra_data_map, decode_field,
  decode_extra_data_map,
}
use deso_backend.ExtraData.Maps.{
  fields_of, encode-decode_extra_data_map, encode_extra_data_map-reserved,
}

abbrev place : SpecialKey → ℕ
place SpecialKey.reposted_post_hash = 0
place SpecialKey.is_quoted_repost_key = 1
place SpecialKey.usd_cents_per_bitcoin_key = 2
place SpecialKey.min_network_fee_nanos_per_kb_key = 3
place SpecialKey.create_profile_fee_nanos_key = 4
place SpecialKey.create_nft_fee_nanos_key = 5
place SpecialKey.max_copies_per_nft_key = 6
place SpecialKey.forbidden_block_signature_pub_key_key = 7
place SpecialKey.diamond_level_key = 8
place SpecialKey.diamond_post_hash_key = 9
place SpecialKey.derived_public_key = 10
place SpecialKey.messaging_public_key = 11
place SpecialKey.sender_messaging_public_key = 12
place SpecialKey.sender_messaging_group_key_name = 13
place SpecialKey.recipient_messaging_public_key = 14
place SpecialKey.recipient_messaging_group_key_name = 15
place SpecialKey.buy_now_price_key = 16
place SpecialKey.deso_royalties_map_key = 17
place SpecialKey.coin_royalties_map_key = 18
place SpecialKey.messages_version_string = 19
place SpecialKey.node_source_map_key = 20
place SpecialKey.derived_key_memo_key = 21
place SpecialKey.transaction_spending_limit_key = 22

key_at_place : (s : SpecialKey) → get_elem? all_special_keys (place s) ≡ some s
key_at_place SpecialKey.reposted_post_hash = refl
key_at_place SpecialKey.is_quoted_repost_key = refl
key_at_place SpecialKey.usd_cents_per_bitcoin_key = refl
key_at_place SpecialKey.min_network_fee_nanos_per_kb_key = refl
key_at_place SpecialKey.create_profile_fee_nanos_key = refl
key_at_place SpecialKey.create_nft_fee_nanos_key = refl
key_at_place SpecialKey.max_copies_per_nft_key = refl
key_at_place SpecialKey.forbidden_block_signature_pub_key_key = refl
key_at_place SpecialKey.diamond_level_key = refl
key_at_place SpecialKey.diamond_post_hash_key = refl
key_at_place SpecialKey.derived_public_key = refl
key_at_place SpecialKey.messaging_public_key = refl
key_at_place SpecialKey.sender_messaging_public_key = refl
key_at_place SpecialKey.sender_messaging_group_key_name = refl
key_at_place SpecialKey.recipient_messaging_public_key = refl
key_at_place SpecialKey.recipient_messaging_group_key_name = refl
key_at_place SpecialKey.buy_now_price_key = refl
key_at_place SpecialKey.deso_royalties_map_key = refl
key_at_place SpecialKey.coin_royalties_map_key = refl
key_at_place SpecialKey.messages_version_string = refl
key_at_place SpecialKey.node_source_map_key = refl
key_at_place SpecialKey.derived_key_memo_key = refl
key_at_place SpecialKey.transaction_spending_limit_key = refl

abbrev name_of : SpecialKey → Bytes
name_of s = place s ∷ []

name_of-injective : (s t : SpecialKey) → name_of s ≡ name_of t → s ≡ t
name_of-injective s t e =
    let same : place s ≡ place t = cc e in
    cc (key_at_place s, key_at_place t, ap (get_elem? all_special_keys) same)

unfoldable read_uvarint : Bytes → ℕ
read_uvarint [] = 0
read_uvarint (n ∷ after) = n

unfoldable read_varint : Bytes → ℤ
read_varint (sign ∷ n ∷ after) = elim sign [ zero ↦ pos n | suc k ↦ negsuc n ]
read_varint other = pos 0

abbrev write_varint : ℤ → Bytes
write_varint (pos n) = 0 ∷ n ∷ []
write_varint (negsuc n) = 1 ∷ n ∷ []

read_written_varint :
    (z : ℤ) (after : Bytes) → IsInt64 z → read_varint (write_varint z ++ after) ≡ z
unfolding read_varint
read_written_varint (pos n) after h = refl
read_written_varint (negsuc n) after h = refl

read_written_uvarint : (n : ℕ) (after : Bytes) → n < 2 ^ 64 → read_uvarint ((n ∷ []) ++ after) ≡ n
unfolding read_uvarint
read_written_uvarint n after h = refl

abbrev extra_lib : ExtraLib
extra_lib = record {
  key_name = name_of;
  key_name-injective = name_of-injective;
  max_varint_len64 = 3;
  put_uvarint = λ n. n ∷ [];
  uvarint = read_uvarint;
  uvarint-put_uvarint = read_written_uvarint;
  put_varint = write_varint;
  varint = read_varint;
  varint-put_varint = read_written_varint;
  base58_check_decode = ok;
  pk_to_string = λ key. key;
  decode-pk_to_string = λ text {key} h. refl;
  deserialize_pub_key_to_uint64_map = λ bytes. [];
  sprint = λ entries. codes "map[]";
  decode_transaction_spending_limit = λ bytes. bytes;
}

abbrev fields : List (Bytes × Bytes)
fields =
    (codes "k", codes "v")
    ∷ (name_of usd_cents_per_bitcoin_key, codes "007")
    ∷ (name_of is_quoted_repost_key, codes "1")
    ∷ (name_of diamond_level_key, codes "-5")
    ∷ (name_of diamond_post_hash_key, codes "aB")
    ∷ []

abbrev stored : List (Bytes × Bytes)
stored =
    (codes "k", codes "v")
    ∷ (name_of usd_cents_per_bitcoin_key, 7 ∷ 0 ∷ 0 ∷ [])
    ∷ (name_of is_quoted_repost_key, 1 ∷ 0 ∷ 0 ∷ [])
    ∷ (name_of diamond_level_key, 1 ∷ 4 ∷ 0 ∷ [])
    ∷ (name_of diamond_post_hash_key, 171 ∷ [])
    ∷ []

fields_encoded : encode_extra_data_map extra_lib fields ≡ ok stored
unfolding encode_extra_data_map get_extra_data_field_encoding find_encoding special_encoding
    bytes_eq encode_64_bit_uint_string encode_64_bit_int_string encode_bool_string buffer_with
    parse_uint parse_int parse_digits negative hex_decode hex_value
fields_encoded = refl

-- the number and the digits are in their standard form
stored_decoded :
    decode_extra_data_map extra_lib stored
    ≡ some (
        (codes "k", codes "v")
        ∷ (name_of usd_cents_per_bitcoin_key, codes "7")
        ∷ (name_of is_quoted_repost_key, codes "1")
        ∷ (name_of diamond_level_key, codes "-5")
        ∷ (name_of diamond_post_hash_key, codes "ab")
        ∷ [])
unfolding decode_extra_data_map decode_field get_extra_data_field_encoding find_encoding
    special_encoding bytes_eq format_uint format_int format_digits hex_encode read_uvarint
    read_varint
stored_decoded = refl

encode-decode_extra_data_map_example :
    encode_extra_data_map extra_lib (fields_of (decode_extra_data_map extra_lib stored)) ≡ ok stored
encode-decode_extra_data_map_example =
    encode-decode_extra_data_map extra_lib fields stored fields_encoded

encode_extra_data_map-reserved_example :
    encode_extra_data_map extra_lib
      ((codes "k", codes "v") ∷ (name_of coin_royalties_map_key, codes "x") ∷ [])
    ≢ ok []
encode_extra_data_map-reserved_example =
    encode_extra_data_map-reserved extra_lib coin_royalties_map_key
      ((codes "k", codes "v") ∷ (name_of coin_royalties_map_key, codes "x") ∷ []) []
      (inr (inl refl)) (inr (inl refl))
