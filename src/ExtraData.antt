-- ===== src/ExtraData.antt =====
-- The extra data of transactions (routes/extra_data_utils.go): texts in a request and bytes in a
-- transaction, with encodings of their own for the fields that deso-core reads.
pub mod Numerals
pub mod Hex
pub mod Stable
pub mod Maps
pub mod Tests
use deso_backend.Base.{
  ℕ, ◌+◌, ◌-◌, ◌^◌, ◌<◌, ◌≡◌, Bool, not, ◌&&◌, List, [], ◌∷◌, ◌++◌, Bytes, codes, bytes_eq, Option,
  none, some, Result, ok, err, panic, ◌>>=◌, leb, if◌then◌else◌, length, replicate, map, ℤ,
}
use deso_backend.ExtraData.Numerals.{parse_uint, parse_int, format_uint, format_int, IsInt64}
use deso_backend.ExtraData.Hex.{hex_decode, hex_encode}

-- the reserved fields
pub data SpecialKey : Type 0 where
  reposted_post_hash is_quoted_repost_key usd_cents_per_bitcoin_key : SpecialKey
  min_network_fee_nanos_per_kb_key create_profile_fee_nanos_key create_nft_fee_nanos_key :
      SpecialKey
  max_copies_per_nft_key forbidden_block_signature_pub_key_key diamond_level_key : SpecialKey
  diamond_post_hash_key derived_public_key messaging_public_key sender_messaging_public_key :
      SpecialKey
  sender_messaging_group_key_name recipient_messaging_public_key : SpecialKey
  recipient_messaging_group_key_name buy_now_price_key deso_royalties_map_key : SpecialKey
  coin_royalties_map_key messages_version_string node_source_map_key derived_key_memo_key :
      SpecialKey
  transaction_spending_limit_key : SpecialKey

-- What extra data uses of deso-core: the names of the fields, variable-length integers, and keys in
-- base58. `put_uvarint` and `put_varint` give the bytes that are written. A map of keys to numbers is
-- the list of its entries, which `sprint` prints, as `fmt.Sprint` does; there are none where the bytes
-- are not those of a map. `decode_transaction_spending_limit` is the decoder of a spending limit.
pub record ExtraLib : Type 0 where
  pub key_name : SpecialKey → Bytes
  pub key_name-injective : (s t : SpecialKey) → key_name s ≡ key_name t → s ≡ t
  pub max_varint_len64 : ℕ
  pub put_uvarint : ℕ → Bytes
  pub uvarint : Bytes → ℕ
  pub uvarint-put_uvarint :
      (n : ℕ) (after : Bytes) → n < 2 ^ 64 → uvarint (put_uvarint n ++ after) ≡ n
  pub put_varint : ℤ → Bytes
  pub varint : Bytes → ℤ
  pub varint-put_varint : (z : ℤ) (after : Bytes) → IsInt64 z → varint (put_varint z ++ after) ≡ z
  pub base58_check_decode : Bytes → Result Bytes Bytes
  pub pk_to_string : Bytes → Bytes
  pub decode-pk_to_string :
      (text : Bytes) {key : Bytes}
      → base58_check_decode text ≡ ok key
      → base58_check_decode (pk_to_string key) ≡ ok key
  pub deserialize_pub_key_to_uint64_map : Bytes → List (Bytes × ℕ)
  pub sprint : List (Bytes × ℕ) → Bytes
  pub decode_transaction_spending_limit : Bytes → Bytes

pub record ExtraDataEncoding : Type 0 where
  pub decode : Bytes → Bytes
  pub encode : Bytes → Result Bytes Bytes

abbrev pub all_special_keys : List SpecialKey
all_special_keys =
    reposted_post_hash ∷ is_quoted_repost_key ∷ usd_cents_per_bitcoin_key
    ∷ min_network_fee_nanos_per_kb_key ∷ create_profile_fee_nanos_key ∷ create_nft_fee_nanos_key
    ∷ max_copies_per_nft_key ∷ forbidden_block_signature_pub_key_key ∷ diamond_level_key
    ∷ diamond_post_hash_key ∷ derived_public_key ∷ messaging_public_key
    ∷ sender_messaging_public_key ∷ sender_messaging_group_key_name ∷ recipient_messaging_public_key
    ∷ recipient_messaging_group_key_name ∷ buy_now_price_key ∷ deso_royalties_map_key
    ∷ coin_royalties_map_key ∷ messages_version_string ∷ node_source_map_key ∷ derived_key_memo_key
    ∷ transaction_spending_limit_key ∷ []

abbrev pub reserved_field_cannot_encode : Bytes → Result Bytes Bytes
reserved_field_cannot_encode text = err []

abbrev pub decode_string : Bytes → Bytes
decode_string bytes = bytes

abbrev pub encode_string : Bytes → Result Bytes Bytes
encode_string text = ok text

abbrev pub decode_hex_string : Bytes → Bytes
decode_hex_string bytes = hex_encode bytes

abbrev pub encode_hex_string : Bytes → Result Bytes Bytes
encode_hex_string text = hex_decode text

module _ (xl : ExtraLib) where
  -- what is written at the front of a new buffer, and panics where the buffer is too short
  unfoldable pub buffer_with : Bytes → Result Bytes Bytes
  buffer_with written =
      if leb (length written) xl.max_varint_len64
      then ok (written ++ replicate (xl.max_varint_len64 - length written) 0)
      else panic

  abbrev pub decode_64_bit_int_string : Bytes → Bytes
  decode_64_bit_int_string bytes = format_int (xl.varint bytes)

  unfoldable pub encode_64_bit_int_string : Bytes → Result Bytes Bytes
  encode_64_bit_int_string text = parse_int text >>= λ encoded. buffer_with (xl.put_varint encoded)

  abbrev pub decode_64_bit_uint_string : Bytes → Bytes
  decode_64_bit_uint_string bytes = format_uint (xl.uvarint bytes)

  unfoldable pub encode_64_bit_uint_string : Bytes → Result Bytes Bytes
  encode_64_bit_uint_string text =
      parse_uint text >>= λ encoded. buffer_with (xl.put_uvarint encoded)

  abbrev pub decode_bool_string : Bytes → Bytes
  decode_bool_string bytes = decode_64_bit_uint_string bytes

  unfoldable pub encode_bool_string : Bytes → Result Bytes Bytes
  encode_bool_string text =
      if not (bytes_eq text (codes "0")) && not (bytes_eq text (codes "1"))
      then err []
      else encode_64_bit_uint_string text

  abbrev pub encode_pk_string_to_bytes : Bytes → Result Bytes Bytes
  encode_pk_string_to_bytes text = xl.base58_check_decode text

  abbrev pub decode_pk_to_string : Bytes → Bytes
  decode_pk_to_string bytes = xl.pk_to_string bytes

  abbrev pub decode_pub_key_to_uint64_map_string : Bytes → Bytes
  decode_pub_key_to_uint64_map_string bytes =
      xl.sprint
        (map (λ (key, n). (xl.pk_to_string key, n)) (xl.deserialize_pub_key_to_uint64_map bytes))

  unfoldable pub special_encoding : SpecialKey → ExtraDataEncoding
  special_encoding reposted_post_hash = record {
    decode = decode_hex_string;
    encode = encode_hex_string;
  }
  special_encoding is_quoted_repost_key = record {
    decode = decode_bool_string;
    encode = encode_bool_string;
  }
  special_encoding usd_cents_per_bitcoin_key = record {
    decode = decode_64_bit_uint_string;
    encode = encode_64_bit_uint_string;
  }
  special_encoding min_network_fee_nanos_per_kb_key = record {
    decode = decode_64_bit_uint_string;
    encode = encode_64_bit_uint_string;
  }
  special_encoding create_profile_fee_nanos_key = record {
    decode = decode_64_bit_uint_string;
    encode = encode_64_bit_uint_string;
  }
  special_encoding create_nft_fee_nanos_key = record {
    decode = decode_64_bit_uint_string;
    encode = encode_64_bit_uint_string;
  }
  special_encoding max_copies_per_nft_key = record {
    decode = decode_64_bit_uint_string;
    encode = encode_64_bit_uint_string;
  }
  special_encoding forbidden_block_signature_pub_key_key = record {
    decode = decode_pk_to_string;
    encode = encode_pk_string_to_bytes;
  }
  special_encoding diamond_level_key = record {
    decode = decode_64_bit_int_string;
    encode = encode_64_bit_int_string;
  }
  special_encoding diamond_post_hash_key = record {
    decode = decode_hex_string;
    encode = encode_hex_string;
  }
  special_encoding derived_public_key = record {
    decode = decode_pk_to_string;
    encode = encode_pk_string_to_bytes;
  }
  special_encoding messaging_public_key = record {
    decode = decode_pk_to_string;
    encode = encode_pk_string_to_bytes;
  }
  special_encoding sender_messaging_public_key = record {
    decode = decode_pk_to_string;
    encode = encode_pk_string_to_bytes;
  }
  special_encoding sender_messaging_group_key_name = record {
    decode = decode_string;
    encode = encode_string;
  }
  special_encoding recipient_messaging_public_key = record {
    decode = decode_pk_to_string;
    encode = encode_pk_string_to_bytes;
  }
  special_encoding recipient_messaging_group_key_name = record {
    decode = decode_string;
    encode = encode_string;
  }
  special_encoding buy_now_price_key = record {
    decode = decode_64_bit_uint_string;
    encode = encode_64_bit_uint_string;
  }
  special_encoding deso_royalties_map_key = record {
    decode = decode_pub_key_to_uint64_map_string;
    encode = reserved_field_cannot_encode;
  }
  special_encoding coin_royalties_map_key = record {
    decode = decode_pub_key_to_uint64_map_string;
    encode = reserved_field_cannot_encode;
  }
  special_encoding messages_version_string = record {
    decode = decode_64_bit_uint_string;
    encode = encode_64_bit_uint_string;
  }
  special_encoding node_source_map_key = record {
    decode = decode_64_bit_uint_string;
    encode = encode_64_bit_uint_string;
  }
  special_encoding derived_key_memo_key = record {
    decode = decode_hex_string;
    encode = encode_hex_string;
  }
  special_encoding transaction_spending_limit_key = record {
    decode = xl.decode_transaction_spending_limit;
    encode = reserved_field_cannot_encode;
  }

  unfoldable pub find_encoding : Bytes → List SpecialKey → Option ExtraDataEncoding
  find_encoding key [] = none
  find_encoding key (s ∷ keys) =
      let rest = find_encoding key keys in
      if bytes_eq (xl.key_name s) key then some (special_encoding s) else rest

  unfoldable pub get_extra_data_field_encoding : Bytes → ExtraDataEncoding
  get_extra_data_field_encoding key = elim (find_encoding key all_special_keys) [
    | none ↦ record { decode = decode_string; encode = encode_string }
    | some encoding ↦ encoding
  ]

  -- the error of the field that is visited first is the one that is told
  unfoldable pub encode_extra_data_map : List (Bytes × Bytes) → Result Bytes (List (Bytes × Bytes))
  encode_extra_data_map [] = ok []
  encode_extra_data_map ((key, text) ∷ extra_data) = do
    processed ← encode_extra_data_map extra_data
    encoded ← (get_extra_data_field_encoding key).encode text
    ok ((key, encoded) ∷ processed)

  unfoldable pub decode_field : Bytes × Bytes → Bytes × Bytes
  decode_field (key, bytes) = (key, (get_extra_data_field_encoding key).decode bytes)

  -- of an empty map, nil
  unfoldable pub decode_extra_data_map : List (Bytes × Bytes) → Option (List (Bytes × Bytes))
  decode_extra_data_map [] = none
  decode_extra_data_map (field ∷ extra_data) = some (map decode_field (field ∷ extra_data))
