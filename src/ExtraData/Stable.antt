-- ===== src/ExtraData/Stable.antt =====
-- What an encoding has written is decoded to a text that is encoded to the same bytes.
use deso_backend.Base.{
  ℕ, ◌-◌, ◌^◌, ◌<◌, ◌≡◌, ◌⊎◌, inl, inr, refl, ap, ◌∙◌, subst, false, not, ◌&&◌, Bool-cases, List,
  [], ◌∷◌, ◌++◌, Bytes, codes, bytes_eq, bytes_eq→eq, some, ok, after_step, leb, length, replicate,
  arith, Option-cases,
}
use deso_backend.ExtraData.Numerals.{
  parse_uint, parse_int, format_uint, format_int, parse_digits, format_digits, IsInt64,
  parse_uint-bound, parse_int-IsInt64, parse-format_uint, parse-format_int,
}
use deso_backend.ExtraData.Hex.{hex_decode, hex_encode, hex_decode-bound, decode-hex_encode}
use deso_backend.ExtraData.{
  SpecialKey, ExtraLib, ExtraDataEncoding, all_special_keys, buffer_with, decode_64_bit_uint_string,
  encode_64_bit_int_string, encode_64_bit_uint_string, encode_bool_string, special_encoding,
  find_encoding, get_extra_data_field_encoding,
}

abbrev pub IsStable : ExtraDataEncoding → Type 0
IsStable encoding =
    (text : Bytes) (bytes : Bytes)
    → encoding.encode text ≡ ok bytes
    → encoding.encode (encoding.decode bytes) ≡ ok bytes

module _ (xl : ExtraLib) where
  -- what follows the bytes that were written
  written_before :
      (written : Bytes) {bytes : Bytes}
      → buffer_with xl written ≡ ok bytes
      → (after : Bytes) × (bytes ≡ written ++ after)
  unfolding buffer_with
  written_before written {bytes} h = elim (Bool-cases (leb (length written) xl.max_varint_len64)) [
    | inl e ↦ (replicate (xl.max_varint_len64 - length written) 0, cc (rw e at h))
    | inr e ↦ absurd (cc (rw e at h))
  ]

  -- the number behind what was written
  uint_lem :
      (text bytes : Bytes)
      → encode_64_bit_uint_string xl text ≡ ok bytes
      → (n : ℕ) × (parse_uint text ≡ ok n)
        × (decode_64_bit_uint_string xl bytes ≡ format_uint n)
        × (encode_64_bit_uint_string xl (format_uint n) ≡ ok bytes)
  unfolding encode_64_bit_uint_string
  uint_lem text bytes h = after_step (parse_uint text) h λ n read written.
      let bound : n < 2 ^ 64 = parse_uint-bound text read in
      let (after, same) = written_before (xl.put_uvarint n) written in
      (
        n,
        read,
        ap format_uint (ap xl.uvarint same ∙ xl.uvarint-put_uvarint n after bound),
        rw (parse-format_uint n bound) written,
      )

  uint-IsStable :
      (text bytes : Bytes)
      → encode_64_bit_uint_string xl text ≡ ok bytes
      → encode_64_bit_uint_string xl (decode_64_bit_uint_string xl bytes) ≡ ok bytes
  uint-IsStable text bytes h =
      let (n, read, decoded, again) = uint_lem text bytes h in rw decoded again

  int-IsStable :
      (text bytes : Bytes)
      → encode_64_bit_int_string xl text ≡ ok bytes
      → encode_64_bit_int_string xl (format_int (xl.varint bytes)) ≡ ok bytes
  unfolding encode_64_bit_int_string
  int-IsStable text bytes h = after_step (parse_int text) h λ z read written.
      let bound : IsInt64 z = parse_int-IsInt64 text read in
      let (after, same) = written_before (xl.put_varint z) written in
      let decoded : xl.varint bytes ≡ z = ap xl.varint same ∙ xl.varint-put_varint z after bound in
      rw (decoded, parse-format_int z bound) written

  zero_or_one :
      (text : Bytes)
      → (not (bytes_eq text (codes "0")) && not (bytes_eq text (codes "1"))) ≡ false
      → (text ≡ codes "0") ⊎ (text ≡ codes "1")
  zero_or_one text h = elim (Bool-cases (bytes_eq text (codes "0"))) [
    | inl e ↦ inl (bytes_eq→eq text (codes "0") e)
    | inr e ↦ inr (bytes_eq→eq text (codes "1") (ground (arith, e, h)))
  ]

  bit_lem :
      (text : Bytes) {n : ℕ}
      → (text ≡ codes "0") ⊎ (text ≡ codes "1")
      → parse_uint text ≡ ok n
      → format_uint n ≡ text
  unfolding parse_uint parse_digits format_uint format_digits
  bit_lem text {n} (inl e) h =
      let is_zero : 0 ≡ n = cc (rw e at h) in
      rw e (subst (λ m. format_uint m ≡ codes "0") is_zero refl)
  bit_lem text {n} (inr e) h =
      let is_one : 1 ≡ n = cc (rw e at h) in
      rw e (subst (λ m. format_uint m ≡ codes "1") is_one refl)

  bool-IsStable :
      (text bytes : Bytes)
      → encode_bool_string xl text ≡ ok bytes
      → encode_bool_string xl (decode_64_bit_uint_string xl bytes) ≡ ok bytes
  unfolding encode_bool_string
  bool-IsStable text bytes h =
      elim (Bool-cases (not (bytes_eq text (codes "0")) && not (bytes_eq text (codes "1")))) [
        | inl e ↦ absurd (cc (rw e at h))
        | inr e ↦
            let (n, read, decoded, again) = uint_lem text bytes (rw e at h) in
            rw (decoded ∙ bit_lem text (zero_or_one text e) read) h
      ]

  hex-IsStable :
      (text bytes : Bytes) → hex_decode text ≡ ok bytes → hex_decode (hex_encode bytes) ≡ ok bytes
  hex-IsStable text bytes h = decode-hex_encode bytes (hex_decode-bound text h)

  special_encoding-IsStable : (s : SpecialKey) → IsStable (special_encoding xl s)
  unfolding special_encoding
  special_encoding-IsStable SpecialKey.reposted_post_hash = hex-IsStable
  special_encoding-IsStable SpecialKey.is_quoted_repost_key = bool-IsStable
  special_encoding-IsStable SpecialKey.usd_cents_per_bitcoin_key = uint-IsStable
  special_encoding-IsStable SpecialKey.min_network_fee_nanos_per_kb_key = uint-IsStable
  special_encoding-IsStable SpecialKey.create_profile_fee_nanos_key = uint-IsStable
  special_encoding-IsStable SpecialKey.create_nft_fee_nanos_key = uint-IsStable
  special_encoding-IsStable SpecialKey.max_copies_per_nft_key = uint-IsStable
  special_encoding-IsStable SpecialKey.forbidden_block_signature_pub_key_key =
      λ text bytes h. xl.decode-pk_to_string text h
  special_encoding-IsStable SpecialKey.diamond_level_key = int-IsStable
  special_encoding-IsStable SpecialKey.diamond_post_hash_key = hex-IsStable
  special_encoding-IsStable SpecialKey.derived_public_key =
      λ text bytes h. xl.decode-pk_to_string text h
  special_encoding-IsStable SpecialKey.messaging_public_key =
      λ text bytes h. xl.decode-pk_to_string text h
  special_encoding-IsStable SpecialKey.sender_messaging_public_key =
      λ text bytes h. xl.decode-pk_to_string text h
  special_encoding-IsStable SpecialKey.sender_messaging_group_key_name = λ text bytes h. refl
  special_encoding-IsStable SpecialKey.recipient_messaging_public_key =
      λ text bytes h. xl.decode-pk_to_string text h
  special_encoding-IsStable SpecialKey.recipient_messaging_group_key_name = λ text bytes h. refl
  special_encoding-IsStable SpecialKey.buy_now_price_key = uint-IsStable
  special_encoding-IsStable SpecialKey.deso_royalties_map_key = λ text bytes h. absurd cc
  special_encoding-IsStable SpecialKey.coin_royalties_map_key = λ text bytes h. absurd cc
  special_encoding-IsStable SpecialKey.messages_version_string = uint-IsStable
  special_encoding-IsStable SpecialKey.node_source_map_key = uint-IsStable
  special_encoding-IsStable SpecialKey.derived_key_memo_key = hex-IsStable
  special_encoding-IsStable SpecialKey.transaction_spending_limit_key = λ text bytes h. absurd cc

  find_encoding-IsStable :
      (key : Bytes) (keys : List SpecialKey) {encoding : ExtraDataEncoding}
      → find_encoding xl key keys ≡ some encoding
      → IsStable encoding
  unfolding find_encoding
  find_encoding-IsStable key [] h = absurd cc
  find_encoding-IsStable key (s ∷ keys) {encoding} h =
      elim (Bool-cases (bytes_eq (xl.key_name s) key)) [
        | inl e ↦
            let same : special_encoding xl s ≡ encoding = cc (rw e at h) in
            subst IsStable same (special_encoding-IsStable s)
        | inr e ↦ find_encoding-IsStable key keys (rw e at h)
      ]

  pub field_encoding-IsStable : (key : Bytes) → IsStable (get_extra_data_field_encoding xl key)
  unfolding get_extra_data_field_encoding
  field_encoding-IsStable key = elim (Option-cases (find_encoding xl key all_special_keys)) [
    | inl e ↦ rw (e, get_extra_data_field_encoding) (λ text bytes h. refl)
    | inr (encoding, e) ↦
        rw (e, get_extra_data_field_encoding) (find_encoding-IsStable key all_special_keys e)
  ]
