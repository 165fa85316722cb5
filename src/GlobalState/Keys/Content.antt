-- ===== src/GlobalState/Keys/Content.antt =====
-- Keys of the global state, of users, posts and referrals (routes/global_state.go). A key is a prefix
-- byte and the parts behind it; every Go function copies the prefix before it appends.
use deso_backend.Base.{ℕ, ◌∷◌, ◌++◌, Bytes, Result, ok, ◌>>=◌}
use deso_backend.GlobalState.Encoding.{Encoding}
use deso_backend.GlobalState.Prefix.{
  prefix_byte, for_hot_feed_approved_post_ops, for_hot_feed_pkid_multiplier_ops, graylist_audit_log,
  nft_drop_number_to_nft_drop_entry, phone_number_to_multi_phone_number_metadata,
  phone_number_to_phone_number_metadata, pkid_referral_hash_referee_pkid,
  pkid_referral_hash_to_is_active, public_key_to_blacklist_state, public_key_to_graylist_state,
  public_key_to_user_metadata, referral_hash_to_referral_info,
  timestamp_pkid_referral_hash_referee_pkid, tstamp_nanos_pinned_post_hash, tstamp_nanos_post_hash,
  username_verification_audit_log, whitelist_audit_log,
}

module _ (e : Encoding) where
  unfoldable pub key_for_nft_drop_entry : ℕ → Bytes
  key_for_nft_drop_entry drop_number =
      prefix_byte nft_drop_number_to_nft_drop_entry ∷ e.encode_uint64 drop_number

  unfoldable pub key_for_phone_number_bytes_to_phone_number_metadata : Bytes → Bytes
  key_for_phone_number_bytes_to_phone_number_metadata phone_number_bytes =
      prefix_byte phone_number_to_phone_number_metadata ∷ phone_number_bytes

  unfoldable pub key_for_phone_number_bytes_to_multi_phone_number_metadata : Bytes → Bytes
  key_for_phone_number_bytes_to_multi_phone_number_metadata phone_number_bytes =
      prefix_byte phone_number_to_multi_phone_number_metadata ∷ phone_number_bytes

  unfoldable pub key_for_public_key_to_user_metadata : Bytes → Bytes
  key_for_public_key_to_user_metadata profile_pub_key =
      prefix_byte public_key_to_user_metadata ∷ profile_pub_key

  unfoldable pub key_for_referral_hash_to_referral_info : Bytes → Bytes
  key_for_referral_hash_to_referral_info referral_hash_bytes =
      prefix_byte referral_hash_to_referral_info ∷ referral_hash_bytes

  unfoldable pub key_for_pkid_referral_hash_to_is_active : Bytes → Bytes → Bytes
  key_for_pkid_referral_hash_to_is_active pkid referral_hash_bytes =
      prefix_byte pkid_referral_hash_to_is_active ∷ (pkid ++ referral_hash_bytes)

  unfoldable pub seek_key_for_hot_feed_approved_post_ops : ℕ → Bytes
  seek_key_for_hot_feed_approved_post_ops start_timestamp_nanos =
      prefix_byte for_hot_feed_approved_post_ops ∷ e.encode_uint64 start_timestamp_nanos

  unfoldable pub key_for_hot_feed_approved_post_op : ℕ → Bytes → Bytes
  key_for_hot_feed_approved_post_op op_timestamp_nanos post_hash =
      prefix_byte for_hot_feed_approved_post_ops ∷ (e.encode_uint64 op_timestamp_nanos ++ post_hash)

  unfoldable pub seek_key_for_hot_feed_pkid_multiplier_ops : ℕ → Bytes
  seek_key_for_hot_feed_pkid_multiplier_ops start_timestamp_nanos =
      prefix_byte for_hot_feed_pkid_multiplier_ops ∷ e.encode_uint64 start_timestamp_nanos

  unfoldable pub key_for_hot_feed_pkid_multiplier_op : ℕ → Bytes → Bytes
  key_for_hot_feed_pkid_multiplier_op op_timestamp_nanos op_pkid =
      prefix_byte for_hot_feed_pkid_multiplier_ops ∷ (e.encode_uint64 op_timestamp_nanos ++ op_pkid)

  unfoldable pub seek_key_for_pkid_referral_hashes : Bytes → Bytes
  seek_key_for_pkid_referral_hashes pkid = prefix_byte pkid_referral_hash_to_is_active ∷ pkid

  unfoldable pub seek_key_for_pkid_referral_hash_referee_pkids : Bytes → Bytes → Bytes
  seek_key_for_pkid_referral_hash_referee_pkids pkid referral_hash =
      prefix_byte pkid_referral_hash_referee_pkid ∷ (pkid ++ referral_hash)

  unfoldable pub key_for_pkid_referral_hash_referee_pkid : Bytes → Bytes → Bytes → Bytes
  key_for_pkid_referral_hash_referee_pkid pkid referral_hash referee_pkid =
      prefix_byte pkid_referral_hash_referee_pkid ∷ (pkid ++ (referral_hash ++ referee_pkid))

  unfoldable pub key_for_timestamp_pkid_referral_hash_referee_pkid :
      ℕ → Bytes → Bytes → Bytes → Bytes
  key_for_timestamp_pkid_referral_hash_referee_pkid tstamp_nanos pkid referral_hash referee_pkid =
      prefix_byte timestamp_pkid_referral_hash_referee_pkid
      ∷ (e.encode_uint64 tstamp_nanos ++ (pkid ++ (referral_hash ++ referee_pkid)))

  unfoldable pub key_for_tstamp_post_hash : ℕ → Bytes → Bytes
  key_for_tstamp_post_hash tstamp_nanos post_hash =
      prefix_byte tstamp_nanos_post_hash ∷ (e.encode_uint64 tstamp_nanos ++ post_hash)

  unfoldable pub seek_key_for_tstamp_post_hash : ℕ → Bytes
  seek_key_for_tstamp_post_hash tstamp_nanos =
      prefix_byte tstamp_nanos_post_hash ∷ e.encode_uint64 tstamp_nanos

  unfoldable pub key_for_tstamp_pinned_post_hash : ℕ → Bytes → Bytes
  key_for_tstamp_pinned_post_hash tstamp_nanos post_hash =
      prefix_byte tstamp_nanos_pinned_post_hash ∷ (e.encode_uint64 tstamp_nanos ++ post_hash)

  unfoldable pub key_for_username_verification_audit_logs : Bytes → Bytes
  key_for_username_verification_audit_logs username =
      prefix_byte username_verification_audit_log ∷ e.to_lower username

  unfoldable pub key_for_whitelist_audit_logs : Bytes → Bytes
  key_for_whitelist_audit_logs username = prefix_byte whitelist_audit_log ∷ e.to_lower username

  unfoldable pub key_for_graylisted_profile : Bytes → Bytes
  key_for_graylisted_profile profile_pub_key =
      prefix_byte public_key_to_graylist_state ∷ profile_pub_key

  unfoldable pub key_for_graylist_audit_logs : Bytes → Bytes
  key_for_graylist_audit_logs username = prefix_byte graylist_audit_log ∷ e.to_lower username

  unfoldable pub key_for_blacklisted_profile : Bytes → Bytes
  key_for_blacklisted_profile profile_pub_key =
      prefix_byte public_key_to_blacklist_state ∷ profile_pub_key

  unfoldable pub key_for_phone_number_string_to_phone_number_metadata : Bytes → Result Bytes Bytes
  key_for_phone_number_string_to_phone_number_metadata phone_number = do
    formatted_number ← e.format_e164 phone_number
    ok (key_for_phone_number_bytes_to_phone_number_metadata formatted_number)

  unfoldable pub key_for_phone_number_string_to_multi_phone_number_metadata :
      Bytes → Result Bytes Bytes
  key_for_phone_number_string_to_multi_phone_number_metadata phone_number = do
    formatted_number ← e.format_e164 phone_number
    ok (key_for_phone_number_bytes_to_multi_phone_number_metadata formatted_number)
