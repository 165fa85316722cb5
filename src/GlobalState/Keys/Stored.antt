-- ===== src/GlobalState/Keys/Stored.antt =====
-- The kinds of record that are kept under a key of their own, with what each key is made of
-- (routes/global_state.go).
use deso_backend.Base.{ℕ, ◌≡◌, refl, some, Bytes, ap}
use deso_backend.GlobalState.Encoding.{Encoding}
use deso_backend.GlobalState.Prefix.{Prefix, prefix_byte}
use deso_backend.GlobalState.Prefix.Distinct.{prefix_byte-injective}
use mathlib.Core.List.{head?}
use deso_backend.GlobalState.Keys.Content.{
  key_for_nft_drop_entry, key_for_phone_number_bytes_to_phone_number_metadata,
  key_for_phone_number_bytes_to_multi_phone_number_metadata, key_for_public_key_to_user_metadata,
  key_for_referral_hash_to_referral_info, key_for_pkid_referral_hash_to_is_active,
  key_for_hot_feed_approved_post_op, key_for_hot_feed_pkid_multiplier_op,
  key_for_pkid_referral_hash_referee_pkid, key_for_timestamp_pkid_referral_hash_referee_pkid,
  key_for_tstamp_post_hash, key_for_tstamp_pinned_post_hash,
  key_for_username_verification_audit_logs, key_for_whitelist_audit_logs,
  key_for_graylisted_profile, key_for_graylist_audit_logs, key_for_blacklisted_profile,
}
use deso_backend.GlobalState.Keys.Payments.{
  key_for_blacklist_audit_logs, key_for_user_pk_contact_pk_to_most_recent_read_tstamp_nanos,
  key_for_user_public_key_tstamp_nanos_to_wyre_order_metadata, key_for_wyre_order_id_processed,
  key_for_wyre_order_id, key_for_usd_cents_to_deso_reserve_exchange_rate,
  key_for_buy_deso_fee_basis_points, key_for_pkid_tstampnanos_to_jumio_transaction,
  key_for_country_id_document_type_sub_type_document_number, key_for_jumio_deso_nanos,
  key_for_jumio_usd_cents, key_for_jumio_kickback_usd_cents, key_well_known_tutorial_creators,
  key_up_and_coming_tutorial_creators, key_eth_purchases, key_transaction_fee_outputs_from_txn_type,
  key_exempt_public_key, key_for_country_code_to_country_sign_up_bonus, key_metamask_airdrop,
}

pub data StoredKey : Type 0 where
  nft_drop_entry : ℕ → StoredKey
  phone_number_bytes_to_phone_number_metadata : Bytes → StoredKey
  phone_number_bytes_to_multi_phone_number_metadata : Bytes → StoredKey
  public_key_to_user_metadata : Bytes → StoredKey
  referral_hash_to_referral_info : Bytes → StoredKey
  pkid_referral_hash_to_is_active : Bytes → Bytes → StoredKey
  hot_feed_approved_post_op : ℕ → Bytes → StoredKey
  hot_feed_pkid_multiplier_op : ℕ → Bytes → StoredKey
  pkid_referral_hash_referee_pkid : Bytes → Bytes → Bytes → StoredKey
  timestamp_pkid_referral_hash_referee_pkid : ℕ → Bytes → Bytes → Bytes → StoredKey
  tstamp_post_hash : ℕ → Bytes → StoredKey
  tstamp_pinned_post_hash : ℕ → Bytes → StoredKey
  username_verification_audit_logs : Bytes → StoredKey
  whitelist_audit_logs : Bytes → StoredKey
  graylisted_profile : Bytes → StoredKey
  graylist_audit_logs : Bytes → StoredKey
  blacklisted_profile : Bytes → StoredKey
  blacklist_audit_logs : Bytes → StoredKey
  user_pk_contact_pk_to_most_recent_read_tstamp_nanos : Bytes → Bytes → StoredKey
  user_public_key_tstamp_nanos_to_wyre_order_metadata : Bytes → ℕ → StoredKey
  wyre_order_id_processed : Bytes → StoredKey
  wyre_order_id : Bytes → StoredKey
  usd_cents_to_deso_reserve_exchange_rate : StoredKey
  buy_deso_fee_basis_points : StoredKey
  pkid_tstampnanos_to_jumio_transaction : Bytes → ℕ → StoredKey
  country_id_document_type_sub_type_document_number : Bytes → Bytes → Bytes → Bytes → StoredKey
  jumio_deso_nanos : StoredKey
  jumio_usd_cents : StoredKey
  jumio_kickback_usd_cents : StoredKey
  well_known_tutorial_creators : Bytes → StoredKey
  up_and_coming_tutorial_creators : Bytes → StoredKey
  eth_purchases : Bytes → StoredKey
  transaction_fee_outputs_from_txn_type : ℕ → StoredKey
  exempt_public_key : Bytes → StoredKey
  country_code_to_country_sign_up_bonus : Bytes → StoredKey
  metamask_airdrop : Bytes → StoredKey

-- the kind of record, told by its prefix
abbrev pub family : StoredKey → Prefix
family (nft_drop_entry a) = Prefix.nft_drop_number_to_nft_drop_entry
family (phone_number_bytes_to_phone_number_metadata a) =
    Prefix.phone_number_to_phone_number_metadata
family (phone_number_bytes_to_multi_phone_number_metadata a) =
    Prefix.phone_number_to_multi_phone_number_metadata
family (public_key_to_user_metadata a) = Prefix.public_key_to_user_metadata
family (referral_hash_to_referral_info a) = Prefix.referral_hash_to_referral_info
family (pkid_referral_hash_to_is_active a b) = Prefix.pkid_referral_hash_to_is_active
family (hot_feed_approved_post_op a b) = Prefix.for_hot_feed_approved_post_ops
family (hot_feed_pkid_multiplier_op a b) = Prefix.for_hot_feed_pkid_multiplier_ops
family (pkid_referral_hash_referee_pkid a b c) = Prefix.pkid_referral_hash_referee_pkid
family (timestamp_pkid_referral_hash_referee_pkid a b c d) =
    Prefix.timestamp_pkid_referral_hash_referee_pkid
family (tstamp_post_hash a b) = Prefix.tstamp_nanos_post_hash
family (tstamp_pinned_post_hash a b) = Prefix.tstamp_nanos_pinned_post_hash
family (username_verification_audit_logs a) = Prefix.username_verification_audit_log
family (whitelist_audit_logs a) = Prefix.whitelist_audit_log
family (graylisted_profile a) = Prefix.public_key_to_graylist_state
family (graylist_audit_logs a) = Prefix.graylist_audit_log
family (blacklisted_profile a) = Prefix.public_key_to_blacklist_state
family (blacklist_audit_logs a) = Prefix.blacklist_audit_log
family (user_pk_contact_pk_to_most_recent_read_tstamp_nanos a b) =
    Prefix.user_public_key_contact_public_key_to_most_recent_read_tstamp_nanos
family (user_public_key_tstamp_nanos_to_wyre_order_metadata a b) =
    Prefix.user_public_key_wyre_order_id_to_wyre_order_metadata
family (wyre_order_id_processed a) = Prefix.wyre_order_id_processed
family (wyre_order_id a) = Prefix.wyre_order_id
family usd_cents_to_deso_reserve_exchange_rate = Prefix.usd_cents_to_deso_reserve_exchange_rate
family buy_deso_fee_basis_points = Prefix.buy_deso_fee_basis_points
family (pkid_tstampnanos_to_jumio_transaction a b) = Prefix.pkid_tstamp_nanos_to_jumio_transaction
family (country_id_document_type_sub_type_document_number a b c d) =
    Prefix.country_id_document_type_sub_type_document_number
family jumio_deso_nanos = Prefix.jumio_deso_nanos
family jumio_usd_cents = Prefix.jumio_usd_cents
family jumio_kickback_usd_cents = Prefix.jumio_kickback_usd_cents
family (well_known_tutorial_creators a) = Prefix.well_known_tutorial_creators
family (up_and_coming_tutorial_creators a) = Prefix.up_and_coming_tutorial_creators
family (eth_purchases a) = Prefix.for_eth_purchases
family (transaction_fee_outputs_from_txn_type a) = Prefix.txn_type_to_deso_outputs
family (exempt_public_key a) = Prefix.exempt_public_keys
family (country_code_to_country_sign_up_bonus a) = Prefix.for_country_code_to_country_sign_up_bonus
family (metamask_airdrop a) = Prefix.metamask_airdrop

unfoldable pub stored_key : Encoding → StoredKey → Bytes
stored_key en (nft_drop_entry a) = key_for_nft_drop_entry en a
stored_key en (phone_number_bytes_to_phone_number_metadata a) =
    key_for_phone_number_bytes_to_phone_number_metadata en a
stored_key en (phone_number_bytes_to_multi_phone_number_metadata a) =
    key_for_phone_number_bytes_to_multi_phone_number_metadata en a
stored_key en (public_key_to_user_metadata a) = key_for_public_key_to_user_metadata en a
stored_key en (referral_hash_to_referral_info a) = key_for_referral_hash_to_referral_info en a
stored_key en (pkid_referral_hash_to_is_active a b) = key_for_pkid_referral_hash_to_is_active en a b
stored_key en (hot_feed_approved_post_op a b) = key_for_hot_feed_approved_post_op en a b
stored_key en (hot_feed_pkid_multiplier_op a b) = key_for_hot_feed_pkid_multiplier_op en a b
stored_key en (pkid_referral_hash_referee_pkid a b c) =
    key_for_pkid_referral_hash_referee_pkid en a b c
stored_key en (timestamp_pkid_referral_hash_referee_pkid a b c d) =
    key_for_timestamp_pkid_referral_hash_referee_pkid en a b c d
stored_key en (tstamp_post_hash a b) = key_for_tstamp_post_hash en a b
stored_key en (tstamp_pinned_post_hash a b) = key_for_tstamp_pinned_post_hash en a b
stored_key en (username_verification_audit_logs a) = key_for_username_verification_audit_logs en a
stored_key en (whitelist_audit_logs a) = key_for_whitelist_audit_logs en a
stored_key en (graylisted_profile a) = key_for_graylisted_profile en a
stored_key en (graylist_audit_logs a) = key_for_graylist_audit_logs en a
stored_key en (blacklisted_profile a) = key_for_blacklisted_profile en a
stored_key en (blacklist_audit_logs a) = key_for_blacklist_audit_logs en a
stored_key en (user_pk_contact_pk_to_most_recent_read_tstamp_nanos a b) =
    key_for_user_pk_contact_pk_to_most_recent_read_tstamp_nanos en a b
stored_key en (user_public_key_tstamp_nanos_to_wyre_order_metadata a b) =
    key_for_user_public_key_tstamp_nanos_to_wyre_order_metadata en a b
stored_key en (wyre_order_id_processed a) = key_for_wyre_order_id_processed en a
stored_key en (wyre_order_id a) = key_for_wyre_order_id en a
stored_key en usd_cents_to_deso_reserve_exchange_rate =
    key_for_usd_cents_to_deso_reserve_exchange_rate en
stored_key en buy_deso_fee_basis_points = key_for_buy_deso_fee_basis_points en
stored_key en (pkid_tstampnanos_to_jumio_transaction a b) =
    key_for_pkid_tstampnanos_to_jumio_transaction en a b
stored_key en (country_id_document_type_sub_type_document_number a b c d) =
    key_for_country_id_document_type_sub_type_document_number en a b c d
stored_key en jumio_deso_nanos = key_for_jumio_deso_nanos en
stored_key en jumio_usd_cents = key_for_jumio_usd_cents en
stored_key en jumio_kickback_usd_cents = key_for_jumio_kickback_usd_cents en
stored_key en (well_known_tutorial_creators a) = key_well_known_tutorial_creators en a
stored_key en (up_and_coming_tutorial_creators a) = key_up_and_coming_tutorial_creators en a
stored_key en (eth_purchases a) = key_eth_purchases en a
stored_key en (transaction_fee_outputs_from_txn_type a) =
    key_transaction_fee_outputs_from_txn_type en a
stored_key en (exempt_public_key a) = key_exempt_public_key en a
stored_key en (country_code_to_country_sign_up_bonus a) =
    key_for_country_code_to_country_sign_up_bonus en a
stored_key en (metamask_airdrop a) = key_metamask_airdrop en a

stored_key-head :
    (en : Encoding) (k : StoredKey) → head? (stored_key en k) ≡ some (prefix_byte (family k))
unfolding stored_key key_for_nft_drop_entry key_for_phone_number_bytes_to_phone_number_metadata
    key_for_phone_number_bytes_to_multi_phone_number_metadata key_for_public_key_to_user_metadata
    key_for_referral_hash_to_referral_info key_for_pkid_referral_hash_to_is_active
    key_for_hot_feed_approved_post_op key_for_hot_feed_pkid_multiplier_op
    key_for_pkid_referral_hash_referee_pkid key_for_timestamp_pkid_referral_hash_referee_pkid
    key_for_tstamp_post_hash key_for_tstamp_pinned_post_hash
    key_for_username_verification_audit_logs key_for_whitelist_audit_logs key_for_graylisted_profile
    key_for_graylist_audit_logs key_for_blacklisted_profile key_for_blacklist_audit_logs
    key_for_user_pk_contact_pk_to_most_recent_read_tstamp_nanos
    key_for_user_public_key_tstamp_nanos_to_wyre_order_metadata key_for_wyre_order_id_processed
    key_for_wyre_order_id key_for_usd_cents_to_deso_reserve_exchange_rate
    key_for_buy_deso_fee_basis_points key_for_pkid_tstampnanos_to_jumio_transaction
    key_for_country_id_document_type_sub_type_document_number key_for_jumio_deso_nanos
    key_for_jumio_usd_cents key_for_jumio_kickback_usd_cents key_well_known_tutorial_creators
    key_up_and_coming_tutorial_creators key_eth_purchases key_transaction_fee_outputs_from_txn_type
    key_exempt_public_key key_for_country_code_to_country_sign_up_bonus key_metamask_airdrop
stored_key-head en jumio_usd_cents = refl
stored_key-head en k = refl

-- Two records that are stored under the same key are of the same kind, whatever their keys are made
-- of.
pub stored_key-family :
    (en : Encoding) (k l : StoredKey) → stored_key en k ≡ stored_key en l → family k ≡ family l
stored_key-family en k l h =
    prefix_byte-injective _ _ (cc (stored_key-head en k, stored_key-head en l, ap head? h))
