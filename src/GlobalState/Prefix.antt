-- ===== src/GlobalState/Prefix.antt =====
-- The prefixes of the global state's keys (routes/global_state.go). Each is a slice of one byte.
pub mod Distinct
use deso_backend.Base.{ℕ, ◌≡◌, refl, Option, some, none, [], ◌∷◌, Bytes, arith, ◌==◌, if◌then◌else◌}

pub data Prefix : Type 0 where
  public_key_to_user_metadata : Prefix
  tstamp_nanos_post_hash : Prefix
  phone_number_to_phone_number_metadata : Prefix
  for_verified_map : Prefix
  tstamp_nanos_pinned_post_hash : Prefix
  username_verification_audit_log : Prefix
  public_key_to_graylist_state : Prefix
  public_key_to_blacklist_state : Prefix
  user_public_key_contact_public_key_to_most_recent_read_tstamp_nanos : Prefix
  user_public_key_wyre_order_id_to_wyre_order_metadata : Prefix
  wyre_order_id_processed : Prefix
  wyre_order_id : Prefix
  whitelist_audit_log : Prefix
  graylist_audit_log : Prefix
  blacklist_audit_log : Prefix
  usd_cents_to_deso_reserve_exchange_rate : Prefix
  buy_deso_fee_basis_points : Prefix
  nft_drop_number_to_nft_drop_entry : Prefix
  pkid_tstamp_nanos_to_jumio_transaction : Prefix
  country_id_document_type_sub_type_document_number : Prefix
  jumio_deso_nanos : Prefix
  jumio_usd_cents : Prefix
  jumio_kickback_usd_cents : Prefix
  well_known_tutorial_creators : Prefix
  up_and_coming_tutorial_creators : Prefix
  referral_hash_to_referral_info : Prefix
  pkid_referral_hash_to_is_active : Prefix
  pkid_referral_hash_referee_pkid : Prefix
  timestamp_pkid_referral_hash_referee_pkid : Prefix
  for_eth_purchases : Prefix
  for_hot_feed_approved_post_ops : Prefix
  for_hot_feed_interaction_cap : Prefix
  for_hot_feed_time_decay_blocks : Prefix
  txn_type_to_deso_outputs : Prefix
  exempt_public_keys : Prefix
  for_hot_feed_pkid_multiplier_ops : Prefix
  for_country_code_to_country_sign_up_bonus : Prefix
  for_hot_feed_tag_interaction_cap : Prefix
  for_hot_feed_tag_time_decay_blocks : Prefix
  hot_feed_txn_type_multiplier_basis_points : Prefix
  phone_number_to_multi_phone_number_metadata : Prefix
  metamask_airdrop : Prefix

unfoldable pub prefix_byte : Prefix → ℕ
prefix_byte public_key_to_user_metadata = 0
prefix_byte tstamp_nanos_post_hash = 1
prefix_byte phone_number_to_phone_number_metadata = 2
prefix_byte for_verified_map = 3
prefix_byte tstamp_nanos_pinned_post_hash = 4
prefix_byte username_verification_audit_log = 5
prefix_byte public_key_to_graylist_state = 6
prefix_byte public_key_to_blacklist_state = 7
prefix_byte user_public_key_contact_public_key_to_most_recent_read_tstamp_nanos = 8
prefix_byte user_public_key_wyre_order_id_to_wyre_order_metadata = 9
prefix_byte wyre_order_id_processed = 10
prefix_byte wyre_order_id = 11
prefix_byte whitelist_audit_log = 12
prefix_byte graylist_audit_log = 13
prefix_byte blacklist_audit_log = 14
prefix_byte usd_cents_to_deso_reserve_exchange_rate = 15
prefix_byte buy_deso_fee_basis_points = 16
prefix_byte nft_drop_number_to_nft_drop_entry = 17
prefix_byte pkid_tstamp_nanos_to_jumio_transaction = 20
prefix_byte country_id_document_type_sub_type_document_number = 19
prefix_byte jumio_deso_nanos = 21
prefix_byte jumio_usd_cents = 39
prefix_byte jumio_kickback_usd_cents = 40
prefix_byte well_known_tutorial_creators = 22
prefix_byte up_and_coming_tutorial_creators = 23
prefix_byte referral_hash_to_referral_info = 24
prefix_byte pkid_referral_hash_to_is_active = 25
prefix_byte pkid_referral_hash_referee_pkid = 26
prefix_byte timestamp_pkid_referral_hash_referee_pkid = 37
prefix_byte for_eth_purchases = 27
prefix_byte for_hot_feed_approved_post_ops = 31
prefix_byte for_hot_feed_interaction_cap = 32
prefix_byte for_hot_feed_time_decay_blocks = 33
prefix_byte txn_type_to_deso_outputs = 34
prefix_byte exempt_public_keys = 35
prefix_byte for_hot_feed_pkid_multiplier_ops = 36
prefix_byte for_country_code_to_country_sign_up_bonus = 38
prefix_byte for_hot_feed_tag_interaction_cap = 41
prefix_byte for_hot_feed_tag_time_decay_blocks = 42
prefix_byte hot_feed_txn_type_multiplier_basis_points = 43
prefix_byte phone_number_to_multi_phone_number_metadata = 44
prefix_byte metamask_airdrop = 45
