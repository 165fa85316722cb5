-- ===== src/GlobalState/Prefix/Distinct.antt =====
-- The prefixes as a table, by which a prefix is found from its byte (routes/global_state.go).
use deso_backend.Base.{ℕ, ◌≡◌, refl, ap, Option, some, none, List, [], ◌∷◌, ◌==◌, if◌then◌else◌}
use deso_backend.GlobalState.Prefix.{Prefix, prefix_byte}

abbrev prefix_table : List Prefix
prefix_table =
    Prefix.public_key_to_user_metadata ∷ Prefix.tstamp_nanos_post_hash
    ∷ Prefix.phone_number_to_phone_number_metadata ∷ Prefix.for_verified_map
    ∷ Prefix.tstamp_nanos_pinned_post_hash ∷ Prefix.username_verification_audit_log
    ∷ Prefix.public_key_to_graylist_state ∷ Prefix.public_key_to_blacklist_state
    ∷ Prefix.user_public_key_contact_public_key_to_most_recent_read_tstamp_nanos
    ∷ Prefix.user_public_key_wyre_order_id_to_wyre_order_metadata ∷ Prefix.wyre_order_id_processed
    ∷ Prefix.wyre_order_id ∷ Prefix.whitelist_audit_log ∷ Prefix.graylist_audit_log
    ∷ Prefix.blacklist_audit_log ∷ Prefix.usd_cents_to_deso_reserve_exchange_rate
    ∷ Prefix.buy_deso_fee_basis_points ∷ Prefix.nft_drop_number_to_nft_drop_entry
    ∷ Prefix.pkid_tstamp_nanos_to_jumio_transaction
    ∷ Prefix.country_id_document_type_sub_type_document_number ∷ Prefix.jumio_deso_nanos
    ∷ Prefix.jumio_usd_cents ∷ Prefix.jumio_kickback_usd_cents ∷ Prefix.well_known_tutorial_creators
    ∷ Prefix.up_and_coming_tutorial_creators ∷ Prefix.referral_hash_to_referral_info
    ∷ Prefix.pkid_referral_hash_to_is_active ∷ Prefix.pkid_referral_hash_referee_pkid
    ∷ Prefix.timestamp_pkid_referral_hash_referee_pkid ∷ Prefix.for_eth_purchases
    ∷ Prefix.for_hot_feed_approved_post_ops ∷ Prefix.for_hot_feed_interaction_cap
    ∷ Prefix.for_hot_feed_time_decay_blocks ∷ Prefix.txn_type_to_deso_outputs
    ∷ Prefix.exempt_public_keys ∷ Prefix.for_hot_feed_pkid_multiplier_ops
    ∷ Prefix.for_country_code_to_country_sign_up_bonus ∷ Prefix.for_hot_feed_tag_interaction_cap
    ∷ Prefix.for_hot_feed_tag_time_decay_blocks ∷ Prefix.hot_feed_txn_type_multiplier_basis_points
    ∷ Prefix.phone_number_to_multi_phone_number_metadata ∷ Prefix.metamask_airdrop ∷ []

prefix_of : List Prefix → ℕ → Option Prefix
prefix_of [] n = none
prefix_of (p ∷ ps) n = if prefix_byte p == n then some p else prefix_of ps n

prefix_of-prefix_byte : (p : Prefix) → prefix_of prefix_table (prefix_byte p) ≡ some p
unfolding prefix_of prefix_byte
prefix_of-prefix_byte Prefix.public_key_to_user_metadata = refl
prefix_of-prefix_byte _ = refl

-- No two prefixes of the database are the same byte.
pub prefix_byte-injective : (p q : Prefix) → prefix_byte p ≡ prefix_byte q → p ≡ q
prefix_byte-injective p q h =
    cc (prefix_of-prefix_byte p, prefix_of-prefix_byte q, ap (prefix_of prefix_table) h)
