-- ===== src/GlobalState/Keys/Payments.antt =====
-- Keys of the global state, of orders, verification, fees and tutorials (routes/global_state.go). A key is a prefix
-- byte and the parts behind it; every Go function copies the prefix before it appends.
use deso_backend.Base.{ℕ, [], ◌∷◌, ◌++◌, Bytes}
use deso_backend.GlobalState.Encoding.{Encoding}
use deso_backend.GlobalState.Prefix.{
  prefix_byte, blacklist_audit_log, buy_deso_fee_basis_points,
  country_id_document_type_sub_type_document_number, exempt_public_keys,
  for_country_code_to_country_sign_up_bonus, for_eth_purchases, jumio_deso_nanos,
  jumio_kickback_usd_cents, jumio_usd_cents, metamask_airdrop,
  pkid_tstamp_nanos_to_jumio_transaction, txn_type_to_deso_outputs, up_and_coming_tutorial_creators,
  usd_cents_to_deso_reserve_exchange_rate,
  user_public_key_contact_public_key_to_most_recent_read_tstamp_nanos,
  user_public_key_wyre_order_id_to_wyre_order_metadata, well_known_tutorial_creators, wyre_order_id,
  wyre_order_id_processed,
}

module _ (e : Encoding) where
  unfoldable pub key_for_blacklist_audit_logs : Bytes → Bytes
  key_for_blacklist_audit_logs username = prefix_byte blacklist_audit_log ∷ e.to_lower username

  unfoldable pub key_for_user_pk_contact_pk_to_most_recent_read_tstamp_nanos : Bytes → Bytes → Bytes
  key_for_user_pk_contact_pk_to_most_recent_read_tstamp_nanos user_pub_key contact_pub_key =
      prefix_byte user_public_key_contact_public_key_to_most_recent_read_tstamp_nanos
      ∷ (user_pub_key ++ contact_pub_key)

  unfoldable pub key_for_user_public_key_tstamp_nanos_to_wyre_order_metadata : Bytes → ℕ → Bytes
  key_for_user_public_key_tstamp_nanos_to_wyre_order_metadata user_public_key_bytes
        timestamp_nanos =
      prefix_byte user_public_key_wyre_order_id_to_wyre_order_metadata
      ∷ (user_public_key_bytes ++ (e.encode_uint64 timestamp_nanos))

  unfoldable pub key_for_wyre_order_id_processed : Bytes → Bytes
  key_for_wyre_order_id_processed order_id_bytes =
      prefix_byte wyre_order_id_processed ∷ order_id_bytes

  unfoldable pub key_for_wyre_order_id : Bytes → Bytes
  key_for_wyre_order_id order_id_bytes = prefix_byte wyre_order_id ∷ order_id_bytes

  unfoldable pub key_for_usd_cents_to_deso_reserve_exchange_rate : Bytes
  key_for_usd_cents_to_deso_reserve_exchange_rate =
      prefix_byte usd_cents_to_deso_reserve_exchange_rate ∷ []

  unfoldable pub key_for_buy_deso_fee_basis_points : Bytes
  key_for_buy_deso_fee_basis_points = prefix_byte buy_deso_fee_basis_points ∷ []

  unfoldable pub key_for_pkid_tstampnanos_to_jumio_transaction : Bytes → ℕ → Bytes
  key_for_pkid_tstampnanos_to_jumio_transaction pkid timestamp_nanos =
      prefix_byte pkid_tstamp_nanos_to_jumio_transaction
      ∷ (pkid ++ (e.encode_uint64 timestamp_nanos))

  unfoldable pub prefixfor_pkid_tstampnanos_to_jumio_transaction : Bytes → Bytes
  prefixfor_pkid_tstampnanos_to_jumio_transaction pkid =
      prefix_byte pkid_tstamp_nanos_to_jumio_transaction ∷ pkid

  unfoldable pub key_for_country_id_document_type_sub_type_document_number :
      Bytes → Bytes → Bytes → Bytes → Bytes
  key_for_country_id_document_type_sub_type_document_number country_i_d document_type sub_type
        document_number =
      prefix_byte country_id_document_type_sub_type_document_number
      ∷ (country_i_d ++ (document_type ++ (sub_type ++ document_number)))

  unfoldable pub key_for_jumio_deso_nanos : Bytes
  key_for_jumio_deso_nanos = prefix_byte jumio_deso_nanos ∷ []

  unfoldable pub key_for_jumio_usd_cents : Bytes
  key_for_jumio_usd_cents = prefix_byte jumio_usd_cents ∷ []

  unfoldable pub key_for_jumio_kickback_usd_cents : Bytes
  key_for_jumio_kickback_usd_cents = prefix_byte jumio_kickback_usd_cents ∷ []

  unfoldable pub key_well_known_tutorial_creators : Bytes → Bytes
  key_well_known_tutorial_creators pkid = prefix_byte well_known_tutorial_creators ∷ pkid

  unfoldable pub key_up_and_coming_tutorial_creators : Bytes → Bytes
  key_up_and_coming_tutorial_creators pkid = prefix_byte up_and_coming_tutorial_creators ∷ pkid

  unfoldable pub key_eth_purchases : Bytes → Bytes
  key_eth_purchases txn_hash = prefix_byte for_eth_purchases ∷ txn_hash

  unfoldable pub key_transaction_fee_outputs_from_txn_type : ℕ → Bytes
  key_transaction_fee_outputs_from_txn_type txn_type =
      prefix_byte txn_type_to_deso_outputs ∷ e.uint_to_buf txn_type

  unfoldable pub key_exempt_public_key : Bytes → Bytes
  key_exempt_public_key public_key = prefix_byte exempt_public_keys ∷ public_key

  unfoldable pub key_for_country_code_to_country_sign_up_bonus : Bytes → Bytes
  key_for_country_code_to_country_sign_up_bonus country_code =
      prefix_byte for_country_code_to_country_sign_up_bonus ∷ e.to_lower country_code

  unfoldable pub key_metamask_airdrop : Bytes → Bytes
  key_metamask_airdrop pk = prefix_byte metamask_airdrop ∷ pk
