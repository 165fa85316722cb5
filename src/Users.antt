-- ===== src/Users.antt =====
-- What the node keeps of a user (`UserMetadata` of routes/global_state.go), and how it is read and
-- written (routes/shared.go).
use deso_backend.Base.{
  Bool, false, [], Bytes, Option, none, some, Result, ok, err, panic, or_fail, ◌==◌, if◌then◌else◌,
  length,
}
use deso_backend.GlobalState.Encoding.{Encoding}
use deso_backend.GlobalState.Keys.Content.{key_for_public_key_to_user_metadata}
use deso_backend.GlobalState.Store.Interface.{Badger, Codec, Json, Network}
use deso_backend.GlobalState.Store.Client.{Error, GlobalState, State, put, get}

-- `other_fields` are those that verification does not read or write.
pub record UserMetadata : Type 0 where
  pub public_key : Bytes
  pub phone_number : Bytes
  pub jumio_verified : Bool
  pub jumio_transaction_id : Bytes
  pub redo_jumio : Bool
  pub jumio_starter_deso_txn_hash_hex : Bytes
  pub jumio_should_comp_profile_creation : Bool
  pub must_complete_tutorial : Bool
  pub referral_hash_base58_check : Bytes
  pub referrer_deso_txn_hash : Bytes
  pub other_fields : Bytes

-- `UserMetadata{}` with a public key
abbrev pub new_user_metadata : Bytes → UserMetadata
new_user_metadata key = record {
  public_key = key;
  phone_number = [];
  jumio_verified = false;
  jumio_transaction_id = [];
  redo_jumio = false;
  jumio_starter_deso_txn_hash_hex = [];
  jumio_should_comp_profile_creation = false;
  must_complete_tutorial = false;
  referral_hash_base58_check = [];
  referrer_deso_txn_hash = [];
  other_fields = [];
}

pub data UserError : Type 0 where
  bad_user_key metadata_not_decoded : UserError
  metadata_store_failed : Error → UserError

-- what is kept of users uses base58 and gob
pub record UserLib : Type 0 where
  pub base58_check_decode : Bytes → Result Bytes Bytes
  pub gob : Codec UserMetadata

module _ (ul : UserLib) where
  unfoldable pub make_user_metadata : Option Bytes → Bytes → Result UserError UserMetadata
  make_user_metadata none key = ok (new_user_metadata key)
  make_user_metadata (some text) key = or_fail (ul.gob.unmarshal text) (λ e. metadata_not_decoded)

  -- the public key is filled in where what was decoded has none of 33 bytes
  unfoldable pub with_public_key : Bytes → UserMetadata → UserMetadata
  with_public_key key user =
      if length user.public_key == 33 then user else record user { public_key = key }

  -- what is made of the answer of the store
  unfoldable pub user_of_answer :
      Bytes → Result Error (Option Bytes) → Result UserError UserMetadata
  user_of_answer key (ok found) = elim (make_user_metadata found key) [
    | ok user ↦ ok (with_public_key key user)
    | err e ↦ err e
    | panic ↦ panic
  ]
  user_of_answer key (err e) = err (metadata_store_failed e)
  user_of_answer key panic = panic

  -- the error of the encoder is not looked at
  unfoldable pub encoded_user : UserMetadata → Result UserError Bytes
  encoded_user user = elim (ul.gob.marshal user) [
    | ok text ↦ ok text
    | err e ↦ ok []
    | panic ↦ panic
  ]

  module _ (en : Encoding) (b : Badger) (j : Json) (n : Network) (gs : GlobalState) where
    unfoldable pub get_user_metadata_by_public_key_bytes :
        Bytes → State b j n → Result UserError UserMetadata × State b j n
    get_user_metadata_by_public_key_bytes key s =
        let (found, s') = get b j n gs (key_for_public_key_to_user_metadata en key) s in
        (user_of_answer key found, s')

    unfoldable pub get_user_metadata :
        Bytes → State b j n → Result UserError UserMetadata × State b j n
    get_user_metadata key_text s = elim (ul.base58_check_decode key_text) [
      | ok key ↦ get_user_metadata_by_public_key_bytes key s
      | err e ↦ (err bad_user_key, s)
      | panic ↦ (panic, s)
    ]

    unfoldable pub put_user_metadata :
        UserMetadata → State b j n → Result UserError (Unit {0}) × State b j n
    put_user_metadata user s = elim (encoded_user user) [
      | ok text ↦
          let (written, s') =
            put b j n gs (key_for_public_key_to_user_metadata en user.public_key) text s in
          (or_fail written metadata_store_failed, s')
      | err e ↦ (err e, s)
      | panic ↦ (panic, s)
    ]
