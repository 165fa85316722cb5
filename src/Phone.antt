-- ===== src/Phone.antt =====
-- The verification of phone numbers (routes/verify.go): the text with a code, and the code that comes
-- back, which files the number with its user and pays the user's first DESO.
pub mod Reads
pub mod Book
pub mod Steps
pub mod Free
pub mod Filed
pub mod Paid
pub mod Saved
pub mod Submit
pub mod Accepted
pub mod History
pub mod Tests
use deso_backend.Base.{
  ℕ, Bool, true, false, not, ◌&&◌, List, [], ◌∷◌, ◌++◌, Bytes, codes, bytes_eq, Option, none, some,
  Result, ok, err, panic, or_fail, ◌==◌, leb, if◌then◌else◌, length,
}
use deso_backend.Base.Actions.{Action, ◌>>=◌, ◌>>◌, lift}
use deso_backend.GlobalState.Encoding.{Encoding}
use deso_backend.GlobalState.Keys.Content.{
  key_for_phone_number_string_to_multi_phone_number_metadata,
}
use deso_backend.GlobalState.Store.Interface.{Badger, Codec, Json, Network}
use deso_backend.GlobalState.Store.Client.{Error, GlobalState, State, put, get}
use deso_backend.Access.{AccessError, TokenLib, validate_jwt}
use deso_backend.PhoneAmount.{Strings, Config, get_phone_verification_amount_to_send_nanos}
use deso_backend.Users.{UserMetadata, UserError, UserLib, get_user_metadata, put_user_metadata}

pub record PhoneNumberMetadata : Type 0 where
  pub public_key : Bytes
  pub phone_number : Bytes
  pub phone_number_country_code : Bytes
  pub should_comp_profile_creation : Bool
  pub public_key_deleted : Bool

-- `invalid_token` carries the error of `ValidateJWT`, of which there is a reply of its own.
pub data PhoneError : Type 0 where
  bad_body no_twilio : PhoneError
  invalid_token : Option AccessError → PhoneError
  bad_key bad_number not_decoded too_many_uses already_used prefix_not_supported : PhoneError
  lookup_failed voip_number text_failed check_failed code_not_valid : PhoneError
  number_not_parsed not_encoded no_plus_sign not_paid : PhoneError
  store_failed : Error → PhoneError
  user_failed : UserError → PhoneError

-- The clients of Twilio: the carrier's type of a number, a text with a code, and the status of a code.
pub record Twilio : Type 0 where
  pub carrier_type : Bytes → Result Bytes Bytes
  pub create_verification : Bytes → Result Bytes (Unit {0})
  pub check_verification : Bytes → Bytes → Result Bytes Bytes

-- What verification uses of the phone number library, gob, and the wallet that pays: `parse` gives the
-- country code of a number, and `send_seed_deso` the hash of a transaction.
pub record PhoneLib : Type 0 where
  pub gob : Codec (List PhoneNumberMetadata)
  pub parse : Bytes → Result Bytes (Option ℕ)
  pub region_code_for_country_code : ℕ → Bytes

pub record PhoneConfig : Type 0 where
  pub phone_number_use_threshold : ℕ
  pub starter_deso_seed : Bytes
  pub amounts : Config

pub record TextRequest : Type 0 where
  pub public_key : Bytes
  pub phone_number : Bytes
  pub jwt : Bytes

pub record CodeRequest : Type 0 where
  pub jwt : Bytes
  pub public_key : Bytes
  pub phone_number : Bytes
  pub verification_code : Bytes

-- What stands outside the node while it serves a request.
pub record Surroundings : Type 1 where
  pub tokens : TokenLib
  pub twilio : Option Twilio
  pub send_seed_deso : Bytes → ℕ → Result Bytes Bytes

abbrev pub twilio_voip_carrier_type : Bytes
twilio_voip_carrier_type = codes "voip"

abbrev pub twilio_check_phone_number_approved : Bytes
twilio_check_phone_number_approved = codes "approved"

-- a token that is not valid, or that cannot be validated
unfoldable pub require_valid : Result AccessError Bool → Result PhoneError (Unit {0})
require_valid (ok true) = ok tt
require_valid (ok false) = err (invalid_token none)
require_valid (err e) = err (invalid_token (some e))
require_valid panic = panic

unfoldable pub used_by : Bytes → List PhoneNumberMetadata → Bool
used_by key [] = false
used_by key (entry ∷ entries) =
    let rest = used_by key entries in if bytes_eq key entry.public_key then true else rest

-- `len(number) != 0 && number[0] == '+'`
unfoldable pub starts_with_plus : Bytes → Bool
starts_with_plus [] = false
starts_with_plus (c ∷ number) = c == b'+'

module _ (ul : UserLib) (pl : PhoneLib) (st : Strings) (config : PhoneConfig) where
  -- what is decoded of the answer of the store; a missing key has no entries
  unfoldable pub entries_of_answer :
      Result Error (Option Bytes) → Result PhoneError (List PhoneNumberMetadata)
  entries_of_answer (ok none) = ok []
  entries_of_answer (ok (some text)) = or_fail (pl.gob.unmarshal text) (λ e. not_decoded)
  entries_of_answer (err e) = err (store_failed e)
  entries_of_answer panic = panic

  unfoldable pub check_uses : Bytes → List PhoneNumberMetadata → Result PhoneError (Unit {0})
  check_uses key entries =
      if leb config.phone_number_use_threshold (length entries)
      then err too_many_uses
      else if used_by key entries
      then err already_used
      else ok tt

  -- `ShouldCompProfileCreation` is set, and the country code where the number has one
  unfoldable pub new_entry : Bytes → Bytes → Option ℕ → PhoneNumberMetadata
  new_entry key number country = record {
    public_key = key;
    phone_number = number;
    phone_number_country_code = elim country [
      | none ↦ []
      | some code ↦ pl.region_code_for_country_code code
    ];
    should_comp_profile_creation = true;
    public_key_deleted = false;
  }

  unfoldable pub amount_for : Bytes → ℕ
  amount_for number = get_phone_verification_amount_to_send_nanos st config.amounts number

  module _ (en : Encoding) (b : Badger) (j : Json) (n : Network) (gs : GlobalState) where
    -- the store, and the payments that were made: who was paid, and how much
    abbrev pub PhoneState : Type 0
    PhoneState = State b j n × List (Bytes × ℕ)

    abbrev pub Step : Type 0 → Type 0
    Step A = Action PhoneError PhoneState A

    unfoldable pub get_multi_phone_number_metadata : Bytes → Step (List PhoneNumberMetadata)
    get_multi_phone_number_metadata number (store, paid) =
        elim (key_for_phone_number_string_to_multi_phone_number_metadata en number) [
          | ok key ↦
              let (found, store') = get b j n gs key store in
              (entries_of_answer found, (store', paid))
          | err e ↦ (err bad_number, (store, paid))
          | panic ↦ (panic, (store, paid))
        ]

    unfoldable pub put_phone_number_metadata : List PhoneNumberMetadata → Bytes → Step (Unit {0})
    put_phone_number_metadata entries number (store, paid) =
        elim (key_for_phone_number_string_to_multi_phone_number_metadata en number) [
          | err e ↦ (err bad_number, (store, paid))
          | panic ↦ (panic, (store, paid))
          | ok key ↦ elim (pl.gob.marshal entries) [
            | err e ↦ (err not_encoded, (store, paid))
            | panic ↦ (panic, (store, paid))
            | ok text ↦
                let (written, store') = put b j n gs key text store in
                (or_fail written store_failed, (store', paid))
          ]
        ]

    unfoldable pub get_user : Bytes → Step UserMetadata
    get_user key_text (store, paid) =
        let (user, store') = get_user_metadata ul en b j n gs key_text store in
        (or_fail user user_failed, (store', paid))

    unfoldable pub put_user : UserMetadata → Step (Unit {0})
    put_user user (store, paid) =
        let (written, store') = put_user_metadata ul en b j n gs user store in
        (or_fail written user_failed, (store', paid))

    unfoldable pub validate_phone_number_not_already_in_use : Bytes → Bytes → Step (Unit {0})
    validate_phone_number_not_already_in_use number key_text = do
      key ← lift (or_fail (ul.base58_check_decode key_text) (λ e. bad_key))
      entries ← get_multi_phone_number_metadata number
      lift (check_uses key entries)

    unfoldable pub require_supported : Bytes → Step (Unit {0})
    require_supported number =
        lift (if amount_for number == 0 then err prefix_not_supported else ok tt)

    -- the carrier is asked for, and a text is sent to a number that is not a VOIP number
    unfoldable pub send_text : Twilio → Bytes → Step (Unit {0})
    send_text twilio number = do
      carrier ← lift (or_fail (twilio.carrier_type number) (λ e. lookup_failed))
      lift (if bytes_eq carrier twilio_voip_carrier_type then err voip_number else ok tt)
      lift (or_fail (twilio.create_verification number) (λ e. text_failed))

    unfoldable pub send_phone_number_verification_text :
        Surroundings → Result Bytes TextRequest → Step (Unit {0})
    send_phone_number_verification_text around request = do
      r ← lift (or_fail request (λ e. bad_body))
      twilio ← lift (elim around.twilio [ none ↦ err no_twilio | some t ↦ ok t ])
      lift (require_valid (validate_jwt around.tokens r.public_key r.jwt))
      validate_phone_number_not_already_in_use r.phone_number r.public_key
      require_supported r.phone_number
      send_text twilio r.phone_number

    -- without a client of Twilio, the call of it panics
    unfoldable pub check_code : Option Twilio → Bytes → Bytes → Step (Unit {0})
    check_code none code number = lift panic
    check_code (some twilio) code number = do
      status ← lift (or_fail (twilio.check_verification code number) (λ e. check_failed))
      lift
          (if bytes_eq status twilio_check_phone_number_approved then ok tt else err code_not_valid)

    -- the user is filed with the number
    unfoldable pub index_number : Bytes → Bytes → Step (Unit {0})
    index_number number key = do
      entries ← get_multi_phone_number_metadata number
      country ← lift (or_fail (pl.parse number) (λ e. number_not_parsed))
      put_phone_number_metadata (entries ++ new_entry key number country ∷ []) number

    -- the number is filed with the user, and then the user with the number
    unfoldable pub file_number : Bytes → UserMetadata → Step (Unit {0})
    file_number number user = do
      put_user (record user { phone_number = number })
      index_number number user.public_key

    -- `SendSeedDeSo`, which is recorded
    unfoldable pub pay : Surroundings → Bytes → ℕ → Step Bytes
    pay around key amount (store, paid) = elim (around.send_seed_deso key amount) [
      | ok txn_hash ↦ (ok txn_hash, (store, paid ++ (key, amount) ∷ []))
      | err e ↦ (err not_paid, (store, paid))
      | panic ↦ (panic, (store, paid))
    ]

    unfoldable pub pay_first : Surroundings → Bytes → Bytes → Step (Option Bytes)
    pay_first around number key = do
      lift (if starts_with_plus number then ok tt else err no_plus_sign)
      txn_hash ← pay around key (amount_for number)
      lift (ok (some txn_hash))

    -- the hash of the transaction that pays a user whose first number this is
    unfoldable pub pay_starter_deso : Surroundings → Bytes → UserMetadata → Step (Option Bytes)
    pay_starter_deso around number user =
        if (length user.phone_number == 0) && not (length config.starter_deso_seed == 0)
        then pay_first around number user.public_key
        else lift (ok none)

    unfoldable pub submit_phone_number_verification_code :
        Surroundings → Result Bytes CodeRequest → Step (Option Bytes)
    submit_phone_number_verification_code around request = do
      r ← lift (or_fail request (λ e. bad_body))
      lift (require_valid (validate_jwt around.tokens r.public_key r.jwt))
      validate_phone_number_not_already_in_use r.phone_number r.public_key
      require_supported r.phone_number
      check_code around.twilio r.verification_code r.phone_number
      user ← get_user r.public_key
      file_number r.phone_number user
      pay_starter_deso around r.phone_number user
