-- ===== src/Phone/Tests.antt =====
-- Two users and a number, on a small node.
use deso_backend.Base.{
  ℕ, ◌≡◌, ◌≢◌, refl, Bool, true, false, List, [], ◌∷◌, Bytes, codes, bytes_eq, Option, none, some,
  Result, ok, err, arith,
}
use deso_backend.GlobalState.Encoding.{Encoding}
use deso_backend.GlobalState.Store.Client.{GlobalState, has_remote, get, get_local, put, update}
use deso_backend.GlobalState.Tests.Model.{encoding, badger, json, no_network, table_get, table_set}
use deso_backend.GlobalState.Tests.Texts.{write_texts, write_text, read_texts, read_written_texts}
use deso_backend.Access.{validate_jwt, key_of_claims, without_claim, derived_key}
use deso_backend.Access.Tests.{
  token_lib, model_parse, model_answer, model_claims, model_signed, no_claims,
}
use deso_backend.PhoneAmount.{get_phone_verification_amount_to_send_nanos, first_match}
use deso_backend.GlobalState.Prefix.{prefix_byte}
use deso_backend.GlobalState.Keys.Content.{
  key_for_public_key_to_user_metadata, key_for_phone_number_bytes_to_multi_phone_number_metadata,
  key_for_phone_number_string_to_multi_phone_number_metadata,
}
use deso_backend.PhoneAmount.Tests.{strings, sort}
use deso_backend.Users.{
  new_user_metadata, UserMetadata, UserLib, get_user_metadata,
  get_user_metadata_by_public_key_bytes, user_of_answer, make_user_metadata, with_public_key,
  put_user_metadata, encoded_user,
}
use deso_backend.Phone.Book.{IsPhoneBook}
use deso_backend.Phone.Submit.{IsSubmitted}
use deso_backend.Access.Tokens.{IsSignedFor}
use deso_backend.Phone.History.{
  PhoneHistory, nothing_known, code_sent, reached-IsPhoneBook, submit-IsSubmitted, submit_again,
}
use deso_backend.Base.Actions.{Returns}
use deso_backend.Phone.Reads.{HasUser}
use deso_backend.Phone.Free.{IsFree}
use deso_backend.Phone.Accepted.{submit-Returns}
use deso_backend.Phone.{
  Twilio, PhoneNumberMetadata, PhoneError, PhoneLib, PhoneConfig, CodeRequest, Surroundings,
  PhoneState, require_valid, validate_phone_number_not_already_in_use,
  get_multi_phone_number_metadata, entries_of_answer, check_uses, used_by, require_supported,
  amount_for, check_code, get_user, file_number, put_user, index_number, new_entry,
  put_phone_number_metadata, pay_starter_deso, pay_first, pay, starts_with_plus,
  submit_phone_number_verification_code,
}

abbrev flag : Bool → Bytes
flag true = 1 ∷ []
flag false = []

abbrev flagged : Bytes → Bool
flagged [] = false
flagged (x ∷ text) = true

flagged-flag : (b : Bool) → flagged (flag b) ≡ b
flagged-flag true = refl
flagged-flag false = refl

abbrev user_texts : UserMetadata → List Bytes
user_texts u =
    u.public_key
    ∷ u.phone_number
    ∷ flag u.jumio_verified
    ∷ u.jumio_transaction_id
    ∷ flag u.redo_jumio
    ∷ u.jumio_starter_deso_txn_hash_hex
    ∷ flag u.jumio_should_comp_profile_creation
    ∷ flag u.must_complete_tutorial
    ∷ u.referral_hash_base58_check
    ∷ u.referrer_deso_txn_hash
    ∷ u.other_fields
    ∷ []

unfoldable user_of_texts : List Bytes → Result Bytes UserMetadata
user_of_texts (a ∷ b ∷ c ∷ d ∷ e ∷ f ∷ g ∷ h ∷ i ∷ j ∷ k ∷ []) = ok record {
  public_key = a;
  phone_number = b;
  jumio_verified = flagged c;
  jumio_transaction_id = d;
  redo_jumio = flagged e;
  jumio_starter_deso_txn_hash_hex = f;
  jumio_should_comp_profile_creation = flagged g;
  must_complete_tutorial = flagged h;
  referral_hash_base58_check = i;
  referrer_deso_txn_hash = j;
  other_fields = k;
}
user_of_texts other = err []

user_of_texts-user_texts : (u : UserMetadata) → user_of_texts (user_texts u) ≡ ok u
unfolding user_of_texts
user_of_texts-user_texts u =
    rw
      (
        flagged-flag u.jumio_verified,
        flagged-flag u.redo_jumio,
        flagged-flag u.jumio_should_comp_profile_creation,
        flagged-flag u.must_complete_tutorial,
      )
      refl

read_user :
    (u : UserMetadata) {text : Bytes}
    → ◌≡◌ {A = Result Bytes Bytes} (ok (write_texts (user_texts u))) (ok text)
    → user_of_texts (read_texts text) ≡ ok u
read_user u h = ground (arith, h, read_written_texts (user_texts u), user_of_texts-user_texts u)

abbrev entries_texts : List PhoneNumberMetadata → List Bytes
entries_texts [] = []
entries_texts (e ∷ entries) =
    e.public_key
    ∷ e.phone_number
    ∷ e.phone_number_country_code
    ∷ flag e.should_comp_profile_creation
    ∷ flag e.public_key_deleted
    ∷ entries_texts entries

unfoldable entries_of_texts : List Bytes → List PhoneNumberMetadata
entries_of_texts (a ∷ b ∷ c ∷ d ∷ e ∷ texts) =
    record {
      public_key = a;
      phone_number = b;
      phone_number_country_code = c;
      should_comp_profile_creation = flagged d;
      public_key_deleted = flagged e;
    }
    ∷ entries_of_texts texts
entries_of_texts other = []

entries_of_texts-entries_texts :
    (entries : List PhoneNumberMetadata) → entries_of_texts (entries_texts entries) ≡ entries
unfolding entries_of_texts
entries_of_texts-entries_texts [] = refl
entries_of_texts-entries_texts (e ∷ entries) =
    rw
      (
        flagged-flag e.should_comp_profile_creation,
        flagged-flag e.public_key_deleted,
        entries_of_texts-entries_texts entries,
      )
      refl

read_entries :
    (entries : List PhoneNumberMetadata) {text : Bytes}
    → ◌≡◌ {A = Result Bytes Bytes} (ok (write_texts (entries_texts entries))) (ok text)
    → ◌≡◌ {A = Result Bytes (List PhoneNumberMetadata)}
        (ok (entries_of_texts (read_texts text)))
        (ok entries)
read_entries entries h =
    ground
      (arith, h, read_written_texts (entries_texts entries), entries_of_texts-entries_texts entries)

abbrev user_lib : UserLib
user_lib = record {
  base58_check_decode = ok;
  gob = record {
    marshal = λ u. ok (write_texts (user_texts u));
    unmarshal = λ text. user_of_texts (read_texts text);
    unmarshal-marshal = read_user;
  };
}

abbrev phone_lib : PhoneLib
phone_lib = record {
  gob = record {
    marshal = λ entries. ok (write_texts (entries_texts entries));
    unmarshal = λ text. ok (entries_of_texts (read_texts text));
    unmarshal-marshal = read_entries;
  };
  parse = λ number. ok (some 1);
  region_code_for_country_code = λ code. codes "US";
}

unfoldable some_number : Bytes → Result Bytes Bytes
some_number [] = err []
some_number (c ∷ number) = ok (c ∷ number)

abbrev phone_encoding : Encoding
phone_encoding = record encoding { format_e164 = some_number }

abbrev here : GlobalState
here = record { remote_node = []; remote_secret = [] }

here-local : has_remote here ≡ false
unfolding has_remote
here-local = refl

no_number : (filed : Bytes) → phone_encoding.format_e164 [] ≢ ok filed
unfolding some_number
no_number filed = cc

encodes : (u : UserMetadata) → (text : Bytes) × (user_lib.gob.marshal u ≡ ok text)
encodes u = (write_texts (user_texts u), refl)

-- a number has two users at most, and each is paid 50
abbrev config : PhoneConfig
config = record {
  phone_number_use_threshold = 2;
  starter_deso_seed = codes "seed";
  amounts = record { starter_prefix_nanos_map = []; starter_deso_nanos = 50 };
}

abbrev twilio : Twilio
twilio = record {
  carrier_type = λ number. ok (codes "mobile");
  create_verification = λ number. ok tt;
  check_verification = λ code number. ok (codes "approved");
}

-- The code is always approved, and a payment has the hash of its key.
abbrev around : Surroundings
around = record { tokens = token_lib; twilio = some twilio; send_seed_deso = λ key amount. ok key }

abbrev Node : Type 0
Node = PhoneState user_lib phone_lib strings config phone_encoding badger json no_network here

abbrev by_user : ℕ → CodeRequest
by_user x = record {
  jwt = 0 ∷ x ∷ [];
  public_key = x ∷ [];
  phone_number = codes "+1";
  verification_code = codes "9";
}

abbrev sent : CodeRequest → Node → Result PhoneError (Option Bytes) × Node
sent r s =
    submit_phone_number_verification_code user_lib phone_lib strings config phone_encoding badger
      json no_network here around (ok r) s

abbrev start : Node
start = (([], tt), [])

abbrev History : Node → Type 1
History = PhoneHistory user_lib phone_lib strings config phone_encoding badger json no_network here

nothing_yet : History start
unfolding get get_local table_get has_remote
nothing_yet = nothing_known start refl (λ key. refl) (λ number. refl)

-- the answer to the first request is the hash of the payment
first_paid : (sent (by_user 7) start).0 ≡ ok (some (7 ∷ []))
unfolding submit_phone_number_verification_code require_valid validate_jwt model_parse model_answer
    model_claims model_signed key_of_claims without_claim derived_key no_claims bytes_eq
    validate_phone_number_not_already_in_use get_multi_phone_number_metadata get get_local table_get
    has_remote entries_of_answer check_uses used_by require_supported amount_for
    get_phone_verification_amount_to_send_nanos first_match check_code get_user get_user_metadata
    get_user_metadata_by_public_key_bytes user_of_answer make_user_metadata with_public_key
    file_number put_user put_user_metadata encoded_user put update table_set index_number new_entry
    put_phone_number_metadata pay_starter_deso pay_first pay starts_with_plus write_texts write_text
    prefix_byte key_for_public_key_to_user_metadata
    key_for_phone_number_bytes_to_multi_phone_number_metadata
    key_for_phone_number_string_to_multi_phone_number_metadata some_number sort
first_paid = refl

reached-IsPhoneBook_example :
    IsPhoneBook user_lib phone_lib strings config phone_encoding badger json no_network here
      (sent (by_user 7) start).1
reached-IsPhoneBook_example =
    reached-IsPhoneBook user_lib phone_lib strings config phone_encoding badger json no_network here
      here-local encodes no_number (code_sent around (ok (by_user 7)) start nothing_yet)

submit-IsSubmitted_example :
    IsSubmitted user_lib phone_lib strings config phone_encoding badger json no_network here
      here-local encodes no_number around
      (by_user 7)
      start
      (sent (by_user 7) start).1
    × IsSignedFor token_lib (7 ∷ []) (0 ∷ 7 ∷ [])
submit-IsSubmitted_example =
    submit-IsSubmitted user_lib phone_lib strings config phone_encoding badger json no_network here
      here-local encodes no_number around (by_user 7) start nothing_yet first_paid

submit_again_example : (sent (by_user 7) (sent (by_user 7) start).1).0 ≢ ok none
submit_again_example =
    submit_again user_lib phone_lib strings config phone_encoding badger json no_network here
      here-local encodes no_number around around (by_user 7) (by_user 7) start nothing_yet
      first_paid refl refl none

encodes_entries :
    (entries : List PhoneNumberMetadata)
    → (text : Bytes) × (phone_lib.gob.marshal entries ≡ ok text)
encodes_entries entries = (write_texts (entries_texts entries), refl)

writes :
    (db : badger.Db) (c : ℕ) (key text : Bytes)
    → (db' : badger.Db) × (badger.set db (c ∷ key) text ≡ ok db')
unfolding table_set
writes db c key text = ((c ∷ key, text) ∷ db, refl)

unfoldable free_at_start :
    IsFree user_lib phone_lib strings config phone_encoding badger json no_network here here-local
      encodes no_number
      (codes "+1")
      (7 ∷ [])
      start
unfolding some_number entries_of_answer get get_local table_get has_remote
free_at_start = record {
  key = 7 ∷ [];
  filed = codes "+1";
  entries = [];
  is_key = refl;
  is_filed = refl;
  has_entries = refl;
  below = omega arith;
  unused = λ x. x;
}

token_valid : validate_jwt token_lib (7 ∷ []) (0 ∷ 7 ∷ []) ≡ ok true
unfolding validate_jwt model_parse model_answer model_claims model_signed key_of_claims
    without_claim derived_key no_claims bytes_eq
token_valid = refl

first_supported : amount_for user_lib phone_lib strings config (codes "+1") ≢ 0
unfolding amount_for get_phone_verification_amount_to_send_nanos first_match sort
first_supported = cc

first_plus : starts_with_plus (codes "+1") ≡ true
unfolding starts_with_plus
first_plus = refl

first_user :
    HasUser user_lib phone_lib strings config phone_encoding badger json no_network here
      free_at_start.key start.0
      (new_user_metadata free_at_start.key)
unfolding free_at_start user_of_answer make_user_metadata with_public_key get get_local table_get
    has_remote
first_user = refl

submit-Returns_example :
    Returns
      (submit_phone_number_verification_code user_lib phone_lib strings config phone_encoding badger
        json no_network here around
        (ok (by_user 7)))
      start
submit-Returns_example =
    submit-Returns user_lib phone_lib strings config phone_encoding badger json no_network here
      here-local encodes no_number encodes_entries writes around (by_user 7) start twilio
      (new_user_metadata free_at_start.key) (some 1) token_valid free_at_start first_supported refl
      refl first_user refl first_plus (λ key amount. (key, refl))
