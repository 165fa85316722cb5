-- ===== src/Phone/Accepted.antt =====
-- A code that is accepted: what a request needs to be answered (routes/verify.go).
use deso_backend.Base.{
  ℕ, ◌<◌, ◌≡◌, ◌≢◌, inl, inr, refl, sym, true, false, not, ◌&&◌, Bool-cases, List, [], ◌∷◌, ◌++◌,
  Bytes, bytes_eq, bytes_eq_refl, bytes_eq→eq, Option, none, some, ok, err, or_fail, ◌==◌, leb,
  if◌then◌else◌, length, IsIn, arith,
}
use deso_backend.Base.Actions.{◌>>=◌, lift, Returns, bind-Returns, read-Returns, lift-Returns}
use deso_backend.GlobalState.Encoding.{Encoding}
use deso_backend.GlobalState.Keys.Content.{
  key_for_public_key_to_user_metadata, key_for_phone_number_bytes_to_multi_phone_number_metadata,
  key_for_phone_number_string_to_multi_phone_number_metadata,
}
use deso_backend.GlobalState.Store.Interface.{Badger, Json, Network}
use deso_backend.GlobalState.Store.Client.{GlobalState, State, has_remote, put, update}
use deso_backend.Access.{validate_jwt}
use deso_backend.Users.{
  UserMetadata, UserLib, encoded_user, get_user_metadata, get_user_metadata_by_public_key_bytes,
  put_user_metadata,
}
use deso_backend.Phone.{
  PhoneNumberMetadata, prefix_not_supported, number_not_parsed, Twilio, PhoneLib, PhoneConfig,
  CodeRequest, Surroundings, twilio_check_phone_number_approved, require_valid, used_by,
  starts_with_plus, check_uses, new_entry, amount_for, PhoneState, get_multi_phone_number_metadata,
  put_phone_number_metadata, get_user, put_user, validate_phone_number_not_already_in_use,
  require_supported, check_code, index_number, file_number, pay, pay_first, pay_starter_deso,
  submit_phone_number_verification_code,
}
use deso_backend.Phone.Reads.{HasUser, HasEntries}
use deso_backend.Phone.Book.{users_of}
use deso_backend.Phone.Steps.{get_multi_lem, get_user_lem, put_user_lem}
use deso_backend.Phone.Free.{IsFree, validate_lem}
use deso_backend.Phone.Submit.{check_code_lem}
use deso_backend.PhoneAmount.{Strings}

used_by-IsIn :
    (key : Bytes) (entries : List PhoneNumberMetadata)
    → used_by key entries ≡ true
    → IsIn key (users_of entries)
unfolding used_by
used_by-IsIn key [] h = absurd cc
used_by-IsIn key (entry ∷ entries) h = elim (Bool-cases (bytes_eq key entry.public_key)) [
  | inl e ↦ inl (sym (bytes_eq→eq key entry.public_key e))
  | inr e ↦ inr (used_by-IsIn key entries (rw e at h))
]

module _ (ul : UserLib) (pl : PhoneLib) (st : Strings) (config : PhoneConfig) (en : Encoding)
    (b : Badger) (j : Json) (n : Network) (gs : GlobalState) (local : has_remote gs ≡ false)
    (encodes : (user : UserMetadata) → (text : Bytes) × (ul.gob.marshal user ≡ ok text))
    (no_number : (filed : Bytes) → en.format_e164 [] ≢ ok filed)
    (encodes_entries : (entries : List PhoneNumberMetadata)
      → (text : Bytes) × (pl.gob.marshal entries ≡ ok text))
    (writes : (db : b.Db) (c : ℕ) (key text : Bytes)
      → (db' : b.Db) × (b.set db (c ∷ key) text ≡ ok db')) where
  put-ok : (c : ℕ) (key text : Bytes) (s : State b j n) → (put b j n gs (c ∷ key) text s).0 ≡ ok tt
  unfolding put update
  put-ok c key text (db, world) = let (db', e) = writes db c key text in rw (local, put, e) refl

  put_user-ok :
      (user : UserMetadata) (s : PhoneState ul pl st config en b j n gs)
      → (put_user ul pl st config en b j n gs user s).0 ≡ ok tt
  unfolding put_user put_user_metadata encoded_user key_for_public_key_to_user_metadata
  put_user-ok user (store, paid) =
      let (text, e) = encodes user in
      rw (e, put_user, put_user_metadata, encoded_user) (rw (put-ok _ _ text store) refl)

  put_numbers-ok :
      (entries : List PhoneNumberMetadata) (number filed : Bytes)
      (s : PhoneState ul pl st config en b j n gs)
      → en.format_e164 number ≡ ok filed
      → (put_phone_number_metadata ul pl st config en b j n gs entries number s).0 ≡ ok tt
  unfolding put_phone_number_metadata key_for_phone_number_string_to_multi_phone_number_metadata
      key_for_phone_number_bytes_to_multi_phone_number_metadata
  put_numbers-ok entries number filed (store, paid) e =
      let (text, f) = encodes_entries entries in
      rw (e, put_phone_number_metadata, f) (rw (put-ok _ _ text store) refl)

  get_multi-ok :
      (number filed : Bytes) (entries : List PhoneNumberMetadata)
      (s : PhoneState ul pl st config en b j n gs)
      → en.format_e164 number ≡ ok filed
      → HasEntries ul pl st config en b j n gs filed s.0 entries
      → (get_multi_phone_number_metadata ul pl st config en b j n gs number s).0 ≡ ok entries
  unfolding get_multi_phone_number_metadata
      key_for_phone_number_string_to_multi_phone_number_metadata
  get_multi-ok number filed entries (store, paid) e has =
      rw (e, get_multi_phone_number_metadata) has

  get_user-ok :
      (key_text key : Bytes) (user : UserMetadata) (s : PhoneState ul pl st config en b j n gs)
      → ul.base58_check_decode key_text ≡ ok key
      → HasUser ul pl st config en b j n gs key s.0 user
      → (get_user ul pl st config en b j n gs key_text s).0 ≡ ok user
  unfolding get_user get_user_metadata get_user_metadata_by_public_key_bytes
  get_user-ok key_text key user (store, paid) e has =
      rw (e, get_user, get_user_metadata) (rw has refl)

  check_uses-ok :
      (key : Bytes) (entries : List PhoneNumberMetadata)
      → length entries < config.phone_number_use_threshold
      → ¬ IsIn key (users_of entries)
      → check_uses ul pl st config key entries ≡ ok tt
  unfolding check_uses
  check_uses-ok key entries below unused = elim (Bool-cases (used_by key entries)) [
    | inl e ↦ absurd (unused (used_by-IsIn key entries e))
    | inr e ↦
        let few : leb config.phone_number_use_threshold (length entries) ≡ false =
          ground (arith, below) in
        rw (few, e, check_uses) refl
  ]

  validate-ok :
      (number key_text : Bytes) (s : PhoneState ul pl st config en b j n gs)
      → IsFree ul pl st config en b j n gs local encodes no_number number key_text s
      → (validate_phone_number_not_already_in_use ul pl st config en b j n gs number key_text s).0
        ≡ ok tt
  unfolding validate_phone_number_not_already_in_use
  validate-ok number key_text s free =
      rw (free.is_key, validate_phone_number_not_already_in_use)
        (rw (get_multi-ok number free.filed free.entries s free.is_filed free.has_entries)
          (check_uses-ok free.key free.entries free.below free.unused))

  index_number-ok :
      (number filed key : Bytes) (entries : List PhoneNumberMetadata) (country : Option ℕ)
      (s : PhoneState ul pl st config en b j n gs)
      → en.format_e164 number ≡ ok filed
      → HasEntries ul pl st config en b j n gs filed s.0 entries
      → pl.parse number ≡ ok country
      → (index_number ul pl st config en b j n gs number key s).0 ≡ ok tt
  unfolding index_number
  index_number-ok number filed key entries country s is_filed has parsed =
      let (same, found) = get_multi_lem ul pl st config en b j n gs local encodes number s in
      let (answer, e) =
        read-Returns (get_multi_phone_number_metadata ul pl st config en b j n gs number)
          (λ there. lift (or_fail (pl.parse number) (λ x. number_not_parsed)) >>= λ c.
            put_phone_number_metadata ul pl st config en b j n gs
              (there ++ new_entry ul pl st config key number c ∷ []) number)
          s entries (get_multi-ok number filed entries s is_filed has) same
          (lift-Returns (or_fail (pl.parse number) (λ x. number_not_parsed)) _ s country
            (rw parsed refl)
            (
              tt,
              put_numbers-ok (entries ++ new_entry ul pl st config key number country ∷ []) number
                  filed s is_filed,
            )) in
      e

  file_number-ok :
      (number key_text : Bytes) (user : UserMetadata) (country : Option ℕ)
      (s : PhoneState ul pl st config en b j n gs)
      → IsFree ul pl st config en b j n gs local encodes no_number number key_text s
      → pl.parse number ≡ ok country
      → (file_number ul pl st config en b j n gs number user s).0 ≡ ok tt
  unfolding file_number
  file_number-ok number key_text user country s free parsed =
      let named : UserMetadata = record user { phone_number = number } in
      let written = (put_user_lem ul pl st config en b j n gs local encodes named s).0 in
      let e = put_user-ok named s in
      let (answer, f) =
        bind-Returns (put_user ul pl st config en b j n gs named)
          (λ u. index_number ul pl st config en b j n gs number user.public_key) s tt e
          (
            tt,
            index_number-ok number free.filed user.public_key free.entries country _ free.is_filed
                ((written e).entries_after free.filed free.entries free.has_entries) parsed,
          ) in
      f

  pay-Returns :
      (around : Surroundings) (number : Bytes) (user : UserMetadata)
      (s : PhoneState ul pl st config en b j n gs)
      → starts_with_plus number ≡ true
      → ((key : Bytes) (amount : ℕ)
          → (txn_hash : Bytes) × (around.send_seed_deso key amount ≡ ok txn_hash))
      → Returns (pay_starter_deso ul pl st config en b j n gs around number user) s
  unfolding pay_starter_deso pay_first pay
  pay-Returns around number user (store, paid) plus sends =
      elim (Bool-cases
        ((length user.phone_number == 0) && not (length config.starter_deso_seed == 0))) [
          | inr e ↦ rw (e, pay_starter_deso) (none, refl)
          | inl e ↦
              let (txn_hash, f) = sends user.public_key (amount_for ul pl st config number) in
              rw (e, pay_starter_deso, plus, pay_first, f, pay) (some txn_hash, refl)
        ]

  check_code-ok :
      (around : Option Twilio) (code number : Bytes) (s : PhoneState ul pl st config en b j n gs)
      (twilio : Twilio)
      → around ≡ some twilio
      → twilio.check_verification code number ≡ ok twilio_check_phone_number_approved
      → (check_code ul pl st config en b j n gs around code number s).0 ≡ ok tt
  unfolding check_code
  check_code-ok around code number s twilio has approved =
      rw (has, check_code, approved) (rw (bytes_eq_refl twilio_check_phone_number_approved) refl)

  -- On a local store whose writes succeed, where the records of users and numbers can be encoded:
  -- SubmitPhoneNumberVerificationCode answers every request that has a valid token, a number that
  -- is free for the user, of a supported prefix, that begins with a plus sign and can be parsed,
  -- and a code that Twilio approves, where the record of the user is read and payments succeed.
  pub submit-Returns :
      (around : Surroundings) (r : CodeRequest) (s : PhoneState ul pl st config en b j n gs)
      (twilio : Twilio) (user : UserMetadata) (country : Option ℕ)
      → validate_jwt around.tokens r.public_key r.jwt ≡ ok true
      → (free : IsFree ul pl st config en b j n gs local encodes no_number r.phone_number
          r.public_key s)
      → amount_for ul pl st config r.phone_number ≢ 0
      → around.twilio ≡ some twilio
      → twilio.check_verification r.verification_code r.phone_number
        ≡ ok twilio_check_phone_number_approved
      → HasUser ul pl st config en b j n gs free.key s.0 user
      → pl.parse r.phone_number ≡ ok country
      → starts_with_plus r.phone_number ≡ true
      → ((key : Bytes) (amount : ℕ)
          → (txn_hash : Bytes) × (around.send_seed_deso key amount ≡ ok txn_hash))
      → Returns (submit_phone_number_verification_code ul pl st config en b j n gs around (ok r)) s
  unfolding submit_phone_number_verification_code require_valid require_supported
  submit-Returns around r s twilio user country valid free supported has_twilio approved has parsed
        plus sends =
      lift-Returns (require_valid (validate_jwt around.tokens r.public_key r.jwt)) _ s tt
        (rw valid refl)
        (read-Returns
          (validate_phone_number_not_already_in_use ul pl st config en b j n gs r.phone_number
            r.public_key)
          _ s tt (validate-ok r.phone_number r.public_key s free)
          (validate_lem ul pl st config en b j n gs local encodes no_number r.phone_number
            r.public_key s).0
          (lift-Returns
            (if amount_for ul pl st config r.phone_number == 0
              then err prefix_not_supported
              else ok tt)
            _ s tt (ground (arith, supported))
            (read-Returns
              (check_code ul pl st config en b j n gs around.twilio r.verification_code
                r.phone_number)
              _ s tt
              (check_code-ok around.twilio r.verification_code r.phone_number s twilio has_twilio
                approved)
              (check_code_lem ul pl st config en b j n gs local encodes no_number around.twilio
                r.verification_code r.phone_number s).0
              (read-Returns (get_user ul pl st config en b j n gs r.public_key) _ s user
                (get_user-ok r.public_key free.key user s free.is_key has)
                (get_user_lem ul pl st config en b j n gs local encodes r.public_key s).0
                (bind-Returns (file_number ul pl st config en b j n gs r.phone_number user) _ s tt
                  (file_number-ok r.phone_number r.public_key user country s free parsed)
                  (pay-Returns around r.phone_number user _ plus sends))))))
