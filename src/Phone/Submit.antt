-- ===== src/Phone/Submit.antt =====
-- What the handlers have done when they answer, and what they keep in any case (routes/verify.go).
use deso_backend.Base.{
  ℕ, ◌≡◌, ◌≢◌, inl, inr, refl, ap, subst, ◌∙◌, false, true, Bool-cases, [], ◌∷◌, ◌++◌, Bytes,
  bytes_eq, bytes_eq→eq, Option, none, some, Result, Result-cases, ok, err, or_fail,
  value_of_or_fail, if◌then◌else◌, ◌==◌, arith,
}
use deso_backend.Base.Actions.{◌>>=◌, ◌>>◌, After, lift_at, read_at, After-map}
use deso_backend.GlobalState.Encoding.{Encoding}
use deso_backend.GlobalState.Store.Interface.{Badger, Json, Network}
use deso_backend.GlobalState.Store.Client.{GlobalState, has_remote}
use deso_backend.Access.{validate_jwt}
use deso_backend.Users.{UserMetadata, UserLib}
use deso_backend.Phone.{
  bad_body, prefix_not_supported, Twilio, PhoneLib, PhoneConfig, CodeRequest, Surroundings,
  twilio_check_phone_number_approved, require_valid, new_entry, amount_for, PhoneState, get_user,
  validate_phone_number_not_already_in_use, require_supported, check_code, file_number,
  pay_starter_deso, submit_phone_number_verification_code,
}
use deso_backend.Phone.Reads.{HasUser, HasEntries}
use deso_backend.Phone.Steps.{get_user_lem}
use deso_backend.PhoneAmount.{Strings}
use deso_backend.Phone.Free.{Book, IsFree, validate_lem, require_valid_lem}
use deso_backend.Phone.Paid.{IsPaid}
use deso_backend.Phone.Saved.{IsFiledAndPaid, file_and_pay_lem}

module _ (ul : UserLib) (pl : PhoneLib) (st : Strings) (config : PhoneConfig) (en : Encoding)
    (b : Badger) (j : Json) (n : Network) (gs : GlobalState) (local : has_remote gs ≡ false)
    (encodes : (user : UserMetadata) → (text : Bytes) × (ul.gob.marshal user ≡ ok text))
    (no_number : (filed : Bytes) → en.format_e164 [] ≢ ok filed) where
  -- A request that is answered, and what it has done.
  pub record IsSubmitted (around : Surroundings) (r : CodeRequest)
      (before after : PhoneState ul pl st config en b j n gs) : Type 0 where
    pub valid : validate_jwt around.tokens r.public_key r.jwt ≡ ok true
    pub free :
        IsFree ul pl st config en b j n gs local encodes no_number r.phone_number r.public_key
          before
    pub supported : amount_for ul pl st config r.phone_number ≢ 0
    pub twilio : Twilio
    pub has_twilio : around.twilio ≡ some twilio
    pub approved :
        twilio.check_verification r.verification_code r.phone_number
        ≡ ok twilio_check_phone_number_approved
    pub user : UserMetadata
    pub had_user : HasUser ul pl st config en b j n gs free.key before.0 user
    pub country : Option ℕ
    pub has_entries :
        HasEntries ul pl st config en b j n gs free.filed after.0
          (free.entries ++ new_entry ul pl st config free.key r.phone_number country ∷ [])
    pub has_user :
        HasUser ul pl st config en b j n gs free.key after.0
          (record user { phone_number = r.phone_number })
    pub paid :
        IsPaid ul pl st config en b j n gs local encodes no_number r.phone_number free.key user
          before.1 after.1
    pub book : Book ul pl st config en b j n gs local encodes no_number after

  pub check_code_lem :
      (around : Option Twilio) (code number : Bytes) (s : PhoneState ul pl st config en b j n gs)
      → ((check_code ul pl st config en b j n gs around code number s).1 ≡ s)
        × ((u : Unit {0})
            → (check_code ul pl st config en b j n gs around code number s).0 ≡ ok u
            → (twilio : Twilio) × (around ≡ some twilio)
              × (twilio.check_verification code number ≡ ok twilio_check_phone_number_approved))
  unfolding check_code
  check_code_lem none code number s = (refl, λ u h. absurd cc)
  check_code_lem (some twilio) code number s =
      elim (Result-cases (twilio.check_verification code number)) [
        | inr (inl (x, e)) ↦ rw (e, check_code) (refl, λ u h. absurd cc)
        | inr (inr e) ↦ rw (e, check_code) (refl, λ u h. absurd cc)
        | inl (status, e) ↦ elim (Bool-cases (bytes_eq status twilio_check_phone_number_approved)) [
          | inl f ↦
              rw (e, check_code, f) (refl, λ u h. (twilio, refl, e ∙ ap ok (bytes_eq→eq _ _ f)))
          | inr f ↦ rw (e, check_code, f) (refl, λ u h. absurd cc)
        ]
      ]

  same_key :
      (key key' key_text : Bytes)
      → ul.base58_check_decode key_text ≡ ok key
      → ul.base58_check_decode key_text ≡ ok key'
      → key ≡ key'
  same_key key key' key_text e f = cc (e, f)

  -- What follows the check of a code that is approved.
  save_lem :
      (around : Surroundings) (r : CodeRequest) (s : PhoneState ul pl st config en b j n gs)
      → Book ul pl st config en b j n gs local encodes no_number s
      → validate_jwt around.tokens r.public_key r.jwt ≡ ok true
      → IsFree ul pl st config en b j n gs local encodes no_number r.phone_number r.public_key s
      → amount_for ul pl st config r.phone_number ≢ 0
      → ((twilio : Twilio) × (around.twilio ≡ some twilio)
          × (twilio.check_verification r.verification_code r.phone_number
              ≡ ok twilio_check_phone_number_approved))
      → After
          (λ (answer : Option Bytes) (after : PhoneState ul pl st config en b j n gs).
            IsSubmitted around r s after)
          (Book ul pl st config en b j n gs local encodes no_number)
          ((get_user ul pl st config en b j n gs r.public_key >>= λ user.
              file_number ul pl st config en b j n gs r.phone_number user
              >> pay_starter_deso ul pl st config en b j n gs around r.phone_number user)
            s).0
          ((get_user ul pl st config en b j n gs r.public_key >>= λ user.
              file_number ul pl st config en b j n gs r.phone_number user
              >> pay_starter_deso ul pl st config en b j n gs around r.phone_number user)
            s).1
  save_lem around r s book valid free supported (twilio, has_twilio, approved) =
      let (same, user_of) = get_user_lem ul pl st config en b j n gs local encodes r.public_key s in
      read_at _ _ (get_user ul pl st config en b j n gs r.public_key) _ s same book λ user e.
        let (key, is_key, has_key) = user_of user e in
        let has =
          subst (λ (k : Bytes). HasUser ul pl st config en b j n gs k s.0 user)
            (same_key key free.key r.public_key is_key free.is_key) has_key in
        After-map
          (λ (answer : Option Bytes) (after : PhoneState ul pl st config en b j n gs).
            IsFiledAndPaid ul pl st config en b j n gs local encodes no_number r.phone_number
              r.public_key user s after free)
          (λ (answer : Option Bytes) (after : PhoneState ul pl st config en b j n gs).
            IsSubmitted around r s after)
          (Book ul pl st config en b j n gs local encodes no_number)
          (λ answer after done. record {
            valid = valid;
            free = free;
            supported = supported;
            twilio = twilio;
            has_twilio = has_twilio;
            approved = approved;
            user = user;
            had_user = has;
            country = done.country;
            has_entries = done.has_entries;
            has_user = done.has_user;
            paid = done.paid;
            book = done.book;
          })
          _ _
          (file_and_pay_lem ul pl st config en b j n gs local encodes no_number around
            r.phone_number r.public_key user s book free has)

  pub submit_lem :
      (around : Surroundings) (request : Result Bytes CodeRequest)
      (s : PhoneState ul pl st config en b j n gs)
      → Book ul pl st config en b j n gs local encodes no_number s
      → After
          (λ (answer : Option Bytes) (after : PhoneState ul pl st config en b j n gs).
            (r : CodeRequest) × (request ≡ ok r) × IsSubmitted around r s after)
          (Book ul pl st config en b j n gs local encodes no_number)
          (submit_phone_number_verification_code ul pl st config en b j n gs around request s).0
          (submit_phone_number_verification_code ul pl st config en b j n gs around request s).1
  unfolding submit_phone_number_verification_code require_supported
  submit_lem around request s book = lift_at _ _ (or_fail request (λ e. bad_body)) _ s book λ r e0.
      lift_at _ _ (require_valid (validate_jwt around.tokens r.public_key r.jwt)) _ s book λ u e1.
        let (same2, free_of) =
          validate_lem ul pl st config en b j n gs local encodes no_number r.phone_number
            r.public_key s in
        read_at _ _
          (validate_phone_number_not_already_in_use ul pl st config en b j n gs r.phone_number
            r.public_key)
          _ s same2 book
          λ u2 e2.
            lift_at _ _
              (if amount_for ul pl st config r.phone_number == 0
                then err prefix_not_supported
                else ok tt)
              _ s book
              λ u3 e3.
                let (same4, code_of) =
                  check_code_lem around.twilio r.verification_code r.phone_number s in
                read_at _ _
                  (check_code ul pl st config en b j n gs around.twilio r.verification_code
                    r.phone_number)
                  _ s same4 book
                  λ u4 e4.
                    After-map
                      (λ (answer : Option Bytes) (after : PhoneState ul pl st config en b j n gs).
                        IsSubmitted around r s after)
                      (λ (answer : Option Bytes) (after : PhoneState ul pl st config en b j n gs).
                        (r : CodeRequest) × (request ≡ ok r) × IsSubmitted around r s after)
                      (Book ul pl st config en b j n gs local encodes no_number)
                      (λ answer after done. (r, value_of_or_fail request _ e0, done)) _ _
                      (save_lem around r s book
                        (require_valid_lem (validate_jwt around.tokens r.public_key r.jwt) e1)
                        (free_of u2 e2) (λ nothing. ground (arith, nothing, e3)) (code_of u4 e4))
