-- ===== src/Phone/History.antt =====
-- Histories of the requests to verify numbers (routes/verify.go).
use deso_backend.Base.{
  ℕ, ◌≡◌, ◌≢◌, inl, inr, true, refl, sym, ap, subst, ◌∙◌, false, List, [], ◌∷◌, ◌++◌, Bytes,
  bytes_eq, Option, none, some, Result, ok, err, or_fail, if◌then◌else◌, ◌==◌, IsIn, arith,
}
use deso_backend.Base.Actions.{lift, After, lift_at, read_at, After-value, After-always, end_at}
use deso_backend.GlobalState.Encoding.{Encoding}
use deso_backend.GlobalState.Keys.Content.{
  key_for_public_key_to_user_metadata, key_for_phone_number_bytes_to_multi_phone_number_metadata,
}
use deso_backend.GlobalState.Store.Interface.{Badger, Json, Network}
use deso_backend.GlobalState.Store.Client.{GlobalState, has_remote, get}
use deso_backend.Access.{validate_jwt}
use deso_backend.Access.Tokens.{IsSignedFor, validate_jwt_lem}
use deso_backend.Users.{
  UserMetadata, UserLib, new_user_metadata, make_user_metadata, with_public_key, user_of_answer,
}
use deso_backend.Phone.{
  PhoneNumberMetadata, bad_body, no_twilio, prefix_not_supported, lookup_failed, voip_number,
  text_failed, PhoneLib, PhoneConfig, TextRequest, CodeRequest, Surroundings,
  twilio_voip_carrier_type, require_valid, entries_of_answer, new_entry, amount_for, PhoneState,
  validate_phone_number_not_already_in_use, require_supported, send_text,
  send_phone_number_verification_text, submit_phone_number_verification_code,
}
use deso_backend.Phone.Reads.{HasEntries}
use deso_backend.Phone.Book.{users_of, IsPhoneBook}
use deso_backend.Phone.Free.{IsFree, validate_lem}
use deso_backend.Phone.Submit.{IsSubmitted, submit_lem}
use deso_backend.PhoneAmount.{Strings}

-- The states that a node reaches from one that knows no users and no numbers and has paid nobody.
pub data PhoneHistory (ul : UserLib) (pl : PhoneLib) (st : Strings) (config : PhoneConfig)
    (en : Encoding) (b : Badger) (j : Json) (n : Network) (gs : GlobalState)
    : PhoneState ul pl st config en b j n gs → Type 1 where
  nothing_known :
      (s : PhoneState ul pl st config en b j n gs)
      → s.1 ≡ []
      → ((key : Bytes)
          → (get b j n gs (key_for_public_key_to_user_metadata en key) s.0).0 ≡ ok none)
      → ((number : Bytes)
          → (get b j n gs
              (key_for_phone_number_bytes_to_multi_phone_number_metadata en number)
              s.0).0
            ≡ ok none)
      → PhoneHistory ul pl st config en b j n gs s
  text_asked :
      (around : Surroundings) (request : Result Bytes TextRequest)
      (s : PhoneState ul pl st config en b j n gs)
      → PhoneHistory ul pl st config en b j n gs s
      → PhoneHistory ul pl st config en b j n gs
          (send_phone_number_verification_text ul pl st config en b j n gs around request s).1
  code_sent :
      (around : Surroundings) (request : Result Bytes CodeRequest)
      (s : PhoneState ul pl st config en b j n gs)
      → PhoneHistory ul pl st config en b j n gs s
      → PhoneHistory ul pl st config en b j n gs
          (submit_phone_number_verification_code ul pl st config en b j n gs around request s).1

module _ (ul : UserLib) (pl : PhoneLib) (st : Strings) (config : PhoneConfig) (en : Encoding)
    (b : Badger) (j : Json) (n : Network) (gs : GlobalState) (local : has_remote gs ≡ false)
    (encodes : (user : UserMetadata) → (text : Bytes) × (ul.gob.marshal user ≡ ok text))
    (no_number : (filed : Bytes) → en.format_e164 [] ≢ ok filed) where
  new_key : (key : Bytes) → (with_public_key ul key (new_user_metadata key)).public_key ≡ key
  unfolding with_public_key
  new_key key = ground arith

  nothing-IsPhoneBook :
      (s : PhoneState ul pl st config en b j n gs)
      → s.1 ≡ []
      → ((key : Bytes)
          → (get b j n gs (key_for_public_key_to_user_metadata en key) s.0).0 ≡ ok none)
      → ((number : Bytes)
          → (get b j n gs
              (key_for_phone_number_bytes_to_multi_phone_number_metadata en number)
              s.0).0
            ≡ ok none)
      → IsPhoneBook ul pl st config en b j n gs s
  unfolding user_of_answer make_user_metadata with_public_key entries_of_answer
  nothing-IsPhoneBook (store, paid) nobody no_user no_entries = record {
    users = λ key user h.
        let h' = rw (no_user key, user_of_answer, make_user_metadata) at h in
        let named : with_public_key ul key (new_user_metadata key) ≡ user = cc h' in
        ap (λ (x : UserMetadata). x.public_key) (sym named) ∙ new_key key;
    numbers = λ number entries h.
        let none_found : entries ≡ [] =
          cc (h, ap (entries_of_answer ul pl st config) (no_entries number)) in
        rw none_found (omega arith, tt);
    once = rw nobody tt;
    known = λ key member. absurd (rw nobody at member);
  }

  text_lem :
      (around : Surroundings) (request : Result Bytes TextRequest)
      (s : PhoneState ul pl st config en b j n gs)
      → After
          (λ (u : Unit {0}) (after : PhoneState ul pl st config en b j n gs). after ≡ s)
          (λ (after : PhoneState ul pl st config en b j n gs). after ≡ s)
          (send_phone_number_verification_text ul pl st config en b j n gs around request s).0
          (send_phone_number_verification_text ul pl st config en b j n gs around request s).1
  unfolding send_phone_number_verification_text require_supported send_text
  text_lem around request s = lift_at _ _ (or_fail request (λ e. bad_body)) _ s refl λ r e0.
      lift_at _ _ (elim around.twilio [ none ↦ err no_twilio | some t ↦ ok t ]) _ s refl
        λ twilio e1.
          lift_at _ _ (require_valid (validate_jwt around.tokens r.public_key r.jwt)) _ s refl
            λ u2 e2.
              read_at _ _
                (validate_phone_number_not_already_in_use ul pl st config en b j n gs r.phone_number
                  r.public_key)
                _ s
                (validate_lem ul pl st config en b j n gs local encodes no_number r.phone_number
                  r.public_key s).0
                refl
                λ u3 e3.
                  lift_at _ _
                    (if amount_for ul pl st config r.phone_number == 0
                      then err prefix_not_supported
                      else ok tt)
                    _ s refl
                    λ u4 e4.
                      lift_at _ _
                        (or_fail (twilio.carrier_type r.phone_number) (λ e. lookup_failed)) _ s refl
                        λ carrier e5.
                          lift_at _ _
                            (if bytes_eq carrier twilio_voip_carrier_type
                              then err voip_number
                              else ok tt)
                            _ s refl
                            λ u6 e6.
                              end_at _ _
                                (lift (
                                  or_fail (twilio.create_verification r.phone_number)
                                    (λ e. text_failed)))
                                s (λ failed. refl) (λ u7 e7. refl)

  -- a request for a text changes nothing
  text_keeps :
      (around : Surroundings) (request : Result Bytes TextRequest)
      (s : PhoneState ul pl st config en b j n gs)
      → (send_phone_number_verification_text ul pl st config en b j n gs around request s).1 ≡ s
  text_keeps around request s =
      After-always (λ (u : Unit {0}) (after : PhoneState ul pl st config en b j n gs). after ≡ s)
        (λ (after : PhoneState ul pl st config en b j n gs). after ≡ s) (λ u after h. h)
        (send_phone_number_verification_text ul pl st config en b j n gs around request s).0
        (send_phone_number_verification_text ul pl st config en b j n gs around request s).1
        (text_lem around request s)

  -- After every history of requests for texts and of codes sent in, successful or not, from a local
  -- store that knows no users and no numbers, where the record of every user can be encoded and the
  -- empty number is not one: every record of a user is under the user's key, no number has more
  -- users than the threshold or one user twice, no user was paid twice, and each user who was paid
  -- has a phone number on record.
  pub reached-IsPhoneBook :
      {s : PhoneState ul pl st config en b j n gs}
      → PhoneHistory ul pl st config en b j n gs s
      → IsPhoneBook ul pl st config en b j n gs s
  reached-IsPhoneBook (nothing_known s nobody no_user no_entries) =
      nothing-IsPhoneBook s nobody no_user no_entries
  reached-IsPhoneBook (text_asked around request s before) =
      rw (text_keeps around request s) (reached-IsPhoneBook before)
  reached-IsPhoneBook (code_sent around request s before) =
      After-always
        (λ (answer : Option Bytes) (after : PhoneState ul pl st config en b j n gs).
          (r : CodeRequest) × (request ≡ ok r)
          × IsSubmitted ul pl st config en b j n gs local encodes no_number around r s after)
        (IsPhoneBook ul pl st config en b j n gs) (λ answer after (r, is_request, done). done.book)
        (submit_phone_number_verification_code ul pl st config en b j n gs around request s).0
        (submit_phone_number_verification_code ul pl st config en b j n gs around request s).1
        (submit_lem ul pl st config en b j n gs local encodes no_number around request s
          (reached-IsPhoneBook before))

  -- Where a history as in reached-IsPhoneBook led to the state: a code that is accepted belongs to
  -- a request with a valid token, current and signed by the user or by a derived key of the user's;
  -- the number was free for the user and the code was approved; afterwards the user's record has
  -- the number and is as before otherwise, the users of the number are those from before and this
  -- one, last; the user was paid the amount for the number if the user had no number before and
  -- there is a seed, and otherwise nobody was paid.
  pub submit-IsSubmitted :
      (around : Surroundings) (r : CodeRequest) (s : PhoneState ul pl st config en b j n gs)
      {answer : Option Bytes}
      → PhoneHistory ul pl st config en b j n gs s
      → (submit_phone_number_verification_code ul pl st config en b j n gs around (ok r) s).0
        ≡ ok answer
      → IsSubmitted ul pl st config en b j n gs local encodes no_number around r s
          (submit_phone_number_verification_code ul pl st config en b j n gs around (ok r) s).1
        × IsSignedFor around.tokens r.public_key r.jwt
  submit-IsSubmitted around r s history answered =
      let (r', same, done) =
        After-value
          (λ (answer : Option Bytes) (after : PhoneState ul pl st config en b j n gs).
            (x : CodeRequest) × (ok r ≡ ok x)
            × IsSubmitted ul pl st config en b j n gs local encodes no_number around x s after)
          (IsPhoneBook ul pl st config en b j n gs)
          (submit_phone_number_verification_code ul pl st config en b j n gs around (ok r) s).0
          (submit_phone_number_verification_code ul pl st config en b j n gs around (ok r) s).1
          (submit_lem ul pl st config en b j n gs local encodes no_number around (ok r) s
            (reached-IsPhoneBook history))
          answered in
      let is_r : r' ≡ r = cc same in
      (
        subst
            (λ (x : CodeRequest).
              IsSubmitted ul pl st config en b j n gs local encodes no_number around x s
                (submit_phone_number_verification_code ul pl st config en b j n gs around (ok r)
                  s).1)
            is_r done,
        validate_jwt_lem around.tokens r.public_key r.jwt (
            subst (λ (x : CodeRequest). validate_jwt around.tokens x.public_key x.jwt ≡ ok true)
              is_r done.valid),
      )

  stands_last :
      (entry : PhoneNumberMetadata) (entries : List PhoneNumberMetadata)
      → IsIn entry.public_key (users_of (entries ++ entry ∷ []))
  stands_last entry [] = inl refl
  stands_last entry (e ∷ entries) = inr (stands_last entry entries)

  -- a user who stands under a number is not free to take it again
  not-IsFree_again :
      (number number' key_text : Bytes) (key filed : Bytes) (entries : List PhoneNumberMetadata)
      (country : Option ℕ) (s : PhoneState ul pl st config en b j n gs)
      → ul.base58_check_decode key_text ≡ ok key
      → en.format_e164 number' ≡ ok filed
      → HasEntries ul pl st config en b j n gs filed s.0
          (entries ++ new_entry ul pl st config key number country ∷ [])
      → ¬ IsFree ul pl st config en b j n gs local encodes no_number number' key_text s
  unfolding new_entry
  not-IsFree_again number number' key_text key filed entries country s is_key is_filed has free =
      let entry = new_entry ul pl st config key number country in
      let same_filed : filed ≡ free.filed = cc (is_filed, free.is_filed) in
      let found : free.entries ≡ entries ++ entry ∷ [] = cc (
        subst (λ (x : Bytes). HasEntries ul pl st config en b j n gs x s.0 (entries ++ entry ∷ []))
            same_filed has,
        free.has_entries,
      ) in
      let same : key ≡ free.key = cc (is_key, free.is_key) in
      free.unused (
        subst (λ (k : Bytes). IsIn k (users_of free.entries)) same
          (rw found (stands_last entry entries)))

  -- After a code was accepted in a state that a history as in reached-IsPhoneBook led to, a second
  -- request of the same user for the same number is not accepted, whatever its code, its token and
  -- the spelling of key and number.
  pub submit_again :
      (around again : Surroundings) (r r' : CodeRequest)
      (s : PhoneState ul pl st config en b j n gs) {answer : Option Bytes}
      → PhoneHistory ul pl st config en b j n gs s
      → (submit_phone_number_verification_code ul pl st config en b j n gs around (ok r) s).0
        ≡ ok answer
      → ul.base58_check_decode r'.public_key ≡ ul.base58_check_decode r.public_key
      → en.format_e164 r'.phone_number ≡ en.format_e164 r.phone_number
      → (answer' : Option Bytes)
      → (submit_phone_number_verification_code ul pl st config en b j n gs again
          (ok r')
          (submit_phone_number_verification_code ul pl st config en b j n gs around (ok r) s).1).0
        ≢ ok answer'
  submit_again around again r r' s history answered same_key same_number answer' twice =
      let after =
        (submit_phone_number_verification_code ul pl st config en b j n gs around (ok r) s).1 in
      let done = (submit-IsSubmitted around r s history answered).0 in
      let second =
        (submit-IsSubmitted again r' after (code_sent around (ok r) s history) twice).0 in
      not-IsFree_again r.phone_number r'.phone_number r'.public_key done.free.key done.free.filed
        done.free.entries done.country after (same_key ∙ done.free.is_key)
        (same_number ∙ done.free.is_filed) done.has_entries second.free
