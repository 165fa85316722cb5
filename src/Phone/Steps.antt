-- ===== src/Phone/Steps.antt =====
-- What the steps of the handlers do to the store (routes/verify.go, routes/shared.go).
use deso_backend.Base.{
  ◌≡◌, ◌≢◌, inl, inr, refl, ap, false, value_of_or_fail, List, Bytes, Option, Result, Result-cases,
  ok,
}
use deso_backend.GlobalState.Encoding.{Encoding}
use deso_backend.GlobalState.Keys.Content.{
  key_for_public_key_to_user_metadata, key_for_phone_number_bytes_to_multi_phone_number_metadata,
  key_for_phone_number_string_to_multi_phone_number_metadata,
}
use deso_backend.GlobalState.Store.Interface.{Badger, Json, Network}
use deso_backend.GlobalState.Store.Client.{Error, GlobalState, State, has_remote, put, get}
use deso_backend.GlobalState.Store.Local.{get_is_local, put_failed}
use deso_backend.Users.{
  UserMetadata, UserLib, user_of_answer, get_user_metadata_by_public_key_bytes, get_user_metadata,
  put_user_metadata,
}
use deso_backend.Phone.{
  PhoneNumberMetadata, user_failed, PhoneLib, PhoneConfig, PhoneState,
  get_multi_phone_number_metadata, put_phone_number_metadata, get_user, put_user,
}
use deso_backend.Phone.Reads.{
  HasUser, HasEntries, UserWritten, put_user_metadata_lem, EntriesWritten, put-EntriesWritten,
}
use deso_backend.PhoneAmount.{Strings}

module _ (ul : UserLib) (pl : PhoneLib) (st : Strings) (config : PhoneConfig) (en : Encoding)
    (b : Badger) (j : Json) (n : Network) (gs : GlobalState) (local : has_remote gs ≡ false)
    (encodes : (user : UserMetadata) → (text : Bytes) × (ul.gob.marshal user ≡ ok text)) where
  get_keeps : (key : Bytes) (store : State b j n) → (get b j n gs key store).1 ≡ store
  get_keeps key store =
      ap (λ (x : Result Error (Option Bytes) × State b j n). x.1)
        (get_is_local b j n gs local key store)

  pub get_multi_lem :
      (number : Bytes) (s : PhoneState ul pl st config en b j n gs)
      → ((get_multi_phone_number_metadata ul pl st config en b j n gs number s).1 ≡ s)
        × ((entries : List PhoneNumberMetadata)
            → (get_multi_phone_number_metadata ul pl st config en b j n gs number s).0 ≡ ok entries
            → (filed : Bytes) × (en.format_e164 number ≡ ok filed)
              × HasEntries ul pl st config en b j n gs filed s.0 entries)
  unfolding get_multi_phone_number_metadata
      key_for_phone_number_string_to_multi_phone_number_metadata
  get_multi_lem number (store, paid) = elim (Result-cases (en.format_e164 number)) [
    | inl (filed, e) ↦
        rw (e, get_multi_phone_number_metadata)
          (
            λ i. (
              get_keeps (key_for_phone_number_bytes_to_multi_phone_number_metadata en filed) store
                  i,
              paid,
            ),
            λ entries h. (filed, refl, h),
          )
    | inr (inl (x, e)) ↦ rw (e, get_multi_phone_number_metadata) (refl, λ entries h. absurd cc)
    | inr (inr e) ↦ rw (e, get_multi_phone_number_metadata) (refl, λ entries h. absurd cc)
  ]

  pub get_user_lem :
      (key_text : Bytes) (s : PhoneState ul pl st config en b j n gs)
      → ((get_user ul pl st config en b j n gs key_text s).1 ≡ s)
        × ((user : UserMetadata)
            → (get_user ul pl st config en b j n gs key_text s).0 ≡ ok user
            → (key : Bytes) × (ul.base58_check_decode key_text ≡ ok key)
              × HasUser ul pl st config en b j n gs key s.0 user)
  unfolding get_user get_user_metadata get_user_metadata_by_public_key_bytes
  get_user_lem key_text (store, paid) = elim (Result-cases (ul.base58_check_decode key_text)) [
    | inl (key, e) ↦
        let user_key = key_for_public_key_to_user_metadata en key in
        rw (e, get_user_metadata)
          (
            λ i. (get_keeps user_key store i, paid),
            λ user h. (
              key,
              refl,
              value_of_or_fail (user_of_answer ul key (get b j n gs user_key store).0) user_failed
                  h,
            ),
          )
    | inr (inl (x, e)) ↦ rw (e, get_user, get_user_metadata) (refl, λ user h. absurd cc)
    | inr (inr e) ↦ rw (e, get_user, get_user_metadata) (refl, λ user h. absurd cc)
  ]

  pub put_user_lem :
      (user : UserMetadata) (s : PhoneState ul pl st config en b j n gs)
      → ((put_user ul pl st config en b j n gs user s).0 ≡ ok tt
          → UserWritten ul pl st config en b j n gs local encodes user s.0
              (put_user ul pl st config en b j n gs user s).1.0)
        × ((put_user ul pl st config en b j n gs user s).0 ≢ ok tt
            → (put_user ul pl st config en b j n gs user s).1 ≡ s)
        × ((put_user ul pl st config en b j n gs user s).1.1 ≡ s.1)
  unfolding put_user
  put_user_lem user (store, paid) =
      let (written, failed) =
        put_user_metadata_lem ul pl st config en b j n gs local encodes user store in
      elim (Result-cases (put_user_metadata ul en b j n gs user store).0) [
        | inl (u, e) ↦ (λ h. written e, λ no_value. absurd (no_value (rw e refl)), refl)
        | inr (inl (x, e)) ↦
            (λ h. absurd (cc (rw e at h)), λ h i. (failed (λ f. cc (f, e)) i, paid), refl)
        | inr (inr e) ↦
            (λ h. absurd (cc (rw e at h)), λ h i. (failed (λ f. cc (f, e)) i, paid), refl)
      ]

  pub put_numbers_lem :
      (entries : List PhoneNumberMetadata) (number : Bytes)
      (s : PhoneState ul pl st config en b j n gs)
      → ((put_phone_number_metadata ul pl st config en b j n gs entries number s).0 ≡ ok tt
          → (filed : Bytes) × (en.format_e164 number ≡ ok filed)
            × EntriesWritten ul pl st config en b j n gs local encodes filed entries s.0
                (put_phone_number_metadata ul pl st config en b j n gs entries number s).1.0)
        × ((put_phone_number_metadata ul pl st config en b j n gs entries number s).0 ≢ ok tt
            → (put_phone_number_metadata ul pl st config en b j n gs entries number s).1 ≡ s)
        × ((put_phone_number_metadata ul pl st config en b j n gs entries number s).1.1 ≡ s.1)
  unfolding put_phone_number_metadata key_for_phone_number_string_to_multi_phone_number_metadata
  put_numbers_lem entries number (store, paid) = elim (Result-cases (en.format_e164 number)) [
    | inr (inl (x, e)) ↦ rw (e, put_phone_number_metadata) (λ h. absurd cc, λ h. refl, refl)
    | inr (inr e) ↦ rw (e, put_phone_number_metadata) (λ h. absurd cc, λ h. refl, refl)
    | inl (filed, e) ↦ elim (Result-cases (pl.gob.marshal entries)) [
      | inr (inl (x, f)) ↦ rw (e, put_phone_number_metadata, f) (λ h. absurd cc, λ h. refl, refl)
      | inr (inr f) ↦ rw (e, put_phone_number_metadata, f) (λ h. absurd cc, λ h. refl, refl)
      | inl (text, f) ↦
          let key = key_for_phone_number_bytes_to_multi_phone_number_metadata en filed in
          elim (Result-cases (put b j n gs key text store).0) [
            | inl (u, w) ↦
                rw (e, put_phone_number_metadata, f, w)
                  (
                    λ h. (
                      filed,
                      refl,
                      put-EntriesWritten ul pl st config en b j n gs local encodes filed text
                          entries store f w,
                    ),
                    λ no_value. absurd (no_value refl),
                    refl,
                  )
            | inr (inl (x, w)) ↦
                rw (e, put_phone_number_metadata, f, w)
                  (
                    λ h. absurd cc,
                    λ h i. (put_failed b j n gs local key text store (λ g. cc (g, w)) i, paid),
                    refl,
                  )
            | inr (inr w) ↦
                rw (e, put_phone_number_metadata, f, w)
                  (
                    λ h. absurd cc,
                    λ h i. (put_failed b j n gs local key text store (λ g. cc (g, w)) i, paid),
                    refl,
                  )
          ]
    ]
  ]
