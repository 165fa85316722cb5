-- ===== src/Phone/Free.antt =====
-- The validation that a number is free for a user (routes/verify.go).
use deso_backend.Base.{
  ◌<◌, ◌≡◌, ◌≢◌, inl, inr, refl, false, true, Bool-cases, List, [], Bytes, IsIn, Result,
  Result-cases, ok, err, panic, leb, length, arith,
}
use deso_backend.GlobalState.Encoding.{Encoding}
use deso_backend.GlobalState.Store.Interface.{Badger, Json, Network}
use deso_backend.GlobalState.Store.Client.{GlobalState, has_remote}
use deso_backend.Access.{AccessError}
use deso_backend.Users.{UserMetadata, UserLib}
use deso_backend.Phone.{
  PhoneNumberMetadata, PhoneLib, PhoneConfig, require_valid, used_by, check_uses, PhoneState,
  get_multi_phone_number_metadata, validate_phone_number_not_already_in_use,
}
use deso_backend.Phone.Reads.{HasEntries}
use deso_backend.Phone.Book.{users_of, used_by_lem, IsPhoneBook}
use deso_backend.Phone.Steps.{get_multi_lem}
use deso_backend.PhoneAmount.{Strings}

pub require_valid_lem :
    (valid : Result AccessError _) {u : Unit {0}} → require_valid valid ≡ ok u → valid ≡ ok true
unfolding require_valid
require_valid_lem (ok true) h = refl
require_valid_lem (ok false) h = absurd cc
require_valid_lem (err e) h = absurd cc
require_valid_lem panic h = absurd cc

module _ (ul : UserLib) (pl : PhoneLib) (st : Strings) (config : PhoneConfig) (en : Encoding)
    (b : Badger) (j : Json) (n : Network) (gs : GlobalState) (local : has_remote gs ≡ false)
    (encodes : (user : UserMetadata) → (text : Bytes) × (ul.gob.marshal user ≡ ok text))
    (no_number : (filed : Bytes) → en.format_e164 [] ≢ ok filed) where
  abbrev pub Book : PhoneState ul pl st config en b j n gs → Type 0
  Book = IsPhoneBook ul pl st config en b j n gs

  check_uses_lem :
      (key : Bytes) (entries : List PhoneNumberMetadata) {u : Unit {0}}
      → check_uses ul pl st config key entries ≡ ok u
      → (length entries < config.phone_number_use_threshold) × ¬ IsIn key (users_of entries)
  unfolding check_uses
  check_uses_lem key entries h =
      elim (Bool-cases (leb config.phone_number_use_threshold (length entries))) [
        | inl e ↦ ground (arith, e, h)
        | inr e ↦ elim (Bool-cases (used_by key entries)) [
          | inl f ↦ ground (arith, e, f, h)
          | inr f ↦ (ground (arith, e), used_by_lem key entries f)
        ]
      ]

  -- The number is free for the user: fewer users than allowed have it, and not this one.
  pub record IsFree (number key_text : Bytes) (s : PhoneState ul pl st config en b j n gs)
      : Type 0 where
    pub key : Bytes
    pub filed : Bytes
    pub entries : List PhoneNumberMetadata
    pub is_key : ul.base58_check_decode key_text ≡ ok key
    pub is_filed : en.format_e164 number ≡ ok filed
    pub has_entries : HasEntries ul pl st config en b j n gs filed s.0 entries
    pub below : length entries < config.phone_number_use_threshold
    pub unused : ¬ IsIn key (users_of entries)

  -- the validation reads, and passes only a number that is free
  pub validate_lem :
      (number key_text : Bytes) (s : PhoneState ul pl st config en b j n gs)
      → ((validate_phone_number_not_already_in_use ul pl st config en b j n gs number key_text s).1
          ≡ s)
        × ((u : Unit {0})
            → (validate_phone_number_not_already_in_use ul pl st config en b j n gs number key_text
                s).0
              ≡ ok u
            → IsFree number key_text s)
  unfolding validate_phone_number_not_already_in_use
  validate_lem number key_text s = elim (Result-cases (ul.base58_check_decode key_text)) [
    | inr (inl (x, e)) ↦ rw (e, validate_phone_number_not_already_in_use) (refl, λ u h. absurd cc)
    | inr (inr e) ↦ rw (e, validate_phone_number_not_already_in_use) (refl, λ u h. absurd cc)
    | inl (key, e) ↦
        let (same, found) = get_multi_lem ul pl st config en b j n gs local encodes number s in
        elim (Result-cases
          (get_multi_phone_number_metadata ul pl st config en b j n gs number s).0) [
            | inr (inl (x, f)) ↦
                rw (e, validate_phone_number_not_already_in_use, f) (same, λ u h. absurd cc)
            | inr (inr f) ↦
                rw (e, validate_phone_number_not_already_in_use, f) (same, λ u h. absurd cc)
            | inl (entries, f) ↦
                rw (e, validate_phone_number_not_already_in_use, f)
                  (
                    same,
                    λ u h.
                        let (filed, is_filed, has) = found entries f in
                        let (below, unused) = check_uses_lem key entries h in
                        record {
                          key = key;
                          filed = filed;
                          entries = entries;
                          is_key = e;
                          is_filed = is_filed;
                          has_entries = has;
                          below = below;
                          unused = unused;
                        },
                  )
          ]
  ]
