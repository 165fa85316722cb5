-- ===== src/Phone/Reads.antt =====
-- What a local database holds of users and numbers, and what a write changes of it (routes/verify.go,
-- routes/shared.go).
use deso_backend.Base.{
  ◌≡◌, ◌≢◌, ◌⊎◌, inl, inr, refl, sym, ap, ◌∙◌, false, Bool-cases, List, Bytes, bytes_eq,
  bytes_eq_refl, bytes_eq→eq, some, Result-cases, ok, or_fail, if◌then◌else◌, ◌==◌, length,
}
use deso_backend.GlobalState.Encoding.{Encoding}
use deso_backend.GlobalState.Prefix.{prefix_byte}
use deso_backend.GlobalState.Keys.Content.{
  key_for_public_key_to_user_metadata, key_for_phone_number_bytes_to_multi_phone_number_metadata,
}
use deso_backend.GlobalState.Store.Interface.{Badger, Json, Network}
use deso_backend.GlobalState.Store.Client.{GlobalState, State, has_remote, put, get}
use deso_backend.GlobalState.Store.Local.{get-put, put_failed}
use deso_backend.Users.{
  UserMetadata, UserLib, make_user_metadata, with_public_key, user_of_answer, encoded_user,
  put_user_metadata, metadata_store_failed,
}
use deso_backend.Phone.{PhoneNumberMetadata, PhoneLib, PhoneConfig, entries_of_answer}
use deso_backend.PhoneAmount.{Strings}

module _ (ul : UserLib) (pl : PhoneLib) (st : Strings) (config : PhoneConfig) (en : Encoding)
    (b : Badger) (j : Json) (n : Network) (gs : GlobalState) where
  -- the record of a user, and the entries of a number in international format
  abbrev pub HasUser : Bytes → State b j n → UserMetadata → Type 0
  HasUser key s user =
      user_of_answer ul key (get b j n gs (key_for_public_key_to_user_metadata en key) s).0
      ≡ ok user

  abbrev pub HasEntries : Bytes → State b j n → List PhoneNumberMetadata → Type 0
  HasEntries number s entries =
      entries_of_answer ul pl st config
        (get b j n gs (key_for_phone_number_bytes_to_multi_phone_number_metadata en number) s).0
      ≡ ok entries

module _ (ul : UserLib) (pl : PhoneLib) (st : Strings) (config : PhoneConfig) (en : Encoding)
    (b : Badger) (j : Json) (n : Network) (gs : GlobalState) (local : has_remote gs ≡ false)
    (encodes : (user : UserMetadata) → (text : Bytes) × (ul.gob.marshal user ≡ ok text)) where
  -- a user is written under the key of the record, or nothing is changed
  pub record UserWritten (user : UserMetadata) (s after : State b j n) : Type 0 where
    pub here : HasUser ul pl st config en b j n gs user.public_key after user
    pub there :
        (key : Bytes) (u : UserMetadata)
        → HasUser ul pl st config en b j n gs key after u
        → ((key ≡ user.public_key) × (u ≡ user)) ⊎ HasUser ul pl st config en b j n gs key s u
    pub kept :
        (key : Bytes) (u : UserMetadata)
        → key ≢ user.public_key
        → HasUser ul pl st config en b j n gs key s u
        → HasUser ul pl st config en b j n gs key after u
    pub entries_before :
        (number : Bytes) (entries : List PhoneNumberMetadata)
        → HasEntries ul pl st config en b j n gs number after entries
        → HasEntries ul pl st config en b j n gs number s entries
    pub entries_after :
        (number : Bytes) (entries : List PhoneNumberMetadata)
        → HasEntries ul pl st config en b j n gs number s entries
        → HasEntries ul pl st config en b j n gs number after entries

  same_public_key :
      (key : Bytes) (user : UserMetadata)
      → key ≡ user.public_key
      → with_public_key ul key user ≡ user
  unfolding with_public_key
  same_public_key key user e = elim (Bool-cases (length user.public_key == 33)) [
    | inl f ↦ rw f refl
    | inr f ↦ rw f (λ i. record user { public_key = e i })
  ]

  answer_of_written :
      (key text : Bytes) (user : UserMetadata)
      → ul.gob.unmarshal text ≡ ok user
      → key ≡ user.public_key
      → user_of_answer ul key (ok (some text)) ≡ ok user
  unfolding user_of_answer make_user_metadata
  answer_of_written key text user decoded e =
      rw (user_of_answer, make_user_metadata, decoded) (ap ok (same_public_key key user e))

  get_user-put :
      (pk key text : Bytes) (s : State b j n)
      → (put b j n gs (key_for_public_key_to_user_metadata en pk) text s).0 ≡ ok tt
      → (get b j n gs
          (key_for_public_key_to_user_metadata en key)
          (put b j n gs (key_for_public_key_to_user_metadata en pk) text s).1).0
        ≡ (if bytes_eq pk key
            then ok (some text)
            else (get b j n gs (key_for_public_key_to_user_metadata en key) s).0)
  unfolding key_for_public_key_to_user_metadata bytes_eq prefix_byte
  get_user-put pk key text s written =
      get-put b j n gs local (key_for_public_key_to_user_metadata en pk) text
        (key_for_public_key_to_user_metadata en key) s written

  get_number-put_user :
      (pk number text : Bytes) (s : State b j n)
      → (put b j n gs (key_for_public_key_to_user_metadata en pk) text s).0 ≡ ok tt
      → (get b j n gs
          (key_for_phone_number_bytes_to_multi_phone_number_metadata en number)
          (put b j n gs (key_for_public_key_to_user_metadata en pk) text s).1).0
        ≡ (get b j n gs (key_for_phone_number_bytes_to_multi_phone_number_metadata en number) s).0
  unfolding key_for_public_key_to_user_metadata bytes_eq prefix_byte
      key_for_phone_number_bytes_to_multi_phone_number_metadata
  get_number-put_user pk number text s written =
      get-put b j n gs local (key_for_public_key_to_user_metadata en pk) text
        (key_for_phone_number_bytes_to_multi_phone_number_metadata en number) s written

  get_number-put :
      (filed number text : Bytes) (s : State b j n)
      → (put b j n gs (key_for_phone_number_bytes_to_multi_phone_number_metadata en filed) text s).0
        ≡ ok tt
      → (get b j n gs
          (key_for_phone_number_bytes_to_multi_phone_number_metadata en number)
          (put b j n gs
            (key_for_phone_number_bytes_to_multi_phone_number_metadata en filed)
            text
            s).1).0
        ≡ (if bytes_eq filed number
            then ok (some text)
            else (get b j n gs
                (key_for_phone_number_bytes_to_multi_phone_number_metadata en number)
                s).0)
  unfolding bytes_eq prefix_byte key_for_phone_number_bytes_to_multi_phone_number_metadata
  get_number-put filed number text s written =
      get-put b j n gs local (key_for_phone_number_bytes_to_multi_phone_number_metadata en filed)
        text (key_for_phone_number_bytes_to_multi_phone_number_metadata en number) s written

  get_user-put_number :
      (filed key text : Bytes) (s : State b j n)
      → (put b j n gs (key_for_phone_number_bytes_to_multi_phone_number_metadata en filed) text s).0
        ≡ ok tt
      → (get b j n gs
          (key_for_public_key_to_user_metadata en key)
          (put b j n gs
            (key_for_phone_number_bytes_to_multi_phone_number_metadata en filed)
            text
            s).1).0
        ≡ (get b j n gs (key_for_public_key_to_user_metadata en key) s).0
  unfolding bytes_eq prefix_byte key_for_phone_number_bytes_to_multi_phone_number_metadata
      key_for_public_key_to_user_metadata
  get_user-put_number filed key text s written =
      get-put b j n gs local (key_for_phone_number_bytes_to_multi_phone_number_metadata en filed)
        text (key_for_public_key_to_user_metadata en key) s written

  put-UserWritten :
      (user : UserMetadata) (text : Bytes) (s : State b j n)
      → ul.gob.marshal user ≡ ok text
      → (put b j n gs (key_for_public_key_to_user_metadata en user.public_key) text s).0 ≡ ok tt
      → UserWritten user s
          (put b j n gs (key_for_public_key_to_user_metadata en user.public_key) text s).1
  put-UserWritten user text s encoded written =
      let pk = user.public_key in
      let decoded = ul.gob.unmarshal-marshal user encoded in
      let read = λ (key : Bytes). get_user-put pk key text s written in
      let numbers = λ (number : Bytes).
        ap (entries_of_answer ul pl st config) (get_number-put_user pk number text s written) in
      record {
        here = rw (read pk, bytes_eq_refl pk) (answer_of_written pk text user decoded refl);
        there = λ key u h. elim (Bool-cases (bytes_eq pk key)) [
          | inl e ↦
              let same = sym (bytes_eq→eq pk key e) in
              let now = answer_of_written key text user decoded same in
              inl (same, cc (rw (read key, e) at h, now))
          | inr e ↦ inr (rw (read key, e) at h)
        ];
        kept = λ key u other h. elim (Bool-cases (bytes_eq pk key)) [
          | inl e ↦ absurd (other (sym (bytes_eq→eq pk key e)))
          | inr e ↦ rw (read key, e) h
        ];
        entries_before = λ number entries h. sym (numbers number) ∙ h;
        entries_after = λ number entries h. numbers number ∙ h;
      }

  -- the entries of a number are written, or nothing is changed
  pub record EntriesWritten (filed : Bytes) (entries : List PhoneNumberMetadata)
      (s after : State b j n) : Type 0 where
    pub here : HasEntries ul pl st config en b j n gs filed after entries
    pub there :
        (number : Bytes) (found : List PhoneNumberMetadata)
        → HasEntries ul pl st config en b j n gs number after found
        → (found ≡ entries) ⊎ HasEntries ul pl st config en b j n gs number s found
    pub user_before :
        (key : Bytes) (user : UserMetadata)
        → HasUser ul pl st config en b j n gs key after user
        → HasUser ul pl st config en b j n gs key s user
    pub user_after :
        (key : Bytes) (user : UserMetadata)
        → HasUser ul pl st config en b j n gs key s user
        → HasUser ul pl st config en b j n gs key after user

  answer_of_entries :
      (text : Bytes) (entries : List PhoneNumberMetadata)
      → pl.gob.unmarshal text ≡ ok entries
      → entries_of_answer ul pl st config (ok (some text)) ≡ ok entries
  unfolding entries_of_answer
  answer_of_entries text entries decoded = rw (entries_of_answer, decoded) refl

  pub put-EntriesWritten :
      (filed text : Bytes) (entries : List PhoneNumberMetadata) (s : State b j n)
      → pl.gob.marshal entries ≡ ok text
      → (put b j n gs (key_for_phone_number_bytes_to_multi_phone_number_metadata en filed) text s).0
        ≡ ok tt
      → EntriesWritten filed entries s
          (put b j n gs
            (key_for_phone_number_bytes_to_multi_phone_number_metadata en filed)
            text
            s).1
  put-EntriesWritten filed text entries s encoded written =
      let now = answer_of_entries text entries (pl.gob.unmarshal-marshal entries encoded) in
      let read = λ (number : Bytes). get_number-put filed number text s written in
      let users = λ (key : Bytes).
        ap (user_of_answer ul key) (get_user-put_number filed key text s written) in
      record {
        here = rw (read filed, bytes_eq_refl filed) now;
        there = λ number found h. elim (Bool-cases (bytes_eq filed number)) [
          | inl e ↦ inl (cc (rw (read number, e) at h, now))
          | inr e ↦ inr (rw (read number, e) at h)
        ];
        user_before = λ key user h. sym (users key) ∙ h;
        user_after = λ key user h. users key ∙ h;
      }

  put_user_step :
      (user : UserMetadata) (text : Bytes) (s : State b j n)
      → ul.gob.marshal user ≡ ok text
      → put_user_metadata ul en b j n gs user s ≡ (
        or_fail
            (put b j n gs (key_for_public_key_to_user_metadata en user.public_key) text s).0
            metadata_store_failed,
        (put b j n gs (key_for_public_key_to_user_metadata en user.public_key) text s).1,
      )
  unfolding put_user_metadata encoded_user
  put_user_step user text s e = rw (put_user_metadata, encoded_user, e) refl

  -- A user that is put is written, or nothing is changed.
  pub put_user_metadata_lem :
      (user : UserMetadata) (s : State b j n)
      → ((put_user_metadata ul en b j n gs user s).0 ≡ ok tt
          → UserWritten user s (put_user_metadata ul en b j n gs user s).1)
        × ((put_user_metadata ul en b j n gs user s).0 ≢ ok tt
            → (put_user_metadata ul en b j n gs user s).1 ≡ s)
  put_user_metadata_lem user s =
      let (text, e) = encodes user in
      let user_key = key_for_public_key_to_user_metadata en user.public_key in
      elim (Result-cases (put b j n gs user_key text s).0) [
        | inl (u, w) ↦
            rw (put_user_step user text s e, w)
              (λ h. put-UserWritten user text s e w, λ no_value. absurd (no_value refl))
        | inr (inl (x, w)) ↦
            rw (put_user_step user text s e, w)
              (λ h. absurd cc, λ h. put_failed b j n gs local user_key text s (λ f. cc (f, w)))
        | inr (inr w) ↦
            rw (put_user_step user text s e, w)
              (λ h. absurd cc, λ h. put_failed b j n gs local user_key text s (λ f. cc (f, w)))
      ]
