-- ===== src/Phone/Book.antt =====
-- What the records of users and numbers are to satisfy (routes/verify.go), and the writes that keep it.
use deso_backend.Base.{
  ℕ, ◌≤◌, ◌≡◌, ◌≢◌, inl, inr, sym, ap, subst, ◌∙◌, false, Bool-cases, List, [], ◌∷◌, ◌++◌, map,
  Bytes, bytes_eq, bytes_eq→eq, bytes_eq_refl, IsIn, Distinct, IsIn-append, Distinct-snoc, length,
  ok,
}
use mathlib.Core.List.{map-append}
use deso_backend.GlobalState.Encoding.{Encoding}
use deso_backend.GlobalState.Store.Interface.{Badger, Json, Network}
use deso_backend.GlobalState.Store.Client.{GlobalState, State, has_remote}
use deso_backend.Users.{UserMetadata, UserLib}
use deso_backend.Phone.{PhoneNumberMetadata, PhoneLib, PhoneConfig, PhoneState, used_by}
use deso_backend.Phone.Reads.{HasUser, HasEntries, UserWritten, EntriesWritten}
use deso_backend.PhoneAmount.{Strings}

abbrev pub users_of : List PhoneNumberMetadata → List Bytes
users_of entries = map (λ entry. entry.public_key) entries

abbrev pub recipients : List (Bytes × ℕ) → List Bytes
recipients paid = map (λ payment. payment.0) paid

pub used_by_lem :
    (key : Bytes) (entries : List PhoneNumberMetadata)
    → used_by key entries ≡ false
    → ¬ IsIn key (users_of entries)
unfolding used_by
used_by_lem key [] h = λ x. x
used_by_lem key (entry ∷ entries) h = elim (Bool-cases (bytes_eq key entry.public_key)) [
  | inl e ↦ absurd (cc (rw e at h))
  | inr e ↦ λ member. elim member [
    | inl same ↦ cc (e, bytes_eq_refl key, ap (bytes_eq key) same)
    | inr later ↦ used_by_lem key entries (rw e at h) later
  ]
]

module _ (ul : UserLib) (pl : PhoneLib) (st : Strings) (config : PhoneConfig) (en : Encoding)
    (b : Badger) (j : Json) (n : Network) (gs : GlobalState) where
  -- Each record of a user is under the user's key. No number has more users than it may have, or one
  -- user twice. No user was paid twice, and a user who was paid has a number.
  pub record IsPhoneBook (s : PhoneState ul pl st config en b j n gs) : Type 0 where
    pub users :
        (key : Bytes) (user : UserMetadata)
        → HasUser ul pl st config en b j n gs key s.0 user
        → user.public_key ≡ key
    pub numbers :
        (number : Bytes) (entries : List PhoneNumberMetadata)
        → HasEntries ul pl st config en b j n gs number s.0 entries
        → (length entries ≤ config.phone_number_use_threshold) × Distinct (users_of entries)
    pub once : Distinct (recipients s.1)
    pub known :
        (key : Bytes)
        → IsIn key (recipients s.1)
        → (user : UserMetadata) × HasUser ul pl st config en b j n gs key s.0 user
          × (user.phone_number ≢ [])

module _ (ul : UserLib) (pl : PhoneLib) (st : Strings) (config : PhoneConfig) (en : Encoding)
    (b : Badger) (j : Json) (n : Network) (gs : GlobalState) (local : has_remote gs ≡ false)
    (encodes : (user : UserMetadata) → (text : Bytes) × (ul.gob.marshal user ≡ ok text)) where
  pub user_written :
      (user : UserMetadata) (store after : State b j n) (paid : List (Bytes × ℕ))
      → user.phone_number ≢ []
      → UserWritten ul pl st config en b j n gs local encodes user store after
      → IsPhoneBook ul pl st config en b j n gs (store, paid)
      → IsPhoneBook ul pl st config en b j n gs (after, paid)
  user_written user store after paid has_number written book = record {
    users = λ key u h. elim (written.there key u h) [
      | inl (same, is_user) ↦ ap (λ (x : UserMetadata). x.public_key) is_user ∙ sym same
      | inr before ↦ book.users key u before
    ];
    numbers =
        λ number entries h. book.numbers number entries (written.entries_before number entries h);
    once = book.once;
    known = λ key member. elim (Bool-cases (bytes_eq key user.public_key)) [
      | inl e ↦ (
        user,
        subst (λ (k : Bytes). HasUser ul pl st config en b j n gs k after user)
            (sym (bytes_eq→eq key user.public_key e)) written.here,
        has_number,
      )
      | inr e ↦
          let (u, has, number) = book.known key member in
          (
            u,
            written.kept key u (λ same. cc (e, bytes_eq_refl key, ap (bytes_eq key) same)) has,
            number,
          )
    ];
  }

  pub entries_written :
      (filed : Bytes) (entries : List PhoneNumberMetadata) (store after : State b j n)
      (paid : List (Bytes × ℕ))
      → length entries ≤ config.phone_number_use_threshold
      → Distinct (users_of entries)
      → EntriesWritten ul pl st config en b j n gs local encodes filed entries store after
      → IsPhoneBook ul pl st config en b j n gs (store, paid)
      → IsPhoneBook ul pl st config en b j n gs (after, paid)
  entries_written filed entries store after paid few distinct written book = record {
    users = λ key u h. book.users key u (written.user_before key u h);
    numbers = λ number found h. elim (written.there number found h) [
      | inl e ↦
          subst
            (λ (x : List PhoneNumberMetadata).
              (length x ≤ config.phone_number_use_threshold) × Distinct (users_of x))
            (sym e) (few, distinct)
      | inr before ↦ book.numbers number found before
    ];
    once = book.once;
    known = λ key member.
        let (u, has, number) = book.known key member in (u, written.user_after key u has, number);
  }

  -- a payment to a user who was not paid before, and who has a number
  pub user_paid :
      (key : Bytes) (amount : ℕ) (user : UserMetadata) (store : State b j n)
      (paid : List (Bytes × ℕ))
      → ¬ IsIn key (recipients paid)
      → HasUser ul pl st config en b j n gs key store user
      → user.phone_number ≢ []
      → IsPhoneBook ul pl st config en b j n gs (store, paid)
      → IsPhoneBook ul pl st config en b j n gs (store, paid ++ (key, amount) ∷ [])
  user_paid key amount user store paid new has number book =
      let after = map-append (λ (x : Bytes × ℕ). x.0) paid ((key, amount) ∷ []) in
      record {
        users = book.users;
        numbers = book.numbers;
        once = rw after (Distinct-snoc key (recipients paid) new book.once);
        known = λ k member. elim (IsIn-append k (recipients paid) (key ∷ []) (rw after at member)) [
          | inl before ↦ book.known k before
          | inr now ↦ elim now [
            | inl same ↦ (
              user,
              subst (λ (x : Bytes). HasUser ul pl st config en b j n gs x store user) same has,
              number,
            )
            | inr nowhere ↦ absurd nowhere
          ]
        ];
      }
