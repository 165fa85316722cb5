-- ===== src/Phone/Saved.antt =====
-- The writes and the payment that follow an accepted code (routes/verify.go).
use deso_backend.Base.{
  ℕ, ◌≡◌, ◌≢◌, sym, ap, subst, ◌∙◌, false, List, [], ◌∷◌, ◌++◌, Bytes, IsIn, Option, ok,
}
use deso_backend.Base.Actions.{◌>>◌, After, After-map, chain_at}
use deso_backend.GlobalState.Encoding.{Encoding}
use deso_backend.GlobalState.Store.Interface.{Badger, Json, Network}
use deso_backend.GlobalState.Store.Client.{GlobalState, State, has_remote}
use deso_backend.Users.{UserMetadata, UserLib}
use deso_backend.Phone.{
  PhoneLib, PhoneConfig, Surroundings, new_entry, PhoneState, file_number, pay_starter_deso,
}
use deso_backend.Phone.Reads.{HasUser, HasEntries}
use deso_backend.Phone.Book.{recipients}
use deso_backend.PhoneAmount.{Strings}
use deso_backend.Phone.Free.{Book, IsFree}
use deso_backend.Phone.Filed.{IsFiled, file_number_lem}
use deso_backend.Phone.Paid.{IsPaid, pay_lem}

module _ (ul : UserLib) (pl : PhoneLib) (st : Strings) (config : PhoneConfig) (en : Encoding)
    (b : Badger) (j : Json) (n : Network) (gs : GlobalState) (local : has_remote gs ≡ false)
    (encodes : (user : UserMetadata) → (text : Bytes) × (ul.gob.marshal user ≡ ok text))
    (no_number : (filed : Bytes) → en.format_e164 [] ≢ ok filed) where
  -- The writes and the payment, to a user whose number was free.
  pub record IsFiledAndPaid (number key_text : Bytes) (user : UserMetadata)
      (before after : PhoneState ul pl st config en b j n gs)
      (free : IsFree ul pl st config en b j n gs local encodes no_number number key_text before)
      : Type 0 where
    pub country : Option ℕ
    pub has_entries :
        HasEntries ul pl st config en b j n gs free.filed after.0
          (free.entries ++ new_entry ul pl st config free.key number country ∷ [])
    pub has_user :
        HasUser ul pl st config en b j n gs free.key after.0 (record user { phone_number = number })
    pub paid :
        IsPaid ul pl st config en b j n gs local encodes no_number number free.key user before.1
          after.1
    pub book : Book ul pl st config en b j n gs local encodes no_number after

  -- a user without a number was not paid
  not_paid_before :
      (key : Bytes) (user : UserMetadata) (s : PhoneState ul pl st config en b j n gs)
      → Book ul pl st config en b j n gs local encodes no_number s
      → HasUser ul pl st config en b j n gs key s.0 user
      → user.phone_number ≡ []
      → ¬ IsIn key (recipients s.1)
  not_paid_before key user s book has nameless member =
      let (other, has_other, numbered) = book.known key member in
      let same : other ≡ user = cc (has_other, has) in
      numbered (ap (λ (x : UserMetadata). x.phone_number) same ∙ nameless)

  filed-IsFiledAndPaid :
      (number key_text : Bytes) (user : UserMetadata)
      (s mid after : PhoneState ul pl st config en b j n gs)
      (free : IsFree ul pl st config en b j n gs local encodes no_number number key_text s)
      → user.public_key ≡ free.key
      → IsFiled ul pl st config en b j n gs local encodes no_number number key_text user s mid free
      → (IsPaid ul pl st config en b j n gs local encodes no_number number user.public_key user
            mid.1 after.1
          × (after.0 ≡ mid.0)
          × Book ul pl st config en b j n gs local encodes no_number after)
      → IsFiledAndPaid number key_text user s after free
  filed-IsFiledAndPaid number key_text user s mid after free own filed (paid, same, kept) = record {
    country = filed.country;
    has_entries =
        subst
          (λ (x : State b j n).
            HasEntries ul pl st config en b j n gs free.filed x
              (free.entries ++ new_entry ul pl st config free.key number filed.country ∷ []))
          (sym same) filed.has_entries;
    has_user =
        subst
          (λ (x : State b j n).
            HasUser ul pl st config en b j n gs free.key x (record user { phone_number = number }))
          (sym same) filed.has_user;
    paid =
        subst
          (λ (k : Bytes).
            IsPaid ul pl st config en b j n gs local encodes no_number number k user s.1 after.1)
          own
          (subst
            (λ (p : List (Bytes × ℕ)).
              IsPaid ul pl st config en b j n gs local encodes no_number number user.public_key user
                p after.1)
            filed.nobody_paid paid);
    book = kept;
  }

  pub file_and_pay_lem :
      (around : Surroundings) (number key_text : Bytes) (user : UserMetadata)
      (s : PhoneState ul pl st config en b j n gs)
      → Book ul pl st config en b j n gs local encodes no_number s
      → (free : IsFree ul pl st config en b j n gs local encodes no_number number key_text s)
      → HasUser ul pl st config en b j n gs free.key s.0 user
      → After
          (λ (answer : Option Bytes) (after : PhoneState ul pl st config en b j n gs).
            IsFiledAndPaid number key_text user s after free)
          (Book ul pl st config en b j n gs local encodes no_number)
          ((file_number ul pl st config en b j n gs number user
              >> pay_starter_deso ul pl st config en b j n gs around number user)
            s).0
          ((file_number ul pl st config en b j n gs number user
              >> pay_starter_deso ul pl st config en b j n gs around number user)
            s).1
  file_and_pay_lem around number key_text user s book free has =
      let own : user.public_key ≡ free.key = book.users free.key user has in
      let not_empty : number ≢ [] =
        λ empty. no_number free.filed (sym (ap en.format_e164 empty) ∙ free.is_filed) in
      chain_at _ _
        (λ u after.
          IsFiled ul pl st config en b j n gs local encodes no_number number key_text user s after
            free)
        (file_number ul pl st config en b j n gs number user) _ s
        (file_number_lem ul pl st config en b j n gs local encodes no_number number key_text user s
          book free own)
        λ u filed.
          let mid = (file_number ul pl st config en b j n gs number user s).1 in
          After-map _ _ _
            (λ answer after done.
              filed-IsFiledAndPaid number key_text user s mid after free own filed done)
            (pay_starter_deso ul pl st config en b j n gs around number user mid).0
            (pay_starter_deso ul pl st config en b j n gs around number user mid).1
            (pay_lem ul pl st config en b j n gs local encodes no_number around number user mid
              filed.book
              (subst
                (λ (k : Bytes).
                  HasUser ul pl st config en b j n gs k mid.0
                    (record user { phone_number = number }))
                (sym own) filed.has_user)
              not_empty
              λ nameless member. not_paid_before free.key user s book has nameless (
                subst (λ (p : List (Bytes × ℕ)). IsIn free.key (recipients p)) filed.nobody_paid
                  (subst (λ (k : Bytes). IsIn k (recipients mid.1)) own member)))
