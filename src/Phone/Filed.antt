-- ===== src/Phone/Filed.antt =====
-- A number that is filed with its user, and the user with the number (routes/verify.go).
use deso_backend.Base.{
  ℕ, ◌≤◌, ◌<◌, ◌≡◌, ◌≢◌, sym, ap, subst, ◌∙◌, false, List, [], ◌∷◌, ◌++◌, Bytes, IsIn, Distinct,
  Distinct-snoc, Option, ok, or_fail, length, length-append, arith,
}
use mathlib.Core.List.{map-append}
use deso_backend.Base.Actions.{After, bind_at, lift_at, read_at, After-map, end_at}
use deso_backend.GlobalState.Encoding.{Encoding}
use deso_backend.GlobalState.Store.Interface.{Badger, Json, Network}
use deso_backend.GlobalState.Store.Client.{GlobalState, has_remote}
use deso_backend.Users.{UserMetadata, UserLib}
use deso_backend.Phone.{
  PhoneNumberMetadata, number_not_parsed, PhoneLib, PhoneConfig, new_entry, PhoneState,
  get_multi_phone_number_metadata, put_phone_number_metadata, put_user, index_number, file_number,
}
use deso_backend.Phone.Reads.{HasUser, HasEntries}
use deso_backend.Phone.Book.{users_of, user_written, entries_written}
use deso_backend.Phone.Steps.{get_multi_lem, put_user_lem, put_numbers_lem}
use deso_backend.PhoneAmount.{Strings}
use deso_backend.Phone.Free.{Book, IsFree}

module _ (ul : UserLib) (pl : PhoneLib) (st : Strings) (config : PhoneConfig) (en : Encoding)
    (b : Badger) (j : Json) (n : Network) (gs : GlobalState) (local : has_remote gs ≡ false)
    (encodes : (user : UserMetadata) → (text : Bytes) × (ul.gob.marshal user ≡ ok text))
    (no_number : (filed : Bytes) → en.format_e164 [] ≢ ok filed) where
  module _ (number filed key : Bytes) (entries : List PhoneNumberMetadata)
      (is_filed : en.format_e164 number ≡ ok filed)
      (below : length entries < config.phone_number_use_threshold)
      (unused : ¬ IsIn key (users_of entries)) where
    -- The user stands with the others under the number; the records of users are as they were.
    pub record IsIndexed (before after : PhoneState ul pl st config en b j n gs) : Type 0 where
      pub country : Option ℕ
      pub has_entries :
          HasEntries ul pl st config en b j n gs filed after.0
            (entries ++ new_entry ul pl st config key number country ∷ [])
      pub users_kept :
          (k : Bytes) (user : UserMetadata)
          → HasUser ul pl st config en b j n gs k before.0 user
          → HasUser ul pl st config en b j n gs k after.0 user
      pub nobody_paid : after.1 ≡ before.1
      pub book : Book ul pl st config en b j n gs local encodes no_number after

    one_more :
        (country : Option ℕ)
        → Distinct (users_of entries)
        → (length (entries ++ new_entry ul pl st config key number country ∷ [])
            ≤ config.phone_number_use_threshold)
          × Distinct (users_of (entries ++ new_entry ul pl st config key number country ∷ []))
    unfolding new_entry
    one_more country distinct =
        let entry = new_entry ul pl st config key number country in
        (
          omega (arith, below, length-append entries (entry ∷ [])),
          rw
              (
                map-append (λ (x : PhoneNumberMetadata). x.public_key) entries (entry ∷ []),
                new_entry,
              )
              (Distinct-snoc key (users_of entries) unused distinct),
        )

    index_written :
        (country : Option ℕ) (s : PhoneState ul pl st config en b j n gs)
        → Book ul pl st config en b j n gs local encodes no_number s
        → HasEntries ul pl st config en b j n gs filed s.0 entries
        → After
            (λ u after. IsIndexed s after)
            (Book ul pl st config en b j n gs local encodes no_number)
            (put_phone_number_metadata ul pl st config en b j n gs
              (entries ++ new_entry ul pl st config key number country ∷ [])
              number
              s).0
            (put_phone_number_metadata ul pl st config en b j n gs
              (entries ++ new_entry ul pl st config key number country ∷ [])
              number
              s).1
    index_written country s book has =
        let more = entries ++ new_entry ul pl st config key number country ∷ [] in
        let (written, unwritten, nobody) =
          put_numbers_lem ul pl st config en b j n gs local encodes more number s in
        let (few, distinct) = one_more country (book.numbers filed entries has).1 in
        end_at _ _ (put_phone_number_metadata ul pl st config en b j n gs more number) s
          (λ failed. rw (unwritten (λ e. failed (tt, e))) book)
          λ u e.
            let (filed', is_filed', w) = written e in
            let after = (put_phone_number_metadata ul pl st config en b j n gs more number s).1 in
            record {
              country = country;
              has_entries =
                  subst (λ (x : Bytes). HasEntries ul pl st config en b j n gs x after.0 more)
                    (cc (is_filed', is_filed)) w.here;
              users_kept = w.user_after;
              nobody_paid = nobody;
              book =
                  subst
                    (λ (p : List (Bytes × ℕ)).
                      Book ul pl st config en b j n gs local encodes no_number (after.0, p))
                    (sym nobody)
                    (entries_written ul pl st config en b j n gs local encodes filed' more s.0
                      after.0 s.1 few distinct w book);
            }

    index_found :
        (there : List PhoneNumberMetadata) (filed' : Bytes)
        (s : PhoneState ul pl st config en b j n gs)
        → en.format_e164 number ≡ ok filed'
        → HasEntries ul pl st config en b j n gs filed' s.0 there
        → HasEntries ul pl st config en b j n gs filed s.0 entries
        → there ≡ entries
    index_found there filed' s is_filed' has' has =
        let same : filed' ≡ filed = cc (is_filed', is_filed) in
        cc
          (subst (λ (x : Bytes). HasEntries ul pl st config en b j n gs x s.0 there) same has', has)

    pub index_number_lem :
        (s : PhoneState ul pl st config en b j n gs)
        → Book ul pl st config en b j n gs local encodes no_number s
        → HasEntries ul pl st config en b j n gs filed s.0 entries
        → After
            (λ u after. IsIndexed s after)
            (Book ul pl st config en b j n gs local encodes no_number)
            (index_number ul pl st config en b j n gs number key s).0
            (index_number ul pl st config en b j n gs number key s).1
    unfolding index_number
    index_number_lem s book has =
        let (same, found) = get_multi_lem ul pl st config en b j n gs local encodes number s in
        read_at _ _ (get_multi_phone_number_metadata ul pl st config en b j n gs number) _ s same
          book
          λ there e1.
            let (filed', is_filed', has') = found there e1 in
            lift_at _ _ (or_fail (pl.parse number) (λ e. number_not_parsed)) _ s book λ country e2.
              rw (index_found there filed' s is_filed' has' has) (index_written country s book has)

  -- The user's record has the number, and the number has the user after those who had it.
  pub record IsFiled (number key_text : Bytes) (user : UserMetadata)
      (before after : PhoneState ul pl st config en b j n gs)
      (free : IsFree ul pl st config en b j n gs local encodes no_number number key_text before)
      : Type 0 where
    pub country : Option ℕ
    pub has_entries :
        HasEntries ul pl st config en b j n gs free.filed after.0
          (free.entries ++ new_entry ul pl st config free.key number country ∷ [])
    pub has_user :
        HasUser ul pl st config en b j n gs free.key after.0 (record user { phone_number = number })
    pub nobody_paid : after.1 ≡ before.1
    pub book : Book ul pl st config en b j n gs local encodes no_number after

  pub file_number_lem :
      (number key_text : Bytes) (user : UserMetadata) (s : PhoneState ul pl st config en b j n gs)
      → Book ul pl st config en b j n gs local encodes no_number s
      → (free : IsFree ul pl st config en b j n gs local encodes no_number number key_text s)
      → user.public_key ≡ free.key
      → After
          (λ u after. IsFiled number key_text user s after free)
          (Book ul pl st config en b j n gs local encodes no_number)
          (file_number ul pl st config en b j n gs number user s).0
          (file_number ul pl st config en b j n gs number user s).1
  unfolding file_number put_user
  file_number_lem number key_text user (store, paid) book free own =
      let named : UserMetadata = record user { phone_number = number } in
      let not_empty : number ≢ [] =
        λ empty. no_number free.filed (sym (ap en.format_e164 empty) ∙ free.is_filed) in
      let (written, unwritten, nobody) =
        put_user_lem ul pl st config en b j n gs local encodes named (store, paid) in
      bind_at _ _ (put_user ul pl st config en b j n gs named) _ (store, paid)
        (λ failed. rw (unwritten (λ e. failed (tt, e))) book)
        λ u e1.
          let w = written e1 in
          let after = (put_user ul pl st config en b j n gs named (store, paid)).1 in
          let unused' : ¬ IsIn user.public_key (users_of free.entries) =
            λ used. free.unused (subst (λ (k : Bytes). IsIn k (users_of free.entries)) own used) in
          After-map
            (λ (v : Unit {0}) (last : PhoneState ul pl st config en b j n gs).
              IsIndexed number free.filed user.public_key free.entries free.is_filed free.below
                unused' after last)
            (λ (v : Unit {0}) (last : PhoneState ul pl st config en b j n gs).
              IsFiled number key_text user (store, paid) last free)
            (Book ul pl st config en b j n gs local encodes no_number)
            (λ v last indexed. record {
              country = indexed.country;
              has_entries =
                  subst
                    (λ (k : Bytes).
                      HasEntries ul pl st config en b j n gs free.filed last.0
                        (free.entries ++ new_entry ul pl st config k number indexed.country ∷ []))
                    own indexed.has_entries;
              has_user =
                  subst (λ (k : Bytes). HasUser ul pl st config en b j n gs k last.0 named) own
                    (indexed.users_kept user.public_key named w.here);
              nobody_paid = indexed.nobody_paid;
              book = indexed.book;
            })
            (index_number ul pl st config en b j n gs number user.public_key after).0
            (index_number ul pl st config en b j n gs number user.public_key after).1
            (index_number_lem number free.filed user.public_key free.entries free.is_filed
              free.below unused' after
              (user_written ul pl st config en b j n gs local encodes named store after.0 paid
                not_empty w book)
              (w.entries_after free.filed free.entries free.has_entries))
