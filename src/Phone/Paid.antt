-- ===== src/Phone/Paid.antt =====
-- What a user is paid for a first number (routes/verify.go).
use deso_backend.Base.{
  ℕ, ◌≡◌, ◌≢◌, ◌⊎◌, inl, inr, refl, ap, false, true, Bool-cases, List, [], ◌∷◌, ◌++◌, Bytes, IsIn,
  Option, Result-cases, ok, err, if◌then◌else◌, ◌==◌, length, arith,
}
use deso_backend.Base.Actions.{After, bind_at, lift_at}
use deso_backend.GlobalState.Encoding.{Encoding}
use deso_backend.GlobalState.Store.Interface.{Badger, Json, Network}
use deso_backend.GlobalState.Store.Client.{GlobalState, has_remote}
use deso_backend.Users.{UserMetadata, UserLib}
use deso_backend.Phone.{
  no_plus_sign, PhoneLib, PhoneConfig, Surroundings, starts_with_plus, amount_for, PhoneState, pay,
  pay_first, pay_starter_deso,
}
use deso_backend.Phone.Reads.{HasUser}
use deso_backend.Phone.Book.{recipients, user_paid}
use deso_backend.PhoneAmount.{Strings}
use deso_backend.Phone.Free.{Book}

empty_of_length : (text : Bytes) → (length text == 0) ≡ true → text ≡ []
empty_of_length [] h = refl
empty_of_length (c ∷ text) h = ground (arith, h)

not_empty_of_length : (text : Bytes) → (length text == 0) ≡ false → text ≢ []
not_empty_of_length text h same = cc (h, ap (λ (x : Bytes). length x == 0) same)

module _ (ul : UserLib) (pl : PhoneLib) (st : Strings) (config : PhoneConfig) (en : Encoding)
    (b : Badger) (j : Json) (n : Network) (gs : GlobalState) (local : has_remote gs ≡ false)
    (encodes : (user : UserMetadata) → (text : Bytes) × (ul.gob.marshal user ≡ ok text))
    (no_number : (filed : Bytes) → en.format_e164 [] ≢ ok filed) where
  -- Nobody is paid for a user who had a number, or where there is no seed to pay from; another user is
  -- paid.
  abbrev pub IsPaid : Bytes → Bytes → UserMetadata → List (Bytes × ℕ) → List (Bytes × ℕ) → Type 0
  IsPaid number key user before after =
      (((user.phone_number ≢ []) ⊎ (config.starter_deso_seed ≡ [])) × (after ≡ before))
      ⊎ ((user.phone_number ≡ [])
          × (config.starter_deso_seed ≢ [])
          × (after ≡ before ++ (key, amount_for ul pl st config number) ∷ []))

  pay_step :
      (around : Surroundings) (key : Bytes) (amount : ℕ)
      (s : PhoneState ul pl st config en b j n gs)
      → ((txn_hash : Bytes)
          → (pay ul pl st config en b j n gs around key amount s).0 ≡ ok txn_hash
          → (pay ul pl st config en b j n gs around key amount s).1
            ≡ (s.0, s.1 ++ (key, amount) ∷ []))
        × ((¬ ((x : Bytes) × ((pay ul pl st config en b j n gs around key amount s).0 ≡ ok x)))
            → (pay ul pl st config en b j n gs around key amount s).1 ≡ s)
  unfolding pay
  pay_step around key amount (store, paid) =
      elim (Result-cases (around.send_seed_deso key amount)) [
        | inl (x, e) ↦ rw (e, pay) (λ txn_hash h. refl, λ failed. absurd (failed (x, refl)))
        | inr (inl (x, e)) ↦ rw (e, pay) (λ txn_hash h. absurd cc, λ failed. refl)
        | inr (inr e) ↦ rw (e, pay) (λ txn_hash h. absurd cc, λ failed. refl)
      ]

  pay_first_lem :
      (around : Surroundings) (number : Bytes) (user : UserMetadata)
      (s : PhoneState ul pl st config en b j n gs)
      → Book ul pl st config en b j n gs local encodes no_number s
      → HasUser ul pl st config en b j n gs user.public_key s.0
          (record user { phone_number = number })
      → number ≢ []
      → user.phone_number ≡ []
      → config.starter_deso_seed ≢ []
      → ¬ IsIn user.public_key (recipients s.1)
      → After
          (λ (answer : Option Bytes) (after : PhoneState ul pl st config en b j n gs).
            IsPaid number user.public_key user s.1 after.1
            × (after.0 ≡ s.0)
            × Book ul pl st config en b j n gs local encodes no_number after)
          (Book ul pl st config en b j n gs local encodes no_number)
          (pay_first ul pl st config en b j n gs around number user.public_key s).0
          (pay_first ul pl st config en b j n gs around number user.public_key s).1
  unfolding pay_first
  pay_first_lem around number user s book has not_empty nameless seeded new =
      let amount = amount_for ul pl st config number in
      let key = user.public_key in
      let named : UserMetadata = record user { phone_number = number } in
      let (made, not_made) = pay_step around key amount s in
      lift_at _ _ (if starts_with_plus number then ok tt else err no_plus_sign) _ s book λ u e1.
        bind_at _ _ (pay ul pl st config en b j n gs around key amount) _ s
          (λ failed. rw (not_made failed) book)
          λ txn_hash e2. rw (made txn_hash e2) (
            inr (nameless, seeded, refl),
            refl,
            user_paid ul pl st config en b j n gs local encodes key amount named s.0 s.1 new has
                not_empty book,
          )

  pub pay_lem :
      (around : Surroundings) (number : Bytes) (user : UserMetadata)
      (s : PhoneState ul pl st config en b j n gs)
      → Book ul pl st config en b j n gs local encodes no_number s
      → HasUser ul pl st config en b j n gs user.public_key s.0
          (record user { phone_number = number })
      → number ≢ []
      → ((user.phone_number ≡ []) → ¬ IsIn user.public_key (recipients s.1))
      → After
          (λ (answer : Option Bytes) (after : PhoneState ul pl st config en b j n gs).
            IsPaid number user.public_key user s.1 after.1
            × (after.0 ≡ s.0)
            × Book ul pl st config en b j n gs local encodes no_number after)
          (Book ul pl st config en b j n gs local encodes no_number)
          (pay_starter_deso ul pl st config en b j n gs around number user s).0
          (pay_starter_deso ul pl st config en b j n gs around number user s).1
  unfolding pay_starter_deso
  pay_lem around number user s book has not_empty new =
      elim (Bool-cases (length user.phone_number == 0)) [
        | inr e ↦
            rw (e, pay_starter_deso)
              (inl (inl (not_empty_of_length user.phone_number e), refl), refl, book)
        | inl e ↦
            let nameless : user.phone_number ≡ [] = empty_of_length user.phone_number e in
            elim (Bool-cases (length config.starter_deso_seed == 0)) [
              | inl f ↦
                  rw (e, f, pay_starter_deso)
                    (inl (inr (empty_of_length config.starter_deso_seed f), refl), refl, book)
              | inr f ↦
                  rw (e, f, pay_starter_deso)
                    (pay_first_lem around number user s book has not_empty nameless
                      (not_empty_of_length config.starter_deso_seed f) (new nameless))
            ]
      ]
