-- ===== src/Fees/Exempt.antt =====
-- The exempt public keys, in the server and in a local database (routes/admin_fees.go).
use deso_backend.Base.{
  ◌≡◌, ◌≢◌, ◌↔◌, inl, inr, refl, sym, subst, ◌∙◌, Bool, true, false, not, [], ◌∷◌, Bytes, bytes_eq,
  bytes_eq_refl, bytes_eq→eq, Bool-cases, Option, none, some, Result, Result-cases, ok, err, panic,
  if◌then◌else◌,
}
use deso_backend.GlobalState.Encoding.{Encoding}
use deso_backend.GlobalState.Prefix.{prefix_byte}
use deso_backend.GlobalState.Keys.Payments.{key_exempt_public_key}
use deso_backend.GlobalState.Store.Interface.{Badger, Json, Network}
use deso_backend.GlobalState.Store.Client.{
  Error, GlobalState, State, has_remote, put, get, delete_key,
}
use deso_backend.GlobalState.Store.Local.{get-put, put_failed, get-delete_key, delete_key_failed}
use deso_backend.Fees.{FeeLib, FeeMaps, set_exempt}
use deso_backend.Fees.Server.{FeeServer, write_exemption, admin_add_exempt_public_key}

exempt_when_kept :
    (removal : Bool)
    → (not removal ≡ true) ↔ (
        (v : Bytes) × ◌≡◌ {A = Result Error (Option Bytes)}
          (ok (if removal then none else some (1 ∷ [])))
          (ok (some v)))
exempt_when_kept true = ((λ h. absurd cc), λ (v, h). absurd cc)
exempt_when_kept false = ((λ h. (1 ∷ [], refl)), λ (v, h). refl)

module _ (fl : FeeLib) (en : Encoding) (b : Badger) (j : Json) (n : Network) (gs : GlobalState)
    (local : has_remote gs ≡ false)
    (pk_to_string-injective : (k l : Bytes) → fl.pk_to_string k ≡ fl.pk_to_string l → k ≡ l) where
  -- a key is exempt in the server when it is in the store
  abbrev pub HasStoredExemptions : FeeServer fl en b j n gs → Type 0
  HasStoredExemptions s =
      (key : Bytes)
      → (s.0.exempt_public_key_map (fl.pk_to_string key) ≡ true)
        ↔ ((v : Bytes) × ((get b j n gs (key_exempt_public_key en key) s.1).0 ≡ ok (some v)))

  same_names : (k l : Bytes) → bytes_eq (fl.pk_to_string k) (fl.pk_to_string l) ≡ bytes_eq k l
  same_names k l = elim (Bool-cases (bytes_eq k l)) [
    | inl e ↦ cc (e, bytes_eq→eq k l e, bytes_eq_refl (fl.pk_to_string k))
    | inr e ↦ elim (Bool-cases (bytes_eq (fl.pk_to_string k) (fl.pk_to_string l))) [
      | inl f ↦ cc (e, bytes_eq_refl k, pk_to_string-injective k l (bytes_eq→eq _ _ f))
      | inr f ↦ f ∙ sym e
    ]
  ]

  same_keys :
      (k l : Bytes)
      → bytes_eq (key_exempt_public_key en k) (key_exempt_public_key en l) ≡ bytes_eq k l
  unfolding bytes_eq key_exempt_public_key prefix_byte
  same_keys k l = refl

  -- what is read after an exemption is written
  write_exemption_lem :
      (removal : Bool) (key other : Bytes) (store : State b j n)
      → (write_exemption fl en b j n gs removal key store).0 ≡ ok tt
      → (get b j n gs
          (key_exempt_public_key en other)
          (write_exemption fl en b j n gs removal key store).1).0
        ≡ (if bytes_eq key other
            then ok (if removal then none else some (1 ∷ []))
            else (get b j n gs (key_exempt_public_key en other) store).0)
  unfolding write_exemption
  write_exemption_lem true key other store h =
      subst
        (λ (t : Bool).
          (get b j n gs (key_exempt_public_key en other)
            (delete_key b j n gs (key_exempt_public_key en key) store).1).0
          ≡ (if t then ok none else (get b j n gs (key_exempt_public_key en other) store).0))
        (same_keys key other)
        (get-delete_key b j n gs local (key_exempt_public_key en key)
          (key_exempt_public_key en other) store h)
  write_exemption_lem false key other store h =
      subst
        (λ (t : Bool).
          (get b j n gs (key_exempt_public_key en other)
            (put b j n gs (key_exempt_public_key en key) (1 ∷ []) store).1).0
          ≡ (if t
              then ok (some (1 ∷ []))
              else (get b j n gs (key_exempt_public_key en other) store).0))
        (same_keys key other)
        (get-put b j n gs local (key_exempt_public_key en key) (1 ∷ [])
          (key_exempt_public_key en other) store h)

  write_exemption_failed :
      (removal : Bool) (key : Bytes) (store : State b j n)
      → (write_exemption fl en b j n gs removal key store).0 ≢ ok tt
      → (write_exemption fl en b j n gs removal key store).1 ≡ store
  unfolding write_exemption
  write_exemption_failed true key store h =
      delete_key_failed b j n gs local (key_exempt_public_key en key) store h
  write_exemption_failed false key store h =
      put_failed b j n gs local (key_exempt_public_key en key) (1 ∷ []) store h

  written-HasStoredExemptions :
      (removal : Bool) (key : Bytes) (maps : FeeMaps) (store : State b j n)
      → (write_exemption fl en b j n gs removal key store).0 ≡ ok tt
      → HasStoredExemptions (maps, store)
      → HasStoredExemptions (
        record maps {
          exempt_public_key_map =
              set_exempt (fl.pk_to_string key) (not removal) maps.exempt_public_key_map;
        },
        (write_exemption fl en b j n gs removal key store).1,
      )
  unfolding set_exempt
  written-HasStoredExemptions removal key maps store written agree other =
      let there = write_exemption_lem removal key other store written in
      rw (there, same_names key other)
        (elim (Bool-cases (bytes_eq key other)) [
          | inr e ↦ rw e (agree other)
          | inl e ↦ rw e (exempt_when_kept removal)
        ])

  served-HasStoredExemptions :
      (removal : Bool) (text : Bytes) (maps : FeeMaps) (store : State b j n)
      → HasStoredExemptions (maps, store)
      → HasStoredExemptions
          (admin_add_exempt_public_key fl en b j n gs (ok (text, removal)) (maps, store)).1
  unfolding admin_add_exempt_public_key
  served-HasStoredExemptions removal text maps store agree =
      let key = (fl.base58_check_decode text).0 in
      elim (Result-cases (write_exemption fl en b j n gs removal key store).0) [
        | inl (u, e) ↦
            rw (admin_add_exempt_public_key, e)
              (written-HasStoredExemptions removal key maps store e agree)
        | inr (inl (x, e)) ↦
            rw
              (
                admin_add_exempt_public_key,
                e,
                write_exemption_failed removal key store (λ h. cc (h, e)),
              )
              agree
        | inr (inr e) ↦
            rw
              (
                admin_add_exempt_public_key,
                e,
                write_exemption_failed removal key store (λ h. cc (h, e)),
              )
              agree
      ]

  -- On a local database, with distinct texts for distinct keys: if a key is exempt in the server
  -- exactly when it is in the store, for every key, then this holds after any request to add or
  -- remove an exemption, on every branch.
  pub admin_add_exempt_public_key-HasStoredExemptions :
      (request : Result Bytes (Bytes × Bool)) (s : FeeServer fl en b j n gs)
      → HasStoredExemptions s
      → HasStoredExemptions (admin_add_exempt_public_key fl en b j n gs request s).1
  unfolding admin_add_exempt_public_key
  admin_add_exempt_public_key-HasStoredExemptions (err e) s agree = agree
  admin_add_exempt_public_key-HasStoredExemptions panic s agree = agree
  admin_add_exempt_public_key-HasStoredExemptions (ok (text, removal)) (maps, store) agree =
      served-HasStoredExemptions removal text maps store agree
