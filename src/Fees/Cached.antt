-- ===== src/Fees/Cached.antt =====
-- The cached fees and the fees in a local database (routes/admin_fees.go).
use deso_backend.Base.{
  ℕ, ◌<◌, ◌≡◌, inl, inr, refl, sym, ap, subst, Bool, true, false, List, [], ◌∷◌, All, Bytes,
  bytes_eq, bytes_eq_refl, bytes_eq→eq, Option, some, Result, Result-cases, ok, err, panic, arith,
  Bool-cases, ◌==◌,
}
use deso_backend.GlobalState.Encoding.{Encoding}
use deso_backend.GlobalState.Prefix.{prefix_byte}
use deso_backend.GlobalState.Keys.Payments.{
  key_transaction_fee_outputs_from_txn_type, key_exempt_public_key,
}
use deso_backend.GlobalState.Store.Interface.{Badger, Json, Network}
use deso_backend.GlobalState.Store.Client.{GlobalState, State, has_remote, put, get, delete_key}
use deso_backend.GlobalState.Store.Local.{get-put, put_failed, get-delete_key, delete_key_failed}
use deso_backend.Fees.{TransactionFee, Output, FeeLib, set_fees, stored_outputs, log_fee_set}
use deso_backend.Fees.Server.{
  FeeServer, set_one_type, set_all_types, write_exemption, admin_add_exempt_public_key,
}

module _ (fl : FeeLib) (en : Encoding) (b : Badger) (j : Json) (n : Network) (gs : GlobalState)
    (local : has_remote gs ≡ false) where
  -- what a server that starts reads for a type
  abbrev pub ReadsAs : State b j n → ℕ → List Output → Type 0
  ReadsAs store t outputs =
      stored_outputs fl (get b j n gs (key_transaction_fee_outputs_from_txn_type en t) store).0
      ≡ ok outputs

  -- the map has what is read for each type of the list
  abbrev pub Agree : List ℕ → (ℕ → Option (List Output)) → State b j n → Type 0
  Agree types fees store =
      All (λ t. (outputs : List Output) × (fees t ≡ some outputs) × ReadsAs store t outputs) types

  -- the keys of two types differ
  fee_key-ne :
      (t u : ℕ)
      → t < 256
      → u < 256
      → (t == u) ≡ false
      → bytes_eq
          (key_transaction_fee_outputs_from_txn_type en t)
          (key_transaction_fee_outputs_from_txn_type en u)
        ≡ false
  unfolding key_transaction_fee_outputs_from_txn_type
  fee_key-ne t u ht hu ne =
      elim (Bool-cases (
        bytes_eq (key_transaction_fee_outputs_from_txn_type en t)
          (key_transaction_fee_outputs_from_txn_type en u))) [
            | inr e ↦ e
            | inl e ↦
                let same =
                  en.uint_to_buf-injective t u (omega (arith, ht)) (omega (arith, hu))
                    (cc (bytes_eq→eq _ _ e)) in
                ground (arith, ne, same)
          ]

  -- one type is stored and cached
  one_type-Agree :
      (t : ℕ) (outputs : List Output) (text : Bytes) (fees : ℕ → Option (List Output))
      (store : State b j n) (types : List ℕ)
      → t < 256
      → fl.gob.marshal outputs ≡ ok text
      → (put b j n gs (key_transaction_fee_outputs_from_txn_type en t) text store).0 ≡ ok tt
      → All (λ u. u < 256) types
      → Agree types fees store
      → Agree types
          (set_fees t outputs fees)
          (put b j n gs (key_transaction_fee_outputs_from_txn_type en t) text store).1
  unfolding set_fees stored_outputs
  one_type-Agree t outputs text fees store [] small encoded written bytes agree = tt
  one_type-Agree t outputs text fees store (u ∷ types) small encoded written (hu, bytes)
        ((os, cached, read), agree) =
      let key = key_transaction_fee_outputs_from_txn_type en t in
      let other = key_transaction_fee_outputs_from_txn_type en u in
      let there = get-put b j n gs local key text other store written in
      (
        elim (Bool-cases (t == u)) [
          | inl same ↦
              let is : t ≡ u = ground (arith, same) in
              let one_key : bytes_eq key other ≡ true = cc (
                bytes_eq_refl key,
                ap (λ x. bytes_eq key (key_transaction_fee_outputs_from_txn_type en x)) is,
              ) in
              (
                outputs,
                ground (arith, same),
                rw (there, one_key) (ground (arith, fl.gob.unmarshal-marshal outputs encoded)),
              )
          | inr differ ↦ (
            os,
            ground (arith, differ, cached),
            rw there (rw (fee_key-ne t u small hu differ) read),
          )
        ],
        one_type-Agree t outputs text fees store types small encoded written bytes agree,
      )

  -- a store that reads the same for every type
  kept-Agree :
      (fees : ℕ → Option (List Output)) (store store' : State b j n) (types : List ℕ)
      → ((t : ℕ)
          → (get b j n gs (key_transaction_fee_outputs_from_txn_type en t) store').0
            ≡ (get b j n gs (key_transaction_fee_outputs_from_txn_type en t) store).0)
      → Agree types fees store
      → Agree types fees store'
  kept-Agree fees store store' [] same agree = tt
  kept-Agree fees store store' (t ∷ types) same ((os, cached, read), agree) =
      ((os, cached, rw (same t) read), kept-Agree fees store store' types same agree)

  exempt_key-ne :
      (key : Bytes) (t : ℕ)
      → bytes_eq (key_exempt_public_key en key) (key_transaction_fee_outputs_from_txn_type en t)
        ≡ false
  unfolding bytes_eq key_exempt_public_key key_transaction_fee_outputs_from_txn_type prefix_byte
  exempt_key-ne key t = refl

  pub set_one_type-Agree :
      (t : ℕ) (fees : List TransactionFee) (outputs : List Output) (text : Bytes) (types : List ℕ)
      (s : FeeServer fl en b j n gs)
      → t < 256
      → All (λ u. u < 256) types
      → fl.gob.marshal outputs ≡ ok text
      → Agree types s.0.transaction_fee_map s.1
      → Agree types
          (set_one_type fl en b j n gs t fees outputs text s).1.0.transaction_fee_map
          (set_one_type fl en b j n gs t fees outputs text s).1.1
  unfolding set_one_type
  set_one_type-Agree t fees outputs text types (maps, store) small bytes encoded agree =
      let key = key_transaction_fee_outputs_from_txn_type en t in
      elim (Result-cases (log_fee_set fl t fees)) [
        | inr (inl (x, e)) ↦ rw (set_one_type, e) agree
        | inr (inr e) ↦ rw (set_one_type, e) agree
        | inl (u, e) ↦ elim (Result-cases (put b j n gs key text store).0) [
          | inl (v, w) ↦
              rw (set_one_type, e, w)
                (one_type-Agree t outputs text maps.transaction_fee_map store types small encoded w
                  bytes agree)
          | inr (inl (x, w)) ↦
              rw (set_one_type, e, w)
                (subst (Agree types maps.transaction_fee_map)
                  (sym (put_failed b j n gs local key text store (λ h. cc (h, w)))) agree)
          | inr (inr w) ↦
              rw (set_one_type, e, w)
                (subst (Agree types maps.transaction_fee_map)
                  (sym (put_failed b j n gs local key text store (λ h. cc (h, w)))) agree)
        ]
      ]

  pub set_all_types-Agree :
      (todo : List ℕ) (fees : List TransactionFee) (outputs : List Output) (text : Bytes)
      (types : List ℕ) (s : FeeServer fl en b j n gs)
      → All (λ u. u < 256) todo
      → All (λ u. u < 256) types
      → fl.gob.marshal outputs ≡ ok text
      → Agree types s.0.transaction_fee_map s.1
      → Agree types
          (set_all_types fl en b j n gs todo fees outputs text s).1.0.transaction_fee_map
          (set_all_types fl en b j n gs todo fees outputs text s).1.1
  unfolding set_all_types
  set_all_types-Agree [] fees outputs text types s small bytes encoded agree = agree
  set_all_types-Agree (t ∷ todo) fees outputs text types s (ht, small) bytes encoded agree =
      let here = set_one_type-Agree t fees outputs text types s ht bytes encoded agree in
      elim (Result-cases (set_one_type fl en b j n gs t fees outputs text s).0) [
        | inl (u, e) ↦
            rw (set_all_types, e)
              (set_all_types-Agree todo fees outputs text types
                (set_one_type fl en b j n gs t fees outputs text s).1 small bytes encoded here)
        | inr (inl (x, e)) ↦ rw (set_all_types, e) here
        | inr (inr e) ↦ rw (set_all_types, e) here
      ]

  -- an exemption leaves the fees as they are
  write_exemption-get :
      (removal : Bool) (key : Bytes) (store : State b j n) (t : ℕ)
      → (get b j n gs
          (key_transaction_fee_outputs_from_txn_type en t)
          (write_exemption fl en b j n gs removal key store).1).0
        ≡ (get b j n gs (key_transaction_fee_outputs_from_txn_type en t) store).0
  unfolding write_exemption
  write_exemption-get true key store t =
      elim (Result-cases (delete_key b j n gs (key_exempt_public_key en key) store).0) [
        | inl (u, e) ↦
            rw
              (get-delete_key b j n gs local (key_exempt_public_key en key)
                (key_transaction_fee_outputs_from_txn_type en t) store e)
              (rw (exempt_key-ne key t) refl)
        | inr (inl (x, e)) ↦
            rw
              (delete_key_failed b j n gs local (key_exempt_public_key en key) store
                (λ h. cc (h, e)))
              refl
        | inr (inr e) ↦
            rw
              (delete_key_failed b j n gs local (key_exempt_public_key en key) store
                (λ h. cc (h, e)))
              refl
      ]
  write_exemption-get false key store t =
      elim (Result-cases (put b j n gs (key_exempt_public_key en key) (1 ∷ []) store).0) [
        | inl (u, e) ↦
            rw
              (get-put b j n gs local (key_exempt_public_key en key) (1 ∷ [])
                (key_transaction_fee_outputs_from_txn_type en t) store e)
              (rw (exempt_key-ne key t) refl)
        | inr (inl (x, e)) ↦
            rw
              (put_failed b j n gs local (key_exempt_public_key en key) (1 ∷ []) store
                (λ h. cc (h, e)))
              refl
        | inr (inr e) ↦
            rw
              (put_failed b j n gs local (key_exempt_public_key en key) (1 ∷ []) store
                (λ h. cc (h, e)))
              refl
      ]

  pub add_exempt-Agree :
      (request : Result Bytes (Bytes × Bool)) (types : List ℕ) (s : FeeServer fl en b j n gs)
      → Agree types s.0.transaction_fee_map s.1
      → Agree types
          (admin_add_exempt_public_key fl en b j n gs request s).1.0.transaction_fee_map
          (admin_add_exempt_public_key fl en b j n gs request s).1.1
  unfolding admin_add_exempt_public_key
  add_exempt-Agree (err e) types s agree = agree
  add_exempt-Agree panic types s agree = agree
  add_exempt-Agree (ok (text, removal)) types (maps, store) agree =
      let key = (fl.base58_check_decode text).0 in
      let after =
        kept-Agree maps.transaction_fee_map store
          (write_exemption fl en b j n gs removal key store).1 types
          (write_exemption-get removal key store) agree in
      elim (Result-cases (write_exemption fl en b j n gs removal key store).0) [
        | inl (u, e) ↦ rw (admin_add_exempt_public_key, e) after
        | inr (inl (x, e)) ↦ rw (admin_add_exempt_public_key, e) after
        | inr (inr e) ↦ rw (admin_add_exempt_public_key, e) after
      ]
