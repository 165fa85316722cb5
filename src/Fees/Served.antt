-- ===== src/Fees/Served.antt =====
-- A server that serves fee requests, and one that starts again on its store (routes/admin_fees.go,
-- and the start of the server in routes/server.go).
use deso_backend.Base.{
  ℕ, ◌≡◌, inl, inr, Bool, false, List, All, Bytes, Bool-cases, Option, none, Result, Result-cases,
  ok, err, panic, ◌==◌,
}
use deso_backend.GlobalState.Encoding.{Encoding}
use deso_backend.GlobalState.Store.Interface.{Badger, Json, Network}
use deso_backend.GlobalState.Store.Client.{GlobalState, State, has_remote}
use deso_backend.Fees.{TransactionFee, Output, FeeLib, transform_and_encode_transaction_fees}
use deso_backend.Fees.Server.{
  FeeServer, admin_set_transaction_fee_for_transaction_type, admin_set_all_transaction_fees,
  get_transaction_fee_map_from_global_state, admin_add_exempt_public_key,
}
use deso_backend.Fees.Outputs.{transform_and_encode_lem}
use deso_backend.Fees.Cached.{Agree, set_one_type-Agree, set_all_types-Agree, add_exempt-Agree}
use deso_backend.Fees.Loaded.{load_fees-Agree, load_fees_again}

-- The states of a server that starts on a store, loads its fees, and serves requests.
pub data FeeHistory (fl : FeeLib) (en : Encoding) (b : Badger) (j : Json) (n : Network)
    (gs : GlobalState) : FeeServer fl en b j n gs → Type 0 where
  started :
      (store : State b j n) (fees : ℕ → Option (List Output)) (exempt : Bytes → Bool)
      → (get_transaction_fee_map_from_global_state fl en b j n gs store).0 ≡ ok fees
      → FeeHistory fl en b j n gs (
        record { transaction_fee_map = fees; exempt_public_key_map = exempt },
        (get_transaction_fee_map_from_global_state fl en b j n gs store).1,
      )
  one_type_asked :
      (request : Result Bytes (Bytes × List TransactionFee)) (s : FeeServer fl en b j n gs)
      → FeeHistory fl en b j n gs s
      → FeeHistory fl en b j n gs
          (admin_set_transaction_fee_for_transaction_type fl en b j n gs request s).1
  all_types_asked :
      (request : Result Bytes (List TransactionFee)) (s : FeeServer fl en b j n gs)
      → FeeHistory fl en b j n gs s
      → FeeHistory fl en b j n gs (admin_set_all_transaction_fees fl en b j n gs request s).1
  exemption_asked :
      (request : Result Bytes (Bytes × Bool)) (s : FeeServer fl en b j n gs)
      → FeeHistory fl en b j n gs s
      → FeeHistory fl en b j n gs (admin_add_exempt_public_key fl en b j n gs request s).1

module _ (fl : FeeLib) (en : Encoding) (b : Badger) (j : Json) (n : Network) (gs : GlobalState)
    (local : has_remote gs ≡ false) where
  -- the cached fees are those in the store, for every transaction type
  abbrev IsCached : FeeServer fl en b j n gs → Type 0
  IsCached s = Agree fl en b j n gs local fl.all_txn_types s.0.transaction_fee_map s.1

  one_type-IsCached :
      (request : Result Bytes (Bytes × List TransactionFee)) (s : FeeServer fl en b j n gs)
      → IsCached s
      → IsCached (admin_set_transaction_fee_for_transaction_type fl en b j n gs request s).1
  unfolding admin_set_transaction_fee_for_transaction_type
  one_type-IsCached (err e) s h = h
  one_type-IsCached panic s h = h
  one_type-IsCached (ok (name, fees)) s h =
      elim (Bool-cases (fl.get_txn_type_from_string name == fl.txn_type_unset)) [
        | inl e ↦ rw (admin_set_transaction_fee_for_transaction_type, e) h
        | inr e ↦ elim (Result-cases (transform_and_encode_transaction_fees fl fees)) [
          | inl ((outputs, text), f) ↦
              rw (admin_set_transaction_fee_for_transaction_type, e, f)
                (set_one_type-Agree fl en b j n gs local (fl.get_txn_type_from_string name) fees
                  outputs text fl.all_txn_types s (fl.get_txn_type_from_string-byte name)
                  fl.all_txn_types-byte (((transform_and_encode_lem fl fees outputs text).0 f).2) h)
          | inr (inl (x, f)) ↦ rw (admin_set_transaction_fee_for_transaction_type, e, f) h
          | inr (inr f) ↦ rw (admin_set_transaction_fee_for_transaction_type, e, f) h
        ]
      ]

  all_types-IsCached :
      (request : Result Bytes (List TransactionFee)) (s : FeeServer fl en b j n gs)
      → IsCached s
      → IsCached (admin_set_all_transaction_fees fl en b j n gs request s).1
  unfolding admin_set_all_transaction_fees
  all_types-IsCached (err e) s h = h
  all_types-IsCached panic s h = h
  all_types-IsCached (ok fees) s h =
      elim (Result-cases (transform_and_encode_transaction_fees fl fees)) [
        | inl ((outputs, text), f) ↦
            rw (admin_set_all_transaction_fees, f)
              (set_all_types-Agree fl en b j n gs local fl.all_txn_types fees outputs text
                fl.all_txn_types s fl.all_txn_types-byte fl.all_txn_types-byte
                (((transform_and_encode_lem fl fees outputs text).0 f).2) h)
        | inr (inl (x, f)) ↦ rw (admin_set_all_transaction_fees, f) h
        | inr (inr f) ↦ rw (admin_set_all_transaction_fees, f) h
      ]

  reached-IsCached : {s : FeeServer fl en b j n gs} → FeeHistory fl en b j n gs s → IsCached s
  unfolding get_transaction_fee_map_from_global_state
  reached-IsCached (started store fees exempt h) =
      let (same, agree) =
        load_fees-Agree fl en b j n gs local fl.all_txn_types (λ t. none) store h in
      rw same agree
  reached-IsCached (one_type_asked request s before) =
      one_type-IsCached request s (reached-IsCached before)
  reached-IsCached (all_types_asked request s before) =
      all_types-IsCached request s (reached-IsCached before)
  reached-IsCached (exemption_asked request s before) =
      add_exempt-Agree fl en b j n gs local request fl.all_txn_types s (reached-IsCached before)

  -- On a local database: in every state of a server that loads its fees at its start and then
  -- serves any requests to set the fees of one type, to set those of all types, or to change an
  -- exemption, with success or with any error on the way, a server that starts again on the store
  -- loads for each transaction type the fees that the first one has cached.
  pub fees_restored :
      {s : FeeServer fl en b j n gs}
      → FeeHistory fl en b j n gs s
      → (fees : ℕ → Option (List Output)) × ((get_transaction_fee_map_from_global_state fl en b j n
            gs s.1).0
          ≡ ok fees)
        × All (λ t. fees t ≡ s.0.transaction_fee_map t) fl.all_txn_types
  unfolding get_transaction_fee_map_from_global_state
  fees_restored {s} history =
      load_fees_again fl en b j n gs local fl.all_txn_types (λ t. none) s.1 s.0.transaction_fee_map
        (reached-IsCached history)
