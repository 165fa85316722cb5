-- ===== src/Fees/Server.antt =====
-- The fee handlers, with the server's maps and the store (routes/admin_fees.go).
use deso_backend.Base.{
  ℕ, Bool, not, List, [], ◌∷◌, ◌++◌, Bytes, Option, none, Result, ok, err, panic, ◌==◌,
  if◌then◌else◌,
}
use deso_backend.GlobalState.Encoding.{Encoding}
use deso_backend.GlobalState.Keys.Payments.{
  key_transaction_fee_outputs_from_txn_type, key_exempt_public_key,
}
use deso_backend.GlobalState.Store.Interface.{Badger, Json, Network}
use deso_backend.GlobalState.Store.Client.{Error, GlobalState, State, put, get, delete_key}
use deso_backend.Fees.{
  TransactionFee, Output, FeeError, bad_body, not_a_txn_type, bad_exempt_key, store_failed, FeeLib,
  FeeMaps, set_fees, set_exempt, is_bad_key, transform_and_encode_transaction_fees, log_fee_set,
  stored_outputs,
}

module _ (fl : FeeLib) (en : Encoding) (b : Badger) (j : Json) (n : Network)
    (gs : GlobalState) where
  abbrev pub FeeServer : Type 0
  FeeServer = FeeMaps × State b j n

  -- the fees of one type: logged, stored and cached
  unfoldable pub set_one_type :
      ℕ
      → List TransactionFee
      → List Output
      → Bytes
      → FeeServer
      → Result FeeError (Unit {0}) × FeeServer
  set_one_type txn_type fees outputs text (maps, store) =
      let (written, store') =
        put b j n gs (key_transaction_fee_outputs_from_txn_type en txn_type) text store in
      elim (log_fee_set fl txn_type fees) [
        | err e ↦ (err e, (maps, store))
        | panic ↦ (panic, (maps, store))
        | ok logged ↦ elim written [
          | err e ↦ (err (store_failed e), (maps, store'))
          | panic ↦ (panic, (maps, store'))
          | ok done ↦ (
            ok tt,
            (
              record maps {
                transaction_fee_map = set_fees txn_type outputs maps.transaction_fee_map;
              },
              store',
            ),
          )
        ]
      ]

  unfoldable pub admin_set_transaction_fee_for_transaction_type :
      Result Bytes (Bytes × List TransactionFee)
      → FeeServer
      → Result FeeError (Unit {0}) × FeeServer
  admin_set_transaction_fee_for_transaction_type (err e) s = (err bad_body, s)
  admin_set_transaction_fee_for_transaction_type panic s = (panic, s)
  admin_set_transaction_fee_for_transaction_type (ok (name, fees)) s =
      let txn_type = fl.get_txn_type_from_string name in
      if txn_type == fl.txn_type_unset
      then (err not_a_txn_type, s)
      else elim (transform_and_encode_transaction_fees fl fees) [
        | err e ↦ (err e, s)
        | panic ↦ (panic, s)
        | ok (outputs, text) ↦ set_one_type txn_type fees outputs text s
      ]

  -- the loop over the transaction types; it returns at the first error
  unfoldable pub set_all_types :
      List ℕ
      → List TransactionFee
      → List Output
      → Bytes
      → FeeServer
      → Result FeeError (Unit {0}) × FeeServer
  set_all_types [] fees outputs text s = (ok tt, s)
  set_all_types (t ∷ types) fees outputs text s =
      let (done, s1) = set_one_type t fees outputs text s in
      let rest = set_all_types types fees outputs text s1 in
      elim done [ ok u ↦ rest | err e ↦ (err e, s1) | panic ↦ (panic, s1) ]

  unfoldable pub admin_set_all_transaction_fees :
      Result Bytes (List TransactionFee) → FeeServer → Result FeeError (Unit {0}) × FeeServer
  admin_set_all_transaction_fees (err e) s = (err bad_body, s)
  admin_set_all_transaction_fees panic s = (panic, s)
  admin_set_all_transaction_fees (ok fees) s =
      elim (transform_and_encode_transaction_fees fl fees) [
        | err e ↦ (err e, s)
        | panic ↦ (panic, s)
        | ok (outputs, text) ↦ set_all_types fl.all_txn_types fees outputs text s
      ]

  -- the loop over the transaction types, with the map so far
  unfoldable pub load_fees :
      List ℕ
      → (ℕ → Option (List Output))
      → State b j n
      → Result (Unit {0}) (ℕ → Option (List Output)) × State b j n
  load_fees [] fees s = (ok fees, s)
  load_fees (t ∷ types) fees s =
      let (found, s1) = get b j n gs (key_transaction_fee_outputs_from_txn_type en t) s in
      elim (stored_outputs fl found) [
        | ok outputs ↦ load_fees types (set_fees t outputs fees) s1
        | err e ↦ (err e, s1)
        | panic ↦ (panic, s1)
      ]

  unfoldable pub get_transaction_fee_map_from_global_state :
      State b j n → Result (Unit {0}) (ℕ → Option (List Output)) × State b j n
  get_transaction_fee_map_from_global_state s = load_fees fl.all_txn_types (λ t. none) s

  -- the key is deleted or stored
  unfoldable pub write_exemption :
      Bool → Bytes → State b j n → Result Error (Unit {0}) × State b j n
  write_exemption is_removal key store =
      if is_removal
      then delete_key b j n gs (key_exempt_public_key en key) store
      else put b j n gs (key_exempt_public_key en key) (1 ∷ []) store

  -- the error replies that are written; a bad key is reported and then used
  unfoldable pub admin_add_exempt_public_key :
      Result Bytes (Bytes × Bool) → FeeServer → Result (Unit {0}) (List FeeError) × FeeServer
  admin_add_exempt_public_key (err e) s = (ok (bad_body ∷ []), s)
  admin_add_exempt_public_key panic s = (panic, s)
  admin_add_exempt_public_key (ok (key_text, is_removal)) (maps, store) =
      let decoded = fl.base58_check_decode key_text in
      let replies = if is_bad_key fl decoded then bad_exempt_key ∷ [] else [] in
      let name = fl.pk_to_string decoded.0 in
      let (written, store') = write_exemption is_removal decoded.0 store in
      elim written [
        | err e ↦ (ok (replies ++ (store_failed e ∷ [])), (maps, store'))
        | panic ↦ (panic, (maps, store'))
        | ok done ↦ (
          ok replies,
          (
            record maps {
              exempt_public_key_map = set_exempt name (not is_removal) maps.exempt_public_key_map;
            },
            store',
          ),
        )
      ]
