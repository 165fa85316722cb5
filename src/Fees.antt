-- ===== src/Fees.antt =====
-- Fees of transactions (routes/admin_fees.go, and `getTransactionFee` of routes/transaction.go): what
-- each type of transaction pays to the node, and the public keys that are exempt from it. Both are
-- kept in the global state and cached in the server.
pub mod Server
pub mod Outputs
pub mod Cached
pub mod Loaded
pub mod Served
pub mod Exempt
pub mod Tests
use deso_backend.Base.{
  ℕ, ◌+◌, ◌%◌, ◌^◌, ◌<◌, ◌≡◌, Bool, true, false, not, ◌&&◌, ◌||◌, List, [], ◌∷◌, ◌++◌, All, Bytes,
  codes, bytes_eq, Option, none, some, Result, ok, err, panic, ◌>>=◌, ◌>>◌, fail_if, or_fail, ◌==◌,
  if◌then◌else◌, length,
}
use deso_backend.GlobalState.Encoding.{Encoding}
use deso_backend.GlobalState.Prefix.{Prefix, prefix_byte}
use deso_backend.GlobalState.Keys.Payments.{
  key_transaction_fee_outputs_from_txn_type, key_exempt_public_key,
}
use deso_backend.GlobalState.Store.Interface.{Badger, Codec, Json, Network, SeekRequest}
use deso_backend.GlobalState.Store.Client.{Error, GlobalState, State, put, get, delete_key, seek}

-- without `ProfileEntryResponse`, which requests leave empty
pub record TransactionFee : Type 0 where
  pub public_key_base58_check : Bytes
  pub amount_nanos : ℕ

-- lib.DeSoOutput
pub record Output : Type 0 where
  pub public_key : Bytes
  pub amount_nanos : ℕ

pub data FeeError : Type 0 where
  bad_body not_a_txn_type duplicate_key bad_output_key not_encoded not_logged bad_exempt_key :
      FeeError
  store_failed : Error → FeeError

-- What the fees use of deso-core, gob and statsd. A transaction type is a byte. A key that is decoded
-- comes with the error of the decoder, where there is one; without a statsd client there is no gauge.
pub record FeeLib : Type 0 where
  pub base58_check_decode : Bytes → Bytes × Option Bytes
  pub pk_to_string : Bytes → Bytes
  pub get_txn_type_from_string : Bytes → ℕ
  pub get_txn_type_from_string-byte : (text : Bytes) → get_txn_type_from_string text < 256
  pub txn_type_unset : ℕ
  pub all_txn_types : List ℕ
  pub all_txn_types-byte : All (λ t. t < 256) all_txn_types
  pub txn_string : ℕ → Bytes
  pub gob : Codec (List Output)
  pub gauge : Option (Bytes → ℕ → Result Bytes (Unit {0}))

-- the cached maps of the server
pub record FeeMaps : Type 0 where
  pub transaction_fee_map : ℕ → Option (List Output)
  pub exempt_public_key_map : Bytes → Bool

unfoldable pub has_key : Bytes → List Bytes → Bool
has_key key [] = false
has_key key (k ∷ keys) = bytes_eq k key || has_key key keys

-- the loop, with the keys of the map so far
unfoldable pub check_for_duplicates : List Bytes → List TransactionFee → Result FeeError (Unit {0})
check_for_duplicates seen [] = ok tt
check_for_duplicates seen (fee ∷ fees) =
    let rest = check_for_duplicates (fee.public_key_base58_check ∷ seen) fees in
    if has_key fee.public_key_base58_check seen then err duplicate_key else rest

unfoldable pub check_transaction_fee_for_duplicate_public_keys :
    List TransactionFee → Result FeeError (Unit {0})
check_transaction_fee_for_duplicate_public_keys fees = check_for_duplicates [] fees

-- the sum in `LogFeeSet`
unfoldable pub total_fees : ℕ → List TransactionFee → ℕ
total_fees total [] = total
total_fees total (fee ∷ fees) = total_fees ((total + fee.amount_nanos) % 2 ^ 64) fees

-- `fes.TransactionFeeMap[txnType] = outputs`
unfoldable pub set_fees : ℕ → List Output → (ℕ → Option (List Output)) → ℕ → Option (List Output)
set_fees txn_type outputs fees t = if txn_type == t then some outputs else fees t

unfoldable pub set_exempt : Bytes → Bool → (Bytes → Bool) → Bytes → Bool
set_exempt name exempt names other = if bytes_eq name other then exempt else names other

module _ (fl : FeeLib) where
  -- `err != nil || len(publicKeyBytes) != btcec.PubKeyBytesLenCompressed`
  unfoldable pub is_bad_key : Bytes × Option Bytes → Bool
  is_bad_key (key, none) = not (length key == 33)
  is_bad_key (key, some e) = true

  unfoldable pub transform_transaction_fees_to_outputs :
      List TransactionFee → Result FeeError (List Output)
  transform_transaction_fees_to_outputs [] = ok []
  transform_transaction_fees_to_outputs (fee ∷ fees) =
      let rest = transform_transaction_fees_to_outputs fees in
      let decoded = fl.base58_check_decode fee.public_key_base58_check in
      if is_bad_key decoded
      then err bad_output_key
      else rest >>= λ outputs.
          ok (record { public_key = decoded.0; amount_nanos = fee.amount_nanos } ∷ outputs)

  unfoldable pub transform_and_encode_transaction_fees :
      List TransactionFee → Result FeeError (List Output × Bytes)
  transform_and_encode_transaction_fees fees = do
    check_transaction_fee_for_duplicate_public_keys fees
    outputs ← transform_transaction_fees_to_outputs fees
    text ← or_fail (fl.gob.marshal outputs) (λ e. not_encoded)
    ok (outputs, text)

  unfoldable pub log_fee_set : ℕ → List TransactionFee → Result FeeError (Unit {0})
  log_fee_set txn_type fees = elim fl.gauge [
    | none ↦ ok tt
    | some gauge ↦
        or_fail (gauge (codes "NODE_FEE_TOTAL." ++ fl.txn_string txn_type) (total_fees 0 fees))
          (λ e. not_logged)
  ]

  -- the outputs that are decoded from what the store answered; an error counts as no fees
  unfoldable pub stored_outputs : Result Error (Option Bytes) → Result (Unit {0}) (List Output)
  stored_outputs (ok found) =
      elim (fl.gob.unmarshal (elim found [ none ↦ [] | some text ↦ text ])) [
        | ok outputs ↦ ok outputs
        | err e ↦ ok []
        | panic ↦ panic
      ]
  stored_outputs (err e) = ok []
  stored_outputs panic = panic

  -- routes/transaction.go
  unfoldable pub get_transaction_fee :
      FeeMaps → ℕ → Bytes → List TransactionFee → Result FeeError (List Output)
  get_transaction_fee maps txn_type transactor fees =
      let node_fees : List Output = elim (maps.transaction_fee_map txn_type) [
        | none ↦ []
        | some outputs ↦ outputs
      ] in
      let is_exempt = maps.exempt_public_key_map (fl.pk_to_string transactor) in
      transform_transaction_fees_to_outputs fees >>= λ extra_outputs.
      if length node_fees == 0
      then ok extra_outputs
      else if is_exempt
      then ok extra_outputs
      else ok (extra_outputs ++ node_fees)
