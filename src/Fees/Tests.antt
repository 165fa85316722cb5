-- ===== src/Fees/Tests.antt =====
-- Fee requests to a small server (routes/admin_fees.go).
use deso_backend.Base.{
  ℕ, ◌<◌, ◌≡◌, ◌↔◌, refl, true, false, some, List, [], ◌∷◌, map, All, Bytes, replicate, Option,
  none, Result, ok, arith, ltb, if◌then◌else◌,
}
use deso_backend.GlobalState.Keys.Payments.{key_exempt_public_key}
use deso_backend.GlobalState.Store.Client.{GlobalState, State, get, has_remote, get_local}
use deso_backend.GlobalState.Tests.Model.{encoding, badger, table_get, json, no_network}
use deso_backend.GlobalState.Tests.Texts.{write_texts, read_texts, read_written_texts}
use deso_backend.Fees.{
  TransactionFee, Output, FeeLib, set_fees, stored_outputs, transform_and_encode_transaction_fees,
}
use deso_backend.Fees.Server.{
  FeeServer, admin_set_transaction_fee_for_transaction_type, admin_add_exempt_public_key,
  get_transaction_fee_map_from_global_state, load_fees,
}
use deso_backend.Fees.Outputs.{HasDistinctKeys, AreOutputsOf, transform_and_encode_lem}
use deso_backend.Fees.Served.{started, one_type_asked, exemption_asked, fees_restored}
use deso_backend.Fees.Exempt.{HasStoredExemptions, admin_add_exempt_public_key-HasStoredExemptions}

abbrev pub output_text : Output → Bytes
output_text o = o.amount_nanos ∷ o.public_key

unfoldable pub text_output : Bytes → Output
text_output [] = record { public_key = []; amount_nanos = 0 }
text_output (amount ∷ key) = record { public_key = key; amount_nanos = amount }

text_outputs : (outputs : List Output) → map text_output (map output_text outputs) ≡ outputs
unfolding text_output
text_outputs [] = refl
text_outputs (o ∷ outputs) = ground (arith, text_outputs outputs)

pub read_outputs :
    (outputs : List Output) {text : Bytes}
    → ◌≡◌ {A = Result Bytes Bytes} (ok (write_texts (map output_text outputs))) (ok text)
    → ◌≡◌ {A = Result Bytes (List Output)} (ok (map text_output (read_texts text))) (ok outputs)
read_outputs outputs h =
    ground (arith, h, read_written_texts (map output_text outputs), text_outputs outputs)

unfoldable pub type_named : Bytes → ℕ
type_named [] = 0
type_named (t ∷ text) = if ltb t 4 then t else 0

pub type_named-byte : (text : Bytes) → type_named text < 256
unfolding type_named
type_named-byte text = ground arith

-- types 1 to 3; a type is named by its number, and a key by itself
abbrev pub fee_lib : FeeLib
fee_lib = record {
  base58_check_decode = λ text. (text, none);
  pk_to_string = λ key. key;
  get_txn_type_from_string = type_named;
  get_txn_type_from_string-byte = type_named-byte;
  txn_type_unset = 0;
  all_txn_types = 1 ∷ 2 ∷ 3 ∷ [];
  all_txn_types-byte = (omega arith, (omega arith, (omega arith, tt)));
  txn_string = λ t. t ∷ [];
  gob = record {
    marshal = λ outputs. ok (write_texts (map output_text outputs));
    unmarshal = λ text. ok (map text_output (read_texts text));
    unmarshal-marshal = read_outputs;
  };
  gauge = none;
}

abbrev here : GlobalState
here = record { remote_node = []; remote_secret = [] }

here-local : has_remote here ≡ false
unfolding has_remote
here-local = refl

abbrev a_key : ℕ → Bytes
a_key x = replicate 33 x

abbrev two_fees : List TransactionFee
two_fees =
    record { public_key_base58_check = a_key 5; amount_nanos = 100 }
    ∷ record { public_key_base58_check = a_key 6; amount_nanos = 200 }
    ∷ []

abbrev two_outputs : List Output
two_outputs =
    record { public_key = a_key 5; amount_nanos = 100 }
    ∷ record { public_key = a_key 6; amount_nanos = 200 }
    ∷ []

abbrev Server : Type 0
Server = FeeServer fee_lib encoding badger json no_network here

abbrev loaded : Result (Unit {0}) (ℕ → Option (List Output)) × State badger json no_network
loaded =
    get_transaction_fee_map_from_global_state fee_lib encoding badger json no_network here ([], tt)

nothing_stored :
    (get_transaction_fee_map_from_global_state fee_lib encoding badger json no_network here
      ([], tt)).0
    ≡ ok (set_fees 3 [] (set_fees 2 [] (set_fees 1 [] (λ t. none))))
unfolding get_transaction_fee_map_from_global_state load_fees stored_outputs get has_remote
    get_local table_get read_texts
nothing_stored = refl

abbrev fresh : Server
fresh = (
  record {
    transaction_fee_map = set_fees 3 [] (set_fees 2 [] (set_fees 1 [] (λ t. none)));
    exempt_public_key_map = λ name. false;
  },
  loaded.1,
)

abbrev one_set : Server
one_set =
    (admin_set_transaction_fee_for_transaction_type fee_lib encoding badger json no_network here
      (ok (2 ∷ [], two_fees)) fresh).1

abbrev one_exempt : Server
one_exempt =
    (admin_add_exempt_public_key fee_lib encoding badger json no_network here (ok (a_key 7, false))
      one_set).1

fees_restored_example :
    (fees : ℕ → Option (List Output)) × ((get_transaction_fee_map_from_global_state fee_lib encoding
        badger json no_network here one_exempt.1).0
      ≡ ok fees)
    × All (λ t. fees t ≡ one_exempt.0.transaction_fee_map t) (1 ∷ 2 ∷ 3 ∷ [])
fees_restored_example = fees_restored fee_lib encoding badger json no_network here here-local (
    exemption_asked (ok (a_key 7, false)) one_set (
      one_type_asked (ok (2 ∷ [], two_fees)) fresh (
        started ([], tt) (set_fees 3 [] (set_fees 2 [] (set_fees 1 [] (λ t. none)))) (λ name. false)
          nothing_stored)))

transform_and_encode_lem_example :
    (transform_and_encode_transaction_fees fee_lib two_fees
      ≡ ok (two_outputs, write_texts (map output_text two_outputs)))
    ↔ (HasDistinctKeys two_fees
        × AreOutputsOf fee_lib two_fees two_outputs
        × (fee_lib.gob.marshal two_outputs ≡ ok (write_texts (map output_text two_outputs))))
transform_and_encode_lem_example =
    transform_and_encode_lem fee_lib two_fees two_outputs
      (write_texts (map output_text two_outputs))

none_exempt :
    HasStoredExemptions fee_lib encoding badger json no_network here here-local
      (λ k l e. e)
      (record { transaction_fee_map = λ t. none; exempt_public_key_map = λ name. false }, ([], tt))
unfolding get has_remote get_local table_get
none_exempt key = ((λ h. absurd cc), λ (v, h). absurd cc)

abbrev a_key_exempt : Server
a_key_exempt =
    (admin_add_exempt_public_key fee_lib encoding badger json no_network here (ok (a_key 7, false))
      (
        record { transaction_fee_map = λ t. none; exempt_public_key_map = λ name. false },
        ([], tt),
      )).1

admin_add_exempt_public_key-HasStoredExemptions_example :
    (a_key_exempt.0.exempt_public_key_map (a_key 7) ≡ true) ↔ (
      (v : Bytes) × ((get badger json no_network here
          (key_exempt_public_key encoding (a_key 7))
          a_key_exempt.1).0
        ≡ ok (some v)))
admin_add_exempt_public_key-HasStoredExemptions_example =
    admin_add_exempt_public_key-HasStoredExemptions fee_lib encoding badger json no_network here
      here-local (λ k l e. e) (ok (a_key 7, false))
      (record { transaction_fee_map = λ t. none; exempt_public_key_map = λ name. false }, ([], tt))
      none_exempt (a_key 7)
