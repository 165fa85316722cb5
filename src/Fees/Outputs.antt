-- ===== src/Fees/Outputs.antt =====
-- The fees of a request that are turned into outputs (routes/admin_fees.go).
use deso_backend.Base.{
  ◌≡◌, ◌≢◌, ◌↔◌, inl, inr, refl, subst, false, List, [], ◌∷◌, All, Bytes, bytes_eq, bytes_eq_refl,
  bytes_eq→eq, Option, none, some, Result-cases, ok, arith, Bool-cases, length,
}
use deso_backend.Fees.{
  TransactionFee, Output, FeeLib, has_key, check_for_duplicates, is_bad_key,
  check_transaction_fee_for_duplicate_public_keys, transform_transaction_fees_to_outputs,
  transform_and_encode_transaction_fees,
}

-- no key stands twice in the fees
abbrev pub HasDistinctKeys : List TransactionFee → Type 0
HasDistinctKeys [] = Unit
HasDistinctKeys (fee ∷ fees) =
    All (λ g. fee.public_key_base58_check ≢ g.public_key_base58_check) fees × HasDistinctKeys fees

-- the outputs have the keys that are decoded and the amounts, in the order of the fees
abbrev pub AreOutputsOf : FeeLib → List TransactionFee → List Output → Type 0
AreOutputsOf fl [] [] = Unit
AreOutputsOf fl [] (o ∷ outputs) = ⊥
AreOutputsOf fl (fee ∷ fees) [] = ⊥
AreOutputsOf fl (fee ∷ fees) (o ∷ outputs) =
    (fl.base58_check_decode fee.public_key_base58_check ≡ (o.public_key, none))
    × (length o.public_key ≡ 33)
    × (o.amount_nanos ≡ fee.amount_nanos)
    × AreOutputsOf fl fees outputs

-- none of the keys was seen
abbrev AreNew : List Bytes → List TransactionFee → Type 0
AreNew seen fees = All (λ (g : TransactionFee). has_key g.public_key_base58_check seen ≡ false) fees

new_split :
    (key : Bytes) (seen : List Bytes) (fees : List TransactionFee)
    → AreNew (key ∷ seen) fees
    → All (λ g. key ≢ g.public_key_base58_check) fees × AreNew seen fees
unfolding has_key
new_split key seen [] h = (tt, tt)
new_split key seen (g ∷ fees) (new, h) =
    let (apart, rest) = new_split key seen fees h in
    (((λ e. ground (arith, new, e, bytes_eq_refl key)), apart), (ground (arith, new), rest))

new_join :
    (key : Bytes) (seen : List Bytes) (fees : List TransactionFee)
    → All (λ g. key ≢ g.public_key_base58_check) fees
    → AreNew seen fees
    → AreNew (key ∷ seen) fees
unfolding has_key
new_join key seen [] apart new = tt
new_join key seen (g ∷ fees) (ne, apart) (new, rest) = (
  elim (Bool-cases (bytes_eq key g.public_key_base58_check)) [
    | inl e ↦ absurd (ne (bytes_eq→eq key g.public_key_base58_check e))
    | inr e ↦ ground (arith, e, new)
  ],
  new_join key seen fees apart rest,
)

check_accepts :
    (seen : List Bytes) (fees : List TransactionFee)
    → check_for_duplicates seen fees ≡ ok tt
    → HasDistinctKeys fees × AreNew seen fees
unfolding check_for_duplicates
check_accepts seen [] h = (tt, tt)
check_accepts seen (fee ∷ fees) h = elim (Bool-cases (has_key fee.public_key_base58_check seen)) [
  | inl e ↦ ground (arith, e, h)
  | inr e ↦
      let (distinct, new) =
        check_accepts (fee.public_key_base58_check ∷ seen) fees (ground (arith, e, h)) in
      let (apart, rest) = new_split fee.public_key_base58_check seen fees new in
      ((apart, distinct), (e, rest))
]

check_complete :
    (seen : List Bytes) (fees : List TransactionFee)
    → HasDistinctKeys fees
    → AreNew seen fees
    → check_for_duplicates seen fees ≡ ok tt
unfolding check_for_duplicates
check_complete seen [] distinct new = refl
check_complete seen (fee ∷ fees) (apart, distinct) (new, rest) = ground (
  arith,
  new,
  check_complete (fee.public_key_base58_check ∷ seen) fees distinct
      (new_join fee.public_key_base58_check seen fees apart rest),
)

all_new : (fees : List TransactionFee) → AreNew [] fees
unfolding has_key
all_new [] = tt
all_new (fee ∷ fees) = (refl, all_new fees)

module _ (fl : FeeLib) where
  good_key :
      (decoded : Bytes × Option Bytes)
      → is_bad_key fl decoded ≡ false
      → (decoded ≡ (decoded.0, none)) × (length decoded.0 ≡ 33)
  unfolding is_bad_key
  good_key (key, none) h = (refl, ground (arith, h))
  good_key (key, some e) h = ground (arith, h)

  transform_accepts :
      (fees : List TransactionFee) {outputs : List Output}
      → transform_transaction_fees_to_outputs fl fees ≡ ok outputs
      → AreOutputsOf fl fees outputs
  unfolding transform_transaction_fees_to_outputs
  transform_accepts [] {outputs} h =
      let none_left : ◌≡◌ {A = List Output} [] outputs = ground (arith, h) in
      subst (AreOutputsOf fl []) none_left tt
  transform_accepts (fee ∷ fees) {outputs} h =
      let decoded = fl.base58_check_decode fee.public_key_base58_check in
      elim (Bool-cases (is_bad_key fl decoded)) [
        | inl e ↦ ground (arith, e, h)
        | inr e ↦ elim (Result-cases (transform_transaction_fees_to_outputs fl fees)) [
          | inl (os, r) ↦
              let (good, size) = good_key decoded e in
              let here : ◌≡◌ {A = List Output}
                  (record { public_key = decoded.0; amount_nanos = fee.amount_nanos } ∷ os)
                  outputs =
                ground (arith, e, r, h) in
              subst (AreOutputsOf fl (fee ∷ fees)) here (good, size, refl, transform_accepts fees r)
          | inr (inl (x, r)) ↦ ground (arith, e, r, h)
          | inr (inr r) ↦ ground (arith, e, r, h)
        ]
      ]

  transform_complete :
      (fees : List TransactionFee) (outputs : List Output)
      → AreOutputsOf fl fees outputs
      → transform_transaction_fees_to_outputs fl fees ≡ ok outputs
  unfolding transform_transaction_fees_to_outputs is_bad_key
  transform_complete [] [] h = refl
  transform_complete [] (o ∷ outputs) h = elim h [ ]
  transform_complete (fee ∷ fees) [] h = elim h [ ]
  transform_complete (fee ∷ fees) (o ∷ outputs) (key, size, amount, rest) =
      grind (arith, key, size, amount, transform_complete fees outputs rest)

  accepted :
      (fees : List TransactionFee) {outputs : List Output} {text : Bytes}
      → transform_and_encode_transaction_fees fl fees ≡ ok (outputs, text)
      → HasDistinctKeys fees × AreOutputsOf fl fees outputs × (fl.gob.marshal outputs ≡ ok text)
  unfolding transform_and_encode_transaction_fees check_transaction_fee_for_duplicate_public_keys
  accepted fees {outputs} {text} h =
      let checked : check_for_duplicates [] fees ≡ ok tt = ground arith in
      let transformed : transform_transaction_fees_to_outputs fl fees ≡ ok outputs = ground arith in
      ((check_accepts [] fees checked).0, transform_accepts fees transformed, ground arith)

  -- The fees of a request are accepted, with these outputs and this text, exactly when no key
  -- stands in them twice, each key decodes to 33 bytes, the outputs are the decoded keys with the
  -- amounts in their order, and the text is the encoding of the outputs.
  pub transform_and_encode_lem :
      (fees : List TransactionFee) (outputs : List Output) (text : Bytes)
      → (transform_and_encode_transaction_fees fl fees ≡ ok (outputs, text))
        ↔ (HasDistinctKeys fees × AreOutputsOf fl fees outputs × (fl.gob.marshal outputs ≡ ok text))
  unfolding transform_and_encode_transaction_fees check_transaction_fee_for_duplicate_public_keys
  transform_and_encode_lem fees outputs text = (
    (λ h. accepted fees h),
    λ (distinct, are, encoded). ground (
      arith,
      check_complete [] fees distinct (all_new fees),
      transform_complete fees outputs are,
      encoded,
    ),
  )
