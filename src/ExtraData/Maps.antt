-- ===== src/ExtraData/Maps.antt =====
-- Maps of extra data that are encoded and decoded.
use deso_backend.Base.{
  ◌≡◌, ◌≢◌, ◌⊎◌, inl, inr, refl, sym, ap, subst, Bool-cases, List, [], ◌∷◌, Bytes, bytes_eq,
  bytes_eq_refl, bytes_eq→eq, Option, none, some, ok, after_step, map, IsIn,
}
use deso_backend.ExtraData.{
  SpecialKey, deso_royalties_map_key, coin_royalties_map_key, transaction_spending_limit_key,
  ExtraLib, all_special_keys, special_encoding, find_encoding, get_extra_data_field_encoding,
  encode_extra_data_map, decode_field, decode_extra_data_map,
}
use deso_backend.ExtraData.Stable.{field_encoding-IsStable}

-- the fields that a visit of a map meets; nil has none
abbrev pub fields_of : Option (List (Bytes × Bytes)) → List (Bytes × Bytes)
fields_of none = []
fields_of (some fields) = fields

abbrev pub IsReserved : SpecialKey → Type 0
IsReserved s =
    (s ≡ deso_royalties_map_key)
    ⊎ (s ≡ coin_royalties_map_key)
    ⊎ (s ≡ transaction_spending_limit_key)

module _ (xl : ExtraLib) where
  encode_fields_again :
      (extra_data stored : List (Bytes × Bytes))
      → encode_extra_data_map xl extra_data ≡ ok stored
      → encode_extra_data_map xl (map (decode_field xl) stored) ≡ ok stored
  unfolding encode_extra_data_map decode_field
  encode_fields_again [] stored h =
      subst
        (λ (fields : List (Bytes × Bytes)).
          encode_extra_data_map xl (map (decode_field xl) fields) ≡ ok fields)
        (let same : [] ≡ stored = cc h in same) refl
  encode_fields_again ((key, text) ∷ extra_data) stored h =
      after_step (encode_extra_data_map xl extra_data) h λ processed hp h1.
        after_step ((get_extra_data_field_encoding xl key).encode text) h1 λ encoded he h2.
          let again = encode_fields_again extra_data processed hp in
          let stable = field_encoding-IsStable xl key text encoded he in
          let same : (key, encoded) ∷ processed ≡ stored = cc h2 in
          subst
            (λ (fields : List (Bytes × Bytes)).
              encode_extra_data_map xl (map (decode_field xl) fields) ≡ ok fields)
            same (rw (again, stable) refl)

  -- Extra data that EncodeExtraDataMap has encoded is decoded by DecodeExtraDataMap to a map of
  -- texts that is encoded to the same bytes again, whatever the fields are, the special ones
  -- included.
  pub encode-decode_extra_data_map :
      (extra_data stored : List (Bytes × Bytes))
      → encode_extra_data_map xl extra_data ≡ ok stored
      → encode_extra_data_map xl (fields_of (decode_extra_data_map xl stored)) ≡ ok stored
  unfolding decode_extra_data_map
  encode-decode_extra_data_map extra_data [] h = encode_fields_again extra_data [] h
  encode-decode_extra_data_map extra_data (field ∷ stored) h =
      encode_fields_again extra_data (field ∷ stored) h

  find_special :
      (s : SpecialKey) (keys : List SpecialKey)
      → IsIn s keys
      → find_encoding xl (xl.key_name s) keys ≡ some (special_encoding xl s)
  unfolding find_encoding
  find_special s [] h = absurd h
  find_special s (t ∷ keys) h = elim (Bool-cases (bytes_eq (xl.key_name t) (xl.key_name s))) [
    | inl e ↦ rw (e, xl.key_name-injective t s (bytes_eq→eq (xl.key_name t) (xl.key_name s) e)) refl
    | inr e ↦ elim h [
      | inl same ↦ absurd (cc (e, ap xl.key_name same, bytes_eq_refl (xl.key_name s)))
      | inr later ↦ rw e (find_special s keys later)
    ]
  ]

  reserved_listed : (s : SpecialKey) → IsReserved s → IsIn s all_special_keys
  reserved_listed s (inl e) = inr (
      inr (
        inr (
          inr (
            inr (
              inr
                (inr (inr (inr (inr (inr (inr (inr (inr (inr (inr (inr (inl (sym e))))))))))))))))))
  reserved_listed s (inr (inl e)) = inr (
      inr (
        inr (
          inr (
            inr (
              inr (
                inr (
                  inr
                    (inr (inr (inr (inr (inr (inr (inr (inr (inr (inr (inl (sym e)))))))))))))))))))
  reserved_listed s (inr (inr e)) = inr (
      inr (
        inr (
          inr (
            inr (
              inr (
                inr (
                  inr (
                    inr (
                      inr (
                        inr (
                          inr (
                            inr (
                              inr (
                                inr (
                                  inr
                                    (inr (inr (inr (inr (inr (inr (inl (sym e)))))))))))))))))))))))

  reserved_refused :
      (s : SpecialKey) (text bytes : Bytes)
      → IsReserved s
      → (get_extra_data_field_encoding xl (xl.key_name s)).encode text ≢ ok bytes
  unfolding get_extra_data_field_encoding special_encoding
  reserved_refused s text bytes h accepted =
      let by_table =
        rw (find_special s all_special_keys (reserved_listed s h), get_extra_data_field_encoding) at
          accepted in
      elim h [
        | inl e ↦ cc (e, by_table)
        | inr (inl e) ↦ cc (e, by_table)
        | inr (inr e) ↦ cc (e, by_table)
      ]

  -- EncodeExtraDataMap accepts no map that has one of the three reserved fields, the two maps of
  -- royalties and the spending limit of a transaction, whatever its other fields are.
  pub encode_extra_data_map-reserved :
      (s : SpecialKey) (extra_data stored : List (Bytes × Bytes))
      → IsReserved s
      → IsIn (xl.key_name s) (map (λ field. field.0) extra_data)
      → encode_extra_data_map xl extra_data ≢ ok stored
  unfolding encode_extra_data_map
  encode_extra_data_map-reserved s [] stored reserved member h = member
  encode_extra_data_map-reserved s ((key, text) ∷ extra_data) stored reserved member h =
      after_step (encode_extra_data_map xl extra_data) h λ processed hp h1.
        after_step ((get_extra_data_field_encoding xl key).encode text) h1 λ encoded he h2.
          elim member [
            | inl same ↦ reserved_refused s text encoded reserved (
                subst (λ (k : Bytes). (get_extra_data_field_encoding xl k).encode text ≡ ok encoded)
                  same he)
            | inr later ↦ encode_extra_data_map-reserved s extra_data processed reserved later hp
          ]
