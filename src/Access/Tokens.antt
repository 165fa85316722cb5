-- ===== src/Access/Tokens.antt =====
-- What a valid token proves (`ValidateJWT` of routes/server.go).
use deso_backend.Base.{
  ◌≡◌, ◌⊎◌, inl, inr, refl, true, Bytes, codes, bytes_eq, Option, Option-cases, none, some, ok,
  panic, or_fail, after_step, value_of_or_fail, arith,
}
use deso_backend.Access.{
  Claim, text, other, TokenLib, jwt_derived_public_key_claim, without_claim, derived_key,
  key_of_claims, validate_jwt, derived_key_not_authorized, bad_derived_key, derived_key_not_parsed,
  no_view, bad_public_key, key_not_parsed,
}

module _ (tl : TokenLib) where
  -- The key of the owner, where the token names no other; else a derived key that the token names
  -- and that the chain lets sign for the owner at this height.
  abbrev pub MaySign : Bytes → tl.PubKey → (Bytes → Option Claim) → tl.PubKey → Type 0
  MaySign owner owner_key claims signer =
      ((claims jwt_derived_public_key_claim ≡ none) × (signer ≡ owner_key))
      ⊎ (name : Bytes) × (derived : Bytes) × (view : tl.View) × (claims jwt_derived_public_key_claim
          ≡ some (text name))
        × (tl.base58_check_decode name ≡ ok derived)
        × (tl.parse_pub_key derived ≡ ok signer)
        × (tl.get_augmented_universal_view ≡ ok view)
        × (tl.validate_derived_key view owner derived tl.block_tip_height ≡ ok tt)

  pub record IsSignedFor (public_key token : Bytes) : Type 0 where
    pub owner : Bytes
    pub owner_key : tl.PubKey
    pub signer : tl.PubKey
    pub claims : Bytes → Option Claim
    pub is_owner : tl.base58_check_decode public_key ≡ ok owner
    pub is_owner_key : tl.parse_pub_key owner ≡ ok owner_key
    pub is_token : tl.claims_of token ≡ some claims
    pub is_signed : tl.is_signed_by token signer ≡ true
    pub is_current : tl.are_current (without_claim (codes "iat") claims) ≡ true
    pub may_sign : MaySign owner owner_key claims signer

  key_of_claims-MaySign :
      (owner : Bytes) (key signer : tl.PubKey) (claims : Bytes → Option Claim)
      → (key_of_claims tl owner key claims).1 ≡ ok signer
      → MaySign owner key claims signer
  unfolding key_of_claims derived_key without_claim bytes_eq
  key_of_claims-MaySign owner key signer claims h =
      elim (Option-cases (claims jwt_derived_public_key_claim)) [
        | inl absent ↦ inl (absent, ground (arith, absent, h))
        | inr (other, e) ↦ ground (arith, e, h)
        | inr (text name, e) ↦
            after_step (or_fail (tl.base58_check_decode name) (λ x. bad_derived_key)) (rw e at h)
              λ derived e1 h1.
                after_step (or_fail (tl.parse_pub_key derived) (λ x. derived_key_not_parsed)) h1
                  λ k e2 h2.
                    after_step (or_fail tl.get_augmented_universal_view (λ x. no_view)) h2
                      λ view e3 h3.
                        after_step
                          (or_fail (tl.validate_derived_key view owner derived tl.block_tip_height)
                            (λ x. derived_key_not_authorized))
                          h3
                          λ u e4 h4.
                            let parsed = value_of_or_fail (tl.parse_pub_key derived) _ e2 in
                            inr (
                              name,
                              derived,
                              view,
                              e,
                              value_of_or_fail (tl.base58_check_decode name) _ e1,
                              cc (parsed, h4),
                              value_of_or_fail tl.get_augmented_universal_view _ e3,
                              value_of_or_fail
                                  (tl.validate_derived_key view owner derived tl.block_tip_height) _
                                  e4,
                            )
      ]

  pub validate_jwt_lem :
      (public_key token : Bytes)
      → validate_jwt tl public_key token ≡ ok true
      → IsSignedFor public_key token
  unfolding validate_jwt key_of_claims
  validate_jwt_lem public_key token h =
      after_step (or_fail (tl.base58_check_decode public_key) (λ e. bad_public_key)) h
        λ owner e1 h1.
          after_step (or_fail (tl.parse_pub_key owner) (λ e. key_not_parsed)) h1 λ key e2 h2.
            let valid = value_of_or_fail (tl.jwt_parse token (key_of_claims tl owner key)) _ h2 in
            let (claims, signer, is_token, answered, signed, current) =
              tl.jwt_parse-valid token (key_of_claims tl owner key) valid in
            record {
              owner = owner;
              owner_key = key;
              signer = signer;
              claims = claims;
              is_owner = value_of_or_fail (tl.base58_check_decode public_key) _ e1;
              is_owner_key = value_of_or_fail (tl.parse_pub_key owner) _ e2;
              is_token = is_token;
              is_signed = signed;
              is_current = current;
              may_sign = key_of_claims-MaySign owner key signer claims answered;
            }

  -- A token whose claim of a derived key is not a text makes ValidateJWT panic for every key that
  -- decodes and parses, whoever signed the token, if anyone did.
  pub validate_jwt_panics :
      (public_key token owner : Bytes) (key : tl.PubKey) (claims : Bytes → Option Claim)
      → tl.base58_check_decode public_key ≡ ok owner
      → tl.parse_pub_key owner ≡ ok key
      → tl.claims_of token ≡ some claims
      → claims jwt_derived_public_key_claim ≡ some other
      → validate_jwt tl public_key token ≡ panic
  unfolding validate_jwt key_of_claims derived_key without_claim bytes_eq
  validate_jwt_panics public_key token owner key claims e1 e2 e3 e4 =
      let panics : (key_of_claims tl owner key claims).1 ≡ panic = rw e4 refl in
      rw (e1, e2, tl.jwt_parse-panics token (key_of_claims tl owner key) e3 panics) refl
