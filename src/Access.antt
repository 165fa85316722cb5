-- ===== src/Access.antt =====
-- Who reaches a handler (routes/server.go): the check of admins and of the tokens that they sign,
-- the headers for other origins and the content types that are let through, and the order in which
-- a route wraps its handler.
pub mod Headers
pub mod Cors
pub mod Status
pub mod Tokens
pub mod Admins
pub mod Routes
pub mod Tests
use deso_backend.Base.{
  ℕ, ◌<◌, ◌≡◌, Bool, true, false, not, ◌&&◌, ◌||◌, List, [], ◌∷◌, Bytes, codes, bytes_eq, Option,
  none, some, Result, ok, err, panic, ◌>>=◌, or_fail, ◌==◌, ltb, if◌then◌else◌, length, take,
}

pub data AccessLevel : Type 0 where
  public_access admin_access super_admin_access : AccessLevel

-- `fes.Config`, as far as access reads it
pub record AccessConfig : Type 0 where
  pub admin_public_keys : List Bytes
  pub super_admin_public_keys : List Bytes
  pub access_control_allow_origins : List Bytes

-- The content of a body, and the error that reading it ends in, where there is one.
pub record Body : Type 0 where
  pub content : Bytes
  pub read_error : Option Bytes

pub record HttpRequest : Type 0 where
  pub method : Bytes
  pub request_uri : Bytes
  pub origin : Bytes
  pub content_type : Bytes
  pub body : Option Body

pub record AdminRequest : Type 0 where
  pub jwt : Bytes
  pub admin_public_key : Bytes

-- the value of a claim in a token
pub data Claim : Type 0 where
  text : Bytes → Claim
  other : Claim

pub data AccessError : Type 0 where
  bad_public_key key_not_parsed bad_derived_key derived_key_not_parsed no_view : AccessError
  derived_key_not_authorized token_not_verified : AccessError
  no_body body_not_read bad_body no_admin_key invalid_token not_an_admin : AccessError

-- What access uses of deso-core, btcec, golang-jwt and JSON. `jwt_parse` gives the claims of the token
-- to its second argument, which answers with the key to verify by and the claims to validate.
pub record TokenLib : Type 1 where
  pub View : Type 0
  pub PubKey : Type 0
  pub base58_check_decode : Bytes → Result Bytes Bytes
  pub parse_pub_key : Bytes → Result Bytes PubKey
  pub get_augmented_universal_view : Result Bytes View
  pub block_tip_height : ℕ
  pub validate_derived_key : View → Bytes → Bytes → ℕ → Result Bytes (Unit {0})
  pub jwt_parse :
      Bytes
      → ((Bytes → Option Claim) → (Bytes → Option Claim) × Result AccessError PubKey)
      → Result Bytes Bool
  -- the claims of a token that is well formed, its signature, and the times in its claims
  pub claims_of : Bytes → Option (Bytes → Option Claim)
  pub is_signed_by : Bytes → PubKey → Bool
  pub are_current : (Bytes → Option Claim) → Bool
  -- a token is valid only if it was parsed, verified by the key that was answered, and is current
  pub jwt_parse-valid :
      (token : Bytes)
      (key_func : (Bytes → Option Claim) → (Bytes → Option Claim) × Result AccessError PubKey)
      → jwt_parse token key_func ≡ ok true
      → (claims : Bytes → Option Claim) × (key : PubKey) × (claims_of token ≡ some claims)
        × ((key_func claims).1 ≡ ok key)
        × (is_signed_by token key ≡ true)
        × (are_current (key_func claims).0 ≡ true)
  -- a panic of the second argument is not recovered
  pub jwt_parse-panics :
      (token : Bytes)
      (key_func : (Bytes → Option Claim) → (Bytes → Option Claim) × Result AccessError PubKey)
      {claims : Bytes → Option Claim}
      → claims_of token ≡ some claims
      → (key_func claims).1 ≡ panic
      → jwt_parse token key_func ≡ panic
  pub decode_admin_request : Bytes → Result Bytes AdminRequest
  pub max_request_body_size_bytes : ℕ

abbrev pub jwt_derived_public_key_claim : Bytes
jwt_derived_public_key_claim = codes "derivedPublicKeyBase58Check"

-- `delete(mapClaims, name)`
unfoldable pub without_claim : Bytes → (Bytes → Option Claim) → Bytes → Option Claim
without_claim name claims key = if bytes_eq name key then none else claims key

-- `for _, k := range keys { if k == key ... }`
unfoldable pub is_listed : Bytes → List Bytes → Bool
is_listed key [] = false
is_listed key (k ∷ keys) = bytes_eq k key || is_listed key keys

-- `len(keys) == 1 && keys[0] == "*"`
unfoldable pub is_open : List Bytes → Bool
is_open [] = false
is_open (k ∷ []) = bytes_eq k (codes "*")
is_open (k ∷ l ∷ keys) = false

-- `ioutil.ReadAll(io.LimitReader(req.Body, limit))`: an error beyond the limit is not met
unfoldable pub read_limited : ℕ → Body → Result Bytes Bytes
read_limited limit body =
    if ltb (length body.content) limit
    then elim body.read_error [ none ↦ ok body.content | some e ↦ err e ]
    else ok (take limit body.content)

-- the levels of an admin who is listed
unfoldable pub may_serve : AccessConfig → AccessLevel → Bytes → Bool
may_serve config admin_access key =
    is_listed key config.admin_public_keys || is_listed key config.super_admin_public_keys
may_serve config public_access key = is_listed key config.super_admin_public_keys
may_serve config super_admin_access key = is_listed key config.super_admin_public_keys

module _ (tl : TokenLib) where
  -- the key of a derived key's claim; a claim that is not a text panics
  unfoldable pub derived_key : Bytes → Claim → Result AccessError tl.PubKey
  derived_key owner other = panic
  derived_key owner (text derived_public_key) = do
    derived_bytes ← or_fail (tl.base58_check_decode derived_public_key) (λ e. bad_derived_key)
    derived ← or_fail (tl.parse_pub_key derived_bytes) (λ e. derived_key_not_parsed)
    view ← or_fail tl.get_augmented_universal_view (λ e. no_view)
    or_fail (tl.validate_derived_key view owner derived_bytes tl.block_tip_height)
          (λ e. derived_key_not_authorized)
        >>= λ u. ok derived

  -- the function that `ValidateJWT` gives to `jwt.Parse`
  unfoldable pub key_of_claims :
      Bytes
      → tl.PubKey
      → (Bytes → Option Claim)
      → (Bytes → Option Claim) × Result AccessError tl.PubKey
  key_of_claims owner key claims =
      let left = without_claim (codes "iat") claims in
      (
        left,
        elim (left jwt_derived_public_key_claim) [
          | none ↦ ok key
          | some claim ↦ derived_key owner claim
        ],
      )

  unfoldable pub validate_jwt : Bytes → Bytes → Result AccessError Bool
  validate_jwt public_key jwt_token = do
    owner ← or_fail (tl.base58_check_decode public_key) (λ e. bad_public_key)
    key ← or_fail (tl.parse_pub_key owner) (λ e. key_not_parsed)
    or_fail (tl.jwt_parse jwt_token (key_of_claims owner key)) (λ e. token_not_verified)

  -- the part below the test of the token
  unfoldable pub serve_valid :
      {R : Type 0}
      → AccessConfig
      → AccessLevel
      → Bytes
      → Result AccessError Bool
      → R
      → Result AccessError R
  serve_valid config level key (ok true) served =
      if may_serve config level key then ok served else err not_an_admin
  serve_valid config level key (ok false) served = err invalid_token
  serve_valid config level key (err e) served = err invalid_token
  serve_valid config level key panic served = panic

  -- the part below the test of the lists
  unfoldable pub serve_body :
      {R : Type 0}
      → AccessConfig
      → (HttpRequest → R)
      → AccessLevel
      → HttpRequest
      → Option Body
      → Result AccessError R
  serve_body config inner level req none = err no_body
  serve_body config inner level req (some body) =
      or_fail (read_limited tl.max_request_body_size_bytes body) (λ e. body_not_read) >>= λ bytes.
      or_fail (tl.decode_admin_request bytes) (λ e. bad_body) >>= λ request.
      if length request.admin_public_key == 0
      then err no_admin_key
      else serve_valid config level request.admin_public_key
          (validate_jwt request.admin_public_key request.jwt)
          (inner (record req { body = some (record { content = bytes; read_error = none }) }))

  unfoldable pub check_admin_public_key :
      {R : Type 0}
      → AccessConfig
      → (HttpRequest → R)
      → AccessLevel
      → HttpRequest
      → Result AccessError R
  check_admin_public_key config inner level req =
      if is_open config.admin_public_keys || is_open config.super_admin_public_keys
      then ok (inner req)
      else serve_body config inner level req req.body

-- `k == key || k == "*"` for one of the keys
unfoldable pub is_listed_or_any : Bytes → List Bytes → Bool
is_listed_or_any key [] = false
is_listed_or_any key (k ∷ keys) =
    (bytes_eq k key || bytes_eq k (codes "*")) || is_listed_or_any key keys

-- `UserAdminStatus` (routes/user.go)
unfoldable pub user_admin_status : AccessConfig → Bytes → Bool × Bool
user_admin_status config key =
    if is_listed_or_any key config.super_admin_public_keys
    then (true, true)
    else if is_listed_or_any key config.admin_public_keys
    then (true, false)
    else (false, false)
