-- ===== src/Access/Tests.antt =====
-- Requests to routes on concrete inputs. A token of the model is a kind, and the key that signed it; of the
-- second kind, the claim of a derived key is not a text.
use deso_backend.Base.{
  IsIn, ℕ, ◌≡◌, ◌≢◌, ◌⊎◌, ◌↔◌, inl, inr, refl, Bool, true, false, [], ◌∷◌, Bytes, codes, bytes_eq,
  Option, none, some, Result, ok, err, panic, ◌==◌, if◌then◌else◌, arith, has_prefix, split,
  last_two, split_from,
}
use deso_backend.Access.{
  admin_access, super_admin_access, AccessConfig, HttpRequest, AdminRequest, Claim, other,
  AccessError, TokenLib, jwt_derived_public_key_claim, is_listed, is_listed_or_any, is_open,
  read_limited, without_claim, derived_key, key_of_claims, validate_jwt, may_serve, serve_valid,
  serve_body, check_admin_public_key, user_admin_status,
}
use deso_backend.Access.Tokens.{IsSignedFor, validate_jwt_panics}
use deso_backend.Access.Admins.{
  IsAdmin, IsServed, read_again, check_admin_public_key_lem, open_admins_are_super,
}
use deso_backend.Access.Status.{user_admin_status_lem}
use deso_backend.Access.Headers.{
  served, origin_domain, domain_of_host, domain_of_parts, is_domain, origin_matches, media_type,
  is_form_route, has_free_front, is_for_all_origins, is_invalid_post, add_headers, cors_headers,
}
use deso_backend.Access.Cors.{
  IsForAllOrigins, HasMark, IsAllowed, add_headers_lem, add_headers-IsAllowed,
}
use deso_backend.Access.Routes.{guarded, route_handler, route_handler-IsServed}

abbrev pub Claims : Type 0
Claims = Bytes → Option Claim

unfoldable pub no_claims : Claims
no_claims name = none

pub strange_claims : Claims
strange_claims name = if bytes_eq name jwt_derived_public_key_claim then some other else none

unfoldable pub model_claims : Bytes → Option Claims
model_claims [] = none
model_claims (kind ∷ key) = some (if kind == 1 then strange_claims else no_claims)

unfoldable pub model_signed : Bytes → Bytes → Bool
model_signed [] key = false
model_signed (kind ∷ signer) key = bytes_eq signer key

unfoldable pub model_answer : Bytes → Result AccessError Bytes → Result Bytes Bool
model_answer token (ok key) = ok (model_signed token key)
model_answer token (err e) = err []
model_answer token panic = panic

unfoldable pub model_parse :
    Bytes → (Claims → Claims × Result AccessError Bytes) → Result Bytes Bool
model_parse token key_func = elim (model_claims token) [
  | none ↦ err []
  | some claims ↦ model_answer token (key_func claims).1
]

model_answer-valid :
    (token : Bytes) (answer : Result AccessError Bytes)
    → model_answer token answer ≡ ok true
    → (key : Bytes) × (answer ≡ ok key) × (model_signed token key ≡ true)
unfolding model_answer
model_answer-valid token (ok key) h = (key, refl, ground (arith, h))
model_answer-valid token (err e) h = cc
model_answer-valid token panic h = cc

pub model_parse-valid :
    (token : Bytes) (key_func : Claims → Claims × Result AccessError Bytes)
    → model_parse token key_func ≡ ok true
    → (claims : Claims) × (key : Bytes) × (model_claims token ≡ some claims)
      × ((key_func claims).1 ≡ ok key)
      × (model_signed token key ≡ true)
      × ◌≡◌ {A = Bool} true true
unfolding model_parse model_claims
model_parse-valid [] key_func h = absurd cc
model_parse-valid (kind ∷ signer) key_func h =
    let claims : Claims = if kind == 1 then strange_claims else no_claims in
    let (key, answered, signed) = model_answer-valid (kind ∷ signer) (key_func claims).1 h in
    (claims, key, refl, answered, signed, refl)

pub model_parse-panics :
    (token : Bytes) (key_func : Claims → Claims × Result AccessError Bytes) {claims : Claims}
    → model_claims token ≡ some claims
    → (key_func claims).1 ≡ panic
    → model_parse token key_func ≡ panic
unfolding model_parse model_answer
model_parse-panics token key_func e f = rw (e, model_parse) (rw f refl)

-- the body of a request is a key of one byte, and the token
unfoldable pub model_request : Bytes → Result Bytes AdminRequest
model_request [] = err []
model_request (k ∷ token) = ok (record { jwt = token; admin_public_key = k ∷ [] })

abbrev pub token_lib : TokenLib
token_lib = record {
  View = Unit {0};
  PubKey = Bytes;
  base58_check_decode = ok;
  parse_pub_key = ok;
  get_augmented_universal_view = ok tt;
  block_tip_height = 1;
  validate_derived_key = λ view owner derived height. ok tt;
  jwt_parse = model_parse;
  claims_of = model_claims;
  is_signed_by = model_signed;
  are_current = λ claims. true;
  jwt_parse-valid = model_parse-valid;
  jwt_parse-panics = model_parse-panics;
  decode_admin_request = model_request;
  max_request_body_size_bytes = 10;
}

abbrev config : AccessConfig
config = record {
  admin_public_keys = (1 ∷ []) ∷ [];
  super_admin_public_keys = (2 ∷ []) ∷ [];
  access_control_allow_origins = codes "my.com" ∷ [];
}

-- Admin 1 sends a token of the first kind that it signed.
abbrev by_admin : HttpRequest
by_admin = record {
  method = codes "POST";
  request_uri = codes "/api/v0/admin/x";
  origin = codes "https://node.my.com";
  content_type = codes "application/json; charset=utf-8";
  body = some (record { content = 1 ∷ 0 ∷ 1 ∷ []; read_error = none });
}

abbrev handler : HttpRequest → ℕ
handler req = 7

admin_served :
    (route_handler token_lib config handler admin_access by_admin).outcome ≡ served (ok 7)
unfolding route_handler guarded check_admin_public_key add_headers is_open bytes_eq serve_body
    read_limited model_request validate_jwt key_of_claims without_claim derived_key model_parse
    model_answer model_signed model_claims no_claims serve_valid may_serve is_listed
    is_for_all_origins is_form_route has_free_front has_prefix is_invalid_post media_type
admin_served = refl

not_super : check_admin_public_key token_lib config handler super_admin_access by_admin ≢ ok 7
unfolding check_admin_public_key is_open bytes_eq serve_body read_limited model_request validate_jwt
    key_of_claims without_claim derived_key model_parse model_answer model_signed model_claims
    no_claims serve_valid may_serve is_listed
not_super = cc

abbrev closed_config : AccessConfig
closed_config = record {
  admin_public_keys = codes "*" ∷ [];
  super_admin_public_keys = (2 ∷ []) ∷ [];
  access_control_allow_origins = [];
}

not_listed : is_listed_or_any (1 ∷ []) closed_config.super_admin_public_keys ≡ false
unfolding is_listed_or_any bytes_eq
not_listed = refl

admins_closed : is_open config.admin_public_keys ≡ false
unfolding is_open bytes_eq
admins_closed = refl

supers_closed : is_open config.super_admin_public_keys ≡ false
unfolding is_open bytes_eq
supers_closed = refl

no_star : (k : ℕ) → (k == b'*') ≡ false → ¬ IsIn (codes "*") ((k ∷ []) ∷ [])
no_star k h = λ listed. elim listed [ inl e ↦ ground (arith, e, h) | inr none_listed ↦ none_listed ]

my_cors : (add_headers (codes "my.com" ∷ []) handler by_admin).cors ≡ some (cors_headers by_admin)
unfolding add_headers is_for_all_origins is_form_route has_free_front has_prefix is_listed bytes_eq
    origin_matches is_domain origin_domain domain_of_parts domain_of_host split split_from last_two
    media_type
my_cors = refl

strange_token : strange_claims jwt_derived_public_key_claim ≡ some other
unfolding strange_claims bytes_eq
strange_token = refl

strange_parsed : model_claims (1 ∷ []) ≡ some strange_claims
unfolding model_claims
strange_parsed = refl

route_handler-IsServed_example :
    (s : IsServed token_lib config admin_access by_admin) × IsSignedFor token_lib
      s.request.admin_public_key s.request.jwt
    × (by_admin.method ≢ codes "OPTIONS")
    × (IsForAllOrigins by_admin ⊎ HasMark by_admin)
    × (handler (read_again token_lib by_admin s.bytes) ≡ 7)
route_handler-IsServed_example =
    route_handler-IsServed token_lib config handler admin_access by_admin 7 (cc) admins_closed
      supers_closed admin_served

check_admin_public_key_lem_example :
    (check_admin_public_key token_lib config handler admin_access by_admin ≡ ok 7) ↔ (
      (s : IsServed token_lib config admin_access by_admin) × (handler
          (read_again token_lib by_admin s.bytes)
        ≡ 7))
check_admin_public_key_lem_example =
    check_admin_public_key_lem token_lib config handler admin_access by_admin admins_closed
      supers_closed

open_admins_are_super_example :
    (check_admin_public_key token_lib closed_config handler super_admin_access by_admin
      ≡ ok (handler by_admin))
    × (user_admin_status closed_config (1 ∷ []) ≡ (true, false))
open_admins_are_super_example =
    open_admins_are_super token_lib closed_config handler super_admin_access by_admin (1 ∷ []) refl
      not_listed

validate_jwt_panics_example : validate_jwt token_lib (5 ∷ []) (1 ∷ []) ≡ panic
validate_jwt_panics_example =
    validate_jwt_panics token_lib (5 ∷ []) (1 ∷ []) (5 ∷ []) (5 ∷ []) strange_claims refl refl
      strange_parsed strange_token

user_admin_status_lem_example :
    (((user_admin_status config (1 ∷ [])).0 ≡ true) ↔ IsAdmin config admin_access (1 ∷ []))
    × (((user_admin_status config (1 ∷ [])).1 ≡ true) ↔ IsAdmin config super_admin_access (1 ∷ []))
user_admin_status_lem_example =
    user_admin_status_lem config (1 ∷ []) (no_star 1 refl) (no_star 2 refl)

add_headers_lem_example :
    ((add_headers (codes "my.com" ∷ []) handler by_admin).outcome ≡ served 7) ↔ (
      (handler by_admin ≡ 7)
      × (by_admin.method ≢ codes "OPTIONS")
      × (IsForAllOrigins by_admin ⊎ HasMark by_admin))
add_headers_lem_example = add_headers_lem (codes "my.com" ∷ []) handler by_admin 7

add_headers-IsAllowed_example :
    IsForAllOrigins by_admin ⊎ IsAllowed by_admin.origin (codes "my.com" ∷ [])
add_headers-IsAllowed_example = add_headers-IsAllowed (codes "my.com" ∷ []) handler by_admin my_cors
