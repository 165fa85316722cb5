-- ===== src/Access/Routes.antt =====
-- The order in which a route wraps its handler (`NewRouter` of routes/server.go): the headers come
-- first, then the check of admins. What is logged of a request changes nothing.
use deso_backend.Base.{◌≡◌, ◌≢◌, ◌⊎◌, refl, false, codes, Result, ok}
use deso_backend.Access.{
  AccessLevel, public_access, admin_access, super_admin_access, AccessConfig, HttpRequest,
  AccessError, TokenLib, is_open, check_admin_public_key,
}
use deso_backend.Access.Headers.{served, Reply, add_headers}
use deso_backend.Access.Cors.{IsForAllOrigins, HasMark, add_headers_lem}
use deso_backend.Access.Tokens.{IsSignedFor, validate_jwt_lem}
use deso_backend.Access.Admins.{IsServed, read_again, check_admin_public_key_lem}

module _ (tl : TokenLib) {R : Type 0} (config : AccessConfig) (inner : HttpRequest → R) where
  -- the check, on a route that is not public
  unfoldable pub guarded : AccessLevel → HttpRequest → Result AccessError R
  guarded public_access req = ok (inner req)
  guarded admin_access req = check_admin_public_key tl config inner admin_access req
  guarded super_admin_access req = check_admin_public_key tl config inner super_admin_access req

  unfoldable pub route_handler : AccessLevel → HttpRequest → Reply (Result AccessError R)
  route_handler level req = add_headers config.access_control_allow_origins (guarded level) req

  guarded_lem :
      (level : AccessLevel) (req : HttpRequest) {r : R}
      → level ≢ public_access
      → is_open config.admin_public_keys ≡ false
      → is_open config.super_admin_public_keys ≡ false
      → guarded level req ≡ ok r
      → (s : IsServed tl config level req) × (inner (read_again tl req s.bytes) ≡ r)
  unfolding guarded
  guarded_lem public_access req not_public closed closed' h = absurd (not_public refl)
  guarded_lem admin_access req not_public closed closed' h =
      (check_admin_public_key_lem tl config inner admin_access req closed closed').0 h
  guarded_lem super_admin_access req not_public closed closed' h =
      (check_admin_public_key_lem tl config inner super_admin_access req closed closed').0 h

  -- Where neither list of admins is "*" alone, the handler of a route that is not public answers a
  -- request only if: the request has a body that is read and decoded, and a key whose token is
  -- valid; the token is current and signed by that key or by a derived key that the token names and
  -- that the chain authorizes for it; the key is a super admin's, or an admin's on a route for
  -- admins; the method is not OPTIONS; and a POST is of JSON or goes to the callback of Jumio,
  -- unless the request is one that every origin may make. The answer is the handler's to the
  -- request, with its body as it was read.
  pub route_handler-IsServed :
      (level : AccessLevel) (req : HttpRequest) (r : R)
      → level ≢ public_access
      → is_open config.admin_public_keys ≡ false
      → is_open config.super_admin_public_keys ≡ false
      → (route_handler level req).outcome ≡ served (ok r)
      → (s : IsServed tl config level req) × IsSignedFor tl s.request.admin_public_key s.request.jwt
        × (req.method ≢ codes "OPTIONS")
        × (IsForAllOrigins req ⊎ HasMark req)
        × (inner (read_again tl req s.bytes) ≡ r)
  unfolding route_handler
  route_handler-IsServed level req r not_public closed closed' h =
      let (answer, no_options, marked) =
        (add_headers_lem config.access_control_allow_origins (guarded level) req (ok r)).0 h in
      let (s, same) = guarded_lem level req not_public closed closed' answer in
      (
        s,
        validate_jwt_lem tl s.request.admin_public_key s.request.jwt s.is_valid,
        no_options,
        marked,
        same,
      )
