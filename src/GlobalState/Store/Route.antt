-- ===== src/GlobalState/Store/Route.antt =====
-- The routes of the handlers that serve the store (`GlobalStateRoutes` of routes/global_state.go), as
-- the router wraps them (routes/server.go): they are for admins.
use deso_backend.Base.{
  ℕ, ◌≡◌, inl, inr, refl, false, true, ◌||◌, Bool-cases, [], ◌++◌, Bytes, codes, Option, none, some,
  Result, ok, err, panic, length, take, take_all, arith, ltb,
}
use deso_backend.GlobalState.Store.Interface.{Badger, Json, HttpReply, Network}
use deso_backend.GlobalState.Store.Client.{GlobalState, State}
use deso_backend.GlobalState.Store.Server.{status_ok, status_bad_request, bad_request_reply}
use deso_backend.Access.{
  admin_access, AccessConfig, HttpRequest, AdminRequest, AccessError, TokenLib, is_open,
  read_limited, serve_body, check_admin_public_key,
}
use deso_backend.Access.Headers.{Outcome, stopped_ok, bad_request, served, media_type}
use deso_backend.Access.Cors.{add_headers_lem}
use deso_backend.Access.Routes.{guarded, route_handler}

-- what `http.Post` sends for JSON: the route with its query, and a body
abbrev pub post_request : Bytes → Bytes → HttpRequest
post_request uri body = record {
  method = codes "POST";
  request_uri = uri;
  origin = [];
  content_type = codes "application/json";
  body = some (record { content = body; read_error = none });
}

abbrev pub body_of : HttpRequest → Bytes
body_of req = elim req.body [ none ↦ [] | some body ↦ body.content ]

-- the route of a call with the shared secret
abbrev pub uri_of : GlobalState → Bytes → Bytes
uri_of gs route = route ++ (codes "?shared_secret=" ++ gs.remote_secret)

json_media : media_type (codes "application/json") ≡ codes "application/json"
unfolding media_type
json_media = refl

read_limited_lem :
    (limit : ℕ) (body : Bytes)
    → read_limited limit (record { content = body; read_error = none }) ≡ ok (take limit body)
unfolding read_limited
read_limited_lem limit body = elim (Bool-cases (ltb (length body) limit)) [
  | inl e ↦ rw (e, take_all limit body (ground (arith, e))) refl
  | inr e ↦ rw e refl
]

module _ (b : Badger) (j : Json) (n : Network) (tl : TokenLib) (config : AccessConfig) where
  abbrev pub Handler : Type 0
  Handler = Bytes → State b j n → Option HttpReply × State b j n

  -- what is sent for the outcome of a route; `CheckAdminPublicKey` answers an error itself
  unfoldable pub run_outcome :
      Outcome (Result AccessError (State b j n → Option HttpReply × State b j n))
      → State b j n
      → Option HttpReply × State b j n
  run_outcome stopped_ok s = (some (record { status = status_ok; body = [] }), s)
  run_outcome bad_request s = (some (record { status = status_bad_request; body = [] }), s)
  run_outcome (served (ok answer)) s = answer s
  run_outcome (served (err e)) s = (bad_request_reply j (codes "CheckAdminPublicKey"), s)
  run_outcome (served panic) s = (none, s)

  unfoldable pub remote_route : Handler → HttpRequest → State b j n → Option HttpReply × State b j n
  remote_route handler req s =
      run_outcome (route_handler tl config (λ r. handler (body_of r)) admin_access req).outcome s

  -- a POST of JSON passes the headers
  passes :
      (handler : Handler) (uri body : Bytes)
      → (route_handler tl config
          (λ r. handler (body_of r))
          admin_access
          (post_request uri body)).outcome
        ≡ served (
            check_admin_public_key tl config
              (λ r. handler (body_of r))
              admin_access
              (post_request uri body))
  unfolding route_handler guarded
  passes handler uri body =
      (add_headers_lem config.access_control_allow_origins
          (guarded tl config (λ r. handler (body_of r)) admin_access) (post_request uri body) _).1
        (refl, (λ same. cc), inr (λ post. inl json_media))

  pub open_route :
      (handler : Handler) (uri body : Bytes) (s : State b j n)
      → (is_open config.admin_public_keys || is_open config.super_admin_public_keys) ≡ true
      → remote_route handler (post_request uri body) s ≡ handler body s
  unfolding remote_route run_outcome check_admin_public_key
  open_route handler uri body s is_free =
      rw (passes handler uri body) (rw (check_admin_public_key, is_free) refl)

  -- Where no list is "*" alone, a body that is decoded to no key of an admin is refused.
  pub closed_route :
      (handler : Handler) (uri body : Bytes) (s : State b j n) (request : AdminRequest)
      → (is_open config.admin_public_keys || is_open config.super_admin_public_keys) ≡ false
      → tl.decode_admin_request (take tl.max_request_body_size_bytes body) ≡ ok request
      → request.admin_public_key ≡ []
      → remote_route handler (post_request uri body) s
        ≡ (bad_request_reply j (codes "CheckAdminPublicKey"), s)
  unfolding remote_route run_outcome check_admin_public_key serve_body
  closed_route handler uri body s request closed decoded no_key = rw (passes handler uri body) (
      rw
        (
          check_admin_public_key,
          closed,
          serve_body,
          read_limited_lem tl.max_request_body_size_bytes body,
          decoded,
          no_key,
        )
        refl)
