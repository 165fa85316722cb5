-- ===== src/Access/Headers.antt =====
-- `AddHeaders` (routes/server.go): which origins a browser lets read an answer, and which requests
-- go on to the handler.
use deso_backend.Base.{
  Bool, false, not, ◌&&◌, ◌||◌, List, [], ◌∷◌, ◌++◌, Bytes, codes, bytes_eq, Option, none, some,
  ◌==◌, if◌then◌else◌, has_prefix, split, last_two,
}
use deso_backend.Access.{HttpRequest, is_listed}

-- `Access-Control-Allow-...`
pub record CorsHeaders : Type 0 where
  pub allow_credentials : Bytes
  pub allow_origin : Bytes
  pub allow_headers : Bytes
  pub allow_methods : Bytes

pub data Outcome (R : Type 0) : Type 0 where
  stopped_ok bad_request : Outcome R
  served : R → Outcome R

pub record Reply (R : Type 0) : Type 0 where
  pub cors : Option CorsHeaders
  pub outcome : Outcome R

abbrev pub public_routes : List Bytes
public_routes =
    codes "/api/v0/get-jumio-status-for-public-key"
    ∷ codes "/api/v0/upload-video"
    ∷ codes "/api/v0/get-referral-info-for-referral-hash"
    ∷ codes "/api/v0/get-referral-info-for-user"
    ∷ codes "/api/v0/get-verified-usernames"
    ∷ codes "/api/v0/get-blacklisted-public-keys"
    ∷ codes "/api/v0/get-graylisted-public-keys"
    ∷ codes "/api/v0/get-global-feed"
    ∷ codes "/api/v0/delete-pii"
    ∷ codes "/api/v0/get-user-metadata"
    ∷ codes "/api/v0/submit-transaction"
    ∷ codes "/api/v0/get-txn"
    ∷ codes "/api/v0/update-profile"
    ∷ []

abbrev pub route_path_upload_image : Bytes
route_path_upload_image = codes "/api/v0/upload-image"

abbrev pub route_path_upload_video : Bytes
route_path_upload_video = codes "/api/v0/upload-video"

abbrev pub route_path_admin_upload_referral_csv : Bytes
route_path_admin_upload_referral_csv = codes "/api/v0/admin/upload-referral-csv"

abbrev pub route_path_get_video_status : Bytes
route_path_get_video_status = codes "/api/v0/get-video-status"

abbrev pub route_path_get_user_metadata : Bytes
route_path_get_user_metadata = codes "/api/v0/get-user-metadata"

abbrev pub route_path_jumio_callback : Bytes
route_path_jumio_callback = codes "/api/v0/jumio-callback"

-- the last two parts of a host
unfoldable pub domain_of_host : Bytes → Option Bytes
domain_of_host host = elim (last_two (split (codes ".") host).0 (split (codes ".") host).1) [
  | none ↦ none
  | some (a, b) ↦ some (a ++ (codes "." ++ b))
]

-- the host is the part after the first "://"
unfoldable pub domain_of_parts : List Bytes → Option Bytes
domain_of_parts [] = none
domain_of_parts (host ∷ others) = domain_of_host host

unfoldable pub origin_domain : Bytes → Option Bytes
origin_domain origin = domain_of_parts (split (codes "://") origin).1

unfoldable pub is_domain : Bytes → Option Bytes → Bool
is_domain allowed none = false
is_domain allowed (some domain) = bytes_eq domain allowed

unfoldable pub origin_matches : Bytes → List Bytes → Bool
origin_matches origin [] = false
origin_matches origin (allowed ∷ origins) =
    (bytes_eq allowed (codes "*")
      || (bytes_eq allowed origin || is_domain allowed (origin_domain origin)))
    || origin_matches origin origins

-- `strings.SplitN(contentType, ";", 2)[0]`
unfoldable pub media_type : Bytes → Bytes
media_type [] = []
media_type (c ∷ content_type) =
    let rest = media_type content_type in if c == b';' then [] else c ∷ rest

-- the routes that every origin may use: with a form, exactly, or by the front of the address
unfoldable pub is_form_route : HttpRequest → Bool
is_form_route req =
    (bytes_eq req.request_uri route_path_upload_image
      || bytes_eq req.request_uri route_path_admin_upload_referral_csv)
    && bytes_eq (media_type req.content_type) (codes "multipart/form-data")

unfoldable pub has_free_front : Bytes → Bool
has_free_front uri =
    has_prefix uri route_path_get_video_status || has_prefix uri route_path_get_user_metadata

unfoldable pub is_for_all_origins : HttpRequest → Bool
is_for_all_origins req =
    is_form_route req || (is_listed req.request_uri public_routes || has_free_front req.request_uri)

unfoldable pub is_invalid_post : HttpRequest → Bool
is_invalid_post req =
    bytes_eq req.method (codes "POST")
    && (not (bytes_eq (media_type req.content_type) (codes "application/json"))
        && not (bytes_eq req.request_uri route_path_jumio_callback))

unfoldable pub cors_headers : HttpRequest → CorsHeaders
cors_headers req =
    let is_video = bytes_eq req.request_uri route_path_upload_video in
    record {
      allow_credentials = codes "true";
      allow_origin = if is_video then codes "*" else req.origin;
      allow_headers =
          if is_video then codes "*" else codes "Origin, X-Requested-With, Content-Type, Accept";
      allow_methods = codes "GET, PUT, POST, DELETE, OPTIONS";
    }

unfoldable pub add_headers : {R : Type 0} → List Bytes → (HttpRequest → R) → HttpRequest → Reply R
add_headers origins inner req = record {
  cors =
      if is_for_all_origins req || origin_matches req.origin origins
      then some (cors_headers req)
      else none;
  outcome =
      if bytes_eq req.method (codes "OPTIONS")
      then stopped_ok
      else if not (is_for_all_origins req) && is_invalid_post req
      then bad_request
      else served (inner req);
}
