-- ===== src/Access/Cors.antt =====
-- What the headers let through: an independent description of `AddHeaders` (routes/server.go).
use deso_backend.Base.{
  IsIn, ◌≡◌, ◌≢◌, ◌⊎◌, ◌↔◌, inl, inr, refl, sym, ap, ◌∙◌, Bool, Bool-cases, true, false, not, ◌&&◌,
  List, [], ◌∷◌, ◌++◌, Bytes, codes, bytes_eq, bytes_eq_iff, Option-cases, some, or_iff, and_iff,
  not_iff, has_prefix_iff, if◌then◌else◌, split, split-join, last_two, last_two-ends, join_rest,
  arith,
}
use deso_backend.Access.{HttpRequest, is_listed}
use deso_backend.Access.Admins.{is_listed_iff}
use deso_backend.Access.Headers.{
  CorsHeaders, stopped_ok, bad_request, served, public_routes, route_path_upload_image,
  route_path_admin_upload_referral_csv, route_path_get_video_status, route_path_get_user_metadata,
  route_path_jumio_callback, domain_of_host, domain_of_parts, origin_domain, is_domain,
  origin_matches, media_type, is_form_route, has_free_front, is_for_all_origins, is_invalid_post,
  add_headers,
}

-- The requests that every origin may make.
abbrev pub IsForAllOrigins : HttpRequest → Type 0
IsForAllOrigins req =
    (((req.request_uri ≡ route_path_upload_image)
        ⊎ (req.request_uri ≡ route_path_admin_upload_referral_csv))
      × (media_type req.content_type ≡ codes "multipart/form-data"))
    ⊎ (IsIn req.request_uri public_routes
        ⊎ (((rest : Bytes) × (req.request_uri ≡ route_path_get_video_status ++ rest))
            ⊎ ((rest : Bytes) × (req.request_uri ≡ route_path_get_user_metadata ++ rest))))

pub is_for_all_origins_iff :
    (req : HttpRequest) → (is_for_all_origins req ≡ true) ↔ IsForAllOrigins req
unfolding is_for_all_origins is_form_route has_free_front
is_for_all_origins_iff req =
    let uri = req.request_uri in
    or_iff _ _
      (and_iff _ _
        (or_iff _ _ (bytes_eq_iff uri route_path_upload_image)
          (bytes_eq_iff uri route_path_admin_upload_referral_csv))
        (bytes_eq_iff (media_type req.content_type) (codes "multipart/form-data")))
      (or_iff _ _ (is_listed_iff uri public_routes) (
        or_iff _ _ (has_prefix_iff uri route_path_get_video_status)
          (has_prefix_iff uri route_path_get_user_metadata)))

is_invalid_post_iff :
    (req : HttpRequest)
    → (is_invalid_post req ≡ true) ↔ (
        (req.method ≡ codes "POST")
        × (media_type req.content_type ≢ codes "application/json")
        × (req.request_uri ≢ route_path_jumio_callback))
unfolding is_invalid_post
is_invalid_post_iff req =
    let (there, back) = and_iff _ _ (bytes_eq_iff req.method (codes "POST")) (
      and_iff _ _
        (not_iff _ (bytes_eq_iff (media_type req.content_type) (codes "application/json")))
        (not_iff _ (bytes_eq_iff req.request_uri route_path_jumio_callback))) in
    (λ h. let (a, b) = there h in (a, b.0, b.1), λ (a, b, c). back (a, (b, c)))

outcome_iff :
    {R : Type 0} (stop wide bad : Bool) (x r : R)
    → ((if stop then stopped_ok else if not wide && bad then bad_request else served x) ≡ served r)
      ↔ ((x ≡ r) × (stop ≡ false) × ((wide ≡ true) ⊎ (bad ≡ false)))
outcome_iff true wide bad x r = (λ h. absurd cc, λ (a, b, c). absurd cc)
outcome_iff false true bad x r =
    (λ h. (ground (arith, h), refl, inl refl), λ (a, b, c). ap served a)
outcome_iff false false true x r =
    (λ h. absurd cc, λ (a, b, c). elim c [ inl e ↦ absurd cc | inr e ↦ absurd cc ])
outcome_iff false false false x r =
    (λ h. (ground (arith, h), refl, inr refl), λ (a, b, c). ap served a)

false_iff {ℓ} : {P : Type ℓ} (a : Bool) → (a ≡ true) ↔ P → (a ≡ false) ↔ (¬ P)
false_iff true (there, back) = (λ e. absurd cc, λ no_p. absurd (no_p (there refl)))
false_iff false (there, back) = (λ e p. absurd (cc (back p)), λ no_p. refl)

-- a POST has one of the two marks
abbrev pub HasMark : HttpRequest → Type 0
HasMark req =
    (req.method ≡ codes "POST")
    → (media_type req.content_type ≡ codes "application/json")
      ⊎ (req.request_uri ≡ route_path_jumio_callback)

valid_post_iff : (req : HttpRequest) → (is_invalid_post req ≡ false) ↔ HasMark req
valid_post_iff req =
    let (there, back) = false_iff (is_invalid_post req) (is_invalid_post_iff req) in
    let json = bytes_eq_iff (media_type req.content_type) (codes "application/json") in
    let jumio = bytes_eq_iff req.request_uri route_path_jumio_callback in
    (
      λ h post.
          elim (Bool-cases (bytes_eq (media_type req.content_type) (codes "application/json"))) [
            | inl e ↦ inl (json.0 e)
            | inr e ↦ elim (Bool-cases (bytes_eq req.request_uri route_path_jumio_callback)) [
              | inl f ↦ inr (jumio.0 f)
              | inr f ↦ absurd (there h (post, (false_iff _ json).0 e, (false_iff _ jumio).0 f))
            ]
          ],
      λ marked. back λ (post, not_json, not_jumio). elim (marked post) [
        | inl e ↦ not_json e
        | inr e ↦ not_jumio e
      ],
    )

-- AddHeaders passes a request on to the handler exactly when its method is not OPTIONS and it is
-- one that every origin may make (a form to upload-image or upload-referral-csv, or any request to
-- a public route or to an address that begins as one of two do), or if it is a POST, it is of JSON
-- or goes to the callback of Jumio.
pub add_headers_lem :
    {R : Type 0} (origins : List Bytes) (inner : HttpRequest → R) (req : HttpRequest) (r : R)
    → ((add_headers origins inner req).outcome ≡ served r)
      ↔ ((inner req ≡ r) × (req.method ≢ codes "OPTIONS") × (IsForAllOrigins req ⊎ HasMark req))
unfolding add_headers
add_headers_lem origins inner req r =
    let (there, back) =
      outcome_iff (bytes_eq req.method (codes "OPTIONS")) (is_for_all_origins req)
        (is_invalid_post req) (inner req) r in
    let options = false_iff _ (bytes_eq_iff req.method (codes "OPTIONS")) in
    let wide = is_for_all_origins_iff req in
    let valid = valid_post_iff req in
    (
      λ h.
          let (a, b, c) = there h in
          (a, options.0 b, elim c [ inl e ↦ inl (wide.0 e) | inr e ↦ inr (valid.0 e) ]),
      λ (a, b, c).
          back (a, options.1 b, elim c [ inl e ↦ inl (wide.1 e) | inr e ↦ inr (valid.1 e) ]),
    )

-- The origin is listed, or any is, or its host is a listed domain or below it.
abbrev pub IsUnder : Bytes → Bytes → Type 0
IsUnder domain origin =
    (before : Bytes) × (sub : Bytes) × (after : Bytes) × (origin
      ≡ before ++ (codes "://" ++ ((sub ++ domain) ++ after)))
    × ((sub ≡ []) ⊎ ((s : Bytes) × (sub ≡ s ++ codes ".")))
    × ((after ≡ []) ⊎ ((rest : Bytes) × (after ≡ codes "://" ++ rest)))

abbrev pub IsAllowed : Bytes → List Bytes → Type 0
IsAllowed origin origins =
    (allowed : Bytes) × IsIn allowed origins
    × ((allowed ≡ codes "*") ⊎ ((allowed ≡ origin) ⊎ IsUnder allowed origin))

join_rest_shape :
    (parts : List Bytes)
    → (join_rest (codes "://") parts ≡ [])
      ⊎ ((rest : Bytes) × (join_rest (codes "://") parts ≡ codes "://" ++ rest))
join_rest_shape [] = inl refl
join_rest_shape (p ∷ parts) = inr (p ++ join_rest (codes "://") parts, refl)

domain_of_host-ends :
    (host domain : Bytes)
    → domain_of_host host ≡ some domain
    → (sub : Bytes) × (host ≡ sub ++ domain) × ((sub ≡ []) ⊎ ((s : Bytes) × (sub ≡ s ++ codes ".")))
unfolding domain_of_host
domain_of_host-ends host domain h =
    let parts = split (codes ".") host in
    elim (Option-cases (last_two parts.0 parts.1)) [
      | inl e ↦ ground (arith, e, h)
      | inr ((a, b), e) ↦
          let (before, joined, shape) = last_two-ends b'.' [] parts.0 parts.1 a b e in
          let whole = split-join b'.' [] host in
          (
            before,
            sym whole
                ∙ (joined ∙ ap (λ (x : Bytes). before ++ x) (cc (rw (e, domain_of_host) at h))),
            shape,
          )
    ]

-- the parts of an origin, the host first among those after the scheme
domain_of_parts-IsUnder :
    (origin domain scheme : Bytes) (parts : List Bytes)
    → scheme ++ join_rest (codes "://") parts ≡ origin
    → domain_of_parts parts ≡ some domain
    → IsUnder domain origin
unfolding domain_of_parts
domain_of_parts-IsUnder origin domain scheme [] e h = cc
domain_of_parts-IsUnder origin domain scheme (host ∷ parts) e h =
    let (sub, is_host, shape) = domain_of_host-ends host domain h in
    (
      scheme,
      sub,
      join_rest (codes "://") parts,
      sym e
          ∙ ap (λ (x : Bytes). scheme ++ (codes "://" ++ (x ++ join_rest (codes "://") parts)))
              is_host,
      shape,
      join_rest_shape parts,
    )

origin_domain-IsUnder :
    (origin domain : Bytes) → origin_domain origin ≡ some domain → IsUnder domain origin
unfolding origin_domain
origin_domain-IsUnder origin domain h =
    domain_of_parts-IsUnder origin domain (split (codes "://") origin).0
      (split (codes "://") origin).1 (split-join b':' (codes "//") origin) (h)

is_domain-IsUnder :
    (origin allowed : Bytes)
    → is_domain allowed (origin_domain origin) ≡ true
    → IsUnder allowed origin
unfolding is_domain
is_domain-IsUnder origin allowed h = elim (Option-cases (origin_domain origin)) [
  | inl e ↦ ground (arith, e, h)
  | inr (domain, e) ↦
      let same : domain ≡ allowed = (bytes_eq_iff domain allowed).0 (rw (e, is_domain) at h) in
      origin_domain-IsUnder origin allowed (e ∙ ap some same)
]

origin_matches-IsAllowed :
    (origin : Bytes) (origins : List Bytes)
    → origin_matches origin origins ≡ true
    → IsAllowed origin origins
unfolding origin_matches
origin_matches-IsAllowed origin [] h = cc
origin_matches-IsAllowed origin (allowed ∷ origins) h =
    elim (Bool-cases (bytes_eq allowed (codes "*"))) [
      | inl e ↦ (allowed, inl refl, inl ((bytes_eq_iff _ _).0 e))
      | inr e ↦ elim (Bool-cases (bytes_eq allowed origin)) [
        | inl f ↦ (allowed, inl refl, inr (inl ((bytes_eq_iff _ _).0 f)))
        | inr f ↦ elim (Bool-cases (is_domain allowed (origin_domain origin))) [
          | inl g ↦ (allowed, inl refl, inr (inr (is_domain-IsUnder origin allowed g)))
          | inr g ↦
              let (listed, is_listed, fits) =
                origin_matches-IsAllowed origin origins (rw (e, f, g) at h) in
              (listed, inr is_listed, fits)
        ]
      ]
    ]

-- AddHeaders lets a browser's page read the answer only if the request is one that every origin may
-- make, or its origin is listed, or "*" is, or a listed domain ends the host of its origin, after
-- nothing or after a point, where the host follows a "://" and ends with the origin or before
-- another one.
pub add_headers-IsAllowed :
    {R : Type 0} (origins : List Bytes) (inner : HttpRequest → R) (req : HttpRequest)
    {cors : CorsHeaders}
    → (add_headers origins inner req).cors ≡ some cors
    → IsForAllOrigins req ⊎ IsAllowed req.origin origins
unfolding add_headers
add_headers-IsAllowed origins inner req h = elim (Bool-cases (is_for_all_origins req)) [
  | inl e ↦ inl ((is_for_all_origins_iff req).0 e)
  | inr e ↦ elim (Bool-cases (origin_matches req.origin origins)) [
    | inl f ↦ inr (origin_matches-IsAllowed req.origin origins f)
    | inr f ↦ ground (arith, e, f, h)
  ]
]
