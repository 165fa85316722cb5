-- ===== src/Access/Admins.antt =====
-- Who reaches the handler of an admin route (`CheckAdminPublicKey` of routes/server.go, and
-- `UserAdminStatus` of routes/user.go).
use deso_backend.Base.{
  IsIn, ◌≡◌, ◌≢◌, ◌⊎◌, ◌↔◌, inl, inr, refl, sym, ap, ◌∙◌, Bool, true, false, List, [], ◌∷◌, Bytes,
  codes, bytes_eq, bytes_eq_refl, bytes_eq→eq, none, some, Result, ok, err, panic, or_fail,
  Bool-cases, Option-cases, after_step, value_of_or_fail, ◌==◌, length, arith,
}
use deso_backend.Access.{
  AccessLevel, public_access, admin_access, super_admin_access, AccessConfig, Body, HttpRequest,
  AdminRequest, AccessError, bad_body, body_not_read, TokenLib, is_listed, is_listed_or_any,
  is_open, read_limited, validate_jwt, may_serve, serve_valid, serve_body, check_admin_public_key,
  user_admin_status,
}

pub is_listed_iff : (key : Bytes) (keys : List Bytes) → (is_listed key keys ≡ true) ↔ IsIn key keys
unfolding is_listed
is_listed_iff key [] = (λ h. absurd cc, λ h. absurd h)
is_listed_iff key (k ∷ keys) = elim (Bool-cases (bytes_eq k key)) [
  | inl same ↦ (λ h. inl (bytes_eq→eq k key same), λ h. rw same refl)
  | inr differs ↦ (
    λ h. inr ((is_listed_iff key keys).0 (rw differs at h)),
    λ h. elim h [
      | inl e ↦ absurd (cc (differs, bytes_eq_refl k, ap (bytes_eq k) e))
      | inr later ↦ rw (differs, (is_listed_iff key keys).1 later) refl
    ],
  )
]

-- The admins of a level: a super admin for both, and an admin for the lower one.
abbrev pub IsAdmin : AccessConfig → AccessLevel → Bytes → Type 0
IsAdmin config level key =
    ((level ≡ admin_access) × IsIn key config.admin_public_keys)
    ⊎ IsIn key config.super_admin_public_keys

may_serve_iff :
    (config : AccessConfig) (level : AccessLevel) (key : Bytes)
    → (may_serve config level key ≡ true) ↔ IsAdmin config level key
unfolding may_serve
may_serve_iff config public_access key =
    let (there, back) = is_listed_iff key config.super_admin_public_keys in
    (λ h. inr (there h), λ h. elim h [ inl (same, listed) ↦ absurd cc | inr listed ↦ back listed ])
may_serve_iff config super_admin_access key =
    let (there, back) = is_listed_iff key config.super_admin_public_keys in
    (λ h. inr (there h), λ h. elim h [ inl (same, listed) ↦ absurd cc | inr listed ↦ back listed ])
may_serve_iff config admin_access key =
    let (there, back) = is_listed_iff key config.super_admin_public_keys in
    let (there', back') = is_listed_iff key config.admin_public_keys in
    elim (Bool-cases (is_listed key config.admin_public_keys)) [
      | inl e ↦ (λ h. inl (refl, there' e), λ h. rw e refl)
      | inr e ↦ (
        λ h. inr (there (rw e at h)),
        λ h. rw e (elim h [
          | inl (same, listed) ↦ absurd (cc (back' listed, e))
          | inr listed ↦ back listed
        ]),
      )
    ]

module _ (tl : TokenLib) where
  -- What a request is served for: it has a body that is read and decoded, and a key with a valid
  -- token, which is an admin's of the level.
  pub record IsServed (config : AccessConfig) (level : AccessLevel) (req : HttpRequest)
      : Type 0 where
    pub body : Body
    pub bytes : Bytes
    pub request : AdminRequest
    pub has_body : req.body ≡ some body
    pub is_read : read_limited tl.max_request_body_size_bytes body ≡ ok bytes
    pub is_decoded : tl.decode_admin_request bytes ≡ ok request
    pub has_key : request.admin_public_key ≢ []
    pub is_valid : validate_jwt tl request.admin_public_key request.jwt ≡ ok true
    pub is_admin : IsAdmin config level request.admin_public_key

  -- the request that the handler is given: its body can be read again
  abbrev pub read_again : HttpRequest → Bytes → HttpRequest
  read_again req bytes = record req { body = some (record { content = bytes; read_error = none }) }

  module _ {R : Type 0} (config : AccessConfig) (inner : HttpRequest → R)
      (level : AccessLevel) where
    serve_valid_lem :
        (key : Bytes) (valid : Result AccessError Bool) (served r : R)
        → serve_valid tl config level key valid served ≡ ok r
        → (valid ≡ ok true) × IsAdmin config level key × (served ≡ r)
    unfolding serve_valid
    serve_valid_lem key (ok true) served r h = elim (Bool-cases (may_serve config level key)) [
      | inl e ↦ (refl, (may_serve_iff config level key).0 e, ground (arith, e, h))
      | inr e ↦ ground (arith, e, h)
    ]
    serve_valid_lem key (ok false) served r h = cc
    serve_valid_lem key (err e) served r h = cc
    serve_valid_lem key panic served r h = cc

    serve_body_lem :
        (req : HttpRequest) (body : Body) {r : R}
        → req.body ≡ some body
        → serve_body tl config inner level req (some body) ≡ ok r
        → (served : IsServed config level req) × (inner (read_again req served.bytes) ≡ r)
    unfolding serve_body
    serve_body_lem req body e0 h =
        after_step (or_fail (read_limited tl.max_request_body_size_bytes body) (λ e. body_not_read))
          h
          λ bytes e1 h1.
            after_step (or_fail (tl.decode_admin_request bytes) (λ e. bad_body)) h1 λ request e2 h2.
              elim (Bool-cases (length request.admin_public_key == 0)) [
                | inl e ↦ ground (arith, e, h2)
                | inr e ↦
                    let (valid, admin, same) =
                      serve_valid_lem request.admin_public_key
                        (validate_jwt tl request.admin_public_key request.jwt)
                        (inner (read_again req bytes)) _ (rw e at h2) in
                    (
                      record {
                        body = body;
                        bytes = bytes;
                        request = request;
                        has_body = e0;
                        is_read =
                            value_of_or_fail (read_limited tl.max_request_body_size_bytes body) _
                              e1;
                        is_decoded = value_of_or_fail (tl.decode_admin_request bytes) _ e2;
                        has_key = λ x. absurd (ground (arith, x, e));
                        is_valid = valid;
                        is_admin = admin;
                      },
                      same,
                    )
              ]

    served_lem :
        (req : HttpRequest) (served : IsServed config level req)
        → serve_body tl config inner level req (some served.body)
          ≡ ok (inner (read_again req served.bytes))
    unfolding serve_body serve_valid
    served_lem req served =
        let key = served.request.admin_public_key in
        let not_empty : (length key == 0) ≡ false = ground (arith, served.has_key) in
        rw
          (
            served.is_read,
            served.is_decoded,
            not_empty,
            served.is_valid,
            (may_serve_iff config level key).1 served.is_admin,
          )
          refl

    -- Where neither list of admins is "*" alone, CheckAdminPublicKey serves a request exactly when
    -- it has a body that is read and decoded, a key that is not empty with a valid token, and the
    -- key is a super admin's, or an admin's on a route for admins; the answer is the handler's to
    -- the request with the body that was read.
    pub check_admin_public_key_lem :
        (req : HttpRequest) {r : R}
        → is_open config.admin_public_keys ≡ false
        → is_open config.super_admin_public_keys ≡ false
        → (check_admin_public_key tl config inner level req ≡ ok r)
          ↔ ((served : IsServed config level req) × (inner (read_again req served.bytes) ≡ r))
    unfolding check_admin_public_key serve_body
    check_admin_public_key_lem req closed closed' = (
      λ h.
          let below = rw (closed, closed', check_admin_public_key) at h in
          elim (Option-cases req.body) [
            | inl nothing ↦ cc (below, ap (serve_body tl config inner level req) nothing)
            | inr (body, e0) ↦
                serve_body_lem req body e0
                  (sym (ap (serve_body tl config inner level req) e0) ∙ below)
          ],
      λ (served, same).
          rw (closed, closed')
            (ap (serve_body tl config inner level req) served.has_body
              ∙ (served_lem req served ∙ ap ok same)),
    )

  -- Where the list of admins is "*" alone and a key is not among the super admins, every request to
  -- any route is served, a route for super admins included, without a token; UserAdminStatus tells
  -- the key that it is an admin and not a super admin.
  pub open_admins_are_super :
      {R : Type 0} (config : AccessConfig) (inner : HttpRequest → R) (level : AccessLevel)
      (req : HttpRequest) (key : Bytes)
      → config.admin_public_keys ≡ codes "*" ∷ []
      → is_listed_or_any key config.super_admin_public_keys ≡ false
      → (check_admin_public_key tl config inner level req ≡ ok (inner req))
        × (user_admin_status config key ≡ (true, false))
  unfolding check_admin_public_key is_open user_admin_status is_listed_or_any bytes_eq
  open_admins_are_super config inner level req key open_list closed =
      (rw open_list refl, rw (closed, open_list) (ground arith))
