-- ===== src/Access/Status.antt =====
-- What a user is told of its rights (`UserAdminStatus` of routes/user.go), beside what the routes let it
-- do (`CheckAdminPublicKey` of routes/server.go).
use deso_backend.Base.{
  IsIn, ◌≡◌, ◌↔◌, inl, inr, refl, Bool-cases, true, List, [], ◌∷◌, Bytes, codes, bytes_eq,
  bytes_eq_iff,
}
use deso_backend.Access.{
  admin_access, super_admin_access, AccessConfig, is_listed, is_listed_or_any, user_admin_status,
}
use deso_backend.Access.Admins.{is_listed_iff, IsAdmin}

listed_or_any_lem :
    (key : Bytes) (keys : List Bytes)
    → ¬ IsIn (codes "*") keys
    → is_listed_or_any key keys ≡ is_listed key keys
unfolding is_listed_or_any is_listed
listed_or_any_lem key [] no_star = refl
listed_or_any_lem key (k ∷ keys) no_star = elim (Bool-cases (bytes_eq k (codes "*"))) [
  | inl e ↦ absurd (no_star (inl ((bytes_eq_iff _ _).0 e)))
  | inr e ↦ elim (Bool-cases (bytes_eq k key)) [
    | inl f ↦ rw f refl
    | inr f ↦ rw (e, f) (listed_or_any_lem key keys (λ h. no_star (inr h)))
  ]
]

-- Where "*" stands in neither list of admins, a user is told to be an admin exactly when its key is
-- one that the routes for admins accept, and to be a super admin exactly when the routes for super
-- admins accept it.
pub user_admin_status_lem :
    (config : AccessConfig) (key : Bytes)
    → ¬ IsIn (codes "*") config.admin_public_keys
    → ¬ IsIn (codes "*") config.super_admin_public_keys
    → (((user_admin_status config key).0 ≡ true) ↔ IsAdmin config admin_access key)
      × (((user_admin_status config key).1 ≡ true) ↔ IsAdmin config super_admin_access key)
unfolding user_admin_status
user_admin_status_lem config key no_star no_star' =
    let (there, back) = is_listed_iff key config.super_admin_public_keys in
    let (there', back') = is_listed_iff key config.admin_public_keys in
    rw
      (
        listed_or_any_lem key config.super_admin_public_keys no_star',
        listed_or_any_lem key config.admin_public_keys no_star,
      )
      (elim (Bool-cases (is_listed key config.super_admin_public_keys)) [
        | inl e ↦ rw e ((λ h. inr (there e), λ h. refl), (λ h. inr (there e), λ h. refl))
        | inr e ↦ elim (Bool-cases (is_listed key config.admin_public_keys)) [
          | inl f ↦
              rw (e, f)
                (
                  (λ h. inl (refl, there' f), λ h. refl),
                  (
                    λ h. absurd cc,
                    λ h. elim h [
                      | inl (same, listed) ↦ absurd cc
                      | inr listed ↦ cc (back listed, e)
                    ],
                  ),
                )
          | inr f ↦
              rw (e, f)
                (
                  (
                    λ h. absurd cc,
                    λ h. elim h [
                      | inl (same, listed) ↦ cc (back' listed, f)
                      | inr listed ↦ cc (back listed, e)
                    ],
                  ),
                  (
                    λ h. absurd cc,
                    λ h. elim h [
                      | inl (same, listed) ↦ absurd cc
                      | inr listed ↦ cc (back listed, e)
                    ],
                  ),
                )
        ]
      ])
