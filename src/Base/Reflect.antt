-- ===== src/Base/Reflect.antt =====
-- What a compound test says, from what its parts say.
use mathlib.Core.Path.{◌≡◌, refl, sym}
use mathlib.Core.Logic.{◌⊎◌, inl, inr, ◌↔◌}
use mathlib.Core.Bool.{Bool, true, false, not, ◌&&◌, ◌||◌}
use mathlib.Core.List.{◌++◌}
use deso_backend.Base.Text.{Bytes, bytes_eq, bytes_eq_refl, bytes_eq→eq}
use deso_backend.Base.Split.{has_prefix, has_prefix-drop, has_prefix-append}
use deso_backend.Base.Lists.{length, drop}
use mathlib.Core.Path.{subst}

module _ {ℓ κ} {P : Type ℓ} {Q : Type κ} where
  pub or_iff : (a b : Bool) → (a ≡ true) ↔ P → (b ≡ true) ↔ Q → ((a || b) ≡ true) ↔ (P ⊎ Q)
  or_iff true b (there, back) h = (λ e. inl (there refl), λ e. refl)
  or_iff false b (there, back) (there', back') =
      (λ e. inr (there' e), λ e. elim e [ inl p ↦ absurd (cc (back p)) | inr q ↦ back' q ])

  pub and_iff : (a b : Bool) → (a ≡ true) ↔ P → (b ≡ true) ↔ Q → ((a && b) ≡ true) ↔ (P × Q)
  and_iff true b (there, back) (there', back') = (λ e. (there refl, there' e), λ (p, q). back' q)
  and_iff false b (there, back) h = (λ e. absurd cc, λ (p, q). absurd (cc (back p)))

pub not_iff {ℓ} : {P : Type ℓ} (a : Bool) → (a ≡ true) ↔ P → (not a ≡ true) ↔ (¬ P)
not_iff true (there, back) = (λ e. absurd cc, λ no_p. absurd (no_p (there refl)))
not_iff false (there, back) = (λ e p. absurd (cc (back p)), λ no_p. refl)

pub bytes_eq_iff : (xs ys : Bytes) → (bytes_eq xs ys ≡ true) ↔ (xs ≡ ys)
bytes_eq_iff xs ys =
    (bytes_eq→eq xs ys, λ e. subst (λ (z : Bytes). bytes_eq xs z ≡ true) e (bytes_eq_refl xs))

pub has_prefix_iff :
    (s prefix : Bytes) → (has_prefix s prefix ≡ true) ↔ ((rest : Bytes) × (s ≡ prefix ++ rest))
has_prefix_iff s prefix = (
  λ h. (drop (length prefix) s, sym (has_prefix-drop s prefix h)),
  λ (rest, e).
      subst (λ (z : Bytes). has_prefix z prefix ≡ true) (sym e) (has_prefix-append prefix rest),
)
