-- ===== src/Base/Members.antt =====
-- Membership of byte strings in a list, and lists that hold each of theirs once.
use mathlib.Core.Path.{◌≡◌, sym}
use mathlib.Core.Logic.{◌⊎◌, inl, inr}
use mathlib.Core.List.{List, [], ◌∷◌, ◌++◌}
use deso_backend.Base.Text.{Bytes}

abbrev pub IsIn : {A : Type 0} → A → List A → Type 0
IsIn key [] = ⊥
IsIn key (k ∷ keys) = (k ≡ key) ⊎ IsIn key keys

abbrev pub Distinct : List Bytes → Type 0
Distinct [] = Unit
Distinct (key ∷ keys) = (¬ IsIn key keys) × Distinct keys

pub IsIn-append :
    (key : Bytes) (xs ys : List Bytes) → IsIn key (xs ++ ys) → IsIn key xs ⊎ IsIn key ys
IsIn-append key [] ys h = inr h
IsIn-append key (x ∷ xs) ys h = elim h [
  | inl e ↦ inl (inl e)
  | inr later ↦ elim (IsIn-append key xs ys later) [ inl a ↦ inl (inr a) | inr b ↦ inr b ]
]

-- a new one at the end
pub Distinct-snoc :
    (key : Bytes) (keys : List Bytes)
    → ¬ IsIn key keys
    → Distinct keys
    → Distinct (keys ++ key ∷ [])
Distinct-snoc key [] new h = (λ x. x, tt)
Distinct-snoc key (k ∷ keys) new (first, rest) = (
  λ h. elim (IsIn-append k keys (key ∷ []) h) [
    | inl a ↦ first a
    | inr b ↦ elim b [ inl e ↦ new (inl (sym e)) | inr nowhere ↦ nowhere ]
  ],
  Distinct-snoc key keys (λ h. new (inr h)) rest,
)
