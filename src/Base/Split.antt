-- ===== src/Base/Split.antt =====
-- `strings.Split` and `strings.HasPrefix`, and what is put together from the parts.
use Prim.Native.Nat.{ℕ, zero, suc, ◌-◌}
use mathlib.Core.Path.{◌≡◌, refl, ap, sym, ◌∙◌}
use mathlib.Core.Logic.{◌⊎◌, inl, inr}
use mathlib.Core.Bool.{Bool, true, false, ◌&&◌}
use mathlib.Core.Option.{Option, none, some}
use mathlib.Core.List.{List, [], ◌∷◌, ◌++◌, append-nil, append_assoc}
use native.Mathlib.Omega.{arith}
use deso_backend.Base.Tests.{◌==◌, if◌then◌else◌, Bool-cases}
use deso_backend.Base.Lists.{length, drop}
use deso_backend.Base.Text.{Bytes}

unfoldable pub has_prefix : Bytes → Bytes → Bool
has_prefix s [] = true
has_prefix [] (p ∷ prefix) = false
has_prefix (c ∷ s) (p ∷ prefix) = (c == p) && has_prefix s prefix

-- the first part, and the parts after it; `skip` bytes of a separator are still to be passed over
unfoldable pub split_from : Bytes → Bytes → ℕ → Bytes → Bytes × List Bytes
split_from sep [] skip part = (part, [])
split_from sep (c ∷ s) (suc skip) part = split_from sep s skip part
split_from sep (c ∷ s) zero part =
    let next = split_from sep s (length sep - 1) [] in
    let same = split_from sep s zero (part ++ c ∷ []) in
    if has_prefix (c ∷ s) sep then (part, next.0 ∷ next.1) else same

-- `strings.Split(s, sep)`, for a separator that is not empty
unfoldable pub split : Bytes → Bytes → Bytes × List Bytes
split sep s = split_from sep s zero []

abbrev pub join_rest : Bytes → List Bytes → Bytes
join_rest sep [] = []
join_rest sep (p ∷ parts) = sep ++ (p ++ join_rest sep parts)

-- the last two parts, where there are two
unfoldable pub last_two : Bytes → List Bytes → Option (Bytes × Bytes)
last_two p [] = none
last_two p (q ∷ []) = some (p, q)
last_two p (q ∷ r ∷ parts) = last_two q (r ∷ parts)

pub has_prefix-drop :
    (s prefix : Bytes) → has_prefix s prefix ≡ true → prefix ++ drop (length prefix) s ≡ s
unfolding has_prefix
has_prefix-drop s [] h = refl
has_prefix-drop [] (p ∷ prefix) h = cc
has_prefix-drop (c ∷ s) (p ∷ prefix) h = ground (arith, h, has_prefix-drop s prefix)

pub has_prefix-append : (prefix rest : Bytes) → has_prefix (prefix ++ rest) prefix ≡ true
unfolding has_prefix
has_prefix-append [] rest = refl
has_prefix-append (p ∷ prefix) rest = ground (arith, has_prefix-append prefix rest)

module _ (d : ℕ) (sep : Bytes) where
  abbrev separator : Bytes
  separator = d ∷ sep

  split_from-join :
      (s : Bytes) (skip : ℕ) (part : Bytes)
      → (split_from separator s skip part).0
          ++ join_rest separator (split_from separator s skip part).1
        ≡ part ++ drop skip s
  unfolding split_from
  split_from-join [] zero part = refl
  split_from-join [] (suc skip) part = refl
  split_from-join (c ∷ s) (suc skip) part = split_from-join s skip part
  split_from-join (c ∷ s) zero part = elim (Bool-cases (has_prefix (c ∷ s) separator)) [
    | inl here ↦
        let skipped : suc (length sep) - 1 ≡ length sep = omega arith in
        rw here (
          rw skipped (
            ap (λ (x : Bytes). part ++ (separator ++ x)) (split_from-join s (length sep) [])
            ∙ ap (λ (x : Bytes). part ++ x) (has_prefix-drop (c ∷ s) separator here)))
    | inr on ↦ rw on (split_from-join s zero (part ++ c ∷ []) ∙ append_assoc part (c ∷ []) s)
  ]

  -- the parts of a text, with the separator between them, are the text
  pub split-join :
      (s : Bytes) → (split separator s).0 ++ join_rest separator (split separator s).1 ≡ s
  unfolding split
  split-join s = split_from-join s zero []

  -- the last two parts end the text, after nothing or after a separator
  pub last_two-ends :
      (p : Bytes) (parts : List Bytes) (a b : Bytes)
      → last_two p parts ≡ some (a, b)
      → (before : Bytes) × (p ++ join_rest separator parts ≡ before ++ (a ++ (separator ++ b)))
        × ((before ≡ []) ⊎ ((sub : Bytes) × (before ≡ sub ++ separator)))
  unfolding last_two
  last_two-ends p [] a b h = cc
  last_two-ends p (q ∷ []) a b h =
      let is_a : p ≡ a = cc h in
      let is_b : q ≡ b = cc h in
      (
        [],
        ap (λ (x : Bytes). x ++ (separator ++ (q ++ []))) is_a
            ∙ ap (λ (x : Bytes). a ++ (separator ++ x)) (append-nil q ∙ is_b),
        inl refl,
      )
  last_two-ends p (q ∷ r ∷ parts) a b h =
      let (before, e, shape) = last_two-ends q (r ∷ parts) a b h in
      (
        p ++ (separator ++ before),
        ap (λ (x : Bytes). p ++ (separator ++ x)) e
            ∙ (ap (λ (x : Bytes). p ++ x) (sym (append_assoc separator before _))
                ∙ sym (append_assoc p (separator ++ before) _)),
        inr (elim shape [
          | inl nothing ↦ (
            p,
            ap (λ (x : Bytes). p ++ (separator ++ x)) nothing
                ∙ ap (λ (x : Bytes). p ++ x) (append-nil separator),
          )
          | inr (sub, f) ↦ (
            p ++ (separator ++ sub),
            ap (λ (x : Bytes). p ++ (separator ++ x)) f
                ∙ (ap (λ (x : Bytes). p ++ x) (sym (append_assoc separator sub separator))
                    ∙ sym (append_assoc p (separator ++ sub) separator)),
          )
        ]),
      )
