-- ===== src/SpendingLimits/Maps.antt =====
-- Entries that are set in a Go map (routes/transaction.go).
use deso_backend.Base.{
  ◌≡◌, ◌≢◌, inl, inr, refl, sym, ap, subst, ◌∙◌, false, [], ◌∷◌, All, some, Bool-cases,
  if◌then◌else◌,
}
use deso_backend.SpendingLimits.{KeyTest, GoMap, find, insert}

pub apart_at : {K : Type 0} (kt : KeyTest K) (j l : K) → kt.same j l ≡ false → j ≢ l
apart_at kt j l e is = cc (e, kt.same_refl j, ap (kt.same j) is)

module _ {K V : Type 0} (kt : KeyTest K) where
  pub find-insert :
      (k l : K) (v : V) (m : GoMap K V)
      → find kt k (insert kt l v m) ≡ (if kt.same l k then some v else find kt k m)
  unfolding find insert
  find-insert k l v [] = refl
  find-insert k l v ((j, u) ∷ m) = elim (Bool-cases (kt.same j l)) [
    | inl e ↦ rw e (
        subst
          (λ x.
            (if kt.same l k then some v else find kt k m)
            ≡ (if kt.same l k then some v else (if kt.same x k then some u else find kt k m)))
          (sym (kt.same_lem j l e))
          (elim (Bool-cases (kt.same l k)) [ inl f ↦ rw f refl | inr f ↦ rw f refl ]))
    | inr e ↦ rw e (elim (Bool-cases (kt.same j k)) [
      | inl f ↦ elim (Bool-cases (kt.same l k)) [
        | inr g ↦ rw (f, g) refl
        | inl g ↦ absurd (apart_at kt j l e (kt.same_lem j k f ∙ sym (kt.same_lem l k g)))
      ]
      | inr f ↦ rw f (find-insert k l v m)
    ])
  ]

  -- the second map has the entry, and otherwise what the first one has
  abbrev pub Updates : K → V → GoMap K V → GoMap K V → Type 0
  Updates l v m m' = (k : K) → find kt k m' ≡ (if kt.same l k then some v else find kt k m)

  -- another entry may be set in both
  pub insert-Updates :
      (l j : K) (v u : V) (m m' : GoMap K V)
      → j ≢ l
      → Updates l v m m'
      → Updates l v (insert kt j u m) (insert kt j u m')
  insert-Updates l j v u m m' apart h k =
      rw (find-insert k j u m, find-insert k j u m')
        (elim (Bool-cases (kt.same j k)) [
          | inl e ↦ rw e (elim (Bool-cases (kt.same l k)) [
            | inl f ↦ absurd (apart (kt.same_lem j k e ∙ sym (kt.same_lem l k f)))
            | inr f ↦ rw f refl
          ])
          | inr e ↦ rw e (h k)
        ])

  -- an entry may be set again
  pub insert_again-Updates :
      (l : K) (v u : V) (m : GoMap K V) → Updates l v (insert kt l u m) (insert kt l v m)
  insert_again-Updates l v u m k =
      rw (find-insert k l v m, find-insert k l u m)
        (elim (Bool-cases (kt.same l k)) [ inl f ↦ rw f refl | inr f ↦ rw f refl ])

  pub insert-All :
      (P : K × V → Type 0) (k : K) (v : V) (m : GoMap K V)
      → P (k, v)
      → All P m
      → All P (insert kt k v m)
  unfolding insert
  insert-All P k v [] here all = (here, tt)
  insert-All P k v ((l, u) ∷ m) here (first, all) = elim (Bool-cases (kt.same l k)) [
    | inl e ↦ rw e (here, all)
    | inr e ↦ rw e (first, insert-All P k v m here all)
  ]
