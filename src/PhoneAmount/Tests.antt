-- ===== src/PhoneAmount/Tests.antt =====
-- The amount for a number with two country codes in it.
use deso_backend.Base.{
  ℕ, ◌≡◌, ◌↔◌, ◌⊎◌, Bool, false, ◌||◌, List, [], ◌∷◌, Bytes, codes, bytes_eq, length, take, All,
  ltb, ◌==◌, if◌then◌else◌, Bool-cases, inl, inr, arith,
}
use deso_backend.PhoneAmount.{
  Ordered, Strings, Config, get_phone_verification_amount_to_send_nanos, IsLongestMatch,
  phone_amount_lem,
}

abbrev pub contains : Bytes → Bytes → Bool
contains [] part = length part == 0
contains (x ∷ text) part = bytes_eq (take (length part) (x ∷ text)) part || contains text part

-- insertion into a sorted list
unfoldable pub insert : (Bytes → Bytes → Bool) → Bytes → List Bytes → List Bytes
insert less x [] = x ∷ []
insert less x (y ∷ ys) = let rest = insert less x ys in if less y x then y ∷ rest else x ∷ (y ∷ ys)

unfoldable pub sort : (Bytes → Bytes → Bool) → List Bytes → List Bytes
sort less [] = []
sort less (x ∷ xs) = insert less x (sort less xs)

module _ (less : Bytes → Bytes → Bool) (P : Bytes → Type 0) where
  insert-All : (x : Bytes) (ys : List Bytes) → (P x × All P ys) ↔ All P (insert less x ys)
  unfolding insert
  insert-All x [] = (λ h. h, λ h. h)
  insert-All x (y ∷ ys) = elim (Bool-cases (less y x)) [
    | inl before ↦ rw before (
      λ (px, (py, pys)). (py, (insert-All x ys).0 (px, pys)),
      λ (py, rest). let (px, pys) = (insert-All x ys).1 rest in (px, (py, pys)),
    )
    | inr after ↦ rw after (λ h. h, λ h. h)
  ]

  pub sort-All : (xs : List Bytes) → All P xs ↔ All P (sort less xs)
  unfolding sort
  sort-All [] = (λ h. h, λ h. h)
  sort-All (x ∷ xs) = (
    λ (px, pxs). (insert-All x (sort less xs)).0 (px, (sort-All xs).0 pxs),
    λ h. let (px, rest) = (insert-All x (sort less xs)).1 h in (px, (sort-All xs).1 rest),
  )

module _ (f : Bytes → ℕ) where
  abbrev longer : Bytes → Bytes → Bool
  longer x y = ltb (f y) (f x)

  All-trans :
      (x y : Bytes) (zs : List Bytes)
      → longer y x ≡ false
      → All (λ z. longer z y ≡ false) zs
      → All (λ z. longer z x ≡ false) zs
  All-trans x y [] h hs = tt
  All-trans x y (z ∷ zs) h (hz, hs) = (ground arith, All-trans x y zs h hs)

  insert-Ordered :
      (x : Bytes) (ys : List Bytes) → Ordered longer ys → Ordered longer (insert longer x ys)
  unfolding insert
  insert-Ordered x [] h = (tt, tt)
  insert-Ordered x (y ∷ ys) (least, h) = elim (Bool-cases (longer y x)) [
    | inl before ↦ rw before (
      (insert-All longer (λ z. longer z y ≡ false) x ys).0 (ground arith, least),
      insert-Ordered x ys h,
    )
    | inr after ↦ rw after ((after, All-trans x y ys after least), (least, h))
  ]

  pub sort-Ordered : (xs : List Bytes) → Ordered longer (sort longer xs)
  unfolding sort
  sort-Ordered [] = tt
  sort-Ordered (x ∷ xs) = insert-Ordered x (sort longer xs) (sort-Ordered xs)

abbrev pub strings : Strings
strings = record {
  contains = contains;
  sort_slice = sort;
  sort_slice-All = sort-All;
  sort_slice-Ordered = sort-Ordered;
}

abbrev pub config : Config
config = record {
  starter_prefix_nanos_map = (codes "+1", 100) ∷ ((codes "+123", 200) ∷ []);
  starter_deso_nanos = 50;
}

phone_amount_lem_example :
    IsLongestMatch strings config
      (codes "+12345")
      (codes "+1" ∷ (codes "+123" ∷ []))
      (get_phone_verification_amount_to_send_nanos strings config (codes "+12345"))
    ⊎ (All (λ p. contains (codes "+12345") p ≡ false) (codes "+1" ∷ (codes "+123" ∷ []))
        × (get_phone_verification_amount_to_send_nanos strings config (codes "+12345") ≡ 50))
phone_amount_lem_example = phone_amount_lem strings config (codes "+12345")
