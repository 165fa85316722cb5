-- ===== src/PhoneAmount.antt =====
-- The amount for a verified phone number: `GetPhoneVerificationAmountToSendNanos` of
-- routes/verify.go, with the amounts for country codes of config/config.go.
pub mod Tests
use deso_backend.Base.{
  ℕ, ◌+◌, ◌≤◌, ◌≡◌, ◌↔◌, ◌⊎◌, inl, inr, refl, Bool, true, false, List, [], ◌∷◌, map, Bytes,
  bytes_eq, bytes_eq_refl, Option, none, some, length, All, ltb, if◌then◌else◌, Bool-cases, arith,
}

-- `less` never holds of an item and one before it
abbrev pub Ordered : (Bytes → Bytes → Bool) → List Bytes → Type 0
Ordered less [] = Unit
Ordered less (x ∷ xs) = All (λ y. less y x ≡ false) xs × Ordered less xs

-- `strings.Contains`, and `sort.Slice` on strings: the items stay the same
pub record Strings : Type 1 where
  pub contains : Bytes → Bytes → Bool
  pub sort_slice : (Bytes → Bytes → Bool) → List Bytes → List Bytes
  pub sort_slice-All :
      (less : Bytes → Bytes → Bool) (P : Bytes → Type 0) (xs : List Bytes)
      → All P xs ↔ All P (sort_slice less xs)
  -- for an order by a number
  pub sort_slice-Ordered :
      (f : Bytes → ℕ) (xs : List Bytes)
      → Ordered (λ x y. ltb (f y) (f x)) (sort_slice (λ x y. ltb (f y) (f x)) xs)

-- `StarterPrefixNanosMap`, in the order of one iteration, and `StarterDESONanos`
pub record Config : Type 0 where
  pub starter_prefix_nanos_map : List (Bytes × ℕ)
  pub starter_deso_nanos : ℕ

unfoldable pub find_amount : List (Bytes × ℕ) → Bytes → Option ℕ
find_amount [] key = none
find_amount ((k, amount) ∷ entries) key =
    let rest = find_amount entries key in if bytes_eq k key then some amount else rest

-- a missing key of a map reads as zero
unfoldable pub amount_for_prefix : List (Bytes × ℕ) → Bytes → ℕ
amount_for_prefix entries key = elim (find_amount entries key) [ none ↦ 0 | some amount ↦ amount ]

module _ (st : Strings) (config : Config) where
  -- the loop over the sorted prefixes
  unfoldable pub first_match : Bytes → List Bytes → ℕ
  first_match phone_number [] = config.starter_deso_nanos
  first_match phone_number (prefix ∷ prefixes) =
      let rest = first_match phone_number prefixes in
      if st.contains phone_number prefix
      then amount_for_prefix config.starter_prefix_nanos_map prefix
      else rest

  unfoldable pub get_phone_verification_amount_to_send_nanos : Bytes → ℕ
  get_phone_verification_amount_to_send_nanos phone_number = first_match phone_number (
      st.sort_slice (λ x y. ltb (length y) (length x))
        (map (λ entry. entry.0) config.starter_prefix_nanos_map))

  -- a configured prefix has an amount
  HasAmount : List (Bytes × ℕ) → Bytes → Type 0
  HasAmount entries key = (amount : ℕ) × (find_amount entries key ≡ some amount)

  HasAmount-more :
      (k : Bytes) (a : ℕ) (entries : List (Bytes × ℕ)) (keys : List Bytes)
      → All (HasAmount entries) keys
      → All (HasAmount ((k, a) ∷ entries)) keys
  unfolding HasAmount find_amount
  HasAmount-more k a entries [] h = tt
  HasAmount-more k a entries (key ∷ keys) ((amount, e), hs) = (
    elim (Bool-cases (bytes_eq k key)) [
      | inl same ↦ (a, rw same refl)
      | inr other ↦ (amount, rw (other, e) refl)
    ],
    HasAmount-more k a entries keys hs,
  )

  keys_have_amounts :
      (entries : List (Bytes × ℕ)) → All (HasAmount entries) (map (λ x. x.0) entries)
  unfolding HasAmount find_amount
  keys_have_amounts [] = tt
  keys_have_amounts ((k, a) ∷ entries) =
      ((a, rw (bytes_eq_refl k) refl), HasAmount-more k a entries _ (keys_have_amounts entries))

  -- the prefix `q`, with its amount, is in the number, and none that is in it is longer
  pub record IsLongestMatch (phone_number : Bytes) (prefixes : List Bytes) (amount : ℕ)
      : Type 0 where
    pub prefix : Bytes
    pub matches : st.contains phone_number prefix ≡ true
    pub found : find_amount config.starter_prefix_nanos_map prefix ≡ some amount
    pub longest :
        All (λ p. (st.contains phone_number p ≡ false) ⊎ (length p ≤ length prefix)) prefixes

  All-shorter :
      (phone_number q : Bytes) (ps : List Bytes)
      → All (λ y. ltb (length q) (length y) ≡ false) ps
      → All (λ p. (st.contains phone_number p ≡ false) ⊎ (length p ≤ length q)) ps
  All-shorter phone_number q [] h = tt
  All-shorter phone_number q (p ∷ ps) (h, hs) =
      (inr (ground arith), All-shorter phone_number q ps hs)

  first_match_lem :
      (phone_number : Bytes) (ps : List Bytes)
      → Ordered (λ x y. ltb (length y) (length x)) ps
      → All (HasAmount config.starter_prefix_nanos_map) ps
      → IsLongestMatch phone_number ps (first_match phone_number ps)
        ⊎ (All (λ p. st.contains phone_number p ≡ false) ps
            × (first_match phone_number ps ≡ config.starter_deso_nanos))
  unfolding first_match amount_for_prefix HasAmount
  first_match_lem phone_number [] ordered amounts = inr (tt, refl)
  first_match_lem phone_number (p ∷ ps) (least, ordered) ((a, e), amounts) =
      elim (Bool-cases (st.contains phone_number p)) [
        | inl yes_match ↦ inl (record {
          prefix = p;
          matches = yes_match;
          found = ground (arith, e);
          longest = (inr (omega arith), All-shorter phone_number p ps least);
        })
        | inr no_match ↦ elim (first_match_lem phone_number ps ordered amounts) [
          | inl m ↦ inl (record {
            prefix = m.prefix;
            matches = m.matches;
            found = rw no_match m.found;
            longest = (inl no_match, m.longest);
          })
          | inr (none_match, e') ↦ inr ((no_match, none_match), rw no_match e')
        ]
      ]

  -- The amount for a phone number is that of a configured prefix that stands anywhere in the
  -- number, such that no configured prefix that stands in it is longer; where none stands in it, it
  -- is the default amount.
  pub phone_amount_lem :
      (phone_number : Bytes)
      → let prefixes = map (λ entry. entry.0) config.starter_prefix_nanos_map in
        let amount = get_phone_verification_amount_to_send_nanos phone_number in
        IsLongestMatch phone_number prefixes amount
        ⊎ (All (λ p. st.contains phone_number p ≡ false) prefixes
            × (amount ≡ config.starter_deso_nanos))
  unfolding get_phone_verification_amount_to_send_nanos
  phone_amount_lem phone_number =
      let prefixes = map (λ entry. entry.0) config.starter_prefix_nanos_map in
      let less : Bytes → Bytes → Bool = λ x y. ltb (length y) (length x) in
      let same = λ (P : Bytes → Type 0). st.sort_slice-All less P prefixes in
      elim (first_match_lem phone_number (st.sort_slice less prefixes)
        (st.sort_slice-Ordered length prefixes)
        ((same (HasAmount config.starter_prefix_nanos_map)).0
          (keys_have_amounts config.starter_prefix_nanos_map))) [
            | inl m ↦ inl (record {
              prefix = m.prefix;
              matches = m.matches;
              found = m.found;
              longest =
                  (same
                      (λ p. (st.contains phone_number p ≡ false) ⊎ (length p ≤ length m.prefix))).1
                    m.longest;
            })
            | inr (none_match, e) ↦
                inr ((same (λ p. st.contains phone_number p ≡ false)).1 none_match, e)
          ]
