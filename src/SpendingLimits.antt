-- ===== src/SpendingLimits.antt =====
-- Spending limits of derived keys (routes/transaction.go): `TransactionSpendingLimitToResponse` and
-- `TransactionSpendingLimitFromResponse`, and the maps that they fill and read.
pub mod Convert
pub mod Maps
pub mod Levels
pub mod Nested
pub mod Twice
pub mod RoundTrip
mod Tests
use deso_backend.Base.{
  ℕ, ◌≡◌, refl, Bool, true, ◌&&◌, List, [], ◌∷◌, Bytes, codes, bytes_eq, bytes_eq_refl, bytes_eq→eq,
  Option, none, some, Result, ok, err, panic, ◌>>=◌, or_fail, ◌==◌, if◌then◌else◌, length, arith,
}

-- the test by which a map finds a key
pub record KeyTest (K : Type 0) : Type 0 where
  pub same : K → K → Bool
  pub same_lem : (k l : K) → same k l ≡ true → k ≡ l
  pub same_refl : (k : K) → same k k ≡ true

-- A Go map: its entries, the last one that `range` visits first.
abbrev pub GoMap : Type 0 → Type 0 → Type 0
GoMap K V = List (K × V)

module _ {K V : Type 0} (kt : KeyTest K) where
  unfoldable pub find : K → GoMap K V → Option V
  find k [] = none
  find k ((l, v) ∷ m) = let rest = find k m in if kt.same l k then some v else rest

  unfoldable pub insert : K → V → GoMap K V → GoMap K V
  insert k v [] = (k, v) ∷ []
  insert k v ((l, u) ∷ m) =
      let rest = insert k v m in if kt.same l k then (k, v) ∷ m else (l, u) ∷ rest

-- A map from names to values, and its value that is set anew: an empty one where there is none.
module _ {A W : Type 0} (ka : KeyTest A) (empty : W) where
  unfoldable pub value_at : A → GoMap A W → W
  value_at a m = elim (find ka a m) [ none ↦ empty | some w ↦ w ]

  unfoldable pub set_in : A → (W → W) → GoMap A W → GoMap A W
  set_in a put m = insert ka a (put (value_at a m)) m

module _ {A B V : Type 0} (ka : KeyTest A) (kb : KeyTest B) where
  unfoldable pub set_nested : A → B → V → GoMap A (GoMap B V) → GoMap A (GoMap B V)
  set_nested a b v m = set_in ka [] a (insert kb b v) m

  -- the loop that fills a nested map
  unfoldable pub to_nested :
      {P O : Type 0} → (P → A) → (O → B) → GoMap (P × O) V → GoMap A (GoMap B V)
  to_nested name text [] = []
  to_nested name text (((p, o), v) ∷ m) =
      let rest = to_nested name text m in set_nested (name p) (text o) v rest

  -- the loop that fills a map that is nested twice
  unfoldable pub to_twice_nested :
      {P S O : Type 0}
      → KeyTest S
      → (P → A)
      → (O → B)
      → GoMap ((P × S) × O) V
      → GoMap A (GoMap S (GoMap B V))
  to_twice_nested ks name text [] = []
  to_twice_nested ks name text ((((p, s), o), v) ∷ m) =
      let rest = to_twice_nested ks name text m in
      set_in ka [] (name p) (set_in ks [] s (insert kb (text o) v)) rest

-- the loop over the names of a map, which reads each value onto what was read
unfoldable pub read_all :
    {A W P E M : Type 0} → (A → Result E P) → (P → W → M → Result E M) → M → GoMap A W → Result E M
read_all left read start [] = ok start
read_all left read start ((a, w) ∷ m) =
    let rest = read_all left read start m in rest >>= λ others. left a >>= λ p. read p w others

module _ {B V P O E : Type 0} (kt : KeyTest (P × O)) (right : B → Result E O) where
  -- the innermost loop, over the texts of one name
  unfoldable pub from_inner : P → GoMap B V → GoMap (P × O) V → Result E (GoMap (P × O) V)
  from_inner p [] rest = ok rest
  from_inner p ((b, v) ∷ inner) rest =
      let others = from_inner p inner rest in
      others >>= λ m. right b >>= λ o. ok (insert kt (p, o) v m)

  unfoldable pub from_nested :
      {A : Type 0}
      → (A → Result E P)
      → GoMap (P × O) V
      → GoMap A (GoMap B V)
      → Result E (GoMap (P × O) V)
  from_nested left start m = read_all left from_inner start m

unfoldable pub from_twice_nested :
    {A S B V P O E : Type 0}
    → KeyTest ((P × S) × O)
    → (A → Result E P)
    → (B → Result E O)
    → GoMap A (GoMap S (GoMap B V))
    → Result E (GoMap ((P × S) × O) V)
from_twice_nested kt left right m =
    read_all left (λ p w others. from_nested kt right (λ s. ok (p, s)) others w) [] m

module _ {B O V : Type 0} (kb : KeyTest B) (ko : KeyTest O) where
  -- the loops over a map that is not nested
  unfoldable pub to_counts : (O → B) → GoMap O V → GoMap B V
  to_counts text [] = []
  to_counts text ((o, v) ∷ m) = let rest = to_counts text m in insert kb (text o) v rest

  unfoldable pub from_counts : (B → O) → GoMap B V → GoMap O V
  from_counts value [] = []
  from_counts value ((b, v) ∷ m) = let rest = from_counts value m in insert ko (value b) v rest

abbrev pub bytes_test : KeyTest Bytes
bytes_test = record { same = bytes_eq; same_lem = bytes_eq→eq; same_refl = bytes_eq_refl }

pub same_number : (k l : ℕ) → (k == l) ≡ true → k ≡ l
same_number k l h = ground (arith, h)

pub number_refl : (k : ℕ) → (k == k) ≡ true
number_refl k = ground arith

abbrev pub number_test : KeyTest ℕ
number_test = record { same = ◌==◌; same_lem = same_number; same_refl = number_refl }

module _ {P O : Type 0} (kp : KeyTest P) (ko : KeyTest O) where
  pub same_pair : (k l : P × O) → (kp.same k.0 l.0 && ko.same k.1 l.1) ≡ true → k ≡ l
  same_pair (p, o) (q, u) h = ground (arith, h, kp.same_lem p q, ko.same_lem o u)

  pub pair_refl : (k : P × O) → (kp.same k.0 k.0 && ko.same k.1 k.1) ≡ true
  pair_refl (p, o) = ground (arith, kp.same_refl p, ko.same_refl o)

  abbrev pub pair_test : KeyTest (P × O)
  pair_test = record {
    same = λ k l. kp.same k.0 l.0 && ko.same k.1 l.1;
    same_lem = same_pair;
    same_refl = pair_refl;
  }
