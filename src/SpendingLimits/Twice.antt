-- ===== src/SpendingLimits/Twice.antt =====
-- Maps that are nested twice, as those of the limits on NFTs (routes/transaction.go).
use deso_backend.Base.{◌≡◌, ◌≢◌, refl, [], ◌∷◌, All, Result, ok, arith}
use deso_backend.SpendingLimits.{
  KeyTest, GoMap, find, insert, set_in, to_twice_nested, read_all, from_inner, from_nested,
  from_twice_nested,
}
use deso_backend.SpendingLimits.Maps.{Updates, insert-All}
use deso_backend.SpendingLimits.Levels.{AreNames, read_all_set, read_all_kept, set_in-AreNames}
use deso_backend.SpendingLimits.Nested.{AreTexts, from_inner_set, from_inner_kept}

module _ {A S B V P O E : Type 0} (ka : KeyTest A) (ks : KeyTest S) (kb : KeyTest B)
    (kt : KeyTest ((P × S) × O)) (left : A → Result E P) (right : B → Result E O) (name : P → A)
    (text : O → B) where
  -- the maps of a name, below any name
  abbrev AreInner : GoMap S (GoMap B V) → Type 0
  AreInner w =
      (p : P)
      → AreNames ks kt [] (λ s. ok (p, s)) (λ (z : P × S). z.1) (AreTexts kb kt right text)
          (from_inner kt right) w

  abbrev read_inner :
      P → GoMap S (GoMap B V) → GoMap ((P × S) × O) V → Result E (GoMap ((P × S) × O) V)
  read_inner p w others = from_nested kt right (λ s. ok (p, s)) others w

  inner_set :
      (p : P) (s : S) (o : O) (v : V) (w : GoMap S (GoMap B V)) (r x : GoMap ((P × S) × O) V)
      → right (text o) ≡ ok o
      → AreInner w
      → read_inner p w r ≡ ok x
      → (x' : GoMap ((P × S) × O) V) × (read_inner p (set_in ks [] s (insert kb (text o) v) w) r
          ≡ ok x')
        × Updates kt ((p, s), o) v x x'
  unfolding from_nested from_inner
  inner_set p s o v w r x is_o good h =
      read_all_set ks kt [] (λ s. ok (p, s)) (λ (z : P × S). z.1) (AreTexts kb kt right text)
        (from_inner kt right) s (p, s) ((p, s), o) v (insert kb (text o) v) r w refl refl tt
        (λ r. refl)
        (λ u r x texts e. from_inner_set kb kt right text (p, s) (text o) o v u r is_o refl texts e)
        (λ q apart u r r' x texts up e.
          from_inner_kept kb kt right text q ((p, s), o) v u r r' apart texts up e)
        (good p) h

  inner_kept :
      (p q : P) (s : S) (o : O) (v : V) (w : GoMap S (GoMap B V)) (r r' x : GoMap ((P × S) × O) V)
      → q ≢ p
      → AreInner w
      → Updates kt ((p, s), o) v r r'
      → read_inner q w r ≡ ok x
      → (x' : GoMap ((P × S) × O) V) × (read_inner q w r' ≡ ok x') × Updates kt ((p, s), o) v x x'
  unfolding from_nested
  inner_kept p q s o v w r r' x apart good up h =
      read_all_kept ks kt [] (λ s. ok (q, s)) (λ (z : P × S). z.1) (AreTexts kb kt right text)
        (from_inner kt right) ((p, s), o) v w r r'
        (λ t z is_z u r r' x texts up e.
          from_inner_kept kb kt right text z ((p, s), o) v u r r'
            (λ is. let here : q ≡ p = ground (arith, is_z, is) in apart here) texts up e)
        (good q) up h

  inner_good :
      (s : S) (o : O) (v : V) (w : GoMap S (GoMap B V))
      → right (text o) ≡ ok o
      → AreInner w
      → AreInner (set_in ks [] s (insert kb (text o) v) w)
  inner_good s o v w is_o good q =
      set_in-AreNames ks kt [] (λ s. ok (q, s)) (λ (z : P × S). z.1) (AreTexts kb kt right text)
        (from_inner kt right) (q, s) (insert kb (text o) v) w refl tt
        (λ u texts.
          insert-All kb (λ (e : B × V). (z : O) × (right e.0 ≡ ok z) × (e.0 ≡ text z)) (text o) v u
            (o, is_o, refl) texts)
        (good q)

  abbrev AreTwiceNested : GoMap A (GoMap S (GoMap B V)) → Type 0
  AreTwiceNested m = AreNames ka kt [] left name AreInner read_inner m

  -- keys whose names are read back
  abbrev pub HasNamesTwice : GoMap ((P × S) × O) V → Type 0
  HasNamesTwice m =
      All
        (λ (e : ((P × S) × O) × V).
          (left (name e.0.0.0) ≡ ok e.0.0.0) × (right (text e.0.1) ≡ ok e.0.1))
        m

  twice-AreTwiceNested :
      (m : GoMap ((P × S) × O) V)
      → HasNamesTwice m
      → AreTwiceNested (to_twice_nested ka kb ks name text m)
  unfolding to_twice_nested
  twice-AreTwiceNested [] back = tt
  twice-AreTwiceNested ((((p, s), o), v) ∷ m) ((is_p, is_o), back) =
      set_in-AreNames ka kt [] left name AreInner read_inner p
        (set_in ks [] s (insert kb (text o) v)) (to_twice_nested ka kb ks name text m) is_p
        (λ q. tt) (λ w good. inner_good s o v w is_o good) (twice-AreTwiceNested m back)

  pub from_twice_nested-to_twice_nested :
      (m : GoMap ((P × S) × O) V)
      → HasNamesTwice m
      → (m' : GoMap ((P × S) × O) V) × (from_twice_nested kt left right
            (to_twice_nested ka kb ks name text m)
          ≡ ok m')
        × ((k : (P × S) × O) → find kt k m' ≡ find kt k m)
  unfolding to_twice_nested from_twice_nested from_nested find read_all
  from_twice_nested-to_twice_nested [] back = ([], refl, λ k. refl)
  from_twice_nested-to_twice_nested ((((p, s), o), v) ∷ m) ((is_p, is_o), back) =
      let (m1, f1, same) = from_twice_nested-to_twice_nested m back in
      let (m2, f2, up) =
        read_all_set ka kt [] left name AreInner read_inner (name p) p ((p, s), o) v
          (set_in ks [] s (insert kb (text o) v)) [] (to_twice_nested ka kb ks name text m) is_p
          refl (λ q. tt) (λ r. refl) (λ w r x good e. inner_set p s o v w r x is_o good e)
          (λ q apart w r r' x good up e. inner_kept p q s o v w r r' x apart good up e)
          (twice-AreTwiceNested m back) f1 in
      (m2, f2, λ k. ground (arith, up k, same k))
