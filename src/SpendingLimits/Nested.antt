-- ===== src/SpendingLimits/Nested.antt =====
-- Nested maps that are filled from a flat one, and read back (routes/transaction.go).
use deso_backend.Base.{
  ◌≡◌, ◌≢◌, inl, inr, refl, sym, ap, subst, ◌∙◌, [], ◌∷◌, All, Result, ok, Bool-cases, arith,
  after_step,
}
use deso_backend.SpendingLimits.{
  KeyTest, GoMap, find, insert, set_nested, to_nested, read_all, from_inner, from_nested,
}
use deso_backend.SpendingLimits.Maps.{
  apart_at, find-insert, Updates, insert-Updates, insert_again-Updates, insert-All,
}
use deso_backend.SpendingLimits.Levels.{AreNames, read_all_set, set_in-AreNames}

module _ {B V P O E : Type 0} (kb : KeyTest B) (kt : KeyTest (P × O)) (right : B → Result E O)
    (text : O → B) where
  -- the texts of a map are those of values that are read back
  abbrev pub AreTexts : GoMap B V → Type 0
  AreTexts inner = All (λ (e : B × V). (o : O) × (right e.0 ≡ ok o) × (e.0 ≡ text o)) inner

  -- a map of another name is read into both
  pub from_inner_kept :
      (p : P) (l : P × O) (v : V) (inner : GoMap B V) (r r' : GoMap (P × O) V) {x : GoMap (P × O) V}
      → p ≢ l.0
      → AreTexts inner
      → Updates kt l v r r'
      → from_inner kt right p inner r ≡ ok x
      → (x' : GoMap (P × O) V) × (from_inner kt right p inner r' ≡ ok x') × Updates kt l v x x'
  unfolding from_inner
  from_inner_kept p l v [] r r' {x} apart texts up h =
      let same : r ≡ x = ground (arith, h) in
      (r', refl, subst (λ (y : GoMap (P × O) V). Updates kt l v y r') same up)
  from_inner_kept p l v ((b, u) ∷ inner) r r' {x} apart ((o, is_o, is_text), texts) up h =
      after_step (from_inner kt right p inner r) h λ others e1 h1.
        let same : insert kt (p, o) u others ≡ x = ground (arith, is_o, h1) in
        let (x1, f1, up1) = from_inner_kept p l v inner r r' apart texts up e1 in
        (
          insert kt (p, o) u x1,
          ground (arith, f1, is_o),
          subst (λ (y : GoMap (P × O) V). Updates kt l v y (insert kt (p, o) u x1)) same
              (insert-Updates kt l (p, o) v u others x1 (λ e. apart (ap (λ (z : P × O). z.0) e))
                up1),
        )

  -- an entry is set in the map of a name
  pub from_inner_set :
      (p : P) (b0 : B) (o0 : O) (v : V) (inner : GoMap B V) (r : GoMap (P × O) V)
      {x : GoMap (P × O) V}
      → right b0 ≡ ok o0
      → b0 ≡ text o0
      → AreTexts inner
      → from_inner kt right p inner r ≡ ok x
      → (x' : GoMap (P × O) V) × (from_inner kt right p (insert kb b0 v inner) r ≡ ok x')
        × Updates kt (p, o0) v x x'
  unfolding from_inner insert
  from_inner_set p b0 o0 v [] r {x} is_o0 is_text0 texts h =
      let same : r ≡ x = ground (arith, h) in
      (
        insert kt (p, o0) v r,
        ground (arith, is_o0),
        subst (λ (y : GoMap (P × O) V). Updates kt (p, o0) v y (insert kt (p, o0) v r)) same
            (λ k. find-insert kt k (p, o0) v r),
      )
  from_inner_set p b0 o0 v ((b, u) ∷ inner) r {x} is_o0 is_text0 ((o, is_o, is_text), texts) h =
      after_step (from_inner kt right p inner r) h λ others e1 h1.
        let same : insert kt (p, o) u others ≡ x = ground (arith, is_o, h1) in
        elim (Bool-cases (kb.same b b0)) [
          | inl e ↦
              let one : o ≡ o0 = ground (arith, is_o, is_o0, kb.same_lem b b0 e) in
              let same0 : insert kt (p, o0) u others ≡ x =
                subst (λ (z : O). insert kt (p, z) u others ≡ x) one same in
              (
                insert kt (p, o0) v others,
                ground (arith, e, e1, is_o0),
                subst (λ (y : GoMap (P × O) V). Updates kt (p, o0) v y (insert kt (p, o0) v others))
                    same0 (insert_again-Updates kt (p, o0) v u others),
              )
          | inr e ↦
              let (x1, f1, up1) = from_inner_set p b0 o0 v inner r is_o0 is_text0 texts e1 in
              let apart = apart_at kb b b0 e in
              (
                insert kt (p, o) u x1,
                ground (arith, e, f1, is_o),
                subst (λ (y : GoMap (P × O) V). Updates kt (p, o0) v y (insert kt (p, o) u x1)) same
                    (insert-Updates kt (p, o0) (p, o) v u others x1
                      (λ is. apart (is_text ∙ ap (λ (z : P × O). text z.1) is ∙ sym is_text0)) up1),
              )
        ]

-- a map that is nested once
module _ {A B V P O E : Type 0} (ka : KeyTest A) (kb : KeyTest B) (kt : KeyTest (P × O))
    (left : A → Result E P) (right : B → Result E O) (name : P → A) (text : O → B) where
  abbrev pub AreNested : GoMap A (GoMap B V) → Type 0
  AreNested m = AreNames ka kt [] left name (AreTexts kb kt right text) (from_inner kt right) m

  pub from_nested_set :
      (p : P) (o : O) (v : V) (start : GoMap (P × O) V) (m : GoMap A (GoMap B V))
      {x : GoMap (P × O) V}
      → left (name p) ≡ ok p
      → right (text o) ≡ ok o
      → AreNested m
      → from_nested kt right left start m ≡ ok x
      → (x' : GoMap (P × O) V) × (from_nested kt right left start
            (set_nested ka kb (name p) (text o) v m)
          ≡ ok x')
        × Updates kt (p, o) v x x'
  unfolding from_nested set_nested from_inner
  from_nested_set p o v start m is_p is_o nested h =
      read_all_set ka kt [] left name (AreTexts kb kt right text) (from_inner kt right) (name p) p
        (p, o) v (insert kb (text o) v) start m is_p refl tt (λ r. refl)
        (λ w r x good e. from_inner_set kb kt right text p (text o) o v w r is_o refl good e)
        (λ q apart w r r' x good up e.
          from_inner_kept kb kt right text q (p, o) v w r r' apart good up e)
        nested h

  set_nested-AreNested :
      (p : P) (o : O) (v : V) (m : GoMap A (GoMap B V))
      → left (name p) ≡ ok p
      → right (text o) ≡ ok o
      → AreNested m
      → AreNested (set_nested ka kb (name p) (text o) v m)
  unfolding set_nested
  set_nested-AreNested p o v m is_p is_o nested =
      set_in-AreNames ka kt [] left name (AreTexts kb kt right text) (from_inner kt right) p
        (insert kb (text o) v) m is_p tt
        (λ w good.
          insert-All kb (λ (e : B × V). (q : O) × (right e.0 ≡ ok q) × (e.0 ≡ text q)) (text o) v w
            (o, is_o, refl) good)
        nested

  -- keys whose two names are read back
  abbrev pub AreReadBack : GoMap (P × O) V → Type 0
  AreReadBack m =
      All (λ (e : (P × O) × V). (left (name e.0.0) ≡ ok e.0.0) × (right (text e.0.1) ≡ ok e.0.1)) m

  to_nested-AreNested :
      (m : GoMap (P × O) V) → AreReadBack m → AreNested (to_nested ka kb name text m)
  unfolding to_nested
  to_nested-AreNested [] back = tt
  to_nested-AreNested (((p, o), v) ∷ m) ((is_p, is_o), back) =
      set_nested-AreNested p o v (to_nested ka kb name text m) is_p is_o
        (to_nested-AreNested m back)

  pub from_nested-to_nested :
      (m : GoMap (P × O) V)
      → AreReadBack m
      → (m' : GoMap (P × O) V) × (from_nested kt right left [] (to_nested ka kb name text m)
          ≡ ok m')
        × ((k : P × O) → find kt k m' ≡ find kt k m)
  unfolding to_nested from_nested find read_all
  from_nested-to_nested [] back = ([], refl, λ k. refl)
  from_nested-to_nested (((p, o), v) ∷ m) ((is_p, is_o), back) =
      let (m1, f1, same) = from_nested-to_nested m back in
      let (m2, f2, up) =
        from_nested_set p o v [] (to_nested ka kb name text m) is_p is_o
          (to_nested-AreNested m back) f1 in
      (m2, f2, λ k. ground (arith, up k, same k))
