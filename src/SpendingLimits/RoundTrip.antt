-- ===== src/SpendingLimits/RoundTrip.antt =====
-- A spending limit that is turned into a response and back (routes/transaction.go).
use deso_backend.Base.{
  ℕ, ◌≡◌, inl, inr, refl, sym, ap, subst, ◌∙◌, [], ◌∷◌, All, Bytes, some, Result, ok, arith,
  Bool-cases,
}
use deso_backend.SpendingLimits.{
  KeyTest, GoMap, find, insert, to_counts, from_counts, bytes_test, number_test, pair_test,
}
use deso_backend.SpendingLimits.Maps.{
  apart_at, find-insert, Updates, insert-Updates, insert_again-Updates, insert-All,
}
use deso_backend.SpendingLimits.Nested.{from_nested-to_nested}
use deso_backend.SpendingLimits.Twice.{from_twice_nested-to_twice_nested}
use deso_backend.SpendingLimits.Convert.{
  LimitLib, LimitError, SpendingLimit, SpendingLimitResponse, creator_name, coin_name, post_name,
  post_hash, get_creator_pkid_for_base58_check, coin_pkid, response_of_limit,
  transaction_spending_limit_to_response, transaction_spending_limit_from_response,
}

module _ {B O V : Type 0} (kb : KeyTest B) (ko : KeyTest O) (text : O → B) (value : B → O) where
  abbrev AreTextsOf : GoMap B V → Type 0
  AreTextsOf m = All (λ (e : B × V). e.0 ≡ text (value e.0)) m

  from_counts_set :
      (b : B) (v : V) (m : GoMap B V)
      → b ≡ text (value b)
      → AreTextsOf m
      → Updates ko
          (value b)
          v
          (from_counts kb ko value m)
          (from_counts kb ko value (insert kb b v m))
  unfolding from_counts insert
  from_counts_set b v [] is_text texts = λ k. find-insert ko k (value b) v []
  from_counts_set b v ((b1, u) ∷ m) is_text (is_text1, texts) = elim (Bool-cases (kb.same b1 b)) [
    | inl e ↦ rw e (
        subst
          (λ (c : B).
            Updates ko (value b) v (insert ko (value c) u (from_counts kb ko value m))
              (insert ko (value b) v (from_counts kb ko value m)))
          (sym (kb.same_lem b1 b e))
          (insert_again-Updates ko (value b) v u (from_counts kb ko value m)))
    | inr e ↦ rw e (
        insert-Updates ko (value b) (value b1) v u (from_counts kb ko value m)
          (from_counts kb ko value (insert kb b v m))
          (λ is. apart_at kb b1 b e (is_text1 ∙ ap text is ∙ sym is_text))
          (from_counts_set b v m is_text texts))
  ]

  to_counts-AreTextsOf :
      (m : GoMap O V)
      → All (λ (e : O × V). value (text e.0) ≡ e.0) m
      → AreTextsOf (to_counts kb ko text m)
  unfolding to_counts
  to_counts-AreTextsOf [] back = tt
  to_counts-AreTextsOf ((o, v) ∷ m) (is_o, back) =
      insert-All kb (λ (e : B × V). e.0 ≡ text (value e.0)) (text o) v (to_counts kb ko text m)
        (ap text (sym is_o)) (to_counts-AreTextsOf m back)

  from_counts-to_counts :
      (m : GoMap O V)
      → All (λ (e : O × V). value (text e.0) ≡ e.0) m
      → (k : O) → find ko k (from_counts kb ko value (to_counts kb ko text m)) ≡ find ko k m
  unfolding to_counts from_counts find
  from_counts-to_counts [] back k = refl
  from_counts-to_counts ((o, v) ∷ m) (is_o, back) k = ground (
    arith,
    is_o,
    from_counts_set (text o) v (to_counts kb ko text m) (ap text (sym is_o))
        (to_counts-AreTextsOf m back) k,
    from_counts-to_counts m back k,
  )

module _ (ll : LimitLib) (view : ll.View) (limit : SpendingLimit) where
  -- the names of the keys of the limit are read back
  pub record HasNames : Type 0 where
    pub types :
        All
          (λ (e : ℕ × ℕ). ll.get_txn_type_from_string (ll.txn_string e.0) ≡ e.0)
          limit.transaction_count_limit_map
    pub creators :
        All
          (λ (e : (Bytes × ℕ) × ℕ).
            (get_creator_pkid_for_base58_check ll view (creator_name ll view e.0.0) ≡ ok e.0.0)
            × (◌≡◌ {A = Result LimitError ℕ}
                (ok (ll.creator_coin_operation (ll.creator_coin_operation_text e.0.1)))
                (ok e.0.1)))
          limit.creator_coin_operation_limit_map
    pub coins :
        All
          (λ (e : (Bytes × ℕ) × ℕ).
            (get_creator_pkid_for_base58_check ll view (creator_name ll view e.0.0) ≡ ok e.0.0)
            × (◌≡◌ {A = Result LimitError ℕ}
                (ok (ll.dao_coin_operation (ll.dao_coin_operation_text e.0.1)))
                (ok e.0.1)))
          limit.dao_coin_operation_limit_map
    pub nfts :
        All
          (λ (e : ((Bytes × ℕ) × ℕ) × ℕ).
            (post_hash ll (post_name ll e.0.0.0) ≡ ok e.0.0.0)
            × (◌≡◌ {A = Result LimitError ℕ}
                (ok (ll.nft_operation (ll.nft_operation_text e.0.1)))
                (ok e.0.1)))
          limit.nft_operation_limit_map
    pub pairs :
        All
          (λ (e : (Bytes × Bytes) × ℕ).
            (coin_pkid ll view (coin_name ll view e.0.0) ≡ ok e.0.0)
            × (coin_pkid ll view (coin_name ll view e.0.1) ≡ ok e.0.1))
          limit.dao_coin_limit_order_limit_map

  -- the two limits have the same fields and find the same under every key
  pub record IsSameLimit (other : SpendingLimit) : Type 0 where
    pub same_global : other.global_deso_limit ≡ limit.global_deso_limit
    pub same_unlimited : other.is_unlimited ≡ limit.is_unlimited
    pub same_counts :
        (t : ℕ)
        → find number_test t other.transaction_count_limit_map
          ≡ find number_test t limit.transaction_count_limit_map
    pub same_creators :
        (k : Bytes × ℕ)
        → find (pair_test bytes_test number_test) k other.creator_coin_operation_limit_map
          ≡ find (pair_test bytes_test number_test) k limit.creator_coin_operation_limit_map
    pub same_coins :
        (k : Bytes × ℕ)
        → find (pair_test bytes_test number_test) k other.dao_coin_operation_limit_map
          ≡ find (pair_test bytes_test number_test) k limit.dao_coin_operation_limit_map
    pub same_nfts :
        (k : (Bytes × ℕ) × ℕ)
        → find
            (pair_test (pair_test bytes_test number_test) number_test)
            k
            other.nft_operation_limit_map
          ≡ find
              (pair_test (pair_test bytes_test number_test) number_test)
              k
              limit.nft_operation_limit_map
    pub same_pairs :
        (k : Bytes × Bytes)
        → find (pair_test bytes_test bytes_test) k other.dao_coin_limit_order_limit_map
          ≡ find (pair_test bytes_test bytes_test) k limit.dao_coin_limit_order_limit_map

  -- A spending limit whose types, operations, PKIDs, posts and coins have names that are read back
  -- as themselves, is turned into a response, and the response back into a limit without an error:
  -- it has the same global limit and flag, and each of its maps finds the same number, or none,
  -- under every key.
  pub limit_from_response_to_response :
      HasNames
      → (response : SpendingLimitResponse) × (other : SpendingLimit)
        × (transaction_spending_limit_to_response ll view (some limit) ≡ some response)
        × (transaction_spending_limit_from_response ll (ok view) response ≡ ok other)
        × IsSameLimit other
  unfolding transaction_spending_limit_to_response transaction_spending_limit_from_response
      response_of_limit
  limit_from_response_to_response names =
      let (cc1, f1, s1) =
        from_nested-to_nested bytes_test bytes_test (pair_test bytes_test number_test)
          (get_creator_pkid_for_base58_check ll view) (λ text. ok (ll.creator_coin_operation text))
          (creator_name ll view) ll.creator_coin_operation_text
          limit.creator_coin_operation_limit_map names.creators in
      let (cc2, f2, s2) =
        from_nested-to_nested bytes_test bytes_test (pair_test bytes_test number_test)
          (get_creator_pkid_for_base58_check ll view) (λ text. ok (ll.dao_coin_operation text))
          (creator_name ll view) ll.dao_coin_operation_text limit.dao_coin_operation_limit_map
          names.coins in
      let (cc3, f3, s3) =
        from_nested-to_nested bytes_test bytes_test (pair_test bytes_test bytes_test)
          (coin_pkid ll view) (coin_pkid ll view) (coin_name ll view) (coin_name ll view)
          limit.dao_coin_limit_order_limit_map names.pairs in
      let (cc4, f4, s4) =
        from_twice_nested-to_twice_nested bytes_test number_test bytes_test
          (pair_test (pair_test bytes_test number_test) number_test) (post_hash ll)
          (λ text. ok (ll.nft_operation text)) (post_name ll) ll.nft_operation_text
          limit.nft_operation_limit_map names.nfts in
      let counts =
        from_counts-to_counts bytes_test number_test ll.txn_string ll.get_txn_type_from_string
          limit.transaction_count_limit_map names.types in
      (
        response_of_limit ll view limit,
        record {
          global_deso_limit = limit.global_deso_limit;
          is_unlimited = limit.is_unlimited;
          transaction_count_limit_map =
              from_counts bytes_test number_test ll.get_txn_type_from_string
                (to_counts bytes_test number_test ll.txn_string limit.transaction_count_limit_map);
          creator_coin_operation_limit_map = cc1;
          dao_coin_operation_limit_map = cc2;
          nft_operation_limit_map = cc4;
          dao_coin_limit_order_limit_map = cc3;
        },
        refl,
        rw (f1, f2, f4, f3) refl,
        record {
          same_global = refl;
          same_unlimited = refl;
          same_counts = counts;
          same_creators = s1;
          same_coins = s2;
          same_nfts = s4;
          same_pairs = s3;
        },
      )
