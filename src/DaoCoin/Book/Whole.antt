-- ===== src/DaoCoin/Book/Whole.antt =====
-- No order of the two coins is passed over by `GetDAOCoinLimitOrders`
-- (routes/dao_coin_exchange.go).
use deso_backend.Base.{
  ◌≡◌, Bytes, refl, sym, ◌⊎◌, inl, inr, List, [], ◌∷◌, ◌++◌, Result-cases, ok, err, All, fail_if,
  IsIn, value_of_or_fail, after_step, or_fail, ◌&&◌,
}
use deso_backend.Core.{Core, OrderEntry}
use deso_backend.DaoCoin.Types.{Error, external, is_deso, both_coins_deso}
use deso_backend.DaoCoin.Book.{
  OrderResponse, GetDaoCoinLimitOrdersRequest, build_order_response, append_response,
  build_responses_for_coin_pair, get_dao_coin_limit_orders, bad_request, internal_server_error,
  requested_coin_pkid,
}
use deso_backend.DaoCoin.Book.Coins.{IsCoinPkid, requested-IsCoinPkid}

pub All-weaken :
    {A : Type 0} {P Q : A → Type 0} (xs : List A) → ((x : A) → P x → Q x) → All P xs → All Q xs
All-weaken [] weaken h = tt
All-weaken (x ∷ xs) weaken (p, h) = (weaken x p, All-weaken xs weaken h)

IsIn-left : {A : Type 0} (x : A) (xs ys : List A) → IsIn x xs → IsIn x (xs ++ ys)
IsIn-left x [] ys h = absurd h
IsIn-left x (y ∷ xs) ys (inl e) = inl e
IsIn-left x (y ∷ xs) ys (inr h) = inr (IsIn-left x xs ys h)

IsIn-right : {A : Type 0} (x : A) (xs ys : List A) → IsIn x ys → IsIn x (xs ++ ys)
IsIn-right x [] ys h = h
IsIn-right x (y ∷ xs) ys h = inr (IsIn-right x xs ys h)

module _ (c : Core) (view : c.View) where
  -- the response of the order is among the answers, or it cannot be built
  abbrev pub IsAnswered : Bytes → Bytes → List (OrderResponse c.Float) → OrderEntry → Type 0
  IsAnswered buying selling rs order =
      let r =
        build_order_response c
          (c.base58_check_encode (c.get_public_key_for_pkid view order.transactor_pkid)) buying
          selling order in
      ((o : OrderResponse c.Float) × (r ≡ ok o) × IsIn o rs) ⊎ ((e : Error) × (r ≡ err e))

  module _ (buying selling : Bytes) where
    more_answers :
        (rs more : List (OrderResponse c.Float))
        → ((o : OrderResponse c.Float) → IsIn o rs → IsIn o more)
        → (order : OrderEntry) → IsAnswered buying selling rs order
        → IsAnswered buying selling more order
    more_answers rs more into order (inl (o, e, h)) = inl (o, e, into o h)
    more_answers rs more into order (inr failed) = inr failed

    responses-All :
        (orders : List OrderEntry) {rs : List (OrderResponse c.Float)}
        → build_responses_for_coin_pair c view buying selling orders ≡ ok rs
        → All (IsAnswered buying selling rs) orders
    unfolding build_responses_for_coin_pair append_response
    responses-All [] h = tt
    responses-All (order ∷ orders) {rs} h =
        elim (Result-cases (
          build_order_response c
            (c.base58_check_encode (c.get_public_key_for_pkid view order.transactor_pkid)) buying
            selling order)) [
              | inl (o, e) ↦
                  after_step (build_responses_for_coin_pair c view buying selling orders)
                    (rw (build_responses_for_coin_pair, e, append_response) at h)
                    λ rest e1 h1.
                      let made : o ∷ rest ≡ rs = cc h1 in
                      (
                        inl (o, e, rw (sym made) (inl refl)),
                        All-weaken orders
                            (more_answers rest rs (λ x later. rw (sym made) (inr later)))
                            (responses-All orders e1),
                      )
              | inr (inl (x, e)) ↦ (
                inr (x, e),
                responses-All orders (rw (build_responses_for_coin_pair, e, append_response) at h),
              )
              | inr (inr e) ↦
                  absurd (cc (rw (build_responses_for_coin_pair, e, append_response) at h))
            ]

  -- Each order that the view has for the PKIDs of the two coins, either way round, is answered.
  pub record IsWholeBook (r : GetDaoCoinLimitOrdersRequest) (rs : List (OrderResponse c.Float))
      : Type 0 where
    pub pkid1 : Bytes
    pub pkid2 : Bytes
    pub orders1 : List OrderEntry
    pub orders2 : List OrderEntry
    pub is_pkid1 : IsCoinPkid c view r.dao_coin1_creator_public_key pkid1
    pub is_pkid2 : IsCoinPkid c view r.dao_coin2_creator_public_key pkid2
    pub are_orders1 : c.get_orders_for_pair view pkid1 pkid2 ≡ ok orders1
    pub are_orders2 : c.get_orders_for_pair view pkid2 pkid1 ≡ ok orders2
    pub answered1 :
        All (IsAnswered r.dao_coin1_creator_public_key r.dao_coin2_creator_public_key rs) orders1
    pub answered2 :
        All (IsAnswered r.dao_coin2_creator_public_key r.dao_coin1_creator_public_key rs) orders2

  pub get_dao_coin_limit_orders-IsWholeBook :
      (request : GetDaoCoinLimitOrdersRequest) {rs : List (OrderResponse c.Float)}
      → get_dao_coin_limit_orders c (ok request) (ok view) ≡ ok rs
      → IsWholeBook request rs
  unfolding get_dao_coin_limit_orders
  get_dao_coin_limit_orders-IsWholeBook request {rs} h =
      let coin1 = request.dao_coin1_creator_public_key in
      let coin2 = request.dao_coin2_creator_public_key in
      let failed = λ (e : Bytes). internal_server_error (external e) in
      after_step (fail_if (is_deso coin1 && is_deso coin2) (bad_request both_coins_deso)) h
        λ u e1 h1. after_step (requested_coin_pkid c view coin1) h1 λ pkid1 e2 h2.
          after_step (requested_coin_pkid c view coin2) h2 λ pkid2 e3 h3.
            after_step (or_fail (c.get_orders_for_pair view pkid1 pkid2) failed) h3 λ orders1 e4 h4.
              after_step (or_fail (c.get_orders_for_pair view pkid2 pkid1) failed) h4
                λ orders2 e5 h5.
                  let side1 = build_responses_for_coin_pair c view coin1 coin2 orders1 in
                  let side2 = build_responses_for_coin_pair c view coin2 coin1 orders2 in
                  after_step (or_fail side1 bad_request) h5 λ rs1 e6 h6.
                    after_step (or_fail side2 bad_request) h6 λ rs2 e7 h7.
                      let made : rs1 ++ rs2 ≡ rs = cc h7 in
                      record {
                        pkid1 = pkid1;
                        pkid2 = pkid2;
                        orders1 = orders1;
                        orders2 = orders2;
                        is_pkid1 = requested-IsCoinPkid c view coin1 pkid1 e2;
                        is_pkid2 = requested-IsCoinPkid c view coin2 pkid2 e3;
                        are_orders1 =
                            value_of_or_fail (c.get_orders_for_pair view pkid1 pkid2) failed e4;
                        are_orders2 =
                            value_of_or_fail (c.get_orders_for_pair view pkid2 pkid1) failed e5;
                        answered1 =
                            All-weaken orders1
                              (more_answers coin1 coin2 rs1 rs
                                (λ o here. rw (sym made) (IsIn-left o rs1 rs2 here)))
                              (responses-All coin1 coin2 orders1
                                (value_of_or_fail side1 bad_request e6));
                        answered2 =
                            All-weaken orders2
                              (more_answers coin2 coin1 rs2 rs
                                (λ o here. rw (sym made) (IsIn-right o rs1 rs2 here)))
                              (responses-All coin2 coin1 orders2
                                (value_of_or_fail side2 bad_request e7));
                      }
