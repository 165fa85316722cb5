-- ===== src/DaoCoin/Book/Pairs.antt =====
-- The orders that `GetDAOCoinLimitOrders` answers with (routes/dao_coin_exchange.go).
use deso_backend.Base.{
  ◌≡◌, Bytes, refl, ◌⊎◌, inl, inr, List, [], ◌∷◌, Result, ok, err, panic, arith, All, All-append,
  Yields, value, error, panics, Yields-value, Yields-bind, Yields-or_fail, fail_if, IsIn,
  value_of_or_fail, after_step, or_fail, ◌&&◌,
}
use deso_backend.Core.{Core, OrderEntry}
use deso_backend.DaoCoin.Types.{Error, external, is_deso, both_coins_deso}
use deso_backend.DaoCoin.Book.{
  OrderResponse, GetDaoCoinLimitOrdersRequest, build_order_response, append_response,
  build_responses_for_coin_pair, get_dao_coin_limit_orders, bad_request, internal_server_error,
  requested_coin_pkid,
}
use deso_backend.DaoCoin.Book.Coins.{IsCoinPkid, requested-IsCoinPkid}
use deso_backend.DaoCoin.Book.Whole.{All-weaken, IsWholeBook, get_dao_coin_limit_orders-IsWholeBook}

All-stand : {A : Type 0} (xs : List A) → All (λ x. IsIn x xs) xs
All-stand [] = tt
All-stand (x ∷ xs) = (inl refl, All-weaken xs (λ y h. inr h) (All-stand xs))

module _ (c : Core) where
  -- The response is for an order that stands in the book of its two coins: the buying coin and the
  -- selling coin are those of the request, and the order is one that the view has for their PKIDs.
  pub record IsFromBook (r : GetDaoCoinLimitOrdersRequest) (view : c.View)
      (o : OrderResponse c.Float) : Type 0 where
    pub coins :
        (o.buying_coin_public_key ≡ r.dao_coin1_creator_public_key)
          × (o.selling_coin_public_key ≡ r.dao_coin2_creator_public_key)
        ⊎ (o.buying_coin_public_key ≡ r.dao_coin2_creator_public_key)
          × (o.selling_coin_public_key ≡ r.dao_coin1_creator_public_key)
    pub buying_pkid : Bytes
    pub selling_pkid : Bytes
    pub is_buying : IsCoinPkid c view o.buying_coin_public_key buying_pkid
    pub is_selling : IsCoinPkid c view o.selling_coin_public_key selling_pkid
    pub orders : List OrderEntry
    pub in_view : c.get_orders_for_pair view buying_pkid selling_pkid ≡ ok orders
    pub order : OrderEntry
    pub stands : IsIn order orders
    pub is_order : o.order_id ≡ order.order_id
    pub is_transactor :
        o.transactor_public_key
        ≡ c.base58_check_encode (c.get_public_key_for_pkid view order.transactor_pkid)

  -- what a response has of its order
  abbrev IsLabelled : Bytes → Bytes → Bytes → OrderEntry → OrderResponse c.Float → Type 0
  IsLabelled transactor buying selling order o =
      (o.buying_coin_public_key ≡ buying)
      × (o.selling_coin_public_key ≡ selling)
      × (o.order_id ≡ order.order_id)
      × (o.transactor_public_key ≡ transactor)

  build_order_response-IsLabelled :
      (transactor buying selling : Bytes) (order : OrderEntry) {o : OrderResponse c.Float}
      → build_order_response c transactor buying selling order ≡ ok o
      → IsLabelled transactor buying selling order o
  unfolding build_order_response
  build_order_response-IsLabelled transactor buying selling order h = ground arith

  abbrev transactor_of : c.View → OrderEntry → Bytes
  transactor_of view order =
      c.base58_check_encode (c.get_public_key_for_pkid view order.transactor_pkid)

  module _ (P : OrderResponse c.Float → Type 0) (Q : OrderEntry → Type 0) (view : c.View)
      (buying selling : Bytes)
      (each : (o : OrderResponse c.Float) (order : OrderEntry)
        → Q order
        → IsLabelled (transactor_of view order) buying selling order o
        → P o) where
    response-Yields :
        (order : OrderEntry)
        → Q order
        → Yields P (build_order_response c (transactor_of view order) buying selling order)
    response-Yields order q =
        go (build_order_response c (transactor_of view order) buying selling order) refl
      where
        go :
            (r : Result Error (OrderResponse c.Float))
            → build_order_response c (transactor_of view order) buying selling order ≡ r
            → Yields P r
        go (ok o) e = value (
            each o order q
              (build_order_response-IsLabelled (transactor_of view order) buying selling order e))
        go (err e) same = error
        go panic same = panics

    append_response-All :
        {r : Result Error (OrderResponse c.Float)}
        {rest : Result Error (List (OrderResponse c.Float))}
        → Yields P r
        → Yields (All P) rest
        → Yields (All P) (append_response c r rest)
    unfolding append_response
    append_response-All (value h) (value hs) = value (h, hs)
    append_response-All (value h) error = error
    append_response-All (value h) panics = panics
    append_response-All error hs = hs
    append_response-All panics hs = panics

    build_responses-All :
        (orders : List OrderEntry)
        → All Q orders
        → Yields (All P) (build_responses_for_coin_pair c view buying selling orders)
    unfolding build_responses_for_coin_pair
    build_responses-All [] qs = value tt
    build_responses-All (order ∷ orders) (q, qs) =
        append_response-All (response-Yields order q) (build_responses-All orders qs)

  -- the responses for one side of the book
  module _ (r : GetDaoCoinLimitOrdersRequest) (view : c.View) (buying selling : Bytes)
      (coins : ((buying ≡ r.dao_coin1_creator_public_key)
          × (selling ≡ r.dao_coin2_creator_public_key))
        ⊎ ((buying ≡ r.dao_coin2_creator_public_key)
            × (selling ≡ r.dao_coin1_creator_public_key))) where
    side-IsFromBook :
        (buying_pkid selling_pkid : Bytes) (orders : List OrderEntry)
        → IsCoinPkid c view buying buying_pkid
        → IsCoinPkid c view selling selling_pkid
        → c.get_orders_for_pair view buying_pkid selling_pkid ≡ ok orders
        → Yields
            (All (IsFromBook r view))
            (build_responses_for_coin_pair c view buying selling orders)
    side-IsFromBook buying_pkid selling_pkid orders is_buying is_selling in_view =
        build_responses-All (IsFromBook r view) (λ order. IsIn order orders) view buying selling
          (λ o order stands (same_buying, same_selling, same_id, same_transactor). record {
            coins = rw (same_buying, same_selling) coins;
            buying_pkid = buying_pkid;
            selling_pkid = selling_pkid;
            is_buying = rw same_buying is_buying;
            is_selling = rw same_selling is_selling;
            orders = orders;
            in_view = in_view;
            order = order;
            stands = stands;
            is_order = same_id;
            is_transactor = same_transactor;
          })
          orders (All-stand orders)

  responses-IsFromBook :
      (request : GetDaoCoinLimitOrdersRequest) (view : c.View) {rs : List (OrderResponse c.Float)}
      → get_dao_coin_limit_orders c (ok request) (ok view) ≡ ok rs
      → All (IsFromBook request view) rs
  unfolding get_dao_coin_limit_orders
  responses-IsFromBook request view h =
      let coin1 = request.dao_coin1_creator_public_key in
      let coin2 = request.dao_coin2_creator_public_key in
      let P : OrderResponse c.Float → Type 0 = IsFromBook request view in
      let failed = λ (e : Bytes). internal_server_error (external e) in
      after_step (fail_if (is_deso coin1 && is_deso coin2) (bad_request both_coins_deso)) h
        λ u e1 h1. after_step (requested_coin_pkid c view coin1) h1 λ pkid1 e2 h2.
          after_step (requested_coin_pkid c view coin2) h2 λ pkid2 e3 h3.
            after_step (or_fail (c.get_orders_for_pair view pkid1 pkid2) failed) h3 λ orders1 e4 h4.
              after_step (or_fail (c.get_orders_for_pair view pkid2 pkid1) failed) h4
                λ orders2 e5 h5.
                  let is1 = requested-IsCoinPkid c view coin1 pkid1 e2 in
                  let is2 = requested-IsCoinPkid c view coin2 pkid2 e3 in
                  let got1 = value_of_or_fail (c.get_orders_for_pair view pkid1 pkid2) failed e4 in
                  let got2 = value_of_or_fail (c.get_orders_for_pair view pkid2 pkid1) failed e5 in
                  Yields-value {P = All P}
                    (Yields-bind _
                      (Yields-or_fail _ (
                        side-IsFromBook request view coin1 coin2 (inl (refl, refl)) pkid1 pkid2
                          orders1 is1 is2 got1))
                      λ rs1 all1.
                        Yields-bind _
                          (Yields-or_fail _ (
                            side-IsFromBook request view coin2 coin1 (inr (refl, refl)) pkid2 pkid1
                              orders2 is2 is1 got2))
                          λ rs2 all2. value (All-append P rs1 rs2 all1 all2))
                    h5

  -- Every response that a successful request returns is for an order of the book: its coins are
  -- those of the request, one bought with the other, and its id and transactor are those of an
  -- order that deso-core has for the PKIDs of the response's buying coin and selling coin, in this
  -- order, where DESO has the PKID of zeros and another coin that of the public key it names. And
  -- every order that deso-core has for the two PKIDs, either way round, has its response among the
  -- answers, or it has none because building it is an error.
  pub get_dao_coin_limit_orders-IsFromBook :
      (request : GetDaoCoinLimitOrdersRequest) (view : c.View) {rs : List (OrderResponse c.Float)}
      → get_dao_coin_limit_orders c (ok request) (ok view) ≡ ok rs
      → All (IsFromBook request view) rs × IsWholeBook c view request rs
  get_dao_coin_limit_orders-IsFromBook request view h =
      (responses-IsFromBook request view h, get_dao_coin_limit_orders-IsWholeBook c view request h)
