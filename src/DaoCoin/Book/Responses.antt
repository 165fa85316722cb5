-- ===== src/DaoCoin/Book/Responses.antt =====
-- The loop of `buildDAOCoinLimitOrderResponsesFromEntriesForCoinPair`
-- (routes/dao_coin_exchange.go).
use mathlib.Core.List.{map-append}
use deso_backend.Base.{
  ◌^◌, ◌<◌, ◌≡◌, refl, inr, Bool, true, false, List, [], ◌∷◌, ◌++◌, map, Bytes, bytes_eq_refl,
  Result, ok, err, panic, arith, if◌then◌else◌,
}
use deso_backend.Core.{Core, OrderEntry}
use deso_backend.DaoCoin.Types.{
  Error, is_deso, operation_type_string_ask, order_operation_type_to_string,
}
use deso_backend.DaoCoin.Rates.Printing.{price_string_panics}
use deso_backend.DaoCoin.Book.{
  OrderResponse, build_order_response, append_response, build_responses_for_coin_pair,
}

module _ {ℓ} {A : Type ℓ} where
  -- the values among some results
  abbrev pub successes : List (Result Error A) → List A
  successes [] = []
  successes (ok a ∷ rs) = a ∷ successes rs
  successes (err e ∷ rs) = successes rs
  successes (panic ∷ rs) = successes rs

  abbrev pub has_panic : List (Result Error A) → Bool
  has_panic [] = false
  has_panic (panic ∷ rs) = true
  has_panic (ok a ∷ rs) = has_panic rs
  has_panic (err e ∷ rs) = has_panic rs

module _ (c : Core) (view : c.View) (buying selling : Bytes) where
  abbrev pub response_of : OrderEntry → Result Error (OrderResponse c.Float)
  response_of order =
      build_order_response c
        (c.base58_check_encode (c.get_public_key_for_pkid view order.transactor_pkid)) buying
        selling order

  append_response_lem :
      (r : Result Error (OrderResponse c.Float)) (rs : List (Result Error (OrderResponse c.Float)))
      → append_response c r (if has_panic rs then panic else ok (successes rs))
        ≡ (if has_panic (r ∷ rs) then panic else ok (successes (r ∷ rs)))
  unfolding append_response
  append_response_lem (ok a) rs = ground arith
  append_response_lem (err e) rs = ground arith
  append_response_lem panic rs = refl

  -- Orders whose response is an error are left out and all others are returned in their order,
  -- unless building one of the responses panics: then there is no answer at all.
  pub build_responses-eq-successes :
      (orders : List OrderEntry)
      → build_responses_for_coin_pair c view buying selling orders ≡ (
          if has_panic (map response_of orders)
          then panic
          else ok (successes (map response_of orders)))
  unfolding build_responses_for_coin_pair
  build_responses-eq-successes [] = refl
  build_responses-eq-successes (order ∷ orders) =
      rw (build_responses-eq-successes orders)
        (append_response_lem (response_of order) (map response_of orders))

  response_panics :
      (order : OrderEntry)
      → order.operation_type ≡ c.operation_type_ask
      → is_deso buying ≡ true
      → order.scaled_exchange_rate < 10 ^ 9
      → response_of order ≡ panic
  unfolding build_order_response order_operation_type_to_string
  response_panics order ask deso low = ground (
    arith,
    (price_string_panics c buying selling order.scaled_exchange_rate (operation_type_string_ask)).1
        (bytes_eq_refl operation_type_string_ask, inr (deso, low)),
  )

  has_panic-append :
      (before after : List (Result Error (OrderResponse c.Float)))
      → has_panic (before ++ panic ∷ after) ≡ true
  has_panic-append [] after = refl
  has_panic-append (ok a ∷ before) after = has_panic-append before after
  has_panic-append (err e ∷ before) after = has_panic-append before after
  has_panic-append (panic ∷ before) after = refl

  -- One ASK on the book that buys DESO at a rate below 10^9 makes building the responses panic,
  -- whatever the other orders are.
  pub low_ask_panics :
      (before after : List OrderEntry) (order : OrderEntry)
      → order.operation_type ≡ c.operation_type_ask
      → is_deso buying ≡ true
      → order.scaled_exchange_rate < 10 ^ 9
      → build_responses_for_coin_pair c view buying selling (before ++ order ∷ after) ≡ panic
  low_ask_panics before after order ask deso low = rw (
    build_responses-eq-successes,
    map-append,
    response_panics order ask deso low,
    has_panic-append,
  )
