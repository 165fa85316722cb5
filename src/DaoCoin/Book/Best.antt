-- ===== src/DaoCoin/Book/Best.antt =====
-- The loop of `GetBestAvailableExchangeRateCoinsToBuyPerCoinToSell` (routes/dao_coin_exchange.go).
use mathlib.Core.List.{Mem, mem-cons}
use mathlib.Core.Logic.{∥∥₁_prop}
use mathlib.Core.Logic.Or
use mathlib.Core.Path.{subst}
use deso_backend.Base.{
  sym, ℕ, ◌≤◌, ◌≡◌, refl, inl, inr, List, [], ◌∷◌, map, Bool-cases, arith, ltb, if◌then◌else◌, All,
}
use deso_backend.Core.{OrderEntry}
use deso_backend.DaoCoin.Book.{best_exchange_rate}

abbrev pub rates_of : List OrderEntry → List ℕ
rates_of = map (λ o. o.scaled_exchange_rate)

le-best_exchange_rate :
    (best : ℕ) (orders : List OrderEntry) → best ≤ best_exchange_rate best orders
unfolding best_exchange_rate
le-best_exchange_rate best [] = omega arith
le-best_exchange_rate best (o ∷ orders) =
    let rest =
      le-best_exchange_rate
        (if ltb best o.scaled_exchange_rate then o.scaled_exchange_rate else best) orders in
    ground arith

All-best_exchange_rate :
    (best : ℕ) (orders : List OrderEntry)
    → All (λ o. o.scaled_exchange_rate ≤ best_exchange_rate best orders) orders
unfolding best_exchange_rate
All-best_exchange_rate best [] = tt
All-best_exchange_rate best (o ∷ orders) =
    let next = (if ltb best o.scaled_exchange_rate then o.scaled_exchange_rate else best) in
    (ground (arith, le-best_exchange_rate next orders), All-best_exchange_rate next orders)

best_exchange_rate-mem :
    (best : ℕ) (orders : List OrderEntry)
    → Mem (best_exchange_rate best orders) (best ∷ rates_of orders)
unfolding best_exchange_rate
best_exchange_rate-mem best [] = mem-cons.1 (Or.inl refl)
best_exchange_rate-mem best (o ∷ orders) = elim (Bool-cases (ltb best o.scaled_exchange_rate)) [
  | inl above ↦
      rw above (mem-cons.1 (Or.inr (best_exchange_rate-mem o.scaled_exchange_rate orders)))
  | inr below ↦ rw below (
      Or.elim ∥∥₁_prop (mem-cons.0 (best_exchange_rate-mem best orders))
        (λ e. mem-cons.1 (Or.inl e)) (λ m. mem-cons.1 (Or.inr (mem-cons.1 (Or.inr m)))))
]

-- On a book that is not empty, the best rate is at least the rate of every order and is the rate of
-- one of them.
pub best_exchange_rate_greatest :
    (order : OrderEntry) (orders : List OrderEntry)
    → All (λ o. o.scaled_exchange_rate ≤ best_exchange_rate 0 (order ∷ orders)) (order ∷ orders)
      × Mem (best_exchange_rate 0 (order ∷ orders)) (rates_of (order ∷ orders))
unfolding best_exchange_rate
best_exchange_rate_greatest order orders =
    let r = order.scaled_exchange_rate in
    let first : (if ltb 0 r then r else 0) ≡ r = ground arith in
    (
      All-best_exchange_rate 0 (order ∷ orders),
      subst (λ (x : ℕ). Mem (best_exchange_rate x orders) (r ∷ rates_of orders)) (sym first)
          (best_exchange_rate-mem r orders),
    )
