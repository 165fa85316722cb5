-- ===== src/Prices/Rate.antt =====
-- The server after `UpdateUSDCentsToDeSoExchangeRate` (routes/base.go).
use deso_backend.Base.{
  ℕ, ◌≤◌, ◌≡◌, refl, inl, inr, true, List, [], ◌∷◌, ◌++◌, ok, ltb, if◌then◌else◌, Bool-cases, arith,
  All,
}
use deso_backend.Prices.{
  PriceItem, Prices, tstamp_diff, is_recent, get_exchange_deso_price,
  update_usd_cents_to_deso_exchange_rate,
}
use deso_backend.Prices.Cull.{recent_items, max_price_from, get_max_price_lem}

le-max_price_from : (m : ℕ) (items : List PriceItem) → m ≤ max_price_from m items
unfolding max_price_from
le-max_price_from m [] = omega arith
le-max_price_from m (item ∷ items) = ground (
  arith,
  le-max_price_from (if ltb m item.last_trade_price then item.last_trade_price else m) items,
)

All-max_price_from :
    (m : ℕ) (items : List PriceItem) → All (λ i. i.last_trade_price ≤ max_price_from m items) items
unfolding max_price_from
All-max_price_from m [] = tt
All-max_price_from m (item ∷ items) =
    let next = (if ltb m item.last_trade_price then item.last_trade_price else m) in
    (ground (arith, le-max_price_from next items), All-max_price_from next items)

-- the item that was just appended is in the window
newest_is_recent :
    (now lookback price : ℕ)
    → is_recent now lookback (record { last_trade_price = price; timestamp = now }) ≡ true
unfolding is_recent tstamp_diff
newest_is_recent now lookback price = ground arith

newest_counts :
    (now lookback : ℕ) (items : List PriceItem) (m : ℕ) (item : PriceItem)
    → is_recent now lookback item ≡ true
    → item.last_trade_price ≤ max_price_from m (recent_items now lookback (items ++ item ∷ []))
unfolding recent_items max_price_from
newest_counts now lookback [] m item recent = rw recent (ground arith)
newest_counts now lookback (first ∷ items) m item recent =
    elim (Bool-cases (is_recent now lookback first)) [
      | inl yes_recent ↦ rw yes_recent (
          newest_counts now lookback items
            (if ltb m first.last_trade_price then first.last_trade_price else m) item recent)
      | inr old ↦ rw old (newest_counts now lookback items m item recent)
    ]

All-le :
    (m p : ℕ) (items : List PriceItem)
    → m ≤ p
    → All (λ i. i.last_trade_price ≤ m) items
    → All (λ i. i.last_trade_price ≤ p) items
All-le m p [] h hs = tt
All-le m p (item ∷ items) h (first, rest) = (omega arith, All-le m p items h rest)

-- the history once a price is appended
abbrev pub with_trade : ℕ → ℕ → Prices → List PriceItem
with_trade price now s =
    s.last_trade_deso_price_history ++ (record { last_trade_price = price; timestamp = now } ∷ [])

-- the server after a refresh
abbrev refreshed : ℕ → ℕ → ℕ → ℕ → Prices → Prices
refreshed blockchain coinbase price now s =
    let recent = recent_items now s.last_trade_price_lookback (with_trade price now s) in
    let greatest = max_price_from 0 recent in
    record s {
      usd_cents_per_deso_exchange_rate =
          if ltb greatest s.usd_cents_to_deso_reserve_exchange_rate
          then s.usd_cents_to_deso_reserve_exchange_rate
          else greatest;
      last_trade_deso_price_history = recent;
      most_recent_coinbase_price_usd_cents = coinbase;
      most_recent_blockchain_dot_com_price_usd_cents = blockchain;
    }

refreshed_lem :
    (blockchain coinbase price now : ℕ) (s : Prices)
    → update_usd_cents_to_deso_exchange_rate blockchain coinbase price now s
      ≡ ok (refreshed blockchain coinbase price now s)
unfolding update_usd_cents_to_deso_exchange_rate
refreshed_lem blockchain coinbase price now s =
    rw
      (get_max_price_lem now (record s {
        most_recent_coinbase_price_usd_cents = coinbase;
        most_recent_blockchain_dot_com_price_usd_cents = blockchain;
        last_trade_deso_price_history = with_trade price now s;
      }))
      refl

refreshed_price :
    (blockchain coinbase price now : ℕ) (s : Prices)
    → (max_price_from 0 (recent_items now s.last_trade_price_lookback (with_trade price now s))
        ≤ get_exchange_deso_price (refreshed blockchain coinbase price now s))
      × (s.usd_cents_to_deso_reserve_exchange_rate
          ≤ get_exchange_deso_price (refreshed blockchain coinbase price now s))
unfolding get_exchange_deso_price
refreshed_price blockchain coinbase price now s = (ground arith, ground arith)

-- A refresh of the exchange rate does not panic: the history is then the items in the window among
-- the old ones and the new trade, and the price that the server sells at is at least the price of
-- each of them, the new trade's price and the reserve price.
pub update_exchange_rate_lem :
    (blockchain coinbase price now : ℕ) (s : Prices)
    → (s' : Prices) × (update_usd_cents_to_deso_exchange_rate blockchain coinbase price now s
        ≡ ok s')
      × (s'.last_trade_deso_price_history
          ≡ recent_items now s.last_trade_price_lookback (with_trade price now s))
      × All (λ i. i.last_trade_price ≤ get_exchange_deso_price s') s'.last_trade_deso_price_history
      × (price ≤ get_exchange_deso_price s')
      × (s.usd_cents_to_deso_reserve_exchange_rate ≤ get_exchange_deso_price s')
update_exchange_rate_lem blockchain coinbase price now s =
    let recent = recent_items now s.last_trade_price_lookback (with_trade price now s) in
    let s' = refreshed blockchain coinbase price now s in
    let (greatest, reserve) = refreshed_price blockchain coinbase price now s in
    let newest =
      newest_counts now s.last_trade_price_lookback s.last_trade_deso_price_history 0
        (record { last_trade_price = price; timestamp = now })
        (newest_is_recent now s.last_trade_price_lookback price) in
    (
      s',
      refreshed_lem blockchain coinbase price now s,
      refl,
      All-le (max_price_from 0 recent) (get_exchange_deso_price s') recent greatest
          (All-max_price_from 0 recent),
      omega arith,
      reserve,
    )
