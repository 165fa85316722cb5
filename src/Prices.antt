-- ===== src/Prices.antt =====
-- The price of DESO (routes/base.go): the recent trade prices that the server keeps, the price it
-- sells at, and the reserve price that an administrator sets (routes/admin_buy_deso.go).
pub mod Cull
pub mod Rate
pub mod Reserve
mod Tests
use deso_backend.Base.{
  ℕ, zero, suc, ◌+◌, ◌-◌, ◌%◌, ◌^◌, List, [], ◌∷◌, ◌++◌, Option, none, some, Result, ok, panic,
  ◌>>=◌, Bool, true, false, length, get_elem?, set, take, ltb, leb, if◌then◌else◌,
}

-- LastTradePriceHistoryItem
pub record PriceItem : Type 0 where
  pub last_trade_price : ℕ
  pub timestamp : ℕ

-- the fields of APIServer that are about the price
pub record Prices : Type 0 where
  pub usd_cents_per_deso_exchange_rate : ℕ
  pub last_trade_deso_price_history : List PriceItem
  pub last_trade_price_lookback : ℕ
  pub most_recent_coinbase_price_usd_cents : ℕ
  pub most_recent_blockchain_dot_com_price_usd_cents : ℕ
  pub usd_cents_to_deso_reserve_exchange_rate : ℕ
  pub buy_deso_fee_basis_points : ℕ

unfoldable pub get_exchange_deso_price : Prices → ℕ
get_exchange_deso_price s =
    if ltb s.usd_cents_to_deso_reserve_exchange_rate s.usd_cents_per_deso_exchange_rate
    then s.usd_cents_per_deso_exchange_rate
    else s.usd_cents_to_deso_reserve_exchange_rate

-- `currentTimestamp - priceHistoryItem.Timestamp` on uint64
unfoldable pub tstamp_diff : ℕ → ℕ → ℕ
tstamp_diff now timestamp = (now + 2 ^ 64 - timestamp) % 2 ^ 64

-- an item is in the lookback window
unfoldable pub is_recent : ℕ → ℕ → PriceItem → Bool
is_recent now lookback item = leb (tstamp_diff now item.timestamp) lookback

-- an assignment to an item of a slice
unfoldable pub write : List PriceItem → ℕ → PriceItem → Result (Unit {0}) (List PriceItem)
write items i item = if ltb i (length items) then ok (set items i item) else panic

-- The loop of `getMaxPriceFromHistoryAndCull`, which reads at `index` and writes at `valid_index`
-- of one slice; `left` items are still to be read.
unfoldable pub cull_loop :
    ℕ → ℕ → ℕ → ℕ → ℕ → List PriceItem → ℕ → Result (Unit {0}) (List PriceItem × ℕ × ℕ)
cull_loop now lookback zero index valid_index items max_price = ok (items, valid_index, max_price)
cull_loop now lookback (suc left) index valid_index items max_price = elim (get_elem? items index) [
  | none ↦ panic
  | some item ↦ elim (is_recent now lookback item) [
    | true ↦ write items valid_index item >>= λ written.
        cull_loop now lookback left (index + 1) (valid_index + 1) written
          (if ltb max_price item.last_trade_price then item.last_trade_price else max_price)
    | false ↦ cull_loop now lookback left (index + 1) valid_index items max_price
  ]
]

unfoldable pub get_max_price_from_history_and_cull : ℕ → Prices → Result (Unit {0}) (ℕ × Prices)
get_max_price_from_history_and_cull now s =
    let history = s.last_trade_deso_price_history in
    cull_loop now s.last_trade_price_lookback (length history) 0 0 history 0
    >>= λ (items, valid_index, max_price).
        ok (max_price, record s { last_trade_deso_price_history = take valid_index items })

-- The prices that were fetched, and the greater of them, are converted to cents by the caller.
unfoldable pub update_usd_cents_to_deso_exchange_rate :
    ℕ → ℕ → ℕ → ℕ → Prices → Result (Unit {0}) Prices
update_usd_cents_to_deso_exchange_rate blockchain_price coinbase_price last_trade_price now s =
    let item : PriceItem = record { last_trade_price = last_trade_price; timestamp = now } in
    let fetched = record s {
      most_recent_coinbase_price_usd_cents = coinbase_price;
      most_recent_blockchain_dot_com_price_usd_cents = blockchain_price;
      last_trade_deso_price_history = s.last_trade_deso_price_history ++ (item ∷ []);
    } in
    get_max_price_from_history_and_cull now fetched >>= λ (max_price, culled). ok (record culled {
      usd_cents_per_deso_exchange_rate =
          if ltb max_price culled.usd_cents_to_deso_reserve_exchange_rate
          then culled.usd_cents_to_deso_reserve_exchange_rate
          else max_price;
    })
