-- ===== src/Prices/Tests.antt =====
-- The theorems about the price at a concrete history and settings.
use deso_backend.Base.{ℕ, ◌≤◌, ◌≡◌, refl, false, [], ◌∷◌, Bytes, Option, none, some, ok, All, arith}
use deso_backend.GlobalState.Store.Client.{GlobalState, State, has_remote, put, update}
use deso_backend.GlobalState.Tests.Model.{encoding, badger, json, no_network, table_set}
use deso_backend.GlobalState.Keys.Payments.{
  key_for_usd_cents_to_deso_reserve_exchange_rate, key_for_buy_deso_fee_basis_points,
}
use deso_backend.Prices.{
  PriceItem, Prices, tstamp_diff, is_recent, write, cull_loop, get_exchange_deso_price,
  get_max_price_from_history_and_cull, update_usd_cents_to_deso_exchange_rate,
}
use deso_backend.Prices.Cull.{recent_items, max_price_from, get_max_price_lem}
use deso_backend.Prices.Rate.{with_trade, update_exchange_rate_lem}
use deso_backend.Prices.Reserve.{
  Fetched, refresh_with_reserve, set_reserve_exchange_rate, set_buy_deso_fee_basis_points,
  load_reserve_exchange_rate, load_buy_deso_fee_basis_points, settings_restored,
}

abbrev item : ℕ → ℕ → PriceItem
item price time = record { last_trade_price = price; timestamp = time }

-- a lookback of 10: the first and the third item are too old at 105
abbrev prices : Prices
prices = record {
  usd_cents_per_deso_exchange_rate = 700;
  last_trade_deso_price_history = item 900 50 ∷ (item 600 98 ∷ (item 950 60 ∷ (item 500 101 ∷ [])));
  last_trade_price_lookback = 10;
  most_recent_coinbase_price_usd_cents = 0;
  most_recent_blockchain_dot_com_price_usd_cents = 0;
  usd_cents_to_deso_reserve_exchange_rate = 550;
  buy_deso_fee_basis_points = 0;
}

get_max_price_lem_example :
    get_max_price_from_history_and_cull 105 prices
    ≡ ok (600, record prices { last_trade_deso_price_history = item 600 98 ∷ (item 500 101 ∷ []) })
unfolding recent_items max_price_from is_recent tstamp_diff
get_max_price_lem_example = get_max_price_lem 105 prices

update_exchange_rate_lem_example :
    (s' : Prices) × (update_usd_cents_to_deso_exchange_rate 400 450 450 105 prices ≡ ok s')
    × (s'.last_trade_deso_price_history ≡ recent_items 105 10 (with_trade 450 105 prices))
    × All (λ i. i.last_trade_price ≤ get_exchange_deso_price s') s'.last_trade_deso_price_history
    × (450 ≤ get_exchange_deso_price s')
    × (550 ≤ get_exchange_deso_price s')
update_exchange_rate_lem_example = update_exchange_rate_lem 400 450 450 105 prices

abbrev local : GlobalState
local = record { remote_node = []; remote_secret = [] }

local_is_local : has_remote local ≡ false
unfolding has_remote
local_is_local = refl

-- the first code is the number
abbrev uvarint : Bytes → Option ℕ
uvarint [] = none
uvarint (x ∷ xs) = some x

abbrev fetched : Fetched
fetched = record { blockchain_price = 400; coinbase_price = 450; last_trade_price = 450; now = 105 }

abbrev server : Prices × State badger json no_network
server = (prices, ([], tt))

reserve_is_set :
    (set_reserve_exchange_rate encoding uvarint badger json no_network local
      (ok 800)
      fetched
      server).0
    ≡ ok 800
unfolding set_reserve_exchange_rate put has_remote update table_set refresh_with_reserve
    update_usd_cents_to_deso_exchange_rate get_max_price_from_history_and_cull cull_loop write
    is_recent tstamp_diff key_for_usd_cents_to_deso_reserve_exchange_rate
reserve_is_set = refl

fee_is_set :
    (set_buy_deso_fee_basis_points encoding uvarint badger json no_network local
      (ok 25)
      (set_reserve_exchange_rate encoding uvarint badger json no_network local
        (ok 800)
        fetched
        server).1).0
    ≡ ok 25
unfolding set_reserve_exchange_rate put has_remote update table_set refresh_with_reserve
    update_usd_cents_to_deso_exchange_rate get_max_price_from_history_and_cull cull_loop write
    is_recent tstamp_diff key_for_usd_cents_to_deso_reserve_exchange_rate
    set_buy_deso_fee_basis_points key_for_buy_deso_fee_basis_points
fee_is_set = refl

settings_restored_example :
    let after_reserve =
      (set_reserve_exchange_rate encoding uvarint badger json no_network local
        (ok 800)
        fetched
        server).1 in
    let store =
      (set_buy_deso_fee_basis_points encoding uvarint badger json no_network local
        (ok 25)
        after_reserve).1.1 in
    ((load_reserve_exchange_rate encoding uvarint badger json no_network local prices
        store).usd_cents_to_deso_reserve_exchange_rate
      ≡ 800)
    × ((load_buy_deso_fee_basis_points encoding uvarint badger json no_network local prices
          store).buy_deso_fee_basis_points
        ≡ 25)
    × (800 ≤ get_exchange_deso_price after_reserve.0)
settings_restored_example =
    settings_restored encoding uvarint badger json no_network local local_is_local (λ k h. refl) 800
      25 fetched server prices (omega arith) (omega arith) reserve_is_set fee_is_set
