-- ===== src/DaoCoin/Tests.antt =====
-- The theorems about routes/dao_coin_exchange.go at concrete orders, prices and quantities.
mod Model
mod Prices
mod Orders
mod Placing
mod Requests
