-- ===== src/DaoCoin.antt =====
-- DAO coin limit orders (routes/dao_coin_exchange.go): prices, quantities, the order book's
-- responses, and the checks made before an order is placed.
pub mod Types
pub mod Rates
pub mod Quantities
pub mod Book
pub mod Checks
pub mod Placing
mod Tests
