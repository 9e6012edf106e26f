-- ===== src/Portfolio.antt =====
-- services/trading/portfolio_service.py: `Holding` is a row of the portfolio, `Repository` saves and loads
-- the rows of a user, `Trades` books manual buys and sells, `Report` analyses the holdings and `Sync`
-- takes over the balances of the broker.
pub mod Holding
pub mod Repository
pub mod Report
pub mod Rows
pub mod Sync
pub mod Trades
mod Tests
