-- ===== src/MarketData.antt =====
-- services/market/market_data_service.py: the live states of the tickers that are watched, how a
-- ticker enters and leaves them, their tiers, and what is shown of them. Locks, logging and the saving
-- of financial rows are left out.
pub mod Loading
pub mod Registry
pub mod Views
mod Tests
