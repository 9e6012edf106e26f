-- ===== src/Tickers.antt =====
-- models/ticker_state.py: the live state of one ticker.
pub mod State
pub mod Indicators
mod Tests
