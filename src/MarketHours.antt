-- ===== src/MarketHours.antt =====
-- services/market/market_hour_service.py: `Holidays` has the NYSE calendar, `Sessions` the opening
-- hours of both markets.
pub mod Holidays
pub mod Sessions
pub mod Closing
mod Tests
