-- ===== src/Macro.antt =====
-- services/market/macro_service.py: the market regime, live and for a past date, the score of the
-- economic indicators, and the cache. Downloads are arguments.
pub mod Bands
pub mod Regime
pub mod Rescoring
pub mod Economy
pub mod History
pub mod Historical
pub mod Downloads
pub mod Cache
mod Tests
