-- ===== src/Strategy.antt =====
-- services/strategy/trading_strategy_service.py. `Sectors` has the sector groups and their weights,
-- `Score` the score of a ticker, `Limits` the checks and the size of a buy, `Trading` the execution
-- of one trade, `Signals` the pass over all signals.
pub mod Control
pub mod Manual
pub mod Sectors
pub mod Score
pub mod Limits
pub mod Trading
pub mod Signals
pub mod TickTrade
pub mod Rebalance
pub mod CashTarget
pub mod Universe
pub mod Run
mod Tests
