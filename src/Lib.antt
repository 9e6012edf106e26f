-- ===== src/Lib.antt =====
-- The stock advisor, a service that scores stocks, trades them through a broker and reports on a
-- portfolio. This library models the parts that decide: when a market is open, what a setting is,
-- what a ticker's state and score are, whether and how much to buy or sell, and what a manual
-- trade does to the portfolio. Paths are those of the repository.
--
-- The parts and the files:
--
-- - Calendar and MarketHours: services/market/market_hour_service.py. Days are day numbers;
--   Calendar has the civil calendar of Python's datetime. MarketHours/Holidays has
--   _observed_fixed_holiday, _nth_weekday_of_month, _last_weekday_of_month, _easter_sunday and
--   _is_us_market_holiday, MarketHours/Sessions the tests for open markets and the strategy
--   window, MarketHours/Closing the function _is_near_market_close of the strategy.
-- - Settings: services/config/settings_service.py over repositories/settings_repo.py.
--   Settings/Repository is the table, Settings/Defaults the dict DEFAULT_SETTINGS,
--   Settings/Service the cache and the operations of the service.
-- - Markets: utils/market.py.
-- - Tickers: models/ticker_state.py, its dataclass and its updates.
-- - Portfolio: services/trading/portfolio_service.py over repositories/portfolio_repo.py; a
--   holding is a row of models/portfolio.py. Portfolio/Trades has apply_buy, apply_sell and
--   apply_trade_action, Portfolio/Repository the accounts of the users and their saving and
--   loading, Portfolio/Report the analysis, Portfolio/Rows the rows of the report and the
--   holdings entered by hand, Portfolio/Sync the function sync_with_kis.
-- - Strategy: services/strategy/trading_strategy_service.py. Strategy/Sectors has the sector
--   groups and their weights, Strategy/Score the function calculate_score block by block,
--   Strategy/CashTarget the target cash ratio, Strategy/Limits the tests before a buy and its
--   size, Strategy/Trading the function _execute_trade_v2, Strategy/TickTrade the tick trading,
--   Strategy/Rebalance the functions get_sector_rebalance_status and run_sector_rebalance,
--   Strategy/Universe the tickers that are watched, Strategy/Run the function run_strategy as a
--   whole, Strategy/Control the switch of the engine and its state file, Strategy/Manual the list
--   of waiting trades and the manual sale, Strategy/Signals the functions
--   _collect_trading_signals, _execute_collected_signals and the recommendation of
--   analyze_ticker.
-- - Orders: sell_single_holding and execute_mass_sell of services/trading/order_service.py.
-- - Macro: services/market/macro_service.py and the table of its daily results in
--   services/market/stock_meta_service.py. Macro/Bands grades each figure, Macro/Regime is the
--   function _get_market_regime, Macro/Historical the function calculate_historical_regime with
--   its own copy of the scoring in Macro/Rescoring, Macro/Economy the FRED indicators, the yield,
--   the VIX and fear and greed, Macro/Downloads the indices, crypto and commodities,
--   Macro/History the table, Macro/Cache the functions get_macro_data, invalidate_cache and
--   refresh_on_release.
-- - MarketData: services/market/market_data_service.py. MarketData/Loading fills the state of one
--   ticker, from the database or by a full warm-up, with the snapshot of
--   services/analysis/indicator_service.py; MarketData/Registry has the dictionary of states and
--   the tiers, MarketData/Views the signals and the items that are shown.
-- - Releases: services/market/economic_calendar_service.py, the table SERIES_META, the past
--   release dates, the estimate of the next one and the function check_for_new_releases with its
--   cache.
-- - Scheduler: services/base/scheduler_service.py. Scheduler/Jobs has the start and the table of
--   jobs, Scheduler/Subscriptions the function manage_subscriptions_async, Scheduler/Polling the
--   low tier and the reports on prices, Scheduler/Vix the check of the VIX.
-- - Kis: services/kis/kis_service.py, the account number and the throttle; Kis/Token has
--   get_access_token, Kis/Orders the orders, domestic, after hours and overseas, Kis/Balance the
--   balances.
-- - Financials: services/analysis/financial_service.py and
--   services/analysis/analyzer/financial_analyzer.py, with the table of financial rows and of
--   overrides in services/market/stock_meta_service.py. Financials/Growth has the yearly series,
--   the growth and the discount rate, Financials/Metrics the function get_metrics,
--   Financials/DcfInputs the function get_dcf_data, Financials/Overrides the function
--   save_override.
-- - Alerts: services/notification/alert_service.py.
-- - Dcf: services/analysis/analyzer/dcf_analyzer.py and services/analysis/dcf_service.py.
-- - Backtest: the loop of _simulate in services/strategy/backtest_service.py.
-- - Floats and Prelude: Python's float as an instance argument, and the shared helpers: tests on
--   numbers and texts, lists and their stable sort, integers, dicts in insertion order.
--
-- How they interact: Scheduler runs the strategy inside its window, refreshes the universe of
-- Strategy/Universe and the tiers of MarketData, and joins Releases to Macro/Cache; Strategy/Run
-- puts the parts of the strategy together around one reading and one writing of the state file.
-- Strategy/Score reads a ticker's state (Tickers) and a holding (Portfolio); Strategy/Signals
-- scores the tickers and hands each signal to Strategy/Trading, which reads the hours of the
-- ticker's market through a function, checks the limits of Strategy/Limits, which use the groups
-- of Strategy/Sectors, and sends an order. Portfolio/Sync writes the accounts and pushes prices
-- into the states of MarketData. MarketData keeps the states of Tickers that the strategy and
-- Alerts read; Macro/Cache stores each market status in the table of Macro/History, from which
-- Macro/Regime takes its next threshold.
--
-- Financials fills the inputs that Dcf turns into a value. State is passed on: a settings state
-- has the table and the cache; a world has the orders, trades and alerts that were sent, newest
-- first; a run of the signal loop has the two cooldown dicts, the returned flag and the world. a
-- macro state has the cached data with their time and the table; an alert state the keys that
-- were sent and the last figures of each ticker. Loops over lists are recursion on the list or a
-- left fold, and the loop over the years of a valuation is recursion on their number, so there is
-- no fuel.
--
-- Arguments of the model: the clock and the dates; Config; whether the database takes a write;
-- the broker, for the strategy a function from the orders sent before and an order to success,
-- and for Kis the answer to each attempt of a call; the stock metadata, live prices and the
-- exchange rate; quotes, their exponential averages and all other downloads; Python's ** in the
-- valuation; the values of settings that a function reads, with their defaults filled in; and the
-- arithmetic of float, of which nothing is assumed but what a theorem names. Runs on concrete
-- inputs use fixed-point numbers with four decimals (Floats/Fixed).
--
-- Simplifications: tickers are ASCII texts, so that str.isdigit tests for the digits 0 to 9; the
-- reasons of a score stand as kinds with their points, without the text; log lines and the texts
-- of alerts are left out, and an alert is a value of a data type; weights and scores of
-- indicators are integers, which floats of that size hold exactly; a price of 0 in the
-- denominator of a return, by which Python would raise, is left out of the macro figures; a
-- warm-up runs after the registration that starts its thread; the action of a manual trade is in
-- lower case already; the target cash ratio is given, as all callers of the signal loop give it.
--
-- Not modelled: the socket and the prices of the broker, downloads of prices and news,
-- APScheduler and the socket thread, the HTTP routes, reports and scripts, which are calls of
-- third-party libraries or texts; and, so far, selling everything and buying again, the daily
-- summary of the alerts, the weekly calendar of releases and the trade history.
pub mod Prelude
pub mod Floats
pub mod Markets
pub mod Settings
pub mod Tickers
pub mod Portfolio
pub mod Orders
pub mod Alerts
pub mod Dcf
pub mod Backtest
pub mod Strategy
pub mod Calendar
pub mod MarketHours
pub mod Macro
pub mod MarketData
pub mod Releases
pub mod Scheduler
pub mod Kis
pub mod Financials
