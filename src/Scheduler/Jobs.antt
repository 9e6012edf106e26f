-- ===== src/Scheduler/Jobs.antt =====
-- `start` of services/base/scheduler_service.py with its table of jobs, and the short jobs: the run of the
-- strategy inside its window and the check for new releases. What APScheduler does with a trigger is
-- its own; the socket thread is left out.
pub mod Baseline
mod Tests
use stock_advisor.Prelude.{
  Bool, List, Option, String, [], false, if◌then◌else◌, none, some, true, ℕ, ◌∷◌,
}
use stock_advisor.Strategy.Run.{Desk, RunInput, run_strategy}
use stock_advisor.Prelude.Dict.{Dict}
use stock_advisor.Floats.{Double}
use stock_advisor.Macro.Cache.{Download, MacroState, refresh_on_release}
use stock_advisor.Strategy.Control.{Engine, restore_enabled_state}
use stock_advisor.MarketHours.Sessions.{Moment, is_strategy_window_open}
use stock_advisor.Releases.{check_for_new_releases, Release}
use stock_advisor.Prelude.Int.{eq_ℤ, pos, ℤ}

pub data Action : Type 0 where
  sync_daily_market_data renew_subscriptions run_trading_strategy check_portfolio_hourly : Action
  report_daily_trade_history run_rebalancing rebalance_sectors poll_low_tier : Action
  sync_portfolio_periodic report_ticks check_economic_releases check_vix : Action

-- A trigger of APScheduler: every so many minutes, or at hours and minutes of the days of the week,
-- where no days are all days. `eastern` says that the clock is the one of New York.
pub data Trigger : Type 0 where
  interval : ℕ → Trigger
  cron : Bool → Option String → String → String → Trigger

-- The calls of `add_job`, in order.
abbrev pub job_table : List (Action × Trigger)
job_table =
    (sync_daily_market_data, cron false none "4" "0")
    ∷ (renew_subscriptions, cron false none "8" "30")
    ∷ (run_trading_strategy, interval 1)
    ∷ (check_portfolio_hourly, interval 60)
    ∷ (report_daily_trade_history, cron false none "9" "0")
    ∷ (run_rebalancing, cron false none "9" "10")
    ∷ (rebalance_sectors, cron false (some "mon") "9" "20")
    ∷ (poll_low_tier, interval 5)
    ∷ (sync_portfolio_periodic, interval 10)
    ∷ (report_ticks, interval 10)
    ∷ (check_economic_releases, cron true (some "mon-fri") "8" "31")
    ∷ (check_economic_releases, cron true (some "mon-fri") "9" "16")
    ∷ (check_economic_releases, cron true (some "mon-fri") "10" "1")
    ∷ (check_vix, cron true (some "mon-fri") "9-15" "0,30")
    ∷ []

-- What a start of the server changes.
pub record Server (F : Type 0) : Type 0 where
  pub jobs : List (Action × Trigger)
  pub last_obs_date : Dict ℕ
  pub engine : Engine F
  pub inquiries : ℕ

-- What it meets: the latest days of the series, or an exception; and whether the file of the strategy
-- and the broker can be read.
pub record StartInput : Type 0 where
  pub latest_of : Option (String → Option ℕ)
  pub state_readable : Bool
  pub sync_succeeds : Bool

-- `_init_economic_baselines`
unfoldable pub init_economic_baselines : Option (String → Option ℕ) → Dict ℕ → Dict ℕ
init_economic_baselines none cache = cache
init_economic_baselines (some latest_of) cache = (check_for_new_releases latest_of cache).1

module _ {F : Type 0} where
  -- `start`: a second call changes nothing. Each of the two last parts has its own handler.
  unfoldable pub start_server : StartInput → Option (Server F) → Engine F → Server F
  start_server i (some s) e = s
  start_server i none e = record {
    jobs = job_table;
    last_obs_date = init_economic_baselines i.latest_of [];
    engine = (if i.state_readable then restore_enabled_state e else e);
    inquiries = (if i.sync_succeeds then 1 else 0);
  }

module _ {F : Type 0} ⦃d : Double F⦄ where
  -- `run_trading_strategy`: outside the window nothing runs.
  unfoldable pub run_in_window : Bool → Moment → Moment → ℤ → RunInput F → F → F → Desk F → Desk F
  run_in_window is_vts now_kr now_us extended_hours r cash_balance usd_cash k =
      if is_strategy_window_open is_vts now_kr now_us (eq_ℤ extended_hours (pos 1)) 60
      then run_strategy r cash_balance usd_cash "sean" k
      else k

  abbrev refresh_if : List Release → Download F → MacroState F → MacroState F
  refresh_if [] w s = s
  refresh_if (r ∷ rs) w s = (refresh_on_release w s).1

  -- `_check_economic_releases`: where a release is new the macro data is computed anew.
  unfoldable pub check_releases :
      (String → Option ℕ) → Download F → Dict ℕ → MacroState F → Dict ℕ × MacroState F
  check_releases latest_of w cache s =
      let found = check_for_new_releases latest_of cache in (found.1, refresh_if found.0 w s)
