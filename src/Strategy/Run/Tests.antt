-- ===== src/Strategy/Run/Tests.antt =====
-- Runs of the strategy, and its theorems at them.
use stock_advisor.Floats.Fixed.{Fixed, fixed_double}
use stock_advisor.Strategy.Signals.{
  execute_collected_signals, collect_trading_signals, holdings_map, is_analyzed, in_cooldown,
}
use stock_advisor.Prelude.{
  ◌+◌, List, [], false, if◌then◌else◌, length, none, refl, some, true, ◌∷◌, ◌≡◌, ◌≤◌,
}
use stock_advisor.Strategy.Run.{
  Desk, RunInput, TickStart, run_each, run_strategy, tick_part, begin_tick, context_of,
  guarded_tick, run_trades, same_snapshot, send_portfolio_report, signal_part, snapshot,
}
use stock_advisor.Strategy.TickTrade.{
  TickInput, entry_trigger, evaluate_tick_buy_conditions, evaluate_tick_sell_conditions,
  next_window, place_tick, run_tick_trade, trade_tick,
}
use stock_advisor.Tickers.State.{TickerState, fresh_state, is_ready}
use stock_advisor.Strategy.Run.TickKept.{
  entry_order, run_each-enters, run_strategy-stored_tick, stored_tick,
}
use stock_advisor.Floats.{int, nought, num}
use stock_advisor.Strategy.Control.{load_state, user_part, begin_run, end_run, save_state}
use stock_advisor.Prelude.Int.{minus, pos, ◌*ℤ◌, ◌+ℤ◌, ◌-ℤ◌}
use stock_advisor.Strategy.Run.Days.{run_each-split_sales}
use stock_advisor.Strategy.Signals.Cooldown.{split_sales}
use stock_advisor.Portfolio.Report.{add_up, filter_kr, filter_us}
use stock_advisor.Strategy.Universe.{
  all_kr, all_us, clean, is_kr_code, kr_holdings, norm_ticker, target_universe,
  update_target_universe, upper, us_holdings, dedup,
}
use stock_advisor.Portfolio.Sync.{isalpha, all_letters}
use stock_advisor.Strategy.Manual.{calculate_total_assets}
use stock_advisor.Portfolio.Holding.{held}
use stock_advisor.Prelude.Dict.{insert, lookup}
use stock_advisor.MarketData.Registry.{
  is_admitted, loaded_entry, new_tickers, normalize_kr_ticker, normalized, prune_states,
  register_batch, register_each, register_ticker, strip_left, strip_right, zeros,
}
use stock_advisor.Markets.{is_kr}

-- Samsung at 96, without a position, while the Korean market is open.
abbrev samsung : TickerState Fixed
unfolding fresh_state
samsung = record (fresh_state "005930") { current_price = num 96 }

abbrev tick_start : TickStart Fixed
tick_start = record {
  enabled = pos 1;
  ticker = some " 005930 ";
  admitted = record { is_kr_open = true; is_us_open = false };
  financials = λ t. none;
  market_open = λ t. true;
  near_close = λ t. false;
  settings = record {
    cash_ratio = fixed_double.decimal (pos 2) 1;
    entry_pct = int (minus 1);
    add_pct = int (minus 3);
    take_profit_pct = num 1;
    stop_loss_pct = int (minus 5);
  };
  today = "2025-01-06";
  now = num 5000;
}

abbrev one_run : RunInput Fixed
one_run = record {
  rankings = record { top_krx = "5930" ∷ []; top_us = []; held_tickers = [] };
  synced = [];
  reported = [];
  score_settings = record {
    base_score = pos 50;
    oversold_rsi = num 30;
    dip_buy_pct = int (minus 5);
    take_profit_pct = num 3;
    stop_loss_pct = int (minus 8);
    top10_bonus = pos 0;
  };
  inputs = λ s. record {
    panic_locked = false;
    cash_ratio = num 1;
    target_cash_ratio = nought;
    in_top10 = false;
    override = none;
    sector_dev = none;
  };
  signal_settings = record {
    buy_max = pos 30;
    sell_min = pos 70;
    take_profit_pct = num 3;
    stop_loss_pct = int (minus 8);
    add_rsi_limit = num 60;
    add_score_limit = pos 55;
    today = "2025-01-06";
  };
  get_float = λ key default. default;
  regime_status = "NEUTRAL";
  open_markets = record { is_kr_open = true; is_us_open = false };
  market_open = λ t. true;
  trade_settings = record {
    per_trade_ratio = fixed_double.decimal (pos 5) 2;
    split_count = pos 3;
    buy_threshold = pos 40;
    add_position_below = int (minus 5);
    max_sector_ratio = nought;
  };
  market = record { meta_sector = λ t. none; live_price = λ t. none; exchange_rate = num 1400 };
  macro = record { regime = "NEUTRAL"; vix = num 15; fear_greed = num 50 };
  stored = [];
  broker = λ sent o. true;
  tick_start = tick_start;
  tick_broker = λ sent o. true;
  tick_raises = false;
}

abbrev desk : Desk Fixed
desk = record {
  engine = record { enabled = true; file = none };
  states = ("005930", samsung) ∷ [];
  world = record { orders = []; trades = []; alerts = [] };
  ticks = record { orders = []; trades = [] };
  reports = 0;
}

abbrev tick_input : TickInput Fixed
tick_input = record {
  settings = tick_start.settings;
  current_price = num 96;
  holding = none;
  today = "2025-01-06";
  now = num 5000;
  near_close = false;
  total_assets = num 10_000;
  cash_balance = num 5000;
}

abbrev twice : List (RunInput Fixed × Fixed × Fixed)
twice = (one_run, num 5000, nought) ∷ (one_run, num 5000, nought) ∷ []

-- Two runs of one minute buy the position twice.
bought_twice : length (run_each twice "sean" desk).ticks.orders ≡ 2
unfolding run_each run_strategy run_trades signal_part context_of guarded_tick tick_part begin_tick
    update_target_universe target_universe all_kr all_us kr_holdings us_holdings dedup norm_ticker
    clean upper strip_left strip_right zeros is_kr_code isalpha all_letters is_kr prune_states
    register_ticker register_batch register_each new_tickers normalized normalize_kr_ticker
    is_admitted loaded_entry begin_run end_run load_state save_state user_part lookup insert
    collect_trading_signals is_analyzed is_ready execute_collected_signals holdings_map
    run_tick_trade trade_tick evaluate_tick_buy_conditions evaluate_tick_sell_conditions place_tick
    next_window entry_trigger send_portfolio_report same_snapshot snapshot calculate_total_assets
    add_up filter_kr filter_us held stored_tick fresh_state ◌*ℤ◌ ◌+ℤ◌ ◌-ℤ◌
bought_twice = refl

run_strategy-stored_tick_example :
    stored_tick "sean" (run_strategy one_run (num 5000) nought "sean" desk).engine
    ≡ stored_tick "sean" desk.engine
run_strategy-stored_tick_example = run_strategy-stored_tick one_run (num 5000) nought "sean" desk

run_each-split_sales_example :
    split_sales "005930" (run_each twice "sean" desk).world.trades
    ≤ split_sales "005930" desk.world.trades
      + (if in_cooldown "005930" "2025-01-06"
            (user_part "sean" (load_state desk.engine)).sell_cooldown
          then 0
          else 1)
run_each-split_sales_example =
    run_each-split_sales "005930" "2025-01-06" "sean" twice desk (refl, (refl, tt))

run_each-enters_example :
    let now = run_each twice "sean" desk in
    (tick_part one_run "sean" [] (num 10_000) (num 5000) now).1.ticks.orders
    ≡ entry_order tick_input ∷ now.ticks.orders
unfolding run_each run_strategy run_trades signal_part context_of guarded_tick tick_part begin_tick
    update_target_universe target_universe all_kr all_us kr_holdings us_holdings dedup norm_ticker
    clean upper strip_left strip_right zeros is_kr_code isalpha all_letters is_kr prune_states
    register_ticker register_batch register_each new_tickers normalized normalize_kr_ticker
    is_admitted loaded_entry begin_run end_run load_state save_state user_part lookup insert
    collect_trading_signals is_analyzed is_ready execute_collected_signals holdings_map
    run_tick_trade trade_tick evaluate_tick_buy_conditions evaluate_tick_sell_conditions place_tick
    next_window entry_trigger send_portfolio_report same_snapshot snapshot calculate_total_assets
    add_up filter_kr filter_us held stored_tick fresh_state ◌*ℤ◌ ◌+ℤ◌ ◌-ℤ◌
run_each-enters_example =
    run_each-enters twice "sean" desk one_run [] (num 10_000) (num 5000) tick_input refl refl
      (record { not_held = refl; has_tranche = refl; has_quantity = refl; comparable = refl })
