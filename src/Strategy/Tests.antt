-- ===== src/Strategy/Tests.antt =====
-- Runs of the trading strategy, and its theorems at concrete inputs.
use stock_advisor.Floats.Fixed.{Fixed, fixed_double}
use stock_advisor.Prelude.{
  ◌+◌, [], false, if◌then◌else◌, length, none, refl, some, true, ◌∷◌, ◌≡◌, ◌≤◌,
}
use stock_advisor.Floats.{◌<?◌, int, nought, num}
use stock_advisor.Strategy.Trading.Safety.{Accounted, execute_trade-Accounted}
use stock_advisor.Strategy.Score.StopLoss.{AtStopLoss, IsPlain, stop_loss_score}
use stock_advisor.Strategy.Trading.{
  Context, Request, World, domestic, execute_sell_order, execute_trade, place, sell, sell_of,
  split_quantity,
}
use stock_advisor.Portfolio.Holding.{Holding, held}
use stock_advisor.Strategy.Score.{
  Inputs, Macro, ScoreSettings, calculate_score, clamp, holding_profit_pct, minus,
}
use stock_advisor.Strategy.Signals.Collected.{IsPass, execute_collected_signals-IsPass}
use stock_advisor.Strategy.Sectors.{Market}
use stock_advisor.Strategy.Signals.{
  Run, Signal, SignalSettings, add_buy_step, attempt, execute_collected_signals, in_cooldown,
  score_step, signal_profit_pct, signal_step, take_profit_step,
}
use stock_advisor.Tickers.State.{TickerState, fresh_state}
use stock_advisor.Strategy.Limits.{TradeSettings}
use stock_advisor.Strategy.Score.Explained.{calculate_score-explained, explained}
use stock_advisor.Strategy.Signals.Cooldown.{execute_collected_signals-split_sales, split_sales}
use stock_advisor.Prelude.Dict.{insert, lookup}
use stock_advisor.Prelude.Int.{pos, ◌*ℤ◌, ◌+ℤ◌, ◌-ℤ◌}

abbrev score_settings : ScoreSettings Fixed
score_settings = record {
  base_score = pos 50;
  oversold_rsi = num 30;
  dip_buy_pct = int (minus 5);
  take_profit_pct = num 3;
  stop_loss_pct = int (minus 8);
  top10_bonus = pos 0;
}

-- Extreme fear in a rising market.
abbrev fear : Macro Fixed
fear = record { regime = "BULL"; vix = num 30; fear_greed = num 20 }

abbrev inputs : Inputs Fixed
inputs = record {
  panic_locked = false;
  cash_ratio = num 1;
  target_cash_ratio = nought;
  in_top10 = false;
  override = none;
  sector_dev = none;
}

abbrev apple_state : TickerState Fixed
unfolding fresh_state
apple_state = record (fresh_state "AAPL") {
  current_price = num 90;
  rsi = num 50;
  ema = (200, num 100) ∷ [];
}

-- Bought at 100, now at 90: 10 % down, below the stop loss.
abbrev apple : Holding Fixed
apple = record {
  ticker = "AAPL";
  name = some "Apple";
  quantity = num 9;
  buy_price = num 100;
  current_price = some (num 90);
  sector = some "Technology";
}

abbrev market : Market Fixed
market = record { meta_sector = λ t. none; live_price = λ t. none; exchange_rate = num 1400 }

abbrev trade_settings : TradeSettings Fixed
trade_settings = record {
  per_trade_ratio = fixed_double.decimal (pos 5) 2;
  split_count = pos 3;
  buy_threshold = pos 40;
  add_position_below = int (minus 5);
  max_sector_ratio = nought;
}

-- All markets open, and a broker that takes every order.
abbrev context : Context Fixed
context = record {
  market_open = λ t. true;
  usd_cash = num 1000;
  settings = trade_settings;
  market = market;
  macro = fear;
  stored = apple ∷ [];
  target_kr = nought;
  target_us = nought;
  total_assets = num 2_000_000;
  cash_balance = num 1_000_000;
  broker = λ sent o. true;
}

abbrev quiet : World Fixed
quiet = record { orders = []; trades = []; alerts = [] }

abbrev sale : Request Fixed
sale = record {
  ticker = "AAPL";
  profit_pct = int (minus 10);
  is_holding = true;
  score = pos 70;
  current_price = num 90;
  holding = some apple;
}

abbrev signal_settings : SignalSettings Fixed
signal_settings = record {
  buy_max = pos 30;
  sell_min = pos 70;
  take_profit_pct = num 3;
  stop_loss_pct = int (minus 8);
  add_rsi_limit = num 60;
  add_score_limit = pos 55;
  today = "2025-01-06";
}

abbrev sell_signal : Signal Fixed
sell_signal = record {
  ticker = "AAPL";
  state = apple_state;
  holding = some apple;
  score = pos 70;
  reasons = [];
}

abbrev fresh_run : Run Fixed
fresh_run = record {
  sell_cooldown = [];
  add_buy_cooldown = [];
  trade_executed = false;
  world = quiet;
}

-- A third of nine is sold, by the domestic order.
sold_part_of_apple :
    (execute_trade context (apple ∷ []) sell sale quiet).1.orders
    ≡ record { side = sell; ticker = "AAPL"; quantity = pos 3; venue = domestic } ∷ []
unfolding execute_trade execute_sell_order sell_of place split_quantity held ◌*ℤ◌ ◌+ℤ◌ ◌-ℤ◌
sold_part_of_apple = refl

-- The second signal of the day for the same ticker sells nothing.
one_part_a_day :
    split_sales "AAPL"
      (execute_collected_signals context
        (apple ∷ [])
        signal_settings
        (sell_signal ∷ sell_signal ∷ [])
        fresh_run).world.trades
    ≡ 1
unfolding split_sales execute_collected_signals signal_step score_step take_profit_step add_buy_step
    attempt in_cooldown signal_profit_pct execute_trade execute_sell_order sell_of place
    split_quantity held lookup insert fresh_state ◌*ℤ◌ ◌+ℤ◌ ◌-ℤ◌
one_part_a_day = refl

calculate_score-explained_example :
    let (score, reasons) = calculate_score score_settings apple_state (some apple) fear inputs in
    score ≡ clamp (explained score_settings.base_score reasons)
unfolding fresh_state ◌*ℤ◌ ◌+ℤ◌ ◌-ℤ◌
calculate_score-explained_example =
    calculate_score-explained score_settings apple_state (some apple) fear inputs refl refl

apple-AtStopLoss : AtStopLoss score_settings apple_state apple
unfolding holding_profit_pct fresh_state ◌*ℤ◌ ◌+ℤ◌ ◌-ℤ◌
apple-AtStopLoss = record { reached = refl; not_above = refl; no_profit = refl }

apple-IsPlain : IsPlain score_settings apple_state inputs
unfolding fresh_state ◌*ℤ◌ ◌+ℤ◌ ◌-ℤ◌
apple-IsPlain = record {
  priced = refl;
  unlocked = refl;
  no_target_buy = refl;
  no_target_sell = refl;
  not_top10 = refl;
  no_override = refl;
  no_sector = refl;
}

stop_loss_score_example :
    (calculate_score score_settings apple_state (some apple) fear inputs).0
    ≡ (if inputs.cash_ratio <? inputs.target_cash_ratio then pos 70 else pos 55)
unfolding fresh_state ◌*ℤ◌ ◌+ℤ◌ ◌-ℤ◌
stop_loss_score_example =
    stop_loss_score score_settings apple_state apple fear inputs apple-AtStopLoss apple-IsPlain refl
      refl

execute_trade-Accounted_example :
    Accounted quiet
      (execute_trade context (apple ∷ []) sell sale quiet).0
      (execute_trade context (apple ∷ []) sell sale quiet).1
execute_trade-Accounted_example = execute_trade-Accounted context (apple ∷ []) sell sale quiet

execute_collected_signals-split_sales_example :
    split_sales "AAPL"
      (execute_collected_signals context
        (apple ∷ [])
        signal_settings
        (sell_signal ∷ sell_signal ∷ [])
        fresh_run).world.trades
    ≤ split_sales "AAPL" fresh_run.world.trades
      + (if in_cooldown "AAPL" signal_settings.today fresh_run.sell_cooldown then 0 else 1)
execute_collected_signals-split_sales_example =
    execute_collected_signals-split_sales "AAPL" context (apple ∷ []) signal_settings
      (sell_signal ∷ sell_signal ∷ []) fresh_run

execute_collected_signals-IsPass_example :
    IsPass (length (sell_signal ∷ sell_signal ∷ [])) fresh_run (
      execute_collected_signals context
        (apple ∷ [])
        signal_settings
        (sell_signal ∷ sell_signal ∷ [])
        fresh_run)
execute_collected_signals-IsPass_example =
    execute_collected_signals-IsPass context (apple ∷ []) signal_settings
      (sell_signal ∷ sell_signal ∷ []) fresh_run
