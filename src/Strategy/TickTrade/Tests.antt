-- ===== src/Strategy/TickTrade/Tests.antt =====
-- Runs of tick trading, and its theorems at them.
use stock_advisor.Floats.Fixed.{Fixed, fixed_double}
use stock_advisor.Prelude.{Bool, List, [], false, none, refl, some, true, ◌∷◌, ◌≡◌}
use stock_advisor.Portfolio.Holding.{Holding}
use stock_advisor.Strategy.TickTrade.Session.{KeepsBuys, run_tick_trade-KeepsBuys}
use stock_advisor.Strategy.TickTrade.{
  TickInput, TickOrder, TickSettings, TickState, TickWorld, evaluate_tick_buy_conditions,
  evaluate_tick_sell_conditions, fresh_day, next_window, place_tick, run_tick_trade, trade_tick,
}
use stock_advisor.Strategy.Trading.{buy}
use stock_advisor.Floats.{int, num}
use stock_advisor.Strategy.Score.{minus}
use stock_advisor.Prelude.Int.{pos, ◌*ℤ◌, ◌+ℤ◌, ◌-ℤ◌}

abbrev tick_settings : TickSettings Fixed
tick_settings = record {
  cash_ratio = fixed_double.decimal (pos 2) 1;
  entry_pct = int (minus 1);
  add_pct = int (minus 3);
  take_profit_pct = num 1;
  stop_loss_pct = int (minus 5);
}

-- Bought at 100, now at 96: 4 % down, so that an additional buy is due.
abbrev position : Holding Fixed
position = record {
  ticker = "005930";
  name = none;
  quantity = num 10;
  buy_price = num 100;
  current_price = none;
  sector = none;
}

abbrev input : TickInput Fixed
input = record {
  settings = tick_settings;
  current_price = num 96;
  holding = some position;
  today = "2025-01-06";
  now = num 5000;
  near_close = false;
  total_assets = num 10_000;
  cash_balance = num 5000;
}

abbrev added : TickState Fixed
added = record (fresh_day "2025-01-06") { second_done = true }

abbrev no_ticks : TickWorld Fixed
no_ticks = record { orders = []; trades = [] }

abbrev takes_all : List TickOrder → TickOrder → Bool
takes_all sent order = true

-- Half of a fifth of the assets buys ten at 96, once a day.
first_add :
    (run_tick_trade takes_all input none no_ticks).2.orders
    ≡ record { side = buy; quantity = pos 10 } ∷ []
unfolding run_tick_trade trade_tick evaluate_tick_sell_conditions evaluate_tick_buy_conditions
    place_tick next_window ◌*ℤ◌ ◌+ℤ◌ ◌-ℤ◌
first_add = refl

run_tick_trade-KeepsBuys_example :
    KeepsBuys no_ticks (run_tick_trade takes_all input (some added) no_ticks).2
run_tick_trade-KeepsBuys_example =
    run_tick_trade-KeepsBuys takes_all input position added no_ticks refl refl refl
