-- ===== src/Backtest/Tests.antt =====
-- A simulation, and its order of trades at it.
use stock_advisor.Floats.Fixed.{Fixed, fixed_double}
use stock_advisor.Backtest.{
  Bar, all_in, buy_in, invest_amount, run_bars, sell_out, step_bar, trade_bar,
}
use stock_advisor.Prelude.{List, [], none, refl, some, true, ◌∷◌, ◌≡◌, false}
use stock_advisor.Floats.{num, nought}
use stock_advisor.Backtest.Alternation.{run_bars-sales_follow_buys, sales_follow_buys}
use stock_advisor.Prelude.Int.{◌*ℤ◌, ◌+ℤ◌, ◌-ℤ◌}

abbrev bars : List (Bar Fixed)
bars =
    record { close = num 100; rsi = none }
    ∷ record { close = num 100; rsi = some (num 20) }
    ∷ record { close = num 120; rsi = some (num 70) }
    ∷ record { close = num 130; rsi = some (num 80) }
    ∷ []

-- All in at 100, out at 120.
final_cash : (run_bars all_in bars).cash ≡ num 12_000
unfolding run_bars step_bar trade_bar buy_in sell_out invest_amount ◌*ℤ◌ ◌+ℤ◌ ◌-ℤ◌
final_cash = refl

strict : fixed_double.lt nought nought ≡ false
unfolding ◌*ℤ◌ ◌+ℤ◌ ◌-ℤ◌
strict = refl

run_bars-sales_follow_buys_example : sales_follow_buys (run_bars all_in bars).history ≡ true
run_bars-sales_follow_buys_example = run_bars-sales_follow_buys all_in bars strict
