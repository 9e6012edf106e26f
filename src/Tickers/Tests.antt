-- ===== src/Tickers/Tests.antt =====
-- Runs of the ticker state, and its theorems at concrete inputs.
use stock_advisor.Floats.Fixed.{Fixed, fixed_double}
use stock_advisor.Prelude.{List, Option, [], none, refl, some, true, ℕ, ◌∷◌, ◌≡◌}
use stock_advisor.Tickers.State.{
  TickerState, ema_at, fresh_state, is_ready, long_ema, next_ema, recalculate_indicators,
}
use stock_advisor.Floats.{num}
use stock_advisor.Prelude.Int.{pos, ◌*ℤ◌, ◌+ℤ◌, ◌-ℤ◌}

abbrev live : TickerState Fixed
unfolding fresh_state
live = record (fresh_state "AAPL") {
  current_price = num 110;
  rsi = num 50;
  ema = (5, num 100) ∷ (200, num 90) ∷ [];
}

-- A third of the way from 100 to 110, in four decimals.
one_step : ema_at 5 (recalculate_indicators live).ema ≡ some (pos 1_033_330)
unfolding ema_at recalculate_indicators next_ema fresh_state ◌*ℤ◌ ◌+ℤ◌ ◌-ℤ◌
one_step = refl

live_ready : is_ready live ≡ true
unfolding is_ready long_ema ema_at fresh_state ◌*ℤ◌ ◌+ℤ◌ ◌-ℤ◌
live_ready = refl

abbrev given : List (ℕ × Option Fixed)
given = (5, none) ∷ (200, some (num 95)) ∷ []
