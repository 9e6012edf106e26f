-- ===== src/Alerts/Tests.antt =====
-- Runs of the alerts, and their theorems at concrete inputs.
use stock_advisor.Floats.Fixed.{Fixed, fixed_double}
use stock_advisor.Prelude.{
  ◌+◌, List, String, [], if◌then◌else◌, length, none, refl, some, str_eq, ◌∷◌, ◌≡◌,
}
use stock_advisor.Alerts.{
  AlertState, Figures, check_and_alert, check_ma_crossover, check_rsi, check_undervalued,
  check_volatility, crossing_of, crossings, save_current_state, send_once, volatility_of, was_sent,
}
use stock_advisor.Alerts.Once.{IsUnique, count_keyed, run_checks, run_checks-once}
use stock_advisor.Prelude.Dict.{insert, lookup}
use stock_advisor.Floats.{num}
use stock_advisor.Prelude.Int.{◌*ℤ◌, ◌+ℤ◌, ◌-ℤ◌}

abbrev figures : Figures Fixed
figures = record {
  price = some (num 100);
  rsi = some (num 20);
  fair_value_dcf = some (num 200);
  hour = "2025-01-02 10";
  ema = λ n. if str_eq n "ema20" then some (num 101) else none;
}

abbrev quiet : AlertState Fixed
quiet = record { sent_alerts = []; prev_data = [] }

abbrev twice : List (String × Figures Fixed)
twice = ("AAPL", figures) ∷ ("AAPL", figures) ∷ []

-- Two checks within an hour send both alerts once.
two_alerts : count_keyed (run_checks twice quiet).0 ≡ 2
unfolding run_checks check_and_alert check_volatility volatility_of check_rsi check_undervalued
    check_ma_crossover crossings crossing_of save_current_state send_once was_sent lookup insert
    ◌*ℤ◌ ◌+ℤ◌ ◌-ℤ◌
two_alerts = refl

run_checks-once_example :
    IsUnique (run_checks twice quiet).1.sent_alerts
    × (count_keyed (run_checks twice quiet).0 + length quiet.sent_alerts
        ≡ length (run_checks twice quiet).1.sent_alerts)
run_checks-once_example = run_checks-once twice quiet tt
