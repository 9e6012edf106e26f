-- ===== src/Financials/Tests.antt =====
-- Runs of services/analysis/financial_service.py on a few rows, and the theorems at them.
use stock_advisor.Floats.Fixed.{Fixed, fixed_double}
use stock_advisor.Financials.{
  status, FinancialRow, PriceAnswer, fetch_price, get_financials_history, get_latest_financials,
  AnalyzedMetrics,
}
use stock_advisor.Financials.Metrics.{found, override, Ask, DcfInput, FinancialState}
use stock_advisor.Dcf.{DcfConfig, calculate_dcf}
use stock_advisor.Financials.Kept.{IsKept, get_dcf_data-IsKept}
use stock_advisor.Financials.NoValue.{IsLeftToBroker, get_dcf_data-no_value}
use stock_advisor.Financials.Series.{IsNewestFirst, IsSeries, build_yearly_eps-IsSeries}
use stock_advisor.Prelude.{
  List, Option, [], arith, false, none, refl, some, str_eq, true, ℕ, ◌∷◌, ◌≡◌,
}
use stock_advisor.Financials.Overrides.{OverrideParams, given_or, save_override}
use stock_advisor.Financials.Growth.{add_point, build_yearly_eps, calc_cagr}
use stock_advisor.Financials.DcfInputs.{fresh_entry, get_dcf_data, latest_input, yfinance_input}
use stock_advisor.Financials.Restored.{get_dcf_data-save_override, non_zero, before_of}
use stock_advisor.Prelude.Dict.{lookup}
use stock_advisor.Prelude.Int.{◌*ℤ◌, ◌+ℤ◌, ◌-ℤ◌, minus}
use stock_advisor.Floats.{nought, num, int}
use stock_advisor.Prelude.Sorting.{sort_desc}

abbrev no_figures : AnalyzedMetrics (Option Fixed)
no_figures = record {
  per = none;
  pbr = none;
  roe = none;
  eps = none;
  bps = none;
  dividend_yield = none;
  current_price = none;
  market_cap = none;
}

abbrev row : ℕ → ℕ → ℕ → FinancialRow Fixed
row day year eps = record {
  ticker = "005930";
  day = day;
  year = year;
  base_time = num day;
  figures = record no_figures { eps = some (num eps) };
}

-- Two rows of one year, a year of a loss, and an older year.
abbrev history : List (FinancialRow Fixed)
history = row 900 2025 30 ∷ row 800 2025 28 ∷ row 500 2024 0 ∷ row 100 2023 20 ∷ []

series_of_history : build_yearly_eps 5 history ≡ (2023, num 20) ∷ (2025, num 30) ∷ []
unfolding build_yearly_eps add_point ◌*ℤ◌ ◌+ℤ◌ ◌-ℤ◌
series_of_history = refl

history-IsNewestFirst : IsNewestFirst 2025 history
history-IsNewestFirst = (omega arith, (omega arith, (omega arith, (omega arith, tt))))

build_yearly_eps-IsSeries_example : IsSeries 5 (build_yearly_eps 5 history)
build_yearly_eps-IsSeries_example =
    build_yearly_eps-IsSeries 5 2025 history (omega arith) history-IsNewestFirst

-- Stand-ins for Python's functions.
abbrev first_of_two : Fixed → Fixed → Fixed
first_of_two x y = x

abbrev same : Fixed → Fixed
same x = x

abbrev same_power : Fixed → ℕ → Fixed
same_power x n = x

abbrev price_answer : PriceAnswer Fixed
price_answer = status 200 (some (("eps", some (num 30)) ∷ ("per", some (num 12)) ∷ []))

abbrev ask : Ask Fixed
ask = record {
  now = num 5000;
  date = record { today = 901; this_year = 2025; midnight = num 4900 };
  fundamentals = none;
  payload = fetch_price true price_answer;
  metrics_payload = fetch_price true price_answer;
  written = true;
}

abbrev start_state : FinancialState Fixed
start_state = record { recent_metrics = []; dcf_inputs = []; table = []; overrides = [] }

abbrev config : DcfConfig Fixed
config = record {
  equity_risk_premium = num 0;
  discount_rate_floor = num 0;
  discount_rate_ceil = num 1;
  default_discount_rate = num 1;
  stage1_years = 5;
}

zero_order : fixed_double.lt nought nought ≡ false
unfolding ◌*ℤ◌ ◌+ℤ◌ ◌-ℤ◌
zero_order = refl

start_state-IsLeftToBroker : IsLeftToBroker ask "005930" start_state
unfolding fresh_entry build_yearly_eps get_financials_history get_latest_financials yfinance_input
    latest_input lookup sort_desc
start_state-IsLeftToBroker = (refl, refl, refl, refl, refl)

get_dcf_data-no_value_example :
    (x : DcfInput Fixed) × ((get_dcf_data first_of_two same ask "005930" start_state).0 ≡ found x)
    × (calculate_dcf same_power config (some x.values) ≡ nought)
get_dcf_data-no_value_example =
    get_dcf_data-no_value first_of_two same same_power config ask "005930" start_state true
      price_answer start_state-IsLeftToBroker refl zero_order

other_ticker : str_eq "005930" "AAPL" ≡ false
other_ticker = refl

get_dcf_data-IsKept_example :
    IsKept "005930" "AAPL" start_state (get_dcf_data first_of_two same ask "005930" start_state)
get_dcf_data-IsKept_example =
    get_dcf_data-IsKept first_of_two same ask "005930" "AAPL" start_state other_ticker

-- A value of 70, with the cash flow left as it is.
abbrev params : OverrideParams Fixed
params = record {
  fcf_per_share = none;
  beta = none;
  growth_rate = none;
  fair_value = some (num 70);
}

get_dcf_data-save_override_example :
    let before = lookup "005930" start_state.overrides in
    (x : DcfInput Fixed) × ((get_dcf_data first_of_two same ask "005930"
        (save_override (num 4000) true "005930" params start_state)).0
      ≡ found x)
    × (x.source ≡ override)
    × (x.timestamp ≡ num 4000)
    × ((x.values).fcf_per_share
        ≡ given_or params.fcf_per_share (before_of (λ r. r.fcf_per_share) before))
    × ((x.values).fallback_fair_value
        ≡ non_zero (given_or params.fair_value (before_of (λ r. r.fair_value) before)))
get_dcf_data-save_override_example =
    get_dcf_data-save_override first_of_two same (num 4000) ask "005930" params start_state

-- A fall from 20 to -5 over two years has no growth rate.
negative_last : calc_cagr first_of_two (num 20 ∷ num 10 ∷ int (minus 5) ∷ []) ≡ none
unfolding calc_cagr ◌*ℤ◌ ◌+ℤ◌ ◌-ℤ◌
negative_last = refl
