-- ===== src/Macro/Tests.antt =====
-- Runs of the macro service, and its theorems at concrete inputs.
use stock_advisor.Floats.Fixed.{Fixed, fixed_double}
use stock_advisor.Prelude.{
  ℕ, List, Option, String, [], arith, false, if◌then◌else◌, leb, none, refl, some, str_eq, true,
  ◌∷◌, ◌≡◌, ◌⊎◌,
}
use stock_advisor.Macro.Cache.{
  Download, MacroState, fetch_data, fresh_data, get_macro_data, invalidate_cache,
  refresh_on_release, regime_of,
}
use stock_advisor.Macro.Historical.{
  History, calculate_historical_regime, historical_fear_greed, historical_status, historical_vix,
  PastRegime,
}
use stock_advisor.Macro.History.{
  HistoryRow, get_market_regime_history, newest_first, place_row, statuses, save_market_regime,
}
use stock_advisor.Macro.Bands.{
  Quotes, ath_drawdown, btc_score, curve_score, days_return, drawdown_score, dxy_score,
  fear_greed_score, gold_score, grade, month_return, ndx_score, order_score, price_points,
  price_score, return_pct, slope_points, slope_score, spx_month_score, spx_two_weeks_score, to_20,
  vix_change, vix_level, vix_speed, yield_score, yield_spread,
}
use stock_advisor.Macro.Cache.Freshness.{Reached, bear_threshold-refresh, get_macro_data-IsFresh}
use stock_advisor.Macro.Regime.{
  Regime, Sources, bear_rows, bear_threshold_of, diff_pct_of, economic_20, economic_score,
  ema_report, get_market_regime, ma200_of, other_20, other_raw, parts_of, report_of, score_of,
  spx_1m, spx_2w, status_of, status_report, sum_of, technical_20, technical_raw, technical_score,
  vix_20, vix_score, Scored,
}
use stock_advisor.Macro.Regime.Verdict.{StatusAgrees, arguments_of, historical-live, past_of}
use stock_advisor.Macro.Regime.Ranges.{Within}
use stock_advisor.Macro.Economy.{
  add_series, get_economic_indicators, get_fred_latest_pair, indicator_of, pair_of, raw_score_of,
  read_values, rule_of, score_series, status_word,
}
use stock_advisor.Prelude.Dict.{insert, lookup}
use stock_advisor.Floats.{num, nought}
use stock_advisor.Macro.Regime.Totals.{raw_scores-bounds}
use stock_advisor.Prelude.Int.{pos, ◌≤ℤ◌, ◌*ℤ◌, ◌+ℤ◌, ◌-ℤ◌, minus}

-- Three closes in a rising market.
abbrev rising : Quotes Fixed
rising = record {
  hist_empty = false;
  closes = num 110 ∷ num 105 ∷ num 100 ∷ [];
  ewm = λ (p : ℕ). if leb p 20 then num 108 ∷ num 104 ∷ [] else num 103 ∷ num 102 ∷ [];
  mean_200 = num 100;
  ndx_month = [];
  vix_month = num 16 ∷ num 17 ∷ num 18 ∷ num 19 ∷ num 20 ∷ [];
  btc_month = [];
  dxy_month = [];
  gold_month = [];
  us_2y_yield = some (num 4);
}

rising_raw : technical_raw rising ≡ pos 100
unfolding technical_raw price_score order_score slope_score price_points slope_points spx_1m spx_2w
    days_return ndx_score spx_month_score spx_two_weeks_score drawdown_score grade month_return
    ath_drawdown ◌+ℤ◌ ◌*ℤ◌ ◌-ℤ◌
rising_raw = refl

-- A VIX of 16 that fell by a fifth within a month: 4 points for the level, 1 for the speed.
calm : vix_score (num 16) rising.vix_month ≡ pos 5
unfolding vix_score vix_level vix_speed vix_change grade ◌+ℤ◌ ◌*ℤ◌ ◌-ℤ◌
calm = refl

raw_scores-bounds_example :
    Within (minus 141) (pos 133) (technical_raw rising)
    × Within (minus 25) (pos 25) (other_raw rising (num 4))
    × vix_score (num 16) rising.vix_month
      ≡ vix_level {F = Fixed} (num 16) +ℤ vix_speed (vix_change (num 16) rising.vix_month)
raw_scores-bounds_example = raw_scores-bounds rising (num 4) (num 16)

abbrev past : History Fixed
past = record {
  quotes = rising;
  fetched_fear_greed = pos 30;
  fetched_indicators = (num 3, num 26);
  fetched_yield = num 4;
  days_diff = pos 30;
  target_day = 700;
  db_ok = true;
}

abbrev sources : Sources Fixed
sources = record {
  quotes = rising;
  fetched_vix = num 20;
  fetched_fear_greed = pos 50;
  fetched_indicators = (num 0, num 0);
  fetched_yield = num 4;
}

abbrev two_bears : List (Option String)
two_bears = some "Bear" ∷ some "Bear" ∷ []

round_zero : fixed_double.round nought 2 ≡ nought
unfolding ◌*ℤ◌ ◌+ℤ◌ ◌-ℤ◌
round_zero = refl

historical-live_example :
    (live : Scored Fixed) × (get_market_regime sources two_bears (arguments_of past)
      ≡ Regime.scored live)
    × (calculate_historical_regime past [] ≡ (
      PastRegime.dated (record {
        vix = historical_vix past.quotes.vix_month;
        fear_greed = historical_fear_greed past;
        us_10y_yield = past.fetched_yield;
        market_regime = past_of live;
      }),
      save_market_regime past.db_ok past.target_day
          (Regime.scored (record live { status = historical_status live.regime_score }))
          (historical_vix past.quotes.vix_month)
          (historical_fear_greed past)
          [],
    ))
    × StatusAgrees live.regime_score two_bears
historical-live_example = historical-live past sources two_bears [] refl refl refl round_zero

-- The latest consumer prices rose and unemployment fell, and no other series has two values.
abbrev fetched : String → Option (Fixed × Fixed)
fetched key =
    if str_eq key "CPIAUCSL"
    then some (num 310, num 309)
    else if str_eq key "UNRATE"
    then some (num 4, num 5)
    else none

abbrev read_one : String → Option Fixed
read_one s =
    if str_eq s "1.5" then some (pos 15_000) else if str_eq s "1.2" then some (pos 12_000) else none

abbrev observed : List String
observed = "." ∷ "1.5" ∷ "" ∷ "1.2" ∷ "x" ∷ []

two_read : get_fred_latest_pair read_one (some observed) ≡ some (pos 15_000, pos 12_000)
unfolding get_fred_latest_pair read_values pair_of
two_read = refl

abbrev download : ℕ → Download Fixed
download seconds = record {
  now = num seconds;
  today = 20;
  db_ok = true;
  vix = num 35;
  fear_greed = pos 10;
  economic = get_economic_indicators fetched;
  us_10y_yield = num 6;
  crypto = [];
  commodities = [];
  indices = [];
  sources = record sources { quotes = record rising { closes = num 50 ∷ num 105 ∷ num 100 ∷ [] } };
}

abbrev day_before : HistoryRow Fixed
day_before = record {
  date = 19;
  row_status = some "Neutral";
  row_score = pos 50;
  row_vix = num 20;
  row_fear_greed = pos 50;
  row_spx_price = num 100;
  row_spx_ma200 = num 100;
  row_spx_diff_pct = num 0;
  row_components = none;
}

abbrev started : MacroState Fixed
started = record { cache = none; history = day_before ∷ [] }

-- One call after another, within the hour.
get_macro_data-IsFresh_example :
    (let data' = (get_macro_data (download 1000) (get_macro_data (download 10) started).1).0 in
      (data'.timestamp ≡ (download 1000).now)
      ⊎ (fixed_double.lt (fixed_double.sub (download 1000).now data'.timestamp) (num 3600) ≡ true))
get_macro_data-IsFresh_example =
    get_macro_data-IsFresh (download 1000) (get_macro_data (download 10) started).1
      (Reached.requested (download 10) started (Reached.start (day_before ∷ [])))

is_bear : (status_report (refresh_on_release (download 10) started).0.market_regime).0 ≡ "Bear"
unfolding refresh_on_release invalidate_cache get_macro_data fetch_data fresh_data regime_of
    get_market_regime parts_of report_of score_of sum_of technical_20 technical_score technical_raw
    price_score order_score slope_score price_points slope_points spx_1m spx_2w days_return
    ndx_score spx_month_score spx_two_weeks_score drawdown_score grade month_return ath_drawdown
    vix_20 vix_score vix_level vix_speed vix_change economic_20 economic_score other_20 other_raw
    yield_score curve_score yield_spread btc_score dxy_score gold_score fear_greed_score to_20
    status_of status_report bear_threshold_of bear_rows get_market_regime_history newest_first
    place_row ma200_of diff_pct_of ema_report get_economic_indicators score_series add_series
    indicator_of raw_score_of rule_of lookup insert status_word return_pct ◌+ℤ◌ ◌*ℤ◌ ◌-ℤ◌
is_bear = refl

bear_threshold-refresh_example :
    pos 44
    ≤ℤ bear_threshold_of (
        statuses
          (get_market_regime_history true 70 (refresh_on_release (download 10) started).1.history))
bear_threshold-refresh_example =
    bear_threshold-refresh (download 10) started (ground arith, tt) refl is_bear
