-- ===== src/Macro/Historical.antt =====
-- `calculate_historical_regime` in services/market/macro_service.py, with the scoring of Macro/Rescoring on
-- the quotes of a past date, its own VIX, fear and greed, and threshold, and the row that it saves.
use stock_advisor.Prelude.{List, String, [], if◌then◌else◌, leb, length, ◌∷◌, Bool, some, ℕ}
use stock_advisor.Prelude.Int.{◌+ℤ◌, clamp_ℤ, leb_ℤ, pos, ℤ}
use stock_advisor.Macro.Regime.{Components}
use stock_advisor.Floats.{Double, nought, num, truthy, ◌⊖◌, ◌⊗◌, ◌⊘◌}
use stock_advisor.Macro.History.{HistoryRow, write_row}
use stock_advisor.Macro.Bands.{Quotes, current_of, ema_of}
use stock_advisor.Macro.Rescoring.Points.{
  btc_points, curve_points, dxy_points, econ_score_of, fng_points, gold_points, spread_of,
  vix_1m_chg_of, vix_points, yield_points,
}
use stock_advisor.Macro.Rescoring.{
  month_change, spx_change, ath_change, technical_score_of, to_twenty,
}

-- What the function fetches: quotes up to the date, the index of today, the summary of the FRED
-- indicators, the yield, and the days from the date to today. `db_ok` says whether the database
-- takes the row.
pub record History (F : Type 0) : Type 0 where
  pub quotes : Quotes F
  pub fetched_fear_greed : ℤ
  pub fetched_indicators : F × F
  pub fetched_yield : F
  pub days_diff : ℤ
  pub target_day : ℕ
  pub db_ok : Bool

-- `regime_data`, which has no threshold.
pub record PastReport (F : Type 0) : Type 0 where
  pub status : String
  pub current : F
  pub ma200 : F
  pub diff_pct : F
  pub regime_score : ℤ
  pub ema : List F
  pub components : Components F

pub record Dated (F : Type 0) : Type 0 where
  pub vix : F
  pub fear_greed : ℤ
  pub us_10y_yield : F
  pub market_regime : PastReport F

-- No rows at all give an error text; rows without a close make `iloc[-1]` raise.
pub data PastRegime (F : Type 0) : Type 0 where
  no_spx_data : PastRegime F
  index_error : PastRegime F
  dated : Dated F → PastRegime F

unfoldable pub historical_status : ℤ → String
historical_status regime_score =
    if leb_ℤ (pos 65) regime_score
    then "Bull"
    else if leb_ℤ regime_score (pos 40)
    then "Bear"
    else "Neutral"

module _ {F : Type 0} ⦃d : Double F⦄ where
  unfoldable pub historical_vix : List F → F
  historical_vix [] = num 20
  historical_vix (x ∷ xs) = d.round x 2

  unfoldable pub historical_fear_greed : History F → ℤ
  historical_fear_greed h = if leb_ℤ h.days_diff (pos 7) then h.fetched_fear_greed else pos 50

  unfoldable pub historical_components : History F → Components F
  historical_components h =
      let q = h.quotes in
      let vix = historical_vix q.vix_month in
      let spread = spread_of h.fetched_yield q.us_2y_yield in
      let btc = month_change q.btc_month in
      let dxy = month_change q.dxy_month in
      let gold = month_change q.gold_month in
      let other_raw =
        yield_points h.fetched_yield
        +ℤ curve_points spread
        +ℤ dxy_points dxy
        +ℤ btc_points btc
        +ℤ gold_points gold in
      record {
        technical = to_twenty F (technical_score_of q) (pos 30);
        vix_part = to_twenty F (vix_points vix q.vix_month) (pos 12);
        fear_greed_part = to_twenty F (fng_points (historical_fear_greed h)) (pos 10);
        economic =
            to_twenty F (econ_score_of h.fetched_indicators.0 h.fetched_indicators.1) (pos 10);
        other = to_twenty F other_raw (pos 26);
        spx_1m_ret = spx_change 20 q.closes;
        ndx_1m_ret = month_change q.ndx_month;
        spx_2w_ret = spx_change 10 q.closes;
        spx_from_ath = ath_change q.closes;
        yield_spread_10y2y = spread;
        vix_1m_chg = vix_1m_chg_of vix q.vix_month;
        btc_1m_ret = btc;
        dxy_1m_ret = dxy;
        gold_1m_ret = gold;
      }

  -- The sum of the parts, kept between 0 and 100.
  unfoldable pub past_score : Components F → ℤ
  past_score c =
      clamp_ℤ (pos 0) (pos 100)
        (c.technical +ℤ c.vix_part +ℤ c.fear_greed_part +ℤ c.economic +ℤ c.other)

  unfoldable pub historical_report : History F → PastReport F
  historical_report h =
      let q = h.quotes in
      let c = historical_components h in
      let current_price = current_of q in
      let average = if leb 200 (length q.closes) then q.mean_200 else ema_of q 200 in
      let rounded = λ (p : ℕ). d.round (ema_of q p) 2 in
      record {
        status = historical_status (past_score c);
        current = d.round current_price 2;
        ma200 = d.round average 2;
        diff_pct =
            if truthy average
            then d.round ((current_price ⊖ average) ⊘ average ⊗ num 100) 2
            else nought;
        regime_score = past_score c;
        ema = rounded 5 ∷ rounded 20 ∷ rounded 60 ∷ rounded 120 ∷ rounded 200 ∷ [];
        components = c;
      }

  -- The row that `save_market_regime` makes of the report.
  unfoldable pub past_row : ℕ → PastReport F → F → ℤ → HistoryRow F
  past_row day r vix fear_greed = record {
    date = day;
    row_status = some r.status;
    row_score = r.regime_score;
    row_vix = vix;
    row_fear_greed = fear_greed;
    row_spx_price = r.current;
    row_spx_ma200 = r.ma200;
    row_spx_diff_pct = r.diff_pct;
    row_components = some r.components;
  }

  -- The result, and the table afterwards; a database that fails leaves it as it is.
  unfoldable pub calculate_historical_regime :
      History F → List (HistoryRow F) → PastRegime F × List (HistoryRow F)
  calculate_historical_regime h rows =
      let vix = historical_vix h.quotes.vix_month in
      let fear_greed = historical_fear_greed h in
      let r = historical_report h in
      if h.quotes.hist_empty
      then (PastRegime.no_spx_data, rows)
      else if leb (length h.quotes.closes) 0
      then (PastRegime.index_error, rows)
      else (
        PastRegime.dated (record {
          vix = vix;
          fear_greed = fear_greed;
          us_10y_yield = h.fetched_yield;
          market_regime = r;
        }),
        if h.db_ok then write_row (past_row h.target_day r vix fear_greed) rows else rows,
      )
