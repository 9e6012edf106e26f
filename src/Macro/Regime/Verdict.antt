-- ===== src/Macro/Regime/Verdict.antt =====
-- The state that a score stands for: its bands, the threshold that follows the history, and the
-- agreement of the live computation with the historical one.
use stock_advisor.Prelude.{
  List, Option, String, arith, ◌↔◌, ◌≡◌, ◌⊎◌, eq_iff, false, leb, length, some, true, Bool, ap,
  if◌then◌else◌, refl, sym, ◌∙◌,
}
use stock_advisor.Macro.Regime.{
  bear_threshold_of, status_of, Arguments, Regime, Sources, get_market_regime, report_of,
  Components, Scored, diff_pct_of, economic_20, ema_report, ma200_of, other_20, other_raw, parts_of,
  score_of, spx_1m, spx_2w, sum_of, technical_20, vix_20,
}
use stock_advisor.Macro.Historical.{
  historical_status, History, calculate_historical_regime, historical_components,
  historical_fear_greed, historical_report, historical_vix, PastRegime, PastReport, past_row,
  past_score,
}
use stock_advisor.Prelude.Int.{pos, ℤ, ◌≤ℤ◌, ◌+ℤ◌}
use stock_advisor.Floats.{Double, num, nought, truthy, ◌⊖◌, ◌⊗◌, ◌⊘◌}
use stock_advisor.Macro.Bands.{Quotes, current_of, month_return, to_20, yield_spread}
use stock_advisor.Macro.History.{HistoryRow, row_of, save_market_regime}
use stock_advisor.Macro.Rescoring.Points.{
  btc_points, curve_points, dxy_points, gold_points, spread_of, yield_points,
}
use stock_advisor.Macro.Rescoring.Same.{
  btc_points-btc_score, curve_points-curve_score, dxy_points-dxy_score,
  econ_score_of-economic_score, fng_points-fear_greed_score, gold_points-gold_score,
  month_change-month_return, spread_of-yield_spread, spx_change-days_return,
  ath_change-ath_drawdown, technical_score_of-technical_score, to_twenty-to_20,
  vix_1m_chg_of-vix_change, vix_points-vix_score, yield_points-yield_score,
}
use stock_advisor.Macro.Rescoring.{month_change, to_twenty}

-- With the threshold of any history, a score is "Bull" exactly from 65 on, and "Bear" exactly up
-- to the threshold.
pub status_of-bands :
    (score : ℤ) (rows : List (Option String))
    → ((status_of score (bear_threshold_of rows) ≡ "Bull") ↔ (pos 65 ≤ℤ score))
      × ((status_of score (bear_threshold_of rows) ≡ "Bear") ↔ (score ≤ℤ bear_threshold_of rows))
unfolding status_of bear_threshold_of
status_of-bands score rows = ground (
  arith,
  eq_iff "Bull" "Bear",
  eq_iff "Bull" "Neutral",
  eq_iff "Neutral" "Bull",
  eq_iff "Bear" "Bull",
  eq_iff "Bear" "Neutral",
  eq_iff "Neutral" "Bear",
)

-- The two statuses of a score: the same, or "Neutral" in the past and "Bear" now, for a score above
-- 40 that a history of bear rows still counts as bear.
abbrev pub StatusAgrees : ℤ → List (Option String) → Type 0
StatusAgrees score rows =
    (historical_status score ≡ status_of score (bear_threshold_of rows))
    ⊎ ((historical_status score ≡ "Neutral")
        × (status_of score (bear_threshold_of rows) ≡ "Bear")
        × (pos 41 ≤ℤ score)
        × (score ≤ℤ bear_threshold_of rows))

historical_status-live : (score : ℤ) (rows : List (Option String)) → StatusAgrees score rows
unfolding status_of bear_threshold_of historical_status
historical_status-live score rows = ground arith

twenty : (F : Type 0) ⦃d : Double F⦄ (a b m : ℤ) → a ≡ b → to_twenty F a m ≡ to_20 F b m
twenty F ⦃d⦄ a b m p = ap (λ x. to_twenty F x m) p ∙ to_twenty-to_20 F b m

module _ {F : Type 0} ⦃d : Double F⦄ where
  -- The arguments with which the live computation sees what the historical one saw.
  unfoldable pub arguments_of : History F → Arguments F
  arguments_of h = record {
    vix = some (historical_vix h.quotes.vix_month);
    fear_greed = some (historical_fear_greed h);
    economic_indicators = some h.fetched_indicators;
    us_10y_yield = some h.fetched_yield;
  }

  -- The figures of a past report are those of a live one; its status is by the fixed threshold.
  abbrev pub past_of : Scored F → PastReport F
  past_of r = record {
    status = historical_status r.regime_score;
    current = r.current;
    ma200 = r.ma200;
    diff_pct = r.diff_pct;
    regime_score = r.regime_score;
    ema = r.ema;
    components = r.components;
  }

  other_raw-same :
      (q : Quotes F) (y : F)
      → yield_points y
          +ℤ curve_points (spread_of y q.us_2y_yield)
          +ℤ dxy_points (month_change q.dxy_month)
          +ℤ btc_points (month_change q.btc_month)
          +ℤ gold_points (month_change q.gold_month)
        ≡ other_raw q y
  unfolding other_raw
  other_raw-same q y = cc (
    yield_points-yield_score y,
    spread_of-yield_spread y q.us_2y_yield,
    curve_points-curve_score (yield_spread y q.us_2y_yield),
    month_change-month_return q.dxy_month,
    dxy_points-dxy_score (month_return q.dxy_month),
    month_change-month_return q.btc_month,
    btc_points-btc_score (month_return q.btc_month),
    month_change-month_return q.gold_month,
    gold_points-gold_score (month_return q.gold_month),
  )

  live_parts : History F → Components F
  live_parts h =
      parts_of h.quotes (historical_vix h.quotes.vix_month) (historical_fear_greed h)
        h.fetched_indicators h.fetched_yield

  -- The five parts and the figures behind them are those of the live scoring.
  components-parts_of : (h : History F) → historical_components h ≡ live_parts h
  unfolding historical_components live_parts parts_of technical_20 vix_20 economic_20 other_20
      spx_1m spx_2w
  components-parts_of h =
      let q = h.quotes in
      let v = historical_vix q.vix_month in
      let y = h.fetched_yield in
      λ i. record {
        technical = twenty F _ _ (pos 30) (technical_score_of-technical_score q) i;
        vix_part = twenty F _ _ (pos 12) (vix_points-vix_score v q.vix_month) i;
        fear_greed_part =
            twenty F _ _ (pos 10) (fng_points-fear_greed_score (historical_fear_greed h)) i;
        economic = twenty F _ _ (pos 10) (econ_score_of-economic_score h.fetched_indicators) i;
        other = twenty F _ _ (pos 26) (other_raw-same q y) i;
        spx_1m_ret = spx_change-days_return 20 q.closes i;
        ndx_1m_ret = month_change-month_return q.ndx_month i;
        spx_2w_ret = spx_change-days_return 10 q.closes i;
        spx_from_ath = ath_change-ath_drawdown q.closes i;
        yield_spread_10y2y = spread_of-yield_spread y q.us_2y_yield i;
        vix_1m_chg = vix_1m_chg_of-vix_change v q.vix_month i;
        btc_1m_ret = month_change-month_return q.btc_month i;
        dxy_1m_ret = month_change-month_return q.dxy_month i;
        gold_1m_ret = month_change-month_return q.gold_month i;
      }

  rounded_diff :
      (b : Bool) (x : F)
      → d.round nought 2 ≡ nought
      → (if b then d.round x 2 else nought) ≡ d.round (if b then x else nought) 2
  rounded_diff true x p = refl
  rounded_diff false x p = sym p

  past_score-score_of : (c : Components F) → past_score c ≡ score_of c
  unfolding past_score score_of sum_of
  past_score-score_of c = refl

  report-past_of :
      (h : History F) (threshold : ℤ)
      → d.round nought 2 ≡ nought
      → historical_report h ≡ past_of (report_of h.quotes (live_parts h) threshold)
  unfolding historical_report report_of ma200_of diff_pct_of ema_report
  report-past_of h threshold p =
      let q = h.quotes in
      let e = components-parts_of h in
      let s : past_score (historical_components h) ≡ score_of (live_parts h) =
        ap past_score e ∙ past_score-score_of (live_parts h) in
      λ i. record {
        status = historical_status (s i);
        current = d.round (current_of q) 2;
        ma200 = d.round (ma200_of q) 2;
        diff_pct =
            rounded_diff (truthy (ma200_of q)) ((current_of q ⊖ ma200_of q) ⊘ ma200_of q ⊗ num 100)
              p i;
        regime_score = s i;
        ema = ema_report q;
        components = e i;
      }

  -- Where the history has closes, and 0 rounds to 0, the scoring that the historical computation
  -- has for itself gives the score, the components and the figures that the live one gives on the
  -- same quotes, VIX, index, indicators and yield, and they are saved for its date; only the
  -- statuses can differ, the historical one "Neutral" and the live one "Bear", for a score above
  -- 40 and at most the live threshold.
  pub historical-live :
      (h : History F) (src : Sources F) (rows : List (Option String)) (table : List (HistoryRow F))
      → src.quotes ≡ h.quotes
      → h.quotes.hist_empty ≡ false
      → leb (length h.quotes.closes) 0 ≡ false
      → d.round nought 2 ≡ nought
      → (live : Scored F) × (get_market_regime src rows (arguments_of h) ≡ Regime.scored live)
        × (calculate_historical_regime h table ≡ (
          PastRegime.dated (record {
            vix = historical_vix h.quotes.vix_month;
            fear_greed = historical_fear_greed h;
            us_10y_yield = h.fetched_yield;
            market_regime = past_of live;
          }),
          save_market_regime h.db_ok h.target_day
              (Regime.scored (record live { status = historical_status live.regime_score }))
              (historical_vix h.quotes.vix_month)
              (historical_fear_greed h)
              table,
        ))
        × StatusAgrees live.regime_score rows
  unfolding calculate_historical_regime get_market_regime arguments_of live_parts save_market_regime
      row_of past_row
  historical-live h src rows table e p q r =
      let live = report_of h.quotes (live_parts h) (bear_threshold_of rows) in
      (
        live,
        ground (arith, e, p, q),
        ground (arith, p, q, report-past_of h (bear_threshold_of rows) r),
        historical_status-live _ rows,
      )
