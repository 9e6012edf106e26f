-- ===== src/Macro/Regime.antt =====
-- `_get_market_regime` in services/market/macro_service.py: five parts of 0 to 20 points each, from
-- the bands of Macro/Bands, their sum, and the state of the market that it stands for.
pub mod Ranges
pub mod Totals
pub mod Verdict
pub mod Monotone
use stock_advisor.Prelude.Int.{◌+ℤ◌, clamp_ℤ, leb_ℤ, minus, pos, ℤ}
use stock_advisor.Floats.{◌<?◌, Double, int, nought, num, truthy, ◌⊖◌, ◌⊗◌, ◌⊘◌}
use stock_advisor.Prelude.{
  List, Option, String, [], false, filter, if◌then◌else◌, leb, length, none, some, str_eq, take,
  ◌||◌, ℕ, ◌∷◌,
}
use stock_advisor.Macro.Bands.{
  Quotes, ath_drawdown, btc_score, current_of, curve_score, days_return, drawdown_score, dxy_score,
  ema_of, fear_greed_score, gold_score, month_return, ndx_score, order_score, price_score,
  slope_score, spx_month_score, spx_two_weeks_score, to_20, to_int, vix_change, vix_level,
  vix_speed, yield_score, yield_spread,
}
use stock_advisor.Strategy.TickTrade.{closes}

-- What the function fetches itself: quotes, the yield of two years, and the fallbacks for arguments
-- that are None. The summary of the indicators is its total and its largest score.
pub record Sources (F : Type 0) : Type 0 where
  pub quotes : Quotes F
  pub fetched_vix : F
  pub fetched_fear_greed : ℤ
  pub fetched_indicators : F × F
  pub fetched_yield : F

pub record Arguments (F : Type 0) : Type 0 where
  pub vix : Option F
  pub fear_greed : Option ℤ
  pub economic_indicators : Option (F × F)
  pub us_10y_yield : Option F

abbrev pub or_fetched {ℓ} : {A : Type ℓ} → Option A → A → A
or_fetched none y = y
or_fetched (some x) y = x

-- The five parts, and what is reported of the figures behind them; the yield and the scores that
-- `other_detail` repeats are left out.
pub record Components (F : Type 0) : Type 0 where
  pub technical : ℤ
  pub vix_part : ℤ
  pub fear_greed_part : ℤ
  pub economic : ℤ
  pub other : ℤ
  pub spx_1m_ret : Option F
  pub ndx_1m_ret : Option F
  pub spx_2w_ret : Option F
  pub spx_from_ath : Option F
  pub yield_spread_10y2y : Option F
  pub vix_1m_chg : Option F
  pub btc_1m_ret : Option F
  pub dxy_1m_ret : Option F
  pub gold_1m_ret : Option F

pub record Scored (F : Type 0) : Type 0 where
  pub status : String
  pub current : F
  pub ma200 : F
  pub diff_pct : F
  pub regime_score : ℤ
  pub bear_threshold : ℤ
  pub ema : List F
  pub components : Components F

-- Without closes the result has no components.
pub data Regime (F : Type 0) : Type 0 where
  unknown : Regime F
  scored : Scored F → Regime F

-- The number of "Bear" in the latest two rows of the history.
unfoldable pub bear_rows : List (Option String) → ℕ
bear_rows rows =
    length (filter (λ o. elim o [ none ↦ false | some s ↦ str_eq s "Bear" ]) (take 2 rows))

unfoldable pub bear_threshold_of : List (Option String) → ℤ
bear_threshold_of recent =
    if leb 2 (bear_rows recent) then pos 48 else if leb 1 (bear_rows recent) then pos 44 else pos 40

unfoldable pub status_of : ℤ → ℤ → String
status_of regime_score bear_threshold =
    if leb_ℤ (pos 65) regime_score
    then "Bull"
    else if leb_ℤ regime_score bear_threshold
    then "Bear"
    else "Neutral"

module _ {F : Type 0} ⦃d : Double F⦄ where
  unfoldable pub spx_1m : Quotes F → Option F
  spx_1m q = days_return 20 q.closes

  unfoldable pub spx_2w : Quotes F → Option F
  spx_2w q = days_return 10 q.closes

  unfoldable pub technical_raw : Quotes F → ℤ
  technical_raw q =
      price_score q
      +ℤ order_score q
      +ℤ slope_score q
      +ℤ spx_month_score (spx_1m q)
      +ℤ ndx_score (month_return q.ndx_month)
      +ℤ spx_two_weeks_score (spx_2w q)
      +ℤ drawdown_score (ath_drawdown q.closes)

  unfoldable pub technical_score : Quotes F → ℤ
  technical_score q =
      clamp_ℤ (minus 30) (pos 30) (to_int {F = F} (int (technical_raw q) ⊘ num 141 ⊗ num 30))

  unfoldable pub technical_20 : Quotes F → ℤ
  technical_20 q = to_20 F (technical_score q) (pos 30)

  -- The level and the speed, kept within 12, as the code has it.
  unfoldable pub vix_score : F → List F → ℤ
  vix_score vix h = clamp_ℤ (minus 12) (pos 12) (vix_level vix +ℤ vix_speed (vix_change vix h))

  unfoldable pub vix_20 : F → List F → ℤ
  vix_20 vix h = to_20 F (vix_score vix h) (pos 12)

  unfoldable pub economic_score : F × F → ℤ
  economic_score (total, max_val) =
      clamp_ℤ (minus 10) (pos 10)
        (if nought <? max_val then to_int (total ⊘ max_val ⊗ num 10) else pos 0)

  unfoldable pub economic_20 : F × F → ℤ
  economic_20 summary = to_20 F (economic_score summary) (pos 10)

  unfoldable pub other_raw : Quotes F → F → ℤ
  other_raw q us_10y_yield =
      yield_score us_10y_yield
      +ℤ curve_score (yield_spread us_10y_yield q.us_2y_yield)
      +ℤ dxy_score (month_return q.dxy_month)
      +ℤ btc_score (month_return q.btc_month)
      +ℤ gold_score (month_return q.gold_month)

  unfoldable pub other_20 : Quotes F → F → ℤ
  other_20 q us_10y_yield = to_20 F (other_raw q us_10y_yield) (pos 26)

  unfoldable pub parts_of : Quotes F → F → ℤ → F × F → F → Components F
  parts_of q vix fear_greed summary us_10y_yield = record {
    technical = technical_20 q;
    vix_part = vix_20 vix q.vix_month;
    fear_greed_part = to_20 F (fear_greed_score fear_greed) (pos 10);
    economic = economic_20 summary;
    other = other_20 q us_10y_yield;
    spx_1m_ret = spx_1m q;
    ndx_1m_ret = month_return q.ndx_month;
    spx_2w_ret = spx_2w q;
    spx_from_ath = ath_drawdown q.closes;
    yield_spread_10y2y = yield_spread us_10y_yield q.us_2y_yield;
    vix_1m_chg = vix_change vix q.vix_month;
    btc_1m_ret = month_return q.btc_month;
    dxy_1m_ret = month_return q.dxy_month;
    gold_1m_ret = month_return q.gold_month;
  }

  unfoldable pub sum_of : Components F → ℤ
  sum_of c = c.technical +ℤ c.vix_part +ℤ c.fear_greed_part +ℤ c.economic +ℤ c.other

  unfoldable pub score_of : Components F → ℤ
  score_of c = clamp_ℤ (pos 0) (pos 100) (sum_of c)

  -- The average of 200 days, or the exponential one while there are fewer.
  unfoldable pub ma200_of : Quotes F → F
  ma200_of q = if leb 200 (length q.closes) then q.mean_200 else ema_of q 200

  unfoldable pub diff_pct_of : Quotes F → F
  diff_pct_of q =
      let ma200 = ma200_of q in
      if truthy ma200 then (current_of q ⊖ ma200) ⊘ ma200 ⊗ num 100 else nought

  unfoldable pub ema_report : Quotes F → List F
  ema_report q = let e = λ (p : ℕ). d.round (ema_of q p) 2 in e 5 ∷ e 20 ∷ e 60 ∷ e 120 ∷ e 200 ∷ []

  unfoldable pub report_of : Quotes F → Components F → ℤ → Scored F
  report_of q c bear_threshold = record {
    status = status_of (score_of c) bear_threshold;
    current = d.round (current_of q) 2;
    ma200 = d.round (ma200_of q) 2;
    diff_pct = d.round (diff_pct_of q) 2;
    regime_score = score_of c;
    bear_threshold = bear_threshold;
    ema = ema_report q;
    components = c;
  }

  unfoldable pub get_market_regime : Sources F → List (Option String) → Arguments F → Regime F
  get_market_regime src recent a =
      let c =
        parts_of src.quotes (or_fetched a.vix src.fetched_vix)
          (or_fetched a.fear_greed src.fetched_fear_greed)
          (or_fetched a.economic_indicators src.fetched_indicators)
          (or_fetched a.us_10y_yield src.fetched_yield) in
      if src.quotes.hist_empty || leb (length src.quotes.closes) 0
      then Regime.unknown
      else Regime.scored (report_of src.quotes c (bear_threshold_of recent))

unfoldable pub status_report : {F : Type 0} → Regime F → String × ℤ
status_report Regime.unknown = ("Neutral", pos 50)
status_report (Regime.scored r) = (r.status, r.regime_score)
