-- ===== src/Macro/Rescoring/Same.antt =====
-- The scoring of `calculate_historical_regime` in services/market/macro_service.py is that of
-- `_get_market_regime`, block by block.
use stock_advisor.Prelude.{
  ◌&&◌, List, Option, [], arith, if◌then◌else◌, leb, length, none, refl, some, suc, zero, ℕ, ◌∷◌,
  ◌≡◌,
}
use stock_advisor.Prelude.Int.{◌+ℤ◌, ◌-ℤ◌, int_laws, minus, pos, ℤ}
use stock_advisor.Floats.{◌<?◌, Double, ◌≤?◌}
use stock_advisor.Macro.Bands.{
  Quotes, ath_drawdown, btc_score, current_of, curve_score, days_return, drawdown_score, dxy_score,
  ema_of, fear_greed_score, gold_score, grade, month_return, ndx_score, order_score, price_points,
  price_score, return_pct, slope_points, slope_score, spx_month_score, spx_two_weeks_score, to_20,
  vix_change, vix_level, vix_speed, yield_score, yield_spread,
}
use stock_advisor.Macro.Rescoring.{
  add_drawdown, add_ndx_month, add_order, add_price, add_slope, add_spx_month, add_two_weeks,
  pct_change, close_at, month_change, price_weights, spx_change, ath_change, tech_raw_of,
  technical_score_of, to_twenty,
}
use stock_advisor.Macro.Rescoring.Points.{
  btc_points, curve_points, dxy_points, econ_score_of, fng_points, gold_points, level_points,
  speed_points, spread_of, vix_1m_chg_of, vix_points, yield_points,
}
use stock_advisor.Macro.Regime.{
  economic_score, spx_1m, spx_2w, technical_raw, technical_score, vix_score,
}
use mathlib.Core.List.{foldl}

plus_zero : (a : ℤ) → a +ℤ pos 0 ≡ a
plus_zero a = grind int_laws

zero_plus : (a : ℤ) → pos 0 +ℤ a ≡ a
zero_plus a = grind int_laws

plus_assoc : (a b c : ℤ) → a +ℤ b +ℤ c ≡ a +ℤ (b +ℤ c)
plus_assoc a b c = grind int_laws

minus_plus : (a : ℤ) (n : ℕ) → a -ℤ pos n ≡ a +ℤ minus n
minus_plus a zero = grind int_laws
minus_plus a (suc n) = grind int_laws

module _ {F : Type 0} ⦃d : Double F⦄ where
  priced-price_score : (q : Quotes F) → foldl (add_price q) (pos 0) price_weights ≡ price_score q
  unfolding add_price price_score price_points
  priced-price_score q =
      rw (zero_plus (if ema_of q 5 ≤? current_of q then pos 12 else minus 12)) refl

  add_order-order_score : (q : Quotes F) (a : ℤ) → add_order q a ≡ a +ℤ order_score q
  unfolding add_order order_score
  add_order-order_score q a = ground (arith, plus_zero a, minus_plus a 12)

  slope-slope_points :
      (e : List F)
      → (if leb 2 (length e) && close_at 1 e <? close_at 0 e then pos 4 else minus 4)
        ≡ slope_points e
  unfolding slope_points
  slope-slope_points [] = refl
  slope-slope_points (x ∷ []) = refl
  slope-slope_points (x ∷ y ∷ e) = ground arith

  sloped-slope_score :
      (q : Quotes F) (a : ℤ) → foldl (add_slope q) a (20 ∷ 60 ∷ 120 ∷ []) ≡ a +ℤ slope_score q
  unfolding add_slope slope_score
  sloped-slope_score q a = cc (
    slope-slope_points (q.ewm 20),
    slope-slope_points (q.ewm 60),
    slope-slope_points (q.ewm 120),
    plus_assoc a (slope_points (q.ewm 20)) (slope_points (q.ewm 60)),
    plus_assoc a (slope_points (q.ewm 20) +ℤ slope_points (q.ewm 60)) (slope_points (q.ewm 120)),
  )

  add_spx_month-score : (o : Option F) (a : ℤ) → add_spx_month o a ≡ a +ℤ spx_month_score o
  unfolding add_spx_month spx_month_score grade
  add_spx_month-score none a = ground (arith, plus_zero a)
  add_spx_month-score (some x) a = ground (arith, plus_zero a, minus_plus a 10, minus_plus a 5)

  add_ndx_month-score : (o : Option F) (a : ℤ) → add_ndx_month o a ≡ a +ℤ ndx_score o
  unfolding add_ndx_month ndx_score grade
  add_ndx_month-score none a = ground (arith, plus_zero a)
  add_ndx_month-score (some x) a = ground (arith, plus_zero a, minus_plus a 5, minus_plus a 2)

  add_two_weeks-score : (o : Option F) (a : ℤ) → add_two_weeks o a ≡ a +ℤ spx_two_weeks_score o
  unfolding add_two_weeks spx_two_weeks_score grade
  add_two_weeks-score none a = ground (arith, plus_zero a)
  add_two_weeks-score (some x) a = ground (arith, plus_zero a, minus_plus a 6, minus_plus a 3)

  add_drawdown-score : (o : Option F) (a : ℤ) → add_drawdown o a ≡ a +ℤ drawdown_score o
  unfolding add_drawdown drawdown_score
  add_drawdown-score none a = ground (arith, plus_zero a)
  add_drawdown-score (some x) a =
      ground (arith, plus_zero a, minus_plus a 8, minus_plus a 4, minus_plus a 2)

  pub spx_change-days_return : (n : ℕ) (h : List F) → spx_change n h ≡ days_return n h
  unfolding spx_change days_return pct_change return_pct
  spx_change-days_return n h = refl

  pub month_change-month_return : (h : List F) → month_change h ≡ month_return h
  unfolding month_change month_return pct_change return_pct
  month_change-month_return h = refl

  pub ath_change-ath_drawdown : (h : List F) → ath_change h ≡ ath_drawdown h
  unfolding ath_change ath_drawdown pct_change return_pct
  ath_change-ath_drawdown [] = refl
  ath_change-ath_drawdown (x ∷ xs) = refl

  tech_raw_of-technical_raw : (q : Quotes F) → tech_raw_of q ≡ technical_raw q
  unfolding tech_raw_of technical_raw spx_1m spx_2w
  tech_raw_of-technical_raw q =
      let a = price_score q +ℤ order_score q +ℤ slope_score q in
      let b = a +ℤ spx_month_score (spx_1m q) +ℤ ndx_score (month_return q.ndx_month) in
      cc (
        priced-price_score q,
        add_order-order_score q (price_score q),
        sloped-slope_score q (price_score q +ℤ order_score q),
        spx_change-days_return 20 q.closes,
        add_spx_month-score (spx_1m q) a,
        month_change-month_return q.ndx_month,
        add_ndx_month-score (month_return q.ndx_month) (a +ℤ spx_month_score (spx_1m q)),
        spx_change-days_return 10 q.closes,
        add_two_weeks-score (spx_2w q) b,
        ath_change-ath_drawdown q.closes,
        add_drawdown-score (ath_drawdown q.closes) (b +ℤ spx_two_weeks_score (spx_2w q)),
      )

  -- The technical score is the same.
  pub technical_score_of-technical_score : (q : Quotes F) → technical_score_of q ≡ technical_score q
  unfolding technical_score_of technical_score
  technical_score_of-technical_score q = rw (tech_raw_of-technical_raw q) refl

  pub vix_1m_chg_of-vix_change : (v : F) (h : List F) → vix_1m_chg_of v h ≡ vix_change v h
  unfolding vix_1m_chg_of vix_change
  vix_1m_chg_of-vix_change v h = refl

  speed_points-vix_speed : (o : Option F) → speed_points o ≡ vix_speed o
  unfolding speed_points vix_speed grade
  speed_points-vix_speed none = refl
  speed_points-vix_speed (some x) = refl

  level_points-vix_level : (v : F) → level_points v ≡ vix_level v
  unfolding level_points vix_level
  level_points-vix_level v = refl

  pub vix_points-vix_score : (v : F) (h : List F) → vix_points v h ≡ vix_score v h
  unfolding vix_points vix_score
  vix_points-vix_score v h = cc (
    level_points-vix_level v,
    vix_1m_chg_of-vix_change v h,
    speed_points-vix_speed (vix_change v h),
  )

  pub econ_score_of-economic_score : (p : F × F) → econ_score_of p.0 p.1 ≡ economic_score p
  unfolding econ_score_of economic_score
  econ_score_of-economic_score p = refl

  pub spread_of-yield_spread : (y : F) (o : Option F) → spread_of y o ≡ yield_spread y o
  unfolding spread_of yield_spread
  spread_of-yield_spread y none = refl
  spread_of-yield_spread y (some x) = refl

  pub yield_points-yield_score : (y : F) → yield_points y ≡ yield_score y
  unfolding yield_points yield_score
  yield_points-yield_score y = refl

  pub curve_points-curve_score : (o : Option F) → curve_points o ≡ curve_score o
  unfolding curve_points curve_score grade
  curve_points-curve_score none = refl
  curve_points-curve_score (some x) = refl

  pub btc_points-btc_score : (o : Option F) → btc_points o ≡ btc_score o
  unfolding btc_points btc_score grade
  btc_points-btc_score none = refl
  btc_points-btc_score (some x) = refl

  pub dxy_points-dxy_score : (o : Option F) → dxy_points o ≡ dxy_score o
  unfolding dxy_points dxy_score grade
  dxy_points-dxy_score none = refl
  dxy_points-dxy_score (some x) = refl

  pub gold_points-gold_score : (o : Option F) → gold_points o ≡ gold_score o
  unfolding gold_points gold_score grade
  gold_points-gold_score none = refl
  gold_points-gold_score (some x) = refl

pub fng_points-fear_greed_score : (n : ℤ) → fng_points n ≡ fear_greed_score n
unfolding fng_points fear_greed_score
fng_points-fear_greed_score n = refl

pub to_twenty-to_20 : (F : Type 0) ⦃d : Double F⦄ (a b : ℤ) → to_twenty F a b ≡ to_20 F a b
unfolding to_twenty to_20
to_twenty-to_20 F ⦃d⦄ a b = refl
