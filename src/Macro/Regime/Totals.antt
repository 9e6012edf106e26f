-- ===== src/Macro/Regime/Totals.antt =====
-- The sums of `_get_market_regime`: the range of each raw score, and a clamp that never cuts.
use stock_advisor.Prelude.{List, arith, ◌≡◌}
use stock_advisor.Prelude.Int.{◌+ℤ◌, clamp_ℤ, minus, pos, ℤ}
use stock_advisor.Floats.{Double}
use stock_advisor.Macro.Bands.{
  Quotes, ath_drawdown, month_return, vix_change, vix_level, vix_speed, yield_spread,
}
use stock_advisor.Macro.Regime.Ranges.{
  Within, add-Within, btc-Within, curve-Within, drawdown-Within, dxy-Within, gold-Within,
  ndx-Within, order-Within, price-Within, slope-Within, spx_month-Within, two_weeks-Within,
  vix_level-Within, vix_speed-Within, yield-Within,
}
use stock_advisor.Macro.Regime.{other_raw, spx_1m, spx_2w, technical_raw, vix_score}

clamp-same : (lo hi z : ℤ) → Within lo hi z → clamp_ℤ lo hi z ≡ z
clamp-same lo hi z p = ground arith

narrow : (z : ℤ) → Within (minus 12) (pos 10) z → Within (minus 12) (pos 12) z
narrow z p = ground arith

module _ {F : Type 0} ⦃d : Double F⦄ where
  -- The raw technical score lies between -141 and 133.
  technical_raw-bounds : (q : Quotes F) → Within (minus 141) (pos 133) (technical_raw q)
  unfolding technical_raw ◌+ℤ◌
  technical_raw-bounds q =
      add-Within (minus 133) (pos 133) (minus 8) (pos 0) _ _
        (add-Within (minus 127) (pos 127) (minus 6) (pos 6) _ _
          (add-Within (minus 122) (pos 122) (minus 5) (pos 5) _ _
            (add-Within (minus 112) (pos 112) (minus 10) (pos 10) _ _
              (add-Within (minus 100) (pos 100) (minus 12) (pos 12) _ _
                (add-Within (minus 88) (pos 88) (minus 12) (pos 12) _ _ (price-Within q)
                  (order-Within q))
                (slope-Within q))
              (spx_month-Within (spx_1m q)))
            (ndx-Within (month_return q.ndx_month)))
          (two_weeks-Within (spx_2w q)))
        (drawdown-Within (ath_drawdown q.closes))

  -- The raw score of the other figures lies between -25 and 25.
  other_raw-bounds : (q : Quotes F) (y : F) → Within (minus 25) (pos 25) (other_raw q y)
  unfolding other_raw ◌+ℤ◌
  other_raw-bounds q y =
      add-Within (minus 21) (pos 21) (minus 4) (pos 4) _ _
        (add-Within (minus 18) (pos 18) (minus 3) (pos 3) _ _
          (add-Within (minus 14) (pos 14) (minus 4) (pos 4) _ _
            (add-Within (minus 8) (pos 8) (minus 6) (pos 6) _ _ (yield-Within y)
              (curve-Within (yield_spread y q.us_2y_yield)))
            (dxy-Within (month_return q.dxy_month)))
          (btc-Within (month_return q.btc_month)))
        (gold-Within (month_return q.gold_month))

  -- The limits of 12 never change the sum of the level and the speed of the VIX.
  vix_score-sum :
      (vix : F) (h : List F) → vix_score vix h ≡ vix_level vix +ℤ vix_speed (vix_change vix h)
  unfolding vix_score ◌+ℤ◌
  vix_score-sum vix h = clamp-same (minus 12) (pos 12) _ (
      narrow _ (
        add-Within (minus 8) (pos 8) (minus 4) (pos 2) _ _ (vix_level-Within vix)
          (vix_speed-Within (vix_change vix h))))

  -- The raw technical score lies between -141 and 133, where 141 is its divisor, and the raw score
  -- of the yields, the dollar, bitcoin and gold between -25 and 25; the limits of 12 never change
  -- the sum of the points for the level and the speed of the VIX.
  pub raw_scores-bounds :
      (q : Quotes F) (y vix : F)
      → Within (minus 141) (pos 133) (technical_raw q)
        × Within (minus 25) (pos 25) (other_raw q y)
        × vix_score vix q.vix_month ≡ vix_level vix +ℤ vix_speed (vix_change vix q.vix_month)
  raw_scores-bounds q y vix =
      (technical_raw-bounds q, other_raw-bounds q y, vix_score-sum vix q.vix_month)
