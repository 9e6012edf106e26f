-- ===== src/Macro/Regime/Ranges.antt =====
-- The bounds of the raw scores of `_get_market_regime`, band by band.
use stock_advisor.Prelude.{
  ℕ, Option, arith, none, some, if_elim, Bool-cases, List, [], suc, zero, ◌∷◌,
}
use stock_advisor.Prelude.Int.{◌+ℤ◌, clamp_ℤ, pos, ℤ, ◌≤ℤ◌, +ℤ_parts, minus}
use stock_advisor.Floats.{◌<?◌, Double, ◌≤?◌}
use stock_advisor.Macro.Bands.{
  grade, Quotes, btc_score, current_of, curve_score, drawdown_score, dxy_score, ema_of, gold_score,
  ndx_score, order_score, price_points, price_score, slope_points, slope_score, spx_month_score,
  spx_two_weeks_score, vix_level, vix_speed, yield_score,
}

abbrev pub Within : ℤ → ℤ → ℤ → Type 0
Within lo hi z = lo ≤ℤ z × z ≤ℤ hi

pub add-Within : (a b c e y z : ℤ) → Within a b y → Within c e z → Within (a +ℤ c) (b +ℤ e) (y +ℤ z)
add-Within a b c e y z p q = ground (arith, +ℤ_parts a c, +ℤ_parts b e, +ℤ_parts y z)

pub clamp-Within : (lo hi z : ℤ) → lo ≤ℤ hi → Within lo hi (clamp_ℤ lo hi z)
clamp-Within lo hi z p = ground arith

minus_le : (w : ℕ) → Within (minus w) (pos w) (pos w)
minus_le zero = ground arith
minus_le (suc w) = ground arith

minus_ge : (w : ℕ) → Within (minus w) (pos w) (minus w)
minus_ge zero = ground arith
minus_ge (suc w) = ground arith

module _ {F : Type 0} ⦃d : Double F⦄ where
  grade-Within :
      (lo hi : ℤ) (a b e f : F × ℤ) (o : Option F)
      → (Within lo hi a.1
          × Within lo hi b.1
          × Within lo hi e.1
          × Within lo hi f.1
          × Within lo hi (pos 0))
      → Within lo hi (grade a b e f o)
  unfolding grade
  grade-Within lo hi a b e f none h = h.4
  grade-Within lo hi a b e f (some x) h =
      let W : ℤ → Type 0 = Within lo hi in
      if_elim W (a.0 <? x) a.1 _ h.0 (
        if_elim W (b.0 <? x) b.1 _ h.1
          (if_elim W (x <? e.0) e.1 _ h.2 (if_elim W (x <? f.0) f.1 _ h.3 h.4)))

  points-Within : (current ema : F) (w : ℕ) → Within (minus w) (pos w) (price_points current ema w)
  unfolding price_points
  points-Within current ema w =
      let W : ℤ → Type 0 = Within (minus w) (pos w) in
      if_elim W (ema ≤? current) (pos w) (minus w) (minus_le w) (minus_ge w)

  pub price-Within : (q : Quotes F) → Within (minus 88) (pos 88) (price_score q)
  unfolding price_score ◌+ℤ◌
  price-Within q =
      let current = current_of q in
      add-Within (minus 64) (pos 64) (minus 24) (pos 24) _ _
        (add-Within (minus 44) (pos 44) (minus 20) (pos 20) _ _
          (add-Within (minus 28) (pos 28) (minus 16) (pos 16) _ _
            (add-Within (minus 12) (pos 12) (minus 16) (pos 16) _ _
              (points-Within current (ema_of q 5) 12) (points-Within current (ema_of q 20) 16))
            (points-Within current (ema_of q 60) 16))
          (points-Within current (ema_of q 120) 20))
        (points-Within current (ema_of q 200) 24)

  pub order-Within : (q : Quotes F) → Within (minus 12) (pos 12) (order_score q)
  unfolding order_score
  order-Within q = ground arith

  slope_points-Within : (xs : List F) → Within (minus 4) (pos 4) (slope_points xs)
  unfolding slope_points
  slope_points-Within [] = ground arith
  slope_points-Within (x ∷ []) = ground arith
  slope_points-Within (x ∷ (y ∷ ys)) = ground (arith, Bool-cases (y <? x))

  pub slope-Within : (q : Quotes F) → Within (minus 12) (pos 12) (slope_score q)
  unfolding slope_score ◌+ℤ◌
  slope-Within q =
      add-Within (minus 8) (pos 8) (minus 4) (pos 4) _ _
        (add-Within (minus 4) (pos 4) (minus 4) (pos 4) _ _ (slope_points-Within (q.ewm 20))
          (slope_points-Within (q.ewm 60)))
        (slope_points-Within (q.ewm 120))

  pub spx_month-Within : (o : Option F) → Within (minus 10) (pos 10) (spx_month_score o)
  unfolding spx_month_score
  spx_month-Within o = grade-Within (minus 10) (pos 10) _ _ _ _ o (ground arith)

  pub ndx-Within : (o : Option F) → Within (minus 5) (pos 5) (ndx_score o)
  unfolding ndx_score
  ndx-Within o = grade-Within (minus 5) (pos 5) _ _ _ _ o (ground arith)

  pub two_weeks-Within : (o : Option F) → Within (minus 6) (pos 6) (spx_two_weeks_score o)
  unfolding spx_two_weeks_score
  two_weeks-Within o = grade-Within (minus 6) (pos 6) _ _ _ _ o (ground arith)

  pub drawdown-Within : (o : Option F) → Within (minus 8) (pos 0) (drawdown_score o)
  unfolding drawdown_score
  drawdown-Within none = ground arith
  drawdown-Within (some x) = ground arith

  pub vix_level-Within : (vix : F) → Within (minus 8) (pos 8) (vix_level vix)
  unfolding vix_level
  vix_level-Within vix = ground arith

  pub vix_speed-Within : (o : Option F) → Within (minus 4) (pos 2) (vix_speed o)
  unfolding vix_speed
  vix_speed-Within o = grade-Within (minus 4) (pos 2) _ _ _ _ o (ground arith)

  pub yield-Within : (y : F) → Within (minus 8) (pos 8) (yield_score y)
  unfolding yield_score
  yield-Within y = ground arith

  pub curve-Within : (o : Option F) → Within (minus 6) (pos 6) (curve_score o)
  unfolding curve_score
  curve-Within o = grade-Within (minus 6) (pos 6) _ _ _ _ o (ground arith)

  pub btc-Within : (o : Option F) → Within (minus 3) (pos 3) (btc_score o)
  unfolding btc_score
  btc-Within o = grade-Within (minus 3) (pos 3) _ _ _ _ o (ground arith)

  pub dxy-Within : (o : Option F) → Within (minus 4) (pos 4) (dxy_score o)
  unfolding dxy_score
  dxy-Within o = grade-Within (minus 4) (pos 4) _ _ _ _ o (ground arith)

  pub gold-Within : (o : Option F) → Within (minus 4) (pos 4) (gold_score o)
  unfolding gold_score
  gold-Within o = grade-Within (minus 4) (pos 4) _ _ _ _ o (ground arith)
