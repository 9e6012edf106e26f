-- ===== src/Macro/Regime/Monotone.antt =====
-- The order of the scores of services/market/macro_service.py.
use stock_advisor.Prelude.{arith, ◌≡◌, true}
use stock_advisor.Prelude.Int.{pos, ℤ, ◌≤ℤ◌}
use stock_advisor.Floats.{Double, IsOrdered, num}
use stock_advisor.Macro.Bands.{fear_greed_score, tenths, vix_level, yield_score}

module _ {F : Type 0} ⦃d : Double F⦄ where
  -- A higher VIX never has a higher level score.
  pub vix_level-antitone :
      (o : IsOrdered F) (vix vix' : F) → d.le vix vix' ≡ true → vix_level vix' ≤ℤ vix_level vix
  unfolding vix_level
  vix_level-antitone o vix vix' p = ground (
    arith,
    o.le_trans (num 30) vix vix',
    o.le_trans (num 25) vix vix',
    o.le_trans (num 22) vix vix',
    o.le_trans vix vix' (num 13),
    o.le_trans vix vix' (num 18),
  )

  -- A higher yield never has a higher score.
  pub yield_score-antitone :
      (o : IsOrdered F) (y y' : F) → d.le y y' ≡ true → yield_score y' ≤ℤ yield_score y
  unfolding yield_score
  yield_score-antitone o y y' p = ground (
    arith,
    o.le_trans y y' (tenths (pos 35)),
    o.le_trans y y' (num 4),
    o.le_trans y y' (tenths (pos 45)),
    o.le_trans y y' (num 5),
  )

-- A higher index of fear and greed never has a lower score.
pub fear_greed_score-monotone : (m n : ℤ) → m ≤ℤ n → fear_greed_score m ≤ℤ fear_greed_score n
unfolding fear_greed_score
fear_greed_score-monotone m n p = ground arith
