-- ===== src/Macro/Rescoring/Points.antt =====
-- The points that `calculate_historical_regime` of services/market/macro_service.py gives to the VIX, to
-- fear and greed, to the indicators, the yields and the other symbols.
use stock_advisor.Prelude.{◌&&◌, List, Option, if◌then◌else◌, last?, leb, length, none, some}
use stock_advisor.Prelude.Int.{◌+ℤ◌, clamp_ℤ, leb_ℤ, minus, pos, ℤ}
use stock_advisor.Floats.{◌<?◌, Double, int, nought, num, ◌≤?◌, ◌⊖◌, ◌⊗◌, ◌⊘◌}
use stock_advisor.Macro.Bands.{or_nought, tenths, to_int}

module _ {F : Type 0} ⦃d : Double F⦄ where
  unfoldable pub vix_1m_chg_of : F → List F → Option F
  vix_1m_chg_of vix vix_h =
      let vix_prev = or_nought (last? vix_h) in
      if leb 5 (length vix_h) && nought <? vix_prev
      then some (d.round ((vix ⊖ vix_prev) ⊘ vix_prev ⊗ num 100) 1)
      else none

  unfoldable pub level_points : F → ℤ
  level_points vix =
      if num 30 ≤? vix
      then minus 8
      else if num 25 ≤? vix
      then minus 5
      else if num 22 ≤? vix
      then minus 2
      else if vix ≤? num 13
      then pos 8
      else if vix ≤? num 18
      then pos 4
      else pos 0

  unfoldable pub speed_points : Option F → ℤ
  speed_points none = pos 0
  speed_points (some x) =
      if num 30 <? x
      then minus 4
      else if num 15 <? x
      then minus 2
      else if x <? int (minus 25)
      then pos 2
      else if x <? int (minus 10)
      then pos 1
      else pos 0

  unfoldable pub vix_points : F → List F → ℤ
  vix_points vix vix_h =
      clamp_ℤ (minus 12) (pos 12) (level_points vix +ℤ speed_points (vix_1m_chg_of vix vix_h))

  unfoldable pub econ_score_of : F → F → ℤ
  econ_score_of econ_total econ_max_val =
      clamp_ℤ (minus 10) (pos 10)
        (if nought <? econ_max_val then to_int (econ_total ⊘ econ_max_val ⊗ num 10) else pos 0)

  unfoldable pub yield_points : F → ℤ
  yield_points y =
      if y ≤? tenths (pos 35)
      then pos 8
      else if y ≤? num 4
      then pos 4
      else if y ≤? tenths (pos 45)
      then pos 0
      else if y ≤? num 5
      then minus 4
      else minus 8

  unfoldable pub spread_of : F → Option F → Option F
  spread_of y none = none
  spread_of y (some y2_val) = some (d.round (y ⊖ y2_val) 3)

  unfoldable pub curve_points : Option F → ℤ
  curve_points none = pos 0
  curve_points (some x) =
      if num 1 <? x
      then pos 6
      else if tenths (pos 3) <? x
      then pos 3
      else if x <? int (minus 1)
      then minus 6
      else if x <? tenths (minus 3)
      then minus 3
      else pos 0

  unfoldable pub btc_points : Option F → ℤ
  btc_points none = pos 0
  btc_points (some ret) =
      if num 20 <? ret
      then pos 3
      else if num 10 <? ret
      then pos 1
      else if ret <? int (minus 25)
      then minus 3
      else if ret <? int (minus 12)
      then minus 1
      else pos 0

  unfoldable pub dxy_points : Option F → ℤ
  dxy_points none = pos 0
  dxy_points (some ret) =
      if num 3 <? ret
      then minus 4
      else if num 1 <? ret
      then minus 2
      else if ret <? int (minus 3)
      then pos 4
      else if ret <? int (minus 1)
      then pos 2
      else pos 0

  unfoldable pub gold_points : Option F → ℤ
  gold_points none = pos 0
  gold_points (some ret) =
      if num 5 <? ret
      then minus 4
      else if num 2 <? ret
      then minus 2
      else if ret <? int (minus 5)
      then pos 4
      else if ret <? int (minus 2)
      then pos 2
      else pos 0

unfoldable pub fng_points : ℤ → ℤ
fng_points fear_greed =
    if leb_ℤ fear_greed (pos 20)
    then minus 10
    else if leb_ℤ fear_greed (pos 35)
    then minus 6
    else if leb_ℤ fear_greed (pos 45)
    then minus 2
    else if leb_ℤ (pos 80) fear_greed
    then pos 10
    else if leb_ℤ (pos 65) fear_greed
    then pos 6
    else if leb_ℤ (pos 55) fear_greed
    then pos 2
    else pos 0
