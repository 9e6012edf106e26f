-- ===== src/Macro/Bands.antt =====
-- The scores of `_get_market_regime` in services/market/macro_service.py: each source of data is
-- graded by bands. Prices come newest first; a price of 0, by which Python would raise, is left out.
use stock_advisor.Prelude.{
  ◌&&◌, List, Option, [], get_elem?, if◌then◌else◌, last?, leb, length, none, some, suc, take, ℕ,
  ◌∷◌, Bool,
}
use stock_advisor.Prelude.Int.{◌*ℤ◌, ◌+ℤ◌, clamp_ℤ, leb_ℤ, minus, pos, ℤ}
use stock_advisor.Floats.{◌<?◌, Double, int, max_f, nought, num, ◌≤?◌, ◌⊖◌, ◌⊗◌, ◌⊘◌}
use mathlib.Core.List.{foldl}

-- What pandas and the downloads give: whether the history has no row, the closes of two years, their exponential averages by span,
-- and the closes of one month for other symbols.
pub record Quotes (F : Type 0) : Type 0 where
  pub hist_empty : Bool
  pub closes : List F
  pub ewm : ℕ → List F
  pub mean_200 : F
  pub ndx_month : List F
  pub vix_month : List F
  pub btc_month : List F
  pub dxy_month : List F
  pub gold_month : List F
  pub us_2y_yield : Option F

-- `_to_20`; the quotient is a float of the type F.
unfoldable pub to_20 : (F : Type 0) ⦃d : Double F⦄ → ℤ → ℤ → ℤ
to_20 F ⦃d⦄ raw max_val =
    let share = d.mul (d.div (d.of_int (raw +ℤ max_val)) (d.of_int (pos 2 *ℤ max_val))) (num 20) in
    clamp_ℤ (pos 0) (pos 20) (d.truncate (d.round share 0))

module _ {F : Type 0} ⦃d : Double F⦄ where
  abbrev pub or_nought : Option F → F
  or_nought none = nought
  or_nought (some x) = x

  -- `round(x)`, to an integer
  abbrev pub to_int : F → ℤ
  to_int x = d.truncate (d.round x 0)

  -- `round((last / first - 1) * 100, 2)`
  unfoldable pub return_pct : F → F → F
  return_pct last first = d.round ((last ⊘ first ⊖ num 1) ⊗ num 100) 2

  -- The return over the closes of a month, where there are at least five.
  unfoldable pub month_return : List F → Option F
  month_return h =
      if leb 5 (length h)
      then some (return_pct (or_nought (get_elem? h 0)) (or_nought (last? h)))
      else none

  -- The return over a number of days, where the closes reach back so far.
  unfoldable pub days_return : ℕ → List F → Option F
  days_return days h =
      if leb (suc days) (length h)
      then some (return_pct (or_nought (get_elem? h 0)) (or_nought (get_elem? h days)))
      else none

  -- A chain of tests: above two bounds in turn, then below two others, with the points of each.
  unfoldable pub grade : F × ℤ → F × ℤ → F × ℤ → F × ℤ → Option F → ℤ
  grade (a, p) (b, q) (e, r) (f, s) none = pos 0
  grade (a, p) (b, q) (e, r) (f, s) (some x) =
      if a <? x then p else if b <? x then q else if x <? e then r else if x <? f then s else pos 0

  -- The literal -m / 10
  abbrev pub tenths : ℤ → F
  tenths m = d.decimal m 1

  abbrev pub ema_of : Quotes F → ℕ → F
  ema_of q p = or_nought (get_elem? (q.ewm p) 0)

  abbrev pub current_of : Quotes F → F
  current_of q = or_nought (get_elem? q.closes 0)

  -- The price against each average.
  unfoldable pub price_points : F → F → ℕ → ℤ
  price_points current ema w = if ema ≤? current then pos w else minus w

  unfoldable pub price_score : Quotes F → ℤ
  price_score q =
      let current = current_of q in
      price_points current (ema_of q 5) 12
      +ℤ price_points current (ema_of q 20) 16
      +ℤ price_points current (ema_of q 60) 16
      +ℤ price_points current (ema_of q 120) 20
      +ℤ price_points current (ema_of q 200) 24

  -- The averages in falling or in rising order.
  unfoldable pub order_score : Quotes F → ℤ
  order_score q =
      let e = ema_of q in
      if e 20 <? e 5 && e 60 <? e 20 && e 120 <? e 60 && e 200 <? e 120
      then pos 12
      else if e 5 <? e 20 && e 20 <? e 60 && e 60 <? e 120 && e 120 <? e 200
      then minus 12
      else pos 0

  -- The direction of one average; with a single value it counts as falling.
  unfoldable pub slope_points : List F → ℤ
  slope_points [] = minus 4
  slope_points (x ∷ []) = minus 4
  slope_points (x ∷ (y ∷ ys)) = if y <? x then pos 4 else minus 4

  unfoldable pub slope_score : Quotes F → ℤ
  slope_score q = slope_points (q.ewm 20) +ℤ slope_points (q.ewm 60) +ℤ slope_points (q.ewm 120)

  unfoldable pub spx_month_score : Option F → ℤ
  spx_month_score =
      grade (num 3, pos 10) (num 1, pos 5) (int (minus 3), minus 10) (int (minus 1), minus 5)

  unfoldable pub ndx_score : Option F → ℤ
  ndx_score = grade (num 3, pos 5) (num 1, pos 2) (int (minus 3), minus 5) (int (minus 1), minus 2)

  unfoldable pub spx_two_weeks_score : Option F → ℤ
  spx_two_weeks_score =
      grade (num 2, pos 6) (tenths (pos 5), pos 3) (int (minus 2), minus 6)
        (tenths (minus 5), minus 3)

  -- The highest of the last 252 closes.
  abbrev pub highest : F → List F → F
  highest x xs = foldl max_f x xs

  unfoldable pub ath_drawdown : List F → Option F
  ath_drawdown [] = none
  ath_drawdown (x ∷ xs) =
      let ath_52w = highest x (take 251 xs) in
      if leb 252 (length (x ∷ xs)) && nought <? ath_52w then some (return_pct x ath_52w) else none

  unfoldable pub drawdown_score : Option F → ℤ
  drawdown_score none = pos 0
  drawdown_score (some x) =
      if x <? int (minus 20)
      then minus 8
      else if x <? int (minus 10)
      then minus 4
      else if x <? int (minus 5)
      then minus 2
      else pos 0

  unfoldable pub vix_level : F → ℤ
  vix_level vix =
      if num 30 ≤? vix
      then minus 8
      else if num 25 ≤? vix
      then minus 5
      else if num 22 ≤? vix
      then minus 2
      else if vix ≤? num 13
      then pos 8
      else if vix ≤? num 18
      then pos 4
      else pos 0

  -- The change of the VIX over a month, against the oldest close if that is positive.
  unfoldable pub vix_change : F → List F → Option F
  vix_change vix h =
      let vix_prev = or_nought (last? h) in
      if leb 5 (length h) && nought <? vix_prev
      then some (d.round ((vix ⊖ vix_prev) ⊘ vix_prev ⊗ num 100) 1)
      else none

  unfoldable pub vix_speed : Option F → ℤ
  vix_speed =
      grade (num 30, minus 4) (num 15, minus 2) (int (minus 25), pos 2) (int (minus 10), pos 1)

  unfoldable pub yield_score : F → ℤ
  yield_score us_10y_yield =
      if us_10y_yield ≤? tenths (pos 35)
      then pos 8
      else if us_10y_yield ≤? num 4
      then pos 4
      else if us_10y_yield ≤? tenths (pos 45)
      then pos 0
      else if us_10y_yield ≤? num 5
      then minus 4
      else minus 8

  -- The spread of ten years over two.
  unfoldable pub yield_spread : F → Option F → Option F
  yield_spread us_10y_yield none = none
  yield_spread us_10y_yield (some y2) = some (d.round (us_10y_yield ⊖ y2) 3)

  unfoldable pub curve_score : Option F → ℤ
  curve_score =
      grade (num 1, pos 6) (tenths (pos 3), pos 3) (int (minus 1), minus 6)
        (tenths (minus 3), minus 3)

  unfoldable pub btc_score : Option F → ℤ
  btc_score =
      grade (num 20, pos 3) (num 10, pos 1) (int (minus 25), minus 3) (int (minus 12), minus 1)

  unfoldable pub dxy_score : Option F → ℤ
  dxy_score = grade (num 3, minus 4) (num 1, minus 2) (int (minus 3), pos 4) (int (minus 1), pos 2)

  unfoldable pub gold_score : Option F → ℤ
  gold_score = grade (num 5, minus 4) (num 2, minus 2) (int (minus 5), pos 4) (int (minus 2), pos 2)

-- Fear and greed is an integer.
unfoldable pub fear_greed_score : ℤ → ℤ
fear_greed_score n =
    if leb_ℤ n (pos 20)
    then minus 10
    else if leb_ℤ n (pos 35)
    then minus 6
    else if leb_ℤ n (pos 45)
    then minus 2
    else if leb_ℤ (pos 80) n
    then pos 10
    else if leb_ℤ (pos 65) n
    then pos 6
    else if leb_ℤ (pos 55) n
    then pos 2
    else pos 0
