-- ===== src/Macro/Rescoring.antt =====
-- The scoring that `calculate_historical_regime` of services/market/macro_service.py has for itself, from
-- its own bands: the raw technical score is passed from block to block. A price of 0 in a denominator
-- is left out, as in Macro/Bands. The technical score is here.
pub mod Points
pub mod Same
use stock_advisor.Prelude.{
  ◌&&◌, ◌*◌, ◌+◌, List, Option, [], get_elem?, if◌then◌else◌, last?, leb, length, none, some, suc,
  take, ℕ, ◌∷◌,
}
use stock_advisor.Prelude.Int.{◌*ℤ◌, ◌+ℤ◌, ◌-ℤ◌, clamp_ℤ, leb_ℤ, minus, pos, ℤ}
use stock_advisor.Floats.{◌<?◌, Double, int, max_f, nought, num, ◌≤?◌, ◌⊖◌, ◌⊗◌, ◌⊘◌}
use stock_advisor.Macro.Bands.{Quotes, current_of, ema_of, or_nought, tenths, to_int}
use mathlib.Core.List.{foldl}
use stock_advisor.Strategy.TickTrade.{closes}

abbrev pub price_weights : List (ℕ × ℕ)
price_weights = (5, 12) ∷ (20, 16) ∷ (60, 16) ∷ (120, 20) ∷ (200, 24) ∷ []

-- The inner `_to_20`; the quotient is a float of the type F.
unfoldable pub to_twenty : (F : Type 0) ⦃d : Double F⦄ → ℤ → ℤ → ℤ
to_twenty F ⦃d⦄ raw_v max_val =
    let share =
      d.mul (d.div (d.of_int (raw_v +ℤ max_val)) (d.of_int (pos 2 *ℤ max_val))) (num 20) in
    clamp_ℤ (pos 0) (pos 20) (d.truncate (d.round share 0))

module _ {F : Type 0} ⦃d : Double F⦄ where
  -- Prices come newest first, so that `iloc[-(n + 1)]` is the one at n.
  abbrev pub close_at : ℕ → List F → F
  close_at n h = or_nought (get_elem? h n)

  unfoldable pub add_price : Quotes F → ℤ → ℕ × ℕ → ℤ
  add_price q tech_raw (p, w) = tech_raw +ℤ (if ema_of q p ≤? current_of q then pos w else minus w)

  unfoldable pub add_order : Quotes F → ℤ → ℤ
  add_order q tech_raw =
      let e = ema_of q in
      if e 20 <? e 5 && e 60 <? e 20 && e 120 <? e 60 && e 200 <? e 120
      then tech_raw +ℤ pos 12
      else if e 5 <? e 20 && e 20 <? e 60 && e 60 <? e 120 && e 120 <? e 200
      then tech_raw -ℤ pos 12
      else tech_raw

  unfoldable pub add_slope : Quotes F → ℤ → ℕ → ℤ
  add_slope q tech_raw p =
      let ema_s = q.ewm p in
      tech_raw
      +ℤ (if leb 2 (length ema_s) && close_at 1 ema_s <? close_at 0 ema_s then pos 4 else minus 4)

  -- `round((last / first - 1) * 100, 2)`
  unfoldable pub pct_change : F → F → F
  pct_change last first = d.round ((last ⊘ first ⊖ num 1) ⊗ num 100) 2

  -- The change since the close at n, where there is one.
  unfoldable pub spx_change : ℕ → List F → Option F
  spx_change n close =
      if leb (suc n) (length close)
      then some (pct_change (close_at 0 close) (close_at n close))
      else none

  -- The change over the history of a month, with at least five closes.
  unfoldable pub month_change : List F → Option F
  month_change h =
      if leb 5 (length h) then some (pct_change (close_at 0 h) (or_nought (last? h))) else none

  unfoldable pub add_spx_month : Option F → ℤ → ℤ
  add_spx_month none tech_raw = tech_raw
  add_spx_month (some x) tech_raw =
      if num 3 <? x
      then tech_raw +ℤ pos 10
      else if num 1 <? x
      then tech_raw +ℤ pos 5
      else if x <? int (minus 3)
      then tech_raw -ℤ pos 10
      else if x <? int (minus 1)
      then tech_raw -ℤ pos 5
      else tech_raw

  unfoldable pub add_ndx_month : Option F → ℤ → ℤ
  add_ndx_month none tech_raw = tech_raw
  add_ndx_month (some x) tech_raw =
      if num 3 <? x
      then tech_raw +ℤ pos 5
      else if num 1 <? x
      then tech_raw +ℤ pos 2
      else if x <? int (minus 3)
      then tech_raw -ℤ pos 5
      else if x <? int (minus 1)
      then tech_raw -ℤ pos 2
      else tech_raw

  unfoldable pub add_two_weeks : Option F → ℤ → ℤ
  add_two_weeks none tech_raw = tech_raw
  add_two_weeks (some x) tech_raw =
      if num 2 <? x
      then tech_raw +ℤ pos 6
      else if tenths (pos 5) <? x
      then tech_raw +ℤ pos 3
      else if x <? int (minus 2)
      then tech_raw -ℤ pos 6
      else if x <? tenths (minus 5)
      then tech_raw -ℤ pos 3
      else tech_raw

  -- `spx_from_ath`, against the highest of the last 252 closes.
  unfoldable pub ath_change : List F → Option F
  ath_change [] = none
  ath_change (x ∷ xs) =
      let ath_52w = foldl max_f x (take 251 xs) in
      if leb 252 (length (x ∷ xs)) && nought <? ath_52w then some (pct_change x ath_52w) else none

  unfoldable pub add_drawdown : Option F → ℤ → ℤ
  add_drawdown none tech_raw = tech_raw
  add_drawdown (some x) tech_raw =
      if x <? int (minus 20)
      then tech_raw -ℤ pos 8
      else if x <? int (minus 10)
      then tech_raw -ℤ pos 4
      else if x <? int (minus 5)
      then tech_raw -ℤ pos 2
      else tech_raw

  unfoldable pub tech_raw_of : Quotes F → ℤ
  tech_raw_of q =
      let priced = foldl (add_price q) (pos 0) price_weights in
      let sloped = foldl (add_slope q) (add_order q priced) (20 ∷ 60 ∷ 120 ∷ []) in
      let month = add_spx_month (spx_change 20 q.closes) sloped in
      let with_ndx = add_ndx_month (month_change q.ndx_month) month in
      let two_weeks = add_two_weeks (spx_change 10 q.closes) with_ndx in
      add_drawdown (ath_change q.closes) two_weeks

  -- The largest sum of points: 88 + 12 + 4 * 3 + 10 + 5 + 6 + 8.
  unfoldable pub technical_score_of : Quotes F → ℤ
  technical_score_of q =
      clamp_ℤ (minus 30) (pos 30)
        (to_int {F = F} (int (tech_raw_of q) ⊘ num (88 + 12 + 4 * 3 + 10 + 5 + 6 + 8) ⊗ num 30))
