-- ===== src/Backtest.antt =====
-- `_simulate` of services/strategy/backtest_service.py, up to the figures that pandas computes from
-- the equity curve. A bar is a price with the RSI, `none` where it is not a number.
pub mod Alternation
mod Tests
use stock_advisor.Prelude.{◌&&◌, List, Option, [], if◌then◌else◌, none, some, ◌∷◌}
use stock_advisor.Floats.{◌<?◌, Double, min_f, nought, num, ◌⊕◌, ◌⊖◌, ◌⊗◌, ◌⊘◌}
use mathlib.Core.List.{foldl}
use stock_advisor.Prelude.Int.{pos}

pub data Plan : Type 0 where
  all_in fixed_30 : Plan

pub data TradeKind : Type 0 where
  bought_in sold_out : TradeKind

pub record Bar (F : Type 0) : Type 0 where
  pub close : F
  pub rsi : Option F

-- The variables of the loop; trades and the equity curve have the newest entry first.
pub record Account (F : Type 0) : Type 0 where
  pub cash : F
  pub shares : F
  pub history : List TradeKind
  pub equity_curve : List F

module _ {F : Type 0} ⦃d : Double F⦄ where
  -- `BACKTEST_INITIAL_BALANCE`
  abbrev pub opening : Account F
  opening = record { cash = num 10_000; shares = nought; history = []; equity_curve = [] }

  -- The amount to invest at an oversold bar.
  unfoldable pub invest_amount : Plan → F → Account F → F
  invest_amount all_in price a = a.cash
  invest_amount fixed_30 price a =
      let current_exposure = a.shares ⊗ price in
      let target_exposure = (a.cash ⊕ a.shares ⊗ price) ⊗ d.decimal (pos 3) 1 in
      if current_exposure <? target_exposure
      then min_f (target_exposure ⊖ current_exposure) a.cash
      else nought

  unfoldable pub buy_in : F → F → Account F → Account F
  buy_in price amount a = record a {
    shares = a.shares ⊕ amount ⊘ price;
    cash = a.cash ⊖ amount;
    history = bought_in ∷ a.history;
  }

  unfoldable pub sell_out : F → Account F → Account F
  sell_out price a = record a {
    cash = a.cash ⊕ a.shares ⊗ price;
    shares = nought;
    history = sold_out ∷ a.history;
  }

  -- The trade at a bar, if there is one: below an RSI of 30 a buy, above 60 a sale.
  unfoldable pub trade_bar : Plan → F → F → Account F → Account F
  trade_bar plan price rsi a =
      if rsi <? num 30 && nought <? a.cash
      then (let amount = invest_amount plan price a in
          if num 10 <? amount then buy_in price amount a else a)
      else if num 60 <? rsi && nought <? a.shares
      then sell_out price a
      else a

  -- The body of the loop: a bar without an RSI is passed over.
  unfoldable pub step_bar : Plan → Account F → Bar F → Account F
  step_bar plan a bar = elim bar.rsi [
    | none ↦ a
    | some rsi ↦
        let b = trade_bar plan bar.close rsi a in
        record b { equity_curve = (b.cash ⊕ b.shares ⊗ bar.close) ∷ b.equity_curve }
  ]

  -- The loop over all bars but the first one.
  unfoldable pub run_bars : Plan → List (Bar F) → Account F
  run_bars plan [] = opening
  run_bars plan (first ∷ bars) = foldl (step_bar plan) opening bars
