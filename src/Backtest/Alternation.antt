-- ===== src/Backtest/Alternation.antt =====
-- The order of the trades of a simulation.
use stock_advisor.Prelude.{
  ◌&&◌, Bool, Bool-cases, List, Option-cases, [], arith, false, not, refl, true, ◌∷◌, ◌≡◌,
}
use stock_advisor.Floats.{Double, nought}
use stock_advisor.Backtest.{
  Account, Bar, Plan, TradeKind, bought_in, buy_in, opening, run_bars, sell_out, sold_out, step_bar,
  trade_bar,
}
use mathlib.Core.List.{foldl}

abbrev pub is_sale : TradeKind → Bool
is_sale sold_out = true
is_sale bought_in = false

-- Newest first: the oldest trade is no sale, and no sale comes right after a sale.
unfoldable pub sales_follow_buys : List TradeKind → Bool
sales_follow_buys [] = true
sales_follow_buys (bought_in ∷ ts) = sales_follow_buys ts
sales_follow_buys (sold_out ∷ []) = false
sales_follow_buys (sold_out ∷ (t ∷ ts)) = not (is_sale t) && sales_follow_buys (t ∷ ts)

abbrev pub last_is_buy : List TradeKind → Bool
last_is_buy [] = false
last_is_buy (t ∷ ts) = not (is_sale t)

sales_follow_buys-sale :
    (ts : List TradeKind)
    → last_is_buy ts ≡ true
    → sales_follow_buys ts ≡ true
    → sales_follow_buys (sold_out ∷ ts) ≡ true
unfolding sales_follow_buys
sales_follow_buys-sale [] p q = absurd (ground arith)
sales_follow_buys-sale (t ∷ ts) p q = ground (arith, p, q)

module _ {F : Type 0} ⦃d : Double F⦄ where
  -- Shares are held only after a buy.
  pub record IsOrderly (a : Account F) : Type 0 where
    pub in_order : sales_follow_buys a.history ≡ true
    pub empty_handed : last_is_buy a.history ≡ false → a.shares ≡ nought

  step_bar-IsOrderly :
      (plan : Plan) (a : Account F) (bar : Bar F)
      → d.lt nought nought ≡ false
      → IsOrderly a
      → IsOrderly (step_bar plan a bar)
  unfolding step_bar trade_bar buy_in sell_out sales_follow_buys
  step_bar-IsOrderly plan a bar strict o = ground (
    arith,
    strict,
    o,
    Bool-cases (last_is_buy a.history),
    sales_follow_buys-sale a.history,
    Option-cases bar.rsi,
  )

  foldl-step_bar-IsOrderly :
      (plan : Plan) (bars : List (Bar F)) (a : Account F)
      → d.lt nought nought ≡ false
      → IsOrderly a
      → IsOrderly (foldl (step_bar plan) a bars)
  foldl-step_bar-IsOrderly plan [] a strict o = o
  foldl-step_bar-IsOrderly plan (bar ∷ bars) a strict o =
      foldl-step_bar-IsOrderly plan bars (step_bar plan a bar) strict
        (step_bar-IsOrderly plan a bar strict o)

  -- If 0 is not below 0, a simulation starts with a buy and never sells twice in a row.
  pub run_bars-sales_follow_buys :
      (plan : Plan) (bars : List (Bar F))
      → d.lt nought nought ≡ false
      → sales_follow_buys (run_bars plan bars).history ≡ true
  unfolding run_bars sales_follow_buys
  run_bars-sales_follow_buys plan [] strict = refl
  run_bars-sales_follow_buys plan (first ∷ bars) strict =
      (foldl-step_bar-IsOrderly plan bars opening strict
        (record { in_order = refl; empty_handed = λ p. refl })).in_order
