-- ===== src/Strategy/Trading/Cases.antt =====
-- The ways in which `_execute_trade_v2` can end, as rules for a property of its result.
use stock_advisor.Prelude.{Bool, List, false, if◌then◌else◌, none, refl, some, ◌≡◌, if_elim}
use stock_advisor.Strategy.Trading.{
  Context, Order, Request, World, buy, buy_blocked, buy_size, execute_buy_order, execute_sell_order,
  execute_trade, full_sale, or_stored, place, sell, sell_of, split_sale, strategy_execution,
}
use stock_advisor.Floats.{Double}
use stock_advisor.Portfolio.Holding.{Holding, held}
use stock_advisor.Portfolio.Trades.Lookup.{bought, sold}
use stock_advisor.Prelude.Int.{leb_ℤ, pos}

module _ {F : Type 0} ⦃d : Double F⦄ (c : Context F) (hs : List (Holding F)) (r : Request F)
    (w : World F) (P : Bool × World F → Type 0) where
  -- A sale does nothing, or places one order for the ticker, with the kind that the score gives.
  pub execute_sell_order-cases :
      P (false, w)
      → ((o : Order F) (price : F)
          → o.ticker ≡ r.ticker
          → P (place c o price (if leb_ℤ r.score (pos 10) then full_sale else split_sale) w))
      → P (execute_sell_order c hs r w)
  unfolding execute_sell_order sell_of
  execute_sell_order-cases idle sent =
      elim (held r.ticker (or_stored hs c.stored)) as (λ o. P (sell_of c r w o)) [
        | none ↦ idle
        | some h ↦ sent _ r.current_price refl
      ]

  -- A buy does nothing, or places one order for the ticker.
  pub execute_buy_order-cases :
      P (false, w)
      → ((o : Order F) (price : F) → P (place c o price strategy_execution w))
      → P (execute_buy_order c hs r w)
  unfolding execute_buy_order
  execute_buy_order-cases idle sent = if_elim P (buy_blocked c hs r) _ _ idle (
      if_elim P (leb_ℤ (buy_size c (or_stored hs c.stored) r).quantity (pos 0)) _ _ idle
        (if_elim P _ _ _ (sent _ _) idle))

  -- A trade does nothing, or it is the buy or the sale that the side names.
  pub execute_trade-buy :
      P (false, w) → P (execute_buy_order c hs r w) → P (execute_trade c hs buy r w)
  unfolding execute_trade
  execute_trade-buy idle bought = if_elim P (c.market_open r.ticker) _ _ bought idle

  pub execute_trade-sell :
      P (false, w) → P (execute_sell_order c hs r w) → P (execute_trade c hs sell r w)
  unfolding execute_trade
  execute_trade-sell idle sold = if_elim P (c.market_open r.ticker) _ _ sold idle
