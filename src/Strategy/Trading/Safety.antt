-- ===== src/Strategy/Trading/Safety.antt =====
-- When an order is sent, and what it can be.
use stock_advisor.Prelude.{◌+◌, Bool, List, arith, if◌then◌else◌, length, true, ◌≡◌, ◌≤◌, false}
use stock_advisor.Strategy.Trading.{
  Context, Message, Order, Request, Side, World, buy, execute_trade, place, sell,
}
use stock_advisor.Floats.{Double}
use stock_advisor.Portfolio.Holding.{Holding}
use stock_advisor.Strategy.Trading.Cases.{
  execute_buy_order-cases, execute_sell_order-cases, execute_trade-buy, execute_trade-sell,
}

module _ {F : Type 0} ⦃d : Double F⦄ where
  -- At most one order is added, and a trade and an alert just when the call reports success.
  pub record Accounted (w : World F) (done : Bool) (w' : World F) : Type 0 where
    pub orders_grow : length w'.orders ≤ length w.orders + 1
    pub traded : length w'.trades ≡ length w.trades + (if done then 1 else 0)
    pub alerted : length w'.alerts ≡ length w.alerts + (if done then 1 else 0)
    pub sent : done ≡ true → length w'.orders ≡ length w.orders + 1

  abbrev AccountedResult : World F → Bool × World F → Type 0
  AccountedResult w result = Accounted w result.0 result.1

  place-Accounted :
      (c : Context F) (o : Order F) (price : F) (m : Message) (w : World F)
      → Accounted w (place c o price m w).0 (place c o price m w).1
  unfolding place
  place-Accounted c o price m w = ground arith

  idle-Accounted : (w : World F) → Accounted w false w
  idle-Accounted w = ground arith

  -- Whatever the signal, `_execute_trade_v2` sends at most one order; it records one trade and sends
  -- one alert if it reports success, and none otherwise.
  pub execute_trade-Accounted :
      (c : Context F) (hs : List (Holding F)) (side : Side) (r : Request F) (w : World F)
      → Accounted w (execute_trade c hs side r w).0 (execute_trade c hs side r w).1
  execute_trade-Accounted c hs buy r w =
      execute_trade-buy c hs r w (AccountedResult w) (idle-Accounted w) (
        execute_buy_order-cases c hs r w (AccountedResult w) (idle-Accounted w)
          (λ o price. place-Accounted c o price _ w))
  execute_trade-Accounted c hs sell r w =
      execute_trade-sell c hs r w (AccountedResult w) (idle-Accounted w) (
        execute_sell_order-cases c hs r w (AccountedResult w) (idle-Accounted w)
          (λ o price _. place-Accounted c o price _ w))
