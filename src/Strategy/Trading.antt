-- ===== src/Strategy/Trading.antt =====
-- `_execute_trade_v2` of services/strategy/trading_strategy_service.py. The broker is an argument: it
-- says whether an order succeeds, from the orders that were sent before it. Log lines are left out.
pub mod Cases
pub mod Safety
use stock_advisor.Prelude.{
  ◌&&◌, Bool, List, Option, String, [], false, if◌then◌else◌, none, some, true, ◌||◌, ◌∷◌,
}
use stock_advisor.Floats.{◌<?◌, Double, int, nought, ◌≤?◌, ◌⊕◌, ◌⊗◌, ◌⊘◌}
use stock_advisor.Portfolio.Holding.{Holding, held}
use stock_advisor.Strategy.Score.{Macro}
use stock_advisor.Strategy.Sectors.{Market}
use stock_advisor.Strategy.Limits.{
  Size, TradeSettings, allocation_limits, calculate_buy_quantity, is_cash_ratio_sufficient,
  kr_value, passes, us_value_krw,
}
use stock_advisor.Markets.{is_kr}
use stock_advisor.Prelude.Int.{leb_ℤ, ltb_ℤ, pos, ℤ}

pub data Side : Type 0 where
  buy sell : Side

-- `send_order`, the domestic market order, or `send_overseas_order` at a limit price.
pub data Venue (F : Type 0) : Type 0 where
  domestic : Venue F
  overseas : F → Venue F

pub record Order (F : Type 0) : Type 0 where
  pub side : Side
  pub ticker : String
  pub quantity : ℤ
  pub venue : Venue F

-- A row of the trade history, with the message as its kind.
pub data Message : Type 0 where
  strategy_execution full_sale split_sale : Message

pub record Trade (F : Type 0) : Type 0 where
  pub side : Side
  pub ticker : String
  pub quantity : ℤ
  pub price : F
  pub message : Message

-- What a trade changes outside the strategy: the newest entry comes first.
pub record World (F : Type 0) : Type 0 where
  pub orders : List (Order F)
  pub trades : List (Trade F)
  pub alerts : List (Side × String × ℤ)

-- What stays the same during one run of the strategy. `target_kr` and `target_us` are the target
-- cash ratios; `stored` is the portfolio in the database.
pub record Context (F : Type 0) : Type 0 where
  pub market_open : String → Bool
  pub usd_cash : F
  pub settings : TradeSettings F
  pub market : Market F
  pub macro : Macro F
  pub stored : List (Holding F)
  pub target_kr : F
  pub target_us : F
  pub total_assets : F
  pub cash_balance : F
  pub broker : List (Order F) → Order F → Bool

-- One call: the arguments that differ from signal to signal.
pub record Request (F : Type 0) : Type 0 where
  pub ticker : String
  pub profit_pct : F
  pub is_holding : Bool
  pub score : ℤ
  pub current_price : F
  pub holding : Option (Holding F)

module _ {F : Type 0} where
  -- `holdings or PortfolioService.load_portfolio(user_id)`
  abbrev pub or_stored : List (Holding F) → List (Holding F) → List (Holding F)
  or_stored [] stored = stored
  or_stored (h ∷ hs) stored = h ∷ hs

  -- Sending an order; where it succeeds the trade is recorded and the alert is sent.
  unfoldable pub place : Context F → Order F → F → Message → World F → Bool × World F
  place c order price message w =
      let sent = record w { orders = order ∷ w.orders } in
      if c.broker w.orders order
      then (
        true,
        record sent {
          trades =
              record {
                side = order.side;
                ticker = order.ticker;
                quantity = order.quantity;
                price = price;
                message = message;
              }
              ∷ w.trades;
          alerts = (order.side, order.ticker, order.quantity) ∷ w.alerts;
        },
      )
      else (false, sent)

module _ {F : Type 0} ⦃d : Double F⦄ where
  -- `max(1, int(holding_qty / split_count))`
  unfoldable pub split_quantity : TradeSettings F → F → ℤ
  split_quantity cfg quantity =
      let part = d.truncate (quantity ⊘ int cfg.split_count) in
      if ltb_ℤ (pos 1) part then part else pos 1

  -- The sale of a holding that was looked up. The source tests the function `is_kr` itself, which is
  -- always true, so every sale is a domestic order.
  unfoldable pub sell_of : Context F → Request F → World F → Option (Holding F) → Bool × World F
  sell_of c r w none = (false, w)
  sell_of c r w (some h) =
      let all = leb_ℤ r.score (pos 10) in
      let quantity = if all then d.truncate h.quantity else split_quantity c.settings h.quantity in
      let order : Order F = record {
        side = sell;
        ticker = r.ticker;
        quantity = quantity;
        venue = domestic;
      } in
      place c order r.current_price (if all then full_sale else split_sale) w

  -- The branch for a sale.
  unfoldable pub execute_sell_order :
      Context F → List (Holding F) → Request F → World F → Bool × World F
  execute_sell_order c holdings r w = sell_of c r w (held r.ticker (or_stored holdings c.stored))

  -- The early returns before a buy: no cash, an average that is not low enough, the cash ratio.
  unfoldable pub buy_blocked : Context F → List (Holding F) → Request F → Bool
  buy_blocked c holdings r =
      (if is_kr r.ticker then c.cash_balance ≤? nought else c.usd_cash ≤? nought)
      || (r.is_holding && c.settings.add_position_below <? r.profit_pct)
      || is_cash_ratio_sufficient c.market c.macro c.usd_cash r.ticker holdings c.cash_balance
          (if is_kr r.ticker then c.target_kr else c.target_us)

  -- The total of the ticker's own market, in KRW.
  unfoldable pub market_total : Context F → List (Holding F) → String → F
  market_total c holdings ticker =
      if is_kr ticker
      then kr_value c.market holdings ⊕ c.cash_balance
      else us_value_krw c.market holdings ⊕ c.usd_cash ⊗ c.market.exchange_rate

  unfoldable pub buy_size : Context F → List (Holding F) → Request F → Size F
  buy_size c holdings r =
      calculate_buy_quantity c.settings c.market.exchange_rate r.score c.total_assets c.cash_balance
        r.current_price (is_kr r.ticker) (market_total c holdings r.ticker)

  unfoldable pub execute_buy_order :
      Context F → List (Holding F) → Request F → World F → Bool × World F
  execute_buy_order c holdings r w =
      if buy_blocked c holdings r
      then (false, w)
      else (let owned = or_stored holdings c.stored in
          let size = buy_size c owned r in
          if leb_ℤ size.quantity (pos 0)
          then (false, w)
          else (if passes (
                allocation_limits c.settings c.market r.ticker size.cost owned c.total_assets
                  r.holding)
              then (let order : Order F = record {
                side = buy;
                ticker = r.ticker;
                quantity = size.quantity;
                venue = (if is_kr r.ticker then domestic else overseas (d.round r.current_price 2));
              } in
                  place c order size.final_price strategy_execution w)
              else (false, w)))

  -- `_execute_trade_v2`
  unfoldable pub execute_trade :
      Context F → List (Holding F) → Side → Request F → World F → Bool × World F
  execute_trade c holdings side r w =
      if c.market_open r.ticker
      then (elim side [
        | buy ↦ execute_buy_order c holdings r w
        | sell ↦ execute_sell_order c holdings r w
      ])
      else (false, w)
