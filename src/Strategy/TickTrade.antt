-- ===== src/Strategy/TickTrade.antt =====
-- Tick trading of services/strategy/trading_strategy_service.py: `_evaluate_tick_sell_conditions`,
-- `_evaluate_tick_buy_conditions` and `_run_tick_trade` from the point where its ticker has a price and
-- its market is open. The broker is an argument, as in `Trading`; every order is a domestic one.
pub mod Session
mod Tests
use stock_advisor.Prelude.{
  ◌&&◌, Bool, List, Option, String, [], false, if◌then◌else◌, none, not, some, true, ◌||◌, ◌∷◌,
  ◌++◌, filter, map, str_eq,
}
use stock_advisor.Floats.{◌<?◌, Double, nought, num, truthy, ◌≤?◌, ◌⊕◌, ◌⊗◌, ◌⊘◌, max_f, min_f, ◌⊖◌}
use stock_advisor.Portfolio.Holding.{Holding}
use stock_advisor.Strategy.Trading.{Side, buy, sell}
use stock_advisor.Prelude.Int.{leb_ℤ, ltb_ℤ, pos, ℤ}
use mathlib.Core.List.{foldl}

-- The settings of tick trading.
pub record TickSettings (F : Type 0) : Type 0 where
  pub cash_ratio : F
  pub entry_pct : F
  pub add_pct : F
  pub take_profit_pct : F
  pub stop_loss_pct : F

-- The dict `tick_trade` of a user's state.
pub record TickState (F : Type 0) : Type 0 where
  pub date : String
  pub second_done : Bool
  pub last_sell_price : Option F
  pub price_window : List (F × F)

pub data TickReason : Type 0 where
  tick_tp tick_sl tick_add tick_reentry tick_entry tick_eod : TickReason

pub record TickOrder : Type 0 where
  pub side : Side
  pub quantity : ℤ

-- Orders and trades of the tick strategy, newest first.
pub record TickWorld (F : Type 0) : Type 0 where
  pub orders : List TickOrder
  pub trades : List (TickOrder × F × TickReason)

-- What a run reads: the price, the holding, the clock, and the balances.
pub record TickInput (F : Type 0) : Type 0 where
  pub settings : TickSettings F
  pub current_price : F
  pub holding : Option (Holding F)
  pub today : String
  pub now : F
  pub near_close : Bool
  pub total_assets : F
  pub cash_balance : F

-- `executed`, the state of the day, and the world.
pub record TickRun (F : Type 0) : Type 0 where
  pub executed : Bool
  pub state : TickState F
  pub world : TickWorld F

module _ {F : Type 0} where
  abbrev pub fresh_day : String → TickState F
  fresh_day today = record {
    date = today;
    second_done = false;
    last_sell_price = none;
    price_window = [];
  }

  -- An order; where it succeeds the trade is recorded and the state of the day changes.
  unfoldable pub place_tick :
      (List TickOrder → TickOrder → Bool)
      → TickOrder
      → F
      → TickReason
      → (TickState F → TickState F)
      → TickState F
      → TickWorld F
      → TickRun F
  place_tick broker order price reason update s w =
      let sent = record w { orders = order ∷ w.orders } in
      if broker w.orders order
      then record {
        executed = true;
        state = update s;
        world = record sent { trades = (order, price, reason) ∷ w.trades };
      }
      else record { executed = false; state = s; world = sent }

module _ {F : Type 0} ⦃d : Double F⦄ where
  -- `trade_state.update({"second_done": False, "last_sell_price": ...})`
  abbrev pub after_sale : F → TickState F → TickState F
  after_sale price s = record s { second_done = false; last_sell_price = some price }

  abbrev pub mark_second : Bool → TickState F → TickState F
  mark_second done s = record s { second_done = done }

  abbrev pub unchanged : TickState F → TickWorld F → TickRun F
  unchanged s w = record { executed = false; state = s; world = w }

  -- The price for a new entry after a sale of the day: `none` where the last price is missing or 0.
  abbrev pub reentry_price : F → Option F → Option F
  reentry_price entry_pct none = none
  reentry_price entry_pct (some last_sell) =
      if truthy last_sell then some (last_sell ⊗ (num 1 ⊕ entry_pct ⊘ num 100)) else none

  -- `reentry` in a condition: 0 counts as none
  unfoldable pub entry_trigger : F → Option F → F → Bool
  entry_trigger price none low_1h = price ≤? low_1h ⊗ d.decimal (pos 1001) 3
  entry_trigger price (some reentry) low_1h =
      if truthy reentry then price ≤? reentry else price ≤? low_1h ⊗ d.decimal (pos 1001) 3

  abbrev pub entry_reason : Option F → TickReason
  entry_reason none = tick_entry
  entry_reason (some reentry) = if truthy reentry then tick_reentry else tick_entry

  -- The entries of the last hour, and the new one.
  unfoldable pub next_window : F → F → List (F × F) → List (F × F)
  next_window now price window = filter (λ p. (now ⊖ num 3600) ≤? p.0) window ++ ((now, price) ∷ [])

  -- `min(p[1] for p in pw)`, with the price where there is no entry
  abbrev pub lowest : F → List (F × F) → F
  lowest price [] = price
  lowest price (p ∷ ps) = foldl min_f p.1 (map (λ q. q.1) ps)

  -- The state that a run starts with: the stored one, unless it is of another day.
  abbrev pub of_today : String → Option (TickState F) → TickState F
  of_today today none = fresh_day today
  of_today today (some s) = if str_eq s.date today then s else fresh_day today

  abbrev pub buy_price_or_one : Holding F → F
  buy_price_or_one h = if nought <? h.buy_price then h.buy_price else num 1

  abbrev pub tick_pnl : F → Option (Holding F) → F
  tick_pnl price none = nought
  tick_pnl price (some h) = (price ⊖ buy_price_or_one h) ⊘ buy_price_or_one h ⊗ num 100

  abbrev pub tranche_of : TickInput F → F
  tranche_of input =
      min_f input.cash_balance (max_f nought (input.total_assets ⊗ input.settings.cash_ratio))
      ⊘ num 2

  abbrev pub closes : TickInput F → Bool
  closes input = elim input.holding [ none ↦ false | some h ↦ input.near_close ]

module _ {F : Type 0} ⦃d : Double F⦄ (broker : List TickOrder → TickOrder → Bool) where
  unfoldable pub evaluate_tick_sell_conditions :
      Holding F → F → F → TickSettings F → TickState F → TickWorld F → TickRun F
  evaluate_tick_sell_conditions h price pnl_pct cfg s w =
      let quantity = d.truncate h.quantity in
      let takes_profit = cfg.take_profit_pct ≤? pnl_pct in
      if ltb_ℤ (pos 0) quantity && (takes_profit || pnl_pct ≤? cfg.stop_loss_pct)
      then place_tick broker (record { side = sell; quantity = quantity }) price
          (if takes_profit then tick_tp else tick_sl) (after_sale price) s w
      else unchanged s w

  unfoldable pub evaluate_tick_buy_conditions :
      F → F → Option (Holding F) → F → TickSettings F → F → TickState F → TickWorld F → TickRun F
  evaluate_tick_buy_conditions tranche price holding pnl_pct cfg low_1h s w =
      let quantity = if nought <? price then d.truncate (d.floor_div tranche price) else pos 0 in
      let order : TickOrder = record { side = buy; quantity = quantity } in
      if leb_ℤ quantity (pos 0) then unchanged s w else (elim holding [
        | some h ↦
            if not s.second_done && pnl_pct ≤? cfg.add_pct
            then place_tick broker order price tick_add (mark_second true) s w
            else unchanged s w
        | none ↦
            let reentry = reentry_price cfg.entry_pct s.last_sell_price in
            if entry_trigger price reentry low_1h
            then place_tick broker order price (entry_reason reentry) (mark_second false) s w
            else unchanged s w
      ])

  -- Shortly before the close the position is sold.
  unfoldable pub close_position : Holding F → F → TickState F → TickWorld F → TickRun F
  close_position h price s w =
      let quantity = d.truncate h.quantity in
      if ltb_ℤ (pos 0) quantity
      then place_tick broker (record { side = sell; quantity = quantity }) price tick_eod
          (after_sale price) s w
      else unchanged s w

  abbrev pub tick_sale : TickInput F → F → TickState F → TickWorld F → TickRun F
  tick_sale input pnl_pct s w = elim input.holding [
    | none ↦ unchanged s w
    | some h ↦ evaluate_tick_sell_conditions h input.current_price pnl_pct input.settings s w
  ]

  -- A sale if one is due, or else a buy. A sale that the broker refuses leaves the way to a buy.
  unfoldable pub trade_tick : TickInput F → TickState F → TickWorld F → TickRun F
  trade_tick input s w =
      let pnl_pct = tick_pnl input.current_price input.holding in
      let sale = tick_sale input pnl_pct s w in
      if not sale.executed && nought <? tranche_of input
      then evaluate_tick_buy_conditions (tranche_of input) input.current_price input.holding pnl_pct
          input.settings (lowest input.current_price s.price_window) sale.state sale.world
      else sale

  -- `_run_tick_trade`: whether it traded, the state that is stored then, and the world. Near the
  -- close the state is stored only after a sale.
  unfoldable pub run_tick_trade :
      TickInput F → Option (TickState F) → TickWorld F → Bool × Option (TickState F) × TickWorld F
  run_tick_trade input stored w =
      let day = of_today input.today stored in
      let s = record day {
        price_window = next_window input.now input.current_price day.price_window;
      } in
      if closes input
      then (elim input.holding [
        | none ↦ (false, stored, w)
        | some h ↦
            let r = close_position h input.current_price s w in
            (r.executed, if r.executed then some r.state else stored, r.world)
      ])
      else (let r = trade_tick input s w in (r.executed, some r.state, r.world))
