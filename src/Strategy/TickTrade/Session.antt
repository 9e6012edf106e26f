-- ===== src/Strategy/TickTrade/Session.antt =====
-- What one run of tick trading can do.
use stock_advisor.Prelude.{
  ◌+◌, Bool, List, Option, arith, false, filter, if◌then◌else◌, length, true, ℕ, ◌≡◌, ◌≤◌, some,
  Option-cases, str_eq,
}
use stock_advisor.Floats.{Double}
use stock_advisor.Portfolio.Holding.{Holding}
use stock_advisor.Strategy.Trading.{Side, buy, sell}
use stock_advisor.Strategy.TickTrade.{
  TickInput, TickOrder, TickReason, TickSettings, TickState, TickWorld,
  evaluate_tick_buy_conditions, evaluate_tick_sell_conditions, lowest, place_tick, tick_pnl,
  tick_sale, trade_tick, tranche_of, close_position, run_tick_trade, next_window, of_today,
}

abbrev is_buy : Side → Bool
is_buy buy = true
is_buy sell = false

module _ {F : Type 0} where
  -- The number of buys that were recorded.
  unfoldable pub buys : List (TickOrder × F × TickReason) → ℕ
  buys xs = length (filter (λ x. is_buy x.0.side) xs)

  -- At most `n` orders, and a trade just when the result says so.
  pub record IsTicked (n : ℕ) (w : TickWorld F) (done : Bool) (w' : TickWorld F) : Type 0 where
    pub few_orders : length w'.orders ≤ length w.orders + n
    pub recorded : length w'.trades ≡ length w.trades + (if done then 1 else 0)

  -- A sale adds no buy.
  pub record KeepsBuys (w w' : TickWorld F) : Type 0 where
    pub same_buys : buys w'.trades ≡ buys w.trades

module _ {F : Type 0} ⦃d : Double F⦄ (broker : List TickOrder → TickOrder → Bool) where
  place_tick-IsTicked :
      (o : TickOrder) (price : F) (reason : TickReason) (f : TickState F → TickState F)
      (s : TickState F) (w : TickWorld F)
      → let r = place_tick broker o price reason f s w in IsTicked 1 w r.executed r.world
  unfolding place_tick
  place_tick-IsTicked o price reason f s w = ground arith

  tick_sale-IsTicked :
      (input : TickInput F) (pnl : F) (s : TickState F) (w : TickWorld F)
      → let r = tick_sale broker input pnl s w in IsTicked 1 w r.executed r.world
  unfolding evaluate_tick_sell_conditions place_tick
  tick_sale-IsTicked input pnl s w = ground arith

  evaluate_tick_buy_conditions-IsTicked :
      (tranche price : F) (holding : Option (Holding F)) (pnl : F) (cfg : TickSettings F) (low : F)
      (s : TickState F) (w : TickWorld F)
      → let r = evaluate_tick_buy_conditions broker tranche price holding pnl cfg low s w in
        IsTicked 1 w r.executed r.world
  unfolding evaluate_tick_buy_conditions place_tick
  evaluate_tick_buy_conditions-IsTicked tranche price holding pnl cfg low s w = ground arith

  trade_tick-IsTicked :
      (input : TickInput F) (s : TickState F) (w : TickWorld F)
      → let r = trade_tick broker input s w in IsTicked 2 w r.executed r.world
  unfolding trade_tick
  trade_tick-IsTicked input s w =
      let pnl = tick_pnl input.current_price input.holding in
      let sale = tick_sale broker input pnl s w in
      ground (
        arith,
        tick_sale-IsTicked input pnl s w,
        evaluate_tick_buy_conditions-IsTicked (tranche_of input) input.current_price input.holding
            pnl input.settings (lowest input.current_price s.price_window) sale.state sale.world,
      )

  -- One run of tick trading sends at most two orders; it records one trade if it returns true, and
  -- none otherwise.
  pub run_tick_trade-IsTicked :
      (input : TickInput F) (stored : Option (TickState F)) (w : TickWorld F)
      → let r = run_tick_trade broker input stored w in IsTicked 2 w r.0 r.2
  unfolding run_tick_trade close_position place_tick
  run_tick_trade-IsTicked input stored w =
      let day = of_today input.today stored in
      let s = record day {
        price_window = next_window input.now input.current_price day.price_window;
      } in
      ground (arith, trade_tick-IsTicked input s w, Option-cases input.holding)

  buy_with_second_done :
      (tranche price : F) (h : Holding F) (pnl : F) (cfg : TickSettings F) (low : F)
      (s : TickState F) (w : TickWorld F)
      → s.second_done ≡ true
      → (evaluate_tick_buy_conditions broker tranche price (some h) pnl cfg low s w).world ≡ w
  unfolding evaluate_tick_buy_conditions
  buy_with_second_done tranche price h pnl cfg low s w done = ground (arith, done)

  trade_tick-KeepsBuys :
      (input : TickInput F) (h : Holding F) (s : TickState F) (w : TickWorld F)
      → input.holding ≡ some h
      → s.second_done ≡ true
      → KeepsBuys w (trade_tick broker input s w).world
  unfolding trade_tick evaluate_tick_sell_conditions place_tick buys evaluate_tick_buy_conditions
  trade_tick-KeepsBuys input h s w e done = ground (arith, e, done)

  -- While the position is held, a run that starts from a stored state of today with `second_done` set
  -- records no buy.
  pub run_tick_trade-KeepsBuys :
      (input : TickInput F) (h : Holding F) (s : TickState F) (w : TickWorld F)
      → input.holding ≡ some h
      → s.second_done ≡ true
      → str_eq s.date input.today ≡ true
      → KeepsBuys w (run_tick_trade broker input (some s) w).2
  unfolding run_tick_trade close_position place_tick buys
  run_tick_trade-KeepsBuys input h s w e done today =
      let t = record s {
        price_window = next_window input.now input.current_price s.price_window;
      } in
      ground (arith, e, today, trade_tick-KeepsBuys input h t w e done)
