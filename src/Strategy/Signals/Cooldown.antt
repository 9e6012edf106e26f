-- ===== src/Strategy/Signals/Cooldown.antt =====
-- What the cooldowns of `_execute_collected_signals` prevent.
use stock_advisor.Prelude.{
  ◌&&◌, ◌+◌, Bool, List, String, arith, false, filter, if◌then◌else◌, length, not, str_eq, true, ℕ,
  ◌≡◌, eq_iff, eq_refl, ◌≤◌, Bool-cases, [], refl, ◌∷◌,
}
use stock_advisor.Strategy.Trading.{
  Context, Message, Order, Request, Side, Trade, World, buy, full_sale, place, sell, split_sale,
  strategy_execution, execute_trade,
}
use stock_advisor.Floats.{Double}
use stock_advisor.Portfolio.Holding.{Holding}
use stock_advisor.Prelude.Int.{leb_ℤ, pos}
use stock_advisor.Strategy.Trading.Cases.{
  execute_buy_order-cases, execute_sell_order-cases, execute_trade-buy, execute_trade-sell,
}
use stock_advisor.Strategy.Signals.{
  Run, Signal, attempt, cool_sale, in_cooldown, request_of, SignalSettings, add_buy_step, cool_buy,
  execute_collected_signals, score_step, signal_step, take_profit_step,
}
use stock_advisor.Prelude.Dict.{lookup-insert}

abbrev pub is_split_sale : Message → Bool
is_split_sale split_sale = true
is_split_sale strategy_execution = false
is_split_sale full_sale = false

module _ {F : Type 0} where
  abbrev pub is_split_sale_of : String → Trade F → Bool
  is_split_sale_of t x = is_split_sale x.message && str_eq x.ticker t

  -- The number of partial sales of a ticker in the trade history.
  unfoldable pub split_sales : String → List (Trade F) → ℕ
  split_sales t xs = length (filter (is_split_sale_of t) xs)

module _ {F : Type 0} ⦃d : Double F⦄ where
  -- One more partial sale, if a sale of the ticker at a score above 10 succeeded.
  abbrev pub sold_part : String → Side → Request F → Bool → ℕ
  sold_part t buy r done = 0
  sold_part t sell r done =
      if done && str_eq r.ticker t && not (leb_ℤ r.score (pos 10)) then 1 else 0

  abbrev AddsSplitSales : String → Side → Request F → World F → Bool × World F → Type 0
  AddsSplitSales t side r w result =
      split_sales t result.1.trades ≡ split_sales t w.trades + sold_part t side r result.0

  place-split_sales :
      (t : String) (c : Context F) (o : Order F) (price : F) (m : Message) (w : World F)
      → split_sales t (place c o price m w).1.trades
        ≡ split_sales t w.trades
          + (if (place c o price m w).0 && str_eq o.ticker t && is_split_sale m then 1 else 0)
  unfolding place split_sales
  place-split_sales t c o price m w = ground arith

  sold_part-place :
      (t : String) (c : Context F) (o : Order F) (price : F) (r : Request F) (w : World F)
      → o.ticker ≡ r.ticker
      → AddsSplitSales t sell r w
          (place c o price (if leb_ℤ r.score (pos 10) then full_sale else split_sale) w)
  sold_part-place t c o price r w e = ground (
    arith,
    e,
    place-split_sales t c o price (if leb_ℤ r.score (pos 10) then full_sale else split_sale) w,
  )

  -- A trade adds to the partial sales of a ticker exactly if it is a sale of it that succeeded, at a
  -- score above 10.
  execute_trade-split_sales :
      (t : String) (c : Context F) (hs : List (Holding F)) (side : Side) (r : Request F)
      (w : World F)
      → AddsSplitSales t side r w (execute_trade c hs side r w)
  execute_trade-split_sales t c hs buy r w =
      let P = AddsSplitSales t buy r w in
      execute_trade-buy c hs r w P (ground arith) (
        execute_buy_order-cases c hs r w P (ground arith)
          (λ o price. ground (arith, place-split_sales t c o price strategy_execution w)))
  execute_trade-split_sales t c hs sell r w =
      let P = AddsSplitSales t sell r w in
      execute_trade-sell c hs r w P (ground arith) (
        execute_sell_order-cases c hs r w P (ground arith)
          (λ o price e. sold_part-place t c o price r w e))

  -- The partial sales of a ticker so far, and one more if today's cooldown still allows it.
  abbrev pub allowance : String → String → Run F → ℕ
  allowance t today run =
      split_sales t run.world.trades + (if in_cooldown t today run.sell_cooldown then 0 else 1)

  cool_sale-allowance :
      (t today : String) (c : Context F) (hs : List (Holding F)) (s : Signal F) (b : Bool)
      (run : Run F)
      → in_cooldown s.ticker today run.sell_cooldown ≡ false
      → allowance t today (cool_sale s.ticker today (attempt c hs sell s b run))
        ≤ allowance t today run
  unfolding in_cooldown attempt
  cool_sale-allowance t today c hs s b run free = ground (
    arith,
    eq_iff s.ticker t,
    eq_refl today,
    execute_trade-split_sales t c hs sell (request_of s b) run.world,
    lookup-insert s.ticker t today run.sell_cooldown,
  )

  buy-allowance :
      (t today : String) (c : Context F) (hs : List (Holding F)) (s : Signal F) (b : Bool)
      (run : Run F)
      → allowance t today (attempt c hs buy s b run).1 ≡ allowance t today run
  unfolding in_cooldown attempt
  buy-allowance t today c hs s b run =
      ground (arith, execute_trade-split_sales t c hs buy (request_of s b) run.world)

  full_sale-allowance :
      (t today : String) (c : Context F) (hs : List (Holding F)) (s : Signal F) (b : Bool)
      (run : Run F)
      → leb_ℤ s.score (pos 10) ≡ true
      → allowance t today (attempt c hs sell s b run).1 ≡ allowance t today run
  unfolding in_cooldown attempt
  full_sale-allowance t today c hs s b run low =
      ground (arith, low, execute_trade-split_sales t c hs sell (request_of s b) run.world)

  cool_buy-allowance :
      (t today ticker : String) (x : Bool × Run F)
      → allowance t today (cool_buy ticker today x) ≡ allowance t today x.1
  unfolding in_cooldown
  cool_buy-allowance t today ticker (true, run) = refl
  cool_buy-allowance t today ticker (false, run) = refl

  signal_step-allowance :
      (t : String) (c : Context F) (hs : List (Holding F)) (cfg : SignalSettings F) (s : Signal F)
      (run : Run F)
      → allowance t cfg.today (signal_step c hs cfg s run) ≤ allowance t cfg.today run
  unfolding signal_step take_profit_step add_buy_step score_step
  signal_step-allowance t c hs cfg s run = ground (
    arith,
    Bool-cases (in_cooldown s.ticker cfg.today run.sell_cooldown),
    Bool-cases (leb_ℤ s.score (pos 10)),
    cool_sale-allowance t cfg.today c hs s true run,
    buy-allowance t cfg.today c hs s true run,
    buy-allowance t cfg.today c hs s false run,
    full_sale-allowance t cfg.today c hs s true run,
    cool_buy-allowance t cfg.today s.ticker (attempt c hs buy s true run),
  )

  -- A pass over the signals never raises the allowance of a ticker.
  pub execute_collected_signals-allowance :
      (t : String) (c : Context F) (hs : List (Holding F)) (cfg : SignalSettings F)
      (signals : List (Signal F)) (run : Run F)
      → allowance t cfg.today (execute_collected_signals c hs cfg signals run)
        ≤ allowance t cfg.today run
  unfolding execute_collected_signals
  execute_collected_signals-allowance t c hs cfg [] run = ground arith
  execute_collected_signals-allowance t c hs cfg (s ∷ signals) run = ground (
    arith,
    signal_step-allowance t c hs cfg s run,
    execute_collected_signals-allowance t c hs cfg signals (signal_step c hs cfg s run),
  )

  -- One pass over the signals, whatever they are and in whatever order, records at most one partial
  -- sale of a ticker, and none of a ticker that is in today's cooldown when the pass starts.
  pub execute_collected_signals-split_sales :
      (t : String) (c : Context F) (hs : List (Holding F)) (cfg : SignalSettings F)
      (signals : List (Signal F)) (run : Run F)
      → split_sales t (execute_collected_signals c hs cfg signals run).world.trades
        ≤ split_sales t run.world.trades
          + (if in_cooldown t cfg.today run.sell_cooldown then 0 else 1)
  execute_collected_signals-split_sales t c hs cfg signals run =
      omega (arith, execute_collected_signals-allowance t c hs cfg signals run)
