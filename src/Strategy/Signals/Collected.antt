-- ===== src/Strategy/Signals/Collected.antt =====
-- Which tickers are scored, and how many orders a pass over their signals sends.
use stock_advisor.Prelude.{
  ◌+◌, All, Bool, List, String, [], arith, false, if◌then◌else◌, length, ltb, refl, true, ◌||◌, ℕ,
  ◌∷◌, ◌≡◌, ◌≤◌, if_elim, ◌&&◌, not,
}
use stock_advisor.Strategy.Trading.{Context, Side, buy, sell}
use stock_advisor.Prelude.Dict.{Dict, lookup}
use stock_advisor.Floats.{Double, ◌<?◌, int, ◌≤?◌}
use stock_advisor.Portfolio.Holding.{Holding}
use stock_advisor.Strategy.Score.{Inputs, Macro, ScoreSettings, minus}
use stock_advisor.Strategy.Signals.{
  Run, Signal, SignalSettings, add_buy_step, attempt, collect_trading_signals, cool_buy, cool_sale,
  execute_collected_signals, is_analyzed, request_of, score_step, signal_step, take_profit_step,
  in_cooldown, is_some, signal_profit_pct,
}
use stock_advisor.Tickers.State.{TickerState, is_ready}
use stock_advisor.Strategy.Score.Explained.{calculate_score_range}
use stock_advisor.Strategy.Trading.Safety.{execute_trade-Accounted}
use stock_advisor.Markets.{is_kr}
use stock_advisor.Prelude.Int.{pos, ◌≤ℤ◌, leb_ℤ, ltb_ℤ}

-- A signal of a ticker that may be scored: it has its data, the other country's market is closed, and
-- the score is in its range.
pub record IsCollected {F : Type 0} ⦃d : Double F⦄ (is_kr_open is_us_open : Bool) (s : Signal F)
    : Type 0 where
  pub ready : is_ready s.state ≡ true
  pub other_closed : (if is_kr s.ticker then is_us_open else is_kr_open) ≡ false
  pub score_low : pos 0 ≤ℤ s.score
  pub score_high : s.score ≤ℤ pos 100

module _ {F : Type 0} ⦃d : Double F⦄ where
  -- Every signal that is collected is of a ticker that has its data, while the market of the other
  -- country is closed, and its score lies between 0 and 100.
  pub collect_trading_signals-IsCollected :
      (cfg : ScoreSettings F) (m : Macro F) (inputs : TickerState F → Inputs F) (kr us : Bool)
      (holdings : Dict (Holding F)) (states : List (TickerState F))
      → All (IsCollected kr us) (collect_trading_signals cfg m inputs kr us holdings states)
  unfolding collect_trading_signals is_analyzed
  collect_trading_signals-IsCollected cfg m inputs kr us holdings [] = tt
  collect_trading_signals-IsCollected cfg m inputs kr us holdings (s ∷ states) = ground (
    arith,
    collect_trading_signals-IsCollected cfg m inputs kr us holdings states,
    calculate_score_range cfg s (lookup s.ticker holdings) m (inputs s),
  )

  -- While both markets are open, as far as the two tests say, nothing is scored.
  pub both_open-idle :
      (cfg : ScoreSettings F) (m : Macro F) (inputs : TickerState F → Inputs F)
      (holdings : Dict (Holding F)) (states : List (TickerState F))
      → collect_trading_signals cfg m inputs true true holdings states ≡ []
  unfolding collect_trading_signals is_analyzed
  both_open-idle cfg m inputs holdings [] = refl
  both_open-idle cfg m inputs holdings (s ∷ states) =
      ground (arith, both_open-idle cfg m inputs holdings states)

  -- What a pass of `n` signals does to the world and to the flag that it returns.
  pub record IsPass (n : ℕ) (run run' : Run F) : Type 0 where
    pub few_orders : length run'.world.orders ≤ length run.world.orders + n
    pub trades_grow : length run.world.trades ≤ length run'.world.trades
    pub reported :
        run'.trade_executed
        ≡ (run.trade_executed || ltb (length run.world.trades) (length run'.world.trades))

  attempt-IsPass :
      (c : Context F) (hs : List (Holding F)) (side : Side) (s : Signal F) (b : Bool) (run : Run F)
      → IsPass 1 run (attempt c hs side s b run).1
  unfolding attempt
  attempt-IsPass c hs side s b run =
      ground (arith, execute_trade-Accounted c hs side (request_of s b) run.world)

  idle-IsPass : (run : Run F) → IsPass 1 run run
  idle-IsPass run = ground arith

  cool_sale-IsPass :
      (ticker today : String) (run : Run F) (x : Bool × Run F)
      → IsPass 1 run x.1
      → IsPass 1 run (cool_sale ticker today x)
  cool_sale-IsPass ticker today run (true, r) p = ground (arith, p)
  cool_sale-IsPass ticker today run (false, r) p = p

  cool_buy-IsPass :
      (ticker today : String) (run : Run F) (x : Bool × Run F)
      → IsPass 1 run x.1
      → IsPass 1 run (cool_buy ticker today x)
  cool_buy-IsPass ticker today run (true, r) p = ground (arith, p)
  cool_buy-IsPass ticker today run (false, r) p = p

  take_profit_step-IsPass :
      (c : Context F) (hs : List (Holding F)) (cfg : SignalSettings F) (s : Signal F) (run : Run F)
      → IsPass 1 run (take_profit_step c hs cfg s run)
  unfolding take_profit_step
  take_profit_step-IsPass c hs cfg s run =
      if_elim (IsPass 1 run) (in_cooldown s.ticker cfg.today run.sell_cooldown) _ _
        (idle-IsPass run)
        (cool_sale-IsPass s.ticker cfg.today run _ (attempt-IsPass c hs sell s true run))

  add_buy_step-IsPass :
      (c : Context F) (hs : List (Holding F)) (cfg : SignalSettings F) (s : Signal F) (run : Run F)
      → IsPass 1 run (add_buy_step c hs cfg s run)
  unfolding add_buy_step
  add_buy_step-IsPass c hs cfg s run =
      let P = IsPass 1 run in
      let idle = idle-IsPass run in
      if_elim P (cfg.add_rsi_limit ≤? s.state.rsi) _ _ idle (
        if_elim P (ltb_ℤ cfg.add_score_limit s.score) _ _ idle (
          if_elim P (in_cooldown s.ticker cfg.today run.add_buy_cooldown) _ _ idle
            (cool_buy-IsPass s.ticker cfg.today run _ (attempt-IsPass c hs buy s true run))))

  score_step-IsPass :
      (c : Context F) (hs : List (Holding F)) (cfg : SignalSettings F) (s : Signal F) (run : Run F)
      → IsPass 1 run (score_step c hs cfg s run)
  unfolding score_step
  score_step-IsPass c hs cfg s run =
      let P = IsPass 1 run in
      let low = leb_ℤ s.score (pos 10) in
      let sold = attempt-IsPass c hs sell s true run in
      if_elim P (leb_ℤ s.score cfg.buy_max && not (is_some s.holding)) _ _
        (attempt-IsPass c hs buy s false run)
        (if_elim P ((leb_ℤ cfg.sell_min s.score || low) && is_some s.holding) _ _
          (if_elim P (not low && in_cooldown s.ticker cfg.today run.sell_cooldown) _ _
            (idle-IsPass run)
            (if_elim P low _ _ sold (cool_sale-IsPass s.ticker cfg.today run _ sold)))
          (idle-IsPass run))

  signal_step-IsPass :
      (c : Context F) (hs : List (Holding F)) (cfg : SignalSettings F) (s : Signal F) (run : Run F)
      → IsPass 1 run (signal_step c hs cfg s run)
  unfolding signal_step
  signal_step-IsPass c hs cfg s run =
      let P = IsPass 1 run in
      let profit_pct = signal_profit_pct s in
      if_elim P (is_some s.holding && cfg.take_profit_pct ≤? profit_pct) _ _
        (take_profit_step-IsPass c hs cfg s run)
        (if_elim P
          (is_some s.holding && profit_pct ≤? int (minus 5) && cfg.stop_loss_pct <? profit_pct) _ _
          (add_buy_step-IsPass c hs cfg s run) (score_step-IsPass c hs cfg s run))

  -- A pass sends at most one order for each signal, loses no trade, and returns true exactly if
  -- the flag was set before or a trade was recorded.
  pub execute_collected_signals-IsPass :
      (c : Context F) (hs : List (Holding F)) (cfg : SignalSettings F) (signals : List (Signal F))
      (run : Run F)
      → IsPass (length signals) run (execute_collected_signals c hs cfg signals run)
  unfolding execute_collected_signals
  execute_collected_signals-IsPass c hs cfg [] run = ground arith
  execute_collected_signals-IsPass c hs cfg (s ∷ signals) run = ground (
    arith,
    signal_step-IsPass c hs cfg s run,
    execute_collected_signals-IsPass c hs cfg signals (signal_step c hs cfg s run),
  )
