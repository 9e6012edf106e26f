-- ===== src/Strategy/Run/Days.antt =====
-- The cooldown of split sales over the runs of one day, in
-- services/strategy/trading_strategy_service.py.
use mathlib.Core.Path.{subst}
use stock_advisor.Prelude.{
  ◌+◌, All, List, Option-cases, String, [], ap, arith, if◌then◌else◌, if_elim, option_cases, ℕ, ◌∷◌,
  ◌≡◌, ◌≤◌,
}
use stock_advisor.Strategy.Run.{
  Desk, RunInput, begin_tick, context_of, guarded_tick, run_each, run_strategy, run_trades,
  send_portfolio_report, signal_part, tick_part,
}
use stock_advisor.Prelude.Dict.{Dict}
use stock_advisor.Floats.{Double}
use stock_advisor.Portfolio.Holding.{Holding}
use stock_advisor.Strategy.Control.{StateFile, UserState, begin_run, load_state, user_part}
use stock_advisor.Strategy.Signals.Cooldown.{
  allowance, execute_collected_signals-allowance, split_sales,
}
use stock_advisor.Strategy.Signals.{in_cooldown}
use stock_advisor.Strategy.Universe.{update_target_universe}
use stock_advisor.Strategy.Run.TickKept.{user_part-begin_run, user_part-end_run}

module _ {F : Type 0} ⦃d : Double F⦄ where
  -- The partial sales of a ticker so far, and one more if the stored cooldown still allows it.
  abbrev daily_allowance : String → String → String → Desk F → ℕ
  daily_allowance t today user_id k =
      split_sales t k.world.trades
      + (if in_cooldown t today (user_part user_id (load_state k.engine)).sell_cooldown
          then 0
          else 1)

  guarded_tick-world :
      (r : RunInput F) (user_id : String) (hs : List (Holding F)) (total cash : F) (k : Desk F)
      → (guarded_tick r user_id hs total cash k).1.world ≡ k.world
  unfolding guarded_tick tick_part
  guarded_tick-world r user_id hs total cash k =
      ground (arith, Option-cases (begin_tick r.tick_start hs total cash k.states).0)

  run_trades-world :
      (r : RunInput F) (cash usd : F) (user_id : String) (s : StateFile F) (k : Desk F)
      → (run_trades r cash usd user_id s k).1.world
        ≡ (signal_part r cash usd (user_part user_id s) k).world
  unfolding run_trades
  run_trades-world r cash usd user_id s k = guarded_tick-world r user_id r.synced _ cash _

  abbrev sales_of : UserState F → Dict String
  sales_of u = u.sell_cooldown

  run_trades-sell_cooldown :
      (r : RunInput F) (cash usd : F) (user_id : String) (s : StateFile F) (k : Desk F)
      → (user_part user_id (load_state (run_trades r cash usd user_id s k).1.engine)).sell_cooldown
        ≡ (signal_part r cash usd (user_part user_id s) k).sell_cooldown
  unfolding run_trades
  run_trades-sell_cooldown r cash usd user_id s k = ap sales_of (user_part-end_run user_id _ s _)

  signal_part-allowance :
      (t : String) (r : RunInput F) (cash usd : F) (u : UserState F) (k : Desk F)
      → allowance t r.signal_settings.today (signal_part r cash usd u k)
        ≤ split_sales t k.world.trades
          + (if in_cooldown t r.signal_settings.today u.sell_cooldown then 0 else 1)
  unfolding signal_part
  signal_part-allowance t r cash usd u k =
      execute_collected_signals-allowance t (context_of r cash usd) r.synced r.signal_settings _ _

  run_trades-allowance :
      (t : String) (r : RunInput F) (cash usd : F) (user_id : String) (s : StateFile F) (k : Desk F)
      → daily_allowance t r.signal_settings.today user_id (run_trades r cash usd user_id s k).1
        ≤ split_sales t k.world.trades
          + (if in_cooldown t r.signal_settings.today (user_part user_id s).sell_cooldown
              then 0
              else 1)
  run_trades-allowance t r cash usd user_id s k =
      rw (run_trades-world r cash usd user_id s k, run_trades-sell_cooldown r cash usd user_id s k)
        (signal_part-allowance t r cash usd (user_part user_id s) k)

  send_portfolio_report-allowance :
      (t today user_id : String) (before after : List (Holding F)) (k : Desk F)
      → daily_allowance t today user_id (send_portfolio_report before after k)
        ≡ daily_allowance t today user_id k
  unfolding send_portfolio_report
  send_portfolio_report-allowance t today user_id before after k = ground arith

  run_strategy-allowance :
      (t : String) (r : RunInput F) (cash usd : F) (user_id : String) (k : Desk F)
      → daily_allowance t r.signal_settings.today user_id (run_strategy r cash usd user_id k)
        ≤ daily_allowance t r.signal_settings.today user_id k
  unfolding run_strategy
  run_strategy-allowance t r cash usd user_id k =
      let today = r.signal_settings.today in
      let P : Desk F → Type 0 =
        λ k'. daily_allowance t today user_id k' ≤ daily_allowance t today user_id k in
      let start : Desk F = record k { states = (update_target_universe r.rankings k.states).1 } in
      option_cases P (begin_run user_id k.engine) _ _ (λ e. omega arith)
        (λ s e.
          let done = run_trades r cash usd user_id s start in
          let bound : P done.1 =
            rw (← user_part-begin_run user_id k.engine s e)
              (run_trades-allowance t r cash usd user_id s start) in
          if_elim P done.0 _ _
            (omega (
              arith,
              bound,
              send_portfolio_report-allowance t today user_id r.synced r.reported done.1,
            ))
            bound)

  run_each-allowance :
      (t today user_id : String) (runs : List (RunInput F × F × F)) (k : Desk F)
      → All (λ x. x.0.signal_settings.today ≡ today) runs
      → daily_allowance t today user_id (run_each runs user_id k)
        ≤ daily_allowance t today user_id k
  unfolding run_each
  run_each-allowance t today user_id [] k p = omega arith
  run_each-allowance t today user_id (x ∷ rest) k p =
      let next = run_strategy x.0 x.1 x.2 user_id k in
      let bound : String → Type 0 =
        λ day. daily_allowance t day user_id next ≤ daily_allowance t day user_id k in
      let step : daily_allowance t today user_id next ≤ daily_allowance t today user_id k =
        subst bound p.0 (run_strategy-allowance t x.0 x.1 x.2 user_id k) in
      omega (arith, step, run_each-allowance t today user_id rest next p.1)

  -- Over any number of runs of the strategy on one day, one after the other, at most one partial
  -- sale of a ticker is recorded, and none of a ticker that is in the stored cooldown of that day
  -- before the first run.
  pub run_each-split_sales :
      (t today user_id : String) (runs : List (RunInput F × F × F)) (k : Desk F)
      → All (λ x. x.0.signal_settings.today ≡ today) runs
      → split_sales t (run_each runs user_id k).world.trades
        ≤ split_sales t k.world.trades
          + (if in_cooldown t today (user_part user_id (load_state k.engine)).sell_cooldown
              then 0
              else 1)
  run_each-split_sales t today user_id runs k p =
      omega (arith, run_each-allowance t today user_id runs k p)
