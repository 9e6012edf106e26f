-- ===== src/Strategy/Run/TickKept.antt =====
-- The state of tick trading over runs of the strategy, in
-- services/strategy/trading_strategy_service.py.
use stock_advisor.Strategy.Run.{
  Desk, RunInput, run_strategy, run_trades, send_portfolio_report, begin_tick, run_each, tick_part,
}
use stock_advisor.Floats.{Double, ◌<?◌, nought, ◌⊗◌}
use stock_advisor.Strategy.Control.{
  Engine, StateFile, UserState, begin_run, end_run, load_state, save_state, user_part,
}
use stock_advisor.Prelude.{
  Option, String, arith, eq_refl, some, ◌≡◌, List, ap, if_elim, option_cases, refl, ◌∙◌, Bool, [],
  false, if◌then◌else◌, none, true, ◌∷◌,
}
use stock_advisor.Strategy.TickTrade.{
  TickState, TickInput, TickOrder, TickWorld, entry_trigger, evaluate_tick_buy_conditions,
  next_window, place_tick, run_tick_trade, trade_tick, tranche_of,
}
use stock_advisor.Prelude.Dict.{insert, lookup-insert}
use stock_advisor.Portfolio.Holding.{Holding}
use stock_advisor.Strategy.Universe.{update_target_universe}
use stock_advisor.Strategy.Trading.{buy}
use stock_advisor.Prelude.Int.{leb_ℤ, pos, ℤ}

module _ {F : Type 0} ⦃d : Double F⦄ where
  -- What the file has for the tick trading of a user.
  unfoldable pub stored_tick : String → Engine F → Option (TickState F)
  stored_tick user_id e = (user_part user_id (load_state e)).tick_trade

  -- The end of a run stores the part of the user that it is given.
  pub user_part-end_run :
      (user_id : String) (u : UserState F) (s : StateFile F) (e : Engine F)
      → user_part user_id
          (load_state (end_run (some (record s { users = insert user_id u s.users })) e))
        ≡ u
  unfolding end_run save_state load_state user_part
  user_part-end_run user_id u s e =
      ground (arith, lookup-insert user_id user_id u s.users, eq_refl user_id)

  -- The start of a run reads the part of the user that is stored.
  pub user_part-begin_run :
      (user_id : String) (e : Engine F) (s : StateFile F)
      → begin_run user_id e ≡ some s
      → user_part user_id s ≡ user_part user_id (load_state e)
  unfolding begin_run user_part
  user_part-begin_run user_id e s p = ground (
    arith,
    lookup-insert user_id user_id (user_part user_id (load_state e)) (load_state e).users,
    eq_refl user_id,
  )

  abbrev tick_of : UserState F → Option (TickState F)
  tick_of u = u.tick_trade

  run_trades-stored_tick :
      (r : RunInput F) (cash usd : F) (user_id : String) (s : StateFile F) (k : Desk F)
      → stored_tick user_id (run_trades r cash usd user_id s k).1.engine
        ≡ (user_part user_id s).tick_trade
  unfolding run_trades stored_tick
  run_trades-stored_tick r cash usd user_id s k = ap tick_of (user_part-end_run user_id _ s _)

  send_portfolio_report-engine :
      (before after : List (Holding F)) (k : Desk F)
      → (send_portfolio_report before after k).engine ≡ k.engine
  unfolding send_portfolio_report
  send_portfolio_report-engine before after k = ground arith

  -- Whatever tick trading does in a run of the strategy, the state of tick trading that the file
  -- has for the user after the run is the one that it had before.
  pub run_strategy-stored_tick :
      (r : RunInput F) (cash usd : F) (user_id : String) (k : Desk F)
      → stored_tick user_id (run_strategy r cash usd user_id k).engine
        ≡ stored_tick user_id k.engine
  unfolding run_strategy stored_tick
  run_strategy-stored_tick r cash usd user_id k =
      let P : Desk F → Type 0 =
        λ k'. stored_tick user_id k'.engine ≡ stored_tick user_id k.engine in
      let start : Desk F = record k { states = (update_target_universe r.rankings k.states).1 } in
      option_cases P (begin_run user_id k.engine) _ _ (λ e. refl)
        (λ s e.
          let done = run_trades r cash usd user_id s start in
          let same =
            run_trades-stored_tick r cash usd user_id s start
            ∙ ap tick_of (user_part-begin_run user_id k.engine s e) in
          if_elim P done.0 _ _
            (ap (stored_tick user_id) (send_portfolio_report-engine r.synced r.reported done.1)
              ∙ same)
            same)

  run_each-stored_tick :
      (runs : List (RunInput F × F × F)) (user_id : String) (k : Desk F)
      → stored_tick user_id (run_each runs user_id k).engine ≡ stored_tick user_id k.engine
  unfolding run_each
  run_each-stored_tick [] user_id k = refl
  run_each-stored_tick (x ∷ rest) user_id k =
      run_each-stored_tick rest user_id (run_strategy x.0 x.1 x.2 user_id k)
      ∙ run_strategy-stored_tick x.0 x.1 x.2 user_id k

  -- The quantity of a new position.
  abbrev pub entry_quantity : TickInput F → ℤ
  entry_quantity input =
      if nought <? input.current_price
      then d.truncate (d.floor_div (tranche_of input) input.current_price)
      else pos 0

  abbrev pub entry_order : TickInput F → TickOrder
  entry_order input = record { side = buy; quantity = entry_quantity input }

  -- There is money for a position, none is held, and the price compares as a number.
  pub record CanEnter (input : TickInput F) : Type 0 where
    pub not_held : input.holding ≡ none
    pub has_tranche : d.lt nought (tranche_of input) ≡ true
    pub has_quantity : leb_ℤ (entry_quantity input) (pos 0) ≡ false
    pub comparable : d.le input.current_price (input.current_price ⊗ d.decimal (pos 1001) 3) ≡ true

  run_tick_trade-enters :
      (broker : List TickOrder → TickOrder → Bool) (input : TickInput F) (w : TickWorld F)
      → CanEnter input
      → (run_tick_trade broker input none w).2.orders ≡ entry_order input ∷ w.orders
  unfolding run_tick_trade trade_tick evaluate_tick_buy_conditions place_tick entry_trigger
      next_window
  run_tick_trade-enters broker input w p =
      ground (arith, p.not_held, p.has_tranche, p.has_quantity, p.comparable)

  tick_part-enters :
      (r : RunInput F) (user_id : String) (hs : List (Holding F)) (total cash : F) (k : Desk F)
      (input : TickInput F)
      → stored_tick user_id k.engine ≡ none
      → (begin_tick r.tick_start hs total cash k.states).0 ≡ some input
      → CanEnter input
      → (tick_part r user_id hs total cash k).1.ticks.orders ≡ entry_order input ∷ k.ticks.orders
  unfolding tick_part stored_tick
  tick_part-enters r user_id hs total cash k input p q c =
      ground (arith, p, q, run_tick_trade-enters r.tick_broker input k.ticks c)

  -- Where no state of tick trading is stored for the user at first, the tick trading after any
  -- number of runs sends a buy order whenever it starts without a position, with money for a
  -- positive quantity, at a price that is at most 1.001 times itself.
  pub run_each-enters :
      (runs : List (RunInput F × F × F)) (user_id : String) (k : Desk F) (r : RunInput F)
      (hs : List (Holding F)) (total cash : F) (input : TickInput F)
      → stored_tick user_id k.engine ≡ none
      → let now = run_each runs user_id k in
        (begin_tick r.tick_start hs total cash now.states).0 ≡ some input
        → CanEnter input
        → (tick_part r user_id hs total cash now).1.ticks.orders
          ≡ entry_order input ∷ now.ticks.orders
  run_each-enters runs user_id k r hs total cash input p q c =
      tick_part-enters r user_id hs total cash (run_each runs user_id k) input
        (run_each-stored_tick runs user_id k ∙ p) q c
