-- ===== src/Strategy/Run.antt =====
-- `run_strategy` of services/strategy/trading_strategy_service.py from the reading of the state file to
-- its last write, with the start of `_run_tick_trade`, `_send_portfolio_report` and
-- `_log_intramarket_cash_ratio`. What the run reads of other services is an
-- argument; no call but those of tick trading is taken to raise. Log lines are left out.
pub mod TickKept
pub mod Days
mod Tests
use stock_advisor.Prelude.{
  ◌&&◌, ◌==◌, Bool, List, Option, String, [], false, filter, if◌then◌else◌, length, map, none, not,
  some, str_eq, suc, true, ◌||◌, ℕ, ◌∷◌,
}
use stock_advisor.Floats.{◌<?◌, Double, max_f, nought, ◌≤?◌, ◌⊕◌, ◌⊖◌, ◌⊗◌, ◌⊘◌}
use stock_advisor.Strategy.Trading.{Context, World, Order}
use stock_advisor.Prelude.Dict.{Dict, insert, lookup}
use stock_advisor.Strategy.Control.{
  Engine, StateFile, begin_run, end_run, load_state, save_state, user_part, UserState,
}
use stock_advisor.MarketData.Loading.{Financials}
use stock_advisor.Portfolio.Holding.{Holding, held}
use stock_advisor.Strategy.Score.{Inputs, ScoreSettings, Macro}
use stock_advisor.MarketData.Registry.{OpenMarkets, States, register_ticker}
use stock_advisor.Strategy.Universe.{Rankings, clean, update_target_universe}
use stock_advisor.Strategy.Signals.{
  SignalSettings, collect_trading_signals, execute_collected_signals, holdings_map, Run,
}
use stock_advisor.Strategy.TickTrade.{
  TickInput, TickOrder, TickSettings, TickState, TickWorld, run_tick_trade,
}
use stock_advisor.Tickers.State.{TickerState}
use stock_advisor.Portfolio.Report.{add_up, filter_kr, filter_us, price_now}
use stock_advisor.Strategy.Manual.{calculate_total_assets}
use stock_advisor.Prelude.Int.{eq_ℤ, pos, ℤ}
use mathlib.Core.List.{foldl}
use stock_advisor.Macro.Cache.Freshness.{start}
use stock_advisor.Settings.Repository.{written}
use stock_advisor.Strategy.Sectors.{Market}
use stock_advisor.Strategy.Limits.{TradeSettings}

-- The settings and tests that tick trading starts with, and the live states.
pub record TickStart (F : Type 0) : Type 0 where
  pub enabled : ℤ
  pub ticker : Option String
  pub admitted : OpenMarkets
  pub financials : String → Option (Financials F)
  pub market_open : String → Bool
  pub near_close : String → Bool
  pub settings : TickSettings F
  pub today : String
  pub now : F

-- What one run of the strategy reads, besides the state file.
pub record RunInput (F : Type 0) : Type 0 where
  pub rankings : Rankings
  pub synced : List (Holding F)
  pub reported : List (Holding F)
  pub score_settings : ScoreSettings F
  pub inputs : TickerState F → Inputs F
  pub signal_settings : SignalSettings F
  pub get_float : String → F → F
  pub regime_status : String
  pub open_markets : OpenMarkets
  pub market_open : String → Bool
  pub trade_settings : TradeSettings F
  pub market : Market F
  pub macro : Macro F
  pub stored : List (Holding F)
  pub broker : List (Order F) → Order F → Bool
  pub tick_start : TickStart F
  pub tick_broker : List TickOrder → TickOrder → Bool
  pub tick_raises : Bool

-- What it changes: the engine with its file, the live states, the orders and trades, and the number
-- of portfolio reports.
pub record Desk (F : Type 0) : Type 0 where
  pub engine : Engine F
  pub states : States F
  pub world : World F
  pub ticks : TickWorld F
  pub reports : ℕ

module _ {F : Type 0} ⦃d : Double F⦄ where
  -- The input of tick trading, if it is on, its ticker has a price, and its market is open; and the
  -- states after the registration of the ticker.
  unfoldable pub begin_tick :
      TickStart F → List (Holding F) → F → F → States F → Option (TickInput F) × States F
  begin_tick t holdings total_assets cash_balance states =
      let ticker = clean t.ticker in
      let registered = (register_ticker t.admitted t.financials ticker states).0 in
      if not (eq_ℤ t.enabled (pos 1)) || str_eq ticker "" then (none, states) else (
        elim (lookup ticker registered) [
          | none ↦ none
          | some s ↦
              if s.current_price ≤? nought || not (t.market_open ticker)
              then none
              else some (record {
                settings = t.settings;
                current_price = s.current_price;
                holding = held ticker holdings;
                today = t.today;
                now = t.now;
                near_close = t.near_close ticker;
                total_assets = total_assets;
                cash_balance = cash_balance;
              })
        ],
        registered,
      )

  -- `_run_tick_trade` on the file, which it reads anew and writes with its state of the day. Where it
  -- returns before it writes, what is written here adds at most an empty part of the user, as the
  -- end of the run does.
  unfoldable pub tick_part : RunInput F → String → List (Holding F) → F → F → Desk F → Bool × Desk F
  tick_part r user_id holdings total_assets cash_balance k =
      let start = begin_tick r.tick_start holdings total_assets cash_balance k.states in
      let read = load_state k.engine in
      let part = user_part user_id read in
      elim start.0 [
        | none ↦ (false, record k { states = start.1 })
        | some input ↦
            let done = run_tick_trade r.tick_broker input part.tick_trade k.ticks in
            let written = record read {
              users = insert user_id (record part { tick_trade = done.1 }) read.users;
            } in
            (
              done.0,
              record k {
                engine = save_state true written k.engine;
                states = start.1;
                ticks = done.2;
              },
            )
      ]

  -- An exception of tick trading is caught; it counts as no trade. It is taken to be raised before its
  -- first effect.
  unfoldable pub guarded_tick :
      RunInput F → String → List (Holding F) → F → F → Desk F → Bool × Desk F
  guarded_tick r user_id holdings total_assets cash_balance k =
      if r.tick_raises then (false, k) else tick_part r user_id holdings total_assets cash_balance k

  -- `{h["ticker"]: h.get("quantity", 0) for h in holdings}`
  unfoldable pub snapshot : List (Holding F) → Dict F
  snapshot hs = foldl (λ m h. insert h.ticker h.quantity m) [] hs

  abbrev entry_in : Dict F → String × F → Bool
  entry_in m e = elim (lookup e.0 m) [ none ↦ false | some q ↦ d.eq q e.1 ]

  abbrev all_in : Dict F → Dict F → Bool
  all_in m [] = true
  all_in m (e ∷ es) = entry_in m e && all_in m es

  -- `before_snapshot == after_snapshot`, for dicts: the same keys, with equal values
  unfoldable pub same_snapshot : Dict F → Dict F → Bool
  same_snapshot a b = length a == length b && all_in b a

  -- `_send_portfolio_report`
  unfoldable pub send_portfolio_report : List (Holding F) → List (Holding F) → Desk F → Desk F
  send_portfolio_report before after k =
      if same_snapshot (snapshot before) (snapshot after)
      then k
      else record k { reports = suc k.reports }

  -- The two warnings of `_log_intramarket_cash_ratio`: too little cash in KRW, and in USD.
  unfoldable pub cash_warnings : List (Holding F) → F → F → F → F → Bool × Bool
  cash_warnings holdings cash_balance usd_cash target_kr target_us =
      let worth : List (Holding F) → F =
        λ hs. add_up (λ h. price_now h ⊗ h.quantity) (filter (λ h. nought <? h.quantity) hs) in
      let kr_total = worth (filter_kr holdings) ⊕ max_f nought cash_balance in
      let us_total = worth (filter_us holdings) ⊕ usd_cash in
      let kr_ratio = if nought <? kr_total then cash_balance ⊘ kr_total else nought in
      let us_ratio = if nought <? us_total then usd_cash ⊘ us_total else nought in
      let slack = d.decimal (pos 5) 2 in
      (
        kr_ratio <? target_kr ⊖ slack && nought <? kr_total,
        us_ratio <? target_us ⊖ slack && nought <? us_total,
      )

  -- The totals of the portfolio, and what stays the same during the run.
  unfoldable pub context_of : RunInput F → F → F → Context F
  context_of r cash_balance usd_cash =
      let totals =
        calculate_total_assets r.get_float usd_cash r.market.exchange_rate r.synced cash_balance
          r.regime_status in
      record {
        market_open = r.market_open;
        usd_cash = usd_cash;
        settings = r.trade_settings;
        market = r.market;
        macro = r.macro;
        stored = r.stored;
        target_kr = totals.1;
        target_us = totals.2;
        total_assets = totals.0;
        cash_balance = cash_balance;
        broker = r.broker;
      }

  -- The pass over the signals of the live states, with the cooldowns of the user.
  unfoldable pub signal_part : RunInput F → F → F → UserState F → Desk F → Run F
  signal_part r cash_balance usd_cash part k =
      let signals =
        collect_trading_signals r.score_settings r.macro r.inputs r.open_markets.is_kr_open
          r.open_markets.is_us_open (holdings_map r.synced) (map (λ e. e.1) k.states) in
      execute_collected_signals (context_of r cash_balance usd_cash) r.synced r.signal_settings
        signals
        (record {
          sell_cooldown = part.sell_cooldown;
          add_buy_cooldown = part.add_buy_cooldown;
          trade_executed = false;
          world = k.world;
        })

  -- The trades of a run: by the signals, then by ticks. The state that was read holds the cooldowns,
  -- and is not read again before it is written.
  unfoldable pub run_trades : RunInput F → F → F → String → StateFile F → Desk F → Bool × Desk F
  run_trades r cash_balance usd_cash user_id read k =
      let part = user_part user_id read in
      let run = signal_part r cash_balance usd_cash part k in
      let total_assets = (context_of r cash_balance usd_cash).total_assets in
      let tick =
        guarded_tick r user_id r.synced total_assets cash_balance
          (record k { world = run.world }) in
      let updated = record read {
        users =
            insert user_id
              (record part {
                sell_cooldown = run.sell_cooldown;
                add_buy_cooldown = run.add_buy_cooldown;
              })
              read.users;
      } in
      (
        run.trade_executed || tick.0,
        record tick.1 { engine = end_run (some updated) (tick.1).engine },
      )

  -- `run_strategy`, with the balances that it reads: KRW and USD.
  unfoldable pub run_strategy : RunInput F → F → F → String → Desk F → Desk F
  run_strategy r cash_balance usd_cash user_id k = elim (begin_run user_id k.engine) [
    | none ↦ k
    | some read ↦
        let pruned = (update_target_universe r.rankings k.states).1 in
        let done = run_trades r cash_balance usd_cash user_id read (record k { states = pruned }) in
        if done.0 then send_portfolio_report r.synced r.reported done.1 else done.1
  ]

  -- Runs one after the other, each with its balances.
  unfoldable pub run_each : List (RunInput F × F × F) → String → Desk F → Desk F
  run_each [] user_id k = k
  run_each (x ∷ rest) user_id k = run_each rest user_id (run_strategy x.0 x.1 x.2 user_id k)
