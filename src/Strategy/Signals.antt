-- ===== src/Strategy/Signals.antt =====
-- `_collect_trading_signals`, `_execute_collected_signals` and `analyze_ticker` of
-- services/strategy/trading_strategy_service.py. Log lines and the texts of reasons are left out.
pub mod Cooldown
pub mod Collected
use stock_advisor.Prelude.{
  ◌&&◌, Bool, List, Option, String, [], false, if◌then◌else◌, none, not, some, str_eq, true, ◌||◌,
  ◌∷◌,
}
use stock_advisor.Floats.{◌<?◌, Double, int, nought, num, truthy, ◌≤?◌, ◌⊖◌, ◌⊗◌, ◌⊘◌}
use stock_advisor.Strategy.Trading.{Context, Request, Side, World, buy, execute_trade, sell}
use stock_advisor.Prelude.Dict.{Dict, insert, lookup}
use stock_advisor.Portfolio.Holding.{Holding}
use stock_advisor.Strategy.Score.{Inputs, Macro, Reason, ScoreSettings, calculate_score, minus}
use stock_advisor.Tickers.State.{TickerState, is_ready}
use mathlib.Core.List.{foldl}
use stock_advisor.Markets.{is_kr, profit_pct}
use stock_advisor.Prelude.Int.{leb_ℤ, ltb_ℤ, pos, ℤ}
use stock_advisor.Strategy.Sectors.{price_or}

-- What one run reads of the settings, and the date.
pub record SignalSettings (F : Type 0) : Type 0 where
  pub buy_max : ℤ
  pub sell_min : ℤ
  pub take_profit_pct : F
  pub stop_loss_pct : F
  pub add_rsi_limit : F
  pub add_score_limit : ℤ
  pub today : String

pub record Signal (F : Type 0) : Type 0 where
  pub ticker : String
  pub state : TickerState F
  pub holding : Option (Holding F)
  pub score : ℤ
  pub reasons : List Reason

-- What the loop over the signals changes: the two dicts of the user's state, the flag that it
-- returns, and the world outside.
pub record Run (F : Type 0) : Type 0 where
  pub sell_cooldown : Dict String
  pub add_buy_cooldown : Dict String
  pub trade_executed : Bool
  pub world : World F

pub data Recommendation : Type 0 where
  wait_for recommend_buy recommend_sell : Recommendation

-- `cooldown.get(ticker) == today`
unfoldable pub in_cooldown : String → String → Dict String → Bool
in_cooldown ticker today cooldown = elim (lookup ticker cooldown) [
  | none ↦ false
  | some day ↦ str_eq day today
]

-- `if holding`
abbrev pub is_some {ℓ} : {A : Type ℓ} → Option A → Bool
is_some none = false
is_some (some x) = true

-- The recommendation of `analyze_ticker`.
unfoldable pub recommendation : {F : Type 0} → SignalSettings F → ℤ → Recommendation
recommendation cfg score =
    if leb_ℤ score cfg.buy_max
    then recommend_buy
    else if leb_ℤ cfg.sell_min score
    then recommend_sell
    else wait_for

module _ {F : Type 0} ⦃d : Double F⦄ where
  -- `profit_pct` of a signal: `holding.get("current_price") or state.current_price` is the price
  unfoldable pub signal_profit_pct : Signal F → F
  signal_profit_pct s = elim s.holding [
    | none ↦ nought
    | some h ↦
        let stored = price_or h.current_price nought in
        let ref_price = if truthy stored then stored else s.state.current_price in
        if nought <? h.buy_price then (ref_price ⊖ h.buy_price) ⊘ h.buy_price ⊗ num 100 else nought
  ]

  -- The arguments of `_execute_trade_v2` for a signal.
  abbrev pub request_of : Signal F → Bool → Request F
  request_of s is_holding = record {
    ticker = s.ticker;
    profit_pct = signal_profit_pct s;
    is_holding = is_holding;
    score = s.score;
    current_price = s.state.current_price;
    holding = s.holding;
  }

  -- A call of `_execute_trade_v2`: whether it succeeded, and the run with the flag brought up to date.
  unfoldable pub attempt :
      Context F → List (Holding F) → Side → Signal F → Bool → Run F → Bool × Run F
  attempt c hs side s is_holding run =
      let result = execute_trade c hs side (request_of s is_holding) run.world in
      (result.0, record run { trade_executed = run.trade_executed || result.0; world = result.1 })

  -- `if executed: sell_cooldown[ticker] = today`, and the same for additional buys
  abbrev pub cool_sale : String → String → Bool × Run F → Run F
  cool_sale ticker today (true, run) = record run {
    sell_cooldown = insert ticker today run.sell_cooldown;
  }
  cool_sale ticker today (false, run) = run

  abbrev pub cool_buy : String → String → Bool × Run F → Run F
  cool_buy ticker today (true, run) = record run {
    add_buy_cooldown = insert ticker today run.add_buy_cooldown;
  }
  cool_buy ticker today (false, run) = run

  -- A holding that has reached the profit to take.
  unfoldable pub take_profit_step :
      Context F → List (Holding F) → SignalSettings F → Signal F → Run F → Run F
  take_profit_step c hs cfg s run =
      if in_cooldown s.ticker cfg.today run.sell_cooldown
      then run
      else cool_sale s.ticker cfg.today (attempt c hs sell s true run)

  -- A holding between -5% and the stop loss.
  unfoldable pub add_buy_step :
      Context F → List (Holding F) → SignalSettings F → Signal F → Run F → Run F
  add_buy_step c hs cfg s run =
      if cfg.add_rsi_limit ≤? s.state.rsi
      then run
      else if ltb_ℤ cfg.add_score_limit s.score
      then run
      else if in_cooldown s.ticker cfg.today run.add_buy_cooldown
      then run
      else cool_buy s.ticker cfg.today (attempt c hs buy s true run)

  -- The trades by score: a score of 10 or less sells a holding whatever the cooldown says.
  unfoldable pub score_step :
      Context F → List (Holding F) → SignalSettings F → Signal F → Run F → Run F
  score_step c hs cfg s run =
      if leb_ℤ s.score cfg.buy_max && not (is_some s.holding)
      then (attempt c hs buy s false run).1
      else if (leb_ℤ cfg.sell_min s.score || leb_ℤ s.score (pos 10)) && is_some s.holding
      then (let is_stop_loss = leb_ℤ s.score (pos 10) in
          if not is_stop_loss && in_cooldown s.ticker cfg.today run.sell_cooldown
          then run
          else (let result = attempt c hs sell s true run in
              if is_stop_loss then result.1 else cool_sale s.ticker cfg.today result))
      else run

  -- The body of the loop.
  unfoldable pub signal_step :
      Context F → List (Holding F) → SignalSettings F → Signal F → Run F → Run F
  signal_step c hs cfg s run =
      let profit_pct = signal_profit_pct s in
      if is_some s.holding && cfg.take_profit_pct ≤? profit_pct
      then take_profit_step c hs cfg s run
      else if is_some s.holding && profit_pct ≤? int (minus 5) && cfg.stop_loss_pct <? profit_pct
      then add_buy_step c hs cfg s run
      else score_step c hs cfg s run

  -- `_execute_collected_signals`
  unfoldable pub execute_collected_signals :
      Context F → List (Holding F) → SignalSettings F → List (Signal F) → Run F → Run F
  execute_collected_signals c hs cfg [] run = run
  execute_collected_signals c hs cfg (s ∷ signals) run =
      execute_collected_signals c hs cfg signals (signal_step c hs cfg s run)

  -- `{h['ticker']: h for h in holdings}`
  unfoldable pub holdings_map : List (Holding F) → Dict (Holding F)
  holdings_map hs = foldl (λ m h. insert h.ticker h m) [] hs

  -- The tests before a ticker is scored: the market of the other country is closed, and the ticker
  -- has its data.
  unfoldable pub is_analyzed : Bool → Bool → TickerState F → Bool
  is_analyzed is_kr_open is_us_open s =
      (if is_kr s.ticker then not is_us_open else not is_kr_open) && is_ready s

  -- `_collect_trading_signals`; `inputs` gives what `calculate_score` reads for a ticker
  unfoldable pub collect_trading_signals :
      ScoreSettings F
      → Macro F
      → (TickerState F → Inputs F)
      → Bool
      → Bool
      → Dict (Holding F)
      → List (TickerState F)
      → List (Signal F)
  collect_trading_signals cfg macro inputs is_kr_open is_us_open holdings [] = []
  collect_trading_signals cfg macro inputs is_kr_open is_us_open holdings (s ∷ states) =
      let rest = collect_trading_signals cfg macro inputs is_kr_open is_us_open holdings states in
      if is_analyzed is_kr_open is_us_open s
      then (let holding = lookup s.ticker holdings in
          let result = calculate_score cfg s holding macro (inputs s) in
          record {
            ticker = s.ticker;
            state = s;
            holding = holding;
            score = result.0;
            reasons = result.1;
          }
          ∷ rest)
      else rest
