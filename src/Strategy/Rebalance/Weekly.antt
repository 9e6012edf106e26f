-- ===== src/Strategy/Rebalance/Weekly.antt =====
-- `run_sector_rebalance` of services/strategy/trading_strategy_service.py from the weights on. The two
-- calls before that, `_get_portfolio_totals` and `PortfolioService.get_cash_balance`, name methods
-- that no class has: what they were to give is in the context. Texts and log lines are left out.
use stock_advisor.Prelude.{
  ◌&&◌, ◌++◌, List, Option, String, [], false, filter, if◌then◌else◌, none, some, str_eq, true, ◌∷◌,
}
use stock_advisor.Prelude.Int.{◌+ℤ◌, ltb_ℤ, pos, ℤ}
use stock_advisor.Floats.{◌<?◌, Double, int, nought, num, ◌⊕◌, ◌⊖◌, ◌⊗◌, ◌⊘◌}
use stock_advisor.Strategy.Sectors.{
  ByGroup, Group, Weight, financial, group_name, price_or, rebal_threshold, sector_group,
  sector_group_weights, tech, value,
}
use stock_advisor.Strategy.Trading.{Context, Request, World, buy, execute_trade, sell}
use stock_advisor.Prelude.Dict.{Dict, lookup}
use stock_advisor.Portfolio.Holding.{Holding}
use stock_advisor.Strategy.Score.{Inputs, ScoreSettings, calculate_score}
use stock_advisor.Tickers.State.{TickerState, is_ready}
use stock_advisor.Strategy.Signals.{holdings_map}
use stock_advisor.Markets.{is_kr}
use stock_advisor.Prelude.Sorting.{sort_desc}

pub data Skip (F : Type 0) : Type 0 where
  market_closed : Skip F
  at_loss : F → Skip F
  weak_signal : ℤ → Skip F

pub record GroupSale (F : Type 0) : Type 0 where
  pub ticker : String
  pub group : Group
  pub dev : F
  pub profit_pct : F

pub record GroupBuy (F : Type 0) : Type 0 where
  pub ticker : String
  pub group : Group
  pub dev : F
  pub score : ℤ

-- The result, the cash, and the world outside.
pub record Weekly (F : Type 0) : Type 0 where
  pub sold : List (GroupSale F)
  pub bought : List (GroupBuy F)
  pub skipped : List (String × Skip F)
  pub cash_balance : F
  pub world : World F

pub record Candidate (F : Type 0) : Type 0 where
  pub state : TickerState F
  pub holding : Option (Holding F)
  pub score : ℤ

module _ {F : Type 0} ⦃d : Double F⦄ (c : Context F) (holdings : List (Holding F)) where
  unfoldable pub skip : String → Skip F → Weekly F → Weekly F
  skip ticker why w = record w { skipped = w.skipped ++ (ticker, why) ∷ [] }

  unfoldable pub with_cash : Weekly F → Context F
  with_cash w = record c { cash_balance = w.cash_balance }

  -- `profit_pct` of a holding, 0 where it has no buy price.
  unfoldable pub gain_pct : Holding F → F
  gain_pct h =
      if nought <? h.buy_price
      then (price_or h.current_price nought ⊖ h.buy_price) ⊘ h.buy_price ⊗ num 100
      else nought

  unfoldable pub sale_request : Holding F → Request F
  sale_request h = record {
    ticker = h.ticker;
    profit_pct = gain_pct h;
    is_holding = true;
    score = pos 60;
    current_price = price_or h.current_price nought;
    holding = some h;
  }

  -- The cash that a sale is taken to bring: a third of the holding, at least one, at its price.
  unfoldable pub proceeds : Holding F → F
  proceeds h =
      let third = d.truncate (h.quantity ⊘ num 3) in
      price_or h.current_price nought
      ⊗ int (if ltb_ℤ (pos 1) third then third else pos 1)
      ⊗ (if is_kr h.ticker then num 1 else c.market.exchange_rate)

  unfoldable pub record_sale : Group → F → Holding F → World F → Weekly F → Weekly F
  record_sale group dev h world w = record w {
    cash_balance = w.cash_balance ⊕ proceeds h;
    world = world;
    sold =
        w.sold
        ++ record {
          ticker = h.ticker;
          group = group;
          dev = d.round dev 4;
          profit_pct = d.round (gain_pct h) 2;
        }
          ∷ [];
  }

  -- The holdings of one group in turn, until one is sold.
  unfoldable pub sell_in_group : Group → F → List (Holding F) → Weekly F → Weekly F
  sell_in_group group dev [] w = w
  sell_in_group group dev (h ∷ rest) w = elim (c.market_open h.ticker) [
    | false ↦ sell_in_group group dev rest (skip h.ticker market_closed w)
    | true ↦ elim (gain_pct h <? nought) [
      | true ↦ sell_in_group group dev rest (skip h.ticker (at_loss (gain_pct h)) w)
      | false ↦
          let result = execute_trade (with_cash w) holdings sell (sale_request h) w.world in
          elim result.0 [
            | true ↦ record_sale group dev h result.1 w
            | false ↦ sell_in_group group dev rest (record w { world = result.1 })
          ]
    ]
  ]

  -- The gain that the holdings of a group are sorted by; a price of 0 counts as 1.
  unfoldable pub sort_gain : Holding F → F
  sort_gain h =
      let paid = price_or (some h.buy_price) (num 1) in
      (price_or h.current_price nought ⊖ paid) ⊘ paid

  unfoldable pub group_holdings : Group → List (Holding F)
  group_holdings group =
      sort_desc (λ h g. sort_gain h <? sort_gain g)
        (filter
          (λ h.
            nought <? h.quantity
            && str_eq (group_name (sector_group c.market h.ticker (some h))) (group_name group))
          holdings)

  unfoldable pub sell_groups : List (Group × Weight F) → Weekly F → Weekly F
  sell_groups [] w = w
  sell_groups (e ∷ rest) w = sell_groups rest (sell_in_group e.0 (e.1).dev (group_holdings e.0) w)

  -- The candidates for a group, in the order of the states.
  unfoldable pub candidates :
      ScoreSettings F
      → (TickerState F → Inputs F)
      → Group
      → Dict (TickerState F)
      → List (Candidate F)
  candidates cfg inputs group [] = []
  candidates cfg inputs group ((t, s) ∷ states) =
      let rest = candidates cfg inputs group states in
      let holding = lookup t (holdings_map holdings) in
      if is_ready s
        && str_eq (group_name (sector_group c.market t none)) (group_name group)
        && c.market_open t
      then record {
        state = s;
        holding = holding;
        score = (calculate_score cfg s holding c.macro (inputs s)).0;
      }
        ∷ rest
      else rest

  unfoldable pub buy_request : Candidate F → Request F
  buy_request x = record {
    ticker = x.state.ticker;
    profit_pct = nought;
    is_holding = false;
    score = x.score;
    current_price = x.state.current_price;
    holding = x.holding;
  }

  -- The candidates in turn, until one is bought.
  unfoldable pub buy_in_group : Group → F → ℤ → List (Candidate F) → Weekly F → Weekly F
  buy_in_group group dev threshold [] w = w
  buy_in_group group dev threshold (x ∷ rest) w = elim (ltb_ℤ (threshold +ℤ pos 10) x.score) [
    | true ↦ buy_in_group group dev threshold rest (skip x.state.ticker (weak_signal x.score) w)
    | false ↦
        let result = execute_trade (with_cash w) holdings buy (buy_request x) w.world in
        elim result.0 [
          | true ↦ record w {
            world = result.1;
            bought =
                w.bought
                ++ record {
                  ticker = x.state.ticker;
                  group = group;
                  dev = d.round dev 4;
                  score = x.score;
                }
                  ∷ [];
          }
          | false ↦ buy_in_group group dev threshold rest (record w { world = result.1 })
        ]
  ]

  unfoldable pub buy_groups :
      (Group → List (Candidate F)) → ℤ → List (Group × Weight F) → Weekly F → Weekly F
  buy_groups of_group threshold [] w = w
  buy_groups of_group threshold (e ∷ rest) w =
      buy_groups of_group threshold rest (buy_in_group e.0 (e.1).dev threshold (of_group e.0) w)

  abbrev pub group_items : ByGroup (Weight F) → List (Group × Weight F)
  group_items g = (tech, g.of_tech) ∷ (value, g.of_value) ∷ (financial, g.of_financial) ∷ []

  -- The groups above their targets, the farthest first, and those below.
  unfoldable pub overweight_groups : ByGroup (Weight F) → List (Group × Weight F)
  overweight_groups g =
      sort_desc (λ x y. d.negate (y.1).dev <? d.negate (x.1).dev)
        (filter (λ e. rebal_threshold <? (e.1).dev) (group_items g))

  unfoldable pub underweight_groups : ByGroup (Weight F) → List (Group × Weight F)
  underweight_groups g =
      sort_desc (λ x y. (y.1).dev <? (x.1).dev)
        (filter (λ e. (e.1).dev <? d.negate rebal_threshold) (group_items g))

  -- Both steps; the weights are those before the sales.
  unfoldable pub run_sector_rebalance :
      ScoreSettings F
      → (F → TickerState F → Inputs F)
      → ℤ
      → Dict (TickerState F)
      → World F
      → Weekly F
  run_sector_rebalance cfg inputs threshold states world =
      let weights = sector_group_weights c.market holdings in
      let sales = sell_groups (overweight_groups weights) (record {
        sold = [];
        bought = [];
        skipped = [];
        cash_balance = c.cash_balance;
        world = world;
      }) in
      let of_group = λ (group : Group).
        sort_desc (λ x y. ltb_ℤ y.score x.score)
          (candidates cfg (inputs sales.cash_balance) group states) in
      buy_groups of_group threshold (underweight_groups weights) sales
