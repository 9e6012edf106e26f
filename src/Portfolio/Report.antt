-- ===== src/Portfolio/Report.antt =====
-- `analyze_portfolio` and `calculate_balances` of services/trading/portfolio_service.py. A price that
-- is missing is 0; rows that were saved have one.
pub mod Totals
use stock_advisor.Prelude.{ℕ, ◌++◌, List, Option, String, filter, if◌then◌else◌, map, none, some}
use stock_advisor.Portfolio.Repository.{Accounts, load_cash, load_holdings}
use stock_advisor.Floats.{Double, nought, num, ◌≤?◌, ◌⊕◌, ◌⊖◌, ◌⊗◌, ◌⊘◌}
use stock_advisor.Portfolio.Holding.{Holding}
use mathlib.Core.List.{foldl}
use stock_advisor.Tickers.State.{get_or}
use stock_advisor.Markets.{is_kr, is_us, profit_pct}
use stock_advisor.Strategy.Limits.{kr_value}

-- The figures of one analysed holding; the profit of a US holding is also given in KRW.
pub record Analysed (F : Type 0) : Type 0 where
  pub holding : Holding F
  pub profit : F
  pub profit_krw : Option F
  pub pct : F
  pub market : String

pub record Shares (F : Type 0) : Type 0 where
  pub share_kr : F
  pub share_us : F
  pub share_cash_kr : F
  pub share_cash_us : F

pub record KrTotals (F : Type 0) : Type 0 where
  pub kr_invested : F
  pub kr_current : F
  pub kr_profit : F
  pub kr_pct : F
  pub kr_cash : F
  pub kr_total : F

pub record UsTotals (F : Type 0) : Type 0 where
  pub invested_usd : F
  pub invested_krw : F
  pub current_usd : F
  pub current_krw : F
  pub us_profit_usd : F
  pub us_profit_krw : F
  pub us_pct : F
  pub cash_usd : F
  pub cash_krw : F
  pub total_krw : F

pub record Analysis (F : Type 0) : Type 0 where
  pub results : List (Analysed F)
  pub total_invested : F
  pub total_current : F
  pub total_profit : F
  pub total_pct : F
  pub kr : KrTotals F
  pub us : UsTotals F
  pub balances : Shares F

module _ {F : Type 0} ⦃d : Double F⦄ where
  abbrev pub price_now : Holding F → F
  price_now h = get_or h.current_price nought

  unfoldable pub filter_kr : List (Holding F) → List (Holding F)
  filter_kr hs = filter (λ h. is_kr h.ticker) hs

  unfoldable pub filter_us : List (Holding F) → List (Holding F)
  filter_us hs = filter (λ h. is_us h.ticker) hs

  abbrev pub value_now : Holding F → F
  value_now h = h.quantity ⊗ price_now h

  abbrev pub value_invested : Holding F → F
  value_invested h = h.quantity ⊗ h.buy_price

  unfoldable pub analyse_kr : Holding F → Analysed F
  analyse_kr h = record {
    holding = h;
    profit = d.round (value_now h ⊖ value_invested h) 2;
    profit_krw = none;
    pct = profit_pct (value_now h) (value_invested h) 2;
    market = "KR";
  }

  unfoldable pub analyse_us : F → Holding F → Analysed F
  analyse_us exchange_rate h = record {
    holding = h;
    profit = d.round (value_now h ⊖ value_invested h) 2;
    profit_krw = some (d.round ((value_now h ⊖ value_invested h) ⊗ exchange_rate) 2);
    pct = profit_pct (value_now h) (value_invested h) 2;
    market = "US";
  }

  -- A loop that adds up a figure.
  unfoldable pub add_up : (Holding F → F) → List (Holding F) → F
  add_up f hs = foldl (λ a h. a ⊕ f h) nought hs

  -- `calculate_balances`: the shares of the four parts; the totals of the parts, which are rounded
  -- sums of the same figures, are left out. A rate that is not positive is replaced.
  unfoldable pub calculate_balances : List (Holding F) → F → F → F → F → Shares F
  calculate_balances holdings cash usd_cash exchange_rate default_rate =
      let rate = if exchange_rate ≤? nought then default_rate else exchange_rate in
      let kr_value = add_up (λ h. price_now h ⊗ h.quantity) (filter_kr holdings) in
      let us_value = add_up (λ h. price_now h ⊗ h.quantity) (filter_us holdings) ⊗ rate in
      let us_cash = usd_cash ⊗ rate in
      let total = kr_value ⊕ us_value ⊕ cash ⊕ us_cash in
      let share = λ (x : F). d.round (x ⊘ total ⊗ num 100) 2 in
      if d.eq total nought
      then record {
        share_kr = nought;
        share_us = nought;
        share_cash_kr = nought;
        share_cash_us = nought;
      }
      else record {
        share_kr = share kr_value;
        share_us = share us_value;
        share_cash_kr = share cash;
        share_cash_us = share us_cash;
      }

  unfoldable pub kr_totals : List (Holding F) → F → KrTotals F
  kr_totals hs cash =
      let invested = add_up value_invested hs in
      let current = add_up value_now hs in
      record {
        kr_invested = d.round invested 2;
        kr_current = d.round current 2;
        kr_profit = d.round (current ⊖ invested) 2;
        kr_pct = profit_pct current invested 2;
        kr_cash = d.round cash 2;
        kr_total = d.round (current ⊕ cash) 2;
      }

  unfoldable pub us_totals : List (Holding F) → F → F → UsTotals F
  us_totals hs usd_cash rate =
      let invested = add_up value_invested hs in
      let current = add_up value_now hs in
      record {
        invested_usd = d.round invested 2;
        invested_krw = d.round (invested ⊗ rate) 2;
        current_usd = d.round current 2;
        current_krw = d.round (current ⊗ rate) 2;
        us_profit_usd = d.round (current ⊖ invested) 2;
        us_profit_krw = d.round (current ⊗ rate ⊖ invested ⊗ rate) 2;
        us_pct = profit_pct current invested 2;
        cash_usd = d.round usd_cash 2;
        cash_krw = d.round (usd_cash ⊗ rate) 2;
        total_krw = d.round (current ⊗ rate ⊕ usd_cash ⊗ rate) 2;
      }

  unfoldable pub analyze_holdings : List (Holding F) → F → F → F → Analysis F
  analyze_holdings holdings cash usd_cash rate =
      let kr_holdings = filter_kr holdings in
      let us_holdings = filter_us holdings in
      let analysed = map analyse_kr kr_holdings ++ map (analyse_us rate) us_holdings in
      let invested = add_up value_invested kr_holdings ⊕ add_up value_invested us_holdings ⊗ rate in
      let current = add_up value_now kr_holdings ⊕ add_up value_now us_holdings ⊗ rate in
      record {
        results = analysed;
        total_invested = d.round invested 2;
        total_current = d.round current 2;
        total_profit = d.round (current ⊖ invested) 2;
        total_pct = profit_pct current invested 2;
        kr = kr_totals kr_holdings cash;
        us = us_totals us_holdings usd_cash rate;
        balances = calculate_balances (map (λ a. a.holding) analysed) cash usd_cash rate rate;
      }

  -- `analyze_portfolio`, with the USD cash and the exchange rate
  unfoldable pub analyze_portfolio : String → F → F → Accounts F → Analysis F
  analyze_portfolio user_id usd_cash rate t =
      analyze_holdings (load_holdings user_id t) (load_cash user_id t) usd_cash rate
