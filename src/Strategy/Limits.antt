-- ===== src/Strategy/Limits.antt =====
-- The checks before a buy and its size: `_is_cash_ratio_sufficient`, `_passes_allocation_limits` and
-- `_calculate_buy_quantity` of services/strategy/trading_strategy_service.py.
use stock_advisor.Prelude.{
  ◌&&◌, ◌++◌, Bool, List, Option, String, [], filter, if◌then◌else◌, map, none, not, some, ◌||◌,
  ◌∷◌, false, true,
}
use stock_advisor.Floats.{◌<?◌, Double, int, min_f, nought, num, ◌≤?◌, ◌⊕◌, ◌⊗◌, ◌⊘◌}
use stock_advisor.Prelude.Dict.{Dict, insert, lookup}
use stock_advisor.Portfolio.Holding.{Holding}
use stock_advisor.Strategy.Score.{Macro}
use stock_advisor.Strategy.Sectors.{
  Market, at_group, holding_value, is_other, rebal_threshold, sector_group, sector_group_weights,
  target_weight, ticker_sector,
}
use stock_advisor.Prelude.Int.{eq_ℤ, leb_ℤ, pos, ℤ}
use mathlib.Core.List.{foldl}
use stock_advisor.Markets.{is_kr, is_us}

-- The settings that trades read, with the defaults filled in.
pub record TradeSettings (F : Type 0) : Type 0 where
  pub per_trade_ratio : F
  pub split_count : ℤ
  pub buy_threshold : ℤ
  pub add_position_below : F
  pub max_sector_ratio : F

-- A buy: how many, at what cost in KRW, at what price in KRW.
pub record Size (F : Type 0) : Type 0 where
  pub quantity : ℤ
  pub cost : F
  pub final_price : F

pub data LimitReason : Type 0 where
  sector_limit group_limit : LimitReason

-- `len(reasons) == 0`
abbrev pub passes : List LimitReason → Bool
passes [] = true
passes (r ∷ rs) = false

module _ {F : Type 0} ⦃d : Double F⦄ where
  -- `_is_panic_market`
  unfoldable pub is_panic_market : Macro F → Bool
  is_panic_market macro = num 25 ≤? macro.vix || macro.fear_greed ≤? num 30

  -- `sum(...)` over the holdings of one market with a positive quantity, from the left
  unfoldable pub kr_value : Market F → List (Holding F) → F
  kr_value market hs =
      foldl ◌⊕◌ nought
        (map (holding_value market) (filter (λ h. is_kr h.ticker && nought <? h.quantity) hs))

  unfoldable pub us_value_krw : Market F → List (Holding F) → F
  us_value_krw market hs = foldl ◌⊕◌ nought (
      map (λ h. holding_value market h ⊗ market.exchange_rate)
        (filter (λ h. is_us h.ticker && nought <? h.quantity) hs))

  -- The share of `cash` in a total, 0 where the total is not positive.
  abbrev pub ratio_of : F → F → F
  ratio_of cash total = if nought <? total then cash ⊘ total else nought

  -- `_is_cash_ratio_sufficient`, for a target that is given
  unfoldable pub is_cash_ratio_sufficient :
      Market F → Macro F → F → String → List (Holding F) → F → F → Bool
  is_cash_ratio_sufficient market macro usd_cash ticker holdings cash_balance target =
      let ratio =
        if is_kr ticker
        then ratio_of cash_balance (kr_value market holdings ⊕ cash_balance)
        else (let us_cash_krw = usd_cash ⊗ market.exchange_rate in
            ratio_of us_cash_krw (us_value_krw market holdings ⊕ us_cash_krw)) in
      ratio ≤? target && not (is_panic_market macro)

  -- The factor on the size of a trade.
  unfoldable pub multiplier : ℤ → F
  multiplier score =
      if leb_ℤ (pos 90) score
      then d.decimal (pos 20) 1
      else if leb_ℤ (pos 80) score
      then d.decimal (pos 15) 1
      else d.decimal (pos 10) 1

  -- The amount that one buy may use.
  unfoldable pub actual_invest : TradeSettings F → ℤ → F → F → F → F
  actual_invest cfg score total_assets cash_balance market_total_krw =
      let base_assets = if nought <? market_total_krw then market_total_krw else total_assets in
      let target_invest = base_assets ⊗ cfg.per_trade_ratio ⊗ multiplier score in
      min_f (target_invest ⊘ int cfg.split_count) cash_balance

  -- `_calculate_buy_quantity`
  unfoldable pub calculate_buy_quantity : TradeSettings F → F → ℤ → F → F → F → Bool → F → Size F
  calculate_buy_quantity cfg exchange_rate score total_assets cash_balance current_price kr
        market_total_krw =
      let invest = actual_invest cfg score total_assets cash_balance market_total_krw in
      let final_price = if kr then current_price else current_price ⊗ exchange_rate in
      let affordable =
        if nought <? final_price then d.truncate (d.floor_div invest final_price) else pos 0 in
      let quantity =
        if eq_ℤ affordable (pos 0) && leb_ℤ cfg.buy_threshold score && final_price ≤? cash_balance
        then pos 1
        else affordable in
      record { quantity = quantity; cost = int quantity ⊗ final_price; final_price = final_price }

  -- `values.get(sector, 0.0)`
  abbrev pub price_default : Option F → F
  price_default none = nought
  price_default (some x) = x

  -- One round of the loop that fills `sector_values`; the values are not converted to KRW.
  unfoldable pub add_sector_value : Market F → Dict F → Holding F → Dict F
  add_sector_value market values h =
      if h.quantity ≤? nought
      then values
      else (let worth = holding_value market h in
          if worth ≤? nought
          then values
          else (let sector = ticker_sector market h.ticker (some h) in
              insert sector (price_default (lookup sector values) ⊕ worth) values))

  -- The ratio that is held against the limit for one sector.
  unfoldable pub sector_ratio :
      Market F → String → F → List (Holding F) → F → Option (Holding F) → F
  sector_ratio market ticker add_value holdings total_assets holding =
      let sector = ticker_sector market ticker holding in
      let values = foldl (add_sector_value market) [] holdings in
      (price_default (lookup sector values) ⊕ add_value) ⊘ total_assets

  -- `_passes_allocation_limits`: the reasons against the buy, none if it passes
  unfoldable pub allocation_limits :
      TradeSettings F
      → Market F
      → String
      → F
      → List (Holding F)
      → F
      → Option (Holding F)
      → List LimitReason
  allocation_limits cfg market ticker add_value holdings total_assets holding =
      if total_assets ≤? nought
      then []
      else (let ratio = sector_ratio market ticker add_value holdings total_assets holding in
          let by_sector =
            if nought <? cfg.max_sector_ratio && cfg.max_sector_ratio <? ratio
            then sector_limit ∷ []
            else [] in
          let group = sector_group market ticker holding in
          let weights = sector_group_weights market holdings in
          let by_group =
            if not (is_other group)
              && (target_weight group ⊕ rebal_threshold) <? (at_group group weights).weight
            then group_limit ∷ []
            else [] in
          by_sector ++ by_group)
