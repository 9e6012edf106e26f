-- ===== src/Strategy/Manual.antt =====
-- `_calculate_total_assets`, `get_waiting_list` and `execute_sell` of
-- services/strategy/trading_strategy_service.py. What calculate_score reads for a ticker is an
-- argument, and so is the broker.
use stock_advisor.Prelude.{
  All, Bool, List, String, [], arith, false, if◌then◌else◌, if_cases, none, some, ◌||◌, ◌∷◌, ◌≡◌,
  ◌⊎◌,
}
use stock_advisor.Floats.{◌<?◌, Double, nought, ◌≤?◌, ◌⊕◌, ◌⊗◌}
use stock_advisor.Prelude.Dict.{Dict, lookup}
use stock_advisor.Portfolio.Holding.{Holding, held}
use stock_advisor.Strategy.Score.{Inputs, Macro, Reason, ScoreSettings, calculate_score}
use stock_advisor.Prelude.Sorting.{IsDescending, sort_desc, sort_desc-IsDescending}
use stock_advisor.Tickers.State.{TickerState}
use stock_advisor.Portfolio.Report.{add_up, filter_kr, filter_us, price_now}
use stock_advisor.Strategy.CashTarget.{get_target_cash_ratio}
use stock_advisor.Strategy.Signals.{holdings_map}
use stock_advisor.Prelude.Int.{leb_ℤ, ltb_ℤ, ℤ, ◌≤ℤ◌}

pub record Waiting (F : Type 0) : Type 0 where
  pub waiting_state : TickerState F
  pub waiting_score : ℤ
  pub action : String
  pub waiting_reasons : List Reason

-- The thresholds of the list.
pub record Thresholds : Type 0 where
  pub buy_threshold_max : ℤ
  pub sell_threshold_min : ℤ

pub data ManualSale (F : Type 0) : Type 0 where
  no_holding : ManualSale F
  refused : F → ManualSale F
  sold_manually : F → F → ManualSale F

abbrev pub score_below : {F : Type 0} → Waiting F → Waiting F → Bool
score_below w v = ltb_ℤ w.waiting_score v.waiting_score

module _ {F : Type 0} ⦃d : Double F⦄ where
  -- The total in KRW, with the cash targets of both markets; the status is in upper case.
  unfoldable pub calculate_total_assets :
      (String → F → F) → F → F → List (Holding F) → F → String → F × F × F
  calculate_total_assets get_float usd_cash exchange_rate holdings cash_balance regime_status =
      let kr_value = add_up (λ h. price_now h ⊗ h.quantity) (filter_kr holdings) in
      let us_value = add_up (λ h. price_now h ⊗ h.quantity) (filter_us holdings) ⊗ exchange_rate in
      (
        kr_value ⊕ us_value ⊕ cash_balance ⊕ usd_cash ⊗ exchange_rate,
        get_target_cash_ratio get_float "KR" regime_status,
        get_target_cash_ratio get_float "US" regime_status,
      )

  -- The entries of the list, in the order of the states.
  unfoldable pub waiting_entries :
      ScoreSettings F
      → Macro F
      → (TickerState F → Inputs F)
      → Thresholds
      → Dict (Holding F)
      → Dict (TickerState F)
      → List (Waiting F)
  waiting_entries cfg macro inputs th holdings [] = []
  waiting_entries cfg macro inputs th holdings ((t, s) ∷ states) =
      let rest = waiting_entries cfg macro inputs th holdings states in
      let result = calculate_score cfg s (lookup t holdings) macro (inputs s) in
      let entry : Waiting F = record {
        waiting_state = s;
        waiting_score = result.0;
        action = if leb_ℤ result.0 th.buy_threshold_max then "BUY" else "SELL";
        waiting_reasons = result.1;
      } in
      if leb_ℤ result.0 th.buy_threshold_max || leb_ℤ th.sell_threshold_min result.0
      then entry ∷ rest
      else rest

  unfoldable pub get_waiting_list :
      ScoreSettings F
      → Macro F
      → (TickerState F → Inputs F)
      → Thresholds
      → List (Holding F)
      → Dict (TickerState F)
      → List (Waiting F)
  get_waiting_list cfg macro inputs th holdings states =
      sort_desc score_below (waiting_entries cfg macro inputs th (holdings_map holdings) states)

  -- A quantity that is not positive, or above what is held, sells everything.
  unfoldable pub sale_quantity : F → F → F
  sale_quantity quantity max_qty =
      if (quantity ≤? nought) || (max_qty <? quantity) then max_qty else quantity

  -- `execute_sell` on the synced holdings; a sale that the broker takes is recorded at the price of
  -- the holding.
  unfoldable pub execute_sell : (String → F → Bool) → String → F → List (Holding F) → ManualSale F
  execute_sell send_order ticker quantity holdings = elim (held ticker holdings) [
    | none ↦ no_holding
    | some h ↦
        let q = sale_quantity quantity h.quantity in
        if send_order ticker q then sold_manually q (price_now h) else refused q
  ]

  -- An entry of the list has the action of its side of the thresholds.
  abbrev pub IsSided : Thresholds → Waiting F → Type 0
  IsSided th w =
      ((w.action ≡ "BUY") × (w.waiting_score ≤ℤ th.buy_threshold_max))
      ⊎ ((w.action ≡ "SELL") × (th.sell_threshold_min ≤ℤ w.waiting_score))

  pub waiting_entries-IsSided :
      (cfg : ScoreSettings F) (macro : Macro F) (inputs : TickerState F → Inputs F)
      (th : Thresholds) (holdings : Dict (Holding F)) (states : Dict (TickerState F))
      → All (IsSided th) (waiting_entries cfg macro inputs th holdings states)
  unfolding waiting_entries
  waiting_entries-IsSided cfg macro inputs th holdings [] = tt
  waiting_entries-IsSided cfg macro inputs th holdings ((t, s) ∷ states) =
      let P : List (Waiting F) → Type 0 = All (IsSided th) in
      let rest = waiting_entries-IsSided cfg macro inputs th holdings states in
      let score = (calculate_score cfg s (lookup t holdings) macro (inputs s)).0 in
      if_cases P (leb_ℤ score th.buy_threshold_max || leb_ℤ th.sell_threshold_min score) _ _
        (λ e. (ground (arith, e), rest)) (λ e. rest)

  -- The waiting list has the greatest score first.
  pub get_waiting_list-IsDescending :
      (cfg : ScoreSettings F) (macro : Macro F) (inputs : TickerState F → Inputs F)
      (th : Thresholds) (holdings : List (Holding F)) (states : Dict (TickerState F))
      → IsDescending score_below (get_waiting_list cfg macro inputs th holdings states)
  unfolding get_waiting_list
  get_waiting_list-IsDescending cfg macro inputs th holdings states =
      sort_desc-IsDescending score_below (λ v w e. ground (arith, e)) _

  -- A manual sale sends a positive quantity that is not above what is held, or all that is held.
  pub sale_quantity-cases :
      (quantity max_qty : F)
      → (sale_quantity quantity max_qty ≡ max_qty)
        ⊎ ((sale_quantity quantity max_qty ≡ quantity)
            × (d.le quantity nought ≡ false)
            × (d.lt max_qty quantity ≡ false))
  unfolding sale_quantity
  sale_quantity-cases quantity max_qty = ground arith
