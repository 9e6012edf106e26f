-- ===== src/Portfolio/Rows.antt =====
-- `build_holding_report_row`, `build_full_report` and `add_holding_manual` of
-- services/trading/portfolio_service.py. Of a row the figures that are computed are kept; the others
-- are copies of cached ones.
use stock_advisor.Prelude.{
  Bool, List, Option, String, false, if◌then◌else◌, length-map, map, none, not, some, str_eq, ◌∙◌,
  filter, length, ◌≡◌,
}
use stock_advisor.Floats.{◌<?◌, Double, IsOrdered, nought, num, truthy, ◌⊖◌, ◌⊗◌, ◌⊘◌}
use stock_advisor.Portfolio.Repository.{Accounts, load_holdings, save_portfolio}
use stock_advisor.Portfolio.Holding.{Holding, update_first}
use stock_advisor.Prelude.Sorting.{
  IsDescending, length-sort_desc, sort_desc, sort_desc-IsDescending,
}
use stock_advisor.Portfolio.Trades.{Outcome, apply_buy}
use stock_advisor.Alerts.{or_now}

-- The cached price and value of a ticker.
pub record Cached (F : Type 0) : Type 0 where
  pub cached_price : Option F
  pub cached_dcf : Option F

pub record ReportRow (F : Type 0) : Type 0 where
  pub report_ticker : String
  pub report_name : Option String
  pub report_price : F
  pub return_rate : F
  pub dcf_fair : Option F
  pub dcf_upside : Option F

module _ {F : Type 0} ⦃d : Double F⦄ where
  abbrev pub upside_of : F → F → F
  upside_of dcf price = if truthy price then (dcf ⊖ price) ⊘ price ⊗ num 100 else nought

  unfoldable pub build_holding_report_row : Holding F → Cached F → ReportRow F
  build_holding_report_row h c =
      let price = or_now c.cached_price h.buy_price in
      let rate =
        if nought <? h.buy_price then (price ⊖ h.buy_price) ⊘ h.buy_price ⊗ num 100 else nought in
      record {
        report_ticker = h.ticker;
        report_name = h.name;
        report_price = price;
        return_rate = d.round rate 2;
        dcf_fair = c.cached_dcf;
        dcf_upside = elim c.cached_dcf [
          | none ↦ none
          | some dcf ↦ if truthy dcf then some (d.round (upside_of dcf price) 1) else none
        ];
      }

  abbrev pub return_below : ReportRow F → ReportRow F → Bool
  return_below r s = r.return_rate <? s.return_rate

  -- The rows of the stored holdings that have a ticker, the greatest return first.
  unfoldable pub build_full_report : String → (String → Cached F) → Accounts F → List (ReportRow F)
  build_full_report user_id cache t = sort_desc return_below (
      map (λ h. build_holding_report_row h (cache h.ticker))
        (filter (λ (h : Holding F). not (str_eq h.ticker "")) (load_holdings user_id t)))

  abbrev pub is_named_after : Holding F → Bool
  is_named_after h = elim h.name [ none ↦ false | some n ↦ str_eq n h.ticker ]

  -- A holding that is named after its ticker takes the given name.
  abbrev pub rename : String → Holding F → Holding F
  rename name h = if is_named_after h then record h { name = some name } else h

  abbrev pub name_first : Option String → String → List (Holding F) → List (Holding F)
  name_first none ticker hs = hs
  name_first (some n) ticker hs = if str_eq n "" then hs else update_first ticker (rename n) hs

  -- The holdings that are returned, and the accounts; a division by zero is passed on.
  unfoldable pub add_holding_manual :
      Bool
      → String
      → String
      → F
      → F
      → Option String
      → Accounts F
      → Outcome (List (Holding F) × Accounts F)
  add_holding_manual db_ok user_id ticker quantity buy_price name t =
      elim (apply_buy (load_holdings user_id t) ticker quantity buy_price) [
        | Outcome.raised e ↦ Outcome.raised e
        | Outcome.returned hs ↦
            let named = name_first name ticker hs in
            Outcome.returned (named, (save_portfolio db_ok user_id named none t).1)
      ]

  -- The full report has a row for each stored holding with a ticker, in the order of returns.
  pub build_full_report-IsDescending :
      (o : IsOrdered F) (user_id : String) (cache : String → Cached F) (t : Accounts F)
      → IsDescending return_below (build_full_report user_id cache t)
        × (length (build_full_report user_id cache t)
            ≡ length
                (filter (λ (h : Holding F). not (str_eq h.ticker "")) (load_holdings user_id t)))
  unfolding build_full_report
  build_full_report-IsDescending o user_id cache t =
      let hs = filter (λ (h : Holding F). not (str_eq h.ticker "")) (load_holdings user_id t) in
      let rows = map (λ h. build_holding_report_row h (cache h.ticker)) hs in
      (
        sort_desc-IsDescending return_below
            (λ r s e.
              o.not-lt_of_le r.return_rate s.return_rate (o.le_of_lt r.return_rate s.return_rate e))
            rows,
        length-sort_desc return_below rows
            ∙ length-map (λ h. build_holding_report_row h (cache h.ticker)) hs,
      )
