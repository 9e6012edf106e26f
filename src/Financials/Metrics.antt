-- ===== src/Financials/Metrics.antt =====
-- The state of services/analysis/financial_service.py, and its function `get_metrics`.
use stock_advisor.Financials.{raised, empty, fields}
use stock_advisor.Prelude.{Bool, List, Option, String, if◌then◌else◌, none, some, ℕ}
use stock_advisor.Floats.{◌<?◌, Double, num, ◌⊖◌}
use stock_advisor.Dcf.{DcfData}
use stock_advisor.Prelude.Dict.{Dict, insert, lookup}
use stock_advisor.Financials.{
  FinancialRow, KisPayload, Output, Today, analyze_domestic_metrics, analyze_overseas_metrics,
  dict_to_metrics, empty, fields, financials_row_to_metrics, get_latest_financials, output_of,
  save_financials, AnalyzedMetrics,
}
use stock_advisor.Markets.{is_kr}

pub data Source : Type 0 where
  override five_year_cashflow yfinance eps_per_fallback eps_per_fallback_api kis : Source

-- DcfInputData
pub record DcfInput (F : Type 0) : Type 0 where
  pub values : DcfData F
  pub timestamp : F
  pub source : Source
  pub years_used : Option (List ℕ)

-- A cached dict: that of `model_dump`, or that of `save_override`, where beta and growth may be None.
pub record CachedInput (F : Type 0) : Type 0 where
  pub fcf_per_share : Option F
  pub beta : Option F
  pub growth_rate : Option F
  pub discount_rate : Option F
  pub fallback_fair_value : Option F
  pub cached_at : F
  pub cached_source : Source
  pub cached_years : Option (List ℕ)

-- A row of the overrides.
pub record DcfOverride (F : Type 0) : Type 0 where
  pub fcf_per_share : Option F
  pub beta : Option F
  pub growth_rate : Option F
  pub fair_value : Option F
  pub updated_at : Option F

pub record FinancialState (F : Type 0) : Type 0 where
  pub recent_metrics : Dict (F × AnalyzedMetrics F)
  pub dcf_inputs : Dict (CachedInput F)
  pub table : List (FinancialRow F)
  pub overrides : Dict (DcfOverride F)

-- What one call reads: the clock, yfinance as cash flow, beta and growth, the answers of the broker,
-- and whether the database takes a write.
pub record Ask (F : Type 0) : Type 0 where
  pub now : F
  pub date : Today F
  pub fundamentals : Option (Option F × F × F)
  pub payload : KisPayload F
  pub metrics_payload : KisPayload F
  pub written : Bool

-- `type_error` is an exception that leaves the method.
pub data DcfReply (F : Type 0) : Type 0 where
  type_error : DcfReply F
  no_data : DcfReply F
  found : DcfInput F → DcfReply F

module _ {F : Type 0} ⦃d : Double F⦄ where
  -- `model_dump`
  abbrev pub model_dump : DcfInput F → CachedInput F
  model_dump x =
      let v = x.values in
      record {
        fcf_per_share = v.fcf_per_share;
        beta = some v.beta;
        growth_rate = some v.growth_rate;
        discount_rate = v.discount_rate;
        fallback_fair_value = v.fallback_fair_value;
        cached_at = x.timestamp;
        cached_source = x.source;
        cached_years = x.years_used;
      }

  -- `_dict_to_dcf_input`
  unfoldable pub dict_to_dcf_input : CachedInput F → DcfReply F
  dict_to_dcf_input e = elim e.beta [
    | none ↦ type_error
    | some b ↦ elim e.growth_rate [
      | none ↦ type_error
      | some g ↦ found (record {
        values = record {
          fcf_per_share = e.fcf_per_share;
          growth_rate = g;
          beta = b;
          discount_rate = e.discount_rate;
          fallback_fair_value = e.fallback_fair_value;
        };
        timestamp = e.cached_at;
        source = e.cached_source;
        years_used = e.cached_years;
      })
    ]
  ]

  abbrev pub fresh_metrics : F → Option (F × AnalyzedMetrics F) → Option (AnalyzedMetrics F)
  fresh_metrics now none = none
  fresh_metrics now (some (t, m)) = if now ⊖ t <? num 600 then some m else none

  abbrev pub fresh_row : F → Option (FinancialRow F) → Option (FinancialRow F)
  fresh_row now none = none
  fresh_row now (some r) = if now ⊖ r.base_time <? num 86400 then some r else none

  abbrev analyze : String → Output F → Option (AnalyzedMetrics F)
  analyze ticker o = if is_kr ticker then analyze_domestic_metrics o else analyze_overseas_metrics o

  unfoldable pub analyzed_of : String → KisPayload F → Option (AnalyzedMetrics F)
  analyzed_of ticker raised = none
  analyzed_of ticker empty = none
  analyzed_of ticker (fields raw output) = analyze ticker (output_of raw output)

  abbrev row_metrics : Option (FinancialRow F) → Option (AnalyzedMetrics F)
  row_metrics none = none
  row_metrics (some r) = some (financials_row_to_metrics r)

  -- The metrics of the latest row where the broker has none; an exception gives None.
  unfoldable pub fallback_metrics :
      KisPayload F → Option (FinancialRow F) → Option (AnalyzedMetrics F)
  fallback_metrics raised latest = none
  fallback_metrics empty latest = row_metrics latest
  fallback_metrics (fields raw output) latest = row_metrics latest

  -- `get_metrics`
  unfoldable pub get_metrics :
      Ask F → String → FinancialState F → Option (AnalyzedMetrics F) × FinancialState F
  get_metrics a ticker s = elim (fresh_metrics a.now (lookup ticker s.recent_metrics)) [
    | some m ↦ (some (dict_to_metrics m), s)
    | none ↦
        let latest = get_latest_financials ticker s.table in
        elim (fresh_row a.now latest) [
          | some r ↦ (some (financials_row_to_metrics r), s)
          | none ↦ elim (analyzed_of ticker a.metrics_payload) [
            | none ↦ (fallback_metrics a.metrics_payload latest, s)
            | some m ↦ (
              some m,
              record s {
                recent_metrics = insert ticker (a.now, m) s.recent_metrics;
                table = if a.written then save_financials a.date ticker m s.table else s.table;
              },
            )
          ]
        ]
  ]
