-- ===== src/Financials/Overrides.antt =====
-- `save_override` of services/analysis/financial_service.py and `upsert_dcf_override` of
-- services/market/stock_meta_service.py.
use stock_advisor.Prelude.{Bool, Option, String, if◌then◌else◌, none, some}
use stock_advisor.Prelude.Dict.{insert, lookup}
use stock_advisor.Financials.Metrics.{override, DcfOverride, FinancialState}
use stock_advisor.Settings.Repository.{written}

-- The parameters of an override; what is not given keeps its value.
pub record OverrideParams (F : Type 0) : Type 0 where
  pub fcf_per_share : Option F
  pub beta : Option F
  pub growth_rate : Option F
  pub fair_value : Option F

module _ {F : Type 0} where
  abbrev pub given_or : Option F → Option F → Option F
  given_or none old = old
  given_or (some x) old = some x

  unfoldable pub merged : F → OverrideParams F → Option (DcfOverride F) → DcfOverride F
  merged now p none = record {
    fcf_per_share = p.fcf_per_share;
    beta = p.beta;
    growth_rate = p.growth_rate;
    fair_value = p.fair_value;
    updated_at = some now;
  }
  merged now p (some o) = record {
    fcf_per_share = given_or p.fcf_per_share o.fcf_per_share;
    beta = given_or p.beta o.beta;
    growth_rate = given_or p.growth_rate o.growth_rate;
    fair_value = given_or p.fair_value o.fair_value;
    updated_at = some now;
  }

  -- `save_override` with `upsert_dcf_override`: nothing changes where the database fails.
  unfoldable pub save_override :
      F → Bool → String → OverrideParams F → FinancialState F → FinancialState F
  save_override now written ticker p s =
      let o = merged now p (lookup ticker s.overrides) in
      if written
      then record s {
        overrides = insert ticker o s.overrides;
        dcf_inputs =
            insert ticker
              (record {
                fcf_per_share = o.fcf_per_share;
                beta = o.beta;
                growth_rate = o.growth_rate;
                discount_rate = none;
                fallback_fair_value = none;
                cached_at = now;
                cached_source = override;
                cached_years = none;
              })
              s.dcf_inputs;
      }
      else s
