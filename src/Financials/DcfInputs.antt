-- ===== src/Financials/DcfInputs.antt =====
-- The inputs of the valuation, `get_dcf_data` of services/analysis/financial_service.py.
use stock_advisor.Prelude.{
  ◌&&◌, Bool, List, Option, String, if◌then◌else◌, leb, length, map, none, some, ℕ,
}
use stock_advisor.Floats.{◌<?◌, Double, nought, num, truthy, ◌⊖◌, ◌⊗◌}
use stock_advisor.Prelude.Dict.{insert, lookup}
use stock_advisor.Financials.{
  FinancialRow, analyze_dcf_inputs, get_financials_history, get_latest_financials, or_f,
  AnalyzedMetrics,
}
use stock_advisor.Financials.Growth.{build_yearly_eps, calc_cagr, calc_discount_rate, last_or}
use stock_advisor.Prelude.Int.{pos}
use stock_advisor.Financials.Metrics.{
  override, five_year_cashflow, yfinance, eps_per_fallback, eps_per_fallback_api, kis, found,
  no_data, Ask, CachedInput, DcfInput, DcfOverride, FinancialState, Source, dict_to_dcf_input,
  get_metrics, model_dump, DcfReply,
}
use stock_advisor.MarketHours.Sessions.{time}

module _ {F : Type 0} ⦃d : Double F⦄ where
  -- Where an override gives no beta, 1.0 stands, and where it gives no growth, 0.0.
  unfoldable pub override_input : F → DcfOverride F → DcfInput F
  override_input now o = record {
    values = record {
      fcf_per_share = o.fcf_per_share;
      growth_rate = or_f o.growth_rate nought;
      beta = or_f o.beta (num 1);
      discount_rate = none;
      fallback_fair_value = elim o.fair_value [
        | none ↦ none
        | some v ↦ if truthy v then some v else none
      ];
    };
    timestamp = elim o.updated_at [ none ↦ now | some t ↦ t ];
    source = override;
    years_used = none;
  }

  -- A cached entry of less than 1800 seconds.
  unfoldable pub fresh_entry : F → Option (CachedInput F) → Option (CachedInput F)
  fresh_entry now none = none
  fresh_entry now (some e) = if now ⊖ e.cached_at <? num 1800 then some e else none

  unfoldable pub yfinance_input : Ask F → Option (DcfInput F)
  yfinance_input a = elim a.fundamentals [
    | none ↦ none
    | some (fcf, b, g) ↦ elim fcf [
      | none ↦ none
      | some x ↦
          if truthy x && nought <? x
          then some (record {
            values = record {
              fcf_per_share = some x;
              growth_rate = g;
              beta = b;
              discount_rate = none;
              fallback_fair_value = none;
            };
            timestamp = a.now;
            source = yfinance;
            years_used = none;
          })
          else none
    ]
  ]

  -- The input whose value is earnings times their multiple.
  unfoldable pub eps_per_input : F → F → F → F → Source → DcfInput F
  eps_per_input eps per b time source = record {
    values = record {
      fcf_per_share = none;
      growth_rate = nought;
      beta = b;
      discount_rate = none;
      fallback_fair_value = some (d.round (eps ⊗ per) 2);
    };
    timestamp = time;
    source = source;
    years_used = none;
  }

  abbrev is_positive : F → Bool
  is_positive x = truthy x && nought <? x

  unfoldable pub latest_input : Option (FinancialRow F) → Option (DcfInput F)
  latest_input none = none
  latest_input (some r) = elim (r.figures).eps [
    | none ↦ none
    | some eps ↦ elim (r.figures).per [
      | none ↦ none
      | some per ↦
          if is_positive eps && is_positive per
          then some (eps_per_input eps per (num 1) r.base_time eps_per_fallback)
          else none
    ]
  ]

  unfoldable pub store : String → DcfInput F → FinancialState F → DcfReply F × FinancialState F
  store ticker x s = (found x, record s { dcf_inputs = insert ticker (model_dump x) s.dcf_inputs })

  unfoldable pub kis_input : F → Option F → DcfInput F
  kis_input now fcf = record {
    values = record {
      fcf_per_share = fcf;
      growth_rate = d.decimal (pos 5) 2;
      beta = num 1;
      discount_rate = none;
      fallback_fair_value = none;
    };
    timestamp = now;
    source = kis;
    years_used = none;
  }

  abbrev per_of : Option (AnalyzedMetrics F) → F
  per_of none = nought
  per_of (some f) = f.per

  -- The last source, the broker.
  unfoldable pub from_kis : Ask F → String → FinancialState F → DcfReply F × FinancialState F
  from_kis a ticker s = elim (analyze_dcf_inputs a.payload) [
    | none ↦ (no_data, s)
    | some fcf ↦
        let m = get_metrics a ticker s in
        let eps = or_f fcf nought in
        let per = per_of m.0 in
        store ticker
          (if nought <? eps && nought <? per
            then eps_per_input eps per (num 1) a.now eps_per_fallback_api
            else kis_input a.now fcf)
          m.1
  ]

  module _ (pow : F → F → F) (sqrt : F → F) where
    unfoldable pub five_year_input : F → List (ℕ × F) → F → DcfInput F
    five_year_input now points growth =
        let series = map (λ p. p.1) points in
        record {
          values = record {
            fcf_per_share = some (last_or nought series);
            growth_rate = growth;
            beta = num 1;
            discount_rate = some (calc_discount_rate pow sqrt series);
            fallback_fair_value = none;
          };
          timestamp = now;
          source = five_year_cashflow;
          years_used = some (map (λ p. p.0) points);
        }

    -- The part without an override and a fresh entry; a growth that is no number is an exception here.
    unfoldable pub compute_input : Ask F → String → FinancialState F → DcfReply F × FinancialState F
    compute_input a ticker s =
        let points = build_yearly_eps 5 (get_financials_history ticker 3000 s.table) in
        if leb 5 (length points)
        then (elim (calc_cagr pow (map (λ p. p.1) points)) [
          | none ↦ (no_data, s)
          | some growth ↦ store ticker (five_year_input a.now points growth) s
        ])
        else (elim (yfinance_input a) [
          | some x ↦ store ticker x s
          | none ↦ elim (latest_input (get_latest_financials ticker s.table)) [
            | some x ↦ store ticker x s
            | none ↦ from_kis a ticker s
          ]
        ])

    -- `get_dcf_data`
    unfoldable pub get_dcf_data : Ask F → String → FinancialState F → DcfReply F × FinancialState F
    get_dcf_data a ticker s = elim (lookup ticker s.overrides) [
      | some o ↦ store ticker (override_input a.now o) s
      | none ↦ elim (fresh_entry a.now (lookup ticker s.dcf_inputs)) [
        | some e ↦ (dict_to_dcf_input e, s)
        | none ↦ compute_input a ticker s
      ]
    ]
