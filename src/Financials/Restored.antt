-- ===== src/Financials/Restored.antt =====
-- An override that `save_override` of services/analysis/financial_service.py stores is what `get_dcf_data`
-- returns.
use stock_advisor.Financials.Metrics.{found, override, Ask, DcfInput, DcfOverride, FinancialState}
use stock_advisor.Floats.{Double, truthy}
use stock_advisor.Prelude.{
  Option, Option-cases, String, ap, arith, eq_iff, if◌then◌else◌, none, refl, some, true, ◌≡◌,
}
use stock_advisor.Financials.Overrides.{OverrideParams, given_or, merged, save_override}
use stock_advisor.Financials.DcfInputs.{get_dcf_data, override_input, store}
use stock_advisor.Prelude.Dict.{lookup, lookup-insert}

module _ {F : Type 0} where
  -- A field of the override that there was before.
  abbrev pub before_of : (DcfOverride F → Option F) → Option (DcfOverride F) → Option F
  before_of field none = none
  before_of field (some o) = field o

  merged-field :
      (now : F) (p : OverrideParams F) (o : Option (DcfOverride F))
      → ((merged now p o).fcf_per_share
          ≡ given_or p.fcf_per_share (before_of (λ r. r.fcf_per_share) o))
        × ((merged now p o).fair_value ≡ given_or p.fair_value (before_of (λ r. r.fair_value) o))
        × ((merged now p o).updated_at ≡ some now)
  unfolding merged
  merged-field now p none = (
    ground (arith, Option-cases p.fcf_per_share),
    ground (arith, Option-cases p.fair_value),
    refl,
  )
  merged-field now p (some o) = (refl, refl, refl)

module _ {F : Type 0} ⦃d : Double F⦄ where
  -- A value of 0 counts as none.
  abbrev pub non_zero : Option F → Option F
  non_zero none = none
  non_zero (some v) = if truthy v then some v else none

  -- After an override that the database takes, get_dcf_data returns an input of that source and
  -- time, whose cash flow and fixed value are the given ones, or where none was given those of the
  -- override before; a fixed value of 0 counts as none.
  pub get_dcf_data-save_override :
      (pow : F → F → F) (sqrt : F → F) (now : F) (a : Ask F) (ticker : String)
      (p : OverrideParams F) (s : FinancialState F)
      → let before = lookup ticker s.overrides in
        (x : DcfInput F) × ((get_dcf_data pow sqrt a ticker (save_override now true ticker p s)).0
          ≡ found x)
        × (x.source ≡ override)
        × (x.timestamp ≡ now)
        × ((x.values).fcf_per_share
            ≡ given_or p.fcf_per_share (before_of (λ r. r.fcf_per_share) before))
        × ((x.values).fallback_fair_value
            ≡ non_zero (given_or p.fair_value (before_of (λ r. r.fair_value) before)))
  unfolding get_dcf_data save_override store override_input
  get_dcf_data-save_override pow sqrt now a ticker p s =
      let o = merged now p (lookup ticker s.overrides) in
      let e = merged-field now p (lookup ticker s.overrides) in
      (
        override_input a.now o,
        ground (arith, lookup-insert ticker ticker o s.overrides, eq_iff ticker ticker),
        refl,
        ground (arith, e.2),
        e.0,
        ap non_zero e.1,
      )
