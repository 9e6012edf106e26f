-- ===== src/Dcf.antt =====
-- services/analysis/analyzer/dcf_analyzer.py and services/analysis/dcf_service.py: the value of a
-- share by its discounted cash flows. Python's `**` is the parameter `pow`; a division by zero, which
-- raises, is `none`. The financial data of a ticker is an argument.
pub mod Rates
pub mod Stages
pub mod Listing
mod Tests
use stock_advisor.Prelude.{
  ℕ, ◌&&◌, Bool, List, Option, String, [], false, filter, if◌then◌else◌, length, none, some, str_eq,
  suc, true, zero, ◌∷◌,
}
use stock_advisor.Floats.{◌<?◌, Double, max_f, min_f, nought, num, truthy, ◌⊕◌, ◌⊖◌, ◌⊗◌, ◌⊘◌}
use mathlib.Core.List.{foldl}
use stock_advisor.Tickers.State.{get_or}
use stock_advisor.Prelude.Int.{pos}
use stock_advisor.Prelude.Sorting.{sort_desc}

pub record DcfConfig (F : Type 0) : Type 0 where
  pub equity_risk_premium : F
  pub discount_rate_floor : F
  pub discount_rate_ceil : F
  pub default_discount_rate : F
  pub stage1_years : ℕ

-- `get_dcf_data`
pub record DcfData (F : Type 0) : Type 0 where
  pub fcf_per_share : Option F
  pub growth_rate : F
  pub beta : F
  pub discount_rate : Option F
  pub fallback_fair_value : Option F

-- The value of a calculation, with the rates that it used unless the cash flow was refused.
pub data FairValue (F : Type 0) : Type 0 where
  invalid_fcf : FairValue F
  fair : F → F → F → FairValue F

pub data DcfError : Type 0 where
  ticker_not_found : DcfError
  fcf_not_available : DcfError
  division_by_zero : DcfError

pub data Answer (A : Type 0) : Type 0 where
  raised : DcfError → Answer A
  answer : A → Answer A

module _ {F : Type 0} ⦃d : Double F⦄ where
  -- `x / y`
  abbrev pub divide? : F → F → Option F
  divide? x y = if d.eq y nought then none else some (x ⊘ y)

  unfoldable pub discount_source : DcfConfig F → F → F → Option F → F
  discount_source c risk_free_rate beta none =
      if truthy beta then risk_free_rate ⊕ beta ⊗ c.equity_risk_premium else c.default_discount_rate
  discount_source c risk_free_rate beta (some manual) = manual

  unfoldable pub compute_discount_rate : DcfConfig F → F → F → Option F → F
  compute_discount_rate c risk_free_rate beta manual_discount =
      max_f c.discount_rate_floor
        (min_f c.discount_rate_ceil (discount_source c risk_free_rate beta manual_discount))

  -- The growth of a year: it slides from the first rate to the last.
  unfoldable pub year_growth : F → F → ℕ → ℕ → F
  year_growth growth_rate terminal_growth years i =
      growth_rate ⊖ (growth_rate ⊖ terminal_growth) ⊗ (num i ⊘ num years)

  module _ (pow : F → ℕ → F) where
    -- The loop, from a year on, for the years that are left.
    unfoldable pub stage1_from : F → F → F → ℕ → ℕ → ℕ → F → Option (List F × F)
    stage1_from growth terminal rate years i zero current = some ([], current)
    stage1_from growth terminal rate years i (suc left) current =
        let next = current ⊗ (num 1 ⊕ year_growth growth terminal years i) in
        let rest = stage1_from growth terminal rate years (suc i) left next in
        elim (divide? next (pow (num 1 ⊕ rate) i)) [
          | none ↦ none
          | some x ↦ elim rest [ none ↦ none | some (xs, last) ↦ some (x ∷ xs, last) ]
        ]

    unfoldable pub compute_stage1_discounted_fcfs : F → F → F → F → ℕ → Option (List F × F)
    compute_stage1_discounted_fcfs fcf growth terminal rate years =
        stage1_from growth terminal rate years 1 years fcf

    unfoldable pub compute_discounted_terminal_value : F → F → F → ℕ → Option F
    compute_discounted_terminal_value final terminal rate years =
        elim (divide? (final ⊗ (num 1 ⊕ terminal)) (rate ⊖ terminal)) [
          | none ↦ none
          | some v ↦ divide? v (pow (num 1 ⊕ rate) years)
        ]

    -- `sum`
    abbrev pub sum_f : List F → F
    sum_f xs = foldl (λ a x. a ⊕ x) nought xs

    unfoldable pub fair_value_of : DcfConfig F → F → F → F → F → Option (FairValue F)
    fair_value_of c fcf growth terminal rate =
        elim (compute_stage1_discounted_fcfs fcf growth terminal rate c.stage1_years) [
          | none ↦ none
          | some (xs, last) ↦
              elim (compute_discounted_terminal_value last terminal rate c.stage1_years) [
                | none ↦ none
                | some t ↦
                    some (
                      FairValue.fair (d.round (sum_f xs ⊕ t) 2) (d.round rate 4) (d.round growth 4))
              ]
        ]

    unfoldable pub calculate_fair_value :
        DcfConfig F → Option F → F → F → F → F → Option F → Option (FairValue F)
    calculate_fair_value c fcf_per_share growth_rate beta risk_free_rate terminal_growth
          manual_discount =
        let rate = compute_discount_rate c risk_free_rate beta manual_discount in
        elim fcf_per_share [
          | none ↦ some FairValue.invalid_fcf
          | some fcf ↦
              if nought <? fcf
              then fair_value_of c fcf growth_rate terminal_growth rate
              else some FairValue.invalid_fcf
        ]

    abbrev pub value_of : Option (FairValue F) → F
    value_of (some (FairValue.fair v r g)) = v
    value_of o = nought

    -- `calculate_dcf`: every exception gives 0.
    unfoldable pub calculate_dcf : DcfConfig F → Option (DcfData F) → F
    calculate_dcf c none = nought
    calculate_dcf c (some x) = elim x.fallback_fair_value [
      | some v ↦ if truthy v then v else nought
      | none ↦ elim x.fcf_per_share [
        | none ↦ nought
        | some fcf ↦ value_of (
            calculate_fair_value c (some fcf) x.growth_rate x.beta (d.decimal (pos 4) 2)
              (d.decimal (pos 3) 2) x.discount_rate)
      ]
    ]

    -- `get_dcf_input`; an empty ticker counts as not found.
    unfoldable pub get_dcf_input :
        Option String → Option (DcfData F) → Option F → Answer (String × DcfData F × F)
    get_dcf_input none x growth = Answer.raised DcfError.ticker_not_found
    get_dcf_input (some t) none growth = Answer.raised DcfError.fcf_not_available
    get_dcf_input (some t) (some x) growth = elim x.fcf_per_share [
      | none ↦ Answer.raised DcfError.fcf_not_available
      | some fcf ↦ Answer.answer (t, x, get_or growth x.growth_rate)
    ]

    unfoldable pub calculate_custom_dcf :
        DcfConfig F
        → Option String
        → Option (DcfData F)
        → Option F
        → Option F
        → F
        → Answer (String × F × FairValue F)
    calculate_custom_dcf c resolved x growth_rate discount_rate terminal_growth =
        elim (get_dcf_input resolved x growth_rate) [
          | Answer.raised e ↦ Answer.raised e
          | Answer.answer (t, data', g) ↦
              elim (calculate_fair_value c data'.fcf_per_share g data'.beta (d.decimal (pos 4) 2)
                terminal_growth discount_rate) [
                  | none ↦ Answer.raised DcfError.division_by_zero
                  | some v ↦ Answer.answer (t, g, v)
                ]
        ]

-- A row of `get_all_latest_dcf`, and the list for a market and with a value only.
pub record DcfRow (F : Type 0) : Type 0 where
  pub row_market : String
  pub row_value : Option F
  pub row_upside : Option F

module _ {F : Type 0} ⦃d : Double F⦄ where
  -- The keys: a missing upside is minus infinity.
  abbrev pub key_below : Option F → Option F → Bool
  key_below none none = false
  key_below none (some y) = true
  key_below (some x) none = false
  key_below (some x) (some y) = x <? y

  -- Whether a row has the smaller upside.
  abbrev pub row_below : DcfRow F → DcfRow F → Bool
  row_below r s = key_below r.row_upside s.row_upside

  abbrev pub has_dcf : DcfRow F → Bool
  has_dcf r = elim r.row_value [ none ↦ false | some v ↦ truthy v && nought <? v ]

  -- The market is given in capitals, or not at all.
  unfoldable pub get_filtered_list : Option String → Bool → List (DcfRow F) → ℕ × List (DcfRow F)
  get_filtered_list market has_value rows =
      let wanted = elim market as (λ o. List (DcfRow F)) [
        | none ↦ rows
        | some m ↦ filter (λ r. str_eq r.row_market m) rows
      ] in
      let valued = if has_value then filter has_dcf wanted else wanted in
      (length valued, sort_desc row_below valued)
