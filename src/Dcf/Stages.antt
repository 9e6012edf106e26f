-- ===== src/Dcf/Stages.antt =====
-- The loop over the years of services/analysis/analyzer/dcf_analyzer.py against its formula.
use stock_advisor.Prelude.{
  ℕ, ◌+◌, List, [], arith, false, some, suc, zero, ◌∷◌, ◌≡◌, Option, ap, if◌then◌else◌, none, true,
}
use stock_advisor.Floats.{Double, nought, num, ◌⊕◌, ◌⊗◌, ◌⊘◌, ◌⊖◌}
use stock_advisor.Dcf.{
  stage1_from, year_growth, DcfConfig, FairValue, calculate_fair_value, compute_discount_rate,
  compute_discounted_terminal_value, compute_stage1_discounted_fcfs, fair_value_of, sum_f,
}

module _ {F : Type 0} ⦃d : Double F⦄ (pow : F → ℕ → F) where
  -- The cash flow after a number of years, year by year.
  unfoldable pub cash_flow : F → F → F → ℕ → ℕ → F
  cash_flow fcf growth terminal years zero = fcf
  cash_flow fcf growth terminal years (suc i) =
      cash_flow fcf growth terminal years i ⊗ (num 1 ⊕ year_growth growth terminal years (suc i))

  -- The discounted flows of the years that follow a year.
  unfoldable pub discounted : F → F → F → F → ℕ → ℕ → ℕ → List F
  discounted fcf growth terminal rate years i zero = []
  discounted fcf growth terminal rate years i (suc left) =
      (cash_flow fcf growth terminal years (suc i) ⊘ pow (num 1 ⊕ rate) (suc i))
      ∷ discounted fcf growth terminal rate years (suc i) left

  stage1_from-formula :
      (fcf growth terminal rate : F) (years i left : ℕ)
      → ((n : ℕ) → d.eq (pow (num 1 ⊕ rate) n) nought ≡ false)
      → stage1_from pow growth terminal rate years
          (suc i)
          left
          (cash_flow fcf growth terminal years i)
        ≡ some (
          discounted fcf growth terminal rate years i left,
          cash_flow fcf growth terminal years (left + i),
        )
  unfolding stage1_from discounted cash_flow
  stage1_from-formula fcf growth terminal rate years i zero p =
      ap (λ n. some ([], cash_flow fcf growth terminal years n)) (omega arith)
  stage1_from-formula fcf growth terminal rate years i (suc left) p =
      ground (arith, p (suc i), stage1_from-formula fcf growth terminal rate years (suc i) left p)

  -- The sum of the formula: the discounted flows, and the value of all later years.
  unfoldable pub present_value : F → F → F → F → ℕ → F
  present_value fcf growth terminal rate years =
      sum_f pow (discounted fcf growth terminal rate years 0 years)
      ⊕ cash_flow fcf growth terminal years years
        ⊗ (num 1 ⊕ terminal)
        ⊘ (rate ⊖ terminal)
        ⊘ pow (num 1 ⊕ rate) years

  -- For a positive cash flow, and where no power of 1 + r is 0, the value is the rounded sum of
  -- the cash flow of each year, divided by that power, and of the terminal value of the last one;
  -- it is a division by zero exactly if r minus the terminal growth is 0.
  pub calculate_fair_value-formula :
      (c : DcfConfig F) (fcf growth beta risk_free terminal : F) (manual : Option F)
      → ((n : ℕ)
          → d.eq (pow (num 1 ⊕ compute_discount_rate c risk_free beta manual) n) nought ≡ false)
      → d.lt nought fcf ≡ true
      → let rate = compute_discount_rate c risk_free beta manual in
        calculate_fair_value pow c (some fcf) growth beta risk_free terminal manual ≡ (
          if d.eq (rate ⊖ terminal) nought
          then none
          else some (
              FairValue.fair
                (d.round (present_value fcf growth terminal rate c.stage1_years) 2)
                (d.round rate 4)
                (d.round growth 4)))
  unfolding calculate_fair_value fair_value_of compute_stage1_discounted_fcfs
      compute_discounted_terminal_value present_value cash_flow
  calculate_fair_value-formula c fcf growth beta risk_free terminal manual p q =
      let rate = compute_discount_rate c risk_free beta manual in
      let years = c.stage1_years in
      let same : years + 0 ≡ years = omega arith in
      let run = stage1_from-formula fcf growth terminal rate years 0 years p in
      ground (arith, p years, q, same, run)
