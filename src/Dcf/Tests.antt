-- ===== src/Dcf/Tests.antt =====
-- Runs of the valuation, and its theorems at concrete inputs.
use stock_advisor.Floats.Fixed.{Fixed, fixed_double}
use stock_advisor.Prelude.{ℕ, List, [], false, if◌then◌else◌, none, refl, some, true, ◌∷◌, ◌≡◌}
use stock_advisor.Dcf.{
  Answer, DcfConfig, DcfError, DcfRow, FairValue, calculate_custom_dcf, calculate_fair_value,
  compute_discount_rate, compute_discounted_terminal_value, compute_stage1_discounted_fcfs,
  discount_source, fair_value_of, get_dcf_input, stage1_from, year_growth,
}
use stock_advisor.Dcf.Stages.{calculate_fair_value-formula, present_value}
use stock_advisor.Floats.{nought, num, ◌⊕◌, ◌⊖◌}
use stock_advisor.Prelude.Int.{pos, ◌*ℤ◌, ◌+ℤ◌, ◌-ℤ◌}

abbrev config : DcfConfig Fixed
config = record {
  equity_risk_premium = pos 550;
  discount_rate_floor = pos 600;
  discount_rate_ceil = pos 1500;
  default_discount_rate = pos 1000;
  stage1_years = 2;
}

-- A power that stands for `**` in the runs: it never is 0.
abbrev power : Fixed → ℕ → Fixed
power x n = pos 10_000

-- A rate of 30 percent is cut to the greatest.
cut : compute_discount_rate config (pos 400) (pos 10_000) (some (pos 3000)) ≡ pos 1500
unfolding compute_discount_rate discount_source ◌*ℤ◌ ◌+ℤ◌ ◌-ℤ◌
cut = refl

never_zero :
    (n : ℕ)
    → fixed_double.eq
        (power (num 1 ⊕ compute_discount_rate config (pos 400) (pos 10_000) none) n)
        nought
      ≡ false
unfolding ◌*ℤ◌ ◌+ℤ◌ ◌-ℤ◌
never_zero n = refl

is_above : fixed_double.lt nought (num 5) ≡ true
unfolding ◌*ℤ◌ ◌+ℤ◌ ◌-ℤ◌
is_above = refl

calculate_fair_value-formula_example :
    (let rate = compute_discount_rate config (pos 400) (pos 10_000) none in
      calculate_fair_value power config
        (some (num 5))
        (pos 800)
        (pos 10_000)
        (pos 400)
        (pos 300)
        none
      ≡ (if fixed_double.eq (rate ⊖ pos 300) nought
          then none
          else some (
              FairValue.fair
                (fixed_double.round
                  (present_value power (num 5) (pos 800) (pos 300) rate config.stage1_years)
                  2)
                (fixed_double.round rate 4)
                (fixed_double.round (pos 800) 4))))
calculate_fair_value-formula_example =
    calculate_fair_value-formula power config (num 5) (pos 800) (pos 10_000) (pos 400) (pos 300)
      none never_zero is_above

-- A terminal growth at the discount rate divides by zero.
same_rates :
    calculate_custom_dcf power config
      (some "AAPL")
      (some (record {
        fcf_per_share = some (num 5);
        growth_rate = pos 800;
        beta = pos 10_000;
        discount_rate = none;
        fallback_fair_value = none;
      }))
      none
      (some (pos 1000))
      (pos 1000)
    ≡ Answer.raised DcfError.division_by_zero
unfolding calculate_custom_dcf get_dcf_input calculate_fair_value fair_value_of
    compute_stage1_discounted_fcfs compute_discounted_terminal_value stage1_from year_growth
    compute_discount_rate discount_source ◌*ℤ◌ ◌+ℤ◌ ◌-ℤ◌
same_rates = refl

abbrev rows : List (DcfRow Fixed)
rows =
    record { row_market = "US"; row_value = some (num 3); row_upside = none }
    ∷ record { row_market = "KR"; row_value = none; row_upside = some (num 1) }
    ∷ record { row_market = "US"; row_value = some (num 4); row_upside = some (num 9) }
    ∷ []
