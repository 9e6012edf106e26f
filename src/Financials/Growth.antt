-- ===== src/Financials/Growth.antt =====
-- The growth in services/analysis/financial_service.py: `_build_yearly_eps_as_cashflow`, `_calc_cagr` and
-- `_calc_discount_rate_from_volatility`. Python's `**` and `math.sqrt` are arguments.
use stock_advisor.Floats.{◌<?◌, Double, max_f, min_f, nought, num, ◌≤?◌, ◌⊕◌, ◌⊖◌, ◌⊘◌}
use stock_advisor.Prelude.{
  ◌==◌, Bool, List, [], false, if◌then◌else◌, leb, length, map, suc, ◌||◌, ℕ, ◌∷◌, ◌&&◌, Option,
  none, some,
}
use stock_advisor.Financials.{FinancialRow, or_f}
use mathlib.Core.List.{foldl}
use stock_advisor.Prelude.Int.{negsuc, pos}

-- A year and its cash flow. The code appends, and reverses at the end; here a point goes in front.
pub record YearSeries (F : Type 0) : Type 0 where
  pub points : List (ℕ × F)
  pub stopped : Bool

module _ {F : Type 0} ⦃d : Double F⦄ where
  abbrev pub has_year : ℕ → List (ℕ × F) → Bool
  has_year y [] = false
  has_year y (p ∷ rest) = p.0 == y || has_year y rest

  -- One pass of the loop over the history; after a `break` nothing changes.
  unfoldable pub add_point : ℕ → YearSeries F → FinancialRow F → YearSeries F
  add_point years s row =
      let eps_value = or_f (row.figures).eps nought in
      if s.stopped || has_year row.year s.points || eps_value ≤? nought then s else record {
        points = (row.year, eps_value) ∷ s.points;
        stopped = leb years (length ((row.year, eps_value) ∷ s.points));
      }

  -- `_build_yearly_eps_as_cashflow`
  unfoldable pub build_yearly_eps : ℕ → List (FinancialRow F) → List (ℕ × F)
  build_yearly_eps years history =
      (foldl (add_point years) (record { points = []; stopped = false }) history).points

  abbrev pub last_or : F → List F → F
  last_or x [] = x
  last_or x (y ∷ rest) = last_or y rest

  unfoldable pub clip : F → F → F → F
  clip lo hi x = max_f lo (min_f hi x)

  abbrev sum : List F → F
  sum xs = foldl (λ a x. a ⊕ x) nought xs

  unfoldable pub growth_rates : F → List F → List F
  growth_rates prev [] = []
  growth_rates prev (curr ∷ rest) =
      let others = growth_rates curr rest in
      if nought <? prev then (curr ⊘ prev ⊖ num 1) ∷ others else others

  module _ (pow : F → F → F) where
    -- `_calc_cagr`. A root of a negative number is complex, which `min` refuses with a TypeError.
    unfoldable pub calc_cagr : List F → Option F
    calc_cagr [] = some (d.decimal (pos 5) 2)
    calc_cagr (x ∷ []) = some (d.decimal (pos 5) 2)
    calc_cagr (x ∷ y ∷ rest) =
        let ratio = last_or y rest ⊘ x in
        if x ≤? nought
        then some (d.decimal (pos 5) 2)
        else if ratio <? nought && leb 1 (length rest)
        then none
        else some (
            clip (d.decimal (negsuc 14) 2) (d.decimal (pos 25) 2)
              (pow ratio (num 1 ⊘ num (suc (length rest))) ⊖ num 1))

  module _ (pow : F → F → F) (sqrt : F → F) where
    unfoldable pub rate_of_growths : List F → F
    rate_of_growths [] = d.decimal (pos 10) 2
    rate_of_growths (g ∷ rest) =
        let n = num (length (g ∷ rest)) in
        let avg = sum (g ∷ rest) ⊘ n in
        let variance = sum (map (λ x. pow (x ⊖ avg) (num 2)) (g ∷ rest)) ⊘ n in
        let volatility = sqrt (max_f nought variance) in
        clip (d.decimal (pos 6) 2) (d.decimal (pos 15) 2)
          (d.decimal (pos 9) 2 ⊕ min_f (d.decimal (pos 6) 2) volatility)

    -- `_calc_discount_rate_from_volatility`
    unfoldable pub calc_discount_rate : List F → F
    calc_discount_rate [] = d.decimal (pos 10) 2
    calc_discount_rate (x ∷ []) = d.decimal (pos 10) 2
    calc_discount_rate (x ∷ y ∷ rest) = rate_of_growths (growth_rates x (y ∷ rest))
