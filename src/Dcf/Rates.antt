-- ===== src/Dcf/Rates.antt =====
-- The discount rate of services/analysis/analyzer/dcf_analyzer.py stays within its bounds.
use stock_advisor.Prelude.{Option, arith, false, true, ◌≡◌}
use stock_advisor.Dcf.{DcfConfig, compute_discount_rate, discount_source}
use stock_advisor.Floats.{Double, IsOrdered, max_f, min_f}

module _ {F : Type 0} ⦃d : Double F⦄ where
  clamp_f-bounds :
      (o : IsOrdered F) (lo hi x : F)
      → d.le lo lo ≡ true
      → d.le hi hi ≡ true
      → d.le lo hi ≡ true
      → (d.lt (max_f lo (min_f hi x)) lo ≡ false) × (d.lt hi (max_f lo (min_f hi x)) ≡ false)
  clamp_f-bounds o lo hi x p q r = ground (
    arith,
    o.not-lt_of_le lo lo,
    o.not-lt_of_le hi hi,
    o.not-lt_of_le lo hi,
    o.not-lt_of_le lo x,
    o.not-lt_of_le x hi,
    o.le_of_lt lo x,
    o.le_of_lt x hi,
    o.le_of_lt lo hi,
  )

  -- Where the two limits are numbers in order, the discount rate is neither below the floor nor
  -- above the ceiling.
  pub compute_discount_rate-bounds :
      (o : IsOrdered F) (c : DcfConfig F) (risk_free_rate beta : F) (manual : Option F)
      → d.le c.discount_rate_floor c.discount_rate_floor ≡ true
      → d.le c.discount_rate_ceil c.discount_rate_ceil ≡ true
      → d.le c.discount_rate_floor c.discount_rate_ceil ≡ true
      → let rate = compute_discount_rate c risk_free_rate beta manual in
        (d.lt rate c.discount_rate_floor ≡ false) × (d.lt c.discount_rate_ceil rate ≡ false)
  unfolding compute_discount_rate
  compute_discount_rate-bounds o c risk_free_rate beta manual p q r =
      clamp_f-bounds o c.discount_rate_floor c.discount_rate_ceil
        (discount_source c risk_free_rate beta manual) p q r
