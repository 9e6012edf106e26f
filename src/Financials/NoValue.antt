-- ===== src/Financials/NoValue.antt =====
-- Where services/analysis/financial_service.py has to ask the broker, there is no value: the answer of the
-- fetcher has no `output`, in which `analyze_dcf_inputs` looks for the earnings.
use stock_advisor.Financials.Metrics.{found, Ask, FinancialState, DcfInput}
use stock_advisor.Financials.{
  unanswered, status, PriceAnswer, analyze_dcf_inputs, fetch_price, get_financials_history,
  get_latest_financials, or_f,
}
use stock_advisor.Prelude.{
  ◌&&◌, ◌==◌, Bool, Option, String, [], false, if_elim, inl, inr, leb, length, none, refl, some,
  ◌∷◌, ◌≡◌, ◌⊎◌, Bool-cases, ap, arith, ℕ, ◌∙◌,
}
use stock_advisor.Floats.{Double, nought, truthy}
use stock_advisor.Financials.Growth.{build_yearly_eps}
use stock_advisor.Financials.DcfInputs.{
  fresh_entry, from_kis, kis_input, latest_input, store, yfinance_input, compute_input,
  get_dcf_data,
}
use stock_advisor.Prelude.Dict.{lookup}
use stock_advisor.Dcf.{DcfConfig, calculate_dcf, calculate_fair_value}

module _ {F : Type 0} ⦃d : Double F⦄ where
  -- No source but the broker has an input.
  abbrev pub IsLeftToBroker : Ask F → String → FinancialState F → Type 0
  IsLeftToBroker a ticker s =
      (lookup ticker s.overrides ≡ none)
      × (fresh_entry a.now (lookup ticker s.dcf_inputs) ≡ none)
      × (leb 5 (length (build_yearly_eps 5 (get_financials_history ticker 3000 s.table))) ≡ false)
      × (yfinance_input a ≡ none)
      × (latest_input (get_latest_financials ticker s.table) ≡ none)

  -- No cash flow, or the cash flow 0.
  abbrev IsNothing : Option F → Type 0
  IsNothing fcf = (fcf ≡ none) ⊎ (fcf ≡ some nought)

  abbrev NoEarnings : Option (Option F) → Type 0
  NoEarnings o = (fcf : Option F) × (o ≡ some fcf) × IsNothing fcf

  analyze-fetch_price :
      (has_path : Bool) (answer : PriceAnswer F)
      → NoEarnings (analyze_dcf_inputs (fetch_price has_path answer))
  unfolding analyze_dcf_inputs fetch_price
  analyze-fetch_price has_path unanswered = (none, refl, inl refl)
  analyze-fetch_price has_path (status n none) = (none, refl, inl refl)
  analyze-fetch_price has_path (status n (some [])) = (none, refl, inl refl)
  analyze-fetch_price has_path (status n (some (e ∷ rest))) =
      if_elim (λ p. NoEarnings (analyze_dcf_inputs p)) (has_path && n == 200) _ _
        (some nought, refl, inr refl) (none, refl, inl refl)

  or_f-nought : (fcf : Option F) → IsNothing fcf → or_f fcf nought ≡ nought
  or_f-nought fcf (inl p) = rw (p, or_f) refl
  or_f-nought fcf (inr p) = ground (arith, p, Bool-cases (truthy (nought {F = F})))

  from_kis-eq :
      (a : Ask F) (ticker : String) (s : FinancialState F) (fcf : Option F)
      → analyze_dcf_inputs a.payload ≡ some fcf
      → IsNothing fcf
      → d.lt nought nought ≡ false
      → (from_kis a ticker s).0 ≡ found (kis_input a.now fcf)
  unfolding from_kis store
  from_kis-eq a ticker s fcf p q r = ground (arith, p, r, or_f-nought fcf q)

  module _ (pow : F → F → F) (sqrt : F → F) (power : F → ℕ → F) where
    calculate_dcf-nothing :
        (c : DcfConfig F) (now : F) (fcf : Option F)
        → IsNothing fcf
        → d.lt nought nought ≡ false
        → calculate_dcf power c (some (kis_input now fcf).values) ≡ nought
    unfolding calculate_dcf kis_input calculate_fair_value
    calculate_dcf-nothing c now fcf (inl p) q = ground (arith, p)
    calculate_dcf-nothing c now fcf (inr p) q = ground (arith, p, q)

    -- Where no override, no fresh cached input, no series of five years, no cash flow of yfinance
    -- and no row with earnings and their multiple gives an input, and the broker is asked through
    -- the fetcher, get_dcf_data returns an input by whose value calculate_dcf is 0, whatever the
    -- broker answers, if 0 is not below 0.
    pub get_dcf_data-no_value :
        (c : DcfConfig F) (a : Ask F) (ticker : String) (s : FinancialState F) (has_path : Bool)
        (answer : PriceAnswer F)
        → IsLeftToBroker a ticker s
        → a.payload ≡ fetch_price has_path answer
        → d.lt nought nought ≡ false
        → (x : DcfInput F) × ((get_dcf_data pow sqrt a ticker s).0 ≡ found x)
          × (calculate_dcf power c (some x.values) ≡ nought)
    unfolding get_dcf_data compute_input
    get_dcf_data-no_value c a ticker s has_path answer p q r =
        let e = analyze-fetch_price has_path answer in
        (
          kis_input a.now e.0,
          ground (
            arith,
            p.0,
            p.1,
            p.2,
            p.3,
            p.4,
            from_kis-eq a ticker s e.0 (ap analyze_dcf_inputs q ∙ e.1) e.2 r,
          ),
          calculate_dcf-nothing c a.now e.0 e.2 r,
        )
