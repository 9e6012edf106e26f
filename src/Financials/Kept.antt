-- ===== src/Financials/Kept.antt =====
-- What `get_dcf_data` of services/analysis/financial_service.py returns stands in its cache.
use stock_advisor.Financials.Metrics.{
  found, no_data, type_error, Ask, CachedInput, DcfInput, FinancialState, analyzed_of,
  dict_to_dcf_input, fresh_metrics, fresh_row, get_metrics, model_dump, DcfReply,
}
use stock_advisor.Financials.{
  analyze_dcf_inputs, get_financials_history, get_latest_financials, AnalyzedMetrics,
}
use stock_advisor.Floats.{Double, ◌<?◌, num, ◌⊖◌}
use stock_advisor.Prelude.{
  Option, String, arith, eq_iff, false, if_elim, leb, length, option_cases, refl, some, str_eq, ◌≡◌,
  Bool-cases, none, map,
}
use stock_advisor.Financials.Growth.{build_yearly_eps, calc_cagr}
use stock_advisor.Financials.DcfInputs.{
  compute_input, fresh_entry, from_kis, get_dcf_data, latest_input, override_input, store,
  yfinance_input,
}
use stock_advisor.Prelude.Dict.{lookup, lookup-insert}

module _ {F : Type 0} ⦃d : Double F⦄ where
  -- An input that is returned is what the cached entry of the ticker reads as.
  abbrev IsCached : String → FinancialState F → DcfReply F → Type 0
  IsCached ticker s type_error = Unit
  IsCached ticker s no_data = Unit
  IsCached ticker s (found x) =
      (e : CachedInput F) × (lookup ticker s.dcf_inputs ≡ some e) × (dict_to_dcf_input e ≡ found x)

  -- The overrides are kept, and so is the cached entry of each other ticker.
  abbrev pub IsKept : String → String → FinancialState F → DcfReply F × FinancialState F → Type 0
  IsKept ticker other s r =
      IsCached ticker r.1 r.0
      × (r.1.overrides ≡ s.overrides)
      × (lookup other r.1.dcf_inputs ≡ lookup other s.dcf_inputs)

  store-IsKept :
      (ticker other : String) (x : DcfInput F) (s t : FinancialState F)
      → str_eq ticker other ≡ false
      → t.dcf_inputs ≡ s.dcf_inputs
      → t.overrides ≡ s.overrides
      → IsKept ticker other s (store ticker x t)
  unfolding store dict_to_dcf_input
  store-IsKept ticker other x s t p q r = (
    (
      model_dump x,
      ground (arith, lookup-insert ticker ticker (model_dump x) t.dcf_inputs, eq_iff ticker ticker),
      refl,
    ),
    r,
    ground (arith, p, q, lookup-insert ticker other (model_dump x) t.dcf_inputs),
  )

  get_metrics-keeps :
      (a : Ask F) (ticker : String) (s : FinancialState F)
      → let t = (get_metrics a ticker s).1 in
        (t.dcf_inputs ≡ s.dcf_inputs) × (t.overrides ≡ s.overrides)
  unfolding get_metrics
  get_metrics-keeps a ticker s =
      let P : Option (AnalyzedMetrics F) × FinancialState F → Type 0 =
        λ r. (r.1.dcf_inputs ≡ s.dcf_inputs) × (r.1.overrides ≡ s.overrides) in
      option_cases P (fresh_metrics a.now (lookup ticker s.recent_metrics)) _ _
        (λ _.
          option_cases P (fresh_row a.now (get_latest_financials ticker s.table)) _ _
            (λ _.
              option_cases P (analyzed_of ticker a.metrics_payload) _ _ (λ _. (refl, refl))
                (λ _ _. (refl, refl)))
            (λ _ _. (refl, refl)))
        (λ _ _. (refl, refl))

  from_kis-IsKept :
      (a : Ask F) (ticker other : String) (s : FinancialState F)
      → str_eq ticker other ≡ false
      → IsKept ticker other s (from_kis a ticker s)
  unfolding from_kis
  from_kis-IsKept a ticker other s p =
      let m = get_metrics-keeps a ticker s in
      option_cases (IsKept ticker other s) (analyze_dcf_inputs a.payload) _ _
        (λ _. (tt, refl, refl))
        (λ _ _. store-IsKept ticker other _ s (get_metrics a ticker s).1 p m.0 m.1)

  fresh_entry-eq :
      (now : F) (o : Option (CachedInput F)) (e : CachedInput F)
      → fresh_entry now o ≡ some e
      → o ≡ some e
  unfolding fresh_entry
  fresh_entry-eq now none e p = cc
  fresh_entry-eq now (some x) e p = ground (arith, p, Bool-cases (now ⊖ x.cached_at <? num 1800))

  reads-IsCached :
      (ticker : String) (s : FinancialState F) (e : CachedInput F) (r : DcfReply F)
      → lookup ticker s.dcf_inputs ≡ some e
      → dict_to_dcf_input e ≡ r
      → IsCached ticker s r
  reads-IsCached ticker s e type_error p q = tt
  reads-IsCached ticker s e no_data p q = tt
  reads-IsCached ticker s e (found x) p q = (e, p, q)

  module _ (pow : F → F → F) (sqrt : F → F) where
    compute_input-IsKept :
        (a : Ask F) (ticker other : String) (s : FinancialState F)
        → str_eq ticker other ≡ false
        → IsKept ticker other s (compute_input pow sqrt a ticker s)
    unfolding compute_input
    compute_input-IsKept a ticker other s p =
        let P : DcfReply F × FinancialState F → Type 0 = IsKept ticker other s in
        let stored : (x : DcfInput F) → P (store ticker x s) =
          λ x. store-IsKept ticker other x s s p refl refl in
        if_elim P (leb 5 (length (build_yearly_eps 5 (get_financials_history ticker 3000 s.table))))
          _ _
          (option_cases P
            (calc_cagr pow
              (map (λ p. p.1) (build_yearly_eps 5 (get_financials_history ticker 3000 s.table))))
            _ _ (λ _. (tt, refl, refl)) (λ g _. stored _))
          (option_cases P (yfinance_input a) _ _
            (λ _.
              option_cases P (latest_input (get_latest_financials ticker s.table)) _ _
                (λ _. from_kis-IsKept a ticker other s p) (λ x _. stored x))
            (λ x _. stored x))

    -- An input that get_dcf_data returns is what the cached entry of its ticker reads as after the
    -- call; the overrides and the cached entry of any other ticker are as before.
    pub get_dcf_data-IsKept :
        (a : Ask F) (ticker other : String) (s : FinancialState F)
        → str_eq ticker other ≡ false
        → IsKept ticker other s (get_dcf_data pow sqrt a ticker s)
    unfolding get_dcf_data
    get_dcf_data-IsKept a ticker other s p =
        let P : DcfReply F × FinancialState F → Type 0 = IsKept ticker other s in
        option_cases P (lookup ticker s.overrides) _ _
          (λ _.
            option_cases P (fresh_entry a.now (lookup ticker s.dcf_inputs)) _ _
              (λ _. compute_input-IsKept a ticker other s p)
              (λ e q. (
                reads-IsCached ticker s e (dict_to_dcf_input e)
                    (fresh_entry-eq a.now (lookup ticker s.dcf_inputs) e q) refl,
                refl,
                refl,
              )))
          (λ o _. store-IsKept ticker other (override_input a.now o) s s p refl refl)
