-- ===== src/Portfolio/Report/Totals.antt =====
-- Every holding appears once in an analysis, in the market of its ticker.
use stock_advisor.Prelude.{
  ℕ, ◌+◌, ◌++◌, Bool-cases, List, String, [], ap, arith, codes, filter, length, refl, str_eq, ◌∷◌,
  ◌≡◌, map, ◌∙◌,
}
use stock_advisor.Portfolio.Repository.{Accounts, load_holdings}
use stock_advisor.Portfolio.Report.{
  Analysed, Analysis, analyse_kr, analyse_us, analyze_holdings, analyze_portfolio, filter_kr,
  filter_us,
}
use stock_advisor.Floats.{Double}
use stock_advisor.Portfolio.Holding.{Holding}
use stock_advisor.Markets.{is_kr, is_us, isdigit}

-- The holdings of one ticker in a list.
abbrev pub count_of : {F : Type 0} → String → List (Holding F) → ℕ
count_of t hs = length (filter (λ h. str_eq h.ticker t) hs)

module _ {F : Type 0} ⦃d : Double F⦄ where
  abbrev pub holdings_of : Analysis F → List (Holding F)
  holdings_of a = map (λ r. r.holding) a.results

  map-append :
      (xs ys : List (Analysed F))
      → map (λ (r : Analysed F). r.holding) (xs ++ ys)
        ≡ map (λ r. r.holding) xs ++ map (λ r. r.holding) ys
  map-append [] ys = refl
  map-append (x ∷ xs) ys = ap (λ r. x.holding ∷ r) (map-append xs ys)

  map-analyse_kr : (hs : List (Holding F)) → map (λ r. r.holding) (map analyse_kr hs) ≡ hs
  unfolding analyse_kr
  map-analyse_kr [] = refl
  map-analyse_kr (h ∷ hs) = ap (λ r. h ∷ r) (map-analyse_kr hs)

  map-analyse_us :
      (rate : F) (hs : List (Holding F)) → map (λ r. r.holding) (map (analyse_us rate) hs) ≡ hs
  unfolding analyse_us
  map-analyse_us rate [] = refl
  map-analyse_us rate (h ∷ hs) = ap (λ r. h ∷ r) (map-analyse_us rate hs)

  count_of-append :
      (t : String) (xs ys : List (Holding F))
      → count_of t (xs ++ ys) ≡ count_of t xs + count_of t ys
  count_of-append t [] ys = omega arith
  count_of-append t (x ∷ xs) ys = ground (arith, count_of-append t xs ys)

  count_of-markets :
      (t : String) (hs : List (Holding F))
      → count_of t (filter_kr hs) + count_of t (filter_us hs) ≡ count_of t hs
  unfolding filter_kr filter_us is_us is_kr
  count_of-markets t [] = refl
  count_of-markets t (h ∷ hs) = ground (
    arith,
    count_of-markets t hs,
    Bool-cases (isdigit (codes h.ticker)),
    Bool-cases (str_eq h.ticker t),
  )

  -- For every ticker analyze_portfolio lists as many holdings as are stored for the user.
  pub analyze_portfolio-count :
      (user_id t : String) (usd_cash rate : F) (accounts : Accounts F)
      → count_of t (holdings_of (analyze_portfolio user_id usd_cash rate accounts))
        ≡ count_of t (load_holdings user_id accounts)
  unfolding analyze_portfolio analyze_holdings
  analyze_portfolio-count user_id t usd_cash rate accounts =
      let hs = load_holdings user_id accounts in
      let kr_holdings = filter_kr hs in
      let us_holdings = filter_us hs in
      ap (count_of t) (
        map-append (map analyse_kr kr_holdings) (map (analyse_us rate) us_holdings) ∙ λ i.
        map-analyse_kr kr_holdings i ++ map-analyse_us rate us_holdings i)
      ∙ count_of-append t kr_holdings us_holdings
      ∙ count_of-markets t hs
