-- ===== src/Scheduler/Subscriptions/Tiers.antt =====
-- The tiers of services/base/scheduler_service.py divide the universe.
-- Taking all of a list.
use stock_advisor.Prelude.{
  ◌+◌, ◌++◌, Bool-cases, List, String, [], ap, arith, filter, length, length-append, member, not,
  refl, suc, take, true, zero, ℕ, ◌∷◌, ◌≡◌, ◌≤◌, Option, if◌then◌else◌, map, some, ◌||◌, ◌∙◌,
}
use stock_advisor.Scheduler.Subscriptions.{
  market_high, ws_high_tier_count, high_tier, kr_high, low_tier, manage_subscriptions, us_high,
  isalpha,
}
use stock_advisor.Prelude.Dict.{Dict}
use stock_advisor.Floats.{Double}
use stock_advisor.MarketData.Loading.{Financials}
use stock_advisor.MarketData.Registry.{OpenMarkets, States, get_tier}
use stock_advisor.Strategy.Universe.{
  Rankings, all_kr, all_us, is_kr_code, kr_holdings, norm_ticker, target_universe, us_holdings,
}
use stock_advisor.MarketData.Registry.Entries.{get_tier-set_tiers, member-filter}
use stock_advisor.Strategy.Universe.Members.{member-append, member-dedup, length-dedup}

take-all : (n : ℕ) (xs : List String) → length xs ≤ n → take n xs ≡ xs
take-all zero [] p = refl
take-all zero (x ∷ xs) p = absurd (omega arith)
take-all (suc n) [] p = refl
take-all (suc n) (x ∷ xs) p = ap (λ ys. x ∷ ys) (take-all n xs (omega arith))

length-take : (n : ℕ) (xs : List String) → length (take n xs) ≤ n
length-take zero xs = omega arith
length-take (suc n) [] = omega arith
length-take (suc n) (x ∷ xs) = omega (arith, length-take n xs)

member-take :
    (t : String) (n : ℕ) (xs : List String) → member t (take n xs) ≡ true → member t xs ≡ true
member-take t zero xs p = cc
member-take t (suc n) [] p = p
member-take t (suc n) (x ∷ xs) p = ground (arith, member-take t n xs)

-- The slice of the high tier drops nothing.
market_high-lem :
    (holdings all : List String)
    → market_high holdings all
      ≡ holdings ++ take ws_high_tier_count (filter (λ t. not (member t holdings)) all)
unfolding market_high
market_high-lem holdings all =
    let rest = take ws_high_tier_count (filter (λ t. not (member t holdings)) all) in
    take-all (ws_high_tier_count + length holdings) (holdings ++ rest) (
      omega (
        arith,
        length-append {0} holdings rest,
        length-take ws_high_tier_count (filter (λ t. not (member t holdings)) all),
      ))

length-market_high :
    (holdings all : List String)
    → length (market_high holdings all) ≤ length holdings + ws_high_tier_count
length-market_high holdings all =
    let others = filter (λ t. not (member t holdings)) all in
    rw (market_high-lem holdings all) (
      omega (
        arith,
        length-append {0} holdings (take ws_high_tier_count others),
        length-take ws_high_tier_count others,
      ))

-- What the high tier of a market holds: its holdings, and tickers of the market.
market_high-holdings :
    (t : String) (holdings all : List String)
    → member t holdings ≡ true
    → member t (market_high holdings all) ≡ true
market_high-holdings t holdings all p =
    let others = filter (λ t. not (member t holdings)) all in
    rw (market_high-lem holdings all)
      (ground (arith, p, member-append t holdings (take ws_high_tier_count others)))

market_high-all :
    (t : String) (holdings all : List String)
    → (member t holdings ≡ true → member t all ≡ true)
    → member t (market_high holdings all) ≡ true
    → member t all ≡ true
market_high-all t holdings all below p =
    let others = filter (λ t. not (member t holdings)) all in
    ground (
      arith,
      below,
      rw (market_high-lem holdings all) at p,
      member-append t holdings (take ws_high_tier_count others),
      member-take t ws_high_tier_count others,
      member-filter (λ u. not (member u holdings)) t all,
    )

kr_holdings-all_kr :
    (t : String) (r : Rankings) → member t (kr_holdings r) ≡ true → member t (all_kr r) ≡ true
unfolding all_kr
kr_holdings-all_kr t r p =
    let ranked = filter is_kr_code (map (λ u. norm_ticker (some u)) r.top_krx) in
    ground (
      arith,
      p,
      member-dedup t (ranked ++ kr_holdings r),
      member-append t ranked (kr_holdings r),
      Bool-cases (member t ranked),
    )

us_holdings-all_us :
    (t : String) (r : Rankings) → member t (us_holdings r) ≡ true → member t (all_us r) ≡ true
unfolding all_us
us_holdings-all_us t r p =
    let ranked = filter isalpha (map (λ u. norm_ticker (some u)) r.top_us) in
    ground (
      arith,
      p,
      member-dedup t (ranked ++ us_holdings r),
      member-append t ranked (us_holdings r),
      Bool-cases (member t ranked),
    )

member-high_tier :
    (t : String) (r : Rankings)
    → member t (high_tier r) ≡ (member t (kr_high r) || member t (us_high r))
unfolding high_tier
member-high_tier t r =
    member-dedup t (kr_high r ++ us_high r) ∙ member-append t (kr_high r) (us_high r)

member-target_universe :
    (t : String) (r : Rankings)
    → member t (target_universe r) ≡ (member t (all_kr r) || member t (all_us r))
unfolding target_universe
member-target_universe t r =
    member-dedup t (all_kr r ++ all_us r) ∙ member-append t (all_kr r) (all_us r)

high_tier-universe :
    (t : String) (r : Rankings)
    → member t (high_tier r) ≡ true
    → member t (target_universe r) ≡ true
unfolding kr_high us_high
high_tier-universe t r p = ground (
  arith,
  p,
  member-high_tier t r,
  member-target_universe t r,
  market_high-all t (kr_holdings r) (all_kr r) (kr_holdings-all_kr t r),
  market_high-all t (us_holdings r) (all_us r) (us_holdings-all_us t r),
)

holdings-high_tier :
    (t : String) (r : Rankings)
    → (member t (kr_holdings r) || member t (us_holdings r)) ≡ true
    → member t (high_tier r) ≡ true
unfolding kr_high us_high
holdings-high_tier t r p = ground (
  arith,
  p,
  member-high_tier t r,
  Bool-cases (member t (kr_holdings r)),
  Bool-cases (member t (us_holdings r)),
  Bool-cases (member t (market_high (kr_holdings r) (all_kr r))),
  market_high-holdings t (kr_holdings r) (all_kr r),
  market_high-holdings t (us_holdings r) (all_us r),
)

length-high_tier :
    (r : Rankings) → length (high_tier r) ≤ length (kr_holdings r) + length (us_holdings r) + 40
unfolding high_tier kr_high us_high
length-high_tier r =
    let kr = market_high (kr_holdings r) (all_kr r) in
    let us = market_high (us_holdings r) (all_us r) in
    omega (
      arith,
      length-dedup (kr ++ us),
      length-append {0} kr us,
      length-market_high (kr_holdings r) (all_kr r),
      length-market_high (us_holdings r) (all_us r),
    )

-- The tiers after a refresh.
module _ {F : Type 0} ⦃d : Double F⦄ where
  -- After a refresh a ticker of the high tier is stored as high, another one of the universe as
  -- low, and any other keeps its tier; the high tier lies within the universe, has every valid
  -- holding, and is greater than the holdings by at most 40.
  pub manage_subscriptions-tiers :
      (m : OpenMarkets) (financials : String → Option (Financials F))
      (market_code : String → Option String) (r : Rankings) (tiers : Dict String)
      (states : States F) (t : String)
      → let k = manage_subscriptions m financials market_code r tiers states in
        (get_tier t k.tiers ≡ (
          if member t (high_tier r)
          then "high"
          else if member t (target_universe r)
          then "low"
          else get_tier t tiers))
        × ((not (member t (high_tier r)) || member t (target_universe r)) ≡ true)
        × ((not (member t (kr_holdings r) || member t (us_holdings r)) || member t (high_tier r))
            ≡ true)
        × (length (high_tier r) ≤ length (kr_holdings r) + length (us_holdings r) + 40)
  unfolding manage_subscriptions low_tier
  manage_subscriptions-tiers m financials market_code r tiers states t =
      let after = get_tier-set_tiers (high_tier r) (low_tier r) tiers t in
      let low = member-filter (λ u. not (member u (high_tier r))) t (target_universe r) in
      let high = Bool-cases (member t (high_tier r)) in
      let known = Bool-cases (member t (target_universe r)) in
      (
        ground (arith, after, low, high, known),
        ground (arith, high, high_tier-universe t r),
        ground (
          arith,
          Bool-cases (member t (kr_holdings r) || member t (us_holdings r)),
          holdings-high_tier t r,
        ),
        length-high_tier r,
      )
