-- ===== src/Scheduler/Subscriptions.antt =====
-- `manage_subscriptions_async` of services/base/scheduler_service.py: the universe, its two tiers, what
-- is registered, and what is subscribed at the broker. A Python set stands as a list without
-- repetitions; where the code turns a set into a list, the order is that of this list. No call is
-- taken to raise.
pub mod Tiers
use stock_advisor.Prelude.{
  ◌&&◌, ◌+◌, ◌++◌, ◌==◌, List, Option, String, [], codes, filter, if◌then◌else◌, length, map,
  member, none, not, some, str_eq, take, ◌||◌, ℕ,
}
use stock_advisor.Prelude.Dict.{Dict}
use stock_advisor.Floats.{Double}
use stock_advisor.MarketData.Loading.{Financials}
use stock_advisor.MarketData.Registry.{OpenMarkets, States, prune_states, register_batch, set_tiers}
use stock_advisor.Strategy.Universe.{
  Rankings, all_kr, all_us, kr_holdings, target_universe, upper, us_holdings, dedup,
}
use stock_advisor.Portfolio.Sync.{isalpha}
use stock_advisor.Markets.{is_kr}

-- `WS_HIGH_TIER_COUNT`
abbrev pub ws_high_tier_count : ℕ
ws_high_tier_count = 20

-- The holdings of a market and the first of its other tickers. The slice that follows in the code
-- takes everything.
unfoldable pub market_high : List String → List String → List String
market_high holdings all =
    let high = holdings ++ take ws_high_tier_count (filter (λ t. not (member t holdings)) all) in
    take (ws_high_tier_count + length holdings) high

unfoldable pub kr_high : Rankings → List String
kr_high r = market_high (kr_holdings r) (all_kr r)

unfoldable pub us_high : Rankings → List String
us_high r = market_high (us_holdings r) (all_us r)

unfoldable pub high_tier : Rankings → List String
high_tier r = dedup (kr_high r ++ us_high r)

unfoldable pub low_tier : Rankings → List String
low_tier r = filter (λ t. not (member t (high_tier r))) (target_universe r)

-- `tickers_to_register`: a market is watched while the other one is closed.
unfoldable pub tickers_to_register : OpenMarkets → Rankings → List String
tickers_to_register m r =
    let kr = if m.is_us_open then [] else all_kr r in
    let us = if m.is_kr_open then [] else all_us r in kr ++ us

-- `market_map_4to3.get(raw_market, "NAS")`
unfoldable pub ws_market : String → String
ws_market code =
    if str_eq code "NYSE" || str_eq code "NYS"
    then "NYS"
    else if str_eq code "AMEX" || str_eq code "AMS"
    then "AMS"
    else "NAS"

-- The market code of the stored meta data, in upper case; a missing or empty one is "NAS".
unfoldable pub raw_market : Option String → String
raw_market none = "NAS"
raw_market (some code) = if str_eq code "" then "NAS" else upper code

-- The calls of `kis_ws_service.subscribe`, in order: ticker and market.
unfoldable pub subscriptions :
    OpenMarkets → (String → Option String) → Rankings → List (String × String)
subscriptions m market_code r =
    let kr = filter (λ t. member t (kr_high r) && (length (codes t) == 6) && is_kr t) (all_kr r) in
    let us = filter (λ t. member t (us_high r) && isalpha t) (all_us r) in
    (if m.is_us_open then [] else map (λ t. (t, "KRX")) kr)
    ++ (if m.is_kr_open then [] else map (λ t. (t, ws_market (raw_market (market_code t)))) us)

-- The tiers, the states, and the subscriptions; and the tickers whose warm-up the registration starts.
pub record Subscribed (F : Type 0) : Type 0 where
  pub tiers : Dict String
  pub states : States F
  pub warming : List String
  pub subscribed : List (String × String)

module _ {F : Type 0} ⦃d : Double F⦄ where
  unfoldable pub manage_subscriptions :
      OpenMarkets
      → (String → Option (Financials F))
      → (String → Option String)
      → Rankings
      → Dict String
      → States F
      → Subscribed F
  manage_subscriptions m financials market_code r tiers states =
      let pruned = prune_states (target_universe r) states in
      let registered = register_batch m financials (tickers_to_register m r) pruned in
      record {
        tiers = set_tiers (high_tier r) (low_tier r) tiers;
        states = registered.0;
        warming = registered.1;
        subscribed = subscriptions m market_code r;
      }
