-- ===== src/Scheduler/Jobs/Tests.antt =====
-- Runs of the jobs, and the theorems about the scheduler at concrete inputs.
use stock_advisor.Floats.Fixed.{Fixed, fixed_double}
use stock_advisor.Prelude.{
  ◌+◌, Option, String, [], false, if◌then◌else◌, length, member, none, not, refl, some, true, ◌||◌,
  ℕ, ◌∷◌, ◌≡◌, ◌≤◌,
}
use stock_advisor.Prelude.Dict.{Dict}
use stock_advisor.Macro.Cache.{Download, MacroState}
use stock_advisor.Strategy.Control.{Engine}
use stock_advisor.MarketData.Registry.{OpenMarkets, get_tier, strip_left, strip_right, zeros}
use stock_advisor.Scheduler.Polling.{Quote}
use stock_advisor.Macro.Bands.{Quotes}
use stock_advisor.Strategy.Universe.{
  Rankings, all_kr, all_us, clean, is_kr_code, kr_holdings, norm_ticker, target_universe, upper,
  us_holdings, dedup,
}
use stock_advisor.Portfolio.Sync.{isalpha, all_letters}
use stock_advisor.Tickers.State.{TickerState, fresh_state}
use stock_advisor.Scheduler.Jobs.{check_releases, Server, start_server}
use stock_advisor.Scheduler.Subscriptions.{high_tier, manage_subscriptions}
use stock_advisor.Markets.{is_kr}
use stock_advisor.Scheduler.Subscriptions.Tiers.{manage_subscriptions-tiers}
use stock_advisor.Floats.{num}
use stock_advisor.Prelude.Int.{pos}
use stock_advisor.Scheduler.Jobs.Baseline.{start_server-check_releases}
use stock_advisor.Macro.Economy.{get_economic_indicators}

abbrev off : Engine Fixed
off = record { enabled = false; file = none }

-- The latest day of every series.
abbrev feed : String → Option ℕ
feed k = some 738946

abbrev quotes : Quotes Fixed
quotes = record {
  hist_empty = true;
  closes = [];
  ewm = λ (p : ℕ). [];
  mean_200 = num 100;
  ndx_month = [];
  vix_month = [];
  btc_month = [];
  dxy_month = [];
  gold_month = [];
  us_2y_yield = none;
}

abbrev download : Download Fixed
download = record {
  now = num 1000;
  today = 20;
  db_ok = true;
  vix = num 20;
  fear_greed = pos 50;
  economic = get_economic_indicators (λ key. none);
  us_10y_yield = num 4;
  crypto = [];
  commodities = [];
  indices = [];
  sources = record {
    quotes = quotes;
    fetched_vix = num 20;
    fetched_fear_greed = pos 50;
    fetched_indicators = (num 0, num 0);
    fetched_yield = num 4;
  };
}

abbrev macro_state : MacroState Fixed
macro_state = record { cache = none; history = [] }

abbrev server : Server Fixed
server =
    start_server (record { latest_of = some feed; state_readable = true; sync_succeeds = true })
      none off

start_server-check_releases_example :
    (check_releases feed download server.last_obs_date macro_state).1 ≡ macro_state
start_server-check_releases_example =
    start_server-check_releases feed true true off download macro_state

-- The Korean market is open: the ranking is polled, and a quote of Apple is not asked for.
abbrev korea : OpenMarkets
korea = record { is_kr_open = true; is_us_open = false }

abbrev rankings : Rankings
rankings = record {
  top_krx = "5930" ∷ "660" ∷ [];
  top_us = "aapl" ∷ [];
  held_tickers = some "000660" ∷ none ∷ [];
}

abbrev apple : TickerState Fixed
unfolding fresh_state
apple = record (fresh_state "AAPL") { current_price = num 90 }

abbrev states : Dict (TickerState Fixed)
states = ("AAPL", apple) ∷ []

abbrev quoted : String → Option (Quote Fixed)
quoted t = some (record { price = some (num 100); rate = none; change_rate = none })

-- The holding stays in the high tier though it is first in no ranking.
tiers_of_rankings : target_universe rankings ≡ "005930" ∷ "000660" ∷ "AAPL" ∷ []
unfolding target_universe all_kr all_us kr_holdings us_holdings dedup norm_ticker clean upper
    strip_left strip_right zeros is_kr_code isalpha all_letters is_kr
tiers_of_rankings = refl

abbrev low_tiers : Dict String
low_tiers = ("AAPL", "low") ∷ ("005930", "low") ∷ []

manage_subscriptions-tiers_example :
    let k = manage_subscriptions korea (λ t. none) (λ t. none) rankings [] states in
    (get_tier "AAPL" k.tiers ≡ (
      if member "AAPL" (high_tier rankings)
      then "high"
      else if member "AAPL" (target_universe rankings)
      then "low"
      else get_tier "AAPL" []))
    × ((not (member "AAPL" (high_tier rankings)) || member "AAPL" (target_universe rankings))
        ≡ true)
    × ((not (member "AAPL" (kr_holdings rankings) || member "AAPL" (us_holdings rankings))
          || member "AAPL" (high_tier rankings))
        ≡ true)
    × (length (high_tier rankings)
        ≤ length (kr_holdings rankings) + length (us_holdings rankings) + 40)
manage_subscriptions-tiers_example =
    manage_subscriptions-tiers korea (λ t. none) (λ t. none) rankings [] states "AAPL"
