-- ===== src/Macro/Cache.antt =====
-- `get_macro_data`, `invalidate_cache` and `refresh_on_release` of services/market/macro_service.py:
-- the cache of one hour, and the snapshot in the history that each fresh computation leaves and the
-- next one reads. The Slack message of `refresh_on_release` is left out.
pub mod Freshness
use stock_advisor.Prelude.{ℕ, Bool, List, Option, if◌then◌else◌, none, some}
use stock_advisor.Floats.{◌<?◌, Double, int, nought, num, truthy, ◌⊖◌}
use stock_advisor.Prelude.Dict.{Dict}
use stock_advisor.Macro.Economy.{EconomicIndicators}
use stock_advisor.Macro.History.{
  HistoryRow, get_market_regime_history, save_market_regime, statuses,
}
use stock_advisor.Macro.Downloads.{Price}
use stock_advisor.Macro.Regime.{Regime, Sources, get_market_regime}
use stock_advisor.Prelude.Int.{eq_ℤ, pos, ℤ}

-- What the downloads of one call give, with the time and the day of the call, and whether the
-- database answers.
pub record Download (F : Type 0) : Type 0 where
  pub now : F
  pub today : ℕ
  pub db_ok : Bool
  pub vix : F
  pub fear_greed : ℤ
  pub economic : EconomicIndicators F
  pub us_10y_yield : F
  pub crypto : Dict (Price F)
  pub commodities : Dict (Price F)
  pub indices : Dict (Price F)
  pub sources : Sources F

pub record MacroData (F : Type 0) : Type 0 where
  pub indices : Dict (Price F)
  pub us_10y_yield : F
  pub market_regime : Regime F
  pub vix : F
  pub fear_greed : ℤ
  pub crypto : Dict (Price F)
  pub commodities : Dict (Price F)
  pub economic_indicators : EconomicIndicators F
  pub timestamp : F

pub record MacroState (F : Type 0) : Type 0 where
  pub cache : Option (MacroData F × F)
  pub history : List (HistoryRow F)

-- A fear and greed of 0 is stored as 50.
abbrev pub stored_fear_greed : ℤ → ℤ
stored_fear_greed n = if eq_ℤ n (pos 0) then pos 50 else n

module _ {F : Type 0} ⦃d : Double F⦄ where
  abbrev pub expiry : F
  expiry = num 3600

  -- The regime of a download: every argument is given, and the last 70 rows are read.
  unfoldable pub regime_of : Download F → List (HistoryRow F) → Regime F
  regime_of w rows =
      get_market_regime w.sources (statuses (get_market_regime_history w.db_ok 70 rows)) (record {
        vix = some w.vix;
        fear_greed = some w.fear_greed;
        economic_indicators = some (
          int w.economic.summary.total_weighted_score,
          int w.economic.summary.max_weighted_score,
        );
        us_10y_yield = some w.us_10y_yield;
      })

  unfoldable pub fresh_data : Download F → List (HistoryRow F) → MacroData F
  fresh_data w rows = record {
    indices = w.indices;
    us_10y_yield = w.us_10y_yield;
    market_regime = regime_of w rows;
    vix = w.vix;
    fear_greed = w.fear_greed;
    crypto = w.crypto;
    commodities = w.commodities;
    economic_indicators = w.economic;
    timestamp = w.now;
  }

  abbrev pub stored_vix : F → F
  stored_vix x = if truthy x then x else nought

  -- The whole computation, which writes the cache and then the history.
  unfoldable pub fetch_data : Download F → MacroState F → MacroData F × MacroState F
  fetch_data w s =
      let data' = fresh_data w s.history in
      (
        data',
        record {
          cache = some (data', w.now);
          history =
              save_market_regime w.db_ok w.today data'.market_regime (stored_vix w.vix)
                (stored_fear_greed w.fear_greed) s.history;
        },
      )

  unfoldable pub get_macro_data : Download F → MacroState F → MacroData F × MacroState F
  get_macro_data w s = elim s.cache [
    | none ↦ fetch_data w s
    | some (data', timestamp) ↦ if (w.now ⊖ timestamp) <? expiry then (data', s) else fetch_data w s
  ]

  unfoldable pub invalidate_cache : MacroState F → MacroState F
  invalidate_cache s = record s { cache = none }

  unfoldable pub refresh_on_release : Download F → MacroState F → MacroData F × MacroState F
  refresh_on_release w s = get_macro_data w (invalidate_cache s)
