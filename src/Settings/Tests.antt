-- ===== src/Settings/Tests.antt =====
-- Runs of the settings service, and its theorems at concrete inputs.
use stock_advisor.Settings.Defaults.{Config, default_settings}
use stock_advisor.Prelude.Dict.{Dict, insert, lookup}
use stock_advisor.Settings.Service.Cache.{IsCoherent, get_setting-set_setting}
use stock_advisor.Settings.Service.{
  Settings, cached_value, correct, current_value, default_value, get_setting, init_defaults,
  set_setting,
}
use stock_advisor.Prelude.{String, [], arith, eq_iff, none, refl, some, true, ◌∷◌, ◌≡◌}
use stock_advisor.Settings.Service.Startup.{distinct, tick_switch_stays_cached}
use stock_advisor.Settings.Repository.{get, set, upsert_from, upsert_many, written}

abbrev config : Config
config = record {
  strategy_target_cash_ratio = "0.4";
  strategy_per_trade_ratio = "0.05";
  strategy_base_score = "50";
  strategy_buy_threshold_min = "30";
  strategy_buy_threshold = "40";
  strategy_sell_threshold = "70";
  strategy_sell_threshold_max = "100";
  strategy_require_full_analysis = "1";
  strategy_min_ready_ratio = "1.0";
  strategy_split_count = "3";
  strategy_stop_loss_pct = "-8.0";
  strategy_take_profit_pct = "3.0";
  strategy_dip_buy_pct = "-5.0";
  strategy_oversold_rsi = "30.0";
  strategy_overbought_rsi = "70.0";
  dcf_equity_risk_premium = "0.055";
  dcf_discount_rate_floor = "0.06";
  dcf_discount_rate_ceil = "0.15";
  dcf_default_discount_rate = "0.1";
  dcf_stage1_years = "10";
  dcf_terminal_growth = "0.03";
}

abbrev defaults : Dict (String × String)
unfolding default_settings
defaults = default_settings config

-- A table with one user setting, and the tick switch cached as on.
abbrev started : Settings
started = record {
  table = record {
    rows =
        ("STRATEGY_TICK_ENABLED", record { value = "1"; description = "" })
        ∷ ("STRATEGY_STOP_LOSS_PCT", record { value = "-10"; description = "" })
        ∷ [];
    writable = true;
  };
  cache = ("STRATEGY_TICK_ENABLED", (some "1", 100)) ∷ [];
}

-- The old default of the stop loss is replaced at start-up.
stop_loss_corrected :
    get (init_defaults defaults started).table "STRATEGY_STOP_LOSS_PCT" ≡ some "-8.0"
unfolding default_settings init_defaults upsert_many upsert_from correct get set default_value
    lookup insert written
stop_loss_corrected = refl

started-IsCoherent : IsCoherent defaults started
unfolding lookup current_value get
started-IsCoherent k v e h = ground (arith, eq_iff "STRATEGY_TICK_ENABLED" k)

get_setting-set_setting_example :
    (get_setting defaults
      (set_setting defaults started "STRATEGY_TICK_ENABLED" "0").1
      50
      "STRATEGY_TICK_ENABLED"
      none).0
    ≡ some "0"
get_setting-set_setting_example =
    get_setting-set_setting defaults started "STRATEGY_TICK_ENABLED" "0" 50 "STRATEGY_TICK_ENABLED"
      refl

defaults-distinct : distinct defaults ≡ true
unfolding default_settings distinct lookup
defaults-distinct = refl

tick_switch_stays_cached_example :
    ((get_setting defaults (init_defaults defaults started) 50 "STRATEGY_TICK_ENABLED" none).0
      ≡ some "1")
    × (get (init_defaults defaults started).table "STRATEGY_TICK_ENABLED" ≡ some "0")
unfolding cached_value lookup
tick_switch_stays_cached_example =
    tick_switch_stays_cached defaults started 50 (some "1") refl defaults-distinct refl
