-- ===== src/Strategy/CashTarget.antt =====
-- `_get_target_cash_ratio` of services/strategy/trading_strategy_service.py, for a regime in upper
-- case. The setting is read by the argument `get_float`, from a key and a default.
mod Tests
use stock_advisor.Settings.Defaults.{Config, default_settings}
use stock_advisor.Floats.{Double}
use stock_advisor.Prelude.{String, if◌then◌else◌, refl, str_eq, true, ◌≡◌, if_elim}
use stock_advisor.Prelude.Dict.{contains, lookup}
use stock_advisor.Prelude.Int.{pos}
use stock_advisor.Strategy.Score.{bear, bull}

unfoldable pub regime_key : String → String
regime_key status =
    if str_eq status "BEAR" then "BEAR" else if str_eq status "BULL" then "BULL" else "NEUTRAL"

-- `f"STRATEGY_TARGET_CASH_RATIO_{market_key}_{regime_key}"`, written out for the two markets
unfoldable pub cash_ratio_key : String → String → String
cash_ratio_key market status =
    let regime = regime_key status in
    if str_eq market "KR"
    then (if str_eq regime "BEAR"
        then "STRATEGY_TARGET_CASH_RATIO_KR_BEAR"
        else if str_eq regime "BULL"
        then "STRATEGY_TARGET_CASH_RATIO_KR_BULL"
        else "STRATEGY_TARGET_CASH_RATIO_KR_NEUTRAL")
    else (if str_eq regime "BEAR"
        then "STRATEGY_TARGET_CASH_RATIO_US_BEAR"
        else if str_eq regime "BULL"
        then "STRATEGY_TARGET_CASH_RATIO_US_BULL"
        else "STRATEGY_TARGET_CASH_RATIO_US_NEUTRAL")

-- `default_ratios`, the same for both markets
unfoldable pub default_cash_ratio : {F : Type 0} ⦃d : Double F⦄ → String → F
default_cash_ratio ⦃d⦄ regime =
    if str_eq regime "BEAR"
    then d.decimal (pos 20) 2
    else if str_eq regime "BULL"
    then d.decimal (pos 50) 2
    else d.decimal (pos 40) 2

unfoldable pub get_target_cash_ratio :
    {F : Type 0} ⦃d : Double F⦄ → (String → F → F) → String → String → F
get_target_cash_ratio get_float market status =
    get_float (cash_ratio_key market status) (default_cash_ratio (regime_key status))

-- Whatever the market and the regime, the key that is read is one of the default settings.
pub cash_ratio_key-default_settings :
    (config : Config) (market status : String)
    → contains (cash_ratio_key market status) (default_settings config) ≡ true
unfolding cash_ratio_key default_settings lookup
cash_ratio_key-default_settings config market status =
    let P : String → Type 0 = λ k. contains k (default_settings config) ≡ true in
    let bear = str_eq (regime_key status) "BEAR" in
    let bull = str_eq (regime_key status) "BULL" in
    if_elim P (str_eq market "KR") _ _ (if_elim P bear _ _ refl (if_elim P bull _ _ refl refl))
      (if_elim P bear _ _ refl (if_elim P bull _ _ refl refl))
