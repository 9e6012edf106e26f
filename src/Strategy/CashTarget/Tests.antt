-- ===== src/Strategy/CashTarget/Tests.antt =====
-- The key of a market and a regime.
use stock_advisor.Strategy.CashTarget.{cash_ratio_key, regime_key}
use stock_advisor.Prelude.{refl, ◌≡◌}
use stock_advisor.Settings.Defaults.{Config}

bear_in_korea : cash_ratio_key "KR" "BEAR" ≡ "STRATEGY_TARGET_CASH_RATIO_KR_BEAR"
unfolding cash_ratio_key regime_key
bear_in_korea = refl

abbrev plain : Config
plain = record {
  strategy_target_cash_ratio = "0.4";
  strategy_per_trade_ratio = "0.05";
  strategy_base_score = "50";
  strategy_buy_threshold_min = "30";
  strategy_buy_threshold = "40";
  strategy_sell_threshold = "70";
  strategy_sell_threshold_max = "100";
  strategy_require_full_analysis = "1";
  strategy_min_ready_ratio = "1.0";
  strategy_split_count = "3";
  strategy_stop_loss_pct = "-8.0";
  strategy_take_profit_pct = "3.0";
  strategy_dip_buy_pct = "-5.0";
  strategy_oversold_rsi = "30.0";
  strategy_overbought_rsi = "70.0";
  dcf_equity_risk_premium = "0.055";
  dcf_discount_rate_floor = "0.06";
  dcf_discount_rate_ceil = "0.15";
  dcf_default_discount_rate = "0.1";
  dcf_stage1_years = "10";
  dcf_terminal_growth = "0.03";
}
