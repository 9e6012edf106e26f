-- ===== src/Settings/Defaults.antt =====
-- `DEFAULT_SETTINGS` of services/config/settings_service.py. The values that come from `Config` are
-- texts there already, as `str` gives them.
use stock_advisor.Prelude.Dict.{Dict}
use stock_advisor.Prelude.{String, [], ◌∷◌}

pub record Config : Type 0 where
  pub strategy_target_cash_ratio : String
  pub strategy_per_trade_ratio : String
  pub strategy_base_score : String
  pub strategy_buy_threshold_min : String
  pub strategy_buy_threshold : String
  pub strategy_sell_threshold : String
  pub strategy_sell_threshold_max : String
  pub strategy_require_full_analysis : String
  pub strategy_min_ready_ratio : String
  pub strategy_split_count : String
  pub strategy_stop_loss_pct : String
  pub strategy_take_profit_pct : String
  pub strategy_dip_buy_pct : String
  pub strategy_oversold_rsi : String
  pub strategy_overbought_rsi : String
  pub dcf_equity_risk_premium : String
  pub dcf_discount_rate_floor : String
  pub dcf_discount_rate_ceil : String
  pub dcf_default_discount_rate : String
  pub dcf_stage1_years : String
  pub dcf_terminal_growth : String

-- key, value and description
unfoldable pub default_settings : Config → Dict (String × String)
default_settings config =
    ("STRATEGY_TARGET_CASH_RATIO", (config.strategy_target_cash_ratio, "목표 현금 비중 (0.0 ~ 1.0)"))
    ∷ ("STRATEGY_PER_TRADE_RATIO", (config.strategy_per_trade_ratio, "1회 매매 비중 (자산 대비)"))
    ∷ ("STRATEGY_BASE_SCORE", (config.strategy_base_score, "기본 점수"))
    ∷ ("STRATEGY_BUY_THRESHOLD_MIN", (config.strategy_buy_threshold_min, "매수 점수 하한 (기본 30)"))
    ∷ ("STRATEGY_BUY_THRESHOLD", (config.strategy_buy_threshold, "매수 점수 임계값"))
    ∷ ("STRATEGY_SELL_THRESHOLD", (config.strategy_sell_threshold, "매도 점수 임계값"))
    ∷ ("STRATEGY_SELL_THRESHOLD_MAX", (config.strategy_sell_threshold_max, "매도 점수 상한 (기본 100)"))
    ∷ (
      "STRATEGY_REQUIRE_FULL_ANALYSIS",
      (config.strategy_require_full_analysis, "전체 분석 준비 전 매매 금지(1=금지)"),
    )
    ∷ ("STRATEGY_MIN_READY_RATIO", (config.strategy_min_ready_ratio, "매매 허용 최소 준비율(0.0~1.0)"))
    ∷ ("STRATEGY_SPLIT_COUNT", (config.strategy_split_count, "분할 매매 횟수"))
    ∷ ("STRATEGY_STOP_LOSS_PCT", (config.strategy_stop_loss_pct, "손절 기준 수익률 (%)"))
    ∷ ("STRATEGY_TAKE_PROFIT_PCT", (config.strategy_take_profit_pct, "익절 기준 수익률 (%)"))
    ∷ ("STRATEGY_DIP_BUY_PCT", (config.strategy_dip_buy_pct, "급락 매수 기준 (%)"))
    ∷ ("STRATEGY_OVERSOLD_RSI", (config.strategy_oversold_rsi, "과매도 RSI 기준"))
    ∷ ("STRATEGY_OVERBOUGHT_RSI", (config.strategy_overbought_rsi, "과매수 RSI 기준"))
    ∷ ("STRATEGY_ALLOW_EXTENDED_HOURS", ("1", "미국 프리/애프터마켓 주문 허용(1=허용,0=미허용)"))
    ∷ ("STRATEGY_TICK_ENABLED", ("0", "틱매매 전략 사용 여부(1=사용,0=미사용)"))
    ∷ ("STRATEGY_TICK_TICKER", ("005930", "틱매매 대상 티커 (하루 1종목)"))
    ∷ ("STRATEGY_TICK_CASH_RATIO", ("0.20", "틱매매에 사용할 여유 현금 비중(총자산 대비)"))
    ∷ ("STRATEGY_TICK_ENTRY_PCT", ("-1.0", "틱매매 1차 진입 기준 등락률(%)"))
    ∷ ("STRATEGY_TICK_ADD_PCT", ("-3.0", "틱매매 2차 추가매수 기준 등락률(%)"))
    ∷ ("STRATEGY_TICK_TAKE_PROFIT_PCT", ("1.0", "틱매매 익절 기준 수익률(%)"))
    ∷ ("STRATEGY_TICK_STOP_LOSS_PCT", ("-5.0", "틱매매 손절 기준 수익률(%)"))
    ∷ ("STRATEGY_TICK_CLOSE_MINUTES", ("5", "장마감 전 현금화 시도 분"))
    ∷ ("PORTFOLIO_INITIAL_PRINCIPAL", ("10000000", "초기 원금(원). 원금 대비 손익 계산 기준값"))
    ∷ ("PORTFOLIO_USD_CASH_BALANCE", ("0", "미국 외화 현금 잔고(USD). 비중 계산 및 보고 보정용"))
    ∷ ("STRATEGY_TARGET_CASH_RATIO_KR_BEAR", ("0.20", "한국 시장 BEAR 국면 목표 현금 비중"))
    ∷ ("STRATEGY_TARGET_CASH_RATIO_KR_NEUTRAL", ("0.40", "한국 시장 NEUTRAL 국면 목표 현금 비중"))
    ∷ ("STRATEGY_TARGET_CASH_RATIO_KR_BULL", ("0.50", "한국 시장 BULL 국면 목표 현금 비중"))
    ∷ ("STRATEGY_TARGET_CASH_RATIO_US_BEAR", ("0.20", "미국 시장 BEAR 국면 목표 현금 비중"))
    ∷ ("STRATEGY_TARGET_CASH_RATIO_US_NEUTRAL", ("0.40", "미국 시장 NEUTRAL 국면 목표 현금 비중"))
    ∷ ("STRATEGY_TARGET_CASH_RATIO_US_BULL", ("0.50", "미국 시장 BULL 국면 목표 현금 비중"))
    ∷ ("DCF_EQUITY_RISK_PREMIUM", (config.dcf_equity_risk_premium, "DCF 주식 위험 프리미엄(예: 5.5%=0.055)"))
    ∷ ("DCF_DISCOUNT_RATE_FLOOR", (config.dcf_discount_rate_floor, "DCF 할인율 하한(예: 6%=0.06)"))
    ∷ ("DCF_DISCOUNT_RATE_CEIL", (config.dcf_discount_rate_ceil, "DCF 할인율 상한(예: 15%=0.15)"))
    ∷ (
      "DCF_DEFAULT_DISCOUNT_RATE",
      (config.dcf_default_discount_rate, "DCF beta 미제공 시 기본 할인율(예: 10%=0.10)"),
    )
    ∷ ("DCF_STAGE1_YEARS", (config.dcf_stage1_years, "DCF 1단계 고성장 기간(년)"))
    ∷ ("DCF_TERMINAL_GROWTH", (config.dcf_terminal_growth, "DCF 터미널 성장률(예: 3%=0.03, GDP 성장률 연동)"))
    ∷ []
