-- ===== src/Strategy/Score.antt =====
-- `calculate_score` of services/strategy/trading_strategy_service.py. What it reads of other services
-- (settings, top-10 list, overrides, the sector deviation) comes in the record `Inputs`. A reason
-- stands as its kind, with the number of points where its text prints it.
pub mod Explained
pub mod StopLoss
pub use stock_advisor.Prelude.Int.{minus}
use stock_advisor.Prelude.{
  ◌&&◌, ◌++◌, Bool, List, Option, String, [], if◌then◌else◌, none, not, some, str_eq, suc, zero,
  ◌||◌, ℕ, ◌∷◌,
}
use stock_advisor.Prelude.Int.{◌+ℤ◌, ◌-ℤ◌, eq_ℤ, ltb_ℤ, negsuc, pos, ℤ}
use stock_advisor.Floats.{◌<?◌, Double, int, nought, num, truthy, ◌≤?◌, ◌⊕◌, ◌⊖◌, ◌⊗◌, ◌⊘◌}
use stock_advisor.Portfolio.Holding.{Holding}
use stock_advisor.Tickers.State.{TickerState, ema_at}
use stock_advisor.Strategy.Sectors.{price_or, rebal_threshold}
use stock_advisor.Markets.{profit_pct}

pub record ScoreSettings (F : Type 0) : Type 0 where
  pub base_score : ℤ
  pub oversold_rsi : F
  pub dip_buy_pct : F
  pub take_profit_pct : F
  pub stop_loss_pct : F
  pub top10_bonus : ℤ

-- `regime` is the status of the market regime in upper case, `UNKNOWN` where there is none.
pub record Macro (F : Type 0) : Type 0 where
  pub regime : String
  pub vix : F
  pub fear_greed : F

-- `override` is the user's weight for the ticker; `sector_dev` is `none` where the ticker's group is
-- `other` or the lookup raises.
pub record Inputs (F : Type 0) : Type 0 where
  pub panic_locked : Bool
  pub cash_ratio : F
  pub target_cash_ratio : F
  pub in_top10 : Bool
  pub override : Option ℤ
  pub sector_dev : Option F

pub data Reason : Type 0 where
  no_price recovery_wait panic_lock : Reason
  rsi_extreme_low rsi_low rsi_high rsi_extreme_high : ℤ → Reason
  dip surge : Reason
  dcf_under_high dcf_under_mid dcf_under_low dcf_fair dcf_over_low dcf_over_high : Reason
  ema_support take_profit add_position stop_loss : Reason
  panic_buy overheated bull bear target_buy target_sell : Reason
  top10 custom : ℤ → Reason
  sector_under sector_over cash_short : Reason

-- The variables `score` and `reasons`.
abbrev pub Tally : Type 0
Tally = ℤ × List Reason

abbrev pub signal : ℤ → Reason → Tally → Tally
signal points reason (score, reasons) = (score +ℤ points, reasons ++ (reason ∷ []))

-- `max(0, min(100, score))`
unfoldable pub clamp : ℤ → ℤ
clamp score =
    if ltb_ℤ score (pos 0) then pos 0 else if ltb_ℤ (pos 100) score then pos 100 else score

-- [F] the user's own weight
unfoldable pub override_signal : Option ℤ → Tally → Tally
override_signal none t = t
override_signal (some bonus) t = if eq_ℤ bonus (pos 0) then t else signal bonus (custom bonus) t

module _ {F : Type 0} ⦃d : Double F⦄ where
  -- `profit_pct`, as `calculate_score` computes it
  unfoldable pub holding_profit_pct : F → Holding F → F
  holding_profit_pct curr_price h =
      let stored = price_or h.current_price nought in
      let ref_price = if stored ≤? nought then curr_price else stored in
      if nought <? h.buy_price then (ref_price ⊖ h.buy_price) ⊘ h.buy_price ⊗ num 100 else nought

  -- [A] the RSI
  unfoldable pub rsi_signal : F → Tally → Tally
  rsi_signal rsi t =
      if rsi ≤? num 30
      then (let p = d.truncate (d.negate (num 20 ⊖ rsi ⊘ num 30 ⊗ num 10)) in
          signal p (rsi_extreme_low p) t)
      else if rsi <? num 50
      then (let s = d.negate (num 10 ⊖ (rsi ⊖ num 30) ⊘ num 20 ⊗ num 10) in
          if s ≤? int (minus 5) then signal (d.truncate s) (rsi_low (d.truncate s)) t else t)
      else if rsi ≤? num 70
      then (let s = (rsi ⊖ num 50) ⊘ num 20 ⊗ num 10 in
          if num 5 ≤? s then signal (d.truncate s) (rsi_high (d.truncate s)) t else t)
      else (let p = d.truncate (num 10 ⊕ (rsi ⊖ num 70) ⊘ num 30 ⊗ num 10) in
          signal p (rsi_extreme_high p) t)

  -- [A] the change of the day
  unfoldable pub change_signal : ScoreSettings F → F → Tally → Tally
  change_signal cfg change_rate t =
      if change_rate ≤? cfg.dip_buy_pct
      then signal (minus 15) dip t
      else if num 5 ≤? change_rate
      then signal (pos 15) surge t
      else t

  -- [A] the DCF value
  unfoldable pub dcf_signal : F → F → Tally → Tally
  dcf_signal dcf curr_price t =
      if truthy dcf && nought <? dcf
      then (let pct = (dcf ⊖ curr_price) ⊘ curr_price ⊗ num 100 in
          if num 20 ≤? pct
          then signal (minus 25) dcf_under_high t
          else if num 10 ≤? pct
          then signal (minus 15) dcf_under_mid t
          else if num 5 ≤? pct
          then signal (minus 10) dcf_under_low t
          else if int (minus 5) ≤? pct
          then signal (minus 5) dcf_fair t
          else if int (minus 15) ≤? pct
          then signal (pos 10) dcf_over_low t
          else signal (pos 20) dcf_over_high t)
      else t

  -- [A] the 200-day average as a support
  unfoldable pub ema_signal : Option F → F → Tally → Tally
  ema_signal none curr_price t = t
  ema_signal (some ema200) curr_price t =
      if truthy ema200
        && nought <? ema200
        && ema200 ⊗ d.decimal (pos 100) 2 ≤? curr_price
        && curr_price ≤? ema200 ⊗ d.decimal (pos 102) 2
      then signal (minus 10) ema_support t
      else t

  -- [B] the holding; a reached stop loss sets the score to 100
  unfoldable pub holding_signal : ScoreSettings F → F → Option (Holding F) → Tally → Tally
  holding_signal cfg curr_price none t = t
  holding_signal cfg curr_price (some h) t =
      let profit_pct = holding_profit_pct curr_price h in
      if cfg.take_profit_pct ≤? profit_pct
      then signal (pos 30) take_profit t
      else if profit_pct ≤? int (minus 5) && cfg.stop_loss_pct <? profit_pct
      then signal (minus 10) add_position t
      else if profit_pct ≤? cfg.stop_loss_pct
      then (pos 100, t.1 ++ (stop_loss ∷ []))
      else t

  -- [C] fear and greed, then the regime
  unfoldable pub macro_signal : Macro F → Tally → Tally
  macro_signal macro t =
      if num 25 ≤? macro.vix || macro.fear_greed ≤? num 30
      then signal (minus 30) panic_buy t
      else if macro.vix ≤? num 15 || num 70 ≤? macro.fear_greed
      then signal (pos 15) overheated t
      else t

  unfoldable pub regime_signal : Macro F → Tally → Tally
  regime_signal macro t =
      if str_eq macro.regime "BULL"
      then signal (minus 15) bull t
      else if str_eq macro.regime "BEAR"
      then signal (pos 10) bear t
      else t

  -- [D] the target prices
  unfoldable pub target_buy_signal : TickerState F → Tally → Tally
  target_buy_signal s t =
      if nought <? s.target_buy_price && s.current_price ≤? s.target_buy_price
      then signal (minus 30) target_buy t
      else t

  unfoldable pub target_sell_signal : TickerState F → Tally → Tally
  target_sell_signal s t =
      if nought <? s.target_sell_price && s.target_sell_price ≤? s.current_price
      then signal (pos 30) target_sell t
      else t

  -- [E] the ten largest companies
  unfoldable pub top10_signal : ScoreSettings F → Inputs F → Tally → Tally
  top10_signal cfg inputs t =
      if not (eq_ℤ cfg.top10_bonus (pos 0)) && inputs.in_top10
      then signal (pos 0 -ℤ cfg.top10_bonus) (top10 (pos 0 -ℤ cfg.top10_bonus)) t
      else t

  -- [G] the deviation of the sector group
  unfoldable pub sector_signal : Option F → Tally → Tally
  sector_signal none t = t
  sector_signal (some dev) t =
      if dev <? d.negate rebal_threshold
      then signal (minus 10) sector_under t
      else if rebal_threshold <? dev
      then signal (pos 10) sector_over t
      else t

  unfoldable pub cash_signal : Inputs F → Tally → Tally
  cash_signal inputs t =
      if inputs.cash_ratio <? inputs.target_cash_ratio && ltb_ℤ (pos 50) t.0
      then signal (pos 15) cash_short t
      else t

  -- Blocks [A] and [B], then all that follows.
  unfoldable pub ticker_signals :
      ScoreSettings F → TickerState F → Option (Holding F) → Tally → Tally
  ticker_signals cfg s holding t = holding_signal cfg s.current_price holding (
      ema_signal (ema_at 200 s.ema) s.current_price (
        dcf_signal s.dcf_value s.current_price
          (change_signal cfg s.change_rate (rsi_signal s.rsi t))))

  unfoldable pub market_signals :
      ScoreSettings F → TickerState F → Macro F → Inputs F → Tally → Tally
  market_signals cfg s macro inputs t = cash_signal inputs (
      sector_signal inputs.sector_dev (
        override_signal inputs.override (
          top10_signal cfg inputs (
            target_sell_signal s
              (target_buy_signal s (regime_signal macro (macro_signal macro t)))))))

  unfoldable pub calculate_score :
      ScoreSettings F → TickerState F → Option (Holding F) → Macro F → Inputs F → ℤ × List Reason
  calculate_score cfg s holding macro inputs =
      if s.current_price ≤? nought
      then (pos 0, no_price ∷ [])
      else if inputs.panic_locked
      then (if s.rsi <? cfg.oversold_rsi
          then (pos 20, recovery_wait ∷ [])
          else (pos 50, panic_lock ∷ []))
      else (let t =
            market_signals cfg s macro inputs (ticker_signals cfg s holding (cfg.base_score, [])) in
          (clamp t.0, t.1))
