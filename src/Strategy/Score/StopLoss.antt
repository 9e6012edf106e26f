-- ===== src/Strategy/Score/StopLoss.antt =====
-- What becomes of the score of 100 that a reached stop loss sets.
use stock_advisor.Prelude.{
  ◌&&◌, [], arith, false, if◌then◌else◌, none, some, str_eq, true, ◌||◌, ◌≡◌,
}
use stock_advisor.Prelude.Int.{◌+ℤ◌, ltb_ℤ, pos}
use stock_advisor.Floats.{◌<?◌, Double, nought, num, ◌≤?◌}
use stock_advisor.Portfolio.Holding.{Holding}
use stock_advisor.Strategy.Score.{
  Inputs, Macro, ScoreSettings, Tally, calculate_score, cash_signal, change_signal, clamp,
  dcf_signal, ema_signal, holding_profit_pct, holding_signal, macro_signal, market_signals, minus,
  override_signal, regime_signal, rsi_signal, sector_signal, target_buy_signal, target_sell_signal,
  ticker_signals, top10_signal,
}
use stock_advisor.Tickers.State.{TickerState, ema_at}

module _ {F : Type 0} ⦃d : Double F⦄ where
  -- The profit of a holding has fallen to the stop loss, by the tests of the code.
  pub record AtStopLoss (cfg : ScoreSettings F) (s : TickerState F) (h : Holding F) : Type 0 where
    pub reached : (holding_profit_pct s.current_price h ≤? cfg.stop_loss_pct) ≡ true
    pub not_above : (cfg.stop_loss_pct <? holding_profit_pct s.current_price h) ≡ false
    pub no_profit : (cfg.take_profit_pct ≤? holding_profit_pct s.current_price h) ≡ false

  -- The ticker is traded, its price is at neither target, and it is under no extra weight.
  pub record IsPlain (cfg : ScoreSettings F) (s : TickerState F) (i : Inputs F) : Type 0 where
    pub priced : (s.current_price ≤? nought) ≡ false
    pub unlocked : i.panic_locked ≡ false
    pub no_target_buy :
        (nought <? s.target_buy_price && s.current_price ≤? s.target_buy_price) ≡ false
    pub no_target_sell :
        (nought <? s.target_sell_price && s.target_sell_price ≤? s.current_price) ≡ false
    pub not_top10 : i.in_top10 ≡ false
    pub no_override : i.override ≡ none
    pub no_sector : i.sector_dev ≡ none

  holding_signal-AtStopLoss :
      (cfg : ScoreSettings F) (s : TickerState F) (h : Holding F) (t : Tally)
      → AtStopLoss cfg s h
      → (holding_signal cfg s.current_price (some h) t).0 ≡ pos 100
  unfolding holding_signal
  holding_signal-AtStopLoss cfg s h t a = ground arith

  plain_market_signals :
      (cfg : ScoreSettings F) (s : TickerState F) (m : Macro F) (i : Inputs F) (t : Tally)
      → IsPlain cfg s i
      → (num 25 ≤? m.vix || m.fear_greed ≤? num 30) ≡ true
      → str_eq m.regime "BULL" ≡ true
      → (market_signals cfg s m i t).0 ≡ (
          let score = t.0 +ℤ minus 30 +ℤ minus 15 in
          if (i.cash_ratio <? i.target_cash_ratio) && ltb_ℤ (pos 50) score
          then score +ℤ pos 15
          else score)
  unfolding market_signals cash_signal sector_signal override_signal top10_signal target_sell_signal
      target_buy_signal regime_signal macro_signal
  plain_market_signals cfg s m i t p fear rising = ground arith

  -- In a rising market with extreme fear, and with no other weight on the ticker, the score of a
  -- holding at its stop loss is 55 where cash is not short and 70 where it is.
  pub stop_loss_score :
      (cfg : ScoreSettings F) (s : TickerState F) (h : Holding F) (m : Macro F) (i : Inputs F)
      → AtStopLoss cfg s h
      → IsPlain cfg s i
      → (num 25 ≤? m.vix || m.fear_greed ≤? num 30) ≡ true
      → str_eq m.regime "BULL" ≡ true
      → (calculate_score cfg s (some h) m i).0
        ≡ (if i.cash_ratio <? i.target_cash_ratio then pos 70 else pos 55)
  unfolding calculate_score ticker_signals ◌+ℤ◌ clamp
  stop_loss_score cfg s h m i a p fear rising =
      let t = ema_signal (ema_at 200 s.ema) s.current_price (
        dcf_signal s.dcf_value s.current_price
          (change_signal cfg s.change_rate (rsi_signal s.rsi (cfg.base_score, [])))) in
      ground (
        arith,
        holding_signal-AtStopLoss cfg s h t a,
        plain_market_signals cfg s m i (holding_signal cfg s.current_price (some h) t) p fear
            rising,
      )
