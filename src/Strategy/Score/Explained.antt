-- ===== src/Strategy/Score/Explained.antt =====
-- The reasons of a score account for it.
use stock_advisor.Prelude.{
  ◌++◌, List, Option, [], ap, arith, none, refl, some, sym, ◌∙◌, ◌∷◌, ◌≡◌, false,
}
use stock_advisor.Prelude.Int.{◌+ℤ◌, pos, ℤ, ◌-ℤ◌, ◌≤ℤ◌}
use stock_advisor.Floats.{Double, nought, num, ◌≤?◌, ◌⊕◌, ◌⊖◌, ◌⊗◌, ◌⊘◌}
use stock_advisor.Strategy.Score.{
  Reason, Tally, add_position, bear, bull, cash_short, custom, dcf_fair, dcf_over_high,
  dcf_over_low, dcf_under_high, dcf_under_low, dcf_under_mid, dip, ema_support, minus, overheated,
  override_signal, panic_buy, rsi_extreme_high, rsi_extreme_low, rsi_high, rsi_low, rsi_signal,
  sector_over, sector_under, signal, stop_loss, surge, take_profit, target_buy, target_sell, top10,
  Inputs, Macro, ScoreSettings, cash_signal, change_signal, dcf_signal, ema_signal, holding_signal,
  macro_signal, regime_signal, sector_signal, target_buy_signal, target_sell_signal, top10_signal,
  calculate_score, clamp, market_signals, ticker_signals,
}
use mathlib.Core.List.{foldl}
use stock_advisor.Portfolio.Holding.{Holding}
use stock_advisor.Tickers.State.{TickerState, ema_at}

-- The points of each kind of reason, as the source's table `WEIGHTS` and its literals have them.
abbrev pub points_of : Reason → ℤ
points_of (rsi_extreme_low p) = p
points_of (rsi_low p) = p
points_of (rsi_high p) = p
points_of (rsi_extreme_high p) = p
points_of dip = minus 15
points_of surge = pos 15
points_of dcf_under_high = minus 25
points_of dcf_under_mid = minus 15
points_of dcf_under_low = minus 10
points_of dcf_fair = minus 5
points_of dcf_over_low = pos 10
points_of dcf_over_high = pos 20
points_of ema_support = minus 10
points_of take_profit = pos 30
points_of add_position = minus 10
points_of panic_buy = minus 30
points_of overheated = pos 15
points_of bull = minus 15
points_of bear = pos 10
points_of target_buy = minus 30
points_of target_sell = pos 30
points_of (top10 p) = p
points_of (custom p) = p
points_of sector_under = minus 10
points_of sector_over = pos 10
points_of cash_short = pos 15
points_of _ = pos 0

-- A reached stop loss sets the score to 100; every other reason adds its points.
abbrev pub apply_reason : ℤ → Reason → ℤ
apply_reason score stop_loss = pos 100
apply_reason score reason = score +ℤ points_of reason

-- The score that a list of reasons stands for.
unfoldable pub explained : ℤ → List Reason → ℤ
explained base = foldl apply_reason base

explained-append_one :
    (b : ℤ) (rs : List Reason) (r : Reason)
    → explained b (rs ++ (r ∷ [])) ≡ apply_reason (explained b rs) r
unfolding explained
explained-append_one b [] r = refl
explained-append_one b (q ∷ rs) r = explained-append_one (apply_reason b q) rs r

module _ (b : ℤ) where
  IsExplained : Tally → Type 0
  IsExplained t = t.0 ≡ explained b t.1

  added :
      (p : ℤ) (r : Reason) (t : Tally)
      → ((x : ℤ) → apply_reason x r ≡ x +ℤ p)
      → IsExplained t
      → IsExplained (signal p r t)
  unfolding IsExplained
  added p r t w h =
      ap (λ x. x +ℤ p) h ∙ sym (w (explained b t.1)) ∙ sym (explained-append_one b t.1 r)

  reset : (t : Tally) → IsExplained (pos 100, t.1 ++ (stop_loss ∷ []))
  unfolding IsExplained
  reset t = sym (explained-append_one b t.1 stop_loss)

  after_override : (o : Option ℤ) (t : Tally) → IsExplained t → IsExplained (override_signal o t)
  unfolding override_signal
  after_override none t h = h
  after_override (some p) t h = ground (arith, added p (custom p) t (λ x. refl) h)

  start : IsExplained (b, [])
  unfolding IsExplained explained
  start = refl

-- Each block of the score keeps the tally explained.
module _ {F : Type 0} ⦃d : Double F⦄ (b : ℤ) (t : Tally) (h : IsExplained b t) where
  after_rsi : (rsi : F) → IsExplained b (rsi_signal rsi t)
  unfolding rsi_signal
  after_rsi rsi =
      let p1 = d.truncate (d.negate (num 20 ⊖ rsi ⊘ num 30 ⊗ num 10)) in
      let p2 = d.truncate (d.negate (num 10 ⊖ (rsi ⊖ num 30) ⊘ num 20 ⊗ num 10)) in
      let p3 = d.truncate ((rsi ⊖ num 50) ⊘ num 20 ⊗ num 10) in
      let p4 = d.truncate (num 10 ⊕ (rsi ⊖ num 70) ⊘ num 30 ⊗ num 10) in
      ground (
        arith,
        added b p1 (rsi_extreme_low p1) t (λ x. refl) h,
        added b p2 (rsi_low p2) t (λ x. refl) h,
        added b p3 (rsi_high p3) t (λ x. refl) h,
        added b p4 (rsi_extreme_high p4) t (λ x. refl) h,
      )

  after_change : (cfg : ScoreSettings F) (c : F) → IsExplained b (change_signal cfg c t)
  unfolding change_signal
  after_change cfg c =
      ground (arith, added b (minus 15) dip t (λ x. refl) h, added b (pos 15) surge t (λ x. refl) h)

  after_dcf : (dcf curr : F) → IsExplained b (dcf_signal dcf curr t)
  unfolding dcf_signal
  after_dcf dcf curr = ground (
    arith,
    added b (minus 25) dcf_under_high t (λ x. refl) h,
    added b (minus 15) dcf_under_mid t (λ x. refl) h,
    added b (minus 10) dcf_under_low t (λ x. refl) h,
    added b (minus 5) dcf_fair t (λ x. refl) h,
    added b (pos 10) dcf_over_low t (λ x. refl) h,
    added b (pos 20) dcf_over_high t (λ x. refl) h,
  )

  after_ema : (e : Option F) (curr : F) → IsExplained b (ema_signal e curr t)
  unfolding ema_signal
  after_ema none curr = h
  after_ema (some e) curr = ground (arith, added b (minus 10) ema_support t (λ x. refl) h)

  after_holding :
      (cfg : ScoreSettings F) (curr : F) (holding : Option (Holding F))
      → IsExplained b (holding_signal cfg curr holding t)
  unfolding holding_signal
  after_holding cfg curr none = h
  after_holding cfg curr (some g) = ground (
    arith,
    added b (pos 30) take_profit t (λ x. refl) h,
    added b (minus 10) add_position t (λ x. refl) h,
    reset b t,
  )

  after_macro : (m : Macro F) → IsExplained b (macro_signal m t)
  unfolding macro_signal
  after_macro m = ground (
    arith,
    added b (minus 30) panic_buy t (λ x. refl) h,
    added b (pos 15) overheated t (λ x. refl) h,
  )

  after_regime : (m : Macro F) → IsExplained b (regime_signal m t)
  unfolding regime_signal
  after_regime m =
      ground (arith, added b (minus 15) bull t (λ x. refl) h, added b (pos 10) bear t (λ x. refl) h)

  after_target_buy : (s : TickerState F) → IsExplained b (target_buy_signal s t)
  unfolding target_buy_signal
  after_target_buy s = ground (arith, added b (minus 30) target_buy t (λ x. refl) h)

  after_target_sell : (s : TickerState F) → IsExplained b (target_sell_signal s t)
  unfolding target_sell_signal
  after_target_sell s = ground (arith, added b (pos 30) target_sell t (λ x. refl) h)

  after_top10 : (cfg : ScoreSettings F) (i : Inputs F) → IsExplained b (top10_signal cfg i t)
  unfolding top10_signal
  after_top10 cfg i =
      let p = pos 0 -ℤ cfg.top10_bonus in ground (arith, added b p (top10 p) t (λ x. refl) h)

  after_sector : (dev : Option F) → IsExplained b (sector_signal dev t)
  unfolding sector_signal
  after_sector none = h
  after_sector (some dev) = ground (
    arith,
    added b (minus 10) sector_under t (λ x. refl) h,
    added b (pos 10) sector_over t (λ x. refl) h,
  )

  after_cash : (i : Inputs F) → IsExplained b (cash_signal i t)
  unfolding cash_signal
  after_cash i = ground (arith, added b (pos 15) cash_short t (λ x. refl) h)

module _ {F : Type 0} ⦃d : Double F⦄ where
  after_ticker_signals :
      (b : ℤ) (cfg : ScoreSettings F) (s : TickerState F) (holding : Option (Holding F)) (t : Tally)
      → IsExplained b t
      → IsExplained b (ticker_signals cfg s holding t)
  unfolding ticker_signals
  after_ticker_signals b cfg s holding t h =
      after_holding b _
        (after_ema b _
          (after_dcf b _ (after_change b _ (after_rsi b t h s.rsi) cfg s.change_rate) s.dcf_value
            s.current_price)
          (ema_at 200 s.ema) s.current_price)
        cfg s.current_price holding

  after_market_signals :
      (b : ℤ) (cfg : ScoreSettings F) (s : TickerState F) (m : Macro F) (i : Inputs F) (t : Tally)
      → IsExplained b t
      → IsExplained b (market_signals cfg s m i t)
  unfolding market_signals
  after_market_signals b cfg s m i t h =
      let h1 = after_regime b _ (after_macro b t h m) m in
      let h2 = after_target_sell b _ (after_target_buy b _ h1 s) s in
      let h3 = after_override b i.override _ (after_top10 b _ h2 cfg i) in
      after_cash b _ (after_sector b _ h3 i.sector_dev) i

  -- Outside the early returns the reasons account for the score: it is the base score, changed by
  -- each reason in turn, and brought into the range from 0 to 100. Each reason adds its points, but
  -- for a reached stop loss, which sets the score to 100 for the reasons that follow.
  pub calculate_score-explained :
      (cfg : ScoreSettings F) (s : TickerState F) (holding : Option (Holding F)) (m : Macro F)
      (i : Inputs F)
      → (s.current_price ≤? nought) ≡ false
      → i.panic_locked ≡ false
      → let (score, reasons) = calculate_score cfg s holding m i in
        score ≡ clamp (explained cfg.base_score reasons)
  unfolding calculate_score IsExplained
  calculate_score-explained cfg s holding m i p l =
      simp (p, l)
        (ap clamp (
          after_market_signals cfg.base_score cfg s m i _
            (after_ticker_signals cfg.base_score cfg s holding _ (start cfg.base_score))))

  -- On every path the score lies between 0 and 100.
  pub calculate_score_range :
      (cfg : ScoreSettings F) (s : TickerState F) (holding : Option (Holding F)) (m : Macro F)
      (i : Inputs F)
      → (pos 0 ≤ℤ (calculate_score cfg s holding m i).0)
        × ((calculate_score cfg s holding m i).0 ≤ℤ pos 100)
  unfolding calculate_score clamp
  calculate_score_range cfg s holding m i = ground arith
