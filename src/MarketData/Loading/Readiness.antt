-- ===== src/MarketData/Loading/Readiness.antt =====
-- When a state is ready for the strategy: the two tests of it agree, and a warm-up with data reaches
-- it.
use stock_advisor.Prelude.{
  ℕ, List, Option, Option-cases, arith, inl, inr, not, some, ◌≡◌, [], length, true, ◌≤◌, ◌==◌,
  Bool-cases, false, if◌then◌else◌, leb, map, refl, ◌∷◌, ap, none, ◌∙◌,
}
use stock_advisor.Floats.{Double, nought, truthy}
use stock_advisor.Tickers.State.{TickerState, ema_at, is_ready, long_ema, update_indicators}
use stock_advisor.MarketData.Loading.{
  has_minimum_indicators, Warmup, snapshot_emas, span_value, full_api_warmup, set_targets,
  snapshot_rsi, warmup_price, apply_history,
}
use stock_advisor.Tickers.Indicators.{last_value, ema_at-update_indicators}

module _ {F : Type 0} ⦃d : Double F⦄ where
  -- If the long average of a state is not NaN, that is, if it is above 0 exactly when it is not
  -- at most 0, then _has_minimum_indicators and TickerState.is_ready agree.
  pub has_minimum_indicators-is_ready :
      (s : TickerState F)
      → ((v : F) → long_ema s ≡ some v → d.lt nought v ≡ not (d.le v nought))
      → has_minimum_indicators s ≡ is_ready s
  unfolding has_minimum_indicators is_ready
  has_minimum_indicators-is_ready s p = elim (Option-cases (long_ema s)) [
    | inl n ↦ ground (arith, n)
    | inr (v, e) ↦ ground (arith, e, p v e)
  ]

  -- What a snapshot over given spans stores under a span.
  abbrev last_span : Warmup F → ℕ → List ℕ → Option F → Option F
  last_span w n [] old = old
  last_span w n (k ∷ ks) old =
      last_span w n ks (
        if k == n
        then if leb k (length w.history) then some (d.round (w.ewm k) 2) else old
        else old)

  last_value-span :
      (w : Warmup F) (n : ℕ) (ks : List ℕ) (old : Option F)
      → last_value n (map (span_value w) ks) old ≡ last_span w n ks old
  unfolding span_value
  last_value-span w n [] old = refl
  last_value-span w n (k ∷ ks) old = elim (Bool-cases (leb k (length w.history))) [
    | inl e ↦
        ground
          (arith, e, last_value-span w n ks (if k == n then some (d.round (w.ewm k) 2) else old))
    | inr e ↦ ground (arith, e, last_value-span w n ks old)
  ]

  -- A positive number, as the comparisons with 0 see it.
  pub record IsPositive (x : F) : Type 0 where
    pub is_truthy : truthy x ≡ true
    pub above : d.lt nought x ≡ true
    pub not_below : d.le x nought ≡ false

  is_ready-set_targets :
      (o : Option F) (s : TickerState F) → is_ready (set_targets o s) ≡ is_ready s
  unfolding set_targets is_ready long_ema
  is_ready-set_targets none s = refl
  is_ready-set_targets (some v) s = ground (arith, Bool-cases (truthy v))

  is_ready-positive :
      (s : TickerState F) (v : F)
      → IsPositive s.current_price
      → IsPositive s.rsi
      → long_ema s ≡ some v
      → IsPositive v
      → is_ready s ≡ true
  unfolding is_ready
  is_ready-positive s v p r e t =
      ground (arith, e, p.not_below, r.not_below, t.not_below, t.is_truthy)

  long_ema-spans :
      (w : Warmup F) (s : TickerState F)
      → ((n : ℕ) → ema_at n s.ema ≡ last_span w n (5 ∷ 10 ∷ 20 ∷ 60 ∷ 100 ∷ 120 ∷ 200 ∷ []) none)
      → 60 ≤ length w.history
      → ((n : ℕ) → IsPositive (d.round (w.ewm n) 2))
      → (n : ℕ) × (long_ema s ≡ some (d.round (w.ewm n) 2))
  unfolding long_ema
  long_ema-spans w s e l t = elim (Bool-cases (leb 200 (length w.history))) [
    | inl a ↦ (200, ground (arith, e 200, a, (t 200).is_truthy))
    | inr a ↦ elim (Bool-cases (leb 120 (length w.history))) [
      | inl b ↦ (120, ground (arith, e 200, e 120, a, b, (t 120).is_truthy))
      | inr b ↦ (60, ground (arith, e 200, e 120, e 60, a, b, l, (t 60).is_truthy))
    ]
  ]

  -- For a state without averages and a history of at least 60 closes, a full warm-up leaves the
  -- state ready if the price that it takes, its RSI and the rounded averages are positive.
  pub full_api_warmup-is_ready :
      (w : Warmup F) (s : TickerState F) (last : F) (rest : List F)
      → s.ema ≡ []
      → w.history ≡ last ∷ rest
      → 60 ≤ length w.history
      → IsPositive (warmup_price w last)
      → IsPositive (snapshot_rsi w)
      → ((n : ℕ) → IsPositive (d.round (w.ewm n) 2))
      → is_ready (full_api_warmup w s) ≡ true
  unfolding full_api_warmup apply_history snapshot_emas update_indicators ema_at
  full_api_warmup-is_ready w s last rest e h l p r t =
      let priced = record s {
        prev_close = elim rest as (λ x. F) [ [] ↦ last | prev ∷ older ↦ prev ];
        current_price = warmup_price w last;
      } in
      let s' =
        update_indicators priced (snapshot_emas w) (some w.dcf_val) (some (snapshot_rsi w)) in
      let spans : List ℕ = 5 ∷ 10 ∷ 20 ∷ 60 ∷ 100 ∷ 120 ∷ 200 ∷ [] in
      let emas = snapshot_emas w in
      let stored : (n : ℕ) → ema_at n s'.ema ≡ last_span w n spans none = λ n.
        (ema_at-update_indicators priced emas (some w.dcf_val) (some (snapshot_rsi w)) n).0
        ∙ ap (λ old. last_value n emas (ema_at n old)) e
        ∙ last_value-span w n spans none in
      let found = long_ema-spans w s' stored l t in
      ap (λ x. is_ready (apply_history w x s)) h
      ∙ is_ready-set_targets (span_value w 200).1 s'
      ∙ is_ready-positive s' (d.round (w.ewm found.0) 2) p r found.1 (t found.0)
