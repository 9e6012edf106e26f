-- ===== src/Tickers/Indicators.antt =====
-- Laws of the indicator updates of `TickerState`.
use stock_advisor.Prelude.{
  ◌==◌, List, [], arith, if◌then◌else◌, map, none, refl, some, ℕ, ◌∷◌, ◌≡◌, Option, ap, ◌∙◌,
}
use stock_advisor.Floats.{Double, nought, ◌≤?◌}
use stock_advisor.Tickers.State.{
  TickerState, ema_at, next_ema, recalculate_indicators, set_ema, merge_emas, update_indicators,
}

module _ {F : Type 0} ⦃d : Double F⦄ where
  ema_at-map :
      (n : ℕ) (price : F) (ema : List (ℕ × F))
      → ema_at n (map (λ (k, v). (k, next_ema price k v)) ema)
        ≡ elim (ema_at n ema) [ none ↦ none | some v ↦ some (next_ema price n v) ]
  unfolding ema_at
  ema_at-map n price [] = refl
  ema_at-map n price ((k, v) ∷ rest) = ground (arith, ema_at-map n price rest)

  -- A recalculation moves every average one step towards a positive price, each by its own period,
  -- and neither adds nor drops one; at a price that is not positive it changes nothing.
  pub ema_at-recalculate_indicators :
      (s : TickerState F) (n : ℕ)
      → ema_at n (recalculate_indicators s).ema ≡ (
          if s.current_price ≤? nought
          then ema_at n s.ema
          else elim (ema_at n s.ema) [ none ↦ none | some v ↦ some (next_ema s.current_price n v) ])
  unfolding recalculate_indicators
  ema_at-recalculate_indicators s n = ground (arith, ema_at-map n s.current_price s.ema)

  ema_at-set_ema :
      (n k : ℕ) (v : F) (ema : List (ℕ × F))
      → ema_at n (set_ema k v ema) ≡ (if k == n then some v else ema_at n ema)
  unfolding ema_at set_ema
  ema_at-set_ema n k v [] = refl
  ema_at-set_ema n k v ((j, w) ∷ rest) = ground (arith, ema_at-set_ema n k v rest)

  -- What is found under a period after a merge: the last value given for it, or else the old one.
  abbrev pub last_value : ℕ → List (ℕ × Option F) → Option F → Option F
  last_value n [] old = old
  last_value n ((k, none) ∷ rest) old = last_value n rest old
  last_value n ((k, some v) ∷ rest) old = last_value n rest (if k == n then some v else old)

  ema_at-merge_emas :
      (n : ℕ) (emas : List (ℕ × Option F)) (ema : List (ℕ × F))
      → ema_at n (merge_emas emas ema) ≡ last_value n emas (ema_at n ema)
  unfolding merge_emas
  ema_at-merge_emas n [] ema = refl
  ema_at-merge_emas n ((k, none) ∷ rest) ema = ema_at-merge_emas n rest ema
  ema_at-merge_emas n ((k, some v) ∷ rest) ema =
      ema_at-merge_emas n rest (set_ema k v ema) ∙ ap (last_value n rest) (ema_at-set_ema n k v ema)

  -- After `update_indicators` each average is the last value given for its period, or else the old
  -- one; the price fields are untouched.
  pub ema_at-update_indicators :
      (s : TickerState F) (emas : List (ℕ × Option F)) (dcf rsi : Option F) (n : ℕ)
      → (ema_at n (update_indicators s emas dcf rsi).ema ≡ last_value n emas (ema_at n s.ema))
        × ((update_indicators s emas dcf rsi).current_price ≡ s.current_price)
  unfolding update_indicators
  ema_at-update_indicators s emas dcf rsi n = (ema_at-merge_emas n emas s.ema, refl)
