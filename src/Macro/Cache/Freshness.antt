-- ===== src/Macro/Cache/Freshness.antt =====
-- The states that calls of the macro service reach, the age of what they return, and the effect of a
-- stored day on the next threshold.
use stock_advisor.Prelude.{
  ℕ, List, Option, none, some, true, ◌≡◌, ◌⊎◌, Option-cases, arith, inl, inr, refl, String, [],
  get_elem?, take, ◌∷◌, Bool, ap, eq_iff, ◌∙◌,
}
use stock_advisor.Floats.{Double, num}
use stock_advisor.Macro.Cache.{
  Download, MacroData, MacroState, fetch_data, fresh_data, get_macro_data, invalidate_cache,
  refresh_on_release, stored_fear_greed, stored_vix,
}
use stock_advisor.Macro.History.{
  HistoryRow, UpTo, get_market_regime_history, statuses, newest, newest_first, newest-write_row,
  row_of, save_market_regime,
}
use stock_advisor.Macro.Regime.{bear_threshold_of, status_report, bear_rows, Regime}
use stock_advisor.Prelude.Int.{pos, ◌≤ℤ◌, ℤ}

bear_threshold-first :
    (o : Option String) (rows : List (Option String))
    → o ≡ some "Bear"
    → pos 44 ≤ℤ bear_threshold_of (o ∷ rows)
unfolding bear_threshold_of bear_rows
bear_threshold-first none rows e = ground (arith, e)
bear_threshold-first (some s) [] e = ground (arith, e, eq_iff s "Bear")
bear_threshold-first (some s) (p ∷ rows) e = ground (arith, e, eq_iff s "Bear")

module _ {F : Type 0} ⦃d : Double F⦄ where
  -- The states that any sequence of calls leads to, from an empty cache and any history.
  pub data Reached : MacroState F → Type 0 where
    start : (rows : List (HistoryRow F)) → Reached (record { cache = none; history = rows })
    requested : (w : Download F) (s : MacroState F) → Reached s → Reached (get_macro_data w s).1
    invalidated : (s : MacroState F) → Reached s → Reached (invalidate_cache s)
    refreshed : (w : Download F) (s : MacroState F) → Reached s → Reached (refresh_on_release w s).1

  -- What is cached carries the time at which it was put there.
  abbrev pub IsStamped : MacroState F → Type 0
  IsStamped s = (x : MacroData F) (t : F) → s.cache ≡ some (x, t) → x.timestamp ≡ t

  get_macro_data-IsStamped :
      (w : Download F) (s : MacroState F) → IsStamped s → IsStamped (get_macro_data w s).1
  unfolding get_macro_data fetch_data fresh_data
  get_macro_data-IsStamped w s p x t e = elim (Option-cases s.cache) [
    | inl n ↦ ground (arith, e, n)
    | inr ((y, u), h) ↦ ground (arith, e, h, p y u h)
  ]

  empty-IsStamped : (s : MacroState F) → s.cache ≡ none → IsStamped s
  empty-IsStamped s n x t e = ground (arith, n, e)

  Reached-IsStamped : (s : MacroState F) → Reached s → IsStamped s
  unfolding invalidate_cache refresh_on_release
  Reached-IsStamped s (Reached.start rows) =
      empty-IsStamped (record { cache = none; history = rows }) refl
  Reached-IsStamped s (Reached.requested w s' r) =
      get_macro_data-IsStamped w s' (Reached-IsStamped s' r)
  Reached-IsStamped s (Reached.invalidated s' r) = empty-IsStamped (invalidate_cache s') refl
  Reached-IsStamped s (Reached.refreshed w s' r) =
      get_macro_data-IsStamped w (invalidate_cache s') (empty-IsStamped (invalidate_cache s') refl)

  -- In every state that calls of get_macro_data, invalidate_cache and refresh_on_release lead to
  -- from an empty cache, get_macro_data answers data that carries the time of the call, or a time
  -- from which less than 3600 seconds have passed.
  pub get_macro_data-IsFresh :
      (w : Download F) (s : MacroState F)
      → Reached s
      → let data' = (get_macro_data w s).0 in
        (data'.timestamp ≡ w.now) ⊎ (d.lt (d.sub w.now data'.timestamp) (num 3600) ≡ true)
  unfolding get_macro_data fetch_data fresh_data
  get_macro_data-IsFresh w s r = elim (Option-cases s.cache) [
    | inl n ↦ ground (arith, n)
    | inr ((y, u), h) ↦ ground (arith, h, Reached-IsStamped s r y u h)
  ]

  -- A refresh answers freshly computed data, and leaves them in the cache.
  pub refresh_on_release-recomputes :
      (w : Download F) (s : MacroState F)
      → (refresh_on_release w s).0 ≡ fresh_data w s.history
        × ((refresh_on_release w s).1.cache ≡ some (fresh_data w s.history, w.now))
  unfolding refresh_on_release invalidate_cache get_macro_data fetch_data
  refresh_on_release-recomputes w s = (refl, refl)

  first_row :
      (rows : List (HistoryRow F)) (r : HistoryRow F)
      → get_elem? rows 0 ≡ some r
      → r.row_status ≡ some "Bear"
      → pos 44 ≤ℤ bear_threshold_of (statuses (take 70 rows))
  first_row [] r e b = ground (arith, e)
  first_row (x ∷ rows) r e b =
      bear_threshold-first x.row_status (statuses (take 69 rows)) (ground (arith, e, b))

  bear_threshold-newest :
      (rows : List (HistoryRow F)) (r : HistoryRow F)
      → newest rows ≡ some r
      → r.row_status ≡ some "Bear"
      → pos 44 ≤ℤ bear_threshold_of (statuses (get_market_regime_history true 70 rows))
  unfolding newest get_market_regime_history
  bear_threshold-newest rows r e b = first_row (newest_first rows) r e b

  row_of-status :
      (today : ℕ) (regime : Regime F) (vix : F) (fear_greed : ℤ)
      → (row_of today regime vix fear_greed).row_status ≡ some (status_report regime).0
  unfolding row_of status_report
  row_of-status today Regime.unknown vix fear_greed = refl
  row_of-status today (Regime.scored r) vix fear_greed = refl

  newest-save_market_regime :
      (today : ℕ) (regime : Regime F) (vix : F) (fear_greed : ℤ) (rows : List (HistoryRow F))
      → UpTo today rows
      → newest (save_market_regime true today regime vix fear_greed rows)
        ≡ some (row_of today regime vix fear_greed)
  unfolding save_market_regime row_of
  newest-save_market_regime today Regime.unknown vix fear_greed rows p =
      newest-write_row (row_of today Regime.unknown vix fear_greed) rows p
  newest-save_market_regime today (Regime.scored r) vix fear_greed rows p =
      newest-write_row (row_of today (Regime.scored r) vix fear_greed) rows p

  -- Where no stored row is of a later day and the database answers, a refresh whose market status
  -- is "Bear" raises the bear threshold that the next computation reads from the history to at
  -- least 44.
  pub bear_threshold-refresh :
      (w : Download F) (s : MacroState F)
      → UpTo w.today s.history
      → w.db_ok ≡ true
      → (status_report (refresh_on_release w s).0.market_regime).0 ≡ "Bear"
      → pos 44
        ≤ℤ bear_threshold_of
            (statuses (get_market_regime_history true 70 (refresh_on_release w s).1.history))
  unfolding refresh_on_release invalidate_cache get_macro_data fetch_data
  bear_threshold-refresh w s p q r =
      let vix = stored_vix w.vix in
      let fear_greed = stored_fear_greed w.fear_greed in
      let regime = (fresh_data w s.history).market_regime in
      let saved = λ (b : Bool). save_market_regime b w.today regime vix fear_greed s.history in
      let row = row_of w.today regime vix fear_greed in
      bear_threshold-newest (saved w.db_ok) row
        (ap (λ b. newest (saved b)) q
          ∙ newest-save_market_regime w.today regime vix fear_greed s.history p)
        (row_of-status w.today regime vix fear_greed ∙ ap (λ x. some x) r)
