-- ===== src/MarketData/Loading.antt =====
-- How services/market/market_data_service.py fills the state of one ticker: from the row of the
-- database, or from the broker's price and the history of closes.
pub mod Readiness
use stock_advisor.Prelude.{
  ℕ, ◌&&◌, ◌==◌, Bool, List, Option, String, [], false, if◌then◌else◌, leb, map, none, some, str_eq,
  ◌||◌, ◌∷◌, length,
}
use stock_advisor.Floats.{◌<?◌, Double, nought, truthy, ◌≤?◌, ◌⊗◌, num}
use stock_advisor.Tickers.State.{TickerState, ema_at, get_or, long_ema, update_indicators}
use stock_advisor.Prelude.Int.{leb_ℤ, pos, ℤ}

-- The latest row of financial data, with its age in seconds.
pub record Financials (F : Type 0) : Type 0 where
  pub age : ℤ
  pub row_name : String
  pub row_price : Option F
  pub row_emas : List (ℕ × Option F)
  pub row_dcf : Option F
  pub row_rsi : Option F

-- What the downloads of a full warm-up give: the broker's price, the closes (newest first), their
-- exponential averages and their last RSI (none if it is NaN), and the value by cash flows.
pub record Warmup (F : Type 0) : Type 0 where
  pub basic_price : Option F
  pub history : List F
  pub ewm : ℕ → F
  pub last_rsi : Option F
  pub dcf_val : F

module _ {F : Type 0} ⦃d : Double F⦄ where
  -- The last of `ema.get(200) or ema.get(120) or ema.get(60)`, zeros passed over except in the end.
  unfoldable pub has_minimum_indicators : TickerState F → Bool
  has_minimum_indicators s =
      if s.current_price ≤? nought
      then false
      else if s.rsi ≤? nought
      then false
      else elim (long_ema s) [ none ↦ false | some v ↦ truthy v && nought <? v ]

  -- The prices to buy and to sell at, from the average of 200 days unless that is missing or 0.
  unfoldable pub set_targets : Option F → TickerState F → TickerState F
  set_targets none s = s
  set_targets (some v) s =
      if truthy v
      then record s {
        target_buy_price = d.round (v ⊗ d.decimal (pos 101) 2) 2;
        target_sell_price = d.round (v ⊗ d.decimal (pos 115) 2) 2;
      }
      else s

  unfoldable pub apply_row : Financials F → TickerState F → TickerState F
  apply_row f s =
      let named = record s { name = if str_eq f.row_name "" then s.name else f.row_name } in
      let priced = record named { current_price = get_or f.row_price nought } in
      let updated = update_indicators priced f.row_emas f.row_dcf f.row_rsi in
      set_targets (ema_at 200 updated.ema) updated

  -- A row of a day ago or older changes nothing.
  unfoldable pub load_indicators_from_db : Financials F → TickerState F → Bool × TickerState F
  load_indicators_from_db f s =
      let loaded = apply_row f s in
      if leb_ℤ (pos 86400) f.age then (false, s) else (has_minimum_indicators loaded, loaded)

  -- `compute_latest_indicators_snapshot`: an average over more days than there are is missing.
  unfoldable pub span_value : Warmup F → ℕ → ℕ × Option F
  span_value w span =
      (span, if leb span (length w.history) then some (d.round (w.ewm span) 2) else none)

  unfoldable pub snapshot_emas : Warmup F → List (ℕ × Option F)
  snapshot_emas w = map (span_value w) (5 ∷ 10 ∷ 20 ∷ 60 ∷ 100 ∷ 120 ∷ 200 ∷ [])

  unfoldable pub snapshot_rsi : Warmup F → F
  snapshot_rsi w = elim w.last_rsi [ none ↦ num 50 | some x ↦ d.round x 2 ]

  unfoldable pub warmup_price : Warmup F → F → F
  warmup_price w last_close =
      let basic_price = get_or w.basic_price nought in
      if nought <? basic_price then basic_price else last_close

  -- `_full_api_warmup`; without a history the state stays.
  unfoldable pub apply_history : Warmup F → List F → TickerState F → TickerState F
  apply_history w [] s = s
  apply_history w (last ∷ rest) s =
      let priced = record s {
        prev_close = elim rest [ [] ↦ last | prev ∷ older ↦ prev ];
        current_price = warmup_price w last;
      } in
      set_targets (span_value w 200).1
        (update_indicators priced (snapshot_emas w) (some w.dcf_val) (some (snapshot_rsi w)))

  unfoldable pub full_api_warmup : Warmup F → TickerState F → TickerState F
  full_api_warmup w s = apply_history w w.history s
