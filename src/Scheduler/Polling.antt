-- ===== src/Scheduler/Polling.antt =====
-- The jobs of services/base/scheduler_service.py that look at prices: the polling of the low tier, the
-- hourly gainers, the report on tick trading, and the view of all cached prices. The answers of the
-- broker are an argument; `none` is an exception. Texts are left out.
pub mod Tiers
use stock_advisor.Prelude.{
  ◌&&◌, Bool, List, Option, String, [], filter, if◌then◌else◌, map, none, not, some, str_eq, suc,
  true, ◌||◌, ℕ, ◌∷◌,
}
use stock_advisor.Floats.{◌<?◌, Double, nought, num, ◌≤?◌, ◌⊖◌, ◌⊗◌, ◌⊘◌}
use stock_advisor.Prelude.Dict.{Dict, lookup}
use stock_advisor.Portfolio.Holding.{Holding, held}
use stock_advisor.MarketData.Registry.{
  OpenMarkets, States, get_tier, tickers_of_tier, update_price_from_sync,
}
use stock_advisor.Tickers.State.{TickerState, ema_at}
use stock_advisor.Strategy.Universe.{clean}
use stock_advisor.Prelude.Int.{eq_ℤ, pos, ℤ}
use stock_advisor.Markets.{is_kr}
use stock_advisor.Strategy.Sectors.{price_or}

-- The test of the loop that picks the tickers to poll.
unfoldable pub is_polled : OpenMarkets → String → Bool
is_polled m t =
    if is_kr t && m.is_kr_open && not m.is_us_open
    then true
    else if not (is_kr t) && m.is_us_open && not m.is_kr_open
    then true
    else if is_kr t && m.is_kr_open
    then true
    else not (is_kr t) && m.is_us_open

-- `active_tickers`: nothing while both markets are closed.
unfoldable pub active_tickers : OpenMarkets → Dict String → List String
active_tickers m tiers =
    if not m.is_kr_open && not m.is_us_open
    then []
    else filter (is_polled m) (tickers_of_tier "low" tiers)

-- An answer of the broker, with the fields that it has.
pub record Quote (F : Type 0) : Type 0 where
  pub price : Option F
  pub rate : Option F
  pub change_rate : Option F

pub record Polled (F : Type 0) : Type 0 where
  pub states : States F
  pub success : ℕ
  pub fail : ℕ

pub record Gainer (F : Type 0) : Type 0 where
  pub holding : Holding F
  pub price : F
  pub change : F

-- What the report on tick trading comes to.
pub data TickReport (F : Type 0) : Type 0 where
  skipped : TickReport F
  not_held : String → TickReport F
  reported : String → F → F → TickReport F

pub record CachedPrice (F : Type 0) : Type 0 where
  pub state : TickerState F
  pub change : F
  pub emas : List (Option F)
  pub tier : String

module _ {F : Type 0} ⦃d : Double F⦄ where
  -- One round of the loop over the tickers.
  unfoldable pub poll_ticker : (String → Option (Quote F)) → String → Polled F → Polled F
  poll_ticker broker t p = elim (broker t) [
    | none ↦ record p { fail = suc p.fail }
    | some q ↦
        let price = price_or q.price nought in
        let change_rate = price_or q.rate (price_or q.change_rate nought) in
        if nought <? price
        then record p {
          states = update_price_from_sync t price (some change_rate) p.states;
          success = suc p.success;
        }
        else p
  ]

  unfoldable pub poll_each : (String → Option (Quote F)) → List String → Polled F → Polled F
  poll_each broker [] p = p
  poll_each broker (t ∷ ts) p = poll_each broker ts (poll_ticker broker t p)

  -- `_refresh_low_tier_prices`
  unfoldable pub refresh_low_tier_prices :
      OpenMarkets → (String → Option (Quote F)) → Dict String → States F → Polled F
  refresh_low_tier_prices m broker tiers states =
      poll_each broker (active_tickers m tiers) (record { states = states; success = 0; fail = 0 })

  -- The gainers of `check_portfolio_hourly`.
  unfoldable pub gainers : States F → List (Holding F) → List (Gainer F)
  gainers states [] = []
  gainers states (h ∷ hs) =
      let rest = gainers states hs in
      elim (lookup h.ticker states) [
        | none ↦ rest
        | some s ↦
            if nought <? s.change_rate
            then record { holding = h; price = s.current_price; change = s.change_rate } ∷ rest
            else rest
      ]

  -- The price of a holding, or else the live one.
  unfoldable pub tick_price : Holding F → States F → F
  tick_price h states =
      let stored = price_or h.current_price nought in
      if stored ≤? nought
      then (elim (lookup h.ticker states) [
        | none ↦ stored
        | some s ↦ if nought <? s.current_price then s.current_price else stored
      ])
      else stored

  -- `report_tick_trade_status`, with the setting of the switch and of the ticker, and the synced
  -- holdings.
  unfoldable pub report_tick_trade_status :
      ℤ → Option String → List (Holding F) → States F → TickReport F
  report_tick_trade_status enabled setting holdings states =
      let ticker = clean setting in
      if not (eq_ℤ enabled (pos 1)) || str_eq ticker ""
      then skipped
      else (elim (held ticker holdings) [
        | none ↦ not_held ticker
        | some h ↦
            let price = tick_price h states in
            if h.quantity ≤? nought || h.buy_price ≤? nought || price ≤? nought
            then skipped
            else reported ticker ((price ⊖ h.buy_price) ⊘ h.buy_price ⊗ num 100)
                ((price ⊖ h.buy_price) ⊗ h.quantity)
      ])

  -- `get_all_cached_prices`
  unfoldable pub cached_item : Dict String → TickerState F → String → CachedPrice F
  cached_item tiers s ticker = record {
    state = s;
    change = (if nought <? s.prev_close then s.current_price ⊖ s.prev_close else nought);
    emas = map (λ n. ema_at n s.ema) (5 ∷ 10 ∷ 20 ∷ 60 ∷ 120 ∷ 200 ∷ []);
    tier = get_tier ticker tiers;
  }

  unfoldable pub get_all_cached_prices : Dict String → States F → Dict (CachedPrice F)
  get_all_cached_prices tiers states = map (λ e. (e.0, cached_item tiers e.1 e.0)) states
