-- ===== src/Scheduler/Polling/Tiers.antt =====
-- What the polling of services/base/scheduler_service.py can change.
-- The test comes to this: the market of the ticker is open.
use stock_advisor.Floats.{Double, ◌<?◌, nought}
use stock_advisor.MarketData.Registry.{OpenMarkets, update_price_from_sync, States, tickers_of_tier}
use stock_advisor.Prelude.{
  Option, String, arith, false, if◌then◌else◌, str_eq, ◌≡◌, ◌&&◌, ◌+◌, Bool-cases, List,
  Option-cases, [], if_elim, length, member, not, option_elim, refl, suc, ◌∙◌, ◌∷◌, ◌≤◌,
}
use stock_advisor.Scheduler.Polling.{
  Polled, Quote, is_polled, poll_ticker, active_tickers, poll_each, refresh_low_tier_prices,
}
use stock_advisor.Markets.{is_kr}
use stock_advisor.Prelude.Dict.{lookup, Dict, insert, lookup-insert}
use stock_advisor.Tickers.State.{TickerState}
use stock_advisor.Strategy.Sectors.{price_or}
use stock_advisor.MarketData.Registry.Entries.{member-filter}

is_polled-open :
    (m : OpenMarkets) (t : String)
    → is_polled m t ≡ (if is_kr t then m.is_kr_open else m.is_us_open)
unfolding is_polled
is_polled-open m t = ground arith

active_tickers-closed :
    (m : OpenMarkets) (tiers : Dict String) (j : String)
    → (if is_kr j then m.is_kr_open else m.is_us_open) ≡ false
    → member j (active_tickers m tiers) ≡ false
unfolding active_tickers
active_tickers-closed m tiers j e =
    let P : List String → Type 0 = λ ts. member j ts ≡ false in
    let low = tickers_of_tier "low" tiers in
    if_elim P (not m.is_kr_open && not m.is_us_open) _ _ refl (
      ground (
        arith,
        e,
        member-filter (is_polled m) j low,
        is_polled-open m j,
        Bool-cases (member j low),
      ))

module _ {F : Type 0} ⦃d : Double F⦄ where
  lookup-insert_other :
      (t j : String) (s : TickerState F) (states : States F)
      → str_eq t j ≡ false
      → lookup j (insert t s states) ≡ lookup j states
  lookup-insert_other t j s states e = ground (arith, e, lookup-insert t j s states)

  update_price_from_sync-other :
      (t j : String) (price : F) (rate : Option F) (states : States F)
      → str_eq t j ≡ false
      → lookup j (update_price_from_sync t price rate states) ≡ lookup j states
  unfolding update_price_from_sync
  update_price_from_sync-other t j price rate states e =
      let P : States F → Type 0 = λ after. lookup j after ≡ lookup j states in
      option_elim P (lookup t states) _ _ refl
        (λ s. if_elim P (nought <? price) _ _ (lookup-insert_other t j _ states e) refl)

  poll_ticker-other :
      (broker : String → Option (Quote F)) (t j : String) (p : Polled F)
      → str_eq t j ≡ false
      → lookup j (poll_ticker broker t p).states ≡ lookup j p.states
  unfolding poll_ticker
  poll_ticker-other broker t j p e =
      let P : Polled F → Type 0 = λ after. lookup j after.states ≡ lookup j p.states in
      option_elim P (broker t) _ _ refl (λ q.
        let price = price_or q.price nought in
        if_elim P (nought <? price) _ _ (update_price_from_sync-other t j price _ p.states e) refl)

  poll_ticker-counts :
      (broker : String → Option (Quote F)) (t : String) (p : Polled F)
      → let after = poll_ticker broker t p in after.success + after.fail ≤ suc (p.success + p.fail)
  unfolding poll_ticker
  poll_ticker-counts broker t p = ground (arith, Option-cases (broker t))

  poll_each-other :
      (broker : String → Option (Quote F)) (j : String) (ts : List String) (p : Polled F)
      → member j ts ≡ false
      → lookup j (poll_each broker ts p).states ≡ lookup j p.states
  unfolding poll_each
  poll_each-other broker j [] p e = refl
  poll_each-other broker j (t ∷ ts) p e =
      poll_each-other broker j ts (poll_ticker broker t p)
        (ground (arith, e, Bool-cases (str_eq t j)))
      ∙ poll_ticker-other broker t j p (ground (arith, e, Bool-cases (str_eq t j)))

  poll_each-counts :
      (broker : String → Option (Quote F)) (ts : List String) (p : Polled F)
      → let after = poll_each broker ts p in
        after.success + after.fail ≤ length ts + (p.success + p.fail)
  unfolding poll_each
  poll_each-counts broker [] p = omega arith
  poll_each-counts broker (t ∷ ts) p =
      omega
        (arith, poll_ticker-counts broker t p, poll_each-counts broker ts (poll_ticker broker t p))

  -- While the market of a ticker is closed the polling of the low tier leaves its state as it is;
  -- the successes and failures together are at most as many as the tickers that are polled.
  pub refresh_low_tier_prices-closed :
      (m : OpenMarkets) (broker : String → Option (Quote F)) (tiers : Dict String)
      (states : States F) (j : String)
      → (if is_kr j then m.is_kr_open else m.is_us_open) ≡ false
      → let after = refresh_low_tier_prices m broker tiers states in
        (lookup j after.states ≡ lookup j states)
        × (after.success + after.fail ≤ length (active_tickers m tiers))
  unfolding refresh_low_tier_prices
  refresh_low_tier_prices-closed m broker tiers states j e =
      let start : Polled F = record { states = states; success = 0; fail = 0 } in
      (
        poll_each-other broker j (active_tickers m tiers) start (active_tickers-closed m tiers j e),
        omega (arith, poll_each-counts broker (active_tickers m tiers) start),
      )
