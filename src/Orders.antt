-- ===== src/Orders.antt =====
-- `sell_single_holding` and `execute_mass_sell` of services/trading/order_service.py. The broker is an
-- argument: it answers an order, and may look at the orders that were sent before it.
pub mod Counts
mod Tests
use stock_advisor.Prelude.{
  ◌++◌, Bool, List, Option, String, [], false, if◌then◌else◌, none, not, some, suc, true, ℕ, ◌∷◌,
}
use stock_advisor.Floats.{Double, nought, ◌≤?◌}
use stock_advisor.Portfolio.Holding.{Holding}
use mathlib.Core.List.{foldl}
use stock_advisor.Markets.{is_kr}

-- A market order for a domestic ticker, or an order at a price.
pub record SellOrder (F : Type 0) : Type 0 where
  pub ticker : String
  pub quantity : F
  pub limit : Option F

-- The answer of the broker: `success`, another status, or an exception on the way.
pub data Reply : Type 0 where
  success refused crash : Reply

-- What `execute_mass_sell` returns, with the orders that were sent, newest first.
pub record MassSale (F : Type 0) : Type 0 where
  pub success_count : ℕ
  pub fail_count : ℕ
  pub failed_tickers : List String
  pub sent : List (SellOrder F)

abbrev pub is_success : Reply → Bool
is_success success = true
is_success refused = false
is_success crash = false

module _ {F : Type 0} ⦃d : Double F⦄ (broker : List (SellOrder F) → SellOrder F → Reply) where
  abbrev send : SellOrder F → List (SellOrder F) → Reply × List (SellOrder F)
  send order sent = (broker sent order, order ∷ sent)

  -- The comparison of a missing price with 0 raises a `TypeError`.
  unfoldable pub sell_single_holding : Holding F → List (SellOrder F) → Reply × List (SellOrder F)
  sell_single_holding h sent =
      if not (is_kr h.ticker)
      then (elim h.current_price [
        | none ↦ (crash, sent)
        | some price ↦
            if price ≤? nought
            then (refused, sent)
            else send
                (record {
                  ticker = h.ticker;
                  quantity = h.quantity;
                  limit = some (d.round price 2);
                })
                sent
      ])
      else send (record { ticker = h.ticker; quantity = h.quantity; limit = none }) sent

  -- One round of the loop; a refusal and an exception count alike.
  unfoldable pub sell_step : MassSale F → Holding F → MassSale F
  sell_step m h =
      if h.quantity ≤? nought
      then m
      else (let result = sell_single_holding h m.sent in
          if is_success result.0
          then record m { success_count = suc m.success_count; sent = result.1 }
          else record m {
            fail_count = suc m.fail_count;
            failed_tickers = m.failed_tickers ++ (h.ticker ∷ []);
            sent = result.1;
          })

  unfoldable pub execute_mass_sell : List (Holding F) → List (SellOrder F) → MassSale F
  execute_mass_sell hs sent =
      foldl sell_step
        (record { success_count = 0; fail_count = 0; failed_tickers = []; sent = sent }) hs
