-- ===== src/Orders/Counts.antt =====
-- What the counts of a mass sale say.
use stock_advisor.Prelude.{
  ◌+◌, Bool, List, Option-cases, [], arith, filter, if◌then◌else◌, length, length-append, not, ℕ,
  ◌∷◌, ◌≡◌, ◌≤◌,
}
use stock_advisor.Floats.{Double, nought, ◌≤?◌}
use stock_advisor.Portfolio.Holding.{Holding}
use stock_advisor.Orders.{
  MassSale, Reply, SellOrder, execute_mass_sell, sell_single_holding, sell_step,
}
use mathlib.Core.List.{foldl}

module _ {F : Type 0} ⦃d : Double F⦄ where
  -- A holding that the loop does not pass over.
  abbrev pub to_sell : Holding F → Bool
  to_sell h = not (h.quantity ≤? nought)

module _ {F : Type 0} ⦃d : Double F⦄ (broker : List (SellOrder F) → SellOrder F → Reply) where
  -- From one tally to a later one, over `n` holdings to sell: each counts once, each failure leaves
  -- its ticker, each success has sent an order, and no holding sends two.
  pub record IsTally (n : ℕ) (m m' : MassSale F) : Type 0 where
    pub counted : m'.success_count + m'.fail_count ≡ m.success_count + m.fail_count + n
    pub named : length m'.failed_tickers + m.fail_count ≡ length m.failed_tickers + m'.fail_count
    pub at_least : length m.sent + m'.success_count ≤ length m'.sent + m.success_count
    pub at_most : length m'.sent ≤ length m.sent + n

  sell_step-IsTally :
      (m : MassSale F) (h : Holding F)
      → IsTally (if to_sell h then 1 else 0) m (sell_step broker m h)
  unfolding sell_step sell_single_holding
  sell_step-IsTally m h =
      ground (arith, length-append m.failed_tickers (h.ticker ∷ []), Option-cases h.current_price)

  foldl-sell_step-IsTally :
      (hs : List (Holding F)) (m : MassSale F)
      → IsTally (length (filter to_sell hs)) m (foldl (sell_step broker) m hs)
  foldl-sell_step-IsTally [] m = ground arith
  foldl-sell_step-IsTally (h ∷ hs) m =
      ground (arith, sell_step-IsTally m h, foldl-sell_step-IsTally hs (sell_step broker m h))

  -- A mass sale counts every holding with a positive quantity once, as a success or as a failure, and
  -- lists one ticker for each failure. It sends at least one order for each success, and no more
  -- orders than there are holdings to sell.
  pub execute_mass_sell_counts :
      (hs : List (Holding F)) (sent : List (SellOrder F))
      → let m = execute_mass_sell broker hs sent in
        (m.success_count + m.fail_count ≡ length (filter to_sell hs))
        × (length m.failed_tickers ≡ m.fail_count)
        × (length sent + m.success_count ≤ length m.sent)
        × (length m.sent ≤ length sent + length (filter to_sell hs))
  unfolding execute_mass_sell
  execute_mass_sell_counts hs sent = ground (
    arith,
    foldl-sell_step-IsTally hs
        (record { success_count = 0; fail_count = 0; failed_tickers = []; sent = sent }),
  )
