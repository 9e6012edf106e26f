-- ===== src/Orders/Tests.antt =====
-- A mass sale, and its counts at it.
use stock_advisor.Floats.Fixed.{Fixed, fixed_double}
use stock_advisor.Prelude.{List, [], none, refl, some, ◌∷◌, ◌≡◌}
use stock_advisor.Portfolio.Holding.{Holding}
use stock_advisor.Orders.{
  Reply, SellOrder, execute_mass_sell, sell_single_holding, sell_step, success,
}
use stock_advisor.Markets.{is_kr}
use stock_advisor.Floats.{nought, num}
use stock_advisor.Prelude.Int.{◌*ℤ◌, ◌+ℤ◌, ◌-ℤ◌}

abbrev samsung : Holding Fixed
samsung = record {
  ticker = "005930";
  name = some "Samsung";
  quantity = num 10;
  buy_price = num 100;
  current_price = some (num 120);
  sector = none;
}

-- A US holding without a price.
abbrev unpriced : Holding Fixed
unpriced = record samsung { ticker = "AAPL"; current_price = none }

abbrev sold_out : Holding Fixed
sold_out = record samsung { ticker = "000660"; quantity = nought }

abbrev accepting : List (SellOrder Fixed) → SellOrder Fixed → Reply
accepting sent order = success

abbrev portfolio : List (Holding Fixed)
portfolio = samsung ∷ unpriced ∷ sold_out ∷ []

one_failure : (execute_mass_sell accepting portfolio []).failed_tickers ≡ "AAPL" ∷ []
unfolding execute_mass_sell sell_step sell_single_holding is_kr ◌*ℤ◌ ◌+ℤ◌ ◌-ℤ◌
one_failure = refl
