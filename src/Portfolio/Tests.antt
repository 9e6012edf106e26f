-- ===== src/Portfolio/Tests.antt =====
-- Runs of the manual trades, and their theorems at concrete inputs.
use stock_advisor.Floats.{int, num}
use stock_advisor.Floats.Fixed.{Fixed, fixed_double}
use stock_advisor.Portfolio.Holding.{Holding, held, update_first}
use stock_advisor.Prelude.{List, [], none, refl, some, ◌∷◌, ◌≡◌, All}
use stock_advisor.Portfolio.Trades.{
  apply_buy, apply_sell, apply_trade_action, average_price, enlarge, raised, returned, reduce,
  too_many,
}
use stock_advisor.Portfolio.Trades.Lookup.{bought, held-apply_buy, held-apply_sell, sold}
use stock_advisor.Prelude.Int.{negsuc, ◌*ℤ◌, ◌+ℤ◌, ◌-ℤ◌}
use stock_advisor.Portfolio.Trades.Invariant.{IsDistinct, IsOpen}

abbrev samsung : Holding Fixed
unfolding ◌*ℤ◌
samsung = record {
  ticker = "005930";
  name = some "Samsung";
  quantity = num 10;
  buy_price = num 100;
  current_price = some (num 120);
  sector = none;
}

abbrev holdings : List (Holding Fixed)
holdings = samsung ∷ []

abbrev enlarged : Holding Fixed
enlarged = record samsung { quantity = num 20; buy_price = num 150 }

abbrev reduced : Holding Fixed
reduced = record samsung { quantity = num 6 }

-- Ten more at 200 make twenty at 150.
buy_more : apply_buy holdings "005930" (num 10) (num 200) ≡ returned (enlarged ∷ [])
unfolding apply_buy update_first enlarge average_price held ◌*ℤ◌ ◌+ℤ◌ ◌-ℤ◌
buy_more = refl

sell_some : apply_sell holdings "005930" (num 4) ≡ returned (reduced ∷ [])
unfolding apply_sell update_first reduce held ◌*ℤ◌ ◌+ℤ◌ ◌-ℤ◌
sell_some = refl

sell_too_many : apply_sell holdings "005930" (num 11) ≡ raised too_many
unfolding apply_sell held ◌*ℤ◌ ◌+ℤ◌ ◌-ℤ◌
sell_too_many = refl

-- A sale of a negative quantity is not refused.
sell_negative :
    apply_sell holdings "005930" (int (negsuc 9))
    ≡ returned (record samsung { quantity = num 20 } ∷ [])
unfolding apply_sell update_first reduce held ◌*ℤ◌ ◌+ℤ◌ ◌-ℤ◌
sell_negative = refl

held-apply_buy_example :
    held "005930" (enlarged ∷ []) ≡ bought (num 10) (num 200) "005930" (held "005930" holdings)
held-apply_buy_example =
    held-apply_buy holdings "005930" (num 10) (num 200) (enlarged ∷ []) "005930" buy_more

held-apply_sell_example : held "005930" (reduced ∷ []) ≡ sold (num 4) (held "005930" holdings)
held-apply_sell_example =
    held-apply_sell holdings "005930" (num 4) (reduced ∷ []) "005930" sell_some

buy_action :
    apply_trade_action holdings "005930" "buy" (num 10) (num 200) ≡ returned (enlarged ∷ [])
unfolding apply_trade_action
buy_action = buy_more

holdings-IsDistinct : IsDistinct holdings
unfolding held
holdings-IsDistinct = (refl, tt)

holdings-IsOpen : All IsOpen holdings
unfolding ◌*ℤ◌ ◌+ℤ◌ ◌-ℤ◌
holdings-IsOpen = (refl, tt)
