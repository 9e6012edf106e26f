-- ===== src/Strategy/Rebalance/Tests.antt =====
-- The rebalancing status of a portfolio, and its theorem at it.
use stock_advisor.Floats.Fixed.{Fixed, fixed_double}
use stock_advisor.Portfolio.Holding.{Holding}
use stock_advisor.Strategy.Rebalance.Listed.{IsSound, get_sector_rebalance_status-IsSound}
use stock_advisor.Strategy.Sectors.{
  Market, add_group_value, group_of_sector, group_total, group_values, holding_value, sector_group,
  sector_group_weights, target_weight, ticker_sector,
}
use stock_advisor.Prelude.{[], length, none, refl, some, ◌∷◌, ◌≡◌}
use stock_advisor.Strategy.Rebalance.{
  add_entry, entry_of, get_sector_rebalance_status, insert_entry, is_listed, sort_entries,
}
use stock_advisor.Markets.{is_kr}
use stock_advisor.Floats.{num}
use stock_advisor.Prelude.Int.{◌*ℤ◌, ◌+ℤ◌, ◌-ℤ◌}

-- All the money is in one technology stock.
abbrev lone : Holding Fixed
lone = record {
  ticker = "AAPL";
  name = some "Apple";
  quantity = num 9;
  buy_price = num 100;
  current_price = some (num 90);
  sector = some "Technology";
}

abbrev quotes : Market Fixed
quotes = record { meta_sector = λ t. none; live_price = λ t. none; exchange_rate = num 1400 }

one_overweight : length (get_sector_rebalance_status quotes (lone ∷ [])).overweight ≡ 1
unfolding get_sector_rebalance_status add_entry entry_of is_listed sort_entries insert_entry
    sector_group_weights group_values add_group_value group_total holding_value sector_group
    ticker_sector group_of_sector target_weight is_kr ◌*ℤ◌ ◌+ℤ◌ ◌-ℤ◌
one_overweight = refl

get_sector_rebalance_status-IsSound_example :
    IsSound quotes
      (group_values quotes (lone ∷ []))
      (get_sector_rebalance_status quotes (lone ∷ []))
get_sector_rebalance_status-IsSound_example = get_sector_rebalance_status-IsSound quotes (lone ∷ [])
