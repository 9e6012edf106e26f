-- ===== src/Portfolio/Sync/Tests.antt =====
-- Runs of the accounts, the analysis and the sync, and their theorems at concrete inputs.
use stock_advisor.Floats.Fixed.{Fixed, fixed_double}
use stock_advisor.Prelude.{All, [], if◌then◌else◌, map, none, refl, some, str_eq, true, ◌∷◌, ◌≡◌}
use stock_advisor.Portfolio.Repository.{
  Accounts, extract_holding_fields, load_cash, load_holdings, save_account, save_portfolio,
}
use stock_advisor.Portfolio.Sync.{Balances, Item, all_letters, isalpha, sync_with_kis}
use stock_advisor.Portfolio.Holding.{Holding, held}
use stock_advisor.Markets.{all_digits, is_kr, isdigit}
use stock_advisor.Tickers.State.{get_or}
use stock_advisor.Prelude.Dict.{insert, lookup}
use stock_advisor.Portfolio.Sync.Stale.{is_held, sync_with_kis-keeps_us}
use stock_advisor.Portfolio.Repository.RoundTrip.{load_holdings-save_portfolio}
use stock_advisor.Floats.{num}
use stock_advisor.Prelude.Int.{pos, ◌*ℤ◌, ◌+ℤ◌, ◌-ℤ◌}

abbrev apple : Holding Fixed
apple = record {
  ticker = "AAPL";
  name = none;
  quantity = num 2;
  buy_price = num 100;
  current_price = none;
  sector = none;
}

abbrev samsung : Holding Fixed
samsung = record {
  ticker = "005930";
  name = none;
  quantity = num 3;
  buy_price = num 70;
  current_price = some (num 80);
  sector = some "";
}

abbrev accounts : Accounts Fixed
accounts = ("lee", record { cash_balance = num 7; rows = apple ∷ samsung ∷ [] }) ∷ []

load_holdings-save_portfolio_example :
    (let after = (save_portfolio true "sean" (samsung ∷ []) none accounts).1 in
      (load_holdings "lee" after ≡ (
        if str_eq "sean" "lee"
        then map extract_holding_fields (samsung ∷ [])
        else load_holdings "lee" accounts))
      × (load_cash "lee" after ≡ (
          if str_eq "sean" "lee"
          then get_or none (load_cash "sean" accounts)
          else load_cash "lee" accounts)))
load_holdings-save_portfolio_example =
    load_holdings-save_portfolio "sean" "lee" (samsung ∷ []) none accounts

-- The broker reports Korean shares only.
abbrev korean : Balances Fixed
korean = record {
  domestic =
      record {
        symbol = "005930";
        item_name = none;
        qty = pos 3;
        average = num 70;
        now_price = num 81;
      }
      ∷ [];
  dnca = num 5;
  prvs = num 9;
}

only_korean : All (λ (i : Item Fixed). is_kr i.symbol ≡ true) korean.domestic
unfolding is_kr isdigit all_digits
only_korean = (refl, tt)

letters : isalpha "AAPL" ≡ true
unfolding isalpha all_letters
letters = refl

apple_held : is_held "AAPL" (load_holdings "lee" accounts) ≡ true
unfolding held load_holdings lookup
apple_held = refl

sync_with_kis-keeps_us_example :
    is_held "AAPL" (load_holdings "lee" (sync_with_kis true (some korean) [] "lee" accounts []).1)
    ≡ true
sync_with_kis-keeps_us_example =
    sync_with_kis-keeps_us korean "lee" "AAPL" accounts [] only_korean letters apple_held

-- The synced cash is the greater of the two amounts.
synced : load_cash "lee" (sync_with_kis true (some korean) [] "lee" accounts []).1 ≡ num 9
unfolding sync_with_kis save_portfolio save_account load_cash lookup insert ◌*ℤ◌ ◌+ℤ◌ ◌-ℤ◌
synced = refl
