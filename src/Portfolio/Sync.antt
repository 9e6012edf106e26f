-- ===== src/Portfolio/Sync.antt =====
-- `sync_with_kis` of services/trading/portfolio_service.py. An item of the broker's answer comes with
-- the first of its alternative fields that is not empty, already read as text or number.
pub mod Stale
mod Tests
use stock_advisor.Prelude.{
  ℕ, ◌&&◌, ◌++◌, Bool, List, Option, String, [], codes, false, if◌then◌else◌, leb, map, none, not,
  some, str_eq, true, ◌||◌, ◌∷◌,
}
use stock_advisor.Floats.{◌<?◌, Double, int, max_f, nought}
use stock_advisor.Portfolio.Repository.{Accounts, load_holdings, save_portfolio}
use stock_advisor.Prelude.Dict.{Dict, insert}
use stock_advisor.Portfolio.Holding.{Holding}
use stock_advisor.MarketData.Registry.{States, update_price_from_sync}
use stock_advisor.Tickers.State.{get_or}
use stock_advisor.Markets.{is_kr}
use stock_advisor.Prelude.Int.{ltb_ℤ, pos, ℤ}

pub record Item (F : Type 0) : Type 0 where
  pub symbol : String
  pub item_name : Option String
  pub qty : ℤ
  pub average : F
  pub now_price : F

-- A domestic balance: its items and the two amounts of cash.
pub record Balances (F : Type 0) : Type 0 where
  pub domestic : List (Item F)
  pub dnca : F
  pub prvs : F

abbrev pub is_letter : ℕ → Bool
is_letter c = (leb b'A' c && leb c b'Z') || (leb b'a' c && leb c b'z')

-- `str.isalpha`: false on the empty text
unfoldable pub all_letters : List ℕ → Bool
all_letters [] = true
all_letters (c ∷ cs) = is_letter c && all_letters cs

unfoldable pub isalpha : String → Bool
isalpha t = if str_eq t "" then false else all_letters (codes t)

module _ {F : Type 0} ⦃d : Double F⦄ where
  unfoldable pub holding_of : Item F → Holding F
  holding_of i = record {
    ticker = i.symbol;
    name = some (elim i.item_name [ none ↦ i.symbol | some n ↦ n ]);
    quantity = int i.qty;
    buy_price = i.average;
    current_price = some i.now_price;
    sector = some "Others";
  }

  -- An item without a ticker or with nothing left is passed over.
  abbrev pub is_open_item : Item F → Bool
  is_open_item i = not (str_eq i.symbol "") && ltb_ℤ (pos 0) i.qty

  -- The loop over the domestic balance: Korean holdings in order, others by ticker.
  unfoldable pub read_domestic :
      List (Item F) → List (Holding F) × Dict (Holding F) → List (Holding F) × Dict (Holding F)
  read_domestic [] acc = acc
  read_domestic (i ∷ items) (holdings, us) = read_domestic items (
      if is_open_item i
      then if is_kr i.symbol
        then (holdings ++ holding_of i ∷ [], us)
        else (holdings, insert i.symbol (holding_of i) us)
      else (holdings, us))

  -- The loop over the overseas balance, which wins over the domestic one.
  unfoldable pub read_overseas : List (Item F) → Dict (Holding F) → Dict (Holding F)
  read_overseas [] us = us
  read_overseas (i ∷ items) us =
      read_overseas items
        (if is_open_item i && not (is_kr i.symbol) then insert i.symbol (holding_of i) us else us)

  abbrev pub values : Dict (Holding F) → List (Holding F)
  values us = map (λ e. e.1) us

  -- The stored US holdings by ticker, for tickers of letters only.
  unfoldable pub existing_us : List (Holding F) → Dict (Holding F) → Dict (Holding F)
  existing_us [] us = us
  existing_us (h ∷ hs) us = existing_us hs (if isalpha h.ticker then insert h.ticker h us else us)

  -- The broker's US holdings, or else the stored ones.
  unfoldable pub with_us : Dict (Holding F) → List (Holding F) → List (Holding F)
  with_us [] stored = values (existing_us stored [])
  with_us (e ∷ us) stored = values (e ∷ us)

  unfoldable pub merge_holdings :
      List (Item F) → List (Item F) → List (Holding F) → List (Holding F)
  merge_holdings domestic abroad stored =
      let read = read_domestic domestic ([], []) in
      read.0 ++ with_us (read_overseas abroad read.1) stored

  -- `max(0.0, dnca, prvs)`
  abbrev pub synced_cash : Balances F → F
  synced_cash b = max_f (max_f nought b.dnca) b.prvs

  -- The prices of the live states, where a price is positive.
  unfoldable pub push_prices : List (Holding F) → States F → States F
  push_prices [] states = states
  push_prices (h ∷ hs) states =
      let price = get_or h.current_price nought in
      push_prices hs
        (if nought <? price then update_price_from_sync h.ticker price none states else states)

  -- The holdings that are returned, the accounts and the live states.
  unfoldable pub sync_with_kis :
      Bool
      → Option (Balances F)
      → List (Item F)
      → String
      → Accounts F
      → States F
      → List (Holding F) × Accounts F × States F
  sync_with_kis db_ok none abroad user_id accounts states =
      (load_holdings user_id accounts, accounts, states)
  sync_with_kis db_ok (some b) abroad user_id accounts states =
      let holdings = merge_holdings b.domestic abroad (load_holdings user_id accounts) in
      (
        holdings,
        (save_portfolio db_ok user_id holdings (some (synced_cash b)) accounts).1,
        push_prices holdings states,
      )
