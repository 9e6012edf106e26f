-- ===== src/Portfolio/Repository.antt =====
-- repositories/portfolio_repo.py and the saving and loading of services/trading/portfolio_service.py:
-- the accounts of the users, each with its cash and its holdings. A database that refuses a write
-- leaves them as they are.
pub mod RoundTrip
use stock_advisor.Prelude.{
  ℕ, Bool, List, Option, String, [], false, if◌then◌else◌, map, none, some, str_eq, true,
}
use stock_advisor.Prelude.Dict.{Dict, insert, lookup}
use stock_advisor.Floats.{Double, nought}
use stock_advisor.Portfolio.Holding.{Holding}
use stock_advisor.Tickers.State.{get_or}

pub record UserAccount (F : Type 0) : Type 0 where
  pub cash_balance : F
  pub rows : List (Holding F)

abbrev pub Accounts : Type 0 → Type 0
Accounts F = Dict (UserAccount F)

-- `sector or DEFAULT_SECTOR`
unfoldable pub sector_or_default : Option String → String
sector_or_default none = "Others"
sector_or_default (some s) = if str_eq s "" then "Others" else s

module _ {F : Type 0} ⦃d : Double F⦄ where
  unfoldable pub load_holdings : String → Accounts F → List (Holding F)
  load_holdings user_id t = elim (lookup user_id t) [ none ↦ [] | some a ↦ a.rows ]

  unfoldable pub load_cash : String → Accounts F → F
  load_cash user_id t = elim (lookup user_id t) [ none ↦ nought | some a ↦ a.cash_balance ]

  -- `PortfolioRepo.save`: the rows are replaced; without a balance the cash stays, or starts at 0.
  unfoldable pub save_account :
      Bool → String → List (Holding F) → Option F → Accounts F → Bool × Accounts F
  save_account db_ok user_id holdings cash t =
      let kept = load_cash user_id t in
      let account : UserAccount F = record { cash_balance = get_or cash kept; rows = holdings } in
      if db_ok then (true, insert user_id account t) else (false, t)

  -- `_extract_holding_fields`: a missing price is 0 and a missing sector the default one.
  unfoldable pub extract_holding_fields : Holding F → Holding F
  extract_holding_fields h = record h {
    current_price = some (get_or h.current_price nought);
    sector = some (sector_or_default h.sector);
  }

  unfoldable pub save_portfolio :
      Bool → String → List (Holding F) → Option F → Accounts F → Bool × Accounts F
  save_portfolio db_ok user_id holdings cash t =
      save_account db_ok user_id (map extract_holding_fields holdings) cash t
