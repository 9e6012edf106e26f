-- ===== src/Portfolio/Trades.antt =====
-- Manual trades of services/trading/portfolio_service.py on the list of holdings.
pub mod Lookup
pub mod Invariant
use stock_advisor.Prelude.{
  ℕ, Bool, true, false, List, [], ◌∷◌, ◌++◌, Option, none, some, String, str_eq, if◌then◌else◌,
}
use stock_advisor.Floats.{Double, ◌⊕◌, ◌⊖◌, ◌⊗◌, ◌⊘◌, ◌<?◌, ◌≤?◌, nought}
use stock_advisor.Portfolio.Holding.{Holding, held, update_first, without}

-- What the methods raise: `ValueError` with its message, or a division by zero.
pub data Error : Type 0 where
  not_held too_many invalid_action : Error
  zero_division : Error

pub data Outcome (A : Type 0) : Type 0 where
  returned : A → Outcome A
  raised : Error → Outcome A

module _ {F : Type 0} ⦃d : Double F⦄ where
  -- The average price of a position that is enlarged.
  unfoldable pub average_price : Holding F → F → F → F
  average_price target quantity price =
      (target.quantity ⊗ target.buy_price ⊕ quantity ⊗ price) ⊘ (target.quantity ⊕ quantity)

  unfoldable pub new_holding : String → F → F → Holding F
  new_holding ticker quantity price = record {
    ticker = ticker;
    name = some ticker;
    quantity = quantity;
    buy_price = price;
    current_price = some price;
    sector = some "Unknown";
  }

  unfoldable pub enlarge : F → F → Holding F → Holding F
  enlarge quantity price target = record target {
    quantity = target.quantity ⊕ quantity;
    buy_price = average_price target quantity price;
  }

  unfoldable pub apply_buy : List (Holding F) → String → F → F → Outcome (List (Holding F))
  apply_buy holdings ticker quantity price = elim (held ticker holdings) [
    | none ↦ returned (holdings ++ (new_holding ticker quantity price ∷ []))
    | some target ↦
        if d.eq (target.quantity ⊕ quantity) nought
        then raised zero_division
        else returned (update_first ticker (enlarge quantity price) holdings)
  ]

  unfoldable pub reduce : F → Holding F → Holding F
  reduce quantity target = record target { quantity = target.quantity ⊖ quantity }

  unfoldable pub apply_sell : List (Holding F) → String → F → Outcome (List (Holding F))
  apply_sell holdings ticker quantity = elim (held ticker holdings) [
    | none ↦ raised not_held
    | some target ↦
        if target.quantity <? quantity
        then raised too_many
        else let left = update_first ticker (reduce quantity) holdings in
          if (target.quantity ⊖ quantity) ≤? nought
          then returned (without ticker left)
          else returned left
  ]

  -- `apply_trade_action`, for an action already in lower case
  unfoldable pub apply_trade_action :
      List (Holding F) → String → String → F → F → Outcome (List (Holding F))
  apply_trade_action holdings ticker action quantity price =
      if str_eq action "buy"
      then apply_buy holdings ticker quantity price
      else if str_eq action "sell"
      then apply_sell holdings ticker quantity
      else raised invalid_action
