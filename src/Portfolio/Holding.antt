-- ===== src/Portfolio/Holding.antt =====
-- A holding as the dicts of services/trading/portfolio_service.py and the rows of
-- models/portfolio.py have it. Quantities are numbers of the same kind as prices, since the manual
-- trade routes take fractions.
use stock_advisor.Prelude.{List, [], ◌∷◌, Option, none, some, String, str_eq, if◌then◌else◌}

pub record Holding (F : Type 0) : Type 0 where
  pub ticker : String
  pub name : Option String
  pub quantity : F
  pub buy_price : F
  pub current_price : Option F
  pub sector : Option String

module _ {F : Type 0} where
  -- `next((h for h in holdings if h.get("ticker") == ticker), None)`
  unfoldable pub held : String → List (Holding F) → Option (Holding F)
  held t [] = none
  held t (h ∷ hs) = if str_eq h.ticker t then some h else held t hs

  -- An assignment to fields of what `held` finds.
  unfoldable pub update_first :
      String → (Holding F → Holding F) → List (Holding F) → List (Holding F)
  update_first t f [] = []
  update_first t f (h ∷ hs) = if str_eq h.ticker t then f h ∷ hs else h ∷ update_first t f hs

  -- `[h for h in holdings if h.get("ticker") != ticker]`
  unfoldable pub without : String → List (Holding F) → List (Holding F)
  without t [] = []
  without t (h ∷ hs) = let rest = without t hs in if str_eq h.ticker t then rest else h ∷ rest
