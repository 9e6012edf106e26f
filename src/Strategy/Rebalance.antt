-- ===== src/Strategy/Rebalance.antt =====
-- `get_sector_rebalance_status` of services/strategy/trading_strategy_service.py: the holdings whose
-- sector group is far from its target weight.
pub mod Listed
pub mod Weekly
mod Tests
use stock_advisor.Prelude.{◌&&◌, ◌++◌, Bool, List, [], if◌then◌else◌, not, some, ◌∷◌}
use stock_advisor.Floats.{◌<?◌, Double, nought, ◌≤?◌}
use stock_advisor.Strategy.Sectors.{
  ByGroup, Group, Market, Weight, at_group, is_other, rebal_threshold, sector_group,
  sector_group_weights,
}
use stock_advisor.Portfolio.Holding.{Holding}
use mathlib.Core.List.{foldl}

-- An entry of the two lists: the holding gives its ticker and name, `info` its group's weight and
-- target. The action is what the list stands for.
pub record Entry (F : Type 0) : Type 0 where
  pub holding : Holding F
  pub group : Group
  pub dev : F
  pub info : Weight F

pub record Status (F : Type 0) : Type 0 where
  pub underweight : List (Entry F)
  pub overweight : List (Entry F)

module _ {F : Type 0} ⦃d : Double F⦄ where
  -- `list.sort` by a key: an entry goes behind those that are not greater.
  unfoldable pub insert_entry : (Entry F → F) → Entry F → List (Entry F) → List (Entry F)
  insert_entry key e [] = e ∷ []
  insert_entry key e (x ∷ xs) =
      let rest = insert_entry key e xs in if key e <? key x then e ∷ x ∷ xs else x ∷ rest

  unfoldable pub sort_entries : (Entry F → F) → List (Entry F) → List (Entry F)
  sort_entries key es = foldl (λ sorted e. insert_entry key e sorted) [] es

  -- The holdings that are looked at: a positive quantity, and a group with a target.
  unfoldable pub is_listed : Market F → Holding F → Bool
  is_listed market h =
      not (h.quantity ≤? nought) && not (is_other (sector_group market h.ticker (some h)))

  unfoldable pub entry_of : Market F → ByGroup (Weight F) → Holding F → Entry F
  entry_of market weights h =
      let group = sector_group market h.ticker (some h) in
      let info = at_group group weights in
      record { holding = h; group = group; dev = d.round info.dev 4; info = info }

  -- One round of the loop.
  unfoldable pub add_entry : Market F → ByGroup (Weight F) → Status F → Holding F → Status F
  add_entry market weights s h =
      let e = entry_of market weights h in
      if is_listed market h
      then (if e.info.dev <? d.negate rebal_threshold
          then record s { underweight = s.underweight ++ (e ∷ []) }
          else if rebal_threshold <? e.info.dev
          then record s { overweight = s.overweight ++ (e ∷ []) }
          else s)
      else s

  unfoldable pub get_sector_rebalance_status : Market F → List (Holding F) → Status F
  get_sector_rebalance_status market hs =
      let weights = sector_group_weights market hs in
      let s = foldl (add_entry market weights) (record { underweight = []; overweight = [] }) hs in
      record {
        underweight = sort_entries (λ e. e.dev) s.underweight;
        overweight = sort_entries (λ e. d.negate e.dev) s.overweight;
      }
