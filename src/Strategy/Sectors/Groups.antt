-- ===== src/Strategy/Sectors/Groups.antt =====
-- The value of each group is the sum over its own holdings.
use stock_advisor.Prelude.{
  ◌&&◌, Bool, List, [], arith, false, filter, if◌then◌else◌, map, not, refl, some, true, ◌∷◌, ◌≡◌,
}
use stock_advisor.Strategy.Sectors.{
  ByGroup, Group, Market, add_group_value, at_group, financial, group_values, holding_value, other,
  sector_group, tech, value,
}
use stock_advisor.Floats.{Double, nought, ◌≤?◌, ◌⊕◌, ◌⊗◌}
use stock_advisor.Portfolio.Holding.{Holding}
use mathlib.Core.List.{foldl}
use stock_advisor.Markets.{is_kr}

abbrev group_eq : Group → Group → Bool
group_eq tech tech = true
group_eq value value = true
group_eq financial financial = true
group_eq other other = true
group_eq _ _ = false

module _ {F : Type 0} ⦃d : Double F⦄ (market : Market F) where
  -- A holding counts if its quantity and its value pass the code's tests.
  unfoldable pub counts : Holding F → Bool
  counts h = not (h.quantity ≤? nought) && not (holding_value market h ≤? nought)

  -- The value of a holding in KRW: a US holding is converted at the exchange rate.
  unfoldable pub value_in_krw : Holding F → F
  value_in_krw h =
      if is_kr h.ticker
      then holding_value market h
      else holding_value market h ⊗ market.exchange_rate

  unfoldable pub in_group : Group → Holding F → Bool
  in_group g h = counts h && group_eq (sector_group market h.ticker (some h)) g

  at-add_group_value :
      (g : Group) (h : Holding F) (groups : ByGroup F)
      → at_group g (add_group_value market groups h)
        ≡ (if in_group g h then at_group g groups ⊕ value_in_krw h else at_group g groups)
  unfolding add_group_value counts value_in_krw in_group
  at-add_group_value g h groups = ground arith

  at-foldl-add_group_value :
      (g : Group) (hs : List (Holding F)) (groups : ByGroup F)
      → at_group g (foldl (add_group_value market) groups hs)
        ≡ foldl ◌⊕◌ (at_group g groups) (map value_in_krw (filter (in_group g) hs))
  at-foldl-add_group_value g [] groups = refl
  at-foldl-add_group_value g (h ∷ hs) groups = ground (
    arith,
    at-add_group_value g h groups,
    at-foldl-add_group_value g hs (add_group_value market groups h),
  )

  -- The value of a sector group is the sum, in the order of the list, of the KRW values of the open
  -- holdings of that group.
  pub at-group_values :
      (g : Group) (hs : List (Holding F))
      → at_group g (group_values market hs)
        ≡ foldl ◌⊕◌ nought (map value_in_krw (filter (in_group g) hs))
  unfolding group_values
  at-group_values tech hs = at-foldl-add_group_value tech hs _
  at-group_values value hs = at-foldl-add_group_value value hs _
  at-group_values financial hs = at-foldl-add_group_value financial hs _
  at-group_values other hs = at-foldl-add_group_value other hs _
