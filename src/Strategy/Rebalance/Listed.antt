-- ===== src/Strategy/Rebalance/Listed.antt =====
-- What the two lists of the rebalancing status hold.
use stock_advisor.Strategy.Sectors.{
  tech, value, financial, other, Group, group_total, group_values, is_other, target_weight,
}
use stock_advisor.Floats.{◌<?◌, Double, nought, ◌≤?◌, ◌⊖◌, ◌⊘◌}
use stock_advisor.Prelude.{
  All, All-append, Bool-cases, List, [], arith, false, if◌then◌else◌, some, true, ◌∷◌, ◌≡◌,
  if_cases, refl,
}
use stock_advisor.Strategy.Sectors.{
  ByGroup, Market, Weight, at_group, rebal_threshold, sector_group, sector_group_weights,
}
use stock_advisor.Strategy.Rebalance.{
  Entry, Status, add_entry, entry_of, get_sector_rebalance_status, insert_entry, is_listed,
  sort_entries,
}
use stock_advisor.Portfolio.Holding.{Holding}
use mathlib.Core.List.{foldl}
use stock_advisor.Portfolio.Sync.{values}

-- The deviation of a group from its target: its share of the value of all groups, less the target.
abbrev pub deviation : {F : Type 0} → ⦃d : Double F⦄ → ByGroup F → Group → F
deviation ⦃d⦄ values g =
    let total = group_total values in
    let share = if nought <? total then at_group g values ⊘ total else nought in
    d.round (share ⊖ target_weight g) 4

module _ {F : Type 0} ⦃d : Double F⦄ (market : Market F) (values : ByGroup F) where
  -- The entry of a holding with a positive quantity, in a group with a target that is known.
  pub record IsOfHolding (e : Entry F) : Type 0 where
    pub is_open : (e.holding.quantity ≤? nought) ≡ false
    pub own_group : e.group ≡ sector_group market e.holding.ticker (some e.holding)
    pub has_target : is_other e.group ≡ false
    pub own_dev : e.info.dev ≡ deviation values e.group

  abbrev IsUnderweight : Entry F → Type 0
  IsUnderweight e = IsOfHolding e × ((e.info.dev <? d.negate rebal_threshold) ≡ true)

  abbrev IsOverweight : Entry F → Type 0
  IsOverweight e = IsOfHolding e × ((rebal_threshold <? e.info.dev) ≡ true)

  pub record IsSound (s : Status F) : Type 0 where
    pub all_under : All IsUnderweight s.underweight
    pub all_over : All IsOverweight s.overweight

  -- The weights agree with the values of the groups.
  abbrev AreWeights : ByGroup (Weight F) → Type 0
  AreWeights weights = (g : Group) → (at_group g weights).dev ≡ deviation values g

  listed-IsOfHolding :
      (weights : ByGroup (Weight F)) (h : Holding F)
      → AreWeights weights
      → is_listed market h ≡ true
      → IsOfHolding (entry_of market weights h)
  unfolding is_listed entry_of
  listed-IsOfHolding weights h w p =
      let g = sector_group market h.ticker (some h) in
      record {
        is_open = ground (arith, p, Bool-cases (h.quantity ≤? nought));
        own_group = refl;
        has_target = ground (arith, p, Bool-cases (h.quantity ≤? nought), Bool-cases (is_other g));
        own_dev = w g;
      }

  add_entry-IsSound :
      (weights : ByGroup (Weight F)) (s : Status F) (h : Holding F)
      → AreWeights weights
      → IsSound s
      → IsSound (add_entry market weights s h)
  unfolding add_entry
  add_entry-IsSound weights s h w v =
      let e = entry_of market weights h in
      let P : Status F → Type 0 = IsSound in
      if_cases P (is_listed market h) _ _
        (λ p.
          let o = listed-IsOfHolding weights h w p in
          if_cases P (e.info.dev <? d.negate rebal_threshold) _ _
            (λ q. record {
              all_under = All-append IsUnderweight s.underweight (e ∷ []) v.all_under ((o, q), tt);
              all_over = v.all_over;
            })
            (λ _.
              if_cases P (rebal_threshold <? e.info.dev) _ _
                (λ q. record {
                  all_under = v.all_under;
                  all_over = All-append IsOverweight s.overweight (e ∷ []) v.all_over ((o, q), tt);
                })
                (λ _. v)))
        (λ _. v)

  foldl-add_entry-IsSound :
      (weights : ByGroup (Weight F)) (hs : List (Holding F)) (s : Status F)
      → AreWeights weights
      → IsSound s
      → IsSound (foldl (add_entry market weights) s hs)
  foldl-add_entry-IsSound weights [] s w v = v
  foldl-add_entry-IsSound weights (h ∷ hs) s w v =
      foldl-add_entry-IsSound weights hs (add_entry market weights s h) w
        (add_entry-IsSound weights s h w v)

module _ {F : Type 0} ⦃d : Double F⦄ (P : Entry F → Type 0) (key : Entry F → F) where
  insert_entry-All :
      (e : Entry F) (es : List (Entry F)) → P e → All P es → All P (insert_entry key e es)
  unfolding insert_entry
  insert_entry-All e [] p ps = (p, tt)
  insert_entry-All e (x ∷ es) p ps =
      elim (key e <? key x) as (λ b. All P (if b then e ∷ x ∷ es else x ∷ insert_entry key e es)) [
        | true ↦ (p, ps)
        | false ↦ (ps.0, insert_entry-All e es p ps.1)
      ]

  foldl-insert_entry-All :
      (es sorted : List (Entry F))
      → All P es
      → All P sorted
      → All P (foldl (λ done e. insert_entry key e done) sorted es)
  foldl-insert_entry-All [] sorted ps qs = qs
  foldl-insert_entry-All (e ∷ es) sorted ps qs =
      foldl-insert_entry-All es (insert_entry key e sorted) ps.1 (insert_entry-All e sorted ps.0 qs)

module _ {F : Type 0} ⦃d : Double F⦄ where
  weights-deviation :
      (market : Market F) (hs : List (Holding F))
      → AreWeights market (group_values market hs) (sector_group_weights market hs)
  unfolding sector_group_weights
  weights-deviation market hs tech = refl
  weights-deviation market hs value = refl
  weights-deviation market hs financial = refl
  weights-deviation market hs other = refl

  -- Every entry of the two lists is of a holding whose quantity is not 0 or less, with its own
  -- sector group, which has a target; the share of the group in the value of all groups, less the
  -- target and rounded, is below the negative threshold in the first list and above the threshold
  -- in the second.
  pub get_sector_rebalance_status-IsSound :
      (market : Market F) (hs : List (Holding F))
      → IsSound market (group_values market hs) (get_sector_rebalance_status market hs)
  unfolding get_sector_rebalance_status sort_entries
  get_sector_rebalance_status-IsSound market hs =
      let values = group_values market hs in
      let sound =
        foldl-add_entry-IsSound market values (sector_group_weights market hs) hs
          (record { underweight = []; overweight = [] }) (weights-deviation market hs)
          (record { all_under = tt; all_over = tt }) in
      record {
        all_under =
            foldl-insert_entry-All (IsUnderweight market values) (λ e. e.dev) _ [] sound.all_under
              tt;
        all_over =
            foldl-insert_entry-All (IsOverweight market values) (λ e. d.negate e.dev) _ []
              sound.all_over tt;
      }
