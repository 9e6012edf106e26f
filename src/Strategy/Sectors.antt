-- ===== src/Strategy/Sectors.antt =====
-- Sector groups of services/strategy/trading_strategy_service.py: the group of a holding, the value
-- of each group and its deviation from the target weight. The stock metadata and the live prices
-- are arguments.
pub mod Groups
use stock_advisor.Portfolio.Holding.{Holding}
use stock_advisor.Floats.{◌<?◌, Double, max_f, nought, truthy, ◌≤?◌, ◌⊕◌, ◌⊖◌, ◌⊗◌, ◌⊘◌}
use stock_advisor.Prelude.{
  Bool, List, Option, String, [], false, if◌then◌else◌, member, none, not, some, str_eq, ◌∷◌, true,
}
use mathlib.Core.List.{foldl}
use stock_advisor.Markets.{is_kr}
use stock_advisor.Prelude.Int.{pos}
use stock_advisor.Portfolio.Sync.{values}

pub data Group : Type 0 where
  tech value financial other : Group

abbrev pub is_other : Group → Bool
is_other other = true
is_other _ = false

-- The keys of the groups.
abbrev pub group_name : Group → String
group_name tech = "tech"
group_name value = "value"
group_name financial = "financial"
group_name other = "other"

abbrev tech_sectors : List String
tech_sectors =
    "Technology" ∷ "IT" ∷ "기술" ∷ "Information Technology" ∷ "Communication Services" ∷ "통신서비스"
    ∷ "통신" ∷ []

abbrev value_sectors : List String
value_sectors =
    "Consumer Staples" ∷ "Consumer Defensive" ∷ "필수소비재" ∷ "Healthcare" ∷ "Health Care" ∷ "헬스케어"
    ∷ "의료" ∷ "Utilities" ∷ "유틸리티" ∷ []

abbrev financial_sectors : List String
financial_sectors = "Financials" ∷ "Financial" ∷ "Financial Services" ∷ "금융" ∷ "은행" ∷ []

-- `SECTOR_GROUP_MAP.get(sector, "other")`
unfoldable pub group_of_sector : String → Group
group_of_sector sector =
    if member sector tech_sectors
    then tech
    else if member sector value_sectors
    then value
    else if member sector financial_sectors
    then financial
    else other

-- A text in a condition is true unless it is empty.
abbrev pub nonempty : Option String → Bool
nonempty none = false
nonempty (some s) = not (str_eq s "")

abbrev pub text_or : Option String → String → String
text_or none default = default
text_or (some s) default = s

-- `meta.sector if meta and meta.sector else "Others"`
abbrev pub meta_or_others : Option String → String
meta_or_others s = if nonempty s then text_or s "Others" else "Others"

-- What the strategy reads of other services while it looks at holdings.
pub record Market (F : Type 0) : Type 0 where
  pub meta_sector : String → Option String
  pub live_price : String → Option F
  pub exchange_rate : F

module _ {F : Type 0} where
  -- `_get_ticker_sector`
  unfoldable pub ticker_sector : Market F → String → Option (Holding F) → String
  ticker_sector market ticker none = meta_or_others (market.meta_sector ticker)
  ticker_sector market ticker (some h) =
      if nonempty h.sector then text_or h.sector "" else meta_or_others (market.meta_sector ticker)

  -- `_get_sector_group`
  unfoldable pub sector_group : Market F → String → Option (Holding F) → Group
  sector_group market ticker holding = group_of_sector (ticker_sector market ticker holding)

-- The dict `group_values`, and the dicts of weights and deviations.
pub record ByGroup (A : Type 0) : Type 0 where
  pub of_tech : A
  pub of_value : A
  pub of_financial : A
  pub of_other : A

abbrev pub at_group : {A : Type 0} → Group → ByGroup A → A
at_group tech g = g.of_tech
at_group value g = g.of_value
at_group financial g = g.of_financial
at_group other g = g.of_other

abbrev pub set_group : {A : Type 0} → Group → A → ByGroup A → ByGroup A
set_group tech x g = record g { of_tech = x }
set_group value x g = record g { of_value = x }
set_group financial x g = record g { of_financial = x }
set_group other x g = record g { of_other = x }

abbrev pub map_group : {A B : Type 0} → (Group → A → B) → ByGroup A → ByGroup B
map_group f g = record {
  of_tech = f tech g.of_tech;
  of_value = f value g.of_value;
  of_financial = f financial g.of_financial;
  of_other = f other g.of_other;
}

pub record Weight (F : Type 0) : Type 0 where
  pub value_krw : F
  pub weight : F
  pub target : F
  pub dev : F

module _ {F : Type 0} ⦃d : Double F⦄ where
  -- `SECTOR_TARGET_WEIGHT.get(group, 0.0)`
  unfoldable pub target_weight : Group → F
  target_weight tech = d.decimal (pos 50) 2
  target_weight value = d.decimal (pos 30) 2
  target_weight financial = d.decimal (pos 20) 2
  target_weight other = nought

  -- `SECTOR_REBAL_THRESHOLD`
  abbrev pub rebal_threshold : F
  rebal_threshold = d.decimal (pos 5) 2

  -- `x or rest` for a price
  abbrev pub price_or : Option F → F → F
  price_or none rest = rest
  price_or (some x) rest = if truthy x then x else rest

  -- `_get_holding_value`; `buy_price` has a value in every row, and 0 is also what `or 0` gives
  unfoldable pub holding_value : Market F → Holding F → F
  holding_value market h =
      let stored = price_or h.current_price (price_or (some h.buy_price) nought) in
      let price =
        if stored ≤? nought then price_or (market.live_price h.ticker) stored else stored in
      max_f nought price ⊗ h.quantity

  -- One round of the loop of `_get_sector_group_weights`.
  unfoldable pub add_group_value : Market F → ByGroup F → Holding F → ByGroup F
  add_group_value market groups h =
      if h.quantity ≤? nought
      then groups
      else (let val = holding_value market h in
          if val ≤? nought
          then groups
          else (let krw = if is_kr h.ticker then val else val ⊗ market.exchange_rate in
              let group = sector_group market h.ticker (some h) in
              set_group group (at_group group groups ⊕ krw) groups))

  unfoldable pub group_values : Market F → List (Holding F) → ByGroup F
  group_values market =
      foldl (add_group_value market)
        (record { of_tech = nought; of_value = nought; of_financial = nought; of_other = nought })

  -- `sum(group_values.values())`, from the left, starting at 0
  unfoldable pub group_total : ByGroup F → F
  group_total g = nought ⊕ g.of_tech ⊕ g.of_value ⊕ g.of_financial ⊕ g.of_other

  -- `_get_sector_group_weights`, the dict `weights`
  unfoldable pub sector_group_weights : Market F → List (Holding F) → ByGroup (Weight F)
  sector_group_weights market holdings =
      let values = group_values market holdings in
      let total = group_total values in
      map_group
        (λ group val.
          let w = if nought <? total then val ⊘ total else nought in
          let target = target_weight group in
          record {
            value_krw = d.round val 0;
            weight = d.round w 4;
            target = target;
            dev = d.round (w ⊖ target) 4;
          })
        values
