-- ===== src/Alerts.antt =====
-- services/notification/alert_service.py: the alerts on a ticker's figures, those that are sent once
-- an hour, the crossing of averages, and the alerts that users set. An alert is a value of a data
-- type in place of its text; the news in a volatility alert and the posting to Slack are left out.
pub mod Once
pub mod Crossing
mod Tests
use stock_advisor.Prelude.{
  ℕ, ◌&&◌, ◌++◌, Bool, List, Option, String, [], false, if◌then◌else◌, none, some, str_eq, true,
  ◌||◌, ◌∷◌,
}
use stock_advisor.Floats.{◌<?◌, Double, num, truthy, ◌≤?◌, ◌⊖◌, ◌⊗◌, ◌⊘◌}
use stock_advisor.Prelude.Dict.{Dict, insert, lookup}
use stock_advisor.MarketData.Registry.{States}
use stock_advisor.Prelude.Int.{minus, pos}
use stock_advisor.MarketData.Views.{nonzero}

-- The figures of one check. `hour` is the first 13 characters of its time.
pub record Figures (F : Type 0) : Type 0 where
  pub price : Option F
  pub rsi : Option F
  pub fair_value_dcf : Option F
  pub hour : String
  pub ema : String → Option F

-- What is kept of the last check of a ticker.
pub record Previous (F : Type 0) : Type 0 where
  pub prev_price : Option F
  pub prev_ema : String → Option F

-- The keys of the alerts that are sent once: ticker, hour and kind.
pub data Kind : Type 0 where
  oversold : Kind
  overbought : Kind
  undervalued : Kind

abbrev pub Key : Type 0
Key = String × String × Kind

pub data Alert (F : Type 0) : Type 0 where
  surge : String → F → F → Alert F
  panic_sell : String → F → F → Alert F
  rsi_low : String → F → Alert F
  rsi_high : String → F → Alert F
  bargain : String → F → F → Alert F
  golden_cross : String → String → F → F → Alert F
  dead_cross : String → String → F → F → Alert F

pub record AlertState (F : Type 0) : Type 0 where
  pub sent_alerts : List Key
  pub prev_data : Dict (Previous F)

abbrev pub eq_kind : Kind → Kind → Bool
eq_kind Kind.oversold Kind.oversold = true
eq_kind Kind.overbought Kind.overbought = true
eq_kind Kind.undervalued Kind.undervalued = true
eq_kind a b = false

abbrev pub eq_key : Key → Key → Bool
eq_key (t, h, k) (u, g, j) = str_eq t u && str_eq h g && eq_kind k j

unfoldable pub was_sent : Key → List Key → Bool
was_sent k [] = false
was_sent k (j ∷ js) = eq_key k j || was_sent k js

-- An alert that goes out unless its key was sent, and then is kept.
unfoldable pub send_once : {F : Type 0} → Key → Alert F → List Key → List (Alert F) × List Key
send_once k a sent = if was_sent k sent then ([], sent) else (a ∷ [], k ∷ sent)

abbrev pub ema_names : List String
ema_names = "ema5" ∷ "ema10" ∷ "ema20" ∷ "ema60" ∷ "ema120" ∷ "ema200" ∷ []

module _ {F : Type 0} ⦃d : Double F⦄ where
  -- The earlier price of a ticker, none where there is no earlier check.
  abbrev pub last_price : String → Dict (Previous F) → Option F
  last_price t prev = elim (lookup t prev) [ none ↦ none | some p ↦ p.prev_price ]

  abbrev pub last_ema : String → Dict (Previous F) → String → Option F
  last_ema t prev n = elim (lookup t prev) [ none ↦ none | some p ↦ p.prev_ema n ]

  unfoldable pub volatility_of : String → F → F → List (Alert F)
  volatility_of t prev_price price =
      let change_ratio = (price ⊖ prev_price) ⊘ prev_price ⊗ num 100 in
      if d.decimal (pos 25) 1 ≤? change_ratio
      then Alert.surge t change_ratio price ∷ []
      else if change_ratio ≤? d.decimal (minus 25) 1
      then Alert.panic_sell t change_ratio price ∷ []
      else []

  -- `not (prev_price and price)`: both are there and not 0.
  unfoldable pub check_volatility : String → Figures F → Dict (Previous F) → List (Alert F)
  check_volatility t x prev = elim (nonzero (last_price t prev)) [
    | none ↦ []
    | some p ↦ elim (nonzero x.price) [ none ↦ [] | some price ↦ volatility_of t p price ]
  ]

  unfoldable pub check_rsi : String → Figures F → List Key → List (Alert F) × List Key
  check_rsi t x sent = elim (nonzero x.rsi) [
    | none ↦ ([], sent)
    | some rsi ↦
        if rsi <? num 30
        then send_once (t, x.hour, Kind.oversold) (Alert.rsi_low t rsi) sent
        else if num 70 <? rsi
        then send_once (t, x.hour, Kind.overbought) (Alert.rsi_high t rsi) sent
        else ([], sent)
  ]

  unfoldable pub check_undervalued : String → Figures F → List Key → List (Alert F) × List Key
  check_undervalued t x sent = elim (nonzero x.fair_value_dcf) [
    | none ↦ ([], sent)
    | some dcf ↦ elim (nonzero x.price) [
      | none ↦ ([], sent)
      | some price ↦
          if price <? dcf ⊗ d.decimal (pos 8) 1
          then send_once (t, x.hour, Kind.undervalued)
              (Alert.bargain t dcf ((dcf ⊖ price) ⊘ price ⊗ num 100)) sent
          else ([], sent)
    ]
  ]

  -- One average: crossed upwards, downwards, or not.
  unfoldable pub crossing_of : String → String → F → F → F → F → List (Alert F)
  crossing_of t name prev_price price prev_ema ema_val =
      if (prev_price ≤? prev_ema) && (ema_val <? price)
      then Alert.golden_cross t name ema_val price ∷ []
      else if (prev_ema ≤? prev_price) && (price <? ema_val)
      then Alert.dead_cross t name ema_val price ∷ []
      else []

  -- `prev.get(name) or ema_val`
  abbrev pub or_now : Option F → F → F
  or_now none y = y
  or_now (some x) y = if truthy x then x else y

  unfoldable pub crossings :
      String → Figures F → (String → Option F) → F → F → List String → List (Alert F)
  crossings t x before prev_price price [] = []
  crossings t x before prev_price price (name ∷ names) =
      let rest = crossings t x before prev_price price names in
      elim (nonzero (x.ema name)) [
        | none ↦ rest
        | some ema_val ↦
            crossing_of t name prev_price price (or_now (before name) ema_val) ema_val ++ rest
      ]

  unfoldable pub check_ma_crossover : String → Figures F → Dict (Previous F) → List (Alert F)
  check_ma_crossover t x prev = elim (nonzero (last_price t prev)) [
    | none ↦ []
    | some p ↦ elim (nonzero x.price) [
      | none ↦ []
      | some price ↦ crossings t x (last_ema t prev) p price ema_names
    ]
  ]

  unfoldable pub save_current_state : String → Figures F → Dict (Previous F) → Dict (Previous F)
  save_current_state t x prev = insert t (record { prev_price = x.price; prev_ema = x.ema }) prev

  -- `check_and_alert`: the four checks in turn, and then the figures are kept.
  unfoldable pub check_and_alert : String → Figures F → AlertState F → List (Alert F) × AlertState F
  check_and_alert t x s =
      let volatility = check_volatility t x s.prev_data in
      let rsi = check_rsi t x s.sent_alerts in
      let dcf = check_undervalued t x rsi.1 in
      let crossed = check_ma_crossover t x s.prev_data in
      (
        volatility ++ rsi.0 ++ dcf.0 ++ crossed,
        record { sent_alerts = dcf.1; prev_data = save_current_state t x s.prev_data },
      )

-- `get_pending_alerts` returns what waits and leaves nothing.
unfoldable pub get_pending_alerts : {F : Type 0} → List (Alert F) → List (Alert F) × List (Alert F)
get_pending_alerts pending = (pending, [])

-- Alerts of users, with the parts of the schema that the service reads.
pub record PriceAlert (F : Type 0) : Type 0 where
  pub alert_ticker : String
  pub condition : String
  pub target_price : F
  pub is_active : Bool

module _ {F : Type 0} ⦃d : Double F⦄ where
  unfoldable pub add_user_alert :
      Option String → PriceAlert F → List (PriceAlert F) → List (PriceAlert F)
  add_user_alert resolved a alerts =
      alerts
      ++ record a {
        alert_ticker = elim resolved [
          | none ↦ a.alert_ticker
          | some t ↦ if str_eq t "" then a.alert_ticker else t
        ];
      }
        ∷ []

  -- The price of the live state, or else a downloaded one; 0 counts as missing.
  unfoldable pub current_price_of : (String → Option F) → String → States F → Option F
  current_price_of download t states = elim (lookup t states) [
    | none ↦ nonzero (download t)
    | some s ↦ nonzero (some s.current_price)
  ]

  unfoldable pub is_reached : PriceAlert F → F → Bool
  is_reached a current =
      (str_eq a.condition "above" && a.target_price ≤? current)
      || (str_eq a.condition "below" && current ≤? a.target_price)

  -- The alerts that have been reached, with the price.
  unfoldable pub check_user_alerts :
      (String → Option F) → States F → List (PriceAlert F) → List (PriceAlert F × F)
  check_user_alerts download states [] = []
  check_user_alerts download states (a ∷ alerts) =
      let rest = check_user_alerts download states alerts in
      if a.is_active
      then elim (current_price_of download a.alert_ticker states) [
        | none ↦ rest
        | some current ↦ if is_reached a current then (a, current) ∷ rest else rest
      ]
      else rest
