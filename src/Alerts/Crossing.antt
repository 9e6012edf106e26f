-- ===== src/Alerts/Crossing.antt =====
-- Crossings of averages and the alerts of users, in services/notification/alert_service.py.
use stock_advisor.Prelude.{
  ◌++◌, All, Bool-cases, List, Option, Option-cases, String, [], arith, inl, inr, none, refl, some,
  true, ◌∷◌, ◌≡◌, eq_refl, if_cases, option_cases,
}
use stock_advisor.Prelude.Dict.{Dict, lookup-insert}
use stock_advisor.Floats.{Double, IsOrdered, truthy}
use stock_advisor.Alerts.{
  Figures, Previous, PriceAlert, check_ma_crossover, check_user_alerts, crossing_of, crossings,
  current_price_of, is_reached, save_current_state, ema_names, last_ema, last_price,
}
use stock_advisor.MarketData.Registry.{States}
use stock_advisor.MarketData.Views.{nonzero}

module _ {F : Type 0} ⦃d : Double F⦄ where
  crossing_of-same : (o : IsOrdered F) (t name : String) (p e : F) → crossing_of t name p p e e ≡ []
  unfolding crossing_of
  crossing_of-same o t name p e = ground (arith, o.not-lt_of_le p e, o.not-lt_of_le e p)

  -- `nonzero` keeps a number as it is.
  nonzero-some : (o : Option F) (x : F) → nonzero o ≡ some x → (o ≡ some x) × (truthy x ≡ true)
  nonzero-some none x e = ground (arith, e)
  nonzero-some (some y) x e = ground (arith, e, Bool-cases (truthy y))

  crossings-same :
      (o : IsOrdered F) (t : String) (x : Figures F) (before : String → Option F) (p : F)
      (names : List String)
      → ((name : String) → before name ≡ x.ema name)
      → crossings t x before p p names ≡ []
  unfolding crossings
  crossings-same o t x before p [] h = refl
  crossings-same o t x before p (name ∷ names) h = elim (Option-cases (nonzero (x.ema name))) [
    | inl e ↦ ground (arith, e, crossings-same o t x before p names h)
    | inr (v, e) ↦
        let q = nonzero-some (x.ema name) v e in
        ground (
          arith,
          e,
          q,
          h name,
          crossing_of-same o t name p v,
          crossings-same o t x before p names h,
        )
  ]

  -- A check with the figures that the last check kept finds no crossing of an average.
  pub check_ma_crossover-repeated :
      (o : IsOrdered F) (t : String) (x : Figures F) (prev : Dict (Previous F))
      → check_ma_crossover t x (save_current_state t x prev) ≡ []
  unfolding check_ma_crossover save_current_state
  check_ma_crossover-repeated o t x prev =
      let saved = save_current_state t x prev in
      let figures : Previous F = record { prev_price = x.price; prev_ema = x.ema } in
      let price : last_price t saved ≡ x.price =
        ground (arith, lookup-insert t t figures prev, eq_refl t) in
      let emas : (name : String) → last_ema t saved name ≡ x.ema name =
        λ name. ground (arith, lookup-insert t t figures prev, eq_refl t) in
      elim (Option-cases (nonzero x.price)) [
        | inl e ↦ ground (arith, price, e)
        | inr (p, e) ↦
            ground (arith, price, e, crossings-same o t x (last_ema t saved) p ema_names emas)
      ]

  check_user_alerts-append :
      (download : String → Option F) (states : States F) (xs ys : List (PriceAlert F))
      → check_user_alerts download states (xs ++ ys)
        ≡ check_user_alerts download states xs ++ check_user_alerts download states ys
  unfolding check_user_alerts
  check_user_alerts-append download states [] ys = refl
  check_user_alerts-append download states (a ∷ xs) ys = ground (
    arith,
    check_user_alerts-append download states xs ys,
    Bool-cases a.is_active,
    Option-cases (current_price_of download a.alert_ticker states),
  )

  -- A user's alert that fires is active, and the price has reached its target on its side.
  abbrev pub Fired : (String → Option F) → States F → PriceAlert F × F → Type 0
  Fired download states r =
      (r.0.is_active ≡ true)
      × (current_price_of download r.0.alert_ticker states ≡ some r.1)
      × (is_reached r.0 r.1 ≡ true)

  check_user_alerts-Fired :
      (download : String → Option F) (states : States F) (alerts : List (PriceAlert F))
      → All (Fired download states) (check_user_alerts download states alerts)
  unfolding check_user_alerts
  check_user_alerts-Fired download states [] = tt
  check_user_alerts-Fired download states (a ∷ alerts) =
      let P : List (PriceAlert F × F) → Type 0 = All (Fired download states) in
      let rest = check_user_alerts download states alerts in
      let q = check_user_alerts-Fired download states alerts in
      if_cases P a.is_active _ rest
        (λ x.
          option_cases P (current_price_of download a.alert_ticker states) rest _ (λ n. q)
            (λ current c. if_cases P (is_reached a current) _ rest (λ r. ((x, c, r), q)) (λ n. q)))
        (λ n. q)
