-- ===== src/Alerts/Once.antt =====
-- The alerts of services/notification/alert_service.py that go out once for a ticker and an hour.
use stock_advisor.Prelude.{
  ℕ, ◌+◌, Bool, List, String, [], false, filter, length, refl, true, ◌∷◌, ◌≡◌, ◌++◌, Bool-cases,
  Option, arith, if_elim, inl, inr, option_elim,
}
use stock_advisor.Alerts.{
  Alert, Figures, Key, check_rsi, send_once, was_sent, Kind, Previous, check_undervalued,
  check_volatility, crossing_of, crossings, last_price, volatility_of, AlertState, check_and_alert,
  check_ma_crossover, ema_names, last_ema, or_now,
}
use stock_advisor.Floats.{Double, ◌<?◌, num, ◌⊖◌, ◌⊗◌, ◌⊘◌}
use stock_advisor.Prelude.Dict.{Dict}
use stock_advisor.MarketData.Views.{nonzero}
use stock_advisor.Prelude.Int.{pos}

-- No key stands twice.
abbrev pub IsUnique : List Key → Type 0
IsUnique [] = Unit
IsUnique (k ∷ ks) = (was_sent k ks ≡ false) × IsUnique ks

-- The alerts that are sent once an hour.
abbrev pub is_keyed : {F : Type 0} → Alert F → Bool
is_keyed (Alert.rsi_low t r) = true
is_keyed (Alert.rsi_high t r) = true
is_keyed (Alert.bargain t r u) = true
is_keyed a = false

abbrev pub count_keyed : {F : Type 0} → List (Alert F) → ℕ
count_keyed alerts = length (filter is_keyed alerts)

-- The keys before and after, when some alerts went out: no key twice, and a new key for each alert.
pub record Logs {F : Type 0} (sent : List Key) (alerts : List (Alert F)) (after : List Key)
    : Type 0 where
  pub still_unique : IsUnique sent → IsUnique after
  pub counted : count_keyed alerts + length sent ≡ length after

count-append :
    {F : Type 0} (xs ys : List (Alert F)) → count_keyed (xs ++ ys) ≡ count_keyed xs + count_keyed ys
count-append [] ys = omega arith
count-append (x ∷ xs) ys = ground (arith, count-append xs ys, Bool-cases (is_keyed x))

none-Logs : (F : Type 0) (sent : List Key) → Logs {F = F} sent [] sent
none-Logs F sent = record { still_unique = λ p. p; counted = omega arith }

module _ {F : Type 0} ⦃d : Double F⦄ where
  send_once-Logs :
      (k : Key) (a : Alert F) (sent : List Key)
      → is_keyed a ≡ true
      → Logs sent (send_once k a sent).0 (send_once k a sent).1
  unfolding send_once
  send_once-Logs k a sent e = elim (Bool-cases (was_sent k sent)) [
    | inl w ↦ record { still_unique = λ p. ground (arith, p, w); counted = ground (arith, w) }
    | inr w ↦ record { still_unique = λ p. ground (arith, p, w); counted = ground (arith, e, w) }
  ]

  check_rsi-Logs :
      (t : String) (x : Figures F) (sent : List Key)
      → Logs sent (check_rsi t x sent).0 (check_rsi t x sent).1
  unfolding check_rsi
  check_rsi-Logs t x sent =
      let P : List (Alert F) × List Key → Type 0 = λ r. Logs sent r.0 r.1 in
      let n = none-Logs F sent in
      option_elim P (nonzero x.rsi) ([], sent) _ n
        (λ rsi.
          if_elim P (rsi <? num 30) _ _
            (send_once-Logs (t, x.hour, Kind.oversold) (Alert.rsi_low t rsi) sent refl)
            (if_elim P (num 70 <? rsi) _ _
              (send_once-Logs (t, x.hour, Kind.overbought) (Alert.rsi_high t rsi) sent refl) n))

  check_undervalued-Logs :
      (t : String) (x : Figures F) (sent : List Key)
      → Logs sent (check_undervalued t x sent).0 (check_undervalued t x sent).1
  unfolding check_undervalued
  check_undervalued-Logs t x sent =
      let P : List (Alert F) × List Key → Type 0 = λ r. Logs sent r.0 r.1 in
      let n = none-Logs F sent in
      option_elim P (nonzero x.fair_value_dcf) ([], sent) _ n
        (λ dcf.
          option_elim P (nonzero x.price) ([], sent) _ n
            (λ price.
              if_elim P (price <? dcf ⊗ d.decimal (pos 8) 1) _ _
                (send_once-Logs (t, x.hour, Kind.undervalued)
                  (Alert.bargain t dcf ((dcf ⊖ price) ⊘ price ⊗ num 100)) sent refl)
                n))

  -- The other two checks send no keyed alert.
  volatility_of-count : (t : String) (p price : F) → count_keyed (volatility_of t p price) ≡ 0
  unfolding volatility_of
  volatility_of-count t p price = ground arith

  volatility-count :
      (t : String) (x : Figures F) (prev : Dict (Previous F))
      → count_keyed (check_volatility t x prev) ≡ 0
  unfolding check_volatility
  volatility-count t x prev =
      let P : List (Alert F) → Type 0 = λ r. count_keyed r ≡ 0 in
      option_elim P (nonzero (last_price t prev)) [] _ refl
        (λ p. option_elim P (nonzero x.price) [] _ refl (λ price. volatility_of-count t p price))

  crossing_of-count :
      (t name : String) (p price e v : F) → count_keyed (crossing_of t name p price e v) ≡ 0
  unfolding crossing_of
  crossing_of-count t name p price e v = ground arith

  crossings-count :
      (t : String) (x : Figures F) (before : String → Option F) (p price : F) (names : List String)
      → count_keyed (crossings t x before p price names) ≡ 0
  unfolding crossings
  crossings-count t x before p price [] = refl
  crossings-count t x before p price (name ∷ names) =
      let P : List (Alert F) → Type 0 = λ r. count_keyed r ≡ 0 in
      let rest = crossings t x before p price names in
      option_elim P (nonzero (x.ema name)) rest _ (crossings-count t x before p price names) (λ e.
        omega (
          arith,
          crossings-count t x before p price names,
          crossing_of-count t name p price (or_now (before name) e) e,
          count-append (crossing_of t name p price (or_now (before name) e) e) rest,
        ))

  crossover-count :
      (t : String) (x : Figures F) (prev : Dict (Previous F))
      → count_keyed (check_ma_crossover t x prev) ≡ 0
  unfolding check_ma_crossover
  crossover-count t x prev =
      let P : List (Alert F) → Type 0 = λ r. count_keyed r ≡ 0 in
      option_elim P (nonzero (last_price t prev)) [] _ refl (λ p.
        option_elim P (nonzero x.price) [] _ refl
          (λ price. crossings-count t x (last_ema t prev) p price ema_names))

  check_and_alert-Logs :
      (t : String) (x : Figures F) (s : AlertState F)
      → Logs s.sent_alerts (check_and_alert t x s).0 (check_and_alert t x s).1.sent_alerts
  unfolding check_and_alert
  check_and_alert-Logs t x s =
      let one = check_rsi t x s.sent_alerts in
      let two = check_undervalued t x one.1 in
      let vol = check_volatility t x s.prev_data in
      let crossed = check_ma_crossover t x s.prev_data in
      let p = check_rsi-Logs t x s.sent_alerts in
      let q = check_undervalued-Logs t x one.1 in
      let total : count_keyed (vol ++ one.0 ++ two.0 ++ crossed) + length s.sent_alerts
          ≡ length two.1 =
        omega (
          arith,
          p.counted,
          q.counted,
          volatility-count t x s.prev_data,
          crossover-count t x s.prev_data,
          count-append vol one.0,
          count-append (vol ++ one.0) two.0,
          count-append (vol ++ one.0 ++ two.0) crossed,
        ) in
      record { still_unique = λ u. q.still_unique (p.still_unique u); counted = total }

  -- A sequence of checks: all their alerts, and the state after them.
  unfoldable pub run_checks :
      List (String × Figures F) → AlertState F → List (Alert F) × AlertState F
  run_checks [] s = ([], s)
  run_checks ((t, x) ∷ rest) s =
      let one = check_and_alert t x s in
      let more = run_checks rest one.1 in (one.0 ++ more.0, more.1)

  -- Over any sequence of checks, from a state in which no key was sent twice, no key is sent
  -- twice, and the alerts on RSI and on DCF value are as many as the new keys of ticker, hour and
  -- kind.
  pub run_checks-once :
      (checks : List (String × Figures F)) (s : AlertState F)
      → IsUnique s.sent_alerts
      → IsUnique (run_checks checks s).1.sent_alerts
        × (count_keyed (run_checks checks s).0 + length s.sent_alerts
            ≡ length (run_checks checks s).1.sent_alerts)
  unfolding run_checks
  run_checks-once [] s u = (u, omega arith)
  run_checks-once ((t, x) ∷ rest) s u =
      let one = check_and_alert t x s in
      let p = check_and_alert-Logs t x s in
      let more = run_checks-once rest one.1 (p.still_unique u) in
      (more.0, omega (arith, p.counted, more.1, count-append one.0 (run_checks rest one.1).0))
