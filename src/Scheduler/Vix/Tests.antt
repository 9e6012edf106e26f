-- ===== src/Scheduler/Vix/Tests.antt =====
-- Runs of the VIX check, and its theorem at them.
use stock_advisor.Floats.Fixed.{Fixed, fixed_double}
use stock_advisor.Scheduler.Vix.Spacing.{IsSpaced, check_each-IsSpaced}
use stock_advisor.Prelude.{List, [], map, refl, ℕ, ◌∷◌, ◌≡◌}
use stock_advisor.Scheduler.Vix.{
  check_each, check_levels, check_recovery, check_spike, check_vix_spike, cooldown_ok,
  current_and_old, drop_cache, five_day_change, last_alert, level_key, no_alerts, raise_alert,
  raise_emergency,
}
use stock_advisor.Prelude.Dict.{insert, lookup}
use stock_advisor.Floats.{num}
use stock_advisor.Prelude.Int.{◌*ℤ◌, ◌+ℤ◌, ◌-ℤ◌}

-- Five days at 24, and the values of three checks.
abbrev closes_to : ℕ → List Fixed
closes_to n = num 24 ∷ num 24 ∷ num 24 ∷ num 24 ∷ num 24 ∷ num n ∷ []

abbrev checks : List (Fixed × List Fixed)
checks =
    (num 1000, closes_to 40)
    ∷ (num 2800, closes_to 36)
    ∷ (num 90000, closes_to 17)
    ∷ (num 100_000, closes_to 36)
    ∷ []

-- Two emergencies a day apart, and a return to normal between them.
three_alerts :
    map (λ a. level_key a.0) (check_each checks no_alerts).sent
    ≡ "emergency" ∷ "recovery" ∷ "emergency" ∷ []
unfolding check_each check_vix_spike current_and_old check_levels check_spike check_recovery
    cooldown_ok last_alert raise_alert raise_emergency drop_cache five_day_change lookup insert ◌*ℤ◌
    ◌+ℤ◌ ◌-ℤ◌
three_alerts = refl

check_each-IsSpaced_example : IsSpaced (check_each checks no_alerts).sent
check_each-IsSpaced_example = check_each-IsSpaced checks
