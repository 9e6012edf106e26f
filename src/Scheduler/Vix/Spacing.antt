-- ===== src/Scheduler/Vix/Spacing.antt =====
-- How far apart the alerts of `_check_vix_spike` are, in services/base/scheduler_service.py.
-- The alerts that hold back an alert of a level: an emergency holds back a spike.
use stock_advisor.Prelude.{
  ◌*◌, Bool, List, Option, String, [], arith, false, if◌then◌else◌, none, some, true, ℕ, ◌∷◌, ◌≡◌,
  ◌&&◌, Bool-cases, if_cases, if_elim, option_elim, refl, ◌||◌,
}
use stock_advisor.Prelude.Dict.{Dict, insert, lookup, lookup-insert, contains}
use stock_advisor.Floats.{Double, num, ◌⊖◌, ◌<?◌}
use stock_advisor.Scheduler.Vix.{
  Level, VixState, cooldown_ok, drop_cache, emergency, raise_alert, raise_emergency, recovery,
  spike, check_each, check_levels, check_vix_spike, current_and_old, five_day_change, no_alerts,
  check_recovery, check_spike, last_alert,
}
use stock_advisor.Strategy.TickTrade.{closes}

abbrev pub holds_back : Level → Level → Bool
holds_back emergency emergency = true
holds_back emergency spike = true
holds_back spike spike = true
holds_back recovery recovery = true
holds_back emergency recovery = false
holds_back spike emergency = false
holds_back spike recovery = false
holds_back recovery emergency = false
holds_back recovery spike = false

abbrev pub pause_hours : Level → ℕ
pause_hours emergency = 24
pause_hours spike = 24
pause_hours recovery = 48

and_right : (a b : Bool) → (a && b) ≡ true → b ≡ true
and_right a b p = ground (arith, p, Bool-cases a)

module _ {F : Type 0} ⦃d : Double F⦄ where
  -- The time of the newest alert that holds back one of a level.
  unfoldable pub newest : Level → List (Level × F) → Option F
  newest level [] = none
  newest level ((l, t) ∷ sent) = if holds_back l level then some t else newest level sent

  abbrev pub AreApart : ℕ → F → Option F → Type 0
  AreApart hours t none = Unit
  AreApart hours t (some earlier) = d.lt (num (hours * 3600)) (t ⊖ earlier) ≡ true

  -- Every alert is more than its pause after the newest earlier one that holds it back.
  abbrev pub IsSpaced : List (Level × F) → Type 0
  IsSpaced [] = Unit
  IsSpaced ((l, t) ∷ sent) = AreApart (pause_hours l) t (newest l sent) × IsSpaced sent

  -- The dict has these times.
  pub record IsLogged (s : VixState F) : Type 0 where
    pub emergency_last : lookup "emergency" s.last ≡ newest emergency s.sent
    pub spike_last : lookup "spike" s.last ≡ newest spike s.sent
    pub recovery_last : lookup "recovery" s.last ≡ newest recovery s.sent

  abbrev IsGood : VixState F → Type 0
  IsGood s = IsLogged s × IsSpaced s.sent

  cooldown_ok-AreApart :
      (now : F) (key : String) (hours : ℕ) (last : Dict F) (o : Option F)
      → lookup key last ≡ o
      → cooldown_ok now key hours last ≡ true
      → AreApart hours now o
  unfolding cooldown_ok
  cooldown_ok-AreApart now key hours last none p q = tt
  cooldown_ok-AreApart now key hours last (some t) p q = ground (arith, p, q)

  -- What the dict has after a write of each key.
  insert-last :
      (now : F) (last : Dict F)
      → (lookup "emergency" (insert "spike" now last) ≡ lookup "emergency" last)
        × (lookup "recovery" (insert "spike" now last) ≡ lookup "recovery" last)
        × (lookup "spike" (insert "spike" now last) ≡ some now)
        × (lookup "spike" (insert "emergency" now last) ≡ lookup "spike" last)
        × (lookup "recovery" (insert "emergency" now last) ≡ lookup "recovery" last)
        × (lookup "emergency" (insert "emergency" now last) ≡ some now)
        × (lookup "spike" (insert "recovery" now last) ≡ lookup "spike" last)
        × (lookup "emergency" (insert "recovery" now last) ≡ lookup "emergency" last)
        × (lookup "recovery" (insert "recovery" now last) ≡ some now)
  insert-last now last = (
    lookup-insert "spike" "emergency" now last,
    lookup-insert "spike" "recovery" now last,
    lookup-insert "spike" "spike" now last,
    lookup-insert "emergency" "spike" now last,
    lookup-insert "emergency" "recovery" now last,
    lookup-insert "emergency" "emergency" now last,
    lookup-insert "recovery" "spike" now last,
    lookup-insert "recovery" "emergency" now last,
    lookup-insert "recovery" "recovery" now last,
  )

  raise_alert-IsLogged :
      (now : F) (s : VixState F)
      → IsLogged s
      → IsLogged (drop_cache (raise_alert spike now s))
        × IsLogged (raise_alert recovery now s)
        × IsLogged (raise_emergency now s)
  unfolding raise_alert raise_emergency drop_cache newest
  raise_alert-IsLogged now s p =
      ground (arith, p, insert-last now s.last, insert-last now (insert "emergency" now s.last))

  raise_spike-IsGood :
      (now : F) (s : VixState F)
      → IsGood s
      → cooldown_ok now "spike" 24 s.last ≡ true
      → IsGood (drop_cache (raise_alert spike now s))
  unfolding raise_alert drop_cache
  raise_spike-IsGood now s p free = (
    (raise_alert-IsLogged now s p.0).0,
    (cooldown_ok-AreApart now "spike" 24 s.last (newest spike s.sent) (p.0).spike_last free, p.1),
  )

  raise_recovery-IsGood :
      (now : F) (s : VixState F)
      → IsGood s
      → cooldown_ok now "recovery" 48 s.last ≡ true
      → IsGood (raise_alert recovery now s)
  unfolding raise_alert
  raise_recovery-IsGood now s p free = (
    (raise_alert-IsLogged now s p.0).1,
    (
      cooldown_ok-AreApart now "recovery" 48 s.last (newest recovery s.sent) (p.0).recovery_last
          free,
      p.1,
    ),
  )

  raise_emergency-IsGood :
      (now : F) (s : VixState F)
      → IsGood s
      → cooldown_ok now "emergency" 24 s.last ≡ true
      → IsGood (raise_emergency now s)
  unfolding raise_emergency raise_alert drop_cache
  raise_emergency-IsGood now s p free = (
    (raise_alert-IsLogged now s p.0).2,
    (
      cooldown_ok-AreApart now "emergency" 24 s.last (newest emergency s.sent) (p.0).emergency_last
          free,
      p.1,
    ),
  )

  check_recovery-IsGood :
      (now cur : F) (s : VixState F) → IsGood s → IsGood (check_recovery now cur s)
  unfolding check_recovery
  check_recovery-IsGood now cur s p =
      let due = num 3600 <? now ⊖ last_alert now s.last in
      let free = cooldown_ok now "recovery" 48 s.last in
      let raised = raise_alert recovery now s in
      let inner : IsGood (if due && free then raised else s) =
        if_cases IsGood (due && free) raised s
          (λ e. raise_recovery-IsGood now s p (and_right due free e)) (λ e. p) in
      if_elim IsGood (cur <? num 18 && (contains "spike" s.last || contains "emergency" s.last))
        (if due && free then raised else s) s inner p

  check_spike-IsGood :
      (now cur change : F) (s : VixState F) → IsGood s → IsGood (check_spike now cur change s)
  unfolding check_spike
  check_spike-IsGood now cur change s p =
      let free = cooldown_ok now "spike" 24 s.last in
      if_cases IsGood (num 40 <? change && num 22 <? cur && free)
        (drop_cache (raise_alert spike now s)) (check_recovery now cur s)
        (λ e. raise_spike-IsGood now s p (and_right (num 40 <? change && num 22 <? cur) free e))
        (λ e. check_recovery-IsGood now cur s p)

  check_levels-IsGood :
      (now cur change : F) (s : VixState F) → IsGood s → IsGood (check_levels now cur change s)
  unfolding check_levels
  check_levels-IsGood now cur change s p =
      let free = cooldown_ok now "emergency" 24 s.last in
      if_cases IsGood (num 35 <? cur && free) (raise_emergency now s) (check_spike now cur change s)
        (λ e. raise_emergency-IsGood now s p (and_right (num 35 <? cur) free e))
        (λ e. check_spike-IsGood now cur change s p)

  check_vix_spike-IsGood :
      (now : F) (closes : List F) (s : VixState F)
      → IsGood s
      → IsGood (check_vix_spike now closes s)
  unfolding check_vix_spike
  check_vix_spike-IsGood now closes s p =
      option_elim IsGood (current_and_old closes) s
        (λ x. check_levels now x.0 (five_day_change x.0 x.1) s) p
        (λ x. check_levels-IsGood now x.0 (five_day_change x.0 x.1) s p)

  check_each-IsGood :
      (checks : List (F × List F)) (s : VixState F) → IsGood s → IsGood (check_each checks s)
  unfolding check_each
  check_each-IsGood [] s p = p
  check_each-IsGood (x ∷ checks) s p =
      check_each-IsGood checks (check_vix_spike x.0 x.1 s) (check_vix_spike-IsGood x.0 x.1 s p)

  -- In any sequence of checks from a start without alerts, an emergency comes more than 24 hours
  -- after the one before, a spike more than 24 hours after the newest earlier spike or emergency,
  -- and a recovery more than 48 hours after the one before.
  pub check_each-IsSpaced :
      (checks : List (F × List F)) → IsSpaced (check_each checks no_alerts).sent
  unfolding newest lookup
  check_each-IsSpaced checks =
      (check_each-IsGood checks no_alerts
        (record { emergency_last = refl; spike_last = refl; recovery_last = refl }, tt)).1
