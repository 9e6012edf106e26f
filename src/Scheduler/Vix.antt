-- ===== src/Scheduler/Vix.antt =====
-- `_check_vix_spike` of services/base/scheduler_service.py and its dict `_vix_alert_last`. Times are in
-- seconds; the closes of the VIX are an argument, oldest first. The texts of the alerts are left out,
-- and no call is taken to raise.
pub mod Spacing
mod Tests
use stock_advisor.Prelude.{
  ◌&&◌, ◌*◌, Bool, List, Option, String, [], if◌then◌else◌, none, some, suc, true, ◌||◌, ℕ, ◌∷◌,
}
use stock_advisor.Floats.{◌<?◌, Double, max_f, nought, num, ◌⊖◌, ◌⊗◌, ◌⊘◌}
use stock_advisor.Prelude.Dict.{Dict, contains, insert, lookup}
use stock_advisor.Strategy.TickTrade.{closes}
use stock_advisor.Tickers.State.{get_or}

pub data Level : Type 0 where
  emergency spike recovery : Level

-- The dict of the last alerts, the alerts that were sent, newest first, and the number of times that
-- the macro cache was dropped.
pub record VixState (F : Type 0) : Type 0 where
  pub last : Dict F
  pub sent : List (Level × F)
  pub dropped : ℕ

abbrev pub level_key : Level → String
level_key emergency = "emergency"
level_key spike = "spike"
level_key recovery = "recovery"

abbrev pub no_alerts : {F : Type 0} → VixState F
no_alerts = record { last = []; sent = []; dropped = 0 }

module _ {F : Type 0} ⦃d : Double F⦄ where
  -- `_cooldown_ok`
  unfoldable pub cooldown_ok : F → String → ℕ → Dict F → Bool
  cooldown_ok now key hours last = elim (lookup key last) [
    | none ↦ true
    | some t ↦ num (hours * 3600) <? now ⊖ t
  ]

  -- The change over five days in percent, 0 where the old value is not positive.
  unfoldable pub five_day_change : F → F → F
  five_day_change cur old = if nought <? old then (cur ⊖ old) ⊘ old ⊗ num 100 else nought

  -- The time of the last alert that a recovery follows; 999 days are 86313600 seconds.
  unfoldable pub last_alert : F → Dict F → F
  last_alert now last =
      let long_ago = now ⊖ num 86313600 in
      max_f (get_or (lookup "spike" last) long_ago) (get_or (lookup "emergency" last) long_ago)

  unfoldable pub raise_alert : Level → F → VixState F → VixState F
  raise_alert level now s = record s {
    last = insert (level_key level) now s.last;
    sent = (level, now) ∷ s.sent;
  }

  unfoldable pub drop_cache : VixState F → VixState F
  drop_cache s = record s { dropped = suc s.dropped }

  -- An emergency counts as a spike, too.
  unfoldable pub raise_emergency : F → VixState F → VixState F
  raise_emergency now s =
      let raised = drop_cache (raise_alert emergency now s) in
      record raised { last = insert "spike" now raised.last }

  -- The branch of a value below 18 after an alert.
  unfoldable pub check_recovery : F → F → VixState F → VixState F
  check_recovery now cur s =
      if cur <? num 18 && (contains "spike" s.last || contains "emergency" s.last)
      then (if num 3600 <? now ⊖ last_alert now s.last && cooldown_ok now "recovery" 48 s.last
          then raise_alert recovery now s
          else s)
      else s

  unfoldable pub check_spike : F → F → F → VixState F → VixState F
  check_spike now cur change s =
      if num 40 <? change && num 22 <? cur && cooldown_ok now "spike" 24 s.last
      then drop_cache (raise_alert spike now s)
      else check_recovery now cur s

  -- The branches, for the current value and its change.
  unfoldable pub check_levels : F → F → F → VixState F → VixState F
  check_levels now cur change s =
      if num 35 <? cur && cooldown_ok now "emergency" 24 s.last
      then raise_emergency now s
      else check_spike now cur change s

  -- The newest close, and the one five days before.
  unfoldable pub current_and_old : List F → Option (F × F)
  current_and_old [] = none
  current_and_old (c0 ∷ []) = none
  current_and_old (c0 ∷ c1 ∷ []) = none
  current_and_old (c0 ∷ c1 ∷ c2 ∷ []) = none
  current_and_old (c0 ∷ c1 ∷ c2 ∷ c3 ∷ []) = none
  current_and_old (c0 ∷ c1 ∷ c2 ∷ c3 ∷ c4 ∷ []) = none
  current_and_old (c0 ∷ c1 ∷ c2 ∷ c3 ∷ c4 ∷ c5 ∷ []) = some (c5, c0)
  current_and_old (c0 ∷ c1 ∷ c2 ∷ c3 ∷ c4 ∷ c5 ∷ c6 ∷ rest) =
      current_and_old (c1 ∷ c2 ∷ c3 ∷ c4 ∷ c5 ∷ c6 ∷ rest)

  -- `_check_vix_spike`; fewer than six closes change nothing.
  unfoldable pub check_vix_spike : F → List F → VixState F → VixState F
  check_vix_spike now closes s = elim (current_and_old closes) [
    | none ↦ s
    | some (cur, old) ↦ check_levels now cur (five_day_change cur old) s
  ]

  unfoldable pub check_each : List (F × List F) → VixState F → VixState F
  check_each [] s = s
  check_each (x ∷ checks) s = check_each checks (check_vix_spike x.0 x.1 s)
