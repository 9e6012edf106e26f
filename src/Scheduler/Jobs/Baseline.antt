-- ===== src/Scheduler/Jobs/Baseline.antt =====
-- The first check for releases after a start, in services/base/scheduler_service.py.
use stock_advisor.Prelude.{Bool, Option, String, [], none, some, ℕ, ◌≡◌}
use stock_advisor.Floats.{Double}
use stock_advisor.Macro.Cache.{Download, MacroState}
use stock_advisor.Strategy.Control.{Engine}
use stock_advisor.Scheduler.Jobs.{StartInput, check_releases, init_economic_baselines, start_server}
use stock_advisor.Releases.Repeat.{check_for_new_releases-twice}

module _ {F : Type 0} ⦃d : Double F⦄ where
  -- A check for releases that finds the latest days that a start of the server found leaves the
  -- macro state as it is.
  pub start_server-check_releases :
      (latest_of : String → Option ℕ) (readable synced : Bool) (e : Engine F) (w : Download F)
      (s : MacroState F)
      → let i : StartInput = record {
        latest_of = some latest_of;
        state_readable = readable;
        sync_succeeds = synced;
      } in
        (check_releases latest_of w (start_server i none e).last_obs_date s).1 ≡ s
  unfolding start_server check_releases init_economic_baselines
  start_server-check_releases latest_of readable synced e w s =
      rw (check_for_new_releases-twice latest_of [])
