-- ===== src/Strategy/Control/Tests.antt =====
-- Runs of the switch, and its theorems at concrete inputs.
use stock_advisor.Prelude.{ℕ, [], false, none, refl, some, true, ◌∷◌, ◌≡◌}
use stock_advisor.Strategy.Control.{
  Engine, begin_run, end_run, get_top_weight_overrides, load_state, restart, restore_enabled_state,
  save_state, set_enabled, set_top_weight_overrides,
}
use stock_advisor.Strategy.Control.Restart.{restart-set_enabled, switch_lost_in_run}

abbrev running : Engine ℕ
running = record {
  enabled = true;
  file = some (record { enabled_key = some true; top_weight_overrides = none; users = [] });
}

restart-set_enabled_example :
    ((restart (set_enabled true false running)).enabled ≡ false)
    × ((restart
          (set_top_weight_overrides (("AAPL", 5) ∷ []) (set_enabled true false running))).enabled
        ≡ false)
    × (get_top_weight_overrides
          (set_enabled true false (set_top_weight_overrides (("AAPL", 5) ∷ []) running))
        ≡ ("AAPL", 5) ∷ [])
restart-set_enabled_example = restart-set_enabled false (("AAPL", 5) ∷ []) running

-- The engine is switched off during a run, and a restart switches it on again.
switched_on_again :
    (restart (end_run (begin_run "sean" running) (set_enabled true false running))).enabled ≡ true
unfolding restart set_enabled begin_run end_run save_state restore_enabled_state load_state
switched_on_again = refl

switch_lost_in_run_example :
    (let after = end_run (begin_run "sean" running) (set_enabled true false running) in
      (after.enabled ≡ false) × ((restart after).enabled ≡ (restart running).enabled))
switch_lost_in_run_example = switch_lost_in_run "sean" false running refl
