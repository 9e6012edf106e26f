-- ===== src/Strategy/Control/Restart.antt =====
-- What a restart finds in the state file, with and without a run in between.
use stock_advisor.Prelude.{Bool, Bool-cases, Option-cases, String, arith, true, ◌≡◌}
use stock_advisor.Prelude.Dict.{Dict}
use stock_advisor.Strategy.Control.{
  Engine, begin_run, end_run, get_top_weight_overrides, load_state, restart, restore_enabled_state,
  save_state, set_enabled, set_top_weight_overrides,
}

module _ {F : Type 0} where
  -- After set_enabled has written its file, a restart finds the given flag, also if the overrides
  -- of weights are written in between; and set_enabled keeps the overrides.
  pub restart-set_enabled :
      (b : Bool) (o : Dict F) (e : Engine F)
      → ((restart (set_enabled true b e)).enabled ≡ b)
        × ((restart (set_top_weight_overrides o (set_enabled true b e))).enabled ≡ b)
        × (get_top_weight_overrides (set_enabled true b (set_top_weight_overrides o e)) ≡ o)
  unfolding restart set_enabled set_top_weight_overrides get_top_weight_overrides save_state
      restore_enabled_state load_state
  restart-set_enabled b o e = ground (arith, Bool-cases b)

  -- Where the engine is on when a run of the strategy begins and set_enabled is called before the
  -- run ends, the flag has the new value after the run, but a restart then finds what it would
  -- have found without the call.
  pub switch_lost_in_run :
      (user_id : String) (b : Bool) (e : Engine F)
      → e.enabled ≡ true
      → let after = end_run (begin_run user_id e) (set_enabled true b e) in
        (after.enabled ≡ b) × ((restart after).enabled ≡ (restart e).enabled)
  unfolding restart set_enabled begin_run end_run save_state restore_enabled_state load_state
  switch_lost_in_run user_id b e p = ground (arith, p, Option-cases e.file)
