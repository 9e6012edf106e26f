-- ===== src/Strategy/Control.antt =====
-- The switch of the strategy engine and its state file, in
-- services/strategy/trading_strategy_service.py: set_enabled, _restore_enabled_state, the overrides of
-- weights, and what run_strategy does with the file. A state that is written is read back as it was.
pub mod Restart
mod Tests
use stock_advisor.Prelude.{
  ℕ, ◌++◌, Bool, List, Option, String, [], false, if◌then◌else◌, member, none, some, true, ◌∷◌,
}
use stock_advisor.Prelude.Dict.{Dict, insert, lookup}
use stock_advisor.Strategy.TickTrade.{TickState}

-- The part of a user: the days of the last split sales and additional buys, and the state of tick
-- trading. A missing dict stands as an empty one; `panic_locks` stays empty, as
-- nothing adds to it.
pub record UserState (F : Type 0) : Type 0 where
  pub sell_cooldown : Dict String
  pub add_buy_cooldown : Dict String
  pub tick_trade : Option (TickState F)

pub record StateFile (F : Type 0) : Type 0 where
  pub enabled_key : Option Bool
  pub top_weight_overrides : Option (Dict F)
  pub users : Dict (UserState F)

-- The flag of the class, and the file, which may be missing.
pub record Engine (F : Type 0) : Type 0 where
  pub enabled : Bool
  pub file : Option (StateFile F)

module _ {F : Type 0} where
  unfoldable pub load_state : Engine F → StateFile F
  load_state e = elim e.file [
    | none ↦ record { enabled_key = none; top_weight_overrides = none; users = [] }
    | some s ↦ s
  ]

  -- A file that cannot be written stays as it was.
  unfoldable pub save_state : Bool → StateFile F → Engine F → Engine F
  save_state writable s e = if writable then record e { file = some s } else e

  unfoldable pub set_enabled : Bool → Bool → Engine F → Engine F
  set_enabled writable b e =
      save_state writable (record (load_state e) { enabled_key = some b })
        (record e { enabled = b })

  unfoldable pub restore_enabled_state : Engine F → Engine F
  restore_enabled_state e = elim (load_state e).enabled_key [
    | none ↦ e
    | some b ↦ if b then record e { enabled = true } else e
  ]

  -- A new process: the flag is off until it is restored.
  unfoldable pub restart : Engine F → Engine F
  restart e = restore_enabled_state (record e { enabled = false })

  unfoldable pub get_top_weight_overrides : Engine F → Dict F
  get_top_weight_overrides e = elim (load_state e).top_weight_overrides [ none ↦ [] | some o ↦ o ]

  unfoldable pub set_top_weight_overrides : Dict F → Engine F → Engine F
  set_top_weight_overrides o e =
      save_state true (record (load_state e) { top_weight_overrides = some o }) e

  abbrev pub no_state : UserState F
  no_state = record { sell_cooldown = []; add_buy_cooldown = []; tick_trade = none }

  -- `state.setdefault(user_id, {})`: what is stored for the user, or a new part.
  unfoldable pub user_part : String → StateFile F → UserState F
  user_part user_id s = elim (lookup user_id s.users) [ none ↦ no_state | some u ↦ u ]

  -- run_strategy reads the file before it collects the signals, with a part for its user; an engine
  -- that is off does nothing.
  unfoldable pub begin_run : String → Engine F → Option (StateFile F)
  begin_run user_id e =
      let s = load_state e in
      if e.enabled
      then some (record s { users = insert user_id (user_part user_id s) s.users })
      else none

  -- It writes what it has read when the trades are done.
  unfoldable pub end_run : Option (StateFile F) → Engine F → Engine F
  end_run none e = e
  end_run (some s) e = save_state true s e
