-- ===== src/Settings/Service.antt =====
-- The class `SettingsService`. A call takes the clock's reading in microseconds and returns the new
-- state. `float(text)` and `int(float(text))` belong to Python: they are arguments, `none` where
-- they raise.
pub mod Cache
pub mod Startup
use stock_advisor.Prelude.{
  ◌+◌, List, Option, String, [], if◌then◌else◌, ltb, member, none, some, ℕ, ◌∷◌,
}
use stock_advisor.Prelude.Dict.{Dict, insert, lookup, remove}
use stock_advisor.Settings.Repository.{Row, Table, get, get_all, set, upsert_many}

pub record Settings : Type 0 where
  pub table : Table
  pub cache : Dict (Option String × ℕ)

-- `_CACHE_TTL`
abbrev pub cache_ttl : ℕ
cache_ttl = 30_000_000

module _ (defaults : Dict (String × String)) where
  -- `DEFAULT_SETTINGS.get(key, (default,))[0]`
  unfoldable pub default_value : String → Option String → Option String
  default_value key default = elim (lookup key defaults) [ none ↦ default | some (v, _) ↦ some v ]

  -- What `get_setting` reads past its cache.
  unfoldable pub current_value : Table → String → Option String → Option String
  current_value table key default = elim (get table key) [
    | some v ↦ some v
    | none ↦ default_value key default
  ]

  -- A cached entry that has not run out.
  unfoldable pub cached_value : Settings → ℕ → String → Option (Option String)
  cached_value s now key = elim (lookup key s.cache) [
    | none ↦ none
    | some (v, expires) ↦ if ltb now expires then some v else none
  ]

  unfoldable pub get_setting : Settings → ℕ → String → Option String → Option String × Settings
  get_setting s now key default = elim (cached_value s now key) [
    | some v ↦ (v, s)
    | none ↦
        let value = current_value s.table key default in
        (value, record s { cache = insert key (value, now + cache_ttl) s.cache })
  ]

  -- `get_float` and `get_int`, for a reading of texts as numbers
  unfoldable pub get_number :
      {A : Type 0} → (String → Option A) → Settings → ℕ → String → A → A × Settings
  get_number read s now key default =
      let (val, s') = get_setting s now key none in
      elim val [
        | none ↦ (default, s')
        | some text ↦ elim (read text) [ some n ↦ (n, s') | none ↦ (default, s') ]
      ]

  -- The description that `set_setting` writes with a new row.
  unfoldable pub description_of : String → String
  description_of key = elim (lookup key defaults) [ none ↦ "" | some (_, d) ↦ d ]

  unfoldable pub set_setting : Settings → String → String → Option Row × Settings
  set_setting s key value =
      let (result, table') = set s.table key value (description_of key) in
      (result, record { table = table'; cache = remove key s.cache })

  -- One of the corrections of `init_defaults`: an old default gives way to the new one.
  unfoldable pub correct : Table → String → List String → Table
  correct table key old_values = elim (get table key) [
    | none ↦ table
    | some current ↦
        if member current old_values
        then (elim (default_value key none) [
          | none ↦ table
          | some value ↦ (set table key value "").1
        ])
        else table
  ]

  -- `init_defaults`: it writes the table, and leaves the cache as it is.
  unfoldable pub init_defaults : Settings → Settings
  init_defaults s =
      let t1 = upsert_many s.table defaults in
      let t2 = correct t1 "STRATEGY_TAKE_PROFIT_PCT" ("5.0" ∷ "5" ∷ "" ∷ []) in
      let t3 = correct t2 "STRATEGY_STOP_LOSS_PCT" ("-10.0" ∷ "-10" ∷ "" ∷ []) in
      record s { table = (set t3 "STRATEGY_TICK_ENABLED" "0" "").1 }

  unfoldable pub get_all_settings : Settings → Dict Row × Settings
  get_all_settings s = let s' = init_defaults s in (get_all s'.table, s')

  -- `update_tick_settings`
  unfoldable pub update_tick_settings : Settings → Dict String → Settings
  update_tick_settings s [] = s
  update_tick_settings s ((key, value) ∷ updates) =
      update_tick_settings (set_setting s key value).1 updates
