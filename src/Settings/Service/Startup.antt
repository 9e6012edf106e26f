-- ===== src/Settings/Service/Startup.antt =====
-- What `init_defaults` does to the table, and what the cache hides of it.
use stock_advisor.Prelude.{
  ◌&&◌, Bool, String, [], arith, eq_iff, if◌then◌else◌, none, not, some, str_eq, true, ◌∷◌, ◌≡◌,
  List, Option, Option-cases, false, inl, inr, member, refl, ℕ, ◌∙◌,
}
use stock_advisor.Prelude.Dict.{Dict, contains, insert, lookup, lookup-insert}
use stock_advisor.Settings.Repository.{Row, Table, get, set, upsert_from, written, upsert_many}
use stock_advisor.Settings.Service.{
  Settings, cached_value, correct, current_value, default_value, get_setting, init_defaults,
}

get-set :
    (t : Table) (key value desc j : String)
    → t.writable ≡ true
    → get (set t key value desc).1 j ≡ (if str_eq key j then some value else get t j)
unfolding get set written
get-set t key value desc j w =
    ground
      (arith, eq_iff key j, lookup-insert key j (written (lookup key t.rows) value desc) t.rows)

set-writable :
    (t : Table) (key value desc : String) → (set t key value desc).1.writable ≡ t.writable
unfolding set
set-writable t key value desc = ground arith

-- A dictionary with no key twice.
unfoldable pub distinct {ℓ} : {V : Type ℓ} → Dict V → Bool
distinct [] = true
distinct ((k, v) ∷ d) = not (contains k d) && distinct d

-- What `upsert_many` leaves under a key: the old row, or else the item for it.
lookup-upsert_from :
    (existing : Dict Row) (items : Dict (String × String)) (rows : Dict Row) (j : String)
    → distinct items ≡ true
    → lookup j (upsert_from existing items rows) ≡ elim (lookup j existing) [
      | some r ↦ lookup j rows
      | none ↦ elim (lookup j items) [
        | none ↦ lookup j rows
        | some (v, d) ↦ some (record { value = v; description = d })
      ]
    ]
unfolding upsert_from distinct lookup
lookup-upsert_from existing [] rows j u = ground arith
lookup-upsert_from existing ((k, (v, d)) ∷ items) rows j u =
    let row : Row = record { value = v; description = d } in
    let rows' = if contains k existing then rows else insert k row rows in
    ground
      (arith, eq_iff k j, lookup-insert k j row rows, lookup-upsert_from existing items rows' j)

module _ (defaults : Dict (String × String)) where
  get-upsert_many :
      (t : Table) (j : String)
      → t.writable ≡ true
      → distinct defaults ≡ true
      → get (upsert_many t defaults) j ≡ current_value defaults t j none
  unfolding upsert_many current_value default_value get
  get-upsert_many t j w u = ground (arith, lookup-upsert_from t.rows defaults t.rows j u)

  -- The value of a key after its correction.
  abbrev corrected : Table → String → List String → Option String
  corrected t key old_values = elim (get t key) [
    | none ↦ none
    | some current ↦
        if member current old_values
        then (elim (default_value defaults key none) [ none ↦ some current | some v ↦ some v ])
        else some current
  ]

  get-correct :
      (t : Table) (key : String) (old_values : List String) (j : String)
      → t.writable ≡ true
      → get (correct defaults t key old_values) j
        ≡ (if str_eq key j then corrected t key old_values else get t j)
  unfolding correct
  get-correct t key old_values j w = elim (Option-cases (get t key)) [
    | inl n ↦ ground (arith, eq_iff key j)
    | inr (c, e) ↦ elim (Option-cases (default_value defaults key none)) [
      | inl n ↦ ground (arith, eq_iff key j)
      | inr (v, d) ↦ ground (arith, eq_iff key j, get-set t key v "" j w)
    ]
  ]

  correct-writable :
      (t : Table) (key : String) (old_values : List String)
      → (correct defaults t key old_values).writable ≡ t.writable
  unfolding correct
  correct-writable t key old_values = elim (Option-cases (default_value defaults key none)) [
    | inl n ↦ ground arith
    | inr (v, d) ↦ ground (arith, set-writable t key v "")
  ]

  -- With a table that takes writes and no default listed twice, `init_defaults` sets the tick
  -- trading switch to 0, and every other key outside the two corrected ones keeps its value, or
  -- gets its default if it had none.
  pub get-init_defaults :
      (s : Settings) (j : String)
      → s.table.writable ≡ true
      → distinct defaults ≡ true
      → str_eq "STRATEGY_TAKE_PROFIT_PCT" j ≡ false
      → str_eq "STRATEGY_STOP_LOSS_PCT" j ≡ false
      → get (init_defaults defaults s).table j ≡ (
          if str_eq "STRATEGY_TICK_ENABLED" j
          then some "0"
          else current_value defaults s.table j none)
  unfolding init_defaults
  get-init_defaults s j w u p q =
      let t1 = upsert_many s.table defaults in
      let olds2 : List String = "5.0" ∷ "5" ∷ "" ∷ [] in
      let olds3 : List String = "-10.0" ∷ "-10" ∷ "" ∷ [] in
      let t2 = correct defaults t1 "STRATEGY_TAKE_PROFIT_PCT" olds2 in
      let t3 = correct defaults t2 "STRATEGY_STOP_LOSS_PCT" olds3 in
      let w1 : t1.writable ≡ true = unfold upsert_many in ground arith in
      let w2 : t2.writable ≡ true = correct-writable t1 "STRATEGY_TAKE_PROFIT_PCT" olds2 ∙ w1 in
      let w3 : t3.writable ≡ true = correct-writable t2 "STRATEGY_STOP_LOSS_PCT" olds3 ∙ w2 in
      let e1 = get-upsert_many s.table j w u in
      let e2 = get-correct t1 "STRATEGY_TAKE_PROFIT_PCT" olds2 j w1 in
      let e3 = get-correct t2 "STRATEGY_STOP_LOSS_PCT" olds3 j w2 in
      let e4 = get-set t3 "STRATEGY_TICK_ENABLED" "0" "" j w3 in rw (e4, e3, q, e2, p, e1)

  -- A value of the tick trading switch that is cached when `init_defaults` runs is still answered
  -- until it runs out, whatever it is, although the table has 0.
  pub tick_switch_stays_cached :
      (s : Settings) (now : ℕ) (v : Option String)
      → s.table.writable ≡ true
      → distinct defaults ≡ true
      → cached_value defaults s now "STRATEGY_TICK_ENABLED" ≡ some v
      → ((get_setting defaults (init_defaults defaults s) now "STRATEGY_TICK_ENABLED" none).0 ≡ v)
        × (get (init_defaults defaults s).table "STRATEGY_TICK_ENABLED" ≡ some "0")
  unfolding get_setting init_defaults cached_value
  tick_switch_stays_cached s now v w u c =
      (ground arith, get-init_defaults s "STRATEGY_TICK_ENABLED" w u refl refl)
