-- ===== src/Settings/Service/Cache.antt =====
-- What callers may rely on while the cache stands in front of the table.
use stock_advisor.Prelude.Dict.{Dict, lookup, lookup-insert, lookup-remove}
use stock_advisor.Prelude.{
  Option, String, arith, eq_iff, if◌then◌else◌, none, some, str_eq, true, ℕ, ◌≡◌, ◌+◌, Option-cases,
  inl, inr,
}
use stock_advisor.Settings.Service.{
  Settings, cached_value, current_value, description_of, get_setting, set_setting, cache_ttl,
}
use stock_advisor.Settings.Repository.{get, set, written}

module _ (defaults : Dict (String × String)) where
  -- Every cached entry is the value that the table, or else the default, has now.
  abbrev pub IsCoherent : Settings → Type 0
  IsCoherent s =
      (k : String) (v : Option String) (e : ℕ)
      → lookup k s.cache ≡ some (v, e)
      → v ≡ current_value defaults s.table k none

  -- From a coherent cache `get_setting` answers the current value, and the cache stays coherent.
  pub get_setting-current :
      (s : Settings) (now : ℕ) (key : String)
      → IsCoherent s
      → ((get_setting defaults s now key none).0 ≡ current_value defaults s.table key none)
        × IsCoherent (get_setting defaults s now key none).1
  unfolding get_setting cached_value
  get_setting-current s now key c = (
    elim (Option-cases (lookup key s.cache)) [
      | inl absent ↦ ground arith
      | inr ((v, e), cached) ↦ ground (arith, c key v e cached)
    ],
    λ k v e h.
        let fresh = current_value defaults s.table key none in
        ground (arith, c k v e, eq_iff key k, lookup-insert key k (fresh, now + cache_ttl) s.cache),
  )

  -- `set_setting` keeps the cache coherent, also where the database refuses the write.
  pub set_setting-IsCoherent :
      (s : Settings) (key value : String)
      → IsCoherent s
      → IsCoherent (set_setting defaults s key value).1
  unfolding set_setting set get current_value
  set_setting-IsCoherent s key value c k v e h =
      let row = written (lookup key s.table.rows) value (description_of defaults key) in
      ground (
        arith,
        c k v e,
        eq_iff key k,
        lookup-remove key k s.cache,
        lookup-insert key k row s.table.rows,
      )

  -- After a write that the database takes, `get_setting` answers the new value for its key at any
  -- time, and for every other key what it answered before.
  pub get_setting-set_setting :
      (s : Settings) (key value : String) (now : ℕ) (j : String)
      → s.table.writable ≡ true
      → (get_setting defaults (set_setting defaults s key value).1 now j none).0
        ≡ (if str_eq key j then some value else (get_setting defaults s now j none).0)
  unfolding get_setting set_setting cached_value current_value set get written
  get_setting-set_setting s key value now j w = ground (
    arith,
    eq_iff key j,
    lookup-remove key j s.cache,
    lookup-insert key j (written (lookup key s.table.rows) value (description_of defaults key))
        s.table.rows,
  )
