-- ===== src/Settings/Repository.antt =====
-- repositories/settings_repo.py. A row has a value and a description. `writable` says whether the
-- database takes writes: where it does not, `session_scope` rolls back and the methods log the error.
use stock_advisor.Prelude.{Bool, Option, String, [], if◌then◌else◌, none, some, ◌∷◌}
use stock_advisor.Prelude.Dict.{Dict, insert, lookup, contains}

pub record Row : Type 0 where
  pub value : String
  pub description : String

pub record Table : Type 0 where
  pub rows : Dict Row
  pub writable : Bool

-- `SettingsRepo.get`
unfoldable pub get : Table → String → Option String
get t key = elim (lookup key t.rows) [ none ↦ none | some row ↦ some row.value ]

-- The row that `SettingsRepo.set` writes: an old one keeps its description.
unfoldable pub written : Option Row → String → String → Row
written none value description = record { value = value; description = description }
written (some row) value description = record row { value = value }

-- `SettingsRepo.set`, with the row that it returns
unfoldable pub set : Table → String → String → String → Option Row × Table
set t key value description =
    if t.writable
    then (let row = written (lookup key t.rows) value description in
        (some row, record t { rows = insert key row t.rows }))
    else (none, t)

-- The loop of `upsert_many`; `existing` is the set of keys before it.
unfoldable pub upsert_from : Dict Row → Dict (String × String) → Dict Row → Dict Row
upsert_from existing [] rows = rows
upsert_from existing ((key, (value, desc)) ∷ items) rows = upsert_from existing items (
    if contains key existing
    then rows
    else insert key (record { value = value; description = desc }) rows)

-- `SettingsRepo.upsert_many`
unfoldable pub upsert_many : Table → Dict (String × String) → Table
upsert_many t items = if t.writable then record t { rows = upsert_from t.rows items t.rows } else t

-- `SettingsRepo.get_all`
unfoldable pub get_all : Table → Dict Row
get_all t = t.rows
