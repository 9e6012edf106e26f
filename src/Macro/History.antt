-- ===== src/Macro/History.antt =====
-- The table market_regime_history of services/market/stock_meta_service.py: one row for a date. A
-- date is the number of its day, which orders as the text YYYY-MM-DD does. The yield and the time at
-- which a row was made are left out.
use stock_advisor.Prelude.{
  ℕ, ◌==◌, All, Bool, List, Option, String, [], if◌then◌else◌, ltb, map, none, refl, some, take,
  ◌∷◌, ◌≡◌, ◌≤◌, Option-cases, arith, get_elem?, inl, inr, if_elim,
}
use stock_advisor.Macro.Regime.{Components, Regime}
use stock_advisor.Floats.{Double, nought}
use stock_advisor.Prelude.Int.{pos, ℤ}

pub record HistoryRow (F : Type 0) : Type 0 where
  pub date : ℕ
  pub row_status : Option String
  pub row_score : ℤ
  pub row_vix : F
  pub row_fear_greed : ℤ
  pub row_spx_price : F
  pub row_spx_ma200 : F
  pub row_spx_diff_pct : F
  pub row_components : Option (Components F)

module _ {F : Type 0} where
  -- The row of a date is written over where it stands, or added at the end.
  unfoldable pub write_row : HistoryRow F → List (HistoryRow F) → List (HistoryRow F)
  write_row r [] = r ∷ []
  write_row r (s ∷ rows) = if s.date == r.date then r ∷ rows else s ∷ write_row r rows

  -- `order_by(date.desc())`
  unfoldable pub place_row : HistoryRow F → List (HistoryRow F) → List (HistoryRow F)
  place_row r [] = r ∷ []
  place_row r (s ∷ rows) = if ltb r.date s.date then s ∷ place_row r rows else r ∷ s ∷ rows

  unfoldable pub newest_first : List (HistoryRow F) → List (HistoryRow F)
  newest_first [] = []
  newest_first (r ∷ rows) = place_row r (newest_first rows)

  -- The latest rows; a database that fails gives none.
  unfoldable pub get_market_regime_history : Bool → ℕ → List (HistoryRow F) → List (HistoryRow F)
  get_market_regime_history db_ok days rows = if db_ok then take days (newest_first rows) else []

  abbrev pub statuses : List (HistoryRow F) → List (Option String)
  statuses rows = map (λ r. r.row_status) rows

module _ {F : Type 0} ⦃d : Double F⦄ where
  unfoldable pub row_of : ℕ → Regime F → F → ℤ → HistoryRow F
  row_of today Regime.unknown vix fear_greed = record {
    date = today;
    row_status = some "Neutral";
    row_score = pos 50;
    row_vix = vix;
    row_fear_greed = fear_greed;
    row_spx_price = nought;
    row_spx_ma200 = nought;
    row_spx_diff_pct = nought;
    row_components = none;
  }
  row_of today (Regime.scored r) vix fear_greed = record {
    date = today;
    row_status = some r.status;
    row_score = r.regime_score;
    row_vix = vix;
    row_fear_greed = fear_greed;
    row_spx_price = r.current;
    row_spx_ma200 = r.ma200;
    row_spx_diff_pct = r.diff_pct;
    row_components = some r.components;
  }

  -- A database that fails is rolled back.
  unfoldable pub save_market_regime :
      Bool → ℕ → Regime F → F → ℤ → List (HistoryRow F) → List (HistoryRow F)
  save_market_regime db_ok today regime vix fear_greed rows =
      if db_ok then write_row (row_of today regime vix fear_greed) rows else rows

module _ {F : Type 0} where
  -- Every row is of a day up to a given one.
  abbrev pub UpTo : ℕ → List (HistoryRow F) → Type 0
  UpTo today = All (λ r. r.date ≤ today)

  -- The newest row of a table, by its dates.
  unfoldable pub newest : List (HistoryRow F) → Option (HistoryRow F)
  newest rows = get_elem? (newest_first rows) 0

  get_elem?-place_row :
      (s : HistoryRow F) (rows : List (HistoryRow F))
      → get_elem? (place_row s rows) 0 ≡ elim (get_elem? rows 0) [
        | none ↦ some s
        | some t ↦ if ltb s.date t.date then some t else some s
      ]
  unfolding place_row
  get_elem?-place_row s [] = refl
  get_elem?-place_row s (t ∷ rows) = ground arith

  newest-UpTo :
      (n : ℕ) (rows : List (HistoryRow F)) (r : HistoryRow F)
      → UpTo n rows
      → newest rows ≡ some r
      → r.date ≤ n
  unfolding newest newest_first
  newest-UpTo n [] r p e = ground arith
  newest-UpTo n (s ∷ rows) r p e = elim (Option-cases (newest rows)) [
    | inl q ↦ ground (arith, e, q, p.0, get_elem?-place_row s (newest_first rows))
    | inr (t, q) ↦
        ground
          (arith, e, q, p.0, get_elem?-place_row s (newest_first rows), newest-UpTo n rows t p.1 q)
  ]

  -- A row written for a day that no row is past is the newest.
  pub newest-write_row :
      (r : HistoryRow F) (rows : List (HistoryRow F))
      → UpTo r.date rows
      → newest (write_row r rows) ≡ some r
  unfolding write_row newest newest_first
  newest-write_row r [] p = get_elem?-place_row r []
  newest-write_row r (s ∷ rows) p = elim (Option-cases (newest rows)) [
    | inl q ↦ ground (
      arith,
      q,
      p.0,
      get_elem?-place_row r (newest_first rows),
      get_elem?-place_row s (newest_first (write_row r rows)),
      newest-write_row r rows p.1,
    )
    | inr (t, q) ↦ ground (
      arith,
      q,
      p.0,
      newest-UpTo r.date rows t p.1 q,
      get_elem?-place_row r (newest_first rows),
      get_elem?-place_row s (newest_first (write_row r rows)),
      newest-write_row r rows p.1,
    )
  ]

  pub UpTo-write_row :
      (r : HistoryRow F) (rows : List (HistoryRow F))
      → UpTo r.date rows
      → UpTo r.date (write_row r rows)
  unfolding write_row
  UpTo-write_row r [] p = ground arith
  UpTo-write_row r (s ∷ rows) p =
      let P : List (HistoryRow F) → Type 0 = UpTo r.date in
      if_elim P (s.date == r.date) (r ∷ rows) (s ∷ write_row r rows) (ground arith, p.1)
        (p.0, UpTo-write_row r rows p.1)
