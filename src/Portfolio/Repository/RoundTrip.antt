-- ===== src/Portfolio/Repository/RoundTrip.antt =====
-- What is loaded after a save.
use stock_advisor.Prelude.{
  List, Option, String, arith, if◌then◌else◌, map, str_eq, true, ◌≡◌, [], eq_iff, eq_refl, none,
  refl, some, ◌∷◌, Option-cases,
}
use stock_advisor.Portfolio.Repository.{
  Accounts, extract_holding_fields, load_cash, load_holdings, save_account, save_portfolio,
  UserAccount, sector_or_default,
}
use stock_advisor.Floats.{Double, nought}
use stock_advisor.Portfolio.Holding.{Holding}
use stock_advisor.Tickers.State.{get_or}
use stock_advisor.Prelude.Dict.{lookup-insert}

sector-twice :
    (o : Option String) → sector_or_default (some (sector_or_default o)) ≡ sector_or_default o
unfolding sector_or_default
sector-twice none = refl
sector-twice (some s) = ground (arith, eq_iff s "")

module _ {F : Type 0} ⦃d : Double F⦄ where
  -- Saving and loading a holding that was saved before changes nothing.
  extract-twice :
      (h : Holding F) → extract_holding_fields (extract_holding_fields h) ≡ extract_holding_fields h
  unfolding extract_holding_fields
  extract-twice h =
      λ i. record (extract_holding_fields h) { sector = some (sector-twice h.sector i) }

  -- A holding as it is stored: a missing price is 0, and a missing or empty sector "Others".
  abbrev pub stored : Holding F → Holding F
  stored h = record {
    ticker = h.ticker;
    name = h.name;
    quantity = h.quantity;
    buy_price = h.buy_price;
    current_price = some (elim h.current_price [ none ↦ nought | some p ↦ p ]);
    sector =
        some (elim h.sector [ none ↦ "Others" | some s ↦ if str_eq s "" then "Others" else s ]);
  }

  extract-stored : (h : Holding F) → extract_holding_fields h ≡ stored h
  unfolding extract_holding_fields sector_or_default
  extract-stored h = ground (arith, Option-cases h.current_price, Option-cases h.sector)

  map-stored : (hs : List (Holding F)) → map extract_holding_fields hs ≡ map stored hs
  map-stored [] = refl
  map-stored (h ∷ hs) = λ i. extract-stored h i ∷ map-stored hs i

  -- The same by the code's own fields.
  pub load_holdings-saved :
      (user_id other : String) (holdings : List (Holding F)) (cash : Option F) (t : Accounts F)
      → let after = (save_portfolio true user_id holdings cash t).1 in
        (load_holdings other after ≡ (
          if str_eq user_id other
          then map extract_holding_fields holdings
          else load_holdings other t))
        × (load_cash other after ≡ (
            if str_eq user_id other then get_or cash (load_cash user_id t) else load_cash other t))
  unfolding save_portfolio save_account load_holdings load_cash
  load_holdings-saved user_id other holdings cash t =
      let a : UserAccount F = record {
        cash_balance = get_or cash (load_cash user_id t);
        rows = map extract_holding_fields holdings;
      } in
      (
        ground (arith, lookup-insert user_id other a t),
        ground (arith, lookup-insert user_id other a t),
      )

  -- After a save that the database takes, the user has the given holdings with all their fields,
  -- where a missing price is stored as 0 and a missing or empty sector as "Others", and the given
  -- cash, or the cash of before if none is given; all other users keep theirs.
  pub load_holdings-save_portfolio :
      (user_id other : String) (holdings : List (Holding F)) (cash : Option F) (t : Accounts F)
      → let after = (save_portfolio true user_id holdings cash t).1 in
        (load_holdings other after
          ≡ (if str_eq user_id other then map stored holdings else load_holdings other t))
        × (load_cash other after ≡ (
            if str_eq user_id other then get_or cash (load_cash user_id t) else load_cash other t))
  load_holdings-save_portfolio user_id other holdings cash t =
      let p = load_holdings-saved user_id other holdings cash t in
      (ground (arith, p.0, map-stored holdings), p.1)

  map-twice :
      (hs : List (Holding F))
      → map extract_holding_fields (map extract_holding_fields hs) ≡ map extract_holding_fields hs
  map-twice [] = refl
  map-twice (h ∷ hs) = λ i. extract-twice h i ∷ map-twice hs i

  -- Saving what was loaded after a save changes neither the holdings nor the cash.
  pub save_portfolio-loaded :
      (user_id : String) (holdings : List (Holding F)) (cash : Option F) (t : Accounts F)
      → let after = (save_portfolio true user_id holdings cash t).1 in
        let again = (save_portfolio true user_id (load_holdings user_id after) none after).1 in
        (load_holdings user_id again ≡ load_holdings user_id after)
        × (load_cash user_id again ≡ load_cash user_id after)
  save_portfolio-loaded user_id holdings cash t =
      let after = (save_portfolio true user_id holdings cash t).1 in
      let p = load_holdings-saved user_id user_id holdings cash t in
      let q = load_holdings-saved user_id user_id (load_holdings user_id after) none after in
      (
        ground (arith, eq_refl user_id, p, q, map-twice holdings),
        ground (arith, eq_refl user_id, q),
      )
