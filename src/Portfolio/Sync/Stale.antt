-- ===== src/Portfolio/Sync/Stale.antt =====
-- A sync keeps stored US holdings while the broker reports none.
use stock_advisor.Prelude.{
  ◌++◌, All, Bool, Bool-cases, List, String, [], arith, eq_iff, false, if_elim, inl, inr, map, none,
  refl, some, str_eq, true, ◌||◌, ◌∷◌, ◌≡◌, ap, eq_refl, ◌∙◌,
}
use stock_advisor.Portfolio.Repository.{
  Accounts, extract_holding_fields, load_holdings, save_portfolio,
}
use stock_advisor.Portfolio.Sync.{
  Balances, Item, existing_us, holding_of, is_open_item, isalpha, merge_holdings, read_domestic,
  read_overseas, sync_with_kis, values, synced_cash, with_us,
}
use stock_advisor.Prelude.Dict.{Dict, contains, insert, lookup, lookup-insert}
use stock_advisor.Floats.{Double}
use stock_advisor.Portfolio.Holding.{Holding, held}
use stock_advisor.MarketData.Registry.{States}
use stock_advisor.Markets.{is_kr}
use stock_advisor.Portfolio.Repository.RoundTrip.{load_holdings-saved}

module _ {F : Type 0} ⦃d : Double F⦄ where
  abbrev pub is_held : String → List (Holding F) → Bool
  is_held t hs = elim (held t hs) [ none ↦ false | some h ↦ true ]

  -- Each entry stands under its own ticker.
  abbrev IsKeyed : Dict (Holding F) → Type 0
  IsKeyed us = All (λ e. e.1.ticker ≡ e.0) us

  held-values :
      (t : String) (us : Dict (Holding F)) → IsKeyed us → is_held t (values us) ≡ contains t us
  unfolding held lookup
  held-values t [] p = refl
  held-values t (e ∷ us) p = ground (arith, p.0, eq_iff e.0 t, held-values t us p.1)

  insert-IsKeyed :
      (h : Holding F) (us : Dict (Holding F)) → IsKeyed us → IsKeyed (insert h.ticker h us)
  unfolding insert
  insert-IsKeyed h [] p = (refl, tt)
  insert-IsKeyed h (e ∷ us) p =
      let P : Dict (Holding F) → Type 0 = IsKeyed in
      if_elim P (str_eq e.0 h.ticker) _ _ (refl, p.1) (p.0, insert-IsKeyed h us p.1)

  existing_us-IsKeyed :
      (hs : List (Holding F)) (us : Dict (Holding F)) → IsKeyed us → IsKeyed (existing_us hs us)
  unfolding existing_us
  existing_us-IsKeyed [] us p = p
  existing_us-IsKeyed (h ∷ hs) us p =
      let P : Dict (Holding F) → Type 0 = IsKeyed in
      existing_us-IsKeyed hs _ (if_elim P (isalpha h.ticker) _ us (insert-IsKeyed h us p) p)

  contains-existing_us :
      (t : String) (hs : List (Holding F)) (us : Dict (Holding F))
      → isalpha t ≡ true
      → contains t (existing_us hs us) ≡ (contains t us || is_held t hs)
  unfolding existing_us held
  contains-existing_us t [] us a = ground (arith, Bool-cases (contains t us))
  contains-existing_us t (h ∷ hs) us a = elim (Bool-cases (isalpha h.ticker)) [
    | inl e ↦ ground (
      arith,
      a,
      e,
      eq_iff h.ticker t,
      contains-existing_us t hs (insert h.ticker h us) a,
      lookup-insert h.ticker t h us,
    )
    | inr e ↦ ground (arith, a, e, eq_iff h.ticker t, contains-existing_us t hs us a)
  ]

  held-append :
      (t : String) (xs ys : List (Holding F))
      → is_held t (xs ++ ys) ≡ (is_held t xs || is_held t ys)
  unfolding held
  held-append t [] ys = refl
  held-append t (x ∷ xs) ys = ground (arith, held-append t xs ys)

  held-extract :
      (t : String) (hs : List (Holding F))
      → is_held t (map extract_holding_fields hs) ≡ is_held t hs
  unfolding held extract_holding_fields
  held-extract t [] = refl
  held-extract t (h ∷ hs) = ground (arith, held-extract t hs)

  read_domestic-kr :
      (items : List (Item F)) (acc : List (Holding F) × Dict (Holding F))
      → All (λ i. is_kr i.symbol ≡ true) items
      → (read_domestic items acc).1 ≡ acc.1
  unfolding read_domestic
  read_domestic-kr [] acc p = refl
  read_domestic-kr (i ∷ items) acc p = elim (Bool-cases (is_open_item i)) [
    | inl e ↦ ground (arith, e, p.0, read_domestic-kr items (acc.0 ++ holding_of i ∷ [], acc.1) p.1)
    | inr e ↦ ground (arith, e, p.0, read_domestic-kr items acc p.1)
  ]

  -- Where the database takes the write, the domestic balance has only Korean tickers and the
  -- overseas balance no item, a stored holding whose ticker consists of letters is still listed
  -- after sync_with_kis.
  pub sync_with_kis-keeps_us :
      (b : Balances F) (user_id t : String) (accounts : Accounts F) (states : States F)
      → All (λ i. is_kr i.symbol ≡ true) b.domestic
      → isalpha t ≡ true
      → is_held t (load_holdings user_id accounts) ≡ true
      → is_held t (load_holdings user_id (sync_with_kis true (some b) [] user_id accounts states).1)
        ≡ true
  unfolding sync_with_kis merge_holdings read_overseas with_us
  sync_with_kis-keeps_us b user_id t accounts states p a h =
      let stored = load_holdings user_id accounts in
      let read = read_domestic b.domestic ([], []) in
      let kept = existing_us stored [] in
      let merged = merge_holdings b.domestic [] stored in
      let saved : load_holdings user_id
            (save_portfolio true user_id merged (some (synced_cash b)) accounts).1
          ≡ map extract_holding_fields merged =
        ground (
          arith,
          eq_refl user_id,
          load_holdings-saved user_id user_id merged (some (synced_cash b)) accounts,
        ) in
      let same : merged ≡ read.0 ++ values kept =
        ap (λ us. read.0 ++ with_us us stored) (read_domestic-kr b.domestic ([], []) p) in
      let found : is_held t (read.0 ++ values kept) ≡ true = ground (
        arith,
        h,
        held-append t read.0 (values kept),
        held-values t kept (existing_us-IsKeyed stored [] tt),
        contains-existing_us t stored [] a,
      ) in
      ap (is_held t) saved ∙ held-extract t merged ∙ ap (is_held t) same ∙ found
