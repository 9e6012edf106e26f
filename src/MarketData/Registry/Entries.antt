-- ===== src/MarketData/Registry/Entries.antt =====
-- What a registration, a message, a pruning and a change of tiers leave under each ticker.
use stock_advisor.Prelude.{
  ◌&&◌, Bool, Bool-cases, List, Option, String, [], arith, eq_iff, filter, if◌then◌else◌, inl,
  member, none, not, refl, some, str_eq, true, ◌↔◌, ◌∷◌, ◌≡◌, ◌≢◌, ◌⊎◌, Option-cases, inr,
}
use stock_advisor.Prelude.Dict.{Dict, contains, insert, lookup, lookup-insert}
use stock_advisor.Floats.{Double}
use stock_advisor.MarketData.Loading.{Financials, has_minimum_indicators, load_indicators_from_db}
use stock_advisor.MarketData.Registry.{
  LiveData, OpenMarkets, States, get_tier, new_tickers, normalize_kr_ticker, normalized,
  on_realtime_data, prune_states, put_tier, register_batch, register_each, register_ticker,
  set_tiers, should_skip_by_market_hours, is_admitted, loaded_entry,
}
use stock_advisor.Tickers.State.{TickerState}
use stock_advisor.Markets.{is_kr}

pub member-filter :
    (p : String → Bool) (s : String) (xs : List String)
    → member s (filter p xs) ≡ (member s xs && p s)
member-filter p s [] = refl
member-filter p s (x ∷ xs) = ground (arith, eq_iff x s, Bool-cases (p x), member-filter p s xs)

-- The filter of a registration admits exactly the tickers whose warm-up is not skipped.
pub is_admitted-should_skip :
    (m : OpenMarkets) (t : String) → is_admitted m t ≡ not (should_skip_by_market_hours m t)
unfolding is_admitted should_skip_by_market_hours
is_admitted-should_skip m t =
    ground (arith, Bool-cases (is_kr t), Bool-cases m.is_kr_open, Bool-cases m.is_us_open)

-- Whether a registration makes an entry for a ticker.
unfoldable pub is_entered : {F : Type 0} → OpenMarkets → List String → States F → String → Bool
is_entered m tickers states j =
    member j (normalized tickers)
    && (not (str_eq j "") && not (contains j states))
    && is_admitted m j

module _ {F : Type 0} ⦃d : Double F⦄ where
  lookup-register_each :
      (financials : String → Option (Financials F)) (ts : List String) (states : States F)
      (j : String)
      → lookup j (register_each financials ts states).0
        ≡ (if member j ts then some (loaded_entry (financials j) j).1 else lookup j states)
  unfolding register_each
  lookup-register_each financials [] states j = refl
  lookup-register_each financials (t ∷ ts) states j =
      let s' = insert t (loaded_entry (financials t) t).1 states in
      ground (
        arith,
        eq_iff t j,
        lookup-register_each financials ts s' j,
        lookup-insert t j (loaded_entry (financials t) t).1 states,
      )

  -- After register_batch a ticker has a new entry, from its row of the database, exactly if it is
  -- the normalized form of a given ticker, is not empty, had no state and passes the market
  -- filter; every other ticker keeps what it had.
  pub lookup-register_batch :
      (m : OpenMarkets) (financials : String → Option (Financials F)) (tickers : List String)
      (states : States F) (j : String)
      → lookup j (register_batch m financials tickers states).0 ≡ (
          if is_entered m tickers states j
          then some (loaded_entry (financials j) j).1
          else lookup j states)
  unfolding register_batch new_tickers is_entered
  lookup-register_batch m financials tickers states j =
      let new = new_tickers states tickers in
      let is_new = λ (t : String). not (str_eq t "") && not (contains t states) in
      ground (
        arith,
        lookup-register_each financials (filter (is_admitted m) new) states j,
        member-filter (is_admitted m) j new,
        member-filter is_new j (normalized tickers),
      )

  member-register_each :
      (financials : String → Option (Financials F)) (ts : List String) (states : States F)
      (j : String)
      → member j (register_each financials ts states).1
        ≡ (member j ts && (loaded_entry (financials j) j).0)
  unfolding register_each
  member-register_each financials [] states j = refl
  member-register_each financials (t ∷ ts) states j =
      let s' = insert t (loaded_entry (financials t) t).1 states in
      ground (
        arith,
        eq_iff t j,
        Bool-cases (loaded_entry (financials t) t).0,
        Bool-cases (loaded_entry (financials j) j).0,
        member-register_each financials ts s' j,
      )

  loaded_entry-IsReady :
      (o : Option (Financials F)) (t : String)
      → ((loaded_entry o t).0 ≡ true) ⊎ (has_minimum_indicators (loaded_entry o t).1 ≡ true)
  unfolding loaded_entry load_indicators_from_db
  loaded_entry-IsReady none t = inl refl
  loaded_entry-IsReady (some f) t = ground arith

  -- A ticker that register_batch enters has the minimum of indicators, or is among those whose
  -- warm-up it starts.
  pub register_batch-covers :
      (m : OpenMarkets) (financials : String → Option (Financials F)) (tickers : List String)
      (states : States F) (j : String) (s : TickerState F)
      → is_entered m tickers states j ≡ true
      → lookup j (register_batch m financials tickers states).0 ≡ some s
      → (member j (register_batch m financials tickers states).1 ≡ true)
        ⊎ (has_minimum_indicators s ≡ true)
  unfolding register_batch new_tickers is_entered
  register_batch-covers m financials tickers states j s p e =
      let new = new_tickers states tickers in
      let is_new = λ (t : String). not (str_eq t "") && not (contains t states) in
      ground (
        arith,
        e,
        p,
        lookup-register_each financials (filter (is_admitted m) new) states j,
        member-register_each financials (filter (is_admitted m) new) states j,
        loaded_entry-IsReady (financials j) j,
        member-filter (is_admitted m) j new,
        member-filter is_new j (normalized tickers),
      )

  -- For a ticker that is not the empty text, on_realtime_data raises a KeyError exactly when the
  -- ticker has no state and either its normalized form is another text or its market is skipped
  -- by the market hours.
  pub on_realtime_data-fails_iff :
      (m : OpenMarkets) (financials : String → Option (Financials F)) (t : String) (x : LiveData F)
      (states : States F)
      → t ≢ ""
      → (on_realtime_data m financials t x states ≡ none) ↔ (
          (lookup t states ≡ none)
          × ((normalize_kr_ticker t ≢ t) ⊎ (should_skip_by_market_hours m t ≡ true)))
  unfolding on_realtime_data register_ticker is_entered normalized
  on_realtime_data-fails_iff m financials t x states n =
      let found = lookup-register_batch m financials (t ∷ []) states t in
      let open_test = is_admitted-should_skip m t in
      elim (Option-cases (lookup t states)) [
        | inl e ↦ (
          ground (arith, e, found, open_test, eq_iff t "", eq_iff (normalize_kr_ticker t) t),
          ground (arith, e, found, open_test, eq_iff t "", eq_iff (normalize_kr_ticker t) t),
        )
        | inr (s, e) ↦ (ground (arith, e), ground (arith, e))
      ]

  -- Pruning keeps the states of the listed tickers and no other one.
  pub lookup-prune_states :
      (keep : List String) (states : States F) (j : String)
      → lookup j (prune_states keep states) ≡ (if member j keep then lookup j states else none)
  unfolding prune_states lookup
  lookup-prune_states keep [] j = ground arith
  lookup-prune_states keep (e ∷ states) j =
      ground (arith, eq_iff e.0 j, Bool-cases (member e.0 keep), lookup-prune_states keep states j)

lookup-put_tier :
    (tier : String) (ts : List String) (tiers : Dict String) (j : String)
    → lookup j (put_tier tier ts tiers) ≡ (if member j ts then some tier else lookup j tiers)
unfolding put_tier
lookup-put_tier tier [] tiers j = refl
lookup-put_tier tier (t ∷ ts) tiers j = ground (
  arith,
  eq_iff t j,
  lookup-put_tier tier ts (insert t tier tiers) j,
  lookup-insert t j tier tiers,
)

-- After set_tiers the low tier wins over the high one, and other tickers keep theirs.
pub get_tier-set_tiers :
    (high low : List String) (tiers : Dict String) (j : String)
    → get_tier j (set_tiers high low tiers)
      ≡ (if member j low then "low" else if member j high then "high" else get_tier j tiers)
unfolding get_tier set_tiers
get_tier-set_tiers high low tiers j = ground (
  arith,
  lookup-put_tier "low" low (put_tier "high" high tiers) j,
  lookup-put_tier "high" high tiers j,
)
