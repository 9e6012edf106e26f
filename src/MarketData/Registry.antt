-- ===== src/MarketData/Registry.antt =====
-- The dictionary of states of services/market/market_data_service.py: registration, warm-up, live
-- data, pruning, and the tiers. Tickers are ASCII texts. What the market tests and the downloads give
-- is an argument; a warm-up runs after the registration that starts its thread.
pub mod Entries
use Prim.Native.Char.{Char, code}
use stock_advisor.Prelude.{
  ℕ, ◌&&◌, ◌-◌, ◌==◌, Bool, List, Option, String, [], codes, false, filter, if◌then◌else◌, leb,
  length, ltb, map, member, none, not, some, str_eq, suc, true, zero, ◌||◌, ◌∷◌,
}
use stock_advisor.Floats.{◌<?◌, Double, nought}
use stock_advisor.Prelude.Dict.{Dict, contains, insert, lookup}
use stock_advisor.MarketData.Loading.{Financials, Warmup, full_api_warmup, load_indicators_from_db}
use stock_advisor.Tickers.State.{TickerState, fresh_state, get_or, recalculate_indicators}
use stock_advisor.Markets.{is_kr}
use stock_advisor.Prelude.Int.{ℤ}

abbrev pub is_blank : ℕ → Bool
is_blank c = c == 32 || (leb 9 c && leb c 13)

-- `str.strip`
unfoldable pub strip_left : String → String
strip_left String.[] = String.[]
strip_left (String.◌∷◌ c s) =
    let rest = strip_left s in if is_blank (code c) then rest else String.◌∷◌ c s

abbrev pub add_front : Char → String → String
add_front c String.[] = if is_blank (code c) then String.[] else String.◌∷◌ c String.[]
add_front c (String.◌∷◌ b s) = String.◌∷◌ c (String.◌∷◌ b s)

unfoldable pub strip_right : String → String
strip_right String.[] = String.[]
strip_right (String.◌∷◌ c s) = add_front c (strip_right s)

unfoldable pub zeros : ℕ → String → String
zeros zero s = s
zeros (suc n) s = String.◌∷◌ "0" (zeros n s)

-- `_normalize_kr_ticker`: digits are filled up to six with zeros.
unfoldable pub normalize_kr_ticker : String → String
normalize_kr_ticker ticker =
    let t = strip_left (strip_right ticker) in
    let n = length (codes t) in if is_kr t && ltb n 6 then zeros (6 - n) t else t

-- What the market tests say.
pub record OpenMarkets : Type 0 where
  pub is_kr_open : Bool
  pub is_us_open : Bool

-- The filter of `register_batch`.
unfoldable pub is_admitted : OpenMarkets → String → Bool
is_admitted m t =
    let analyze_kr = not m.is_us_open in
    let analyze_us = not m.is_kr_open in (is_kr t && analyze_kr) || (not (is_kr t) && analyze_us)

unfoldable pub should_skip_by_market_hours : OpenMarkets → String → Bool
should_skip_by_market_hours m ticker =
    if is_kr ticker && m.is_us_open
    then true
    else if not (is_kr ticker) && m.is_kr_open
    then true
    else false

abbrev pub States : Type 0 → Type 0
States F = Dict (TickerState F)

-- Live data: the fields that the message has.
pub record LiveData (F : Type 0) : Type 0 where
  pub price : Option F
  pub opened : Option F
  pub high : Option F
  pub low : Option F
  pub rate : Option F
  pub live_volume : Option ℤ

-- `[cls._normalize_kr_ticker(t) for t in tickers if t]`
unfoldable pub normalized : List String → List String
normalized tickers = map normalize_kr_ticker (filter (λ t. not (str_eq t "")) tickers)

module _ {F : Type 0} ⦃d : Double F⦄ where
  unfoldable pub new_tickers : States F → List String → List String
  new_tickers states tickers =
      filter (λ t. not (str_eq t "") && not (contains t states)) (normalized tickers)

  -- The entry of one ticker, and whether it needs a warm-up.
  unfoldable pub loaded_entry : Option (Financials F) → String → Bool × TickerState F
  loaded_entry none ticker = (true, fresh_state ticker)
  loaded_entry (some f) ticker =
      let r = load_indicators_from_db f (fresh_state ticker) in (not r.0, r.1)

  unfoldable pub register_each :
      (String → Option (Financials F)) → List String → States F → States F × List String
  register_each financials [] states = (states, [])
  register_each financials (t ∷ ts) states =
      let e = loaded_entry (financials t) t in
      let rest = register_each financials ts (insert t e.1 states) in
      (rest.0, if e.0 then t ∷ rest.1 else rest.1)

  -- The states after a registration, and the tickers whose warm-up it starts.
  unfoldable pub register_batch :
      OpenMarkets
      → (String → Option (Financials F))
      → List String
      → States F
      → States F × List String
  register_batch m financials tickers states =
      register_each financials (filter (is_admitted m) (new_tickers states tickers)) states

  unfoldable pub register_ticker :
      OpenMarkets → (String → Option (Financials F)) → String → States F → States F × List String
  register_ticker m financials ticker states = register_batch m financials (ticker ∷ []) states

  -- `_warm_up_data`: the name of the stored meta data, if there is any, then the database or else
  -- the broker. A state that is gone, and a closed market, leave everything as it is.
  unfoldable pub warm_up_state :
      Option String → Option (Financials F) → Warmup F → TickerState F → TickerState F
  warm_up_state meta financials w s =
      let named : TickerState F = elim meta [ none ↦ s | some n ↦ record s { name = n } ] in
      elim financials [
        | none ↦ full_api_warmup w named
        | some f ↦
            let r = load_indicators_from_db f named in if r.0 then r.1 else full_api_warmup w r.1
      ]

  unfoldable pub warm_up_data :
      OpenMarkets
      → (String → Option String)
      → (String → Option (Financials F))
      → (String → Warmup F)
      → String
      → States F
      → States F
  warm_up_data m meta financials world ticker states = elim (lookup ticker states) [
    | none ↦ states
    | some s ↦
        let warmed = warm_up_state (meta ticker) (financials ticker) (world ticker) s in
        if should_skip_by_market_hours m ticker then states else insert ticker warmed states
  ]

  unfoldable pub apply_live : LiveData F → TickerState F → TickerState F
  apply_live x s = recalculate_indicators (record s {
    current_price = get_or x.price s.current_price;
    open_price = get_or x.opened s.open_price;
    high_price = get_or x.high s.high_price;
    low_price = get_or x.low s.low_price;
    change_rate = get_or x.rate s.change_rate;
    volume = elim x.live_volume [ none ↦ s.volume | some v ↦ v ];
  })

  -- `on_realtime_data`; none is the KeyError of `cls._states[ticker]`.
  unfoldable pub on_realtime_data :
      OpenMarkets
      → (String → Option (Financials F))
      → String
      → LiveData F
      → States F
      → Option (States F)
  on_realtime_data m financials ticker x states =
      let known =
        if contains ticker states then states else (register_ticker m financials ticker states).0 in
      elim (lookup ticker known) [
        | none ↦ none
        | some s ↦ some (insert ticker (apply_live x s) known)
      ]

  unfoldable pub update_price_from_sync : String → F → Option F → States F → States F
  update_price_from_sync ticker price change_rate states = elim (lookup ticker states) [
    | none ↦ states
    | some s ↦
        let rated : F = elim change_rate [ none ↦ s.change_rate | some r ↦ r ] in
        if nought <? price
        then insert ticker (record s { current_price = price; change_rate = rated }) states
        else states
  ]

  -- `prune_states`
  unfoldable pub prune_states : List String → States F → States F
  prune_states keep [] = []
  prune_states keep (e ∷ states) =
      let rest = prune_states keep states in if member e.0 keep then e ∷ rest else rest

-- The tiers
unfoldable pub put_tier : String → List String → Dict String → Dict String
put_tier tier [] tiers = tiers
put_tier tier (t ∷ ts) tiers = put_tier tier ts (insert t tier tiers)

unfoldable pub set_tiers : List String → List String → Dict String → Dict String
set_tiers high_tickers low_tickers tiers =
    put_tier "low" low_tickers (put_tier "high" high_tickers tiers)

unfoldable pub get_tier : String → Dict String → String
get_tier ticker tiers = elim (lookup ticker tiers) [ none ↦ "low" | some t ↦ t ]

unfoldable pub tickers_of_tier : String → Dict String → List String
tickers_of_tier tier tiers = map (λ e. e.0) (filter (λ e. str_eq e.1 tier) tiers)
