-- ===== src/Financials.antt =====
-- services/analysis/financial_service.py with services/analysis/analyzer/financial_analyzer.py, and the
-- table of financial rows of services/market/stock_meta_service.py. Every row of the table has a date,
-- and every stock its metadata.
pub mod Growth
pub mod Metrics
pub mod DcfInputs
pub mod Overrides
pub mod Series
pub mod Kept
pub mod NoValue
pub mod Restored
mod Tests
use stock_advisor.Prelude.{
  ◌&&◌, ◌==◌, Bool, List, Option, String, [], filter, get_elem?, if◌then◌else◌, ltb, none, some,
  str_eq, take, ℕ, ◌∷◌,
}
use stock_advisor.Prelude.Dict.{Dict, lookup}
use stock_advisor.Floats.{Double, nought, truthy, ◌⊗◌}
use stock_advisor.Prelude.Sorting.{sort_desc}

-- The eight figures of AnalyzedFinancialMetrics.
pub record AnalyzedMetrics (A : Type 0) : Type 0 where
  pub per : A
  pub pbr : A
  pub roe : A
  pub eps : A
  pub bps : A
  pub dividend_yield : A
  pub current_price : A
  pub market_cap : A

-- The fields of an answer: a text that is no number is `none`, and an empty one counts as missing.
abbrev pub Output : Type 0 → Type 0
Output F = Dict (Option F)

-- What KisService hands over: an exception, an empty dict, or a dict with its `raw` and its `output`.
pub data KisPayload (F : Type 0) : Type 0 where
  raised : KisPayload F
  empty : KisPayload F
  fields : Option (Output F) → Option (Output F) → KisPayload F

-- The answer to a request for a price: none at all, or a status and the `output` of the body.
pub data PriceAnswer (F : Type 0) : Type 0 where
  unanswered : PriceAnswer F
  status : ℕ → Option (Output F) → PriceAnswer F

-- A row of the table of financials. `base_time` is its date as a time.
pub record FinancialRow (F : Type 0) : Type 0 where
  pub ticker : String
  pub day : ℕ
  pub year : ℕ
  pub base_time : F
  pub figures : AnalyzedMetrics (Option F)

pub record Today (F : Type 0) : Type 0 where
  pub today : ℕ
  pub this_year : ℕ
  pub midnight : F

infixl 5 ◌>>=◌
abbrev ◌>>=◌ : {A B : Type 0} → Option A → (A → Option B) → Option B
none >>= f = none
some x >>= f = f x

module _ {F : Type 0} ⦃d : Double F⦄ where
  -- `x or y`
  abbrev pub or_f : Option F → F → F
  or_f none y = y
  or_f (some x) y = if truthy x then x else y

  -- `float(output.get(key, 0) or 0)`
  unfoldable pub number : String → Output F → Option F
  number key output = elim (lookup key output) [ none ↦ some nought | some v ↦ v ]

  abbrev pub times : Option F → Option F → Option F
  times none y = none
  times (some x) none = none
  times (some x) (some y) = some (x ⊗ y)

  -- All the figures, if none of them failed.
  unfoldable pub all_figures : AnalyzedMetrics (Option F) → Option (AnalyzedMetrics F)
  all_figures f = do
    per ← f.per
    pbr ← f.pbr
    roe ← f.roe
    eps ← f.eps
    bps ← f.bps
    dividend_yield ← f.dividend_yield
    current_price ← f.current_price
    market_cap ← f.market_cap
    some (record {
      per = per;
      pbr = pbr;
      roe = roe;
      eps = eps;
      bps = bps;
      dividend_yield = dividend_yield;
      current_price = current_price;
      market_cap = market_cap;
    })

  unfoldable pub analyze_domestic_metrics : Output F → Option (AnalyzedMetrics F)
  analyze_domestic_metrics [] = none
  analyze_domestic_metrics (e ∷ rest) =
      let output = e ∷ rest in
      let price = number "stck_prpr" output in
      all_figures (record {
        per = number "per" output;
        pbr = number "pbr" output;
        roe = some nought;
        eps = number "eps" output;
        bps = number "bps" output;
        dividend_yield = some nought;
        current_price = price;
        market_cap = times (number "lstn_stkn" output) price;
      })

  unfoldable pub analyze_overseas_metrics : Output F → Option (AnalyzedMetrics F)
  analyze_overseas_metrics [] = none
  analyze_overseas_metrics (e ∷ rest) =
      let output = e ∷ rest in
      all_figures (record {
        per = number "per" output;
        pbr = number "pbr" output;
        roe = number "roe" output;
        eps = number "eps" output;
        bps = number "bps" output;
        dividend_yield = number "yield" output;
        current_price = number "last" output;
        market_cap = number "tomv" output;
      })

  -- `analyze_dcf_inputs`: the cash flow per share, which may be missing, or an exception.
  unfoldable pub analyze_dcf_inputs : KisPayload F → Option (Option F)
  analyze_dcf_inputs raised = none
  analyze_dcf_inputs empty = some none
  analyze_dcf_inputs (fields raw output) = elim output [
    | none ↦ some (some nought)
    | some o ↦ elim (number "eps" o) [ none ↦ none | some x ↦ some (some x) ]
  ]

  -- `fetch_domestic_price` and `fetch_overseas_price` of services/kis/fetch/kis_fetcher.py, as far as
  -- FinancialService reads what they return: its `raw` is the output, and it has no `output`.
  unfoldable pub fetch_price : Bool → PriceAnswer F → KisPayload F
  fetch_price has_path unanswered = empty
  fetch_price has_path (status n none) = empty
  fetch_price has_path (status n (some [])) = empty
  fetch_price has_path (status n (some (e ∷ rest))) =
      if has_path && n == 200 then fields (some (e ∷ rest)) none else empty

  -- `payload.get("raw") or payload.get("output") or {}`
  unfoldable pub output_of : Option (Output F) → Option (Output F) → Output F
  output_of (some (e ∷ rest)) output = e ∷ rest
  output_of (some []) none = []
  output_of (some []) (some o) = o
  output_of none none = []
  output_of none (some o) = o

  -- `_financials_row_to_metrics`
  unfoldable pub financials_row_to_metrics : FinancialRow F → AnalyzedMetrics F
  financials_row_to_metrics row =
      let f = row.figures in
      record {
        per = or_f f.per nought;
        pbr = or_f f.pbr nought;
        roe = or_f f.roe nought;
        eps = or_f f.eps nought;
        bps = or_f f.bps nought;
        dividend_yield = or_f f.dividend_yield nought;
        current_price = or_f f.current_price nought;
        market_cap = or_f f.market_cap nought;
      }

  -- `_dict_to_metrics`
  unfoldable pub dict_to_metrics : AnalyzedMetrics F → AnalyzedMetrics F
  dict_to_metrics f = record {
    per = or_f (some f.per) nought;
    pbr = or_f (some f.pbr) nought;
    roe = or_f (some f.roe) nought;
    eps = or_f (some f.eps) nought;
    bps = or_f (some f.bps) nought;
    dividend_yield = or_f (some f.dividend_yield) nought;
    current_price = or_f (some f.current_price) nought;
    market_cap = or_f (some f.market_cap) nought;
  }

module _ {F : Type 0} where
  abbrev is_older : FinancialRow F → FinancialRow F → Bool
  is_older r s = ltb r.day s.day

  -- `get_financials_history`, newest first.
  unfoldable pub get_financials_history : String → ℕ → List (FinancialRow F) → List (FinancialRow F)
  get_financials_history ticker limit table =
      take limit (sort_desc is_older (filter (λ r. str_eq r.ticker ticker) table))

  -- `get_latest_financials`
  unfoldable pub get_latest_financials : String → List (FinancialRow F) → Option (FinancialRow F)
  get_latest_financials ticker table = get_elem? (get_financials_history ticker 1 table) 0

  abbrev some_figures : AnalyzedMetrics F → AnalyzedMetrics (Option F)
  some_figures f = record {
    per = some f.per;
    pbr = some f.pbr;
    roe = some f.roe;
    eps = some f.eps;
    bps = some f.bps;
    dividend_yield = some f.dividend_yield;
    current_price = some f.current_price;
    market_cap = some f.market_cap;
  }

  -- `save_financials` for these figures: the row of today is changed, or there is a new one.
  unfoldable pub save_financials :
      Today F → String → AnalyzedMetrics F → List (FinancialRow F) → List (FinancialRow F)
  save_financials t ticker f [] =
      record {
        ticker = ticker;
        day = t.today;
        year = t.this_year;
        base_time = t.midnight;
        figures = some_figures f;
      }
      ∷ []
  save_financials t ticker f (r ∷ rest) =
      if str_eq r.ticker ticker && r.day == t.today
      then record r { figures = some_figures f } ∷ rest
      else r ∷ save_financials t ticker f rest
