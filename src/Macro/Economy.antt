-- ===== src/Macro/Economy.antt =====
-- The downloads of services/market/macro_service.py: the FRED indicators and their weighted score,
-- the yield, the VIX, and fear and greed. Weights and scores are small whole numbers, which floats
-- hold exactly. A download that fails is `none`; `float` of a text is a parameter.
pub mod Weights
use stock_advisor.Prelude.{
  ℕ, ◌&&◌, ◌++◌, Bool, List, Option, String, [], false, filter, if◌then◌else◌, leb, length, none,
  not, some, str_eq, true, ◌||◌, ◌∷◌,
}
use stock_advisor.Prelude.Int.{◌*ℤ◌, ◌+ℤ◌, clamp_ℤ, ltb_ℤ, minus, pos, ℤ}
use stock_advisor.Floats.{◌<?◌, Double, int, nought, num, truthy, ◌⊖◌, ◌⊘◌}
use stock_advisor.Prelude.Dict.{Dict, insert, lookup}

pub record Rule : Type 0 where
  pub higher_is_good : Bool
  pub name : String
  pub weight : ℕ

abbrev rule : Bool → String → ℕ → Rule
rule good n w = record { higher_is_good = good; name = n; weight = w }

abbrev pub fred_series : Dict String
fred_series =
    ("avg_hourly_earnings", "CES0500000003")
    ∷ ("cpi", "CPIAUCSL")
    ∷ ("ppi", "PPIACO")
    ∷ ("nonfarm_payrolls", "PAYEMS")
    ∷ ("unemployment_rate", "UNRATE")
    ∷ ("consumer_confidence", "UMCSENT")
    ∷ ("pmi", "IPMAN")
    ∷ ("retail_sales", "RSXFS")
    ∷ ("industrial_production", "INDPRO")
    ∷ ("capacity_utilization", "TCU")
    ∷ ("housing_starts", "HOUST")
    ∷ ("building_permits", "PERMIT")
    ∷ ("durable_goods_orders", "DGORDER")
    ∷ ("initial_jobless_claims", "ICSA")
    ∷ []

abbrev pub macro_rules : Dict Rule
macro_rules =
    ("cpi", rule false "소비자 물가 지수(CPI)" 3)
    ∷ ("unemployment_rate", rule false "실업률" 3)
    ∷ ("nonfarm_payrolls", rule true "비농업 고용(NFP)" 3)
    ∷ ("pmi", rule true "제조업 생산 지수(PMI)" 2)
    ∷ ("consumer_confidence", rule true "소비자 신뢰 지수" 2)
    ∷ ("ppi", rule false "생산자 물가 지수(PPI)" 2)
    ∷ ("retail_sales", rule true "소매 판매" 2)
    ∷ ("durable_goods_orders", rule true "내구재 주문" 2)
    ∷ ("initial_jobless_claims", rule false "실업 수당 청구" 2)
    ∷ ("industrial_production", rule true "산업 생산 지수" 1)
    ∷ ("capacity_utilization", rule true "설비 가동률" 1)
    ∷ ("avg_hourly_earnings", rule false "시간당 평균 임금" 1)
    ∷ ("housing_starts", rule true "주택 착공" 1)
    ∷ ("building_permits", rule true "건축 허가" 1)
    ∷ []

-- `rule.get(...)` with its defaults
unfoldable pub rule_of : String → Rule
rule_of key = elim (lookup key macro_rules) [ none ↦ rule true key 1 | some r ↦ r ]

pub record Indicator (F : Type 0) : Type 0 where
  pub name : String
  pub series_id : String
  pub weight : ℕ
  pub latest : Option F
  pub previous : Option F
  pub delta : Option F
  pub score : ℤ
  pub weighted_score : ℤ
  pub status : String

pub record Summary (F : Type 0) : Type 0 where
  pub total_weighted_score : ℤ
  pub max_weighted_score : ℤ
  pub sentiment_ratio : F
  pub available_count : ℕ
  pub total_count : ℕ

pub record EconomicIndicators (F : Type 0) : Type 0 where
  pub indicators : Dict (Indicator F)
  pub summary : Summary F

unfoldable pub status_word : ℤ → String
status_word raw_score =
    if ltb_ℤ (pos 0) raw_score
    then "positive"
    else if ltb_ℤ raw_score (pos 0)
    then "negative"
    else "neutral"

-- The usable observations: an empty value or "." counts as missing.
abbrev pub usable : String → Bool
usable raw = not (str_eq raw "" || str_eq raw ".")

module _ {F : Type 0} where
  -- The values read so far, in order; `none` is the ValueError of `float`, which ends the loop.
  unfoldable pub read_values : (String → Option F) → List F → List String → Option (List F)
  read_values float values [] = some values
  read_values float values (raw ∷ raws) =
      let skipped = read_values float values raws in
      let more = λ (v : F). read_values float (values ++ v ∷ []) raws in
      if usable raw
      then elim (float raw) [
        | none ↦ none
        | some v ↦ if leb 2 (length (values ++ v ∷ [])) then some (values ++ v ∷ []) else more v
      ]
      else skipped

  -- The first two of the values, if there are two.
  unfoldable pub pair_of : Option (List F) → Option (F × F)
  pair_of (some (x ∷ y ∷ rest)) = some (x, y)
  pair_of _ = none

  -- `_get_fred_latest_pair`; without an API key or an answer there are no observations.
  unfoldable pub get_fred_latest_pair : (String → Option F) → Option (List String) → Option (F × F)
  get_fred_latest_pair float none = none
  get_fred_latest_pair float (some observations) = pair_of (read_values float [] observations)

module _ {F : Type 0} ⦃d : Double F⦄ where
  unfoldable pub raw_score_of : Bool → F → ℤ
  raw_score_of higher_is_good delta =
      if nought <? delta
      then if higher_is_good then pos 1 else minus 1
      else if delta <? nought
      then if higher_is_good then minus 1 else pos 1
      else pos 0

  unfoldable pub indicator_of : String → String → Option (F × F) → Indicator F
  indicator_of key series none = record {
    name = (rule_of key).name;
    series_id = series;
    weight = (rule_of key).weight;
    latest = none;
    previous = none;
    delta = none;
    score = pos 0;
    weighted_score = pos 0;
    status = "no_data";
  }
  indicator_of key series (some (now, prev)) =
      let raw_score = raw_score_of (rule_of key).higher_is_good (now ⊖ prev) in
      record {
        name = (rule_of key).name;
        series_id = series;
        weight = (rule_of key).weight;
        latest = some (d.round now 4);
        previous = some (d.round prev 4);
        delta = some (d.round (now ⊖ prev) 4);
        score = raw_score;
        weighted_score = raw_score *ℤ pos (rule_of key).weight;
        status = status_word raw_score;
      }

  -- One turn of the loop over the keys: the indicator, and with data its share of both totals.
  unfoldable pub add_series :
      String → String → Option (F × F) → Dict (Indicator F) × ℤ × ℤ → Dict (Indicator F) × ℤ × ℤ
  add_series key series none (inds, total, top) =
      (insert key (indicator_of key series none) inds, total, top)
  add_series key series (some p) (inds, total, top) =
      let i = indicator_of key series (some p) in
      (insert key i inds, total +ℤ i.weighted_score, top +ℤ pos i.weight)

  unfoldable pub score_series :
      (String → Option (F × F))
      → Dict String
      → Dict (Indicator F) × ℤ × ℤ
      → Dict (Indicator F) × ℤ × ℤ
  score_series fetch [] acc = acc
  score_series fetch ((key, series) ∷ rest) acc =
      score_series fetch rest (add_series key series (fetch series) acc)

  abbrev pub has_data : Indicator F → Bool
  has_data i = not (str_eq i.status "no_data")

  unfoldable pub get_economic_indicators : (String → Option (F × F)) → EconomicIndicators F
  get_economic_indicators fetch =
      let r = score_series fetch fred_series ([], pos 0, pos 0) in
      record {
        indicators = r.0;
        summary = record {
          total_weighted_score = r.1;
          max_weighted_score = r.2;
          sentiment_ratio = if ltb_ℤ (pos 0) r.2 then d.round (int r.1 ⊘ int r.2) 4 else nought;
          available_count = length (filter (λ e. has_data e.1) r.0);
          total_count = length fred_series;
        };
      }

  -- `_get_us_10y_yield`: the closes of the day, newest first
  unfoldable pub get_us_10y_yield : Option (List F) → F
  get_us_10y_yield (some (x ∷ xs)) = d.round x 3
  get_us_10y_yield _ = d.decimal (pos 45) 1

  -- `_get_vix`: the broker's price if it is positive, else the last close, else 20
  unfoldable pub get_vix : Option (Option F) → Option (List F) → F
  get_vix res last_closes =
      let fallback : F = elim last_closes [ some (x ∷ xs) ↦ d.round x 2 | _ ↦ num 20 ] in
      elim res [
        | some (some val) ↦ if truthy val && nought <? val then val else fallback
        | _ ↦ fallback
      ]

  -- `_get_fear_greed_index`: the first of three fields that is there, within 0 to 100
  unfoldable pub get_fear_greed_index : Option (Option F × Option F × Option F) → ℤ
  get_fear_greed_index none = pos 50
  get_fear_greed_index (some (score, val, old)) =
      let clamped = λ (x : F). clamp_ℤ (pos 0) (pos 100) (d.truncate (d.round x 0)) in
      elim score [
        | some x ↦ clamped x
        | none ↦ elim val [
          | some x ↦ clamped x
          | none ↦ elim old [ some x ↦ clamped x | none ↦ pos 50 ]
        ]
      ]
