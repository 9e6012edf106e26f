-- ===== src/Macro/Economy/Weights.antt =====
-- The weighted score of the indicators and the reading of observations.
use stock_advisor.Prelude.{
  ℕ, ◌+◌, Bool, List, Option, String, [], arith, filter, none, some, ◌∷◌, ◌≡◌, ◌⊎◌, Bool-cases,
  Option-cases, refl, inl, inr,
}
use stock_advisor.Prelude.Int.{◌*ℤ◌, ◌+ℤ◌, minus, pos, ℤ, ◌≤ℤ◌, +ℤ_parts}
use stock_advisor.Prelude.Dict.{Dict, lookup}
use stock_advisor.Floats.{Double, ◌⊖◌}
use stock_advisor.Macro.Economy.{
  Indicator, get_fear_greed_index, get_fred_latest_pair, raw_score_of, read_values, rule_of,
  score_series, usable, add_series, get_economic_indicators, indicator_of, pair_of, fred_series,
}
use stock_advisor.Macro.Regime.Ranges.{Within}

-- The greatest total that the weights of a list of series allow.
abbrev pub weights : Dict String → ℕ
weights [] = 0
weights (e ∷ rest) = (rule_of e.0).weight + weights rest

-- A total within its bound on both sides.
abbrev pub Bounded : ℤ → ℤ → Type 0
Bounded total top = total ≤ℤ top × pos 0 ≤ℤ total +ℤ top

weights-fred_series : weights fred_series ≡ 26
unfolding rule_of lookup
weights-fred_series = refl

Bounded-zero : Bounded (pos 0) (pos 0)
unfolding ◌+ℤ◌
Bounded-zero = ground arith

step-Bounded :
    (total top z : ℤ) (w : ℕ)
    → Bounded total top
    → (z ≡ pos 1) ⊎ (z ≡ minus 1) ⊎ (z ≡ pos 0)
    → Bounded (total +ℤ z *ℤ pos w) (top +ℤ pos w)
unfolding ◌+ℤ◌ ◌*ℤ◌
step-Bounded total top z w p q = ground arith

module _ {F : Type 0} ⦃d : Double F⦄ where
  raw_score_of-cases :
      (good : Bool) (x : F)
      → (raw_score_of good x ≡ pos 1)
        ⊎ (raw_score_of good x ≡ minus 1)
        ⊎ (raw_score_of good x ≡ pos 0)
  unfolding raw_score_of
  raw_score_of-cases good x = ground arith

  add_series-Bounded :
      (key series : String) (o : Option (F × F)) (acc : Dict (Indicator F) × ℤ × ℤ)
      → Bounded acc.1 acc.2
      → let r = add_series key series o acc in
        Bounded r.1 r.2 × r.2 ≤ℤ acc.2 +ℤ pos (rule_of key).weight
  unfolding add_series indicator_of ◌+ℤ◌
  add_series-Bounded key series none acc p = (p, ground arith)
  add_series-Bounded key series (some (now, prev)) acc p =
      let r = rule_of key in
      (
        step-Bounded acc.1 acc.2 _ r.weight p (raw_score_of-cases r.higher_is_good (now ⊖ prev)),
        ground arith,
      )

  score_series-Bounded :
      (fetch : String → Option (F × F)) (series : Dict String) (acc : Dict (Indicator F) × ℤ × ℤ)
      → Bounded acc.1 acc.2
      → let r = score_series fetch series acc in
        Bounded r.1 r.2 × r.2 ≤ℤ acc.2 +ℤ pos (weights series)
  unfolding score_series
  score_series-Bounded fetch [] acc p = (p, ground (arith, +ℤ_parts acc.2 (pos 0)))
  score_series-Bounded fetch (e ∷ rest) acc p =
      let next = add_series e.0 e.1 (fetch e.1) acc in
      let one = add_series-Bounded e.0 e.1 (fetch e.1) acc p in
      let more = score_series-Bounded fetch rest next one.0 in
      (
        more.0,
        ground (
          arith,
          one,
          more,
          +ℤ_parts next.2 (pos (weights rest)),
          +ℤ_parts acc.2 (pos (rule_of e.0).weight),
          +ℤ_parts acc.2 (pos (weights (e ∷ rest))),
        ),
      )

  -- Whatever is downloaded, the total score of the indicators is at most the maximum score and at
  -- least its negative, and the maximum score is at most 26.
  pub get_economic_indicators-bounds :
      (fetch : String → Option (F × F))
      → let s = (get_economic_indicators fetch).summary in
        Bounded s.total_weighted_score s.max_weighted_score × s.max_weighted_score ≤ℤ pos 26
  unfolding get_economic_indicators
  get_economic_indicators-bounds fetch =
      let b = score_series-Bounded fetch fred_series ([], pos 0, pos 0) Bounded-zero in
      (b.0, ground (arith, b, weights-fred_series, +ℤ_parts (pos 0) (pos (weights fred_series))))

  -- The first two usable observations, if both are numbers.
  abbrev pub first_two : (String → Option F) → List String → Option (F × F)
  first_two float (x ∷ y ∷ rest) = elim (float x) [
    | none ↦ none
    | some v ↦ elim (float y) [ none ↦ none | some w ↦ some (v, w) ]
  ]
  first_two float _ = none

  read_values-one :
      (float : String → Option F) (v : F) (obs : List String)
      → pair_of (read_values float (v ∷ []) obs) ≡ elim (filter usable obs) [
        | [] ↦ none
        | y ∷ rest ↦ elim (float y) [ none ↦ none | some w ↦ some (v, w) ]
      ]
  unfolding read_values pair_of
  read_values-one float v [] = refl
  read_values-one float v (x ∷ obs) =
      ground (arith, read_values-one float v obs, Bool-cases (usable x), Option-cases (float x))

  -- _get_fred_latest_pair returns the first two observations that are neither empty nor ".", if
  -- both are numbers, and nothing otherwise.
  pub get_fred_latest_pair-first_two :
      (float : String → Option F) (observations : List String)
      → get_fred_latest_pair float (some observations)
        ≡ first_two float (filter usable observations)
  unfolding get_fred_latest_pair read_values pair_of
  get_fred_latest_pair-first_two float [] = refl
  get_fred_latest_pair-first_two float (x ∷ obs) = elim (Option-cases (float x)) [
    | inl e ↦ ground (arith, e, get_fred_latest_pair-first_two float obs)
    | inr (v, e) ↦
        ground (arith, e, get_fred_latest_pair-first_two float obs, read_values-one float v obs)
  ]

  -- The index lies between 0 and 100.
  pub get_fear_greed_index-bounds :
      (o : Option (Option F × Option F × Option F))
      → Within (pos 0) (pos 100) (get_fear_greed_index o)
  unfolding get_fear_greed_index
  get_fear_greed_index-bounds o = ground arith
