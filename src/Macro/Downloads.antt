-- ===== src/Macro/Downloads.antt =====
-- The smaller downloads of services/market/macro_service.py: indices, crypto and commodities. Closes
-- of two days come newest first; a download that raises is `none`. The token of the broker is left
-- out.
use stock_advisor.Prelude.{
  ℕ, List, Option, String, [], false, if◌then◌else◌, leb, length, none, some, ◌∷◌, ◌≡◌, Bool-cases,
  Option-cases, arith, eq_iff, inl, inr,
}
use stock_advisor.Prelude.Dict.{Dict, insert, lookup, lookup-insert}
use stock_advisor.Floats.{Double, nought, num, ◌⊖◌, ◌⊗◌, ◌⊘◌}

pub record Price (F : Type 0) : Type 0 where
  pub price : F
  pub change : F

module _ {F : Type 0} ⦃d : Double F⦄ where
  unfoldable pub zero_price : Price F
  zero_price = record { price = nought; change = nought }

  -- The price and its change over a day, where there are two closes.
  unfoldable pub day_price : ℕ → List F → Price F → Price F
  day_price digits (price ∷ prev ∷ rest) old = record {
    price = d.round price digits;
    change = d.round ((price ⊘ prev ⊖ num 1) ⊗ num 100) 2;
  }
  day_price digits hist old = old

  unfoldable pub get_crypto_data : Option (List F) → Dict (Price F)
  get_crypto_data none = ("BTC", zero_price) ∷ []
  get_crypto_data (some hist) = ("BTC", day_price 0 hist zero_price) ∷ []

  -- The first download that raises ends the loop.
  unfoldable pub fill_prices :
      (String → Option (List F)) → List (String × String) → Dict (Price F) → Dict (Price F)
  fill_prices history [] result = result
  fill_prices history ((name, symbol) ∷ rest) result = elim (history symbol) [
    | none ↦ result
    | some hist ↦ fill_prices history rest (elim (lookup name result) [
      | none ↦ result
      | some old ↦ insert name (day_price 2 hist old) result
    ])
  ]

  unfoldable pub get_commodity_data : (String → Option (List F)) → Dict (Price F)
  get_commodity_data history =
      fill_prices history (("Gold", "GC=F") ∷ ("Oil", "CL=F") ∷ [])
        (("Gold", zero_price) ∷ ("Oil", zero_price) ∷ [])

  -- The broker's price of an index, by its symbol; one that fails is 0.
  unfoldable pub broker_prices :
      (String → Option (Price F)) → List (String × String) → Dict (Price F)
  broker_prices fetch [] = []
  broker_prices fetch ((symb, name) ∷ rest) =
      (name, elim (fetch symb) [ none ↦ zero_price | some p ↦ p ]) ∷ broker_prices fetch rest

  -- The fallback of American indices that the broker gives as 0.
  unfoldable pub fallback_prices :
      (String → Option (List F)) → List (String × String) → Dict (Price F) → Dict (Price F)
  fallback_prices history [] indices = indices
  fallback_prices history ((name, symbol) ∷ rest) indices =
      let found : Price F = elim (lookup name indices) [ none ↦ zero_price | some p ↦ p ] in
      let kept = fallback_prices history rest indices in
      let filled = λ (hist : List F).
        fallback_prices history rest
          (if leb 2 (length hist) then insert name (day_price 2 hist found) indices else indices) in
      if d.eq found.price nought
      then elim (history symbol) [ none ↦ indices | some hist ↦ filled hist ]
      else kept

  unfoldable pub get_major_indices :
      (String → Option (Price F)) → (String → Option (List F)) → Dict (Price F)
  get_major_indices fetch history =
      fallback_prices history (("S&P500", "^GSPC") ∷ ("Dow", "^DJI") ∷ ("Nasdaq100", "^NDX") ∷ []) (
        broker_prices fetch
          (("SPX", "S&P500") ∷ ("DJI", "Dow") ∷ ("NAS", "Nasdaq100") ∷ ("0001", "KOSPI") ∷ []))

  -- A price of the broker that is not 0 stays.
  pub broker_price-stays :
      (history : String → Option (List F)) (names : List (String × String))
      (indices : Dict (Price F)) (name : String) (p : Price F)
      → lookup name indices ≡ some p
      → d.eq p.price nought ≡ false
      → lookup name (fallback_prices history names indices) ≡ some p
  unfolding fallback_prices
  broker_price-stays history [] indices name p e q = e
  broker_price-stays history (n ∷ rest) indices name p e q =
      let found = elim (lookup n.0 indices) as (λ o. Price F) [ none ↦ zero_price | some r ↦ r ] in
      elim (Bool-cases (d.eq found.price nought)) [
        | inl z ↦ elim (Option-cases (history n.1)) [
          | inl h ↦ ground (arith, e, z, h)
          | inr (hist, h) ↦ elim (Bool-cases (leb 2 (length hist))) [
            | inl b ↦ ground (
              arith,
              e,
              q,
              z,
              h,
              b,
              eq_iff n.0 name,
              broker_price-stays history rest (insert n.0 (day_price 2 hist found) indices) name p,
              lookup-insert n.0 name (day_price 2 hist found) indices,
            )
            | inr b ↦ ground (arith, z, h, b, broker_price-stays history rest indices name p e q)
          ]
        ]
        | inr z ↦ ground (arith, z, broker_price-stays history rest indices name p e q)
      ]
