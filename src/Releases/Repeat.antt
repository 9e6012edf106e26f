-- ===== src/Releases/Repeat.antt =====
-- `check_for_new_releases` of services/market/economic_calendar_service.py over two runs.
use stock_advisor.Prelude.{
  ◌++◌, All, List, Option, String, [], ap, arith, eq_iff, option_cases, refl, some, ℕ, ◌∷◌, ◌≡◌,
}
use stock_advisor.Prelude.Dict.{Dict, insert, lookup, lookup-insert}
use stock_advisor.Releases.{
  Release, Series, check_for_new_releases, check_series, new_release, series_meta,
}

new_release-current :
    (s : Series) (n : ℕ) (cache : Dict ℕ)
    → lookup s.series_id cache ≡ some n
    → new_release cache s n ≡ []
unfolding new_release
new_release-current s n cache e = ground arith

append-empty : {xs ys : List Release} → xs ≡ [] → ys ≡ [] → xs ++ ys ≡ []
append-empty p q = rw (p, q)

module _ (latest_of : String → Option ℕ) where
  -- The cache has the latest day of a series, if it has one.
  abbrev IsCurrent : Dict ℕ → String → Type 0
  IsCurrent cache k = (n : ℕ) → latest_of k ≡ some n → lookup k cache ≡ some n

  abbrev AllCurrent : List Series → Dict ℕ → Type 0
  AllCurrent table cache = All (λ s. IsCurrent cache s.series_id) table

  insert-IsCurrent :
      (k j : String) (n : ℕ) (cache : Dict ℕ)
      → latest_of j ≡ some n
      → IsCurrent cache k
      → IsCurrent (insert j n cache) k
  insert-IsCurrent k j n cache e p m q =
      ground (arith, lookup-insert j k n cache, eq_iff j k, p m q, ap latest_of)

  insert-own_IsCurrent :
      (j : String) (n : ℕ) (cache : Dict ℕ) → latest_of j ≡ some n → IsCurrent (insert j n cache) j
  insert-own_IsCurrent j n cache e m q = ground (arith, lookup-insert j j n cache, eq_iff j j)

  insert-AllCurrent :
      (j : String) (n : ℕ) (cache : Dict ℕ) (table : List Series)
      → latest_of j ≡ some n
      → AllCurrent table cache
      → AllCurrent table (insert j n cache)
  insert-AllCurrent j n cache [] e p = tt
  insert-AllCurrent j n cache (s ∷ rest) e p =
      (insert-IsCurrent s.series_id j n cache e p.0, insert-AllCurrent j n cache rest e p.1)

  check_series-IsCurrent :
      (k : String) (table : List Series) (cache : Dict ℕ)
      → IsCurrent cache k
      → IsCurrent (check_series latest_of table cache).1 k
  unfolding check_series
  check_series-IsCurrent k [] cache p = p
  check_series-IsCurrent k (s ∷ rest) cache p =
      let P : List Release × Dict ℕ → Type 0 = λ r. IsCurrent r.1 k in
      option_cases P (latest_of s.series_id) _ _ (λ e. check_series-IsCurrent k rest cache p)
        (λ n e.
          check_series-IsCurrent k rest (insert s.series_id n cache)
            (insert-IsCurrent k s.series_id n cache e p))

  check_series-AllCurrent :
      (table : List Series) (cache : Dict ℕ)
      → AllCurrent table (check_series latest_of table cache).1
  unfolding check_series
  check_series-AllCurrent [] cache = tt
  check_series-AllCurrent (s ∷ rest) cache =
      let P : List Release × Dict ℕ → Type 0 = λ r. AllCurrent (s ∷ rest) r.1 in
      option_cases P (latest_of s.series_id) _ _
        (λ e. (
          check_series-IsCurrent s.series_id rest cache (λ n q. ground arith),
          check_series-AllCurrent rest cache,
        ))
        (λ n e.
          let now = insert s.series_id n cache in
          (
            check_series-IsCurrent s.series_id rest now
                (insert-own_IsCurrent s.series_id n cache e),
            check_series-AllCurrent rest now,
          ))

  check_series-quiet :
      (table : List Series) (cache : Dict ℕ)
      → AllCurrent table cache
      → (check_series latest_of table cache).0 ≡ []
  unfolding check_series
  check_series-quiet [] cache p = refl
  check_series-quiet (s ∷ rest) cache p =
      let P : List Release × Dict ℕ → Type 0 = λ r. r.0 ≡ [] in
      option_cases P (latest_of s.series_id) _ _ (λ e. check_series-quiet rest cache p.1)
        (λ n e. append-empty (new_release-current s n cache (p.0 n e)) (
          check_series-quiet rest (insert s.series_id n cache)
            (insert-AllCurrent s.series_id n cache rest e p.1)))

  -- A second check at which the same days are the latest finds no new release.
  pub check_for_new_releases-twice :
      (cache : Dict ℕ)
      → (check_for_new_releases latest_of (check_for_new_releases latest_of cache).1).0 ≡ []
  unfolding check_for_new_releases
  check_for_new_releases-twice cache =
      check_series-quiet series_meta _ (check_series-AllCurrent series_meta cache)
