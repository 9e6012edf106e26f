-- ===== src/Financials/Series.antt =====
-- The series of `_build_yearly_eps_as_cashflow` of services/analysis/financial_service.py.
use stock_advisor.Prelude.{
  ◌<◌, ◌==◌, All, Bool, Bool-cases, List, [], arith, false, if_cases, inl, inr, leb, length, suc,
  true, ◌||◌, ℕ, ◌∷◌, ◌≡◌, ◌≤◌, ◌⊎◌,
}
use stock_advisor.Floats.{Double, nought, ◌≤?◌}
use stock_advisor.Financials.{FinancialRow, or_f}
use stock_advisor.Financials.Growth.{add_point, build_yearly_eps, has_year, YearSeries}
use mathlib.Core.List.{foldl}

or_false : (a b c : Bool) → (a || b || c) ≡ false → (a ≡ false) × (b ≡ false) × (c ≡ false)
or_false a b c e = (
  ground (arith, e, Bool-cases a),
  ground (arith, e, Bool-cases a, Bool-cases b),
  ground (arith, e, Bool-cases a, Bool-cases b, Bool-cases c),
)

room :
    (years : ℕ) (stopped : Bool) (n : ℕ)
    → (stopped ≡ true) ⊎ (n < years)
    → stopped ≡ false
    → n < years
room years stopped n (inl p) q = ground (arith, p, q)
room years stopped n (inr p) q = p

stop_or_room : (years n : ℕ) → n < years → (leb years (suc n) ≡ true) ⊎ (suc n < years)
stop_or_room years n p = ground (arith, p, Bool-cases (leb years (suc n)))

module _ {F : Type 0} ⦃d : Double F⦄ where
  -- The years of the history never increase.
  abbrev pub IsNewestFirst : ℕ → List (FinancialRow F) → Type 0
  IsNewestFirst b [] = Unit
  IsNewestFirst b (r ∷ rest) = (r.year ≤ b) × IsNewestFirst r.year rest

  abbrev pub IsBefore : ℕ → List (ℕ × F) → Type 0
  IsBefore y [] = Unit
  IsBefore y (p ∷ rest) = y < p.0

  abbrev pub IsAscending : List (ℕ × F) → Type 0
  IsAscending [] = Unit
  IsAscending (p ∷ rest) = IsBefore p.0 rest × IsAscending rest

  abbrev AtLeast : ℕ → List (ℕ × F) → Type 0
  AtLeast b [] = Unit
  AtLeast b (p ∷ rest) = b ≤ p.0

  -- Oldest first, none that is 0 or less, and no more than asked for.
  abbrev pub IsSeries : ℕ → List (ℕ × F) → Type 0
  IsSeries years points =
      IsAscending points × All (λ p. d.le p.1 nought ≡ false) points × (length points ≤ years)

  abbrev IsReached : ℕ → ℕ → YearSeries F → Type 0
  IsReached years b s =
      IsSeries years s.points
      × AtLeast b s.points
      × ((s.stopped ≡ true) ⊎ (length s.points < years))

  AtLeast-mono : (a b : ℕ) (points : List (ℕ × F)) → a ≤ b → AtLeast b points → AtLeast a points
  AtLeast-mono a b [] p q = tt
  AtLeast-mono a b (x ∷ rest) p q = omega (arith, p, q)

  new_year :
      (y b : ℕ) (points : List (ℕ × F))
      → y ≤ b
      → AtLeast b points
      → has_year y points ≡ false
      → IsBefore y points
  new_year y b [] p q e = tt
  new_year y b (x ∷ rest) p q e = ground (arith, p, q, e, Bool-cases (x.0 == y))

  add_point-IsReached :
      (years b : ℕ) (s : YearSeries F) (row : FinancialRow F)
      → row.year ≤ b
      → IsReached years b s
      → IsReached years row.year (add_point years s row)
  unfolding add_point
  add_point-IsReached years b s row p q =
      let eps = or_f (row.figures).eps nought in
      let known = has_year row.year s.points in
      let keep : IsReached years row.year s = (q.0, AtLeast-mono row.year b s.points p q.1, q.2) in
      if_cases (IsReached years row.year) (s.stopped || known || eps ≤? nought) _ _ (λ e. keep)
        (λ e.
          let go = or_false s.stopped known (eps ≤? nought) e in
          (
            (
              (new_year row.year b s.points p q.1 go.1, (q.0).0),
              (go.2, (q.0).1),
              room years s.stopped (length s.points) q.2 go.0,
            ),
            omega arith,
            stop_or_room years (length s.points) (room years s.stopped (length s.points) q.2 go.0),
          ))

  foldl-IsSeries :
      (years b : ℕ) (s : YearSeries F) (history : List (FinancialRow F))
      → IsNewestFirst b history
      → IsReached years b s
      → IsSeries years (foldl (add_point years) s history).points
  foldl-IsSeries years b s [] p q = q.0
  foldl-IsSeries years b s (r ∷ rest) p q =
      foldl-IsSeries years r.year (add_point years s r) rest p.1
        (add_point-IsReached years b s r p.0 q)

  -- For a history whose years never increase the series has its years in strictly rising order, no
  -- value that is 0 or less, and at most as many points as asked for, if that number is positive.
  pub build_yearly_eps-IsSeries :
      (years b : ℕ) (history : List (FinancialRow F))
      → 0 < years
      → IsNewestFirst b history
      → IsSeries years (build_yearly_eps years history)
  unfolding build_yearly_eps
  build_yearly_eps-IsSeries years b history p q =
      foldl-IsSeries years b (record { points = []; stopped = false }) history q
        ((tt, tt, omega arith), tt, inr p)
