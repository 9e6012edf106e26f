-- ===== src/Calendar/Ordinals.antt =====
-- Facts about day numbers that the market calendar rests on.
use stock_advisor.Prelude.{ℕ, suc, ◌+◌, ◌≤◌, ◌<◌, ◌≡◌, refl, arith, if◌then◌else◌}
use stock_advisor.Calendar.{
  date, is_leap, days_in_month, days_before_month, days_before_year, ordinal, weekday,
}

-- A leap year adds one day to the days before March.
pub days_before_year-suc :
    (p : ℕ)
    → days_before_year (suc (suc p))
      ≡ days_before_year (suc p) + (if is_leap (suc p) then 366 else 365)
unfolding days_before_year is_leap
days_before_year-suc p = ground arith

pub days_before_month-suc :
    (y m : ℕ)
    → days_before_month y (suc (suc m)) ≡ days_before_month y (suc m) + days_in_month y (suc m)
unfolding days_before_month
days_before_month-suc y m = omega arith

pub weekday-lt : (o : ℕ) → weekday o < 7
unfolding weekday
weekday-lt o = omega arith

epoch : weekday (ordinal (date 2000 1 1)) ≡ 5
unfolding weekday ordinal days_before_month days_before_year
epoch = refl

pub days_in_month-ge : (y m : ℕ) → 28 ≤ days_in_month y (suc m)
unfolding days_in_month
days_in_month-ge y m = ground arith

pub day-le-ordinal : (y m d : ℕ) → d ≤ ordinal (date y m d)
unfolding ordinal
day-le-ordinal y m d = omega arith
