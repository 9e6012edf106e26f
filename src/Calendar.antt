-- ===== src/Calendar.antt =====
-- Python's `datetime.date`, as far as services/market/market_hour_service.py uses it: the day number
-- `toordinal()` (1 January of year 1 is 1), `weekday()` (Monday is 0) and month lengths. A date that
-- the code obtains by adding a `timedelta` stands as its day number.
pub mod Ordinals
use stock_advisor.Prelude.{
  ◌%◌, ◌&&◌, ◌*◌, ◌+◌, ◌-◌, ◌/◌, ◌==◌, Bool, if◌then◌else◌, ltb, not, ◌||◌, ℕ, suc, zero,
}

-- A day of the calendar, written `date year month day` as in Python.
pub record Date : Type 0 where
  pub year : ℕ
  pub month : ℕ
  pub day : ℕ

abbrev pub date : ℕ → ℕ → ℕ → Date
date in_year in_month on_day = record { day = on_day; month = in_month; year = in_year }

abbrev divides : ℕ → ℕ → Bool
divides k n = n % k == 0

unfoldable pub is_leap : ℕ → Bool
is_leap y = divides 4 y && (not (divides 100 y) || divides 400 y)

-- Months have 31 and 30 days in turn, beginning anew in August; there is no month 0.
unfoldable pub days_in_month : ℕ → ℕ → ℕ
days_in_month y zero = 0
days_in_month y m = if m == 2 then (if is_leap y then 29 else 28) else 30 + (m + m / 8) % 2

-- The lengths of all months before the given one.
unfoldable pub days_before_month : ℕ → ℕ → ℕ
unfolding days_in_month
days_before_month y zero = 0
days_before_month y (suc m) = days_in_month y m + days_before_month y m

-- Every fourth year is a leap year, but for three centuries out of four.
unfoldable pub days_before_year : ℕ → ℕ
days_before_year y = let past = y - 1 in 365 * past + past / 4 - past / 100 + past / 400

-- `date.toordinal()`
unfoldable pub ordinal : Date → ℕ
unfolding days_before_year
ordinal t = days_before_year t.year + days_before_month t.year t.month + t.day

-- `date.weekday()`, from the day number
unfoldable pub weekday : ℕ → ℕ
weekday o = (o + 6) % 7
