-- ===== src/MarketHours/Holidays.antt =====
-- The NYSE holiday rules of services/market/market_hour_service.py. A date that is computed stands
-- as its day number, so that `d in holidays` is a test on day numbers.
pub mod Easter
pub mod Weekdays
use stock_advisor.Prelude.{
  ℕ, ◌+◌, ◌-◌, ◌*◌, ◌/◌, ◌%◌, Bool, false, ◌||◌, List, [], ◌∷◌, ◌++◌, leb, ◌==◌, if◌then◌else◌,
}
use stock_advisor.Calendar.{Date, date, ordinal, weekday}

-- `_observed_fixed_holiday`
unfoldable pub observed_fixed_holiday : ℕ → ℕ → ℕ → ℕ
observed_fixed_holiday year month day =
    let d = ordinal (date year month day) in
    if weekday d == 5 then d - 1 else if weekday d == 6 then d + 1 else d

-- `_nth_weekday_of_month`; `wd` is between 0 and 6, so the difference with 7 added is not negative
unfoldable pub nth_weekday_of_month : ℕ → ℕ → ℕ → ℕ → ℕ
nth_weekday_of_month year month wd n =
    let d = ordinal (date year month 1) in
    let shift = (wd + 7 - weekday d) % 7 in d + (shift + (n - 1) * 7)

-- `_last_weekday_of_month`
unfoldable pub last_weekday_of_month : ℕ → ℕ → ℕ → ℕ
last_weekday_of_month year month wd =
    let d =
      if month == 12
      then ordinal (date (year + 1) 1 1) - 1
      else ordinal (date year (month + 1) 1) - 1 in
    let shift = (weekday d + 7 - wd) % 7 in d - shift

-- The variables of `_easter_sunday` up to `h + l - 7 * m + 114`; a sum that is subtracted from
-- comes first, which changes no value.
unfoldable pub easter_code : ℕ → ℕ
easter_code year =
    let a = year % 19 in
    let b = year / 100 in
    let c = year % 100 in
    let d = b / 4 in
    let e = b % 4 in
    let f = (b + 8) / 25 in
    let g = (b + 1 - f) / 3 in
    let h = (19 * a + b + 15 - d - g) % 30 in
    let i = c / 4 in
    let k = c % 4 in
    let l = (32 + 2 * e + 2 * i - h - k) % 7 in
    let m = (a + 11 * h + 22 * l) / 451 in h + l + 114 - 7 * m

-- `_easter_sunday`
unfoldable pub easter_sunday : ℕ → Date
easter_sunday year = let code = easter_code year in date year (code / 31) (code % 31 + 1)

-- The set `holidays` of `_is_us_market_holiday`
unfoldable pub us_holidays : ℕ → List ℕ
us_holidays year =
    let holidays =
      observed_fixed_holiday year 1 1
      ∷ nth_weekday_of_month year 1 0 3
      ∷ nth_weekday_of_month year 2 0 3
      ∷ (ordinal (easter_sunday year) - 2)
      ∷ last_weekday_of_month year 5 0
      ∷ observed_fixed_holiday year 7 4
      ∷ nth_weekday_of_month year 9 0 1
      ∷ nth_weekday_of_month year 11 3 4
      ∷ observed_fixed_holiday year 12 25
      ∷ [] in
    if leb 2022 year then holidays ++ (observed_fixed_holiday year 6 19 ∷ []) else holidays

unfoldable pub contains : ℕ → List ℕ → Bool
contains o [] = false
contains o (x ∷ xs) = x == o || contains o xs

-- `_is_us_market_holiday`
unfoldable pub is_us_market_holiday : Date → Bool
is_us_market_holiday d = contains (ordinal d) (us_holidays d.year)
