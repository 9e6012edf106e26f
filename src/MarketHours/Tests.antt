-- ===== src/MarketHours/Tests.antt =====
-- Runs of the market calendar at known dates, and the theorems at concrete inputs.
use stock_advisor.Prelude.{◌+◌, ◌≤◌, ◌<◌, ◌≡◌, refl, true, false, ℕ}
use stock_advisor.Calendar.{date, ordinal, weekday, days_before_month, days_in_month, is_leap}
use stock_advisor.MarketHours.Holidays.{
  easter_sunday, easter_code, is_us_market_holiday, us_holidays, nth_weekday_of_month,
  last_weekday_of_month, observed_fixed_holiday, contains,
}
use stock_advisor.MarketHours.Holidays.Easter.{easter_sunday-IsSunday}
use stock_advisor.MarketHours.Holidays.Weekdays.{observed_fixed_holiday_lem}
use stock_advisor.MarketHours.Sessions.{
  Moment, time, is_kr_market_open, is_us_market_open, should_fetch,
}
use stock_advisor.MarketHours.Sessions.Windows.{extended_hours_us, open-should_fetch}

easter_2026 : easter_sunday 2026 ≡ date 2026 4 5
unfolding easter_sunday easter_code
easter_2026 = refl

thanksgiving_2025 : is_us_market_holiday (date 2025 11 27) ≡ true
unfolding is_us_market_holiday contains us_holidays observed_fixed_holiday nth_weekday_of_month
    last_weekday_of_month easter_sunday easter_code ordinal days_before_month days_in_month is_leap
    weekday
thanksgiving_2025 = refl

easter_sunday-IsSunday_example :
    (weekday (ordinal (easter_sunday 2026)) ≡ 6)
    × (ordinal (date 2026 3 22) ≤ ordinal (easter_sunday 2026))
    × (ordinal (easter_sunday 2026) ≤ ordinal (date 2026 4 25))
easter_sunday-IsSunday_example = easter_sunday-IsSunday 2025

observed_fixed_holiday_lem_example :
    let o = ordinal (date 2026 7 4) in
    let observed = observed_fixed_holiday 2026 7 4 in
    (weekday observed < 5)
    × (weekday o < 5 → observed ≡ o)
    × (weekday o ≡ 5 → (weekday observed ≡ 4) × (observed + 1 ≡ o))
    × (weekday o ≡ 6 → (weekday observed ≡ 0) × (observed ≡ o + 1))
observed_fixed_holiday_lem_example = observed_fixed_holiday_lem 2026 7 4

-- Wednesday, 11 March 2026.
abbrev at : ℕ → ℕ → Moment
at h m = record { today = date 2026 3 11; time = time h m }

extended_hours_us_example :
    (is_us_market_open true (at 5 0) true ≡ is_us_market_open true (at 5 0) false)
    × (is_us_market_open false (at 5 0) false ≡ true → is_us_market_open false (at 5 0) true ≡ true)
extended_hours_us_example = extended_hours_us (at 5 0)

open-should_fetch_example :
    (is_kr_market_open false (at 10 0) false ≡ true → should_fetch "KR" (at 10 0) ≡ true)
    × (is_us_market_open false (at 21 0) false ≡ true → should_fetch "US" (at 21 0) ≡ true)
open-should_fetch_example = open-should_fetch false (at 10 0) (at 21 0)
