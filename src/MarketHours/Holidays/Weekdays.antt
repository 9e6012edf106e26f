-- ===== src/MarketHours/Holidays/Weekdays.antt =====
-- The rules for floating and fixed holidays pick the right day.
use stock_advisor.Prelude.{
  ℕ, suc, ◌+◌, ◌-◌, ◌*◌, ◌%◌, ◌≤◌, ◌<◌, ◌≡◌, refl, ◌↔◌, inl, inr, All, arith, leb, if◌then◌else◌,
  ◌==◌, Bool-cases,
}
use stock_advisor.Calendar.{date, days_in_month, days_before_month, ordinal, weekday, is_leap}
use stock_advisor.Calendar.Ordinals.{days_before_month-suc, days_in_month-ge, day-le-ordinal}
use stock_advisor.MarketHours.Holidays.{
  observed_fixed_holiday, nth_weekday_of_month, last_weekday_of_month, easter_sunday, us_holidays,
}
use stock_advisor.MarketHours.Holidays.Easter.{easter_sunday-IsSunday}

-- `_nth_weekday_of_month` is the one day with that weekday in the n-th seven days of the month.
pub nth_weekday_of_month_iff :
    (y m wd n o : ℕ)
    → wd < 7
    → 1 ≤ n
    → let first = ordinal (date y m 1) in
      (o ≡ nth_weekday_of_month y m wd n)
      ↔ ((weekday o ≡ wd) × (first + 7 * (n - 1) ≤ o) × (o < first + 7 * n))
unfolding nth_weekday_of_month weekday
nth_weekday_of_month_iff y m wd n o hw hn = (λ e. omega arith, λ h. omega arith)

-- The first of the next month follows the last day of the month.
first_of_next_month :
    (p m : ℕ)
    → m < 11
    → ordinal (date (suc p) (suc (suc m)) 1)
      ≡ ordinal (date (suc p) (suc m) (days_in_month (suc p) (suc m))) + 1
unfolding ordinal
first_of_next_month p m h = omega (arith, days_before_month-suc (suc p) m)

first_of_next_year : (p : ℕ) → ordinal (date (suc p + 1) 1 1) ≡ ordinal (date (suc p) 12 31) + 1
unfolding ordinal days_before_month days_in_month is_leap
first_of_next_year p = ground arith

-- The day that `_last_weekday_of_month` counts back from.
last_of_month :
    (p m : ℕ)
    → m < 12
    → let y = suc p in
      (if suc m == 12 then ordinal (date (y + 1) 1 1) - 1 else ordinal (date y (suc m + 1) 1) - 1)
      ≡ ordinal (date y (suc m) (days_in_month y (suc m)))
unfolding days_in_month
last_of_month p m h = elim (Bool-cases (suc m == 12)) [
  | inl e ↦
      let eleven : m ≡ 11 = ground arith in rw (e, eleven) (omega (arith, first_of_next_year p))
  | inr e ↦
      let next : suc m + 1 ≡ suc (suc m) = omega arith in
      let early : m < 11 = ground arith in
      rw (e, next) (omega (arith, first_of_next_month p m early))
]

-- Counting back from a day to a weekday stays within seven days.
back_to_weekday :
    (last wd o : ℕ)
    → wd < 7
    → 6 ≤ last
    → (o ≡ last - (weekday last + 7 - wd) % 7) ↔ ((weekday o ≡ wd) × (last < o + 7) × (o ≤ last))
unfolding weekday
back_to_weekday last wd o hw hl = (λ e. omega arith, λ h. omega arith)

-- `_last_weekday_of_month` is the one day with that weekday in the last seven days of the month.
pub last_weekday_of_month_iff :
    (p m wd o : ℕ)
    → m < 12
    → wd < 7
    → let y = suc p in
      let last = ordinal (date y (suc m) (days_in_month y (suc m))) in
      (o ≡ last_weekday_of_month y (suc m) wd) ↔ ((weekday o ≡ wd) × (last < o + 7) × (o ≤ last))
unfolding last_weekday_of_month
last_weekday_of_month_iff p m wd o hm hw =
    let y = suc p in
    let last = days_in_month y (suc m) in
    rw (last_of_month p m hm) (
      back_to_weekday (ordinal (date y (suc m) last)) wd o hw
        (omega (arith, days_in_month-ge y m, day-le-ordinal y (suc m) last)))

-- `_observed_fixed_holiday` is the holiday itself, or the Friday before or the Monday after it
-- if it falls on a weekend.
pub observed_fixed_holiday_lem :
    (y m d : ℕ)
    → let o = ordinal (date y m d) in
      let observed = observed_fixed_holiday y m d in
      (weekday observed < 5)
      × (weekday o < 5 → observed ≡ o)
      × (weekday o ≡ 5 → (weekday observed ≡ 4) × (observed + 1 ≡ o))
      × (weekday o ≡ 6 → (weekday observed ≡ 0) × (observed ≡ o + 1))
unfolding observed_fixed_holiday weekday
observed_fixed_holiday_lem y m d = ground arith

good_friday-weekday : (p : ℕ) → weekday (ordinal (easter_sunday (suc p)) - 2) ≡ 4
unfolding weekday ordinal
good_friday-weekday p = omega (arith, easter_sunday-IsSunday p)

nth_weekday_of_month-weekday :
    (y m wd n : ℕ) → wd < 7 → weekday (nth_weekday_of_month y m wd n) ≡ wd
unfolding nth_weekday_of_month weekday
nth_weekday_of_month-weekday y m wd n h = omega arith

last_monday_of_may : (p : ℕ) → weekday (last_weekday_of_month (suc p) 5 0) ≡ 0
last_monday_of_may p =
    ((last_weekday_of_month_iff p 4 0 (last_weekday_of_month (suc p) 5 0) (omega arith)
        (omega arith)).0
      refl).0

-- Every holiday that `_is_us_market_holiday` knows in a year falls on a day from Monday to Friday.
pub us_holidays-weekday : (p : ℕ) → All (λ o. weekday o < 5) (us_holidays (suc p))
unfolding us_holidays
us_holidays-weekday p =
    let y = suc p in
    let fixed = λ (m d : ℕ). (observed_fixed_holiday_lem y m d).0 in
    let mlk : weekday (nth_weekday_of_month y 1 0 3) < 5 =
      omega (arith, nth_weekday_of_month-weekday y 1 0 3) in
    let presidents : weekday (nth_weekday_of_month y 2 0 3) < 5 =
      omega (arith, nth_weekday_of_month-weekday y 2 0 3) in
    let labor : weekday (nth_weekday_of_month y 9 0 1) < 5 =
      omega (arith, nth_weekday_of_month-weekday y 9 0 1) in
    let thanksgiving : weekday (nth_weekday_of_month y 11 3 4) < 5 =
      omega (arith, nth_weekday_of_month-weekday y 11 3 4) in
    let friday : weekday (ordinal (easter_sunday y) - 2) < 5 =
      omega (arith, good_friday-weekday p) in
    let memorial : weekday (last_weekday_of_month y 5 0) < 5 =
      omega (arith, last_monday_of_may p) in
    elim (Bool-cases (leb 2022 y)) [
      | inl e ↦ rw e (
        fixed 1 1,
        (
          mlk,
          (
            presidents,
            (
              friday,
              (memorial, (fixed 7 4, (labor, (thanksgiving, (fixed 12 25, (fixed 6 19, tt)))))),
            ),
          ),
        ),
      )
      | inr e ↦ rw e (
        fixed 1 1,
        (
          mlk,
          (
            presidents,
            (friday, (memorial, (fixed 7 4, (labor, (thanksgiving, (fixed 12 25, tt)))))),
          ),
        ),
      )
    ]
