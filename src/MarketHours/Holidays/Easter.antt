-- ===== src/MarketHours/Holidays/Easter.antt =====
-- Gauss's rule as `_easter_sunday` writes it gives a Sunday in the right five weeks.
use stock_advisor.Prelude.{
  ℕ, suc, ◌+◌, ◌-◌, ◌*◌, ◌/◌, ◌%◌, ◌≤◌, ◌<◌, ◌≡◌, ◌⊎◌, inl, inr, arith, ◌==◌, Bool-cases,
}
use stock_advisor.Calendar.{
  date, is_leap, days_in_month, days_before_month, days_before_year, ordinal, weekday,
}
use stock_advisor.MarketHours.Holidays.{easter_code, easter_sunday}

-- 22 March and 25 April in the code 31 * month + day - 1.
pub easter_code_range : (y : ℕ) → (114 ≤ easter_code y) × (easter_code y ≤ 148)
unfolding easter_code
easter_code_range y = omega arith

-- The code in the terms that the day number is made of.
easter_code-mod_seven :
    (y : ℕ)
    → easter_code y % 7 ≡ (146 + 2 * (y / 100 % 4) + 2 * (y % 100 / 4) + 7 - y % 100 % 4) % 7
unfolding easter_code
easter_code-mod_seven y = omega arith

-- The days of the years up to `suc p`, its 29 February included.
before_march :
    (p : ℕ)
    → days_before_year (suc p) + days_before_month (suc p) 3 + 306
      ≡ 365 * suc p + suc p / 4 + suc p / 400 - suc p / 100
unfolding days_before_year days_before_month days_in_month is_leap
before_march p = ground arith

march_or_april : (q : ℕ) → 93 ≤ q → q < 155 → (q / 31 ≡ 3) ⊎ (q / 31 ≡ 4)
march_or_april q lo hi = elim (Bool-cases (q / 31 == 3)) [
  | inl e ↦ inl (ground arith)
  | inr e ↦ inr (ground arith)
]

-- In March and April a code stands for the day that many days after 28 February, less 92.
ordinal-code :
    (y q : ℕ)
    → 93 ≤ q
    → q < 155
    → ordinal (date y (q / 31) (q % 31 + 1)) + 92 ≡ days_before_year y + days_before_month y 3 + q
unfolding ordinal days_before_month days_in_month
ordinal-code y q lo hi = elim (march_or_april q lo hi) [
  | inl e ↦ rw e (omega arith)
  | inr e ↦ rw e (omega arith)
]

-- The day number of the Easter date in terms of the code.
pub ordinal-easter_sunday :
    (p : ℕ)
    → let y = suc p in
      ordinal (easter_sunday y) + 398 ≡ 365 * y + y / 4 + y / 400 - y / 100 + easter_code y
unfolding easter_sunday
ordinal-easter_sunday p =
    omega
      (arith, easter_code_range (suc p), before_march p, ordinal-code (suc p) (easter_code (suc p)))

easter_sunday-weekday : (p : ℕ) → weekday (ordinal (easter_sunday (suc p))) ≡ 6
unfolding weekday
easter_sunday-weekday p =
    omega (arith, ordinal-easter_sunday p, easter_code_range (suc p), easter_code-mod_seven (suc p))

easter_sunday_range :
    (p : ℕ)
    → let y = suc p in
      (ordinal (date y 3 22) ≤ ordinal (easter_sunday y))
      × (ordinal (easter_sunday y) ≤ ordinal (date y 4 25))
unfolding ordinal days_before_month days_in_month easter_sunday
easter_sunday_range p =
    let code = easter_code_range (suc p) in
    let o = ordinal-code (suc p) (easter_code (suc p)) (omega arith) (omega arith) in
    (omega arith, omega arith)

-- In every year `_easter_sunday` is a Sunday, and it lies between 22 March and 25 April.
pub easter_sunday-IsSunday :
    (p : ℕ)
    → let y = suc p in
      (weekday (ordinal (easter_sunday y)) ≡ 6)
      × (ordinal (date y 3 22) ≤ ordinal (easter_sunday y))
      × (ordinal (easter_sunday y) ≤ ordinal (date y 4 25))
easter_sunday-IsSunday p =
    let range = easter_sunday_range p in (easter_sunday-weekday p, range.0, range.1)
