-- ===== src/Releases/Tests.antt =====
-- Runs of the release checks, and their theorems at concrete inputs.
use stock_advisor.Calendar.{
  Date, date, days_before_month, days_before_year, is_leap, ordinal, weekday,
}
use stock_advisor.Prelude.Dict.{Dict, insert, lookup}
use stock_advisor.Prelude.{
  List, Option, String, [], if◌then◌else◌, map, none, refl, some, str_eq, ℕ, ◌∷◌, ◌≡◌,
}
use stock_advisor.Releases.{
  check_for_new_releases, check_series, estimate_monthly, estimate_next_release_date, middle_gap,
  new_release, usual_gaps,
}
use stock_advisor.Prelude.Sorting.{insert_desc, sort_desc}

-- The day of the last observation of each series: jobs have a new one.
abbrev feed : String → Option ℕ
feed k =
    if str_eq k "PAYEMS" then some 738946 else if str_eq k "CPIAUCSL" then some 738900 else none

abbrev known : Dict ℕ
known = ("PAYEMS", 738918) ∷ []

jobs_are_reported : map (λ r. r.prev_date) (check_for_new_releases feed known).0 ≡ 738918 ∷ []
unfolding check_for_new_releases check_series new_release lookup insert
jobs_are_reported = refl

next_thursday : estimate_next_release_date (ordinal (date 2026 3 5)) "weekly" [] ≡ some 739687
unfolding estimate_next_release_date ordinal days_before_month days_before_year weekday is_leap
next_thursday = refl

-- Gaps of 33 and 28 days: the upper one of the two in the middle.
middle_of_gaps :
    estimate_next_release_date
      (ordinal (date 2026 3 5))
      "monthly"
      (date 2026 2 11 ∷ date 2026 1 9 ∷ date 2025 12 12 ∷ [])
    ≡ some (ordinal (date 2026 3 16))
unfolding estimate_next_release_date estimate_monthly usual_gaps middle_gap sort_desc insert_desc
    ordinal days_before_month days_before_year weekday is_leap
middle_of_gaps = refl

abbrev answer : Option (List Date)
answer = some (date 2026 2 12 ∷ date 2026 2 11 ∷ date 2026 1 9 ∷ date 2025 12 12 ∷ [])
