-- ===== src/Releases.antt =====
-- services/market/economic_calendar_service.py: the table SERIES_META, the dates of past releases
-- kept once per month, the estimate of the next release, and `check_for_new_releases` with its cache
-- `_last_obs_date`. What FRED answers is an argument; a date text stands as the date it writes, and
-- the order of such texts is the order of the day numbers.
pub mod Repeat
pub mod Months
mod Tests
use stock_advisor.Prelude.{
  ◌%◌, ◌&&◌, ◌+◌, ◌++◌, ◌-◌, ◌/◌, ◌==◌, Bool, List, Option, String, [], ap, arith, eq_iff, false,
  get_elem?, if◌then◌else◌, inl, inr, leb, length, ltb, none, some, str_eq, suc, zero, ◌||◌, ℕ, ◌∷◌,
  ◌≡◌, ◌⊎◌, option_cases, true,
}
use stock_advisor.Calendar.{Date, ordinal, weekday}
use stock_advisor.Prelude.Dict.{Dict, insert, lookup, lookup-insert}
use stock_advisor.Prelude.Sorting.{sort_desc}
use stock_advisor.MarketHours.Sessions.{time}

pub record Series : Type 0 where
  pub series_id : String
  pub release_id : String
  pub name : String
  pub time_et : String
  pub weight : ℕ
  pub freq : String

abbrev series : String → String → String → String → ℕ → String → Series
series id release label time points every = record {
  series_id = id;
  release_id = release;
  name = label;
  time_et = time;
  weight = points;
  freq = every;
}

-- `SERIES_META`
abbrev pub series_meta : List Series
series_meta =
    series "CPIAUCSL" "10" "소비자물가지수(CPI)" "08:30" 3 "monthly"
    ∷ series "PPIACO" "31" "생산자물가지수(PPI)" "08:30" 2 "monthly"
    ∷ series "PAYEMS" "50" "비농업고용(NFP)" "08:30" 3 "monthly"
    ∷ series "UNRATE" "50" "실업률" "08:30" 3 "monthly"
    ∷ series "CES0500000003" "50" "시간당평균임금" "08:30" 1 "monthly"
    ∷ series "UMCSENT" "290" "소비자신뢰지수(미시간)" "10:00" 2 "monthly"
    ∷ series "IPMAN" "13" "제조업생산(PMI)" "09:15" 2 "monthly"
    ∷ series "RSXFS" "84" "소매판매" "08:30" 2 "monthly"
    ∷ series "INDPRO" "13" "산업생산지수" "09:15" 1 "monthly"
    ∷ series "TCU" "13" "설비가동률" "09:15" 1 "monthly"
    ∷ series "HOUST" "52" "주택착공" "08:30" 1 "monthly"
    ∷ series "PERMIT" "52" "건축허가" "08:30" 1 "monthly"
    ∷ series "DGORDER" "86" "내구재주문" "08:30" 2 "monthly"
    ∷ series "ICSA" "120" "실업수당청구(주간)" "08:30" 2 "weekly"
    ∷ []

abbrev pub same_month : Date → Date → Bool
same_month s t = (s.year == t.year) && (s.month == t.month)

unfoldable pub month_seen : Date → List Date → Bool
month_seen t [] = false
month_seen t (s ∷ seen) = same_month s t || month_seen t seen

-- The loop of `_get_past_release_dates` with `room` dates still wanted.
unfoldable pub first_of_months : ℕ → List Date → List Date → List Date
first_of_months room seen [] = []
first_of_months room seen (t ∷ dates) = elim (month_seen t seen) [
  | true ↦ if room == 0 then [] else first_of_months room seen dates
  | false ↦ t ∷ (if room - 1 == 0 then [] else first_of_months (room - 1) (t ∷ seen) dates)
]

-- `_get_past_release_dates`: no dates when there is no key or the request fails.
unfoldable pub get_past_release_dates : ℕ → Option (List Date) → List Date
get_past_release_dates n none = []
get_past_release_dates n (some dates) = first_of_months n [] dates

-- The gaps of 20 to 50 days between neighbours, of the first `pairs` pairs.
unfoldable pub usual_gaps : ℕ → List Date → List ℕ
usual_gaps zero past = []
usual_gaps (suc pairs) [] = []
usual_gaps (suc pairs) (s ∷ []) = []
usual_gaps (suc pairs) (s ∷ t ∷ past) =
    let rest = usual_gaps pairs (t ∷ past) in
    let diff = ordinal s - ordinal t in if leb 20 diff && leb diff 50 then diff ∷ rest else rest

-- The middle gap in ascending order, the upper one of two; 30 days when there is none.
unfoldable pub middle_gap : List ℕ → ℕ
middle_gap deltas =
    let sorted = sort_desc ltb deltas in
    elim (get_elem? sorted (length sorted - 1 - length sorted / 2)) [ none ↦ 30 | some n ↦ n ]

unfoldable pub estimate_monthly : ℕ → List Date → Option ℕ
estimate_monthly today [] = none
estimate_monthly today (t ∷ past) =
    if ltb today (ordinal t)
    then some (ordinal t)
    else some (ordinal t + middle_gap (usual_gaps 4 (t ∷ past)))

-- `_estimate_next_release_date` on the day `today`, with the past dates, newest first.
unfoldable pub estimate_next_release_date : ℕ → String → List Date → Option ℕ
estimate_next_release_date today freq past =
    let ahead = (10 - weekday today) % 7 in
    if str_eq freq "weekly"
    then some (today + (if ahead == 0 then 7 else ahead))
    else estimate_monthly today past

pub record Release : Type 0 where
  pub released : Series
  pub new_date : ℕ
  pub prev_date : ℕ

-- The report on one series: its latest day is after the day in the cache.
unfoldable pub new_release : Dict ℕ → Series → ℕ → List Release
new_release cache s latest = elim (lookup s.series_id cache) [
  | none ↦ []
  | some prev ↦
      if ltb prev latest
      then (record { released = s; new_date = latest; prev_date = prev }) ∷ []
      else []
]

-- The loop of `check_for_new_releases` over a table, with the latest day of each series.
unfoldable pub check_series : (String → Option ℕ) → List Series → Dict ℕ → List Release × Dict ℕ
check_series latest_of [] cache = ([], cache)
check_series latest_of (s ∷ rest) cache = elim (latest_of s.series_id) [
  | none ↦ check_series latest_of rest cache
  | some latest ↦
      let after = check_series latest_of rest (insert s.series_id latest cache) in
      (new_release cache s latest ++ after.0, after.1)
]

unfoldable pub check_for_new_releases : (String → Option ℕ) → Dict ℕ → List Release × Dict ℕ
check_for_new_releases latest_of cache = check_series latest_of series_meta cache
